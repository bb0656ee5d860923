-- ===== src/Program/Waiting.antt =====
-- What main and the devices do while no processor ends.
use lab_os_assignment.Base.{
  ℕ, suc, ◌<◌, ◌≡◌, ◌≢◌, refl, sym, ap, ◌∙◌, arith, false, Option, none, some, List, length,
  length-set, get_elem?, get_elem?-some, set, set_all, subst, some-injective,
}
use lab_os_assignment.Outcome.{ok, ok-injective}
use lab_os_assignment.Os.{Machine, Event, waits, stops, CpuState, LdArgs, LdState, Fresh, cpu_round}
use lab_os_assignment.Os.System.{System, idle, unless_stopped}
use lab_os_assignment.Os.Idle.{IsIdle, cpu_round-idle}
use lab_os_assignment.Timer.{waiting, gone, TimerId, Timer, next_slot, end_wait, detach_event}
use lab_os_assignment.Timer.Keeps.{Keeps, timer_routine-Keeps}
use lab_os_assignment.Program.{
  State, joins_cpu, cpu_device, signal, next_cpu, last_cpu, stop, return, Step, runs_cpu,
  runs_loader, resumes, turns, joins,
}
use lab_os_assignment.Program.Parts.{system_of}

-- main waits for processor 0; the devices are one more than the processors; those of the processors
-- have not left, and that of the loader has if the loader has ended.
pub record IsWaiting (p : State) : Type 0 where
  pub main : p.main ≡ joins_cpu 0
  pub some_cpu : 0 < length p.cpus
  pub size : length p.timer.dev_list ≡ suc (length p.cpus)
  pub running : p.timer.timer_stop ≡ false
  pub cpus : (k : ℕ) (d : TimerId) → get_elem? p.timer.dev_list k ≡ some d → k ≢ 0 → d.pc ≢ gone
  pub ended :
      (k : ℕ) (d : TimerId)
      → get_elem? p.timer.dev_list k ≡ some d
      → k ≡ 0
      → p.ld ≡ none
      → d.pc ≡ gone

-- The round of an idle processor.
pub idle_round :
    {first : System} (p : State) (fuel time_slot i : ℕ) (c : CpuState) {e : Event} {c' : CpuState}
    {m' : Machine}
    → IsIdle first (system_of p)
    → get_elem? p.cpus i ≡ some (some c)
    → cpu_round (suc fuel) time_slot c p.machine ≡ ok (e, c', m')
    → (waits ≡ e) × (p.machine ≡ m')
idle_round p fuel time_slot i c {e} {c'} {m'} v at round =
    let here : c ≡ idle = some-injective (v.cpus i (some c) at) in
    let same : ◌≡◌ {A = Event × CpuState × Machine} (waits, idle, p.machine) (e, c', m') =
      ok-injective (sym (cpu_round-idle fuel time_slot 0 p.machine) ∙ (rw here at round)) in
    (ap (λ r. r.0) same, ap (λ r. r.2) same)

cpu-IsWaiting :
    {p : State} (i : ℕ) (x : Option CpuState) (c : CpuState) (d : TimerId) (m' : Machine)
    → get_elem? p.cpus i ≡ some (some c)
    → IsWaiting p
    → IsWaiting (record p {
      machine = m';
      cpus = set p.cpus i x;
      timer = record (p.timer) { dev_list = set p.timer.dev_list (cpu_device p i) (next_slot d) };
    })
unfolding next_slot
cpu-IsWaiting {p} i x c d m' at v =
    let inside : i < length p.cpus = get_elem?-some p.cpus i at in
    record {
      main = v.main;
      some_cpu = omega (arith, length-set p.cpus i x, v.some_cpu);
      size =
          length-set p.timer.dev_list (cpu_device p i) _
          ∙ v.size
          ∙ ap suc (sym (length-set p.cpus i x));
      running = v.running;
      cpus =
          set_all (λ k e. k ≢ 0 → e.pc ≢ gone) p.timer.dev_list (cpu_device p i) (next_slot d)
            (λ ne g. cc) (λ j e ne was. v.cpus j e was);
      ended =
          set_all (λ k e. k ≡ 0 → p.ld ≡ none → e.pc ≡ gone) p.timer.dev_list (cpu_device p i)
            (next_slot d) (λ z. absurd (omega arith)) (λ j e ne was. v.ended j e was);
    }

loader-IsWaiting :
    {p : State} (l : LdState) (d : TimerId) (e : Event) (l' : LdState) (m' : Machine)
    → IsWaiting p
    → IsWaiting (record p {
      machine = m';
      ld = unless_stopped e l';
      timer = record (p.timer) { dev_list = set p.timer.dev_list 0 (signal e d) };
    })
unfolding next_slot detach_event
loader-IsWaiting {p} l d e l' m' v = record {
  main = v.main;
  some_cpu = v.some_cpu;
  size = length-set p.timer.dev_list 0 (signal e d) ∙ v.size;
  running = v.running;
  cpus =
      set_all (λ k x. k ≢ 0 → x.pc ≢ gone) p.timer.dev_list 0 (signal e d) (λ ne. absurd (ne refl))
        (λ j x ne was. v.cpus j x was);
  ended =
      set_all (λ k x. k ≡ 0 → unless_stopped e l' ≡ none → x.pc ≡ gone) p.timer.dev_list 0
        (signal e d) (λ z. has_left e) (λ j x ne was z. absurd (ne (sym z)));
}
  where
    has_left : (e : Event) → unless_stopped e l' ≡ none → (signal e d).pc ≡ gone
    has_left waits h = cc
    has_left stops h = refl

resume-IsWaiting :
    {p : State} (j : ℕ) (d : TimerId)
    → get_elem? p.timer.dev_list j ≡ some d
    → d.pc ≡ waiting
    → IsWaiting p
    → IsWaiting
        (record p { timer = record (p.timer) { dev_list = set p.timer.dev_list j (end_wait d) } })
unfolding end_wait
resume-IsWaiting {p} j d at paused v = record {
  main = v.main;
  some_cpu = v.some_cpu;
  size = length-set p.timer.dev_list j (end_wait d) ∙ v.size;
  running = v.running;
  cpus =
      set_all (λ k x. k ≢ 0 → x.pc ≢ gone) p.timer.dev_list j (end_wait d) (λ ne g. cc)
        (λ k x ne was. v.cpus k x was);
  ended =
      set_all (λ k x. k ≡ 0 → p.ld ≡ none → x.pc ≡ gone) p.timer.dev_list j (end_wait d)
        (λ z over. (let left = v.ended j d at z over in cc)) (λ k x ne was. v.ended k x was);
}

turn-IsWaiting :
    {p : State} (t : Timer) → Keeps p.timer t → IsWaiting p → IsWaiting (record p { timer = t })
turn-IsWaiting {p} t k v = record {
  main = v.main;
  some_cpu = v.some_cpu;
  size = k.size ∙ v.size;
  running = k.timer_stop ∙ v.running;
  cpus = λ j d' at ne g.
      (let (d, was, pc, slots) = k.devices j d' at in v.cpus j d was ne (sym pc ∙ g));
  ended = λ j d' at z over.
      (let (d, was, pc, slots) = k.devices j d' at in pc ∙ v.ended j d was z over);
}

pub Step-IsWaiting :
    {fuel time_slot : ℕ} {processes : List LdArgs} {new : ℕ → Fresh} {first : System} {p q : State}
    → Step fuel time_slot processes new p q
    → IsIdle first (system_of p)
    → IsWaiting p
    → IsWaiting q
Step-IsWaiting {fuel} {time_slot} {p} (runs_cpu i c d {e} {c'} {m'} at dev works round) h v =
    let (waited, same) = idle_round p fuel time_slot i c h at round in
    subst
      (λ x. IsWaiting (record p {
        machine = m';
        cpus = set p.cpus i (unless_stopped e c');
        timer = record (p.timer) { dev_list = set p.timer.dev_list (cpu_device p i) (signal x d) };
      }))
      waited (cpu-IsWaiting i (unless_stopped e c') c d m' at v)
Step-IsWaiting (runs_loader l d {e} {l'} {m'} at dev works round) h v =
    loader-IsWaiting l d e l' m' v
Step-IsWaiting (resumes j d dev paused ready) h v = resume-IsWaiting j d dev paused v
Step-IsWaiting {p} (turns {t} e) h v = turn-IsWaiting t (timer_routine-Keeps p.timer t e) v
Step-IsWaiting (joins (next_cpu i m at)) h v = (let none_left = h.cpus i none at in cc)
Step-IsWaiting {p} (joins (last_cpu i m past)) h v =
    let first_cpu : joins_cpu 0 ≡ joins_cpu i = sym v.main ∙ m in
    let zero_eq : 0 ≡ i = cc in absurd (omega (arith, v.some_cpu))
Step-IsWaiting (joins (stop m at)) h v = (let clash = sym v.main ∙ m in cc)
Step-IsWaiting (joins (return m at)) h v = (let clash = sym v.main ∙ m in cc)
