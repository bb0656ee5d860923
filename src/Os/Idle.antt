-- ===== src/Os/Idle.antt =====
-- The processors, in every order of the rounds of all threads.
use lab_os_assignment.Base.{
  ℕ, suc, ◌≡◌, refl, sym, ap, ◌∙◌, Option, none, some, List, get_elem?, set, set_all,
  get_elem?-replicate, subst, some-injective,
}
use lab_os_assignment.Outcome.{ok, >>=-eq-ok, ok-injective}
use lab_os_assignment.Words.{rounds_to}
use lab_os_assignment.Device.{Device, init_memphy}
use lab_os_assignment.Sched.{Sched, init_scheduler}
use lab_os_assignment.Sched.Dispatch.{get_proc-none}
use lab_os_assignment.Loader.{Program}
use lab_os_assignment.Os.{
  Task, Machine, Event, waits, stops, CpuState, LdArgs, Fresh, LdState, cpu_round, ld_round,
}
use lab_os_assignment.Os.Kept.{ld_round-Kept}
use lab_os_assignment.Os.System.{
  System, unless_stopped, Step, cpu, loader, tick, idle, boot, Reach, start, later,
}

-- A processor without a process waits for the next slot, and changes nothing, also when no process
-- will come any more.
pub cpu_round-idle :
    (fuel time_slot left : ℕ) (m : Machine)
    → cpu_round (suc fuel) time_slot (record { proc = none; time_left = left }) m
      ≡ ok (waits, record { proc = none; time_left = left }, m)
unfolding cpu_round
cpu_round-idle fuel time_slot left m = rw (get_proc-none fuel m.sched)

-- No processor has stopped or holds a process; no task has run; RAM and swap are those of `first`.
pub record IsIdle (first s : System) : Type 0 where
  pub cpus : (i : ℕ) (c : Option CpuState) → get_elem? s.cpus i ≡ some c → c ≡ some idle
  pub tasks : (pid : ℕ) (t : Task) → s.machine.tasks pid ≡ some t → t.pc ≡ 0
  pub loaded : (l : LdState) (p : Program) → s.ld ≡ some l → l.proc ≡ some p → p.pc ≡ 0
  pub mram : s.machine.mram ≡ first.machine.mram
  pub active_mswp : s.machine.active_mswp ≡ first.machine.active_mswp

cpu-IsIdle :
    {first s : System} (fuel time_slot i : ℕ) (c : CpuState) {e : Event} {c' : CpuState}
    {m' : Machine}
    → get_elem? s.cpus i ≡ some (some c)
    → cpu_round (suc fuel) time_slot c s.machine ≡ ok (e, c', m')
    → IsIdle first s
    → IsIdle first (record s { cpus = set s.cpus i (unless_stopped e c'); machine = m' })
cpu-IsIdle {s} fuel time_slot i c {e} {c'} {m'} at round v =
    let here : c ≡ idle = some-injective (v.cpus i (some c) at) in
    let same : ◌≡◌ {A = Event × CpuState × Machine} (waits, idle, s.machine) (e, c', m') =
      ok-injective (sym (cpu_round-idle fuel time_slot 0 s.machine) ∙ (rw here at round)) in
    let waited : waits ≡ e = ap (λ r. r.0) same in
    let still : idle ≡ c' = ap (λ r. r.1) same in
    let machine : s.machine ≡ m' = ap (λ r. r.2) same in
    record {
      cpus =
          set_all (λ j x. x ≡ some idle) s.cpus i (unless_stopped e c') (rw (← waited, ← still))
            (λ j a ne was. v.cpus j a was);
      tasks =
          subst (λ (m : Machine). (pid : ℕ) (t : Task) → m.tasks pid ≡ some t → t.pc ≡ 0) machine
            v.tasks;
      loaded = v.loaded;
      mram = sym (ap (λ (m : Machine). m.mram) machine) ∙ v.mram;
      active_mswp = sym (ap (λ (m : Machine). m.active_mswp) machine) ∙ v.active_mswp;
    }

loader-IsIdle :
    {first s : System} (processes : List LdArgs) (l : LdState) (new : Fresh) {e : Event}
    {l' : LdState} {m' : Machine}
    → s.ld ≡ some l
    → ld_round processes s.time new l s.machine ≡ ok (some (e, l', m'))
    → IsIdle first s
    → IsIdle first (record s { ld = unless_stopped e l'; machine = m' })
loader-IsIdle {s} processes l new {e} {l'} {m'} at round v =
    let kept =
      ld_round-Kept processes s.time new l s.machine (e, l', m') round (λ p q. v.loaded l p at q)
        v.tasks in
    record {
      cpus = v.cpus;
      tasks = kept.tasks;
      loaded = λ x p is q. waits_only e l' x p is q kept.loaded;
      mram = kept.mram ∙ v.mram;
      active_mswp = kept.active_mswp ∙ v.active_mswp;
    }
  where
    waits_only :
        (e : Event) (l' x : LdState) (p : Program)
        → unless_stopped e l' ≡ some x
        → x.proc ≡ some p
        → ((p : Program) → l'.proc ≡ some p → p.pc ≡ 0)
        → p.pc ≡ 0
    waits_only waits l' x p is q z = z p (ap (λ (y : LdState). y.proc) (some-injective is) ∙ q)
    waits_only stops l' x p is q z = cc

Step-IsIdle :
    {fuel time_slot : ℕ} {processes : List LdArgs} {first s t : System}
    → Step fuel time_slot processes s t
    → IsIdle first s
    → IsIdle first t
Step-IsIdle {fuel} {time_slot} (cpu i c at round) v = cpu-IsIdle fuel time_slot i c at round v
Step-IsIdle {processes} (loader l new at round) v = loader-IsIdle processes l new at round v
Step-IsIdle tick v = record {
  cpus = v.cpus;
  tasks = v.tasks;
  loaded = v.loaded;
  mram = v.mram;
  active_mswp = v.active_mswp;
}

Reach-IsIdle :
    {fuel time_slot : ℕ} {processes : List LdArgs} {first s : System}
    → IsIdle first first
    → Reach fuel time_slot processes first s
    → IsIdle first s
Reach-IsIdle v start = v
Reach-IsIdle v (later r step) = Step-IsIdle step (Reach-IsIdle v r)

boot-IsIdle :
    (num_cpus memramsz memswpsz : ℕ) (bytes : List ℕ) (left : Device) (s : Sched) (first : System)
    → boot num_cpus memramsz memswpsz bytes left s ≡ ok first
    → IsIdle first first
unfolding boot
boot-IsIdle num_cpus memramsz memswpsz bytes left s first e =
    let (mram, _, e1) = >>=-eq-ok (init_memphy bytes left memramsz 1) _ e in
    let (mswp, _, e2) = >>=-eq-ok (init_memphy bytes left memswpsz 1) _ e1 in
    let (sched, _, e3) = >>=-eq-ok (init_scheduler s) _ e2 in
    subst (λ x. IsIdle x x) (ok-injective e3)
      (record {
        cpus = λ i c. get_elem?-replicate (rounds_to num_cpus) i (some idle) c;
        tasks = λ pid t. cc;
        loaded = λ l p is q. cc;
        mram = refl;
        active_mswp = refl;
      })

-- Whatever the configuration and the order of the rounds of all threads, no processor ever ends or
-- holds a process, no process runs an instruction, and RAM and swap stay as they were set up.
pub never_runs :
    {fuel time_slot : ℕ} {processes : List LdArgs} {s : System} (num_cpus memramsz memswpsz : ℕ)
    (bytes : List ℕ) (left : Device) (unset : Sched) (first : System)
    → boot num_cpus memramsz memswpsz bytes left unset ≡ ok first
    → Reach fuel time_slot processes first s
    → IsIdle first s
never_runs num_cpus memramsz memswpsz bytes left unset first e r =
    Reach-IsIdle (boot-IsIdle num_cpus memramsz memswpsz bytes left unset first e) r
