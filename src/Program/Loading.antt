-- ===== src/Program/Loading.antt =====
-- The rounds that the loader has made, in the states of the program.
use lab_os_assignment.Base.{
  ℕ, suc, ◌+◌, ◌^◌, ◌<◌, ◌≡◌, ◌≢◌, refl, sym, ap, ◌∙◌, arith, Option, none, some, List, length,
  get_elem?, get_elem?-some, set, set_all, subst, some-injective,
}
use lab_os_assignment.Outcome.{ok}
use lab_os_assignment.Os.{Machine, Event, waits, stops, CpuState, LdArgs, LdState, Fresh, ld_round}
use lab_os_assignment.Os.System.{System, unless_stopped}
use lab_os_assignment.Os.Idle.{IsIdle}
use lab_os_assignment.Os.Lines.{at_line}
use lab_os_assignment.Os.Lines.Ended.{one_more}
use lab_os_assignment.Os.Loading.{ld_rounds}
use lab_os_assignment.Timer
use lab_os_assignment.Timer.{
  working, waiting, gone, TimerId, fresh, started, start_timer, Timer, next_slot, end_wait,
  detach_event, current_time, free_devices, stop_timer,
}
use lab_os_assignment.Timer.Keeps.{Keeps, timer_routine-Keeps}
use lab_os_assignment.Timer.Lockstep.{working-rounds, current_time-working}
use lab_os_assignment.Program.{
  State, MainPc, joins_cpu, joins_ld, stopping, returned, cpu_device, signal, Joins, next_cpu,
  last_cpu, stop, return, Step, runs_cpu, runs_loader, resumes, turns, joins,
}
use lab_os_assignment.Program.Parts.{system_of}
use lab_os_assignment.Program.Waiting.{idle_round}

-- In the rest: the loader's configuration, and the machine that it starts from.
module _ (processes : List LdArgs) (new : ℕ → Fresh) (m0 : Machine) where
  -- The first `k` rounds of the loader give `l` and `m`, and end with `e`.
  abbrev pub Ran : (k : ℕ) → Event → LdState → Machine → Type 0
  Ran k e l m = ld_rounds k processes 0 new (at_line 0 1) m0 ≡ ok (some (e, l, m))

  -- The rounds that the loader has made, as its device counts them.
  abbrev pub RanFor : LdState → Machine → TimerId → Type 0
  RanFor l m d =
      (d.pc ≢ gone)
      × (d.pc ≡ working → Ran d.slots waits l m)
      × (d.pc ≡ waiting → Ran (d.slots + 1) waits l m)

  pub record Loading (p : State) : Type 0 where
    pub alive :
        (l : LdState)
        → p.ld ≡ some l
        → (k : ℕ) (d : TimerId) → get_elem? p.timer.dev_list k ≡ some d
        → k ≡ 0
        → RanFor l p.machine d
    pub ended : p.ld ≡ none → (k : ℕ) × (l : LdState) × Ran k stops l p.machine

  -- A step that leaves the loader and the machine as they are.
  devices-Loading :
      {p : State} (t : Timer)
      → ((k : ℕ) (d' : TimerId)
          → get_elem? t.dev_list k ≡ some d'
          → k ≡ 0
          → (d : TimerId) × (get_elem? p.timer.dev_list k ≡ some d)
            × ((l : LdState) → RanFor l p.machine d → RanFor l p.machine d'))
      → Loading p
      → Loading (record p { timer = t })
  devices-Loading {p} t back v = record {
    alive = λ l some_l k d' at z.
        (let (d, was, keeps) = back k d' at z in keeps l (v.alive l some_l k d was z));
    ended = v.ended;
  }

  loader-Loading :
      (p : State) (l : LdState) (d : TimerId) (e : Event) (l' : LdState) (m' : Machine)
      → Ran (d.slots + 1) e l' m'
      → Loading (record p {
        machine = m';
        ld = unless_stopped e l';
        timer = record (p.timer) { dev_list = set p.timer.dev_list 0 (signal e d) };
      })
  unfolding next_slot detach_event
  loader-Loading p l d waits l' m' ran = record {
    alive = λ l'' same.
        set_all (λ k x. k ≡ 0 → RanFor l'' m' x) p.timer.dev_list 0 (next_slot d)
          (λ z. (
            λ g. cc,
            λ g. cc,
            λ g. subst (λ x. Ran (d.slots + 1) waits x m') (some-injective same) ran,
          ))
          (λ j x ne was z. absurd (ne (sym z)));
    ended = λ e. cc;
  }
  loader-Loading p l d stops l' m' ran = record {
    alive = λ l'' same. cc;
    ended = λ e. (d.slots + 1, l', ran);
  }

  resume-Loading :
      {p : State} (j : ℕ) (d : TimerId)
      → get_elem? p.timer.dev_list j ≡ some d
      → d.pc ≡ waiting
      → Loading p
      → Loading
          (record p { timer = record (p.timer) { dev_list = set p.timer.dev_list j (end_wait d) } })
  unfolding end_wait
  resume-Loading {p} j d at paused v =
      devices-Loading (record (p.timer) { dev_list = set p.timer.dev_list j (end_wait d) })
        (set_all
          (λ k x.
            k ≡ 0
            → (d0 : TimerId) × (get_elem? p.timer.dev_list k ≡ some d0)
              × ((l : LdState) → RanFor l p.machine d0 → RanFor l p.machine x))
          p.timer.dev_list j (end_wait d)
          (λ z. (d, at, λ l ran. (λ g. cc, λ g. ran.2 paused, λ g. cc)))
          (λ k x ne was z. (x, was, λ l ran. ran)))
        v

  turn-Loading :
      {p : State} (t : Timer) → Keeps p.timer t → Loading p → Loading (record p { timer = t })
  turn-Loading {p} t keeps v =
      devices-Loading t
        (λ k d' at z.
          (let (d, was, pc, slots) = keeps.devices k d' at in
            (
              d,
              was,
              λ l ran. (
                λ g. ran.0 (sym pc ∙ g),
                λ g. subst (λ n. Ran n waits l p.machine) (sym slots) (ran.1 (sym pc ∙ g)),
                λ g. subst (λ n. Ran (n + 1) waits l p.machine) (sym slots) (ran.2 (sym pc ∙ g)),
              ),
            )))
        v

  -- The machine may be another that is equal.
  main-Loading :
      {p : State} (cpus : List (Option CpuState)) (main : MainPc)
      → Loading p
      → Loading (record p { cpus = cpus; main = main })
  main-Loading cpus main v = record { alive = v.alive; ended = v.ended }

  cpu-Loading :
      {p : State} (i : ℕ) (x : Option CpuState) (d : TimerId)
      → i < length p.cpus
      → Loading p
      → Loading (record p {
        cpus = set p.cpus i x;
        timer = record (p.timer) { dev_list = set p.timer.dev_list (cpu_device p i) d };
      })
  cpu-Loading {p} i x d inside v = main-Loading (set p.cpus i x) p.main (
      devices-Loading (record (p.timer) { dev_list = set p.timer.dev_list (cpu_device p i) d })
        (set_all
          (λ k y.
            k ≡ 0
            → (d0 : TimerId) × (get_elem? p.timer.dev_list k ≡ some d0)
              × ((l : LdState) → RanFor l p.machine d0 → RanFor l p.machine y))
          p.timer.dev_list (cpu_device p i) d (λ z. absurd (omega arith))
          (λ k y ne was z. (y, was, λ l ran. ran)))
        v)

  Joins-Loading : {p q : State} → Joins p q → Loading p → Loading q
  unfolding stop_timer free_devices
  Joins-Loading {p} (next_cpu i m at) v = main-Loading p.cpus (joins_cpu (suc i)) v
  Joins-Loading {p} (last_cpu i m at) v = main-Loading p.cpus joins_ld v
  Joins-Loading {p} (stop m at) v =
      main-Loading p.cpus stopping
        (devices-Loading (stop_timer p.timer) (λ k d at z. (d, at, λ l ran. ran)) v)
  Joins-Loading {p} (return m at) v =
      main-Loading p.cpus returned (devices-Loading (free_devices p.timer) (λ k d at z. cc) v)

  pub Step-Loading :
      {n fuel time_slot : ℕ} {first : System} {p q : State}
      → Step fuel time_slot processes new p q
      → IsIdle first (system_of p)
      → Timer.Reach n p.timer
      → p.timer.rounds < 2 ^ 64
      → Loading p
      → Loading q
  Step-Loading {fuel} {time_slot} {p} (runs_cpu i c d {e} {c'} {m'} at dev works round) h r small
        v =
      subst
        (λ m. Loading (record p {
          machine = m;
          cpus = set p.cpus i (unless_stopped e c');
          timer = record (p.timer) {
            dev_list = set p.timer.dev_list (cpu_device p i) (signal e d);
          };
        }))
        (idle_round p fuel time_slot i c h at round).1
        (cpu-Loading i (unless_stopped e c') (signal e d) (get_elem?-some p.cpus i at) v)
  Step-Loading {p} (runs_loader l d {e} {l'} {m'} at dev works round) h r small v =
      let same : d.slots ≡ p.timer.rounds = working-rounds 0 d r dev works in
      let now : current_time p.timer ≡ d.slots =
        current_time-working 0 d r dev works ∙ omega (arith, small, same) in
      loader-Loading p l d e l' m' (
        one_more processes new d.slots (at_line 0 1) l l' m0 p.machine m' e
          ((v.alive l at 0 d dev refl).1 works)
          (ap (λ t. ld_round processes t (new t) l p.machine) (sym now) ∙ round))
  Step-Loading (resumes j d dev paused ready) h r small v = resume-Loading j d dev paused v
  Step-Loading {p} (turns {t} e) h r small v = turn-Loading t (timer_routine-Keeps p.timer t e) v
  Step-Loading (joins j) h r small v = Joins-Loading j v
