-- ===== src/Program/Returns.antt =====
-- From the boot of the program on: main does not get past its first join, and some thread can go on.
use lab_os_assignment.Base.{
  ℕ, suc, ◌<◌, ◌≡◌, ◌≢◌, inl, inr, refl, arith, some, List, length, length-replicate, get_elem?_lt,
  subst,
}
use lab_os_assignment.Outcome.{ok, ok-injective, >>=-eq-ok}
use lab_os_assignment.Words.{rounds_to}
use lab_os_assignment.Device.{Device, init_memphy}
use lab_os_assignment.Sched.{Sched, init_scheduler}
use lab_os_assignment.Os.{LdArgs, Fresh}
use lab_os_assignment.Os.System.{System, idle, boot}
use lab_os_assignment.Os.Idle.{IsIdle, never_runs}
use lab_os_assignment.Os.Lines.{at_line}
use lab_os_assignment.Timer.{
  working, waiting, gone, TimerId, exited, Timer, Move, call, leave, resume, current_time,
  timer_routine, attach_event, attach_many, started, start_timer, no_timer, fresh,
}
use lab_os_assignment.Timer.New.{attach_many-IsNew}
use lab_os_assignment.Timer
use lab_os_assignment.Timer.Lockstep.{exited-AllLeft}
use lab_os_assignment.Program.{State, joins_cpu, launch, Reach, start, later}
use lab_os_assignment.Program.Parts.{system_of, Reach-parts}
use lab_os_assignment.Program.Waiting.{IsWaiting, Step-IsWaiting}

-- The arguments of `boot`.
pub record BootArgs : Type 0 where
  pub num_cpus : ℕ
  pub memramsz : ℕ
  pub memswpsz : ℕ
  pub bytes : List ℕ
  pub left : Device
  pub unset : Sched

abbrev pub Boots : BootArgs → System → Type 0
Boots b first = boot b.num_cpus b.memramsz b.memswpsz b.bytes b.left b.unset ≡ ok first

-- What boot leaves besides memory and queues.
pub record IsBooted (n : ℕ) (first : System) : Type 0 where
  pub time : first.time ≡ 0
  pub cpus : length first.cpus ≡ n
  pub ld : first.ld ≡ some (at_line 0 1)

pub boot-IsBooted :
    (b : BootArgs) (first : System) → Boots b first → IsBooted (rounds_to b.num_cpus) first
unfolding boot
boot-IsBooted b first e =
    let (mram, _, e1) = >>=-eq-ok (init_memphy b.bytes b.left b.memramsz 1) _ e in
    let (mswp, _, e2) = >>=-eq-ok (init_memphy b.bytes b.left b.memswpsz 1) _ e1 in
    let (sched, _, e3) = >>=-eq-ok (init_scheduler b.unset) _ e2 in
    subst (IsBooted (rounds_to b.num_cpus)) (ok-injective e3) (record {
      time = refl;
      cpus = length-replicate (rounds_to b.num_cpus) (some idle);
      ld = refl;
    })

launch-IsWaiting : {n : ℕ} (first : System) → IsBooted n first → 0 < n → IsWaiting (launch first)
unfolding started start_timer
launch-IsWaiting first b pos =
    let v = attach_many-IsNew (suc (length first.cpus)) in
    record {
      main = refl;
      some_cpu = omega (arith, b.cpus);
      size = v.size;
      running = v.running;
      cpus = λ k d at ne g. (let new = v.devices k d at in cc);
      ended = λ k d at z over. (let loads = b.ld in cc);
    }

-- In the rest: a boot with at least one processor, and the programs that come from it.
module _ (b : BootArgs) (first : System) (booted : Boots b first) {fuel time_slot : ℕ}
    {processes : List LdArgs} {new : ℕ → Fresh} where
  pub Reach-IsIdle :
      {p : State} → Reach fuel time_slot processes new (launch first) p → IsIdle first (system_of p)
  Reach-IsIdle r =
      never_runs b.num_cpus b.memramsz b.memswpsz b.bytes b.left b.unset first booted
        (Reach-parts first (boot-IsBooted b first booted).time r).0

  pub Reach-IsWaiting :
      {p : State}
      → Reach fuel time_slot processes new (launch first) p
      → 0 < rounds_to b.num_cpus
      → IsWaiting p
  Reach-IsWaiting start pos = launch-IsWaiting first (boot-IsBooted b first booted) pos
  Reach-IsWaiting (later r st) pos = Step-IsWaiting st (Reach-IsIdle r) (Reach-IsWaiting r pos)

  pub Reach-timer :
      {p : State}
      → Reach fuel time_slot processes new (launch first) p
      → Timer.Reach (suc (length first.cpus)) p.timer
  Reach-timer r = (Reach-parts first (boot-IsBooted b first booted).time r).1

  -- With one processor or more, in every order of the steps of all threads, main still waits in its
  -- first join, and the thread of the timer has not ended: the program does not end by itself.
  pub never_returns :
      {p : State}
      → Reach fuel time_slot processes new (launch first) p
      → 0 < rounds_to b.num_cpus
      → (p.main ≡ joins_cpu 0) × (p.timer.pc ≢ exited)
  never_returns {p} r pos =
      let v = Reach-IsWaiting r pos in
      (
        v.main,
        λ e. elim (exited-AllLeft (Reach-timer r) e) [
          | inl stopped ↦ (let running = v.running in cc)
          | inr all ↦
              (let (d, at) = get_elem?_lt p.timer.dev_list 1 (omega (arith, v.size, v.some_cpu)) in
                v.cpus 1 d at (omega arith) (all 1 d at))
        ],
      )
