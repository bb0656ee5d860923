-- ===== src/Program/Loads.antt =====
-- The loader among the other threads: its device gives it one round in each time slot.
use lab_os_assignment.Base.{
  ℕ, suc, ◌^◌, ◌≤◌, ◌<◌, ◌≡◌, sym, ap, ◌∙◌, arith, none, some, List, length, subst, some-injective,
}
use lab_os_assignment.Outcome.{ok}
use lab_os_assignment.Os.{waits, LdArgs, Fresh}
use lab_os_assignment.Os.System.{System}
use lab_os_assignment.Os.Lines.{at_line, load_all}
use lab_os_assignment.Os.Lines.Ended.{ended-load_all}
use lab_os_assignment.Os.Loading.{ld_rounds}
use lab_os_assignment.Timer.{fresh, started, start_timer, free_devices, stop_timer}
use lab_os_assignment.Timer.New.{attach_many-IsNew}
use lab_os_assignment.Timer.Keeps.{timer_routine-Keeps}
use lab_os_assignment.Program.{
  State, launch, next_cpu, last_cpu, stop, return, Step, runs_cpu, runs_loader, resumes, turns,
  joins, Reach, start, later,
}
use lab_os_assignment.Program.Returns.{
  BootArgs, Boots, IsBooted, boot-IsBooted, Reach-IsIdle, Reach-timer,
}
use lab_os_assignment.Program.Loading.{Ran, Loading, Step-Loading}

launch-Loading :
    {n : ℕ} (processes : List LdArgs) (new : ℕ → Fresh) (first : System)
    → IsBooted n first
    → Loading processes new first.machine (launch first)
unfolding started start_timer ld_rounds
launch-Loading processes new first b =
    let v = attach_many-IsNew (suc (length first.cpus)) in
    record {
      alive = λ l same k d at z.
          (let new_device : d ≡ fresh = v.devices k d at in
            let line : at_line 0 1 ≡ l = some-injective (sym b.ld ∙ same) in
            let slot : 0 ≡ d.slots = ap (λ x. x.slots) (sym new_device) in
            (
              λ g. cc,
              λ g.
                  subst (λ x. Ran processes new first.machine x waits l first.machine) slot
                    (ap (λ x. ok (some (waits, x, first.machine))) line),
              λ g. cc,
            ));
      ended = λ e. (let loads = b.ld in cc);
    }

Step-rounds :
    {fuel time_slot : ℕ} {processes : List LdArgs} {new : ℕ → Fresh} {p q : State}
    → Step fuel time_slot processes new p q
    → p.timer.rounds ≤ q.timer.rounds
unfolding stop_timer free_devices
Step-rounds (runs_cpu i c d at dev works round) = omega arith
Step-rounds (runs_loader l d at dev works round) = omega arith
Step-rounds (resumes j d dev paused ready) = omega arith
Step-rounds {p} (turns {t} e) = (timer_routine-Keeps p.timer t e).rounds
Step-rounds (joins (next_cpu i m at)) = omega arith
Step-rounds (joins (last_cpu i m at)) = omega arith
Step-rounds (joins (stop m at)) = omega arith
Step-rounds (joins (return m at)) = omega arith

module _ (b : BootArgs) (first : System) (booted : Boots b first) {fuel time_slot : ℕ}
    {processes : List LdArgs} {new : ℕ → Fresh} where
  pub Reach-Loading :
      {p : State}
      → Reach fuel time_slot processes new (launch first) p
      → p.timer.rounds < 2 ^ 64
      → Loading processes new first.machine p
  Reach-Loading start small = launch-Loading processes new first (boot-IsBooted b first booted)
  Reach-Loading (later {p = p} r st) small =
      let before : p.timer.rounds < 2 ^ 64 = omega (arith, Step-rounds st, small) in
      Step-Loading processes new first.machine st (Reach-IsIdle b first booted r)
        (Reach-timer b first booted r) before (Reach-Loading r before)

  -- In every order of the steps of all threads, up to 2^64 time slots: when the loader has ended, what
  -- it has done to the machine is what `load_all` says for the lines of the configuration from time 0
  -- on, each file read and each process added in its time slot.
  pub loads_all :
      {p : State}
      → Reach fuel time_slot processes new (launch first) p
      → p.timer.rounds < 2 ^ 64
      → p.ld ≡ none
      → (n : ℕ) × (load_all processes 0 new 1 first.machine ≡ ok (some (n, p.machine)))
  loads_all {p} r small over =
      let (k, l, ran) = (Reach-Loading r small).ended over in
      ended-load_all processes new k l first.machine p.machine ran
