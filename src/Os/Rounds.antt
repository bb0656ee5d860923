-- ===== src/Os/Rounds.antt =====
-- A round of a processor that has a process: the kinds of cpu_round.
use native.Mathlib.Decide.{ℕ_discrete}
use mathlib.Core.Logic.{ite, if_pos}
use lab_os_assignment.Base.{
  ℕ, suc, ◌^◌, ◌<◌, ◌≡◌, refl, ap, ◌∙◌, arith, Bool, Option, none, some, length, if◌then◌else◌,
  ne→==, eq→==,
}
use lab_os_assignment.Outcome.{Outcome, ok, ◌>>=◌, >>=-assoc}
use lab_os_assignment.Queue.{Proc}
use lab_os_assignment.Sched.{Sched, put_proc}
use lab_os_assignment.Sched.Dispatch.{get_proc-none}
use lab_os_assignment.Cpu.{Pcb, run}
use lab_os_assignment.Os.{
  Task, Machine, Event, waits, stops, CpuState, decrement, recheck, cpu_busy, cpu_round,
}

abbrev pub task_of : Pcb → Task
task_of pcb = record { text = pcb.text; pc = pcb.pc; mm = pcb.caller.mm }

-- The machine when the state of the process `p` is `pcb`, or it is gone.
abbrev pub stored : Machine → Proc → Option Task → Pcb → Machine
stored m p t pcb = record m {
  tasks = λ j. ite (ℕ_discrete p.pid j) t (m.tasks j);
  mram = pcb.caller.mram;
  active_mswp = pcb.caller.active_mswp;
}

abbrev pub keep : Machine → Proc → Pcb → Machine
keep m p pcb = stored m p (some (task_of pcb)) pcb

find-keep : (m : Machine) (p : Proc) (pcb : Pcb) → (keep m p pcb).tasks p.pid ≡ some (task_of pcb)
find-keep m p pcb = if_pos (ℕ_discrete p.pid p.pid) refl (some (task_of pcb)) (m.tasks p.pid)

ite-ite :
    {A : Type 0} (pid j : ℕ) (a b c : A)
    → ite (ℕ_discrete pid j) a (ite (ℕ_discrete pid j) b c) ≡ ite (ℕ_discrete pid j) a c
ite-ite pid j a b c = elim (ℕ_discrete pid j) as (λ d. ite d a (ite d b c) ≡ ite d a c) [
  | yes here ↦ refl
  | no away ↦ refl
]

-- Only the last state of a process stays.
stored-keep :
    (m : Machine) (p : Proc) (t : Option Task) (a b : Pcb)
    → stored (keep m p a) p t b ≡ stored m p t b
stored-keep m p t a b =
    λ i. record (stored m p t b) { tasks = λ j. ite-ite p.pid j t (some (task_of a)) (m.tasks j) i }

decrement-suc : (left : ℕ) → suc left < 2 ^ 31 → decrement (suc left) ≡ ok left
decrement-suc left small = ground arith

-- A round in the middle of a turn runs one instruction.
pub round_runs :
    (fuel time_slot left : ℕ) (m : Machine) (p : Proc) (pcb : Pcb)
    → pcb.pc < length pcb.text
    → suc left < 2 ^ 31
    → cpu_round fuel time_slot (record { proc = some p; time_left = suc left }) (keep m p pcb)
      ≡ (run fuel pcb >>= λ r. ok (waits, record { proc = some p; time_left = left }, keep m p r.1))
unfolding cpu_round cpu_busy recheck
round_runs fuel time_slot left m p pcb before small =
    rw
      (
        find-keep m p pcb,
        ne→== pcb.pc (length pcb.text) (omega arith),
        ne→== (suc left) 0 (omega arith),
      )
      (ap (λ k. run fuel pcb >>= k >>= finish)
          (λ i r. ok (stored-keep m p (some (task_of r.1)) pcb r.1 i))
        ∙ >>=-assoc (run fuel pcb) (λ r. ok (keep m p r.1)) finish
        ∙ ap (λ x. run fuel pcb >>= λ r. x >>= λ left'. waiting left' (keep m p r.1))
            (decrement-suc left small))
  where
    waiting : ℕ → Machine → Outcome (Event × CpuState × Machine)
    waiting left' m' = ok (waits, record { proc = some p; time_left = left' }, m')

    finish : Machine → Outcome (Event × CpuState × Machine)
    finish m' = decrement (suc left) >>= λ left'. waiting left' m'

-- How a round ends that has no process to run.
abbrev pub ended : Bool → Event
ended done = if done then stops else waits

-- The round after the last one of the time slot puts an unfinished process back.
pub round_preempts :
    (fuel time_slot : ℕ) (m : Machine) (p : Proc) (pcb : Pcb)
    → pcb.pc < length pcb.text
    → cpu_round (suc fuel) time_slot (record { proc = some p; time_left = 0 }) (keep m p pcb) ≡ (
        put_proc m.sched p >>= λ s.
        ok (
          ended m.done,
          record { proc = none; time_left = 0 },
          record (keep m p pcb) { sched = s },
        ))
unfolding cpu_round cpu_busy recheck
round_preempts fuel time_slot m p pcb before =
    rw (find-keep m p pcb, ne→== pcb.pc (length pcb.text) (omega arith))
      (ap (λ k. put_proc m.sched p >>= k) (λ i s. get_proc-none fuel s i >>= next))
  where
    next : Option Proc × Sched → Outcome (Event × CpuState × Machine)
    next r = recheck (suc fuel) time_slot r.0 0 (record (keep m p pcb) { sched = r.1 })

-- The round after the last instruction frees the process, also in the last round of the time slot.
pub round_finishes :
    (fuel time_slot left : ℕ) (m : Machine) (p : Proc) (pcb : Pcb)
    → pcb.pc ≡ length pcb.text
    → cpu_round (suc fuel) time_slot (record { proc = some p; time_left = left }) (keep m p pcb)
      ≡ ok (ended m.done, record { proc = none; time_left = 0 }, stored m p none pcb)
unfolding cpu_round cpu_busy recheck
round_finishes fuel time_slot left m p pcb over =
    rw (find-keep m p pcb, eq→== pcb.pc (length pcb.text) over, get_proc-none fuel m.sched)
      (λ i.
        ok (ended m.done, record { proc = none; time_left = 0 }, stored-keep m p none pcb pcb i))
