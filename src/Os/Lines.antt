-- ===== src/Os/Lines.antt =====
-- The loader over all lines of the configuration, as what it has to do: without its rounds and
-- without the threads beside it.
pub mod Refine
pub mod Ended
pub mod Queues
pub mod Total
use lab_os_assignment.Base.{
  ℕ, zero, suc, ◌+◌, ◌-◌, ◌%◌, ◌^◌, ◌≡◌, refl, sym, ap, ◌∙◌, subst, arith, Option, none, some, true,
  List, [], ◌∷◌, get_elem?, drop, length,
}
use lab_os_assignment.Outcome.{Outcome, ok, fault, ◌>>=◌, >>=-assoc, >>=-cong}
use lab_os_assignment.Mm.{init_mm}
use lab_os_assignment.Sched.{Sched, add_proc}
use lab_os_assignment.Loader.{Program, load}
use lab_os_assignment.Os.{
  Task, Machine, Event, waits, stops, LdArgs, Fresh, LdState, put_task, ld_round,
}
use lab_os_assignment.Os.Loading.{Round, ld_rest, ld_rounds, loaded, added-on_time}

-- The slot of a start time, or the present one when it has passed.
abbrev pub slot : (time start_time : ℕ) → ℕ
slot time start_time = time + (start_time - time)

abbrev pub arrive : LdArgs → Fresh → Program → Machine → Sched → Machine
arrive args new p m s =
    record (put_task m p.pid
      (some (record { text = p.text; pc = p.pc; mm = init_mm new.ptes new.syms }))) { sched = s }

-- What the loader has to do, without its rounds: one line after the other is loaded in the slot that
-- the line before has left, and its process added in the slot of its start time. The result is the
-- next process number and the machine; `none` is `exit`.
pub load_all :
    List LdArgs
    → (time : ℕ) → (new : ℕ → Fresh) → (avail_pid : ℕ) → Machine
    → Outcome (Option (ℕ × Machine))
load_all [] time new avail_pid m = ok (some (avail_pid, record m { done = true }))
load_all (args ∷ lines) time new avail_pid m = do
  o ← load avail_pid args.file (new time).priority (new time).size (new time).mem
  elim o [
    | none ↦ ok none
    | some (p, next_pid) ↦ do
      s ← add_proc m.sched (record { pid = p.pid; prio = args.prio % 2 ^ 32 })
      load_all lines (slot time args.start_time + 1) new next_pid
          (arrive args (new (slot time args.start_time)) p m s)
  ]

-- What `load_all` does when the file of a line has been loaded in slot `t`.
abbrev pub load_rest :
    LdArgs
    → List LdArgs
    → (t : ℕ) → (new : ℕ → Fresh) → Machine
    → Option (Program × ℕ)
    → Outcome (Option (ℕ × Machine))
load_rest args lines t new m o = elim o [
  | none ↦ ok none
  | some (p, q) ↦ do
    s ← add_proc m.sched (record { pid = p.pid; prio = args.prio % 2 ^ 32 })
    load_all lines (t + 1) new q (arrive args (new t) p m s)
]

-- The rounds that it takes: one for each time slot up to the last process, and one to end.
abbrev pub rounds_needed : List LdArgs → (time : ℕ) → ℕ
rounds_needed [] time = 1
rounds_needed (args ∷ lines) time =
    suc (args.start_time - time) + rounds_needed lines (slot time args.start_time + 1)

abbrev pub at_line : (i avail_pid : ℕ) → LdState
at_line i avail_pid = record { i = i; proc = none; avail_pid = avail_pid }

abbrev pub finish : (i : ℕ) → Option (ℕ × Machine) → Option (Event × LdState × Machine)
finish i none = none
finish i (some (avail_pid, m)) = some (stops, at_line i avail_pid, m)
