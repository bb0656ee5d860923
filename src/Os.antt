-- ===== src/Os.antt =====
-- The loops of src/os.c with MLQ_SCHED and MM_PAGING: cpu_routine and ld_routine, one round at a time.
-- A round runs from one return of next_slot to the next call of it. The processes share the RAM and
-- the swap device. A pointer to a process is its `pid` and `prio`; the rest of struct pcb_t is found
-- by the `pid`, which no two processes share.
pub mod System
pub mod Kept
pub mod Memory
pub mod Idle
pub mod Rounds
pub mod Quantum
pub mod Loading
pub mod Lines
pub mod Config
mod Tests
use native.Mathlib.Decide.{ℕ_discrete}
use mathlib.Core.Logic.{ite}
use lab_os_assignment.Base.{
  ℕ, ◌+◌, ◌-◌, ◌%◌, ◌^◌, Bool, true, false, Option, none, some, List, length, get_elem?, ltb, ◌==◌,
  if◌then◌else◌,
}
use lab_os_assignment.Outcome.{
  Outcome, ok, fault, ◌>>=◌, need, wild_pointer, signed_overflow, out_of_bounds,
}
use lab_os_assignment.Device.{Device}
use lab_os_assignment.Mm.{Region, Mm, Caller, init_mm}
use lab_os_assignment.Queue.{Proc}
use lab_os_assignment.Sched.{Sched, get_proc, put_proc, add_proc}
use lab_os_assignment.Cpu.{Inst, Pcb, run}
use lab_os_assignment.Loader.{Program, load}

-- The part of struct pcb_t that belongs to one process alone.
pub record Task : Type 0 where
  pub text : List Inst
  pub pc : ℕ
  pub mm : Mm

-- What the threads share.
pub record Machine : Type 0 where
  pub mram : Device
  pub active_mswp : Device
  pub sched : Sched
  pub tasks : ℕ → Option Task
  pub done : Bool

abbrev pub put_task : Machine → ℕ → Option Task → Machine
put_task m pid t = record m { tasks = λ j. ite (ℕ_discrete pid j) t (m.tasks j) }

-- How a round ends: with a call of next_slot, or with the end of the thread.
pub data Event : Type 0 where
  waits stops : Event

-- The local variables of cpu_routine.
pub record CpuState : Type 0 where
  pub proc : Option Proc
  pub time_left : ℕ

abbrev pub pcb_of : Machine → Task → Pcb
pcb_of m t = record {
  pc = t.pc;
  text = t.text;
  caller = record { mm = t.mm; mram = m.mram; active_mswp = m.active_mswp };
}

-- `run(proc)`, whose result is not looked at.
run_proc : (fuel : ℕ) → Proc → Machine → Outcome Machine
run_proc fuel proc m = do
  t ← need wild_pointer (m.tasks proc.pid)
  (_, pcb) ← run fuel (pcb_of m t)
  let task : Task = record { text = pcb.text; pc = pcb.pc; mm = pcb.caller.mm }
  let m' = put_task m proc.pid (some task)
  ok (record m' { mram = pcb.caller.mram; active_mswp = pcb.caller.active_mswp })

-- `time_left--`
abbrev decrement : ℕ → Outcome ℕ
decrement n = if n == 2 ^ 31 then fault signed_overflow else ok ((n + 2 ^ 32 - 1) % 2 ^ 32)

-- The second half of the loop's body: from "Recheck process status" on.
recheck :
    (fuel time_slot : ℕ)
    → Option Proc
    → (time_left : ℕ) → Machine
    → Outcome (Event × CpuState × Machine)
recheck fuel time_slot none time_left m =
    ok (if m.done then stops else waits, record { proc = none; time_left = time_left }, m)
recheck fuel time_slot (some proc) time_left m = do
  m' ← run_proc fuel proc m
  left ← decrement (if time_left == 0 then time_slot else time_left)
  ok (waits, record { proc = some proc; time_left = left }, m')

-- The body of the loop for a CPU that has a process.
cpu_busy :
    (fuel time_slot : ℕ) → Proc → (time_left : ℕ) → Machine → Outcome (Event × CpuState × Machine)
unfolding recheck run_proc
cpu_busy fuel time_slot proc time_left m = do
  t ← need wild_pointer (m.tasks proc.pid)
  let leave : Outcome (Event × CpuState × Machine) = do
    (next, s) ← get_proc fuel m.sched
    let freed = put_task m proc.pid none
    recheck fuel time_slot next 0 (record freed { sched = s })
  let swap : Outcome (Event × CpuState × Machine) = do
    s ← put_proc m.sched proc
    (next, s') ← get_proc fuel s
    recheck fuel time_slot next time_left (record m { sched = s' })
  if t.pc == length t.text
      then leave
      else if time_left == 0
      then swap
      else recheck fuel time_slot (some proc) time_left m

-- One round of cpu_routine. `fuel` is for the searches of the scheduler and of pgalloc.
pub cpu_round : (fuel time_slot : ℕ) → CpuState → Machine → Outcome (Event × CpuState × Machine)
unfolding cpu_busy recheck
cpu_round fuel time_slot c m = elim c.proc [
  | some proc ↦ cpu_busy fuel time_slot proc c.time_left m
  | none ↦ do
    (next, s) ← get_proc fuel m.sched
    let m' = record m { sched = s }
    elim next [
      | none ↦ ok (waits, c, m')
      | some proc ↦ recheck fuel time_slot (some proc) c.time_left m'
    ]
]

-- A line of the configuration: struct ld_args, and the bytes of the file at `path`.
pub record LdArgs : Type 0 where
  pub file : Option (List ℕ)
  pub start_time : ℕ
  pub prio : ℕ

-- What `malloc` returns in a round of ld_routine.
pub record Fresh : Type 0 where
  pub priority : ℕ
  pub size : ℕ
  pub mem : ℕ → Inst
  pub ptes : List ℕ
  pub syms : List Region

-- The local variables of ld_routine, and `avail_pid` of src/loader.c.
pub record LdState : Type 0 where
  pub i : ℕ
  pub proc : Option Program
  pub avail_pid : ℕ

-- The inner loop's test, and what follows it. `proc->prio` is a uint32_t.
try_add :
    LdArgs → (time : ℕ) → Fresh → LdState → Program → Machine → Outcome (Event × LdState × Machine)
try_add args time new l p m =
    if ltb time args.start_time then ok (waits, record l { proc = some p }, m) else do
      s ← add_proc m.sched (record { pid = p.pid; prio = args.prio % 2 ^ 32 })
      let task : Task = record { text = p.text; pc = p.pc; mm = init_mm new.ptes new.syms }
      let m' = put_task m p.pid (some task)
      ok (waits, record l { i = l.i + 1; proc = none }, record m' { sched = s })

-- One round of ld_routine; `none` is the `exit` of `load`. `time` is current_time().
unfoldable pub ld_round :
    List LdArgs
    → (time : ℕ) → Fresh
    → LdState
    → Machine
    → Outcome (Option (Event × LdState × Machine))
unfolding try_add
ld_round processes time new l m = elim l.proc [
  | some p ↦ do
    args ← need out_of_bounds (get_elem? processes l.i)
    r ← try_add args time new l p m
    ok (some r)
  | none ↦ elim (get_elem? processes l.i) [
    | none ↦ ok (some (stops, l, record m { done = true }))
    | some args ↦ do
      loaded ← load l.avail_pid args.file new.priority new.size new.mem
      elim loaded [
        | none ↦ ok none
        | some (p, avail_pid) ↦ do
          r ← try_add args time new (record l { avail_pid = avail_pid }) p m
          ok (some r)
      ]
  ]
]
