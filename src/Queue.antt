-- ===== src/Queue.antt =====
-- The process queues of src/queue.c: an array of ten pointers and a size.
pub mod Refine
mod Tests
use lab_os_assignment.Base.{
  ℕ, zero, suc, ◌+◌, ◌-◌, Bool, true, Option, none, some, List, get_elem?, set, length, ltb, ◌==◌,
  if◌then◌else◌,
}
use lab_os_assignment.Outcome.{Outcome, ok, fault, ◌>>=◌, need, out_of_bounds}

-- What the scheduler reads of struct pcb_t; a pointer to a process is the process.
pub record Proc : Type 0 where
  pub pid : ℕ
  pub prio : ℕ

-- NULL in a slot is `none`.
pub record Queue : Type 0 where
  pub proc : List (Option Proc)
  pub size : ℕ
  pub time_slot : ℕ

unfoldable pub empty : Option Queue → Bool
empty none = true
empty (some q) = q.size == 0

-- There is no test for a full queue: the next write is past the array.
unfoldable pub enqueue : Queue → Option Proc → Outcome Queue
enqueue q p =
    if ltb q.size (length q.proc)
    then ok (record q { proc = set q.proc q.size p; size = q.size + 1 })
    else fault out_of_bounds

-- The loop of dequeue, from index `i` on.
shift_loop : (rounds i : ℕ) → List (Option Proc) → Outcome (List (Option Proc))
shift_loop zero i proc = ok proc
shift_loop (suc rounds) i proc = do
  p ← need out_of_bounds (get_elem? proc (suc i))
  shift_loop rounds (suc i) (set proc i p)

unfoldable pub dequeue : Queue → Outcome (Option Proc × Queue)
unfolding shift_loop empty
dequeue q = if empty (some q) then ok (none, q) else do
  ret ← need out_of_bounds (get_elem? q.proc 0)
  proc ← shift_loop (q.size - 1) 0 q.proc
  ok (ret, record q { proc = proc; size = q.size - 1 })
