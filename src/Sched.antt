-- ===== src/Sched.antt =====
-- The scheduler of src/sched.c with MLQ_SCHED, over 140 ready queues. MAX_PRIO is the 140 of
-- include/os-cfg.h: include/sched.h is hidden behind the guard that it shares with queue.h. Each
-- function holds `queue_lock` for its whole body, so a call is one step.
pub mod Init
pub mod Holds
pub mod Dispatch
pub mod Single
pub mod Ready
mod Tests
use lab_os_assignment.Base.{
  ℕ, zero, suc, ◌+◌, ◌-◌, ◌%◌, ◌^◌, Bool, true, false, not, ◌&&◌, Option, none, some, List,
  get_elem?, set, length, replicate, ltb, if◌then◌else◌,
}
use lab_os_assignment.Outcome.{Outcome, ok, fault, ◌>>=◌, need, out_of_bounds, out_of_fuel}
use lab_os_assignment.Words.{is_negative, int_lt}
use lab_os_assignment.Queue.{Proc, Queue, empty, enqueue, dequeue}

abbrev pub max_prio : ℕ
max_prio = 140

pub record Sched : Type 0 where
  pub mlq_ready_queue : List Queue
  pub ready_queue : Queue
  pub run_queue : Queue

-- `mlq_ready_queue[prio]`, read and written.
abbrev pub get_queue : Sched → ℕ → Outcome Queue
get_queue s prio = need out_of_bounds (get_elem? s.mlq_ready_queue prio)

abbrev pub put_queue : Sched → ℕ → Queue → Outcome Sched
put_queue s prio q =
    if ltb prio (length s.mlq_ready_queue)
    then ok (record s { mlq_ready_queue = set s.mlq_ready_queue prio q })
    else fault out_of_bounds

-- The loop of queue_empty: is some queue from `prio` on not empty?
some_ready : (rounds prio : ℕ) → Sched → Outcome Bool
some_ready zero prio s = ok false
some_ready (suc rounds) prio s = do
  q ← get_queue s prio
  rest ← some_ready rounds (prio + 1) s
  ok (if empty (some q) then rest else true)

-- -1, or the value of the last test.
pub queue_empty : Sched → Outcome ℕ
unfolding some_ready
queue_empty s = do
  ready ← some_ready max_prio 0 s
  ok (
      if ready
      then 2 ^ 32 - 1
      else if empty (some s.ready_queue) && empty (some s.run_queue)
      then 1
      else 0)

init_queues : (rounds i : ℕ) → Sched → Outcome Sched
init_queues zero i s = ok s
init_queues (suc rounds) i s = do
  q ← get_queue s i
  s' ← put_queue s i (record q { size = 0; time_slot = max_prio - i })
  init_queues rounds (i + 1) s'

unfoldable pub init_scheduler : Sched → Outcome Sched
unfolding init_queues
init_scheduler s = do
  s' ← init_queues max_prio 0 s
  ok (record s' {
    ready_queue = record (s'.ready_queue) { size = 0 };
    run_queue = record (s'.run_queue) { size = 0 };
  })

-- `dequeue` on a queue of the table, and `time_slot--`.
take_from : Sched → (prio : ℕ) → Queue → Outcome (Option Proc × Sched)
take_from s prio q = do
  (proc, q') ← dequeue q
  s' ← put_queue s prio (record q' { time_slot = (q'.time_slot + 2 ^ 32 - 1) % 2 ^ 32 })
  ok (proc, s')

-- The first loop of get_mlq_proc: `for (; prio < 0; prio++)`. Beside the process: `non_empty`.
search_loop : (fuel prio : ℕ) (non_empty : Bool) → Sched → Outcome (Option Proc × Bool × Sched)
search_loop zero prio non_empty s = fault out_of_fuel
search_loop (suc fuel) prio non_empty s =
    let next = λ (seen : Bool). search_loop fuel (prio + 1) seen s in
    let body = get_queue s prio >>= λ q.
    if empty (some q)
    then next non_empty
    else if int_lt 0 q.time_slot
    then (do (proc, s') ← take_from s prio q; ok (proc, true, s'))
    else next true in
    if is_negative prio then body else ok (none, non_empty, s)

refill : (rounds prio : ℕ) → Sched → Outcome Sched
refill zero prio s = ok s
refill (suc rounds) prio s = do
  q ← get_queue s prio
  s' ← put_queue s prio (record q { time_slot = max_prio - prio })
  refill rounds (prio + 1) s'

-- The second search, after the time slots have been given out again.
search_again : (fuel prio : ℕ) → Sched → Outcome (Option Proc × Sched)
search_again zero prio s = fault out_of_fuel
search_again (suc fuel) prio s =
    let next = search_again fuel (prio + 1) s in
    let body = get_queue s prio >>= λ q. if empty (some q) then next else take_from s prio q in
    if is_negative prio then body else ok (none, s)

-- `fuel` bounds the rounds of either search.
pub get_mlq_proc : (fuel : ℕ) → Sched → Outcome (Option Proc × Sched)
unfolding search_loop refill search_again take_from
get_mlq_proc fuel s = do
  (proc, non_empty, s') ← search_loop fuel max_prio false s
  elim proc [
    | some p ↦ ok (some p, s')
    | none ↦
        if non_empty
        then (do refilled ← refill max_prio 0 s'; search_again fuel max_prio refilled)
        else ok (none, s')
  ]

pub put_mlq_proc : Sched → Proc → Outcome Sched
put_mlq_proc s proc = do
  q ← get_queue s proc.prio
  q' ← enqueue q (some proc)
  put_queue s proc.prio q'

pub add_mlq_proc : Sched → Proc → Outcome Sched
add_mlq_proc s proc = do
  q ← get_queue s proc.prio
  q' ← enqueue q (some proc)
  put_queue s proc.prio q'

pub get_proc : (fuel : ℕ) → Sched → Outcome (Option Proc × Sched)
unfolding get_mlq_proc
get_proc fuel s = get_mlq_proc fuel s

pub put_proc : Sched → Proc → Outcome Sched
unfolding put_mlq_proc
put_proc s proc = put_mlq_proc s proc

unfoldable pub add_proc : Sched → Proc → Outcome Sched
unfolding add_mlq_proc
add_proc s proc = add_mlq_proc s proc
