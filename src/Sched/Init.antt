-- ===== src/Sched/Init.antt =====
-- init_scheduler of src/sched.c on a table of all ready queues.
use lab_os_assignment.Base.{
  ℕ, zero, suc, ◌+◌, ◌-◌, ◌≤◌, ◌≡◌, arith, length, length-set, get_elem?_lt, set, lt→ltb,
}
use lab_os_assignment.Outcome.{Returns, Returns-bind}
use lab_os_assignment.Sched.{Sched, max_prio, init_queues, init_scheduler}

init_queues-Returns :
    (rounds i : ℕ) (s : Sched)
    → i + rounds ≤ length s.mlq_ready_queue
    → Returns (λ s'. Unit) (init_queues rounds i s)
unfolding init_queues
init_queues-Returns zero i s room = tt
init_queues-Returns (suc rounds) i s room =
    let (q, at) = get_elem?_lt s.mlq_ready_queue i (omega arith) in
    let initial = record q { size = 0; time_slot = max_prio - i } in
    rw (at, lt→ltb i (length s.mlq_ready_queue) (omega arith))
      (init_queues-Returns rounds (i + 1)
        (record s { mlq_ready_queue = set s.mlq_ready_queue i initial })
        (omega (arith, length-set s.mlq_ready_queue i initial)))

pub init_scheduler-Returns :
    (s : Sched) → length s.mlq_ready_queue ≡ 140 → Returns (λ s'. Unit) (init_scheduler s)
unfolding init_scheduler
init_scheduler-Returns s table =
    Returns-bind (λ s'. Unit) (init_queues max_prio 0 s) _
      (init_queues-Returns max_prio 0 s (omega arith)) (λ s' u. tt)
