-- ===== src/Sched/Tests.antt =====
-- A scheduler whose 140 queues hold one process each.
use lab_os_assignment.Base.{
  ℕ, ◌^◌, ◌-◌, ◌≡◌, arith, refl, some, none, ◌∷◌, replicate, length-replicate,
}
use lab_os_assignment.Outcome.{Returns, ok}
use lab_os_assignment.Queue.{Proc, Queue}
use lab_os_assignment.Queue.Refine.{IsQueue}
use lab_os_assignment.Sched.{Sched, get_proc, add_proc, put_proc, queue_empty}
use lab_os_assignment.Sched.Ready.{Added, add_proc-Added}
use lab_os_assignment.Sched.Dispatch.{add_proc-starves}

abbrev proc : (prio : ℕ) → Proc
proc prio = record { pid = 7; prio = prio }

abbrev one : Queue
one = record { proc = some (proc 3) ∷ replicate 9 none; size = 1; time_slot = 137 }

one-IsQueue : IsQueue one
one-IsQueue = record { slots = refl; fits = omega arith }

abbrev sched : Queue → Sched
sched q = record { mlq_ready_queue = replicate 140 q; ready_queue = one; run_queue = one }

add_proc-starves_example :
    Returns
      (λ s'. (queue_empty s' ≡ ok (2 ^ 32 - 1)) × (get_proc 1 s' ≡ ok (none, s')))
      (add_proc (sched one) (proc 3))
add_proc-starves_example =
    add_proc-starves (sched one) (proc 3) one 0 (length-replicate 140 one) (omega arith) refl
      one-IsQueue (omega arith)

add_proc-Added_example :
    Returns (Added (sched one) (proc 3) one) (add_proc (sched one) (proc 3))
    × (put_proc (sched one) (proc 3) ≡ add_proc (sched one) (proc 3))
add_proc-Added_example =
    add_proc-Added (sched one) (proc 3) one refl (omega (arith, length-replicate 140 one))
      one-IsQueue (omega arith)
