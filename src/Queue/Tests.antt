-- ===== src/Queue/Tests.antt =====
-- A queue of two processes.
use lab_os_assignment.Base.{ℕ, ◌≡◌, arith, refl, Option, some, none, ◌∷◌, replicate}
use lab_os_assignment.Outcome.{Returns}
use lab_os_assignment.Queue.{Proc, Queue, dequeue}
use lab_os_assignment.Queue.Refine.{IsQueue, contents, pop, dequeue_refines}

abbrev proc : ℕ → Option Proc
proc pid = some (record { pid = pid; prio = 3 })

abbrev two : Queue
two = record { proc = proc 1 ∷ proc 2 ∷ replicate 8 none; size = 2; time_slot = 137 }

two-IsQueue : IsQueue two
two-IsQueue = record { slots = refl; fits = omega arith }

dequeue_refines_example :
    Returns
      (λ r.
        ((r.0, contents r.1) ≡ pop (contents two)) × IsQueue r.1 × (r.1.time_slot ≡ two.time_slot))
      (dequeue two)
dequeue_refines_example = dequeue_refines two two-IsQueue
