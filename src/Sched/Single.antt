-- ===== src/Sched/Single.antt =====
-- The functions of src/sched.c without MLQ_SCHED: one ready queue, and the run queue for processes
-- that are put back.
use lab_os_assignment.Base.{
  ◌<◌, ◌≡◌, refl, sym, Bool-cases, inl, inr, Option, none, some, ◌++◌, ◌∷◌, [], if◌then◌else◌,
}
use lab_os_assignment.Outcome.{Outcome, ok, ◌>>=◌, >>=-assoc, Returns, Returns-bind}
use lab_os_assignment.Queue.{Proc, Queue, empty, enqueue, dequeue}
use lab_os_assignment.Queue.Refine.{IsQueue, contents, enqueue_refines}
use lab_os_assignment.Sched.{Sched}

pub get_proc : Sched → Outcome (Option Proc × Sched)
get_proc s =
    if empty (some s.ready_queue)
    then ok (none, s)
    else do (proc, q) ← dequeue s.ready_queue; ok (proc, record s { ready_queue = q })

pub put_proc : Sched → Proc → Outcome Sched
put_proc s proc = do q ← enqueue s.run_queue (some proc); ok (record s { run_queue = q })

pub add_proc : Sched → Proc → Outcome Sched
add_proc s proc = do q ← enqueue s.ready_queue (some proc); ok (record s { ready_queue = q })

-- `get_proc` does not look at the run queue.
get_proc-run_queue :
    (s : Sched) (q : Queue)
    → get_proc (record s { run_queue = q })
      ≡ (get_proc s >>= λ r. ok (r.0, record (r.1) { run_queue = q }))
unfolding get_proc
get_proc-run_queue s q = elim (Bool-cases (empty (some s.ready_queue))) [
  | inl none_ready ↦ rw none_ready
  | inr ready ↦ rw ready (
      sym (
        >>=-assoc (dequeue s.ready_queue) (λ x. ok (x.0, record s { ready_queue = x.1 }))
          (λ r. ok (r.0, record (r.1) { run_queue = q }))))
]

-- A process that is put back into a run queue with room is its last one; the ready queue is as it
-- was, and `get_proc` takes from it what it would have taken before, so it never takes this process.
put_proc-get_proc :
    (s : Sched) (p : Proc)
    → IsQueue s.run_queue
    → s.run_queue.size < 10
    → Returns
        (λ s'.
          (contents s'.run_queue ≡ contents s.run_queue ++ some p ∷ [])
          × (s'.ready_queue ≡ s.ready_queue)
          × (get_proc s'
              ≡ (get_proc s >>= λ r. ok (r.0, record (r.1) { run_queue = s'.run_queue }))))
        (put_proc s p)
unfolding put_proc
put_proc-get_proc s p v room =
    Returns-bind _ (enqueue s.run_queue (some p)) _ (enqueue_refines s.run_queue (some p) v room)
      λ q e. (e.0, refl, get_proc-run_queue s q)
