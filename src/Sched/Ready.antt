-- ===== src/Sched/Ready.antt =====
-- Putting processes into the ready queues, and whether any queue holds one.
use native.Mathlib.Decide.{ℕ_discrete}
use lab_os_assignment.Base.{
  Bool, ◌==◌, if◌then◌else◌, ℕ, zero, suc, ◌+◌, ◌-◌, ◌^◌, ◌≤◌, ◌<◌, ◌≡◌, ◌≢◌, refl, arith, some, [],
  ◌∷◌, ◌++◌, length, get_elem?, set, lt→ltb, get_elem?_ge, get_elem?_lt, length-set,
  get_elem?-set_self, true, false,
}
use lab_os_assignment.Outcome.{ok, fault, out_of_bounds, Returns, Returns-bind}
use lab_os_assignment.Queue.{Proc, Queue, empty, enqueue}
use lab_os_assignment.Queue.Refine.{IsQueue, contents, enqueue_refines, enqueue-full}
use lab_os_assignment.Sched.{Sched, put_queue, some_ready, queue_empty, add_proc, put_proc}

-- Only queue `prio` differs: it has `p` at its end.
pub record Added (s : Sched) (p : Proc) (q : Queue) (s' : Sched) : Type 0 where
  pub queue :
      (q' : Queue) × (get_elem? s'.mlq_ready_queue p.prio ≡ some q')
      × (s'.mlq_ready_queue ≡ set s.mlq_ready_queue p.prio q')
      × (contents q' ≡ contents q ++ some p ∷ [])
      × IsQueue q'
      × (q'.time_slot ≡ q.time_slot)
  pub tables : length s'.mlq_ready_queue ≡ length s.mlq_ready_queue
  pub rest : (s'.ready_queue ≡ s.ready_queue) × (s'.run_queue ≡ s.run_queue)

-- `add_proc` and `put_proc` do the same: the process comes last in the queue of its priority, and all
-- other queues are kept. The priority has a queue, and the queue has room.
pub add_proc-Added :
    (s : Sched) (p : Proc) (q : Queue)
    → get_elem? s.mlq_ready_queue p.prio ≡ some q
    → p.prio < length s.mlq_ready_queue
    → IsQueue q
    → q.size < 10
    → Returns (Added s p q) (add_proc s p) × (put_proc s p ≡ add_proc s p)
unfolding add_proc put_proc
add_proc-Added s p q e inside v room = (
  rw e (Returns-bind (Added s p q) (enqueue q (some p)) _ (enqueue_refines q (some p) v room) put),
  refl,
)
  where
    put :
        (q' : Queue)
        → (contents q' ≡ contents q ++ some p ∷ []) × IsQueue q' × (q'.time_slot ≡ q.time_slot)
        → Returns (Added s p q) (put_queue s p.prio q')
    put q' h = rw (lt→ltb p.prio (length s.mlq_ready_queue) inside) (record {
      queue = (q', get_elem?-set_self s.mlq_ready_queue p.prio q' inside, refl, h.0, h.1, h.2);
      tables = length-set s.mlq_ready_queue p.prio q';
      rest = (refl, refl);
    })

-- The priority is not checked: one without a queue is an access outside the table.
pub add_proc-out :
    (s : Sched) (p : Proc)
    → length s.mlq_ready_queue ≤ p.prio
    → (add_proc s p ≡ fault out_of_bounds) × (put_proc s p ≡ fault out_of_bounds)
unfolding add_proc put_proc
add_proc-out s p h = rw (get_elem?_ge s.mlq_ready_queue p.prio h) (refl, refl)

-- The eleventh process of a priority is written past the array of its queue.
pub add_proc-full :
    (s : Sched) (p : Proc) (q : Queue)
    → get_elem? s.mlq_ready_queue p.prio ≡ some q
    → IsQueue q
    → 10 ≤ q.size
    → (add_proc s p ≡ fault out_of_bounds) × (put_proc s p ≡ fault out_of_bounds)
unfolding add_proc put_proc
add_proc-full s p q e v full = rw (e, enqueue-full q (some p) v full) (refl, refl)

some_ready_total :
    (rounds prio : ℕ) (s : Sched)
    → prio + rounds ≤ length s.mlq_ready_queue
    → (b : Bool) × (some_ready rounds prio s ≡ ok b)
unfolding some_ready
some_ready_total zero prio s h = (false, refl)
some_ready_total (suc rounds) prio s h =
    let (q, e) = get_elem?_lt s.mlq_ready_queue prio (omega arith) in
    let (b, rest) = some_ready_total rounds (prio + 1) s (omega arith) in
    (if empty (some q) then b else true, rw (e, rest))

some_ready-true :
    (rounds prio j : ℕ) (s : Sched) (q : Queue)
    → prio + rounds ≤ length s.mlq_ready_queue
    → prio ≤ j
    → j < prio + rounds
    → get_elem? s.mlq_ready_queue j ≡ some q
    → q.size ≢ 0
    → some_ready rounds prio s ≡ ok true
unfolding some_ready empty
some_ready-true zero prio j s q h lo hi e full = absurd (omega arith)
some_ready-true (suc rounds) prio j s q h lo hi e full = elim (ℕ_discrete prio j) [
  | yes here ↦
      (let (b, rest) = some_ready_total rounds (prio + 1) s (omega arith) in
        let busy : (q.size == 0) ≡ false = ground arith in rw (here, e) (rw (← here, rest, busy)))
  | no later ↦
      (let (q', at) = get_elem?_lt s.mlq_ready_queue prio (omega arith) in
        rw
          (
            at,
            some_ready-true rounds (prio + 1) j s q (omega arith) (omega arith) (omega arith) e
                full,
          )
          (kept (q'.size == 0)))
]
  where
    kept : (b : Bool) → ok (if b then true else true) ≡ ok true
    kept true = refl
    kept false = refl

-- A process in the queue of any of the 140 priorities makes `queue_empty` return -1.
pub queue_empty-busy :
    (s : Sched) (j : ℕ) (q : Queue)
    → length s.mlq_ready_queue ≡ 140
    → j < 140
    → get_elem? s.mlq_ready_queue j ≡ some q
    → q.size ≢ 0
    → queue_empty s ≡ ok (2 ^ 32 - 1)
unfolding queue_empty
queue_empty-busy s j q len small e full =
    rw (some_ready-true 140 0 j s q (omega arith) (omega arith) (omega arith) e full)
