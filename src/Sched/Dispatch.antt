-- ===== src/Sched/Dispatch.antt =====
-- get_mlq_proc and get_proc: what is dispatched.
use lab_os_assignment.Base.{
  ℕ, suc, ◌-◌, ◌^◌, ◌<◌, ◌≡◌, ◌≢◌, refl, sym, ap, ◌∙◌, none, some, Option, List, [], ◌∷◌, ◌++◌,
  take, length, get_elem?, arith,
}
use lab_os_assignment.Outcome.{ok, Returns, Returns-mono}
use lab_os_assignment.Queue.{Proc, Queue}
use lab_os_assignment.Queue.Refine.{IsQueue, contents}
use lab_os_assignment.Sched.{Sched, get_proc, add_proc, queue_empty}
use lab_os_assignment.Sched.Ready.{add_proc-Added, queue_empty-busy}

-- Both searches start at MAX_PRIO and go on while the priority is negative, so neither makes a round:
-- in every state, with fuel for the one test, no process is dispatched and nothing is changed.
pub get_proc-none : (fuel : ℕ) (s : Sched) → get_proc (suc fuel) s ≡ ok (none, s)
unfolding get_proc
get_proc-none fuel s = refl

-- A queue whose processes end with `p` is not empty.
busy :
    (q : Queue) (ps : List (Option Proc)) (p : Proc) → contents q ≡ ps ++ some p ∷ [] → q.size ≢ 0
busy q ps p e none_left = absurd (ends ps (sym (ap (λ n. take n q.proc) none_left) ∙ e))
  where
    ends : (ps : List (Option Proc)) → [] ≢ ps ++ some p ∷ []
    ends [] h = cc
    ends (x ∷ ps) h = cc

-- After a process of a priority below 140 has been added to a queue with room, `queue_empty` says
-- that a process is ready, but `get_proc` dispatches none and changes nothing.
pub add_proc-starves :
    (s : Sched) (p : Proc) (q : Queue) (fuel : ℕ)
    → length s.mlq_ready_queue ≡ 140
    → p.prio < 140
    → get_elem? s.mlq_ready_queue p.prio ≡ some q
    → IsQueue q
    → q.size < 10
    → Returns
        (λ s'. (queue_empty s' ≡ ok (2 ^ 32 - 1)) × (get_proc (suc fuel) s' ≡ ok (none, s')))
        (add_proc s p)
add_proc-starves s p q fuel len small e v room =
    Returns-mono (add_proc s p) (add_proc-Added s p q e (omega arith) v room).0 λ s' a. (
      queue_empty-busy s' p.prio a.queue.0 (a.tables ∙ len) small a.queue.1
          (busy a.queue.0 (contents q) p a.queue.3),
      get_proc-none fuel s',
    )
