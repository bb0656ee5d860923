-- ===== src/Sched/Holds.antt =====
-- What the ready queues of src/sched.c hold, after init_scheduler and after add_proc.
use lab_os_assignment.Base.{
  ℕ, lt_or_ge, zero, suc, ◌+◌, ◌-◌, ◌<◌, ◌≡◌, ◌≢◌, inl, inr, refl, sym, ap, ◌∙◌, arith, subst,
  Option, some, List, [], ◌∷◌, ◌++◌, length, length-set, get_elem?, get_elem?_lt, get_elem?-some,
  set, set_all, take, true, false, lt→ltb, ◌==◌, if◌then◌else◌, Option-cases,
}
use lab_os_assignment.Outcome.{ok, ok-injective, Returns, Returns-ok, Returns-bind}
use lab_os_assignment.Queue.{Proc, Queue}
use lab_os_assignment.Queue.Refine.{IsQueue, contents}
use lab_os_assignment.Sched.{Sched, max_prio, init_queues, init_scheduler, add_proc}
use lab_os_assignment.Sched.Ready.{Added, add_proc-Added, add_proc-out, add_proc-full}

-- Every ready queue is well formed and holds the processes that `held` says.
pub record Holds (held : ℕ → List (Option Proc)) (s : Sched) : Type 0 where
  pub table : length s.mlq_ready_queue ≡ 140
  pub queues :
      (j : ℕ) (q : Queue)
      → get_elem? s.mlq_ready_queue j ≡ some q
      → IsQueue q × (contents q ≡ held j)

-- What one more process makes of it.
abbrev pub with_proc : (held : ℕ → List (Option Proc)) → Proc → ℕ → List (Option Proc)
with_proc held p j = if p.prio == j then held j ++ some p ∷ [] else held j

-- A call of add_proc that returns has found a queue with room.
add_proc-ok :
    {held : ℕ → List (Option Proc)} (s s' : Sched) (p : Proc)
    → Holds held s
    → add_proc s p ≡ ok s'
    → (q : Queue) × (get_elem? s.mlq_ready_queue p.prio ≡ some q) × Added s p q s'
add_proc-ok s s' p v e = elim (Option-cases (get_elem? s.mlq_ready_queue p.prio)) [
  | inl none_there ↦ elim (lt_or_ge p.prio (length s.mlq_ready_queue)) [
    | inl inside ↦ (let (q, at) = get_elem?_lt s.mlq_ready_queue p.prio inside in cc)
    | inr out ↦ (let (faults, _) = add_proc-out s p out in cc)
  ]
  | inr (q, at) ↦ elim (lt_or_ge q.size 10) [
    | inl room ↦
        (let (s'', returned, added) =
            Returns-ok (add_proc s p)
              (add_proc-Added s p q at (get_elem?-some s.mlq_ready_queue p.prio at)
                (v.queues p.prio q at).0 room).0 in
          (q, at, subst (Added s p q) (ok-injective (sym returned ∙ e)) added))
    | inr full ↦ (let (faults, _) = add_proc-full s p q at (v.queues p.prio q at).0 full in cc)
  ]
]

with_proc-here :
    (held : ℕ → List (Option Proc)) (p : Proc)
    → with_proc held p p.prio ≡ held p.prio ++ some p ∷ []
with_proc-here held p = (let same : (p.prio == p.prio) ≡ true = ground arith in rw same refl)

with_proc-away :
    (held : ℕ → List (Option Proc)) (p : Proc) (j : ℕ) → p.prio ≢ j → with_proc held p j ≡ held j
with_proc-away held p j other =
    (let differs : (p.prio == j) ≡ false = ground arith in rw differs refl)

pub add_proc-Holds :
    {held : ℕ → List (Option Proc)} (s s' : Sched) (p : Proc)
    → Holds held s
    → add_proc s p ≡ ok s'
    → Holds (with_proc held p) s'
add_proc-Holds {held} s s' p v e =
    let (q, at, added) = add_proc-ok s s' p v e in
    let (q', at', changed, last, proper, slot) = added.queue in
    let all =
      set_all (λ j r. IsQueue r × (contents r ≡ with_proc held p j)) s.mlq_ready_queue p.prio q'
        (
          proper,
          last ∙ ap (λ x. x ++ some p ∷ []) (v.queues p.prio q at).1 ∙ sym (with_proc-here held p),
        )
        (λ j r away was.
          ((v.queues j r was).0, (v.queues j r was).1 ∙ sym (with_proc-away held p j away))) in
    record {
      table = added.tables ∙ v.table;
      queues = λ j r found. all j r (ap (λ t. get_elem? t j) (sym changed) ∙ found);
    }

-- Every queue below `i` is empty, and every queue has its ten slots.
record Emptied (i : ℕ) (s : Sched) : Type 0 where
  pub table : length s.mlq_ready_queue ≡ 140
  pub queues :
      (j : ℕ) (q : Queue)
      → get_elem? s.mlq_ready_queue j ≡ some q
      → (length q.proc ≡ 10) × (j < i → q.size ≡ 0)

init_queues-Emptied :
    (rounds i : ℕ) (s : Sched)
    → i + rounds ≡ 140
    → Emptied i s
    → Returns (Emptied 140) (init_queues rounds i s)
unfolding init_queues
init_queues-Emptied zero i s all v = subst (λ k. Emptied k s) (omega arith) v
init_queues-Emptied (suc rounds) i s all v =
    let (q, at) = get_elem?_lt s.mlq_ready_queue i (omega (arith, v.table)) in
    let initial = record q { size = 0; time_slot = max_prio - i } in
    rw (at, lt→ltb i (length s.mlq_ready_queue) (omega (arith, v.table)))
      (init_queues-Emptied rounds (i + 1)
        (record s { mlq_ready_queue = set s.mlq_ready_queue i initial }) (omega arith)
        (record {
          table = length-set s.mlq_ready_queue i initial ∙ v.table;
          queues =
              set_all (λ j r. (length r.proc ≡ 10) × (j < i + 1 → r.size ≡ 0)) s.mlq_ready_queue i
                initial ((v.queues i q at).0, λ small. refl)
                (λ j r away was.
                  ((v.queues j r was).0, λ small. (v.queues j r was).1 (omega arith)));
        }))

-- A table of 140 queues with their ten slots, whatever else they hold.
abbrev pub IsTable : Sched → Type 0
IsTable s =
    (length s.mlq_ready_queue ≡ 140)
    × ((j : ℕ) (q : Queue) → get_elem? s.mlq_ready_queue j ≡ some q → length q.proc ≡ 10)

pub init_scheduler-Holds : (s : Sched) → IsTable s → Returns (Holds (λ j. [])) (init_scheduler s)
unfolding init_scheduler
init_scheduler-Holds s v =
    Returns-bind (Holds (λ j. [])) (init_queues max_prio 0 s) _
      (init_queues-Emptied max_prio 0 s refl
        (record { table = v.0; queues = λ j q at. (v.1 j q at, λ small. absurd (omega arith)) }))
      (λ s' w. record {
        table = w.table;
        queues = λ j q at.
            (let small : j < 140 = omega (arith, get_elem?-some s'.mlq_ready_queue j at, w.table) in
              let none_in : q.size ≡ 0 = (w.queues j q at).1 small in
              (
                record { slots = (w.queues j q at).0; fits = omega arith },
                ap (λ n. take n q.proc) none_in,
              ));
      })
