-- ===== src/Os/Lines/Ended.antt =====
-- Rounds of the loader put one after another, and what its last round leaves.
use lab_os_assignment.Base.{
  ℕ, ◌<◌, lt_or_ge, suc, ◌+◌, ◌-◌, ◌≤◌, ◌≡◌, inl, inr, refl, sym, ap, ◌∙◌, arith, Option, none,
  some, List, length, some-injective,
}
use lab_os_assignment.Outcome.{Outcome, ok, fault, ok-injective, ◌>>=◌, >>=-eq-ok}
use lab_os_assignment.Os.{Machine, Event, waits, stops, LdArgs, LdState, Fresh, ld_round}
use lab_os_assignment.Os.Lines.{at_line, finish, load_all, rounds_needed}
use lab_os_assignment.Os.Lines.Refine.{ld_rounds-add, ld_routine_refines}
use lab_os_assignment.Os.Loading.{Round, ld_rest, ld_rounds}

-- One more round.
pub one_more :
    (processes : List LdArgs) (new : ℕ → Fresh) (k : ℕ) (l0 l l' : LdState) (m0 m m' : Machine)
    (e : Event)
    → ld_rounds k processes 0 new l0 m0 ≡ ok (some (waits, l, m))
    → ld_round processes k (new k) l m ≡ ok (some (e, l', m'))
    → ld_rounds (k + 1) processes 0 new l0 m0 ≡ ok (some (e, l', m'))
unfolding ld_rounds
one_more processes new k l0 l l' m0 m m' e before round =
    ld_rounds-add k 1 processes 0 new l0 m0
    ∙ ap (λ x. x >>= ld_rest (ld_rounds 1 processes (0 + k) new)) before
    ∙ ap (λ t. ld_round processes t (new t) l m >>= ld_rest (ld_rounds 0 processes (t + 1) new)) now
    ∙ ap (λ x. x >>= ld_rest (ld_rounds 0 processes (k + 1) new)) round
    ∙ last e
  where
    now : 0 + k ≡ k
    now = omega arith

    last :
        (e : Event)
        → ld_rest (ld_rounds 0 processes (k + 1) new) (some (e, l', m')) ≡ ok (some (e, l', m'))
    last waits = refl
    last stops = refl

-- The rounds after the last line change nothing.
finish-ld_rest :
    (i : ℕ) (o : Outcome (Option (ℕ × Machine))) (rest : LdState → Machine → Round)
    → ((o >>= λ r. ok (finish i r)) >>= ld_rest rest) ≡ (o >>= λ r. ok (finish i r))
finish-ld_rest i (fault f) rest = refl
finish-ld_rest i (ok none) rest = refl
finish-ld_rest i (ok (some (n, m))) rest = refl

finished :
    (i : ℕ) (o : Option (ℕ × Machine)) (l : LdState) (m : Machine)
    → finish i o ≡ some (stops, l, m)
    → (n : ℕ) × (o ≡ some (n, m))
finished i none l m e = cc
finished i (some (n, m')) l m e = (n, ap (λ x. some (n, x)) (ap (λ r. r.2) (some-injective e)))

-- A loader that has ended has done what `load_all` says.
pub ended-load_all :
    (processes : List LdArgs) (new : ℕ → Fresh) (k : ℕ) (l : LdState) (m0 m : Machine)
    → ld_rounds k processes 0 new (at_line 0 1) m0 ≡ ok (some (stops, l, m))
    → (n : ℕ) × (load_all processes 0 new 1 m0 ≡ ok (some (n, m)))
ended-load_all processes new k l m0 m e =
    let (o, loaded, fin) = >>=-eq-ok result (λ r. ok (finish (length processes) r)) (elim_order) in
    let (n, same) = finished (length processes) o l m (ok-injective fin) in
    (n, loaded ∙ ap (λ x. ok x) same)
  where
    needed : ℕ
    needed = rounds_needed processes 0

    result : Outcome (Option (ℕ × Machine))
    result = load_all processes 0 new 1 m0

    all : Round
    all = result >>= λ r. ok (finish (length processes) r)

    early : k ≤ needed → all ≡ ok (some (stops, l, m))
    early small =
        sym (ld_routine_refines processes 0 new 1 m0)
        ∙ ap (λ n. ld_rounds n processes 0 new (at_line 0 1) m0) (sym (the_rest small))
        ∙ ld_rounds-add k (needed - k) processes 0 new (at_line 0 1) m0
        ∙ ap (λ x. x >>= ld_rest (ld_rounds (needed - k) processes (0 + k) new)) e
      where
        the_rest : k ≤ needed → k + (needed - k) ≡ needed
        the_rest small = omega arith

    late : needed ≤ k → all ≡ ok (some (stops, l, m))
    late small =
        sym (
          finish-ld_rest (length processes) result
            (ld_rounds (k - needed) processes (0 + needed) new))
        ∙ ap (λ x. x >>= ld_rest (ld_rounds (k - needed) processes (0 + needed) new))
            (sym (ld_routine_refines processes 0 new 1 m0))
        ∙ sym (ld_rounds-add needed (k - needed) processes 0 new (at_line 0 1) m0)
        ∙ ap (λ n. ld_rounds n processes 0 new (at_line 0 1) m0) (the_rest small)
        ∙ e
      where
        the_rest : needed ≤ k → needed + (k - needed) ≡ k
        the_rest small = omega arith

    elim_order : all ≡ ok (some (stops, l, m))
    elim_order = elim (lt_or_ge k needed) [ inl a ↦ early (omega arith) | inr b ↦ late b ]

whole :
    (processes : List LdArgs) (new : ℕ → Fresh) (m0 : Machine) (n : ℕ) (m' : Machine)
    → load_all processes 0 new 1 m0 ≡ ok (some (n, m'))
    → ld_rounds (rounds_needed processes 0) processes 0 new (at_line 0 1) m0
      ≡ ok (some (stops, at_line (length processes) n, m'))
whole processes new m0 n m' all =
    ld_routine_refines processes 0 new 1 m0
    ∙ ap (λ x. x >>= λ o. ok (finish (length processes) o)) all

-- Where `load_all` comes to a result, a loader that has not ended has made fewer rounds than it needs.
pub rounds_left :
    (processes : List LdArgs) (new : ℕ → Fresh) (k : ℕ) (l : LdState) (m0 m : Machine) (n : ℕ)
    (m' : Machine)
    → ld_rounds k processes 0 new (at_line 0 1) m0 ≡ ok (some (waits, l, m))
    → load_all processes 0 new 1 m0 ≡ ok (some (n, m'))
    → k < rounds_needed processes 0
rounds_left processes new k l m0 m n m' before all = elim (lt_or_ge k needed) [
  | inl more ↦ more
  | inr past ↦
      (let split : needed + (k - needed) ≡ k = omega arith in
        let stopped : ◌≡◌ {A = Round} (ok (some (stops, at_line (length processes) n, m')))
            (ok (some (waits, l, m))) =
          ap (λ x. x >>= ld_rest (ld_rounds (k - needed) processes (0 + needed) new))
            (sym (whole processes new m0 n m' all))
          ∙ sym (ld_rounds-add needed (k - needed) processes 0 new (at_line 0 1) m0)
          ∙ ap (λ j. ld_rounds j processes 0 new (at_line 0 1) m0) split
          ∙ before in
        let same : ◌≡◌ {A = Event × LdState × Machine} (stops, at_line (length processes) n, m')
            (waits, l, m) =
          some-injective (ok-injective stopped) in
        let clash : ◌≡◌ {A = Event} stops waits = ap (λ r. r.0) same in cc)
]
  where
    needed : ℕ
    needed = rounds_needed processes 0

-- And it has a next round.
pub next_round :
    (processes : List LdArgs) (new : ℕ → Fresh) (k : ℕ) (l : LdState) (m0 m : Machine) (n : ℕ)
    (m' : Machine)
    → ld_rounds k processes 0 new (at_line 0 1) m0 ≡ ok (some (waits, l, m))
    → load_all processes 0 new 1 m0 ≡ ok (some (n, m'))
    → (r : Event × LdState × Machine) × (ld_round processes k (new k) l m ≡ ok (some r))
unfolding ld_rounds
next_round processes new k l m0 m n m' before all =
    let more : k < needed = rounds_left processes new k l m0 m n m' before all in
    let rest : ℕ = needed - suc k in
    let split : k + suc rest ≡ needed = omega arith in
    let now : 0 + k ≡ k = omega arith in
    let chain : (ld_round processes k (new k) l m
          >>= ld_rest (ld_rounds rest processes (k + 1) new))
        ≡ ok last =
      ap (λ t. ld_rounds (suc rest) processes t new l m) (sym now)
      ∙ ap (λ x. x >>= ld_rest (ld_rounds (suc rest) processes (0 + k) new)) (sym before)
      ∙ sym (ld_rounds-add k (suc rest) processes 0 new (at_line 0 1) m0)
      ∙ ap (λ j. ld_rounds j processes 0 new (at_line 0 1) m0) split
      ∙ whole processes new m0 n m' all in
    let (o, round, end) = >>=-eq-ok (ld_round processes k (new k) l m) _ chain in
    some_round _ o round end
  where
    needed : ℕ
    needed = rounds_needed processes 0

    last : Option (Event × LdState × Machine)
    last = some (stops, at_line (length processes) n, m')

    some_round :
        (rest : LdState → Machine → Round) (o : Option (Event × LdState × Machine))
        → ld_round processes k (new k) l m ≡ ok o
        → ld_rest rest o ≡ ok last
        → (r : Event × LdState × Machine) × (ld_round processes k (new k) l m ≡ ok (some r))
    some_round rest none round end = cc
    some_round rest (some r) round end = (r, round)
