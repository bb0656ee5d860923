-- ===== src/Device/Race.antt =====
-- MEMPHY_get_freefp statement by statement, called by two threads at once: nothing locks the list.
use lab_os_assignment.Base.{
  ℕ, ◌≡◌, refl, Bool, true, false, Option, none, some, List, [], ◌∷◌, inl, inr, ◌⊎◌, if◌then◌else◌,
  ◌==◌, ◌||◌, arith,
}
use lab_os_assignment.Outcome.{
  Outcome, ok, fault, ◌>>=◌, Status, success, failure, wild_pointer, OnResult, OnResult-bind,
  OnResult-if, OnResult-mono, OnResult-ok,
}
use lab_os_assignment.Chain.{Chain, null, wild, node}
use lab_os_assignment.Device.{Device, get_freefp}

-- Where a call stands, with its local variable `fp` and what it has stored through `retfpn`.
pub data Pc : Type 0 where
  starts : Pc
  looks : (fp : Chain ℕ) → Pc  -- `fp` is assigned
  stored : (fpn : ℕ) → (fp_next : Chain ℕ) → Pc  -- `*retfpn` is assigned
  moved : (fpn : ℕ) → Pc  -- the list is assigned
  returns : Status → Option ℕ → Pc

-- What the threads share: the list, and the nodes that have been given to `free`, each known by its
-- frame.
pub record Shared : Type 0 where
  pub free_fp_list : Chain ℕ
  pub freed : List ℕ

unfoldable pub is_freed : ℕ → List ℕ → Bool
is_freed f [] = false
is_freed f (g ∷ gs) = (f == g) || is_freed f gs

-- The next statement of a call. A node that has been freed must not be read, nor freed again.
unfoldable pub get_freefp_step : Pc → Shared → Outcome (Pc × Shared)
unfolding is_freed
get_freefp_step starts s = ok (looks s.free_fp_list, s)
get_freefp_step (looks null) s = ok (returns failure none, s)
get_freefp_step (looks wild) s = fault wild_pointer
get_freefp_step (looks (node f next)) s =
    if is_freed f s.freed then fault wild_pointer else ok (stored f next, s)
get_freefp_step (stored f next) s =
    if is_freed f s.freed
    then fault wild_pointer
    else ok (moved f, record s { free_fp_list = next })
get_freefp_step (moved f) s =
    if is_freed f s.freed
    then fault wild_pointer
    else ok (returns success (some f), record s { freed = f ∷ s.freed })
get_freefp_step (returns status retfpn) s = ok (returns status retfpn, s)

-- Two calls at once.
pub record Calls : Type 0 where
  pub one : Pc
  pub two : Pc
  pub shared : Shared

-- The calls in an order of their statements: `true` for one of the first call.
unfoldable pub interleave : List Bool → Calls → Outcome Calls
interleave [] c = ok c
interleave (true ∷ order) c = do
  (pc, s) ← get_freefp_step c.one c.shared
  interleave order (record { one = pc; two = c.two; shared = s })
interleave (false ∷ order) c = do
  (pc, s) ← get_freefp_step c.two c.shared
  interleave order (record { one = c.one; two = pc; shared = s })

-- The first node of the list has not been freed.
abbrev pub IsLive : Chain ℕ → List ℕ → Type 0
IsLive null gs = Unit {0}
IsLive wild gs = Unit {0}
IsLive (node f next) gs = is_freed f gs ≡ false

abbrev pub give : Option ℕ → List ℕ → List ℕ
give none gs = gs
give (some f) gs = f ∷ gs

-- What the calls come to when the first has run as a whole, and found what get_freefp finds.
abbrev pub whole : Device → Pc → List ℕ → Outcome Calls
whole mp two gs = get_freefp mp >>= λ r. ok (record {
  one = returns r.0 r.1;
  two = two;
  shared = record { free_fp_list = r.2.free_fp_list; freed = give r.1 gs };
})

-- A call that has read the list `node f rest` and has not returned.
pub data IsPending (f : ℕ) (rest : Chain ℕ) : Pc → Type 0 where
  looks : IsPending f rest (Pc.looks (node f rest))
  stored : IsPending f rest (Pc.stored f rest)
  moved : IsPending f rest (Pc.moved f)

-- Two calls that have read the same list: neither has returned, or one has, with the frame.
pub data IsRace (f : ℕ) (rest : Chain ℕ) (c : Calls) : Type 0 where
  neither : IsPending f rest c.one → IsPending f rest c.two → IsRace f rest c
  first :
      c.one ≡ returns success (some f)
      → IsPending f rest c.two
      → is_freed f c.shared.freed ≡ true
      → IsRace f rest c
  second :
      IsPending f rest c.one
      → c.two ≡ returns success (some f)
      → is_freed f c.shared.freed ≡ true
      → IsRace f rest c

-- What a statement of such a call comes to.
Advanced : ℕ → Chain ℕ → List ℕ → Pc × Shared → Type 0
Advanced f rest gs r =
    (IsPending f rest r.0 × (r.1.freed ≡ gs))
    ⊎ ((r.0 ≡ returns success (some f)) × (is_freed f r.1.freed ≡ true))

module _ (f : ℕ) (rest : Chain ℕ) where
  advances :
      (pc : Pc) (s : Shared)
      → IsPending f rest pc
      → OnResult (Advanced f rest s.freed) (get_freefp_step pc s)
  unfolding get_freefp_step Advanced
  advances _ s looks =
      OnResult-if (Advanced f rest s.freed) (is_freed f s.freed) _ _ tt (inl (stored, refl))
  advances _ s stored =
      OnResult-if (Advanced f rest s.freed) (is_freed f s.freed) _ _ tt (inl (moved, refl))
  advances _ s moved =
      OnResult-if (Advanced f rest s.freed) (is_freed f s.freed) _ _ tt (inr (refl, ground arith))

  -- With the node freed, the call reads it or frees it again.
  stuck :
      (pc : Pc) (s : Shared)
      → IsPending f rest pc
      → is_freed f s.freed ≡ true
      → get_freefp_step pc s ≡ fault wild_pointer
  unfolding get_freefp_step
  stuck _ s looks gone = rw gone
  stuck _ s stored gone = rw gone
  stuck _ s moved gone = rw gone

  returned_stays :
      (pc : Pc) (s : Shared) → pc ≡ returns success (some f) → get_freefp_step pc s ≡ ok (pc, s)
  unfolding get_freefp_step
  returned_stays pc s e = rw e

  first_steps :
      (c : Calls)
      → IsRace f rest c
      → OnResult
          (λ r. IsRace f rest (record { one = r.0; two = c.two; shared = r.1 }))
          (get_freefp_step c.one c.shared)
  unfolding Advanced
  first_steps c (neither p q) =
      OnResult-mono _ (get_freefp_step c.one c.shared) (advances c.one c.shared p)
        λ r a. elim a [ inl goes ↦ neither goes.0 q | inr done ↦ first done.0 q done.1 ]
  first_steps c (first e q gone) = rw (returned_stays c.one c.shared e) (first e q gone)
  first_steps c (second p e gone) = rw (stuck c.one c.shared p gone) tt

  second_steps :
      (c : Calls)
      → IsRace f rest c
      → OnResult
          (λ r. IsRace f rest (record { one = c.one; two = r.0; shared = r.1 }))
          (get_freefp_step c.two c.shared)
  unfolding Advanced
  second_steps c (neither p q) =
      OnResult-mono _ (get_freefp_step c.two c.shared) (advances c.two c.shared q)
        λ r a. elim a [ inl goes ↦ neither p goes.0 | inr done ↦ second p done.0 done.1 ]
  second_steps c (first e q gone) = rw (stuck c.two c.shared q gone) tt
  second_steps c (second p e gone) = rw (returned_stays c.two c.shared e) (second p e gone)

  race_goes_on :
      (order : List Bool) (c : Calls)
      → IsRace f rest c
      → OnResult (IsRace f rest) (interleave order c)
  unfolding interleave
  race_goes_on [] c r = r
  race_goes_on (true ∷ order) c r =
      OnResult-bind (IsRace f rest) (get_freefp_step c.one c.shared) _ (first_steps c r)
        λ x r'. race_goes_on order (record { one = x.0; two = c.two; shared = x.1 }) r'
  race_goes_on (false ∷ order) c r =
      OnResult-bind (IsRace f rest) (get_freefp_step c.two c.shared) _ (second_steps c r)
        λ x r'. race_goes_on order (record { one = c.one; two = x.0; shared = x.1 }) r'

  -- Two calls start on a list with a first node, and both read the list before either goes on. In
  -- every order of their statements from then on, as long as the run is defined, either neither call
  -- has returned, and both work on that first node; or one has returned, with its frame, and the
  -- other still works on the node, which has been freed. So in no order do both return, and neither
  -- gets another frame.
  pub same_frame :
      (order : List Bool) (gs : List ℕ) (last : Calls)
      → interleave (true ∷ false ∷ order) (record {
        one = starts;
        two = starts;
        shared = record { free_fp_list = node f rest; freed = gs };
      })
        ≡ ok last
      → IsRace f rest last
  unfolding interleave get_freefp_step
  same_frame order gs last h =
      OnResult-ok (IsRace f rest) (interleave order _) (race_goes_on order _ (neither looks looks))
        h
