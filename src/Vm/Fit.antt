-- ===== src/Vm/Fit.antt =====
-- The loop of get_free_vmrg_area over the free list.
use lab_os_assignment.Base.{
  ℕ, zero, suc, ◌+◌, ◌-◌, ◌^◌, ◌≤◌, ◌<◌, ◌≡◌, refl, ap, arith, ltb, leb, lt→ltb, le→leb, lt→leb,
  true, false, ◌⊎◌, inl, inr,
}
use lab_os_assignment.Outcome.{ok, ◌>>=◌, Returns, Returns-mono, Returns-bind}
use lab_os_assignment.Words.{add_ulong}
use lab_os_assignment.Chain.{Chain, null, wild, node}
use lab_os_assignment.Mm.{Region}
use lab_os_assignment.Vm.{fit_loop}
use native.Mathlib.Decide.{dec_lt}

-- Regions of a user address space: in order, and in the lower half.
pub record IsRegion (rg : Region) : Type 0 where
  pub ordered : rg.rg_start ≤ rg.rg_end
  pub low : rg.rg_end < 2 ^ 63

-- Every node of a list that ends in NULL.
abbrev pub AllNodes : (Region → Type 0) → Chain Region → Type 0
AllNodes P null = Unit
AllNodes P wild = ⊥
AllNodes P (node rg next) = P rg × AllNodes P next

-- The rounds that the loop can take: one for each byte, and two for each node.
abbrev pub rounds_for : Chain Region → ℕ
rounds_for null = 1
rounds_for wild = 1
rounds_for (node rg next) = rg.rg_end - rg.rg_start + 2 + rounds_for next

-- `rg` lies inside a region of the list.
abbrev pub Inside : Region → Chain Region → Type 0
Inside rg null = ⊥
Inside rg wild = ⊥
Inside rg (node r next) = ((r.rg_start ≤ rg.rg_start) × (rg.rg_end ≤ r.rg_end)) ⊎ Inside rg next

-- What the loop comes to from `newrg` over `list`: either it found no room, and nothing is changed,
-- or a region of `size` bytes inside the list. No region that is left has room for `size` bytes.
pub record Fitted (size : ℕ) (newrg : Region) (list : Chain Region) (r : Region × Chain Region)
    : Type 0 where
  pub chosen :
      ((r.0 ≡ newrg) × (r.1 ≡ list)) ⊎ ((r.0.rg_end ≡ r.0.rg_start + size) × Inside r.0 list)
  pub exhausted : AllNodes (λ rg. rg.rg_end < rg.rg_start + size) r.1
  pub regions : AllNodes IsRegion r.1

module _ (size : ℕ) (newrg rg : Region) (next : Chain Region) where
  abbrev pub taken : Region
  taken = record { rg_start = rg.rg_start; rg_end = rg.rg_start + size }

  -- The loop goes on with `taken` over `list`, whose regions lie inside those of `node rg next`.
  Fitted-taken :
      (list : Chain Region) (r : Region × Chain Region)
      → rg.rg_start + size ≤ rg.rg_end
      → (Inside r.0 list → Inside r.0 (node rg next))
      → Fitted size taken list r
      → Fitted size newrg (node rg next) r
  Fitted-taken list r fits inner f = record {
    chosen = inr (elim f.chosen [
      | inl (same, _) ↦ rw same (refl, inl (omega arith, fits))
      | inr (len, inside) ↦ (len, inner inside)
    ]);
    exhausted = f.exhausted;
    regions = f.regions;
  }

  Fitted-passed :
      (r : Region × Chain Region)
      → rg.rg_end < rg.rg_start + size
      → IsRegion rg
      → Fitted size newrg next r
      → Fitted size newrg (node rg next) (r.0, node rg r.1)
  Fitted-passed r full ok_rg f = record {
    chosen = elim f.chosen [
      | inl (same, list) ↦ inl (same, ap (node rg) list)
      | inr (len, inside) ↦ inr (len, inr inside)
    ];
    exhausted = (full, f.exhausted);
    regions = (ok_rg, f.regions);
  }

  -- The three ways of a round.
  module _ (fuel : ℕ) (small : size < 2 ^ 31) (range : IsRegion rg) where
    no_wrap : add_ulong rg.rg_start size ≡ rg.rg_start + size
    no_wrap = omega arith

    pub fit_loop-shrink :
        rg.rg_start + size < rg.rg_end
        → fit_loop (suc fuel) size newrg (node rg next)
          ≡ fit_loop fuel size taken (node (record rg { rg_start = rg.rg_start + size }) next)
    unfolding fit_loop
    fit_loop-shrink h =
        rw (no_wrap, le→leb (rg.rg_start + size) rg.rg_end (omega arith), lt→ltb _ _ h)

    pub fit_loop-pass :
        rg.rg_end < rg.rg_start + size
        → fit_loop (suc fuel) size newrg (node rg next)
          ≡ (fit_loop fuel size newrg next >>= λ r. ok (r.0, node rg r.1))
    unfolding fit_loop
    fit_loop-pass h = rw (no_wrap, lt→leb (rg.rg_start + size) rg.rg_end h)

module _ (size : ℕ) (newrg rg : Region) (fuel : ℕ) (small : size < 2 ^ 31)
    (range : IsRegion rg) where
  use_up-tests :
      rg.rg_start + size ≡ rg.rg_end
      → (leb (rg.rg_start + size) rg.rg_end ≡ true) × (ltb (rg.rg_start + size) rg.rg_end ≡ false)
  use_up-tests h = ground arith

  pub fit_loop-last :
      rg.rg_start + size ≡ rg.rg_end
      → fit_loop (suc fuel) size newrg (node rg null)
        ≡ fit_loop fuel size
            (taken size newrg rg null)
            (node (record rg { rg_start = rg.rg_end }) null)
  unfolding fit_loop
  fit_loop-last h =
      let tests = use_up-tests h in
      rw (no_wrap size newrg rg null fuel small range, tests.0, tests.1)

  pub fit_loop-next :
      (nextrg : Region) (rest : Chain Region)
      → rg.rg_start + size ≡ rg.rg_end
      → fit_loop (suc fuel) size newrg (node rg (node nextrg rest))
        ≡ fit_loop fuel size (taken size newrg rg rest) (node nextrg rest)
  unfolding fit_loop
  fit_loop-next nextrg rest h =
      let tests = use_up-tests h in
      rw (no_wrap size newrg rg rest fuel small range, tests.0, tests.1)

round :
    (fuel size : ℕ) (newrg rg : Region) (next : Chain Region)
    → 0 < size
    → size < 2 ^ 31
    → IsRegion rg
    → AllNodes IsRegion next
    → rounds_for (node rg next) ≤ suc fuel
    → ((newrg : Region) (list : Chain Region)
        → AllNodes IsRegion list
        → rounds_for list ≤ fuel
        → Returns (Fitted size newrg list) (fit_loop fuel size newrg list))
    → Returns (Fitted size newrg (node rg next)) (fit_loop (suc fuel) size newrg (node rg next))
round fuel size newrg rg next pos small range rs f ih =
    elim (dec_lt (rg.rg_start + size) rg.rg_end) [
      | yes p ↦ rw (fit_loop-shrink size newrg rg next fuel small range p) (
          Returns-mono _
            (ih (taken size newrg rg next) (node (record rg { rg_start = rg.rg_start + size }) next)
              (omega arith, rs) (omega arith))
            (λ r fitted. Fitted-taken size newrg rg next _ r (omega arith) shrunk fitted))
      | no np ↦ elim (dec_lt rg.rg_end (rg.rg_start + size)) [
        | yes p ↦ rw (fit_loop-pass size newrg rg next fuel small range p) (
            Returns-bind (Fitted size newrg (node rg next)) (fit_loop fuel size newrg next)
              (λ r. ok (r.0, node rg r.1)) (ih newrg next rs (omega arith))
              (λ r fitted. Fitted-passed size newrg rg next r p range fitted))
        | no nq ↦ use_up next rs f (omega arith)
      ]
    ]
  where
    shrunk :
        {r : Region}
        → Inside r (node (record rg { rg_start = rg.rg_start + size }) next)
        → Inside r (node rg next)
    shrunk (inl i) = inl (omega arith, i.1)
    shrunk (inr i) = inr i

    ended :
        {r : Region}
        → Inside r (node (record rg { rg_start = rg.rg_end }) null)
        → Inside r (node rg null)
    ended (inl i) = inl (omega arith, i.1)
    ended (inr i) = inr i

    use_up :
        (next : Chain Region)
        → AllNodes IsRegion next
        → rounds_for (node rg next) ≤ suc fuel
        → rg.rg_start + size ≡ rg.rg_end
        → Returns (Fitted size newrg (node rg next)) (fit_loop (suc fuel) size newrg (node rg next))
    use_up null rs f e = rw (fit_loop-last size newrg rg fuel small range (omega arith)) (
        Returns-mono _
          (ih _ (node (record rg { rg_start = rg.rg_end }) null) (omega arith, tt) (omega arith))
          (λ r fitted. Fitted-taken size newrg rg null _ r (omega arith) ended fitted))
    use_up wild rs f e = absurd rs
    use_up (node nextrg rest) rs f e =
        rw (fit_loop-next size newrg rg fuel small range nextrg rest (omega arith)) (
          Returns-mono _ (ih _ (node nextrg rest) rs (omega arith)) (λ r fitted.
            Fitted-taken size newrg rg (node nextrg rest) _ r (omega arith) (λ i. inr i) fitted))

-- With a positive size and a proper list of regions the loop ends within `rounds_for` rounds.
pub fit_loop-Fitted :
    (fuel size : ℕ) (newrg : Region) (list : Chain Region)
    → 0 < size
    → size < 2 ^ 31
    → AllNodes IsRegion list
    → rounds_for list ≤ fuel
    → Returns (Fitted size newrg list) (fit_loop fuel size newrg list)
unfolding fit_loop
fit_loop-Fitted zero size newrg null pos small rs f = absurd (omega arith)
fit_loop-Fitted zero size newrg wild pos small rs f = absurd rs
fit_loop-Fitted zero size newrg (node rg next) pos small rs f = absurd (omega arith)
fit_loop-Fitted (suc fuel) size newrg null pos small rs f = record {
  chosen = inl (refl, refl);
  exhausted = tt;
  regions = tt;
}
fit_loop-Fitted (suc fuel) size newrg wild pos small rs f = absurd rs
fit_loop-Fitted (suc fuel) size newrg (node rg next) pos small rs f =
    round fuel size newrg rg next pos small rs.0 rs.1 f
      (λ newrg' list rs' f'. fit_loop-Fitted fuel size newrg' list pos small rs' f')
