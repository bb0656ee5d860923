-- ===== src/Vm/Find.antt =====
-- get_free_vmrg_area as a whole, on the first area of a process.
use native.Mathlib.Decide.{dec_lt}
use lab_os_assignment.Base.{
  ℕ, ◌∙◌, zero, suc, ◌+◌, ◌^◌, ◌≤◌, ◌<◌, ◌≡◌, refl, ap, subst, arith, none, some, Option, ◌⊎◌, inl,
  inr, false, ◌==◌, if◌then◌else◌,
}
use lab_os_assignment.Outcome.{
  Outcome, ok, fault, out_of_fuel, Status, success, failure, Returns, Returns-bind,
}
use lab_os_assignment.Words.{to_ulong, ulong_max}
use lab_os_assignment.Chain.{Chain, null, wild, node}
use lab_os_assignment.Mm.{Region, Area, Caller, get_vma_by_num}
use lab_os_assignment.Vm.{fit_loop, no_region, get_free_vmrg_area, alloc, pgalloc}
use lab_os_assignment.Vm.Fit.{
  IsRegion, AllNodes, Inside, rounds_for, Fitted, fit_loop-Fitted, fit_loop-shrink, fit_loop-last,
  fit_loop-next,
}

-- The caller whose first area is `a` with the free list `list`; every caller with an area is such.
abbrev pub with_list : Caller → Area → Chain Area → Chain Region → Caller
with_list c a next list = record c {
  mm = record c.mm { mmap = node (record a { vm_freerg_list = list }) next };
}

-- No region of the list holds `size` bytes.
abbrev pub NoRoom : ℕ → Chain Region → Type 0
NoRoom size list = AllNodes (λ rg. rg.rg_end < rg.rg_start + size) list

-- What the search reports: no region with room and nothing changed, or a region of `size` bytes
-- inside the free list, which has no room for `size` bytes any more.
abbrev pub Found :
    (c : Caller) (a : Area) (next : Chain Area) (size : ℕ)
    → Chain Region
    → Status × Option Region × Caller
    → Type 0
Found c a next size list r =
    ((r.0 ≡ failure) × (r.1 ≡ none) × (r.2 ≡ with_list c a next list) × NoRoom size list)
    ⊎ ((rg : Region) × (left : Chain Region) × (r.0 ≡ success)
        × (r.1 ≡ some rg)
        × (rg.rg_end ≡ rg.rg_start + size)
        × Inside rg list
        × (r.2 ≡ with_list c a next left)
        × NoRoom size left
        × AllNodes IsRegion left)

Inside-low :
    (rg : Region) (list : Chain Region)
    → AllNodes IsRegion list
    → Inside rg list
    → rg.rg_start ≤ rg.rg_end
    → rg.rg_start < 2 ^ 63
Inside-low rg null rs i le = absurd i
Inside-low rg wild rs i le = absurd i
Inside-low rg (node r next) rs (inl i) le = omega arith
Inside-low rg (node r next) rs (inr i) le = Inside-low rg next rs.1 i le

module _ (c : Caller) (a : Area) (next : Chain Area) (size : ℕ) where
  finish : Region × Chain Region → Outcome (Status × Option Region × Caller)
  finish r =
      if r.0.rg_start == ulong_max
      then ok (failure, none, with_list c a next r.1)
      else ok (success, some r.0, with_list c a next r.1)

  finish-Found :
      (list : Chain Region) (r : Region × Chain Region)
      → AllNodes IsRegion list
      → Fitted size no_region list r
      → Returns (Found c a next size list) (finish r)
  unfolding finish
  finish-Found list (newrg, left) rs f = elim f.chosen [
    | inl (same, kept) ↦
        rw same
          (inl (refl, refl, ap (with_list c a next) kept, subst (NoRoom size) kept f.exhausted))
    | inr (len, inside) ↦
        (let found : (newrg.rg_start == ulong_max) ≡ false =
            ground (arith, Inside-low newrg list rs inside (omega arith)) in
          rw found (inr (newrg, left, refl, refl, len, inside, refl, f.exhausted, f.regions)))
  ]

  -- A positive size, a first area whose free list is a proper list of regions, and fuel for it: the
  -- search ends; a region that it reports has `size` bytes and lies inside a free region; where it
  -- reports none, no region had room and nothing is changed. In both cases no region that is left
  -- has room for `size` bytes: one successful search uses up all the room for its size.
  pub get_free_vmrg_area-Found :
      (list : Chain Region) (fuel : ℕ)
      → 0 < size
      → size < 2 ^ 31
      → AllNodes IsRegion list
      → rounds_for list ≤ fuel
      → Returns
          (Found c a next size list)
          (get_free_vmrg_area fuel (with_list c a next list) 0 size)
  unfolding get_free_vmrg_area get_vma_by_num finish
  get_free_vmrg_area-Found null fuel pos small rs f = inl (refl, refl, refl, tt)
  get_free_vmrg_area-Found wild fuel pos small rs f = absurd rs
  get_free_vmrg_area-Found (node rg rest) fuel pos small rs f =
      let plain : to_ulong size ≡ size = ground arith in
      rw plain (
        Returns-bind (Found c a next size (node rg rest))
          (fit_loop fuel size no_region (node rg rest)) finish
          (fit_loop-Fitted fuel size no_region (node rg rest) pos small rs f)
          (λ r. finish-Found (node rg rest) r rs))

-- The rounds of the loop for size 0, from fewer rounds.
spin :
    (fuel : ℕ) (newrg rg : Region) (next : Chain Region)
    → IsRegion rg
    → AllNodes IsRegion next
    → rg.rg_start + 0 ≡ rg.rg_end
    → ((newrg rg : Region) (next : Chain Region)
        → IsRegion rg
        → AllNodes IsRegion next
        → fit_loop fuel 0 newrg (node rg next) ≡ fault out_of_fuel)
    → fit_loop (suc fuel) 0 newrg (node rg next) ≡ fault out_of_fuel
spin fuel newrg rg null range rs e ih =
    fit_loop-last 0 newrg rg fuel (omega arith) range e
    ∙ ih _ (record rg { rg_start = rg.rg_end }) null (omega arith) tt
spin fuel newrg rg wild range rs e ih = absurd rs
spin fuel newrg rg (node nextrg rest) range rs e ih =
    fit_loop-next 0 newrg rg fuel (omega arith) range nextrg rest e ∙ ih _ nextrg rest rs.0 rs.1

fit_loop-diverges :
    (fuel : ℕ) (newrg rg : Region) (next : Chain Region)
    → IsRegion rg
    → AllNodes IsRegion next
    → fit_loop fuel 0 newrg (node rg next) ≡ fault out_of_fuel
unfolding fit_loop
fit_loop-diverges zero newrg rg next range rs = refl
fit_loop-diverges (suc fuel) newrg rg next range rs = elim (dec_lt rg.rg_start rg.rg_end) [
  | yes p ↦
      fit_loop-shrink 0 newrg rg next fuel (omega arith) range (omega arith)
      ∙ fit_loop-diverges fuel _ (record rg { rg_start = rg.rg_start + 0 }) next (omega arith) rs
  | no p ↦ spin fuel newrg rg next range rs (omega arith) (fit_loop-diverges fuel)
]

-- `pgalloc` of size 0, where the first area has a proper free list of regions with at least one
-- node, never ends: whatever the fuel, it is used up.
pub pgalloc-diverges :
    (c : Caller) (a : Area) (next : Chain Area) (rg : Region) (rest : Chain Region)
    → IsRegion rg
    → AllNodes IsRegion rest
    → (fuel reg_index : ℕ)
    → pgalloc fuel (with_list c a next (node rg rest)) 0 reg_index ≡ fault out_of_fuel
unfolding pgalloc alloc get_free_vmrg_area get_vma_by_num
pgalloc-diverges c a next rg rest range rs fuel reg_index =
    rw (fit_loop-diverges fuel no_region rg rest range rs)
