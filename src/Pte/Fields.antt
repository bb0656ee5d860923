-- ===== src/Pte/Fields.antt =====
-- What the entry functions write, as a number: each field in its place.
use lab_os_assignment.Base.{
  ℕ, ◌+◌, ◌-◌, ◌*◌, ◌/◌, ◌%◌, ◌^◌, ◌<◌, bit_and, ◌≡◌, refl, arith, true, ◌==◌, if◌then◌else◌,
}
use lab_os_assignment.Outcome.{success, failure}
use lab_os_assignment.Bits.{and-ones, and-bit, and-add, and-disjoint, or-add-and}
use lab_os_assignment.Paging.{
  complement, setbit, clrbit, setval, getval, present_mask, swapped_mask, dirty_mask, pte_fpn_mask,
  pte_swptyp_mask, pte_swpoff_mask, page_present,
}
use lab_os_assignment.Paging.Address.{and-field, page_present_lem}
use lab_os_assignment.Pte.{init_pte, pte_set_swap, pte_set_fpn}

-- `v` with the bits of `mask` cleared, and those bits, make up `v`.
clrbit-add-and :
    (v mask : ℕ)
    → v < 2 ^ 32
    → mask < 2 ^ 32
    → bit_and mask (complement mask) ≡ 0
    → clrbit v mask + bit_and v mask ≡ v
clrbit-add-and v mask h fits apart =
    let whole : mask + complement mask ≡ 2 ^ 32 - 1 = omega arith in
    let all : bit_and v (mask + complement mask) ≡ v % 2 ^ 32 = rw whole (and-ones 32 v) in
    omega (arith, all, and-add v mask (complement mask) apart)

-- The new field stands beside what the mask leaves.
setval-eq :
    (v value mask offst : ℕ)
    → bit_and (complement mask) mask ≡ 0
    → setval v value mask offst ≡ clrbit v mask + bit_and (value * 2 ^ offst % 2 ^ 32) mask
setval-eq v value mask offst apart = omega (
  arith,
  or-add-and (clrbit v mask) (bit_and (value * 2 ^ offst % 2 ^ 32) mask),
  and-disjoint v (value * 2 ^ offst % 2 ^ 32) (complement mask) mask apart,
)

setbit_31 : (v : ℕ) → setbit v (2 ^ 31) + v / 2 ^ 31 % 2 * 2 ^ 31 ≡ v + 2 ^ 31
setbit_31 v = omega (arith, or-add-and v (2 ^ 31), and-bit 31 v)

setbit_30 : (v : ℕ) → setbit v (2 ^ 30) + v / 2 ^ 30 % 2 * 2 ^ 30 ≡ v + 2 ^ 30
setbit_30 v = omega (arith, or-add-and v (2 ^ 30), and-bit 30 v)

clrbit_30 : (v : ℕ) → v < 2 ^ 32 → clrbit v (2 ^ 30) + v / 2 ^ 30 % 2 * 2 ^ 30 ≡ v
clrbit_30 v h = omega (arith, clrbit-add-and v (2 ^ 30) h (omega arith) refl, and-bit 30 v)

clrbit_28 : (v : ℕ) → v < 2 ^ 32 → clrbit v (2 ^ 28) + v / 2 ^ 28 % 2 * 2 ^ 28 ≡ v
clrbit_28 v h = omega (arith, clrbit-add-and v (2 ^ 28) h (omega arith) refl, and-bit 28 v)

setval_fpn : (v x : ℕ) → v < 2 ^ 32 → setval v x 0x1fff 0 + v % 2 ^ 13 ≡ v + x % 2 ^ 13
setval_fpn v x h = omega (
  arith,
  setval-eq v x 0x1fff 0 refl,
  clrbit-add-and v 0x1fff h (omega arith) refl,
  and-ones 13 v,
  and-ones 13 (x * 2 ^ 0 % 2 ^ 32),
)

setval_swptyp : (v x : ℕ) → v < 2 ^ 32 → setval v x 0x1f 0 + v % 2 ^ 5 ≡ v + x % 2 ^ 5
setval_swptyp v x h = omega (
  arith,
  setval-eq v x 0x1f 0 refl,
  clrbit-add-and v 0x1f h (omega arith) refl,
  and-ones 5 v,
  and-ones 5 (x * 2 ^ 0 % 2 ^ 32),
)

setval_swpoff :
    (v x : ℕ)
    → v < 2 ^ 32
    → setval v x 0x3ffffe0 5 + v / 2 ^ 5 % 2 ^ 21 * 2 ^ 5 ≡ v + x % 2 ^ 21 * 2 ^ 5
setval_swpoff v x h = omega (
  arith,
  setval-eq v x 0x3ffffe0 5 refl,
  clrbit-add-and v 0x3ffffe0 h (omega arith) refl,
  and-field 5 21 v,
  and-field 5 21 (x * 2 ^ 5 % 2 ^ 32),
)

pub pte_set_fpn_lem :
    (pte x : ℕ)
    → pte < 2 ^ 32
    → pte_set_fpn pte x ≡ 2 ^ 31 + pte / 2 ^ 13 % 2 ^ 17 * 2 ^ 13 + x % 2 ^ 13
unfolding pte_set_fpn
pte_set_fpn_lem pte x h =
    let present = setbit pte (2 ^ 31) in
    let cleared = clrbit present (2 ^ 30) in
    let e1 : present + pte / 2 ^ 31 % 2 * 2 ^ 31 ≡ pte + 2 ^ 31 = setbit_31 pte in
    let e2 : cleared + present / 2 ^ 30 % 2 * 2 ^ 30 ≡ present = clrbit_30 present (omega arith) in
    omega (arith, setval_fpn cleared x (omega arith))

pub pte_set_swap_lem :
    (pte swptyp swpoff : ℕ)
    → pte < 2 ^ 32
    → pte_set_swap pte swptyp swpoff
      ≡ 2 ^ 31 + 2 ^ 30 + pte / 2 ^ 26 % 2 ^ 4 * 2 ^ 26 + swpoff % 2 ^ 21 * 2 ^ 5 + swptyp % 2 ^ 5
unfolding pte_set_swap
pte_set_swap_lem pte swptyp swpoff h =
    let present = setbit pte (2 ^ 31) in
    let swapped = setbit present (2 ^ 30) in
    let typed = setval swapped swptyp 0x1f 0 in
    let e1 : present + pte / 2 ^ 31 % 2 * 2 ^ 31 ≡ pte + 2 ^ 31 = setbit_31 pte in
    let e2 : swapped + present / 2 ^ 30 % 2 * 2 ^ 30 ≡ present + 2 ^ 30 = setbit_30 present in
    let e3 : typed + swapped % 2 ^ 5 ≡ swapped + swptyp % 2 ^ 5 =
      setval_swptyp swapped swptyp (omega arith) in
    omega (arith, setval_swpoff typed swpoff (omega arith))

-- `pte_set_fpn` on a 32-bit entry: the frame number field (bits 0 to 12) holds the low 13 bits of
-- `fpn`, the page is present and not swapped, bits 13 to 29 are kept, and the entry has 32 bits.
pub pte_set_fpn_fields :
    (pte x : ℕ)
    → pte < 2 ^ 32
    → (getval (pte_set_fpn pte x) pte_fpn_mask 0 ≡ x % 2 ^ 13)
      × (page_present (pte_set_fpn pte x) ≡ true)
      × (bit_and (pte_set_fpn pte x) swapped_mask ≡ 0)
      × (pte_set_fpn pte x / 2 ^ 13 % 2 ^ 17 ≡ pte / 2 ^ 13 % 2 ^ 17)
      × (pte_set_fpn pte x < 2 ^ 32)
pte_set_fpn_fields pte x h =
    let new = pte_set_fpn pte x in
    let value : new ≡ 2 ^ 31 + pte / 2 ^ 13 % 2 ^ 17 * 2 ^ 13 + x % 2 ^ 13 =
      pte_set_fpn_lem pte x h in
    (
      omega (arith, and-ones 13 new),
      ground (arith, page_present_lem new),
      omega (arith, and-bit 30 new),
      omega arith,
      omega arith,
    )

-- `pte_set_swap` on a 32-bit entry: the type field (bits 0 to 4) holds the low 5 bits of `swptyp`,
-- the offset field (bits 5 to 25) the low 21 bits of `swpoff`, the swapped bit and the present bit
-- are both set, bits 26 to 29 are kept, and the entry has 32 bits.
pub pte_set_swap_fields :
    (pte swptyp swpoff : ℕ)
    → pte < 2 ^ 32
    → (getval (pte_set_swap pte swptyp swpoff) pte_swptyp_mask 0 ≡ swptyp % 2 ^ 5)
      × (getval (pte_set_swap pte swptyp swpoff) pte_swpoff_mask 5 ≡ swpoff % 2 ^ 21)
      × (bit_and (pte_set_swap pte swptyp swpoff) swapped_mask ≡ swapped_mask)
      × (page_present (pte_set_swap pte swptyp swpoff) ≡ true)
      × (pte_set_swap pte swptyp swpoff / 2 ^ 26 % 2 ^ 4 ≡ pte / 2 ^ 26 % 2 ^ 4)
      × (pte_set_swap pte swptyp swpoff < 2 ^ 32)
pte_set_swap_fields pte swptyp swpoff h =
    let new = pte_set_swap pte swptyp swpoff in
    let value : new
        ≡ 2 ^ 31
          + 2 ^ 30
          + pte / 2 ^ 26 % 2 ^ 4 * 2 ^ 26
          + swpoff % 2 ^ 21 * 2 ^ 5
          + swptyp % 2 ^ 5 =
      pte_set_swap_lem pte swptyp swpoff h in
    (
      omega (arith, and-ones 5 new),
      omega (arith, and-field 5 21 new),
      omega (arith, and-bit 30 new),
      ground (arith, page_present_lem new),
      omega arith,
      omega arith,
    )

-- `pte_set_fpn` acts on the entry whose dirty bit is cleared as `init_pte` does on the entry.
init_pte_online :
    (pte x : ℕ)
    → pte < 2 ^ 32
    → setval (clrbit (clrbit (setbit pte present_mask) swapped_mask) dirty_mask) x pte_fpn_mask 0
      ≡ pte_set_fpn (clrbit pte dirty_mask) x
unfolding pte_set_fpn
init_pte_online pte x h =
    let p1 = setbit pte (2 ^ 31) in
    let p2 = clrbit p1 (2 ^ 30) in
    let p3 = clrbit p2 (2 ^ 28) in
    let e1 : p1 + pte / 2 ^ 31 % 2 * 2 ^ 31 ≡ pte + 2 ^ 31 = setbit_31 pte in
    let e2 : p2 + p1 / 2 ^ 30 % 2 * 2 ^ 30 ≡ p1 = clrbit_30 p1 (omega arith) in
    let e3 : p3 + p2 / 2 ^ 28 % 2 * 2 ^ 28 ≡ p2 = clrbit_28 p2 (omega arith) in
    let d1 = clrbit pte (2 ^ 28) in
    let d2 = setbit d1 (2 ^ 31) in
    let d3 = clrbit d2 (2 ^ 30) in
    let g1 : d1 + pte / 2 ^ 28 % 2 * 2 ^ 28 ≡ pte = clrbit_28 pte h in
    let g2 : d2 + d1 / 2 ^ 31 % 2 * 2 ^ 31 ≡ d1 + 2 ^ 31 = setbit_31 d1 in
    let g3 : d3 + d2 / 2 ^ 30 % 2 * 2 ^ 30 ≡ d2 = clrbit_30 d2 (omega arith) in
    let same : p3 ≡ d3 = omega arith in rw same

init_pte_swapped :
    (pte : ℕ)
    → pte < 2 ^ 32
    → clrbit (setbit (setbit pte present_mask) swapped_mask) dirty_mask
      ≡ setbit (setbit (clrbit pte dirty_mask) present_mask) swapped_mask
init_pte_swapped pte h =
    let p1 = setbit pte (2 ^ 31) in
    let p2 = setbit p1 (2 ^ 30) in
    let p3 = clrbit p2 (2 ^ 28) in
    let e1 : p1 + pte / 2 ^ 31 % 2 * 2 ^ 31 ≡ pte + 2 ^ 31 = setbit_31 pte in
    let e2 : p2 + p1 / 2 ^ 30 % 2 * 2 ^ 30 ≡ p1 + 2 ^ 30 = setbit_30 p1 in
    let e3 : p3 + p2 / 2 ^ 28 % 2 * 2 ^ 28 ≡ p2 = clrbit_28 p2 (omega arith) in
    let d1 = clrbit pte (2 ^ 28) in
    let d2 = setbit d1 (2 ^ 31) in
    let d3 = setbit d2 (2 ^ 30) in
    let g1 : d1 + pte / 2 ^ 28 % 2 * 2 ^ 28 ≡ pte = clrbit_28 pte h in
    let g2 : d2 + d1 / 2 ^ 31 % 2 * 2 ^ 31 ≡ d1 + 2 ^ 31 = setbit_31 d1 in
    let g3 : d3 + d2 / 2 ^ 30 % 2 * 2 ^ 30 ≡ d2 + 2 ^ 30 = setbit_30 d2 in omega arith

-- `init_pte` on a 32-bit entry, on every branch: without `pre` it leaves the entry alone, on-line
-- with frame 0 it fails and leaves the entry alone, and otherwise it does what `pte_set_fpn` or
-- `pte_set_swap` does to the entry with its dirty bit cleared. `drt` is never read.
pub init_pte_lem :
    (pte pre x drt swp swptyp swpoff : ℕ)
    → pte < 2 ^ 32
    → init_pte pte pre x drt swp swptyp swpoff ≡ (
        if pre == 0
        then (success, pte)
        else if swp == 0
        then (if x == 0 then (failure, pte) else (success, pte_set_fpn (clrbit pte dirty_mask) x))
        else (success, pte_set_swap (clrbit pte dirty_mask) swptyp swpoff))
unfolding init_pte pte_set_swap
init_pte_lem pte pre x drt swp swptyp swpoff h =
    rw (init_pte_online pte x h, init_pte_swapped pte h)
