-- ===== src/Pte.antt =====
-- Page table entries: init_pte, pte_set_swap and pte_set_fpn of src/mm.c. A function that writes
-- through `pte` returns the new entry; an `int` argument is its 32-bit pattern.
pub mod Fields
pub mod Mismatch
mod Tests
use lab_os_assignment.Base.{ℕ, ◌==◌, if◌then◌else◌}
use lab_os_assignment.Outcome.{Status, success, failure}
use lab_os_assignment.Paging.{
  setbit, clrbit, setval, present_mask, swapped_mask, dirty_mask, pte_fpn_mask, pte_swptyp_mask,
  pte_swpoff_mask,
}

unfoldable pub init_pte : (pte pre fpn drt swp swptyp swpoff : ℕ) → Status × ℕ
init_pte pte pre fpn drt swp swptyp swpoff =
    if pre == 0
    then (success, pte)
    else if swp == 0
    then (if fpn == 0
        then (failure, pte)
        else (let pte = setbit pte present_mask in
            let pte = clrbit pte swapped_mask in
            let pte = clrbit pte dirty_mask in (success, setval pte fpn pte_fpn_mask 0)))
    else (let pte = setbit pte present_mask in
        let pte = setbit pte swapped_mask in
        let pte = clrbit pte dirty_mask in
        let pte = setval pte swptyp pte_swptyp_mask 0 in
        (success, setval pte swpoff pte_swpoff_mask 5))

-- The status is 0 on every path, and is left out.
unfoldable pub pte_set_swap : (pte swptyp swpoff : ℕ) → ℕ
pte_set_swap pte swptyp swpoff =
    let pte = setbit pte present_mask in
    let pte = setbit pte swapped_mask in
    let pte = setval pte swptyp pte_swptyp_mask 0 in setval pte swpoff pte_swpoff_mask 5

-- The status is 0 on every path, and is left out.
unfoldable pub pte_set_fpn : (pte fpn : ℕ) → ℕ
pte_set_fpn pte fpn =
    let pte = setbit pte present_mask in
    let pte = clrbit pte swapped_mask in setval pte fpn pte_fpn_mask 0
