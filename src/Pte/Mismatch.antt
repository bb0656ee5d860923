-- ===== src/Pte/Mismatch.antt =====
-- What src/mm-vm.c reads back from the entries that src/mm.c writes: PAGING_FPN and PAGING_SWP use
-- the masks of an address, not the masks of the entry's fields.
use lab_os_assignment.Base.{ℕ, ◌+◌, ◌/◌, ◌%◌, ◌^◌, ◌<◌, ◌≡◌, ◌↔◌, arith, true}
use lab_os_assignment.Paging.{page_present, fpn, swp}
use lab_os_assignment.Paging.Address.{fpn_lem, swp_lem}
use lab_os_assignment.Pte.{pte_set_swap, pte_set_fpn}
use lab_os_assignment.Pte.Fields.{pte_set_fpn_lem, pte_set_swap_lem, pte_set_swap_fields}

-- For a 32-bit entry and a frame number of 13 bits, PAGING_FPN of the entry that `pte_set_fpn`
-- writes is bits 8 and 9 of the frame number, so it is the frame number for frame 0 alone.
pub fpn-pte_set_fpn :
    (pte x : ℕ)
    → pte < 2 ^ 32
    → x < 2 ^ 13
    → (fpn (pte_set_fpn pte x) ≡ x / 256 % 4) × ((fpn (pte_set_fpn pte x) ≡ x) ↔ (x ≡ 0))
fpn-pte_set_fpn pte x h small =
    let read : fpn (pte_set_fpn pte x) ≡ x / 256 % 4 =
      omega (arith, fpn_lem (pte_set_fpn pte x), pte_set_fpn_lem pte x h) in
    (read, omega arith)

-- For a 32-bit entry and a swap offset below 512, PAGING_SWP of the entry that `pte_set_swap` writes
-- is the offset with its three low bits dropped, so it is the offset only for multiples of 8; and
-- the page still counts as present.
pub swp-pte_set_swap :
    (pte swptyp swpoff : ℕ)
    → pte < 2 ^ 32
    → swpoff < 512
    → (swp (pte_set_swap pte swptyp swpoff) + swpoff % 8 ≡ swpoff)
      × ((swp (pte_set_swap pte swptyp swpoff) ≡ swpoff) ↔ (swpoff % 8 ≡ 0))
      × (page_present (pte_set_swap pte swptyp swpoff) ≡ true)
swp-pte_set_swap pte swptyp swpoff h small =
    let new = pte_set_swap pte swptyp swpoff in
    let read : swp new + swpoff % 8 ≡ swpoff =
      omega (arith, swp_lem new, pte_set_swap_lem pte swptyp swpoff h) in
    (read, omega arith, (pte_set_swap_fields pte swptyp swpoff h).3)
