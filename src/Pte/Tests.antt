-- ===== src/Pte/Tests.antt =====
-- The entry functions on concrete entries.
use lab_os_assignment.Base.{◌^◌, ◌/◌, ◌%◌, ◌<◌, bit_and, ◌≡◌, arith, true}
use lab_os_assignment.Paging.{getval, page_present, swapped_mask, pte_fpn_mask}
use lab_os_assignment.Pte.{pte_set_fpn}
use lab_os_assignment.Pte.Fields.{pte_set_fpn_fields}

pte_set_fpn_fields_example :
    (getval (pte_set_fpn 8193 300) pte_fpn_mask 0 ≡ 300 % 2 ^ 13)
    × (page_present (pte_set_fpn 8193 300) ≡ true)
    × (bit_and (pte_set_fpn 8193 300) swapped_mask ≡ 0)
    × (pte_set_fpn 8193 300 / 2 ^ 13 % 2 ^ 17 ≡ 8193 / 2 ^ 13 % 2 ^ 17)
    × (pte_set_fpn 8193 300 < 2 ^ 32)
pte_set_fpn_fields_example = pte_set_fpn_fields 8193 300 (omega arith)
