-- ===== src/Mm/Tests.antt =====
-- Mapping and copying on the small system.
use lab_os_assignment.Base.{◌≡◌, arith, ◌||◌, ◌==◌, if◌then◌else◌}
use lab_os_assignment.Outcome.{ok, success, Returns}
use lab_os_assignment.Words.{is_negative}
use lab_os_assignment.Chain.{null, node}
use lab_os_assignment.Mm.{alloc_pages_range, swap_cp_page}
use lab_os_assignment.Mm.Map.{first_frame, alloc_pages_range_lem}
use lab_os_assignment.Mm.Copy.{Copied, swap_cp_page-Copied}
use lab_os_assignment.Samples.{ram, swap, caller}

alloc_pages_range_lem_example : alloc_pages_range (caller 0) 2 ≡ (
    if is_negative 2 || 2 == 0
    then ok (success, caller 0)
    else first_frame (node 1 null) (caller 0))
alloc_pages_range_lem_example = alloc_pages_range_lem (caller 0) 2

swap_cp_page-Copied_example : Returns (Copied swap ram 1 0 0 256) (swap_cp_page swap 1 ram 0)
swap_cp_page-Copied_example =
    swap_cp_page-Copied swap ram 1 0
      (record { random = omega arith; inside = omega arith; small = omega arith })
      (record { random = omega arith; inside = omega arith; small = omega arith })
