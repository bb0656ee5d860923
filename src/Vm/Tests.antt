-- ===== src/Vm/Tests.antt =====
-- Allocation and release on the small system.
use lab_os_assignment.Base.{◌≡◌, arith, refl, [], ◌∷◌, some, length-replicate}
use lab_os_assignment.Outcome.{ok, fault, ◌>>=◌, success, Returns, out_of_fuel, wild_pointer}
use lab_os_assignment.Chain.{Chain, null, node, chain_of}
use lab_os_assignment.Mm.{init_mm, Region}
use lab_os_assignment.Vm.{get_free_vmrg_area, pgalloc, pgfree_data, find_victim_page}
use lab_os_assignment.Vm.Fit.{IsRegion}
use lab_os_assignment.Vm.Fresh.{pgalloc-init_mm}
use lab_os_assignment.Vm.Find.{with_list, Found, get_free_vmrg_area-Found, pgalloc-diverges}
use lab_os_assignment.Vm.Victim.{last_of, cut_last, with_pages, victim_dangles}
use lab_os_assignment.Vm.Release.{pgalloc-pgfree_data}
use lab_os_assignment.Samples.{region, area, mm, caller, present, crowded}

in_order : IsRegion (region 10 50)
in_order = record { ordered = omega arith; low = omega arith }

-- One free region of 40 bytes.
abbrev forty : Chain Region
forty = node (region 10 50) null

get_free_vmrg_area-Found_example :
    Returns
      (Found (caller present) area null 15 forty)
      (get_free_vmrg_area 43 (with_list (caller present) area null forty) 0 15)
get_free_vmrg_area-Found_example =
    get_free_vmrg_area-Found (caller present) area null 15 forty 43 (omega arith) (omega arith)
      (in_order, tt) (omega arith)

pgalloc-diverges_example :
    pgalloc 100 (with_list (caller present) area null forty) 0 2 ≡ fault out_of_fuel
pgalloc-diverges_example =
    pgalloc-diverges (caller present) area null (region 10 50) null in_order tt 100 2

pgalloc-pgfree_data_example :
    (pgfree_data (with_list (caller present) area null forty) 4 >>= λ r. pgalloc 100 r.1 8 5)
    ≡ fault wild_pointer
pgalloc-pgfree_data_example =
    pgalloc-pgfree_data (caller present) area null forty 4 (region 0 100) (omega arith) refl
      (omega (arith, length-replicate 30 (region 0 100))) (omega arith) 100 8 5

victim_dangles_example :
    (find_victim_page (with_pages (mm []) (chain_of (6 ∷ 2 ∷ 9 ∷ [])))
      ≡ ok (success, some (last_of 2 (9 ∷ [])), with_pages (mm []) (cut_last 6 (2 ∷ 9 ∷ []))))
    × (find_victim_page (with_pages (mm []) (cut_last 6 (2 ∷ 9 ∷ []))) ≡ fault wild_pointer)
victim_dangles_example = victim_dangles (mm []) 6 2 (9 ∷ [])

pgalloc-init_mm_example :
    pgalloc 5 (record crowded { mm = init_mm (0 ∷ []) (region 0 0 ∷ []) }) 300 0
    ≡ fault wild_pointer
pgalloc-init_mm_example = pgalloc-init_mm crowded (0 ∷ []) (region 0 0 ∷ []) 3 300 0
