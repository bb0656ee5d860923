-- ===== src/Page/Tests.antt =====
-- Pages of the small system.
use lab_os_assignment.Base.{◌%◌, ◌≡◌, arith, refl, some, [], ◌∷◌, set, ◌==◌, if◌then◌else◌}
use lab_os_assignment.Outcome.{ok, ◌>>=◌, success, Returns}
use lab_os_assignment.Chain.{null, node}
use lab_os_assignment.Paging
use lab_os_assignment.Page.{pg_getpage, pg_getval, pg_setval, region_address, pgread, pgwrite}
use lab_os_assignment.Page.Present.{IsMapped, physical, value_of, with_mm, value_across}
use lab_os_assignment.Page.Shared.{frames_alias}
use lab_os_assignment.Pte.{pte_set_fpn}
use lab_os_assignment.Page.SwapIn.{BroughtIn, pg_getpage-BroughtIn}
use lab_os_assignment.Page.SwapOut.{SwappedOut, pg_getpage-SwappedOut}
use lab_os_assignment.Mm.{Caller}
use lab_os_assignment.Page.Access.{pgread-pgwrite}
use lab_os_assignment.Samples.{mm, ram, region, area, caller, present, swap}

low-IsMapped : IsMapped (caller present) 5 present
unfolding Paging.pgn Paging.page_present Paging.fpn Paging.offst
low-IsMapped = record { entry = refl; present = refl; random = omega arith; inside = omega arith }

high-IsMapped : IsMapped (caller present) 6 present
unfolding Paging.pgn Paging.page_present Paging.fpn Paging.offst
high-IsMapped = record { entry = refl; present = refl; random = omega arith; inside = omega arith }

value_across_example :
    (pg_setval (caller present) 5 33 >>= λ c'.
    value_of (pg_getval (with_mm c' (mm (present ∷ []))) 6))
    ≡ (if physical present 5 == physical present 6
        then ok (some 33)
        else value_of (pg_getval (with_mm (caller present) (mm (present ∷ []))) 6))
value_across_example =
    value_across (caller present) (mm (present ∷ [])) 5 6 present present 33 low-IsMapped
      high-IsMapped

-- Two processes whose pages were set to the frames 3 and 200.
frames_alias_example :
    (pg_setval (caller (pte_set_fpn 0 3)) 5 33 >>= λ c'.
    value_of (pg_getval (with_mm c' (mm (pte_set_fpn 0 200 ∷ []))) 5))
    ≡ ok (some 33)
unfolding Paging.pgn
frames_alias_example =
    frames_alias (caller (pte_set_fpn 0 3)) (mm (pte_set_fpn 0 200 ∷ [])) 5 5 0 0 3 200 33
      (omega arith) (omega arith) (omega arith) (omega arith) refl refl refl (omega arith)
      (omega arith)

pg_getpage-BroughtIn_example : Returns (BroughtIn (caller 0) 0 0 1 null) (pg_getpage (caller 0) 0)
unfolding Paging.page_present Paging.swp
pg_getpage-BroughtIn_example =
    pg_getpage-BroughtIn (caller 0) 0 0 1 null (omega arith) refl refl refl
      (record { random = omega arith; inside = omega arith; small = omega arith })
      (record { random = omega arith; inside = omega arith; small = omega arith })

-- Page 1 is in RAM, which has no free frame.
abbrev full : Caller
full = record (caller 0) {
  mm = record (caller 0).mm { pgd = 0 ∷ present ∷ []; fifo_pgn = node 1 null };
  mram = record ram { free_fp_list = null };
  active_mswp = record swap { free_fp_list = node 1 null };
}

pg_getpage-SwappedOut_example :
    Returns (SwappedOut full 0 0 1 present 1 null null) (pg_getpage full 0)
unfolding Paging.page_present Paging.swp
pg_getpage-SwappedOut_example =
    pg_getpage-SwappedOut full 0 0 1 [] present 1 null refl refl refl refl refl (omega arith) refl
      (record { random = omega arith; inside = omega arith; small = omega arith })
      (record { random = omega arith; inside = omega arith; small = omega arith })
      (record { random = omega arith; inside = omega arith; small = omega arith })

pgread-pgwrite_example :
    (pgwrite (caller present) 300 2 20 >>= λ w. pgread w.1 2 20 0)
    ≡ ok (
      success,
      300 % 256,
      record (caller present) {
        mram = record ram {
          storage = set ram.storage (physical present (region_address 0 20)) (300 % 256);
        };
      },
    )
unfolding Paging.pgn Paging.page_present Paging.fpn Paging.offst
pgread-pgwrite_example =
    pgread-pgwrite (caller present) area null 2 20 present 300 0 (region 0 100)
      (record { area = refl; table = omega arith; ram = omega arith })
      (record {
        slot = omega arith;
        region = refl;
        mapped = record {
          entry = refl;
          present = refl;
          random = omega arith;
          inside = omega arith;
        };
      })
