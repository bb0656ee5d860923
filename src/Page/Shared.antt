-- ===== src/Page/Shared.antt =====
-- Two processes whose pages were set to frames of one RAM.
use lab_os_assignment.Base.{ℕ, ◌≤◌, ◌<◌, ◌^◌, ◌≡◌, ◌≢◌, arith, some, length, get_elem?, ◌==◌, true}
use lab_os_assignment.Outcome.{ok, ◌>>=◌}
use lab_os_assignment.Paging
use lab_os_assignment.Paging.Address.{offst_lem}
use lab_os_assignment.Pte.{pte_set_fpn}
use lab_os_assignment.Pte.Fields.{pte_set_fpn_fields}
use lab_os_assignment.Pte.Mismatch.{fpn-pte_set_fpn}
use lab_os_assignment.Mm.{Mm, Caller}
use lab_os_assignment.Page.{pg_getval, pg_setval}
use lab_os_assignment.Page.Present.{physical, IsMapped, value_of, with_mm, value_across}

-- The pages of two processes are set to frames below 256 of a random access RAM with at least one
-- page. Whatever the two frames are, what one process writes is what the other finds at the same
-- offset of its page.
pub frames_alias :
    (c : Caller) (other : Mm) (a b pte_a pte_b f g value : ℕ)
    → pte_a < 2 ^ 32
    → pte_b < 2 ^ 32
    → f < 256
    → g < 256
    → get_elem? c.mm.pgd (Paging.pgn a) ≡ some (pte_set_fpn pte_a f)
    → get_elem? other.pgd (Paging.pgn b) ≡ some (pte_set_fpn pte_b g)
    → Paging.offst a ≡ Paging.offst b
    → c.mram.rdmflg ≢ 0
    → 256 ≤ length c.mram.storage
    → (pg_setval c a value >>= λ c'. value_of (pg_getval (with_mm c' other) b)) ≡ ok (some value)
frames_alias c other a b pte_a pte_b f g value small small' low low' at at' same random room =
    rw (value_across c other a b pa pb value ma mb, hit)
  where
    pa : ℕ
    pa = pte_set_fpn pte_a f

    pb : ℕ
    pb = pte_set_fpn pte_b g

    zero_a : Paging.fpn pa ≡ 0
    zero_a = omega (arith, (fpn-pte_set_fpn pte_a f small (omega arith)).0)

    zero_b : Paging.fpn pb ≡ 0
    zero_b = omega (arith, (fpn-pte_set_fpn pte_b g small' (omega arith)).0)

    ma : IsMapped c a pa
    ma = record {
      entry = at;
      present = (pte_set_fpn_fields pte_a f small).1;
      random = random;
      inside = omega (arith, zero_a, offst_lem a);
    }

    mb : IsMapped (with_mm c other) b pb
    mb = record {
      entry = at';
      present = (pte_set_fpn_fields pte_b g small').1;
      random = random;
      inside = omega (arith, zero_b, offst_lem b);
    }

    hit : (physical pa a == physical pb b) ≡ true
    hit = ground (arith, zero_a, zero_b, same)
