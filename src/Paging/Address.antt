-- ===== src/Paging/Address.antt =====
-- What the extraction macros of include/mm.h compute, by division and remainder.
use lab_os_assignment.Base.{
  ℕ, ◌+◌, ◌-◌, ◌*◌, ◌/◌, ◌%◌, ◌^◌, ◌<◌, bit_and, ◌≡◌, ap, ◌∙◌, arith, ◌==◌,
}
use lab_os_assignment.Bits.{and-ones, and-shift, and-bit}
use lab_os_assignment.Paging.{page_present, offst, pgn, fpn, swp}

-- A mask of `w` ones above `l` zeros.
pub and-field : (l w a : ℕ) → bit_and a ((2 ^ w - 1) * 2 ^ l) ≡ a / 2 ^ l % 2 ^ w * 2 ^ l
and-field l w a = and-shift l a (2 ^ w - 1) ∙ ap (λ t. t * 2 ^ l) (and-ones w (a / 2 ^ l))

pub offst_lem : (x : ℕ) → offst x ≡ x % 256
unfolding offst
offst_lem x = omega (arith, and-ones 8 x)

pub pgn_lem : (x : ℕ) → pgn x ≡ x / 256 % 2 ^ 14
unfolding pgn
pgn_lem x = omega (arith, and-field 8 14 x)

pub fpn_lem : (x : ℕ) → fpn x ≡ x / 256 % 4
unfolding fpn
fpn_lem x = omega (arith, and-field 8 2 x)

pub swp_lem : (x : ℕ) → swp x ≡ x / 256 % 64 * 8
unfolding swp
swp_lem x = omega (arith, and-field 8 6 x)

-- On a `uint32_t` the test looks at bit 31.
pub page_present_lem : (x : ℕ) → page_present x ≡ (x / 2 ^ 31 % 2 == 1)
unfolding page_present
page_present_lem x = ground (arith, and-bit 31 x)

-- The page number and the offset make up the 22 bits of an address that the bus carries, and the
-- offset lies in the page.
pub pgn-offst : (x : ℕ) → (pgn x * 256 + offst x ≡ x % 2 ^ 22) × (offst x < 256) × (pgn x < 2 ^ 14)
pgn-offst x = omega (arith, pgn_lem x, offst_lem x)
