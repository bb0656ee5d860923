-- ===== src/Paging.antt =====
-- The macros of include/bitops.h and include/mm.h: masks, the fields of a page table entry, and the
-- page number and the offset of an address. BITS_PER_LONG is 32, since CONFIG_64BIT is not defined.
pub mod Address
use lab_os_assignment.Base.{
  ℕ, ◌+◌, ◌-◌, ◌*◌, ◌/◌, ◌%◌, ◌^◌, bit_and, bit_or, Bool, not, ◌==◌, if◌then◌else◌,
}

-- ~0U, and `~m` on 32 bits.
abbrev pub all_ones : ℕ
all_ones = 2 ^ 32 - 1

abbrev pub complement : ℕ → ℕ
complement m = all_ones - m

-- BIT(nr)
abbrev pub bit : ℕ → ℕ
bit nr = 2 ^ nr

-- DIV_ROUND_UP(n, d)
abbrev pub div_round_up : ℕ → ℕ → ℕ
div_round_up n d = (n + d - 1) / d

-- GENMASK(h, l)
abbrev pub genmask : ℕ → ℕ → ℕ
genmask h l = bit_and (all_ones * 2 ^ l % 2 ^ 32) (all_ones / 2 ^ (32 - h - 1))

-- NBITS(n): the position of the highest bit.
abbrev pub nbits2 : ℕ → ℕ
nbits2 n = if bit_and n 2 == 0 then 0 else 1

abbrev pub nbits4 : ℕ → ℕ
nbits4 n = if bit_and n 0xc == 0 then nbits2 n else 2 + nbits2 (n / 2 ^ 2)

abbrev pub nbits8 : ℕ → ℕ
nbits8 n = if bit_and n 0xf0 == 0 then nbits4 n else 4 + nbits4 (n / 2 ^ 4)

abbrev pub nbits16 : ℕ → ℕ
nbits16 n = if bit_and n 0xff00 == 0 then nbits8 n else 8 + nbits8 (n / 2 ^ 8)

abbrev pub nbits32 : ℕ → ℕ
nbits32 n = if bit_and n 0xffff0000 == 0 then nbits16 n else 16 + nbits16 (n / 2 ^ 16)

abbrev pub nbits : ℕ → ℕ
nbits n = if n == 0 then 0 else nbits32 n

-- SETBIT, CLRBIT, SETVAL and GETVAL, on a `uint32_t`.
abbrev pub setbit : ℕ → ℕ → ℕ
setbit v mask = bit_or v mask

abbrev pub clrbit : ℕ → ℕ → ℕ
clrbit v mask = bit_and v (complement mask)

abbrev pub setval : ℕ → ℕ → ℕ → ℕ → ℕ
setval v value mask offst =
    bit_or (bit_and v (complement mask)) (bit_and (value * 2 ^ offst % 2 ^ 32) mask)

abbrev pub getval : ℕ → ℕ → ℕ → ℕ
getval v mask offst = bit_and v mask / 2 ^ offst

abbrev pub cpu_bus_width : ℕ
cpu_bus_width = 22

abbrev pub pagesz : ℕ
pagesz = 256

abbrev pub memramsz : ℕ
memramsz = bit 10

abbrev pub memswpsz : ℕ
memswpsz = bit 14

abbrev pub swpfpn_offset : ℕ
swpfpn_offset = 5

abbrev pub max_pgn : ℕ
max_pgn = div_round_up cpu_bus_width pagesz

abbrev pub max_symtbl_sz : ℕ
max_symtbl_sz = 30

abbrev pub present_mask : ℕ
present_mask = bit 31

abbrev pub swapped_mask : ℕ
swapped_mask = bit 30

abbrev pub dirty_mask : ℕ
dirty_mask = bit 28

abbrev pub pte_fpn_mask : ℕ
pte_fpn_mask = genmask 12 0

abbrev pub pte_swptyp_mask : ℕ
pte_swptyp_mask = genmask 4 0

abbrev pub pte_swpoff_mask : ℕ
pte_swpoff_mask = genmask 25 5

abbrev pub offst_mask : ℕ
offst_mask = genmask (nbits pagesz - 1) 0

abbrev pub pgn_mask : ℕ
pgn_mask = genmask (cpu_bus_width - 1) (nbits pagesz)

abbrev pub fpn_mask : ℕ
fpn_mask = genmask (nbits memramsz - 1) (nbits pagesz)

abbrev pub swp_mask : ℕ
swp_mask = genmask (nbits memswpsz - 1) (nbits pagesz)

-- PAGING_PAGE_PRESENT(pte)
unfoldable pub page_present : ℕ → Bool
page_present pte = not (bit_and pte present_mask == 0)

-- PAGING_OFFST(x), PAGING_PGN(x), PAGING_FPN(x) and PAGING_SWP(pte)
unfoldable pub offst : ℕ → ℕ
offst x = getval x offst_mask 0

unfoldable pub pgn : ℕ → ℕ
pgn x = getval x pgn_mask (nbits pagesz)

unfoldable pub fpn : ℕ → ℕ
fpn x = getval x fpn_mask (nbits pagesz)

unfoldable pub swp : ℕ → ℕ
swp pte = bit_and pte swp_mask / 2 ^ swpfpn_offset
