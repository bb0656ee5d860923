-- ===== src/Mm/Copy.antt =====
-- __swap_cp_page of src/mm.c: the copy of a page between devices.
use native.Mathlib.Decide.{ℕ_discrete}
use lab_os_assignment.Base.{
  sym, ℕ, zero, suc, ◌+◌, ◌-◌, ◌*◌, ◌^◌, ◌≤◌, ◌<◌, ◌≡◌, ◌≢◌, refl, ◌∙◌, arith, ◌&&◌, ap, Option,
  some, List, length, get_elem?, set, length-set, get_elem?-set_self, get_elem?-set_ne,
  get_elem?_lt, ltb, leb, lt→ltb, if◌then◌else◌,
}
use lab_os_assignment.Outcome.{ok, fault, Returns, Returns-mono, uninitialized}
use lab_os_assignment.Words.{mul_256_lem, add_int_lem}
use lab_os_assignment.Device.{Device}
use lab_os_assignment.Device.Cells.{read_lem, write_lem, sequential_fails}
use lab_os_assignment.Mm.{cell_address, copy_cells, swap_cp_page}

cell_address_lem :
    (fpn cellidx : ℕ)
    → fpn * 256 + cellidx < 2 ^ 31
    → cell_address fpn cellidx ≡ ok (fpn * 256 + cellidx)
cell_address_lem fpn cellidx h =
    rw (mul_256_lem fpn (omega arith), add_int_lem (fpn * 256) cellidx h)

-- Byte `j` of the destination once cells `from` to `from + count` of frame `d` hold those of frame
-- `s` of `src`.
abbrev pub byte_after : (src dst : List ℕ) (s d from count j : ℕ) → Option ℕ
byte_after src dst s d from count j =
    if leb (d * 256 + from) j && ltb j (d * 256 + from + count)
    then get_elem? src (s * 256 + (j - d * 256))
    else get_elem? dst j

pub record Copied (src dst : Device) (s d from count : ℕ) (r : Device × Device) : Type 0 where
  pub source : r.0 ≡ src
  pub rest : r.1 ≡ record dst { storage = r.1.storage }
  pub same_length : length r.1.storage ≡ length dst.storage
  pub bytes :
      (j : ℕ) → get_elem? r.1.storage j ≡ byte_after src.storage dst.storage s d from count j

-- A frame of a random access device, inside the storage and below the top of `int`.
pub record HasFrame (mp : Device) (fpn : ℕ) : Type 0 where
  pub random : mp.rdmflg ≢ 0
  pub inside : fpn * 256 + 256 ≤ length mp.storage
  pub small : fpn * 256 + 256 < 2 ^ 31

-- One more byte in front of those that are copied.
byte_after-set :
    (src dst : List ℕ) (s d cell count b j : ℕ)
    → d * 256 + cell < length dst
    → get_elem? src (s * 256 + cell) ≡ some b
    → byte_after src (set dst (d * 256 + cell) b) s d (cell + 1) count j
      ≡ byte_after src dst s d cell (suc count) j
byte_after-set src dst s d cell count b j h e = elim (ℕ_discrete j (d * 256 + cell)) [
  | yes here ↦
      (let at : s * 256 + (j - d * 256) ≡ s * 256 + cell = omega arith in
        ground (arith, ap (get_elem? src) at, get_elem?-set_self dst (d * 256 + cell) b h))
  | no away ↦
      ground (
        arith,
        get_elem?-set_ne dst (d * 256 + cell) j b (λ (q : d * 256 + cell ≡ j). away (sym q)),
      )
]

extend :
    (src dst : Device) (s d cell count b : ℕ) (r : Device × Device)
    → d * 256 + cell < length dst.storage
    → get_elem? src.storage (s * 256 + cell) ≡ some b
    → Copied src
        (record dst { storage = set dst.storage (d * 256 + cell) b })
        s
        d
        (cell + 1)
        count
        r
    → Copied src dst s d cell (suc count) r
extend src dst s d cell count b r h e c = record {
  source = c.source;
  rest = c.rest;
  same_length = c.same_length ∙ length-set dst.storage (d * 256 + cell) b;
  bytes = λ j. c.bytes j ∙ byte_after-set src.storage dst.storage s d cell count b j h e;
}

module _ (src : Device) (s d : ℕ) (from_src : HasFrame src s) where
  copy_cells-Copied :
      (rounds cell : ℕ) (dst : Device)
      → HasFrame dst d
      → rounds + cell ≡ 256
      → Returns (Copied src dst s d cell rounds) (copy_cells rounds cell src s dst d)
  unfolding copy_cells
  copy_cells-Copied zero cell dst to_dst e = record {
    source = refl;
    rest = refl;
    same_length = refl;
    bytes = λ j. ground arith;
  }
  copy_cells-Copied (suc rounds) cell dst to_dst e =
      let (b, at) = get_elem?_lt src.storage (s * 256 + cell) (omega arith) in
      let dst' = record dst { storage = set dst.storage (d * 256 + cell) b } in
      let len : length (set dst.storage (d * 256 + cell) b) ≡ length dst.storage =
        length-set dst.storage (d * 256 + cell) b in
      rw
        (
          cell_address_lem s cell (omega arith),
          cell_address_lem d cell (omega arith),
          read_lem src (s * 256 + cell) b from_src.random at,
          write_lem dst (d * 256 + cell) b to_dst.random,
          lt→ltb (d * 256 + cell) (length dst.storage) (omega arith),
        )
        (Returns-mono _
          (copy_cells-Copied rounds (cell + 1) dst'
            (record { random = to_dst.random; inside = omega arith; small = to_dst.small })
            (omega arith))
          (λ r c. extend src dst s d cell rounds b r (omega arith) at c))

-- `__swap_cp_page` between frames of two random access devices, each inside its device and below the
-- top of `int`: the source is not changed, the frame of the destination then holds the bytes of the
-- frame of the source in order, and no other byte and no other field of the destination is changed.
pub swap_cp_page-Copied :
    (src dst : Device) (s d : ℕ)
    → HasFrame src s
    → HasFrame dst d
    → Returns (Copied src dst s d 0 256) (swap_cp_page src s dst d)
unfolding swap_cp_page
swap_cp_page-Copied src dst s d from_src to_dst =
    copy_cells-Copied src s d from_src 256 0 dst to_dst (omega arith)

-- Between a device that is not random access and any other, no page can be copied: the first read
-- fails, and the byte that it did not store is used.
pub swap_cp_page-sequential :
    (src dst : Device) (s d : ℕ)
    → src.rdmflg ≡ 0
    → s < 2 ^ 22
    → d < 2 ^ 22
    → swap_cp_page src s dst d ≡ fault uninitialized
unfolding swap_cp_page copy_cells
swap_cp_page-sequential src dst s d h small small' = rw (
  cell_address_lem s 0 (omega arith),
  cell_address_lem d 0 (omega arith),
  (sequential_fails src (s * 256 + 0) 0 h).0,
)
