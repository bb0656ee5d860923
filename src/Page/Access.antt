-- ===== src/Page/Access.antt =====
-- pgread after pgwrite, through a region of the symbol table.
use lab_os_assignment.Base.{
  le→leb, ℕ, zero, suc, ◌+◌, ◌-◌, ◌%◌, ◌≤◌, ◌<◌, ◌≡◌, refl, arith, some, List, [], ◌∷◌, length,
  get_elem?, get_elem?_lt, set, length-set, get_elem?-set_self,
}
use lab_os_assignment.Outcome.{ok, ◌>>=◌, success}
use lab_os_assignment.Words.{to_int}
use lab_os_assignment.Chain.{Chain, node}
use lab_os_assignment.Paging
use lab_os_assignment.Device.Cells.{dump_lem}
use lab_os_assignment.Mm.{Region, Area, Caller, get_vma_by_num}
use lab_os_assignment.Vm.{get_symrg_byid}
use lab_os_assignment.Page.{
  region_address, read, write, print_entries, print_pgtbl, print_memory, pgread, pgwrite,
}
use lab_os_assignment.Page.Present.{IsMapped, physical, pg_getval_lem, pg_setval_lem}

print_entries_ok :
    (rounds i : ℕ) (pgd : List ℕ)
    → i + rounds ≤ length pgd
    → (l : List ℕ) × (print_entries rounds i pgd ≡ ok l)
unfolding print_entries
print_entries_ok zero i pgd h = ([], refl)
print_entries_ok (suc rounds) i pgd h =
    let (pte, e) = get_elem?_lt pgd i (omega arith) in
    let (l, rest) = print_entries_ok rounds (i + 1) pgd (omega arith) in (pte ∷ l, rw (e, rest))

-- The process has an area, and what pgread and pgwrite print lies inside the table and the RAM.
pub record CanPrint (c : Caller) (a : Area) (next : Chain Area) : Type 0 where
  pub area : c.mm.mmap ≡ node a next
  pub table : Paging.pgn (to_int a.vm_end) ≤ length c.mm.pgd
  pub ram : c.mram.maxsz ≤ length c.mram.storage

print_memory_ok :
    (c : Caller) (a : Area) (next : Chain Area) → CanPrint c a next → print_memory c ≡ ok tt
unfolding print_memory print_pgtbl get_vma_by_num Paging.pgn
print_memory_ok c a next p =
    let start : Paging.pgn 0 ≡ 0 = refl in
    let all : Paging.pgn (to_int a.vm_end) - 0 ≡ Paging.pgn (to_int a.vm_end) = omega arith in
    let (l, e) = print_entries_ok (Paging.pgn (to_int a.vm_end)) 0 c.mm.pgd (omega arith) in
    rw (p.area, start, all, e, dump_lem c.mram, le→leb c.mram.maxsz (length c.mram.storage) p.ram)

-- The region in slot `rgid`, and the mapped byte at `offset` in it.
pub record IsReachable (c : Caller) (rgid offset pte : ℕ) (rg : Region) : Type 0 where
  pub slot : rgid < 30
  pub region : get_elem? c.mm.symrgtbl rgid ≡ some rg
  pub mapped : IsMapped c (region_address rg.rg_start offset) pte

module _ (c : Caller) (a : Area) (next : Chain Area) (area : c.mm.mmap ≡ node a next) where
  head_area : get_vma_by_num c.mm 0 ≡ ok (some a)
  unfolding get_vma_by_num
  head_area = rw area

  in_table : (rgid : ℕ) → rgid < 30 → get_symrg_byid rgid ≡ some rgid
  unfolding get_symrg_byid
  in_table rgid h = ground arith

  read_lem :
      (rgid offset pte b : ℕ) (rg : Region)
      → IsReachable c rgid offset pte rg
      → get_elem? c.mram.storage (physical pte (region_address rg.rg_start offset)) ≡ some b
      → read c 0 rgid offset ≡ ok (success, some b, c)
  unfolding read
  read_lem rgid offset pte b rg r e = rw (
    head_area,
    in_table rgid r.slot,
    r.region,
    pg_getval_lem c (region_address rg.rg_start offset) pte r.mapped b e,
  )

  write_lem :
      (rgid offset pte b : ℕ) (rg : Region)
      → IsReachable c rgid offset pte rg
      → write c 0 rgid offset b
        ≡ ok (
          success,
          record c {
            mram = record (c.mram) {
              storage = set c.mram.storage (physical pte (region_address rg.rg_start offset)) b;
            };
          },
        )
  unfolding write
  write_lem rgid offset pte b rg r = rw (
    head_area,
    in_table rgid r.slot,
    r.region,
    pg_setval_lem c (region_address rg.rg_start offset) pte r.mapped b,
  )

-- `pgread` of a byte that `pgwrite` has written through the same region and offset succeeds and
-- gives the byte, the low 8 bits of the value; beside the byte in RAM nothing is changed. The page is
-- present, and what both calls print lies inside the table and the RAM.
pub pgread-pgwrite :
    (c : Caller) (a : Area) (next : Chain Area) (rgid offset pte value destination : ℕ)
    (rg : Region)
    → CanPrint c a next
    → IsReachable c rgid offset pte rg
    → (pgwrite c value rgid offset >>= λ w. pgread w.1 rgid offset destination)
      ≡ ok (
        success,
        value % 256,
        record c {
          mram = record (c.mram) {
            storage =
                set c.mram.storage (physical pte (region_address rg.rg_start offset)) (value % 256);
          };
        },
      )
unfolding pgwrite pgread
pgread-pgwrite c a next rgid offset pte value destination rg p r = rw (
  print_memory_ok c a next p,
  write_lem c a next p.area rgid offset pte (value % 256) rg r,
  read_lem after a next p.area rgid offset pte (value % 256) rg reachable found,
  print_memory_ok after a next printable,
)
  where
    at : ℕ
    at = physical pte (region_address rg.rg_start offset)

    after : Caller
    after = record c { mram = record (c.mram) { storage = set c.mram.storage at (value % 256) } }

    kept : length (set c.mram.storage at (value % 256)) ≡ length c.mram.storage
    kept = length-set c.mram.storage at (value % 256)

    reachable : IsReachable after rgid offset pte rg
    reachable = record {
      slot = r.slot;
      region = r.region;
      mapped = record {
        entry = r.mapped.entry;
        present = r.mapped.present;
        random = r.mapped.random;
        inside = rw kept r.mapped.inside;
      };
    }

    found : get_elem? after.mram.storage at ≡ some (value % 256)
    found = get_elem?-set_self c.mram.storage at (value % 256) r.mapped.inside

    printable : CanPrint after a next
    printable = record { area = p.area; table = p.table; ram = rw kept p.ram }
