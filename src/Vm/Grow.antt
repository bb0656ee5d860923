-- ===== src/Vm/Grow.antt =====
-- __alloc and inc_vma_limit: what happens when the free list has no room.
use lab_os_assignment.Base.{
  ℕ, zero, suc, ◌+◌, ◌*◌, ◌/◌, ◌^◌, ◌≤◌, ◌<◌, ◌≡◌, refl, arith, none, length, set, lt→ltb,
}
use lab_os_assignment.Outcome.{ok, ◌>>=◌, success, failure}
use lab_os_assignment.Words.{to_ulong, to_int, add_ulong, div_256, to_ulong_lem, add_int_lem}
use lab_os_assignment.Chain.{Chain, null, wild, node}
use lab_os_assignment.Mm.{Region, Area, Caller, get_vma_by_num}
use lab_os_assignment.Mm.Map.{first_frame, first_map, vm_map_ram_lem}
use lab_os_assignment.Vm.{
  fit_loop, no_region, get_free_vmrg_area, page_alignsz, get_vm_area_node_at_brk, inc_vma_limit,
  alloc,
}
use lab_os_assignment.Vm.Fit.{IsRegion, AllNodes, rounds_for, fit_loop-pass}
use lab_os_assignment.Vm.Find.{with_list, NoRoom}

-- `size` rounded up to whole pages.
abbrev pub aligned : ℕ → ℕ
aligned size = (size + 255) / 256 * 256

-- On a size that is not near the top of `int`, the macro rounds up, and once is enough.
pub page_alignsz_lem :
    (size : ℕ)
    → size + 511 < 2 ^ 31
    → (page_alignsz size ≡ ok (aligned size)) × (page_alignsz (aligned size) ≡ ok (aligned size))
unfolding page_alignsz
page_alignsz_lem size h = ground arith

fit_loop-none :
    (fuel size : ℕ) (newrg : Region) (list : Chain Region)
    → size < 2 ^ 31
    → AllNodes IsRegion list
    → NoRoom size list
    → rounds_for list ≤ fuel
    → fit_loop fuel size newrg list ≡ ok (newrg, list)
unfolding fit_loop
fit_loop-none zero size newrg null small rs full f = absurd (omega arith)
fit_loop-none zero size newrg wild small rs full f = absurd rs
fit_loop-none zero size newrg (node rg next) small rs full f = absurd (omega arith)
fit_loop-none (suc fuel) size newrg null small rs full f = refl
fit_loop-none (suc fuel) size newrg wild small rs full f = absurd rs
fit_loop-none (suc fuel) size newrg (node rg next) small rs full f = rw (
  fit_loop-pass size newrg rg next fuel small rs.0 full.0,
  fit_loop-none fuel size newrg next small rs.1 full.1 (omega arith),
)

module _ (c : Caller) (a : Area) (next : Chain Area) where
  get_free_vmrg_area-none :
      (fuel size : ℕ) (list : Chain Region)
      → size < 2 ^ 31
      → AllNodes IsRegion list
      → NoRoom size list
      → rounds_for list ≤ fuel
      → get_free_vmrg_area fuel (with_list c a next list) 0 size
        ≡ ok (failure, none, with_list c a next list)
  unfolding get_free_vmrg_area get_vma_by_num
  get_free_vmrg_area-none fuel size null small rs full f = refl
  get_free_vmrg_area-none fuel size wild small rs full f = absurd rs
  get_free_vmrg_area-none fuel size (node rg rest) small rs full f =
      let plain : to_ulong size ≡ size = ground arith in
      rw (plain, fit_loop-none fuel size no_region (node rg rest) small rs full f)

  -- The caller after the limit moved by `inc`, with the free list `list`.
  abbrev pub moved : Chain Region → ℕ → Caller
  moved list inc = with_list c (record a { vm_end = add_ulong a.vm_end inc }) next list

  -- Growing by whole pages, at least one: without a free frame it fails, but the limit has moved;
  -- with one, the frame is handed to MEMPHY_put_freefp through a pointer to something else.
  pub inc_vma_limit_lem :
      (list : Chain Region) (pages : ℕ)
      → 0 < pages
      → pages * 256 + 511 < 2 ^ 31
      → inc_vma_limit (with_list c a next list) 0 (pages * 256)
        ≡ first_frame c.mram.free_fp_list (moved list (pages * 256))
  unfolding inc_vma_limit get_vm_area_node_at_brk get_vma_by_num
  inc_vma_limit_lem list pages pos small =
      let inc = pages * 256 in
      let whole : aligned inc ≡ inc = omega arith in
      let div : div_256 inc ≡ pages = ground arith in
      rw
        (
          (page_alignsz_lem inc small).0,
          whole,
          to_ulong_lem inc (omega arith),
          div,
          vm_map_ram_lem (moved list inc) (to_int a.sbrk) (to_int (add_ulong a.sbrk inc))
              (to_int a.vm_end) pages pos (omega arith),
        )
        (through c.mram.free_fp_list)
    where
      through :
          (free : Chain ℕ)
          → (first_map free (moved list (pages * 256)) >>= λ r. ok (r.0, r.2))
            ≡ first_frame free (moved list (pages * 256))
      through null = refl
      through wild = refl
      through (node f rest) = refl

  -- `__alloc` where no free region has room and the RAM has no free frame, for a positive size, with
  -- fuel for the free list, a slot inside the table, and sizes and addresses within `int`: it
  -- reports success all the same. The slot gets the whole pages from `sbrk` on, the limit moves, but
  -- `sbrk`, the free list and the page table stay as they are: nothing is mapped.
  pub alloc-exhausted :
      (list : Chain Region) (fuel rgid size : ℕ)
      → 0 < size
      → size + 511 < 2 ^ 31
      → a.sbrk + aligned size < 2 ^ 31
      → AllNodes IsRegion list
      → NoRoom size list
      → rounds_for list ≤ fuel
      → rgid < length c.mm.symrgtbl
      → c.mram.free_fp_list ≡ null
      → let grown = moved list (aligned size) in
        alloc fuel (with_list c a next list) 0 rgid size
        ≡ ok (
          success,
          a.sbrk,
          record grown {
            mm = record (grown.mm) {
              symrgtbl =
                  set c.mm.symrgtbl rgid
                    (record { rg_start = a.sbrk; rg_end = a.sbrk + aligned size });
            };
          },
        )
  unfolding alloc get_vma_by_num
  alloc-exhausted list fuel rgid size pos small fits rs full f inside no_frame =
      let pages = (size + 255) / 256 in
      let brk : to_int a.sbrk ≡ a.sbrk = omega arith in
      rw (
        get_free_vmrg_area-none fuel size list (omega arith) rs full f,
        (page_alignsz_lem size small).0,
        inc_vma_limit_lem list pages (omega arith) (omega arith),
        no_frame,
        brk,
        add_int_lem a.sbrk (aligned size) fits,
        lt→ltb rgid (length c.mm.symrgtbl) inside,
        to_ulong_lem a.sbrk (omega arith),
        to_ulong_lem (a.sbrk + aligned size) fits,
      )
