-- ===== src/Vm.antt =====
-- Virtual memory regions: the functions of src/mm-vm.c that allocate and free. A pointer to a slot
-- of `symrgtbl` is its index.
pub mod Fit
pub mod Find
pub mod Victim
pub mod Fresh
pub mod Grow
pub mod Overlap
pub mod Release
pub mod Invariant
pub mod Shape
pub mod Range
mod Tests
use lab_os_assignment.Base.{
  ℕ, zero, suc, ◌+◌, ◌-◌, ◌*◌, ◌/◌, ◌%◌, ◌^◌, Bool, ◌||◌, Option, none, some, length, get_elem?,
  set, ltb, leb, ◌==◌, if◌then◌else◌,
}
use lab_os_assignment.Outcome.{
  Outcome, ok, fault, ◌>>=◌, need, Status, success, failure, null_pointer, wild_pointer,
  out_of_bounds, signed_overflow, out_of_fuel,
}
use lab_os_assignment.Words.{
  int_lt, is_negative, to_ulong, to_int, add_ulong, add_int, div_256, ulong_max,
}
use lab_os_assignment.Chain.{Chain, null, wild, node}
use lab_os_assignment.Paging.{max_symtbl_sz}
use lab_os_assignment.Mm.{Region, Area, Mm, Caller, get_vma_by_num, put_area, vm_map_ram}

-- The new region is the parameter itself, which lives until the function returns: from then on the
-- head of the free list must not be followed. An empty region is refused.
unfoldable pub enlist_vm_freerg_list : Mm → Region → Outcome (Status × Mm)
enlist_vm_freerg_list mm rg_elmt = elim mm.mmap [
  | null ↦ fault null_pointer
  | wild ↦ fault wild_pointer
  | node a next ↦
      if leb rg_elmt.rg_end rg_elmt.rg_start
      then ok (failure, mm)
      else ok (success, record mm { mmap = node (record a { vm_freerg_list = wild }) next })
]

unfoldable pub get_symrg_byid : (rgid : ℕ) → Option ℕ
get_symrg_byid rgid = if is_negative rgid || int_lt max_symtbl_sz rgid then none else some rgid

-- Slots of `symrgtbl`, read and written.
abbrev pub get_symrg : Mm → ℕ → Outcome Region
get_symrg mm rgid = need out_of_bounds (get_elem? mm.symrgtbl rgid)

abbrev pub put_symrg : Mm → ℕ → Region → Outcome Mm
put_symrg mm rgid rg =
    if ltb rgid (length mm.symrgtbl)
    then ok (record mm { symrgtbl = set mm.symrgtbl rgid rg })
    else fault out_of_bounds

-- The loop of get_free_vmrg_area over the free list from `rgit` on, with `size` as an `unsigned
-- long`. Beside what stands in `newrg`: the list from there on. The loop has no `break`.
pub fit_loop :
    (fuel size : ℕ) → (newrg : Region) → (rgit : Chain Region) → Outcome (Region × Chain Region)
fit_loop zero size newrg rgit = fault out_of_fuel
fit_loop (suc fuel) size newrg null = ok (newrg, null)
fit_loop (suc fuel) size newrg wild = fault wild_pointer
fit_loop (suc fuel) size newrg (node rg next) =
    let end = add_ulong rg.rg_start size in
    let taken : Region = record { rg_start = rg.rg_start; rg_end = end } in
    let shrunk = fit_loop fuel size taken (node (record rg { rg_start = end }) next) in
    let used_up : Outcome (Region × Chain Region) = elim next [
      | null ↦ fit_loop fuel size taken (node (record rg { rg_start = rg.rg_end }) null)
      | wild ↦ fault wild_pointer
      | node nextrg rest ↦ fit_loop fuel size taken (node nextrg rest)
    ] in
    let passed = fit_loop fuel size newrg next >>= λ r. ok (r.0, node rg r.1) in
    if leb end rg.rg_end then (if ltb end rg.rg_end then shrunk else used_up) else passed

abbrev pub no_region : Region
no_region = record { rg_start = ulong_max; rg_end = ulong_max }

-- The option is what stands in `newrg` where the status is 0.
unfoldable pub get_free_vmrg_area :
    (fuel : ℕ) → Caller → (vmaid size : ℕ) → Outcome (Status × Option Region × Caller)
unfolding fit_loop
get_free_vmrg_area fuel caller vmaid size = do
  found ← get_vma_by_num caller.mm vmaid
  cur_vma ← need null_pointer found
  elim cur_vma.vm_freerg_list [
    | null ↦ ok (failure, none, caller)
    | wild ↦ fault wild_pointer
    | node rg next ↦ do
      (newrg, freed) ← fit_loop fuel (to_ulong size) no_region (node rg next)
      let caller' = record caller {
        mm = put_area caller.mm (record cur_vma { vm_freerg_list = freed });
      }
      if newrg.rg_start == ulong_max
          then ok (failure, none, caller')
          else ok (success, some newrg, caller')
  ]

-- PAGING_PAGE_ALIGNSZ on `int`: `sz + 256` may overflow, and `/` rounds toward zero.
pub page_alignsz : ℕ → Outcome ℕ
page_alignsz sz =
    if is_negative sz
    then (if leb (2 ^ 32 - sz) 255 then ok 0 else ok (2 ^ 32 - (2 ^ 32 - sz - 255) / 256 * 256))
    else if leb (2 ^ 31) (sz + 256)
    then fault signed_overflow
    else ok ((sz + 255) / 256 * 256)

pub get_vm_area_node_at_brk : Caller → (vmaid size alignedsz : ℕ) → Outcome Region
get_vm_area_node_at_brk caller vmaid size alignedsz = do
  found ← get_vma_by_num caller.mm vmaid
  cur_vma ← need null_pointer found
  ok (record { rg_start = cur_vma.sbrk; rg_end = add_ulong cur_vma.sbrk (to_ulong size) })

-- Not written yet in the program: every area passes.
abbrev validate_overlap_vm_area : Caller → (vmaid vmastart vmaend : ℕ) → Status
validate_overlap_vm_area caller vmaid vmastart vmaend = success

pub inc_vma_limit : Caller → (vmaid inc_sz : ℕ) → Outcome (Status × Caller)
inc_vma_limit caller vmaid inc_sz = do
  inc_amt ← page_alignsz inc_sz
  let incnumpage = div_256 inc_amt
  area ← get_vm_area_node_at_brk caller vmaid inc_sz inc_amt
  found ← get_vma_by_num caller.mm vmaid
  cur_vma ← need null_pointer found
  let old_end = to_int cur_vma.vm_end
  elim (validate_overlap_vm_area caller vmaid (to_int area.rg_start) (to_int area.rg_end)) [
    | failure ↦ ok (failure, caller)
    | success ↦ do
      let moved = record cur_vma { vm_end = add_ulong cur_vma.vm_end (to_ulong inc_sz) }
      let caller' = record caller { mm = put_area caller.mm moved }
      (s, _, caller'') ←
          vm_map_ram caller' (to_int area.rg_start) (to_int area.rg_end) old_end incnumpage
      ok (s, caller'')
  ]

-- __alloc. The number is what is stored through `alloc_addr`; the status of inc_vma_limit is not
-- looked at.
unfoldable pub alloc : (fuel : ℕ) → Caller → (vmaid rgid size : ℕ) → Outcome (Status × ℕ × Caller)
alloc fuel caller vmaid rgid size = do
  (s, rgnode, caller') ← get_free_vmrg_area fuel caller vmaid size
  elim rgnode [
    | some rg ↦ do
      mm ← put_symrg caller'.mm rgid rg
      ok (success, to_int rg.rg_start, record caller' { mm = mm })
    | none ↦ do
      found ← get_vma_by_num caller'.mm vmaid
      inc_sz ← page_alignsz size
      cur_vma ← need null_pointer found
      let old_sbrk = to_int cur_vma.sbrk
      (_, grown) ← inc_vma_limit caller' vmaid inc_sz
      end ← add_int old_sbrk inc_sz
      mm ← put_symrg grown.mm rgid (record { rg_start = to_ulong old_sbrk; rg_end = to_ulong end })
      ok (success, old_sbrk, record grown { mm = mm })
  ]

-- __free. The status of enlist_vm_freerg_list is not looked at.
unfoldable pub free : Caller → (vmaid rgid : ℕ) → Outcome (Status × Caller)
free caller vmaid rgid = elim (get_symrg_byid rgid) [
  | none ↦ ok (failure, caller)
  | some slot ↦ do
    rgnode ← get_symrg caller.mm slot
    (_, mm) ← enlist_vm_freerg_list caller.mm rgnode
    mm' ← put_symrg mm slot no_region
    ok (success, record caller { mm = mm' })
]

unfoldable pub pgalloc : (fuel : ℕ) → Caller → (size reg_index : ℕ) → Outcome (Status × Caller)
pgalloc fuel proc size reg_index = do
  (s, addr, proc') ← alloc fuel proc 0 reg_index size
  ok (s, proc')

unfoldable pub pgfree_data : Caller → (reg_index : ℕ) → Outcome (Status × Caller)
pgfree_data proc reg_index = free proc 0 reg_index

-- The loop of find_victim_page: the page of the last node, and the list up to the node before it,
-- whose `pg_next` points to freed memory from then on.
last_page : ℕ → Chain ℕ → Outcome (ℕ × Chain ℕ)
last_page pgn null = ok (pgn, wild)
last_page pgn wild = fault wild_pointer
last_page pgn (node p next) = last_page p next >>= λ r. ok (r.0, node pgn r.1)

-- The option is what is stored through `retpgn`.
unfoldable pub find_victim_page : Mm → Outcome (Status × Option ℕ × Mm)
unfolding last_page
find_victim_page mm = elim mm.fifo_pgn [
  | null ↦ ok (failure, none, mm)
  | wild ↦ fault wild_pointer
  | node pgn next ↦ do
    (victim, left) ← last_page pgn next
    let fifo : Chain ℕ = elim next [ null ↦ null | wild ↦ left | node p rest ↦ left ]
    ok (success, some victim, record mm { fifo_pgn = fifo })
]
