-- ===== src/Page.antt =====
-- Access to pages: the functions of src/mm-vm.c that bring a page to RAM, read and write through a
-- region, and print the page table. `mm` is `caller->mm` in every call. What is printed is the
-- result of a function that only prints, and is dropped by its callers.
pub mod Present
pub mod Shared
pub mod SwapIn
pub mod SwapOut
pub mod Release
pub mod Access
pub mod Invariant
mod Tests
use lab_os_assignment.Base.{
  ℕ, zero, suc, ◌+◌, ◌-◌, ◌*◌, ◌%◌, ◌^◌, Option, none, some, List, [], ◌∷◌, length, get_elem?, ◌==◌,
  if◌then◌else◌,
}
use lab_os_assignment.Outcome.{
  Outcome, ok, ◌>>=◌, ◌>>◌, need, Status, success, failure, null_pointer, out_of_bounds,
  uninitialized,
}
use lab_os_assignment.Words.{to_ulong, to_int, add_ulong}
use lab_os_assignment.Chain.{node}
use lab_os_assignment.Paging
use lab_os_assignment.Paging.{page_present, max_pgn}
use lab_os_assignment.Pte.{pte_set_fpn, pte_set_swap}
use lab_os_assignment.Device
use lab_os_assignment.Device.{Device, get_freefp, put_freefp, dump}
use lab_os_assignment.Mm.{
  Mm, Caller, enlist_pgn_node, get_vma_by_num, get_pte, put_pte, swap_cp_page,
}
use lab_os_assignment.Vm.{get_symrg_byid, get_symrg, find_victim_page}

-- The branch of pg_getpage with a free frame in RAM, which is `ramfpn`.
swap_in : Caller → (pgn pte ramfpn : ℕ) → Outcome Caller
swap_in caller pgn pte ramfpn = do
  mm ← put_pte caller.mm pgn (pte_set_fpn pte ramfpn)
  (mswp, mram) ← swap_cp_page caller.active_mswp (Paging.swp pte) caller.mram ramfpn
  ok (record caller { mm = mm; mram = mram; active_mswp = mswp })

-- The branch without one. The statuses of the two calls are not looked at.
swap_out : Caller → (pte : ℕ) → Outcome Caller
swap_out caller pte = do
  (_, victim, mm) ← find_victim_page caller.mm
  (_, free, mswp) ← get_freefp caller.active_mswp
  vicpgn ← need uninitialized victim
  swpfpn ← need uninitialized free
  (mram, mswp) ← swap_cp_page caller.mram vicpgn mswp swpfpn
  vicpte ← get_pte mm vicpgn
  mm ← put_pte mm vicpgn (pte_set_swap vicpte 0 swpfpn)
  (mswp, mram) ← swap_cp_page mswp (Paging.swp pte) mram vicpgn
  ok (record caller { mm = mm; mram = mram; active_mswp = mswp })

-- The option is what is stored through `fpn`; the status is 0.
pub pg_getpage : Caller → (pgn : ℕ) → Outcome (Option ℕ × Caller)
unfolding swap_in swap_out
pg_getpage caller pgn = do
  pte ← get_pte caller.mm pgn
  if page_present pte then ok (some (Paging.fpn pte), caller) else do
    (_, ramfpn, mram) ← get_freefp caller.mram
    let caller = record caller { mram = mram }
    caller ← elim ramfpn [ some f ↦ swap_in caller pgn pte f | none ↦ swap_out caller pte ]
    let listed = record (caller.mm) { fifo_pgn = enlist_pgn_node caller.mm.fifo_pgn pgn }
    ok (none, record caller { mm = listed })

-- The option is what is stored through `data`; the status is 0, and that of the device is not looked
-- at. A frame number read from an entry is below 4, so the address cannot overflow.
pub pg_getval : Caller → (addr : ℕ) → Outcome (Option ℕ × Caller)
pg_getval caller addr = do
  (framenum, caller) ← pg_getpage caller (Paging.pgn addr)
  fpn ← need uninitialized framenum
  (_, value, mram) ← Device.read (some caller.mram) (fpn * 2 ^ 8 + Paging.offst addr)
  mram ← need null_pointer mram
  ok (value, record caller { mram = mram })

pub pg_setval : Caller → (addr value : ℕ) → Outcome Caller
pg_setval caller addr value = do
  (framenum, caller) ← pg_getpage caller (Paging.pgn addr)
  fpn ← need uninitialized framenum
  (_, mram) ← Device.write (some caller.mram) (fpn * 2 ^ 8 + Paging.offst addr) value
  mram ← need null_pointer mram
  ok (record caller { mram = mram })

-- `currg->rg_start + offset`, passed on as an `int`.
abbrev pub region_address : (rg_start offset : ℕ) → ℕ
region_address rg_start offset = to_int (add_ulong rg_start (to_ulong offset))

-- __read
pub read : Caller → (vmaid rgid offset : ℕ) → Outcome (Status × Option ℕ × Caller)
read caller vmaid rgid offset = do
  cur_vma ← get_vma_by_num caller.mm vmaid
  elim (get_symrg_byid rgid) [
    | none ↦ ok (failure, none, caller)
    | some slot ↦ elim cur_vma [
      | none ↦ ok (failure, none, caller)
      | some _ ↦ do
        currg ← get_symrg caller.mm slot
        (value, caller) ← pg_getval caller (region_address currg.rg_start offset)
        ok (success, value, caller)
    ]
  ]

-- __write
pub write : Caller → (vmaid rgid offset value : ℕ) → Outcome (Status × Caller)
write caller vmaid rgid offset value = do
  cur_vma ← get_vma_by_num caller.mm vmaid
  elim (get_symrg_byid rgid) [
    | none ↦ ok (failure, caller)
    | some slot ↦ elim cur_vma [
      | none ↦ ok (failure, caller)
      | some _ ↦ do
        currg ← get_symrg caller.mm slot
        caller ← pg_setval caller (region_address currg.rg_start offset) value
        ok (success, caller)
    ]
  ]

print_entries : (rounds pgit : ℕ) → List ℕ → Outcome (List ℕ)
print_entries zero pgit pgd = ok []
print_entries (suc rounds) pgit pgd = do
  pte ← need out_of_bounds (get_elem? pgd pgit)
  rest ← print_entries rounds (pgit + 1) pgd
  ok (pte ∷ rest)

-- The entries that are printed. The caller is not NULL in any call.
pub print_pgtbl : Caller → (start end : ℕ) → Outcome (List ℕ)
unfolding print_entries
print_pgtbl caller start end =
    let print = λ (last : ℕ).
      print_entries (Paging.pgn last - Paging.pgn start) (Paging.pgn start) caller.mm.pgd in
    if end == 2 ^ 32 - 1
    then (do
      found ← get_vma_by_num caller.mm 0
      cur_vma ← need null_pointer found
      print (to_int cur_vma.vm_end))
    else print end

-- What pgread and pgwrite print of the page table and the RAM.
print_memory : Caller → Outcome (Unit {0})
unfolding print_pgtbl
print_memory proc = do print_pgtbl proc 0 (2 ^ 32 - 1); dump proc.mram; ok tt

-- Beside the status: `data`, which is printed. `destination` is a local variable.
pub pgread : Caller → (source offset destination : ℕ) → Outcome (Status × ℕ × Caller)
unfolding print_memory
pgread proc source offset destination = do
  (val, value, proc) ← read proc 0 source offset
  byte ← need uninitialized value
  print_memory proc
  ok (val, byte, proc)

-- `data` is a char.
pub pgwrite : Caller → (value destination offset : ℕ) → Outcome (Status × Caller)
unfolding print_memory
pgwrite proc value destination offset = do
  print_memory proc
  write proc 0 destination offset (value % 2 ^ 8)

free_pages : (rounds pagenum : ℕ) → Caller → Outcome Caller
free_pages zero pagenum caller = ok caller
free_pages (suc rounds) pagenum caller = do
  pte ← get_pte caller.mm pagenum
  free_pages rounds (pagenum + 1) (
      if page_present pte
      then record caller { active_mswp = put_freefp caller.active_mswp (Paging.swp pte) }
      else record caller { mram = put_freefp caller.mram (Paging.fpn pte) })

-- The status is 0.
pub free_pcb_memph : Caller → Outcome Caller
unfolding free_pages
free_pcb_memph caller = free_pages max_pgn 0 caller
