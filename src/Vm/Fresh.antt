-- ===== src/Vm/Fresh.antt =====
-- The first allocation of a process whose memory comes from init_mm.
use lab_os_assignment.Base.{ℕ, suc, ◌≡◌, arith, List, inl, inr, Bool-cases, leb}
use lab_os_assignment.Outcome.{fault, wild_pointer}
use lab_os_assignment.Words.{to_ulong, add_ulong}
use lab_os_assignment.Chain.{wild, node}
use lab_os_assignment.Mm.{Region, Caller, init_mm, get_vma_by_num}
use lab_os_assignment.Vm.{fit_loop, no_region, get_free_vmrg_area, alloc, pgalloc}

fit_loop-first :
    (fuel size : ℕ) (newrg : Region)
    → fit_loop (suc (suc fuel)) size newrg (node (record { rg_start = 0; rg_end = 0 }) wild)
      ≡ fault wild_pointer
unfolding fit_loop
fit_loop-first fuel size newrg = elim (Bool-cases (leb (add_ulong 0 size) 0)) [
  | inl fits ↦ rw fits (ground arith)
  | inr passes ↦ rw passes
]

-- Every first `pgalloc` of a new process, of whatever size and for whatever slot, follows a pointer
-- that was never assigned: the free list of the new area does not end in NULL.
pub pgalloc-init_mm :
    (c : Caller) (ptes : List ℕ) (syms : List Region) (fuel size reg_index : ℕ)
    → pgalloc (suc (suc fuel)) (record c { mm = init_mm ptes syms }) size reg_index
      ≡ fault wild_pointer
unfolding pgalloc alloc get_free_vmrg_area get_vma_by_num init_mm
pgalloc-init_mm c ptes syms fuel size reg_index = rw (fit_loop-first fuel (to_ulong size) no_region)
