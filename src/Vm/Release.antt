-- ===== src/Vm/Release.antt =====
-- __free and pgfree_data: what becomes of the slot and of the free list.
use lab_os_assignment.Base.{
  ℕ, ◌≤◌, ◌<◌, ◌^◌, ◌≡◌, arith, some, length, get_elem?, set, get_elem?_ge, lt→ltb, leb, false,
  if◌then◌else◌,
}
use lab_os_assignment.Outcome.{ok, fault, ◌>>=◌, success, failure, wild_pointer, out_of_bounds}
use lab_os_assignment.Chain.{Chain, wild}
use lab_os_assignment.Mm.{Region, Area, Caller, get_vma_by_num}
use lab_os_assignment.Vm.{
  no_region, enlist_vm_freerg_list, get_symrg_byid, get_free_vmrg_area, alloc, free, pgalloc,
  pgfree_data,
}
use lab_os_assignment.Vm.Find.{with_list}

module _ (c : Caller) (a : Area) (next : Chain Area) (list : Chain Region) where
  -- The caller with slot `rgid` of the symbol table cleared, and with the free list `l`.
  abbrev pub cleared : (rgid : ℕ) → Chain Region → Caller
  cleared rgid l =
      let c' = with_list c a next l in
      record c' { mm = record (c'.mm) { symrgtbl = set c.mm.symrgtbl rgid no_region } }

  -- Freeing a slot of the symbol table below 30: the slot is set to -1 on both sides; where its
  -- region is not empty the whole free list is lost to a dangling pointer, and otherwise the list is
  -- kept. The status is 0 in both cases.
  pub pgfree_data_lem :
      (rgid : ℕ) (rg : Region)
      → rgid < 30
      → get_elem? c.mm.symrgtbl rgid ≡ some rg
      → rgid < length c.mm.symrgtbl
      → pgfree_data (with_list c a next list) rgid
        ≡ ok (success, cleared rgid (if leb rg.rg_end rg.rg_start then list else wild))
  unfolding pgfree_data free get_symrg_byid enlist_vm_freerg_list
  pgfree_data_lem rgid rg small e inside =
      ground (arith, e, lt→ltb rgid (length c.mm.symrgtbl) inside)

  -- The range check of get_symrg_byid, on 32-bit indices and a table of 30 slots: above 30 the call
  -- fails and changes nothing, but index 30 passes the check and the access leaves the table.
  pub pgfree_data_range :
      (rgid : ℕ)
      → 30 ≤ rgid
      → rgid < 2 ^ 32
      → length c.mm.symrgtbl ≡ 30
      → pgfree_data (with_list c a next list) rgid
        ≡ (if leb rgid 30 then fault out_of_bounds else ok (failure, with_list c a next list))
  unfolding pgfree_data free get_symrg_byid
  pgfree_data_range rgid past small size =
      ground (arith, get_elem?_ge c.mm.symrgtbl rgid (omega arith))

  -- Once a region that is not empty has been freed, the next allocation of any size follows the
  -- dangling head of the free list.
  pub pgalloc-pgfree_data :
      (rgid : ℕ) (rg : Region)
      → rgid < 30
      → get_elem? c.mm.symrgtbl rgid ≡ some rg
      → rgid < length c.mm.symrgtbl
      → rg.rg_start < rg.rg_end
      → (fuel size reg_index : ℕ)
      → (pgfree_data (with_list c a next list) rgid >>= λ r. pgalloc fuel r.1 size reg_index)
        ≡ fault wild_pointer
  unfolding pgalloc alloc get_free_vmrg_area get_vma_by_num
  pgalloc-pgfree_data rgid rg small e inside some_bytes fuel size reg_index =
      let lost : leb rg.rg_end rg.rg_start ≡ false = ground arith in
      rw (pgfree_data_lem rgid rg small e inside, lost)
