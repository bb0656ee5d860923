-- ===== src/Vm/Invariant.antt =====
-- Invariants of the memory of a process: what the functions of src/mm-vm.c that allocate and free
-- keep.
use lab_os_assignment.Base.{ℕ, ◌<◌, ◌≡◌, ◌^◌, refl, arith, Option, ◌==◌}
use lab_os_assignment.Outcome.{
  Outcome, Status, OnResult, OnResult-bind, OnResult-after, OnResult-need, OnResult-option,
  OnResult-some, OnResult-if, IfSome, need, null_pointer,
}
use lab_os_assignment.Words.{to_int, to_ulong, add_int, add_ulong, div_256, ulong_max}
use lab_os_assignment.Chain.{Chain, null, wild, node}
use lab_os_assignment.Device.{Device}
use lab_os_assignment.Device.Invariant.{DeviceInvariant}
use lab_os_assignment.Mm.{Region, Area, Mm, Caller, get_vma_by_num, put_area, vm_map_ram}
use lab_os_assignment.Mm.Invariant.{TableInvariant, HoldsOf, vm_map_ram_keeps}
use lab_os_assignment.Vm.{
  enlist_vm_freerg_list, get_symrg_byid, get_symrg, put_symrg, fit_loop, no_region,
  get_free_vmrg_area, page_alignsz, get_vm_area_node_at_brk, inc_vma_limit, alloc, free, pgalloc,
  pgfree_data, find_victim_page, last_page,
}

-- `Rg` holds of the regions that are stored, `Ar` of the area that is found in the tables.
pub record AreaInvariant (Rg : Region → Type 0) (Ar : Mm → Area → Type 0) (Tab : Mm → Type 0)
    : Type 0 where
  pub plain : Rg no_region
  pub made :
      (a b : ℕ)
      → a < 2 ^ 32
      → b < 2 ^ 32
      → Rg (record { rg_start = to_ulong a; rg_end = to_ulong b })
  pub stores :
      (mm : Mm) (rgid : ℕ) (rg : Region) → Tab mm → Rg rg → OnResult Tab (put_symrg mm rgid rg)
  pub enlists :
      (mm : Mm) (rg : Region) → Tab mm → OnResult (λ r. Tab r.1) (enlist_vm_freerg_list mm rg)
  pub finds : (mm : Mm) (vmaid : ℕ) → Tab mm → OnResult (IfSome (Ar mm)) (get_vma_by_num mm vmaid)
  pub searches :
      (mm : Mm) (a : Area) (fuel size : ℕ) (rg : Region) (next : Chain Region)
      → Tab mm
      → Ar mm a
      → a.vm_freerg_list ≡ node rg next
      → OnResult
          (λ x. Rg x.0 × Tab (put_area mm (record a { vm_freerg_list = x.1 })))
          (fit_loop fuel size no_region (node rg next))
  pub moves :
      (mm : Mm) (a : Area) (n : ℕ)
      → Tab mm
      → Ar mm a
      → Tab (put_area mm (record a { vm_end = add_ulong a.vm_end n }))

-- An invariant of RAM, swap device and tables, with what it says of what they hold.
pub record MemoryInvariant (Ram Swap : Device → Type 0) (Tab : Mm → Type 0) : Type 1 where
  pub Byte : ℕ → Type 0
  pub Entry : ℕ → Type 0
  pub Rg : Region → Type 0
  pub Ar : Mm → Area → Type 0
  pub ram : DeviceInvariant Byte Ram
  pub swap : DeviceInvariant Byte Swap
  pub tables : TableInvariant Entry Tab
  pub areas : AreaInvariant Rg Ar Tab

-- The three ends of a list that is looked at.
pub OnResult-chain :
    {A B : Type 0} (Q : B → Type 0) (xs : Chain A) (x y : Outcome B) (z : A → Chain A → Outcome B)
    → OnResult Q x
    → OnResult Q y
    → ((a : A) (next : Chain A) → xs ≡ node a next → OnResult Q (z a next))
    → OnResult Q (elim xs [ null ↦ x | wild ↦ y | node a next ↦ z a next ])
OnResult-chain Q null x y z p q r = p
OnResult-chain Q wild x y z p q r = q
OnResult-chain Q (node a next) x y z p q r = r a next refl

add_int-small : (a b : ℕ) → OnResult (λ n. n < 2 ^ 32) (add_int a b)
unfolding add_int
add_int-small a b = ground arith

module _ {Ram Swap : Device → Type 0} {Tab : Mm → Type 0} (inv : MemoryInvariant Ram Swap Tab) where
  pub find_victim_page_keeps : (mm : Mm) → Tab mm → OnResult (λ r. Tab r.2) (find_victim_page mm)
  unfolding find_victim_page
  find_victim_page_keeps mm t =
      let Q = λ (r : Status × Option ℕ × Mm). Tab r.2 in
      OnResult-chain Q mm.fifo_pgn _ _ _ t tt
        λ pgn next e. OnResult-after Q (last_page pgn next) _ λ r. inv.tables.lists mm _ t

  free_keeps :
      (c : Caller) (vmaid rgid : ℕ)
      → HoldsOf Ram Swap Tab c
      → OnResult (λ r. HoldsOf Ram Swap Tab r.1) (free c vmaid rgid)
  unfolding free
  free_keeps c vmaid rgid h =
      let Q = λ (r : Status × Caller). HoldsOf Ram Swap Tab r.1 in
      OnResult-option Q (get_symrg_byid rgid) _ _ h λ slot.
        OnResult-after Q (get_symrg c.mm slot) _ λ rg.
          OnResult-bind Q (enlist_vm_freerg_list c.mm rg) _ (inv.areas.enlists c.mm rg h.2) λ r t.
            OnResult-bind Q (put_symrg r.1 slot no_region) _
              (inv.areas.stores r.1 slot no_region t inv.areas.plain) λ mm t'. (h.0, h.1, t')

  get_free_vmrg_area_keeps :
      (fuel : ℕ) (c : Caller) (vmaid size : ℕ)
      → HoldsOf Ram Swap Tab c
      → OnResult
          (λ r. IfSome inv.Rg r.1 × HoldsOf Ram Swap Tab r.2)
          (get_free_vmrg_area fuel c vmaid size)
  unfolding get_free_vmrg_area
  get_free_vmrg_area_keeps fuel c vmaid size h =
      let Q =
        λ (r : Status × Option Region × Caller). IfSome inv.Rg r.1 × HoldsOf Ram Swap Tab r.2 in
      OnResult-bind Q (get_vma_by_num c.mm vmaid) _ (inv.areas.finds c.mm vmaid h.2) λ o found.
        OnResult-bind Q (need null_pointer o) _ (OnResult-need (inv.Ar c.mm) null_pointer o found)
          λ a ar.
            OnResult-chain Q a.vm_freerg_list _ _ _ (tt, h) tt
              λ rg next e.
                OnResult-bind Q (fit_loop fuel (to_ulong size) no_region (node rg next)) _
                  (inv.areas.searches c.mm a fuel (to_ulong size) rg next h.2 ar e)
                  λ x p.
                    OnResult-if Q (x.0.rg_start == ulong_max) _ _ (tt, (h.0, h.1, p.1))
                      (p.0, (h.0, h.1, p.1))

  inc_vma_limit_keeps :
      (c : Caller) (vmaid inc_sz : ℕ)
      → HoldsOf Ram Swap Tab c
      → OnResult (λ r. HoldsOf Ram Swap Tab r.1) (inc_vma_limit c vmaid inc_sz)
  unfolding inc_vma_limit
  inc_vma_limit_keeps c vmaid inc_sz h =
      let Q = λ (r : Status × Caller). HoldsOf Ram Swap Tab r.1 in
      OnResult-after Q (page_alignsz inc_sz) _ λ amt.
        OnResult-after Q (get_vm_area_node_at_brk c vmaid inc_sz amt) _ λ area.
          OnResult-bind Q (get_vma_by_num c.mm vmaid) _ (inv.areas.finds c.mm vmaid h.2) λ o found.
            OnResult-bind Q (need null_pointer o) _
              (OnResult-need (inv.Ar c.mm) null_pointer o found)
              λ a ar.
                let t = inv.areas.moves c.mm a (to_ulong inc_sz) h.2 ar in
                let c' = record c {
                  mm = put_area c.mm (record a { vm_end = add_ulong a.vm_end (to_ulong inc_sz) });
                } in
                OnResult-bind Q
                  (vm_map_ram c' (to_int area.rg_start) (to_int area.rg_end) (to_int a.vm_end)
                    (div_256 amt))
                  _ (vm_map_ram_keeps Swap inv.ram inv.tables c' _ _ _ _ (h.0, h.1, t)) λ r h'. h'

  alloc_keeps :
      (fuel : ℕ) (c : Caller) (vmaid rgid size : ℕ)
      → HoldsOf Ram Swap Tab c
      → OnResult (λ r. HoldsOf Ram Swap Tab r.2) (alloc fuel c vmaid rgid size)
  unfolding alloc
  alloc_keeps fuel c vmaid rgid size h =
      let Q = λ (r : Status × ℕ × Caller). HoldsOf Ram Swap Tab r.2 in
      OnResult-bind Q (get_free_vmrg_area fuel c vmaid size) _
        (get_free_vmrg_area_keeps fuel c vmaid size h)
        λ r p.
          OnResult-some inv.Rg Q r.1 _ _ p.0
            (OnResult-after Q (get_vma_by_num r.2.mm vmaid) _ λ o.
              OnResult-after Q (page_alignsz size) _ λ inc_sz.
                OnResult-after Q (need null_pointer o) _ λ a.
                  OnResult-bind Q (inc_vma_limit r.2 vmaid inc_sz) _
                    (inc_vma_limit_keeps r.2 vmaid inc_sz p.1)
                    λ g h'.
                      OnResult-bind Q (add_int (to_int a.sbrk) inc_sz) _
                        (add_int-small (to_int a.sbrk) inc_sz)
                        λ end small.
                          OnResult-bind Q (put_symrg g.1.mm rgid _) _
                            (inv.areas.stores g.1.mm rgid _ h'.2
                              (inv.areas.made (to_int a.sbrk) end (omega arith) small))
                            λ mm t. (h'.0, h'.1, t))
            λ rg stored.
              OnResult-bind Q (put_symrg r.2.mm rgid rg) _
                (inv.areas.stores r.2.mm rgid rg p.1.2 stored) λ mm t. (p.1.0, p.1.1, t)

  pub pgalloc_keeps :
      (fuel : ℕ) (c : Caller) (size reg_index : ℕ)
      → HoldsOf Ram Swap Tab c
      → OnResult (λ r. HoldsOf Ram Swap Tab r.1) (pgalloc fuel c size reg_index)
  unfolding pgalloc
  pgalloc_keeps fuel c size reg_index h =
      OnResult-bind (λ r. HoldsOf Ram Swap Tab r.1) (alloc fuel c 0 reg_index size) _
        (alloc_keeps fuel c 0 reg_index size h) λ r h'. h'

  pub pgfree_data_keeps :
      (c : Caller) (reg_index : ℕ)
      → HoldsOf Ram Swap Tab c
      → OnResult (λ r. HoldsOf Ram Swap Tab r.1) (pgfree_data c reg_index)
  unfolding pgfree_data
  pgfree_data_keeps c reg_index h = free_keeps c 0 reg_index h
