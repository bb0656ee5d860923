-- ===== src/Page/Invariant.antt =====
-- What an access to memory keeps of a process, whatever pages it brings in and puts out.
use lab_os_assignment.Base.{ℕ, ◌+◌, ◌*◌, ◌^◌, ◌%◌, Option, none, some}
use lab_os_assignment.Outcome.{
  Status, OnResult, OnResult-bind, OnResult-after, OnResult-need, OnResult-option, OnResult-if,
  need, null_pointer, uninitialized,
}
use lab_os_assignment.Paging
use lab_os_assignment.Paging.{page_present}
use lab_os_assignment.Pte.{pte_set_fpn, pte_set_swap}
use lab_os_assignment.Device.{Device, get_freefp}
use lab_os_assignment.Device
use lab_os_assignment.Mm.{
  Mm, Caller, get_vma_by_num, get_pte, put_pte, swap_cp_page, enlist_pgn_node,
}
use lab_os_assignment.Mm.Invariant.{HoldsOf, swap_cp_page_keeps}
use lab_os_assignment.Vm.{get_symrg_byid, get_symrg, find_victim_page}
use lab_os_assignment.Vm.Invariant.{MemoryInvariant, find_victim_page_keeps}
use lab_os_assignment.Page
use lab_os_assignment.Page.{
  swap_in, swap_out, pg_getpage, pg_getval, pg_setval, region_address, read, write, print_memory,
  pgread, pgwrite,
}

module _ {Ram Swap : Device → Type 0} {Tab : Mm → Type 0} (inv : MemoryInvariant Ram Swap Tab) where
  swap_in_keeps :
      (c : Caller) (pgn pte f : ℕ)
      → HoldsOf Ram Swap Tab c
      → inv.Entry pte
      → OnResult (HoldsOf Ram Swap Tab) (swap_in c pgn pte f)
  unfolding swap_in
  swap_in_keeps c pgn pte f h e =
      let Q = HoldsOf Ram Swap Tab in
      OnResult-bind Q (put_pte c.mm pgn (pte_set_fpn pte f)) _
        (inv.tables.sets c.mm pgn (pte_set_fpn pte f) h.2 (inv.tables.fpn_entry pte f e))
        λ mm t.
          OnResult-bind Q (swap_cp_page c.active_mswp (Paging.swp pte) c.mram f) _
            (swap_cp_page_keeps inv.swap inv.ram c.active_mswp (Paging.swp pte) c.mram f h.1 h.0)
            λ r devices. (devices.1, devices.0, t)

  swap_out_keeps :
      (c : Caller) (pte : ℕ)
      → HoldsOf Ram Swap Tab c
      → OnResult (HoldsOf Ram Swap Tab) (swap_out c pte)
  unfolding swap_out
  swap_out_keeps c pte h =
      let Q = HoldsOf Ram Swap Tab in
      OnResult-bind Q (find_victim_page c.mm) _ (find_victim_page_keeps inv c.mm h.2) λ v t.
        OnResult-bind Q (get_freefp c.active_mswp) _ (inv.swap.takes c.active_mswp h.1) λ g s.
          OnResult-after Q (need uninitialized v.1) _ λ vicpgn.
            OnResult-after Q (need uninitialized g.1) _ λ swpfpn.
              OnResult-bind Q (swap_cp_page c.mram vicpgn g.2 swpfpn) _
                (swap_cp_page_keeps inv.ram inv.swap c.mram vicpgn g.2 swpfpn h.0 s)
                λ out there.
                  OnResult-bind Q (get_pte v.2 vicpgn) _ (inv.tables.gets v.2 vicpgn t) λ vicpte e.
                    OnResult-bind Q (put_pte v.2 vicpgn (pte_set_swap vicpte 0 swpfpn)) _
                      (inv.tables.sets v.2 vicpgn (pte_set_swap vicpte 0 swpfpn) t
                        (inv.tables.swap_entry vicpte 0 swpfpn e))
                      λ mm t'.
                        OnResult-bind Q (swap_cp_page out.1 (Paging.swp pte) out.0 vicpgn) _
                          (swap_cp_page_keeps inv.swap inv.ram out.1 (Paging.swp pte) out.0 vicpgn
                            there.1 there.0)
                          λ back here. (here.1, here.0, t')

  pg_getpage_keeps :
      (c : Caller) (pgn : ℕ)
      → HoldsOf Ram Swap Tab c
      → OnResult (λ r. HoldsOf Ram Swap Tab r.1) (pg_getpage c pgn)
  unfolding pg_getpage enlist_pgn_node
  pg_getpage_keeps c pgn h =
      let Q = λ (r : Option ℕ × Caller). HoldsOf Ram Swap Tab r.1 in
      OnResult-bind Q (get_pte c.mm pgn) _ (inv.tables.gets c.mm pgn h.2) λ pte e.
        OnResult-if Q (page_present pte) _ _ h (
          OnResult-bind Q (get_freefp c.mram) _ (inv.ram.takes c.mram h.0) λ g m.
            let c' = record c { mram = g.2 } in
            OnResult-bind Q (elim g.1 [ some f ↦ swap_in c' pgn pte f | none ↦ swap_out c' pte ]) _
              (OnResult-option (HoldsOf Ram Swap Tab) g.1 _ _ (swap_out_keeps c' pte (m, h.1, h.2))
                λ f. swap_in_keeps c' pgn pte f (m, h.1, h.2) e)
              λ c'' h'. (h'.0, h'.1, inv.tables.lists c''.mm _ h'.2))

  pg_getval_keeps :
      (c : Caller) (addr : ℕ)
      → HoldsOf Ram Swap Tab c
      → OnResult (λ r. HoldsOf Ram Swap Tab r.1) (pg_getval c addr)
  unfolding pg_getval
  pg_getval_keeps c addr h =
      let Q = λ (r : Option ℕ × Caller). HoldsOf Ram Swap Tab r.1 in
      OnResult-bind Q (pg_getpage c (Paging.pgn addr)) _ (pg_getpage_keeps c (Paging.pgn addr) h)
        λ p h'. OnResult-after Q (need uninitialized p.0) _ λ fpn.
          OnResult-bind Q (Device.read (some p.1.mram) (fpn * 2 ^ 8 + Paging.offst addr)) _
            (inv.ram.reads p.1.mram (fpn * 2 ^ 8 + Paging.offst addr) h'.0)
            λ r m.
              OnResult-bind Q (need null_pointer r.2) _ (OnResult-need Ram null_pointer r.2 m.1)
                λ mram m'. (m', h'.1, h'.2)

  pg_setval_keeps :
      (c : Caller) (addr value : ℕ)
      → HoldsOf Ram Swap Tab c
      → inv.Byte value
      → OnResult (HoldsOf Ram Swap Tab) (pg_setval c addr value)
  unfolding pg_setval
  pg_setval_keeps c addr value h v =
      let Q = HoldsOf Ram Swap Tab in
      OnResult-bind Q (pg_getpage c (Paging.pgn addr)) _ (pg_getpage_keeps c (Paging.pgn addr) h)
        λ p h'. OnResult-after Q (need uninitialized p.0) _ λ fpn.
          OnResult-bind Q (Device.write (some p.1.mram) (fpn * 2 ^ 8 + Paging.offst addr) value) _
            (inv.ram.writes p.1.mram (fpn * 2 ^ 8 + Paging.offst addr) value h'.0 v)
            λ w m.
              OnResult-bind Q (need null_pointer w.1) _ (OnResult-need Ram null_pointer w.1 m)
                λ mram m'. (m', h'.1, h'.2)

  read_keeps :
      (c : Caller) (vmaid rgid offset : ℕ)
      → HoldsOf Ram Swap Tab c
      → OnResult (λ r. HoldsOf Ram Swap Tab r.2) (Page.read c vmaid rgid offset)
  unfolding Page.read
  read_keeps c vmaid rgid offset h =
      let Q = λ (r : Status × Option ℕ × Caller). HoldsOf Ram Swap Tab r.2 in
      OnResult-after Q (get_vma_by_num c.mm vmaid) _ λ o.
        OnResult-option Q (get_symrg_byid rgid) _ _ h λ slot. OnResult-option Q o _ _ h λ a.
          OnResult-after Q (get_symrg c.mm slot) _ λ rg.
            OnResult-bind Q (pg_getval c (region_address rg.rg_start offset)) _
              (pg_getval_keeps c (region_address rg.rg_start offset) h) λ r h'. h'

  write_keeps :
      (c : Caller) (vmaid rgid offset value : ℕ)
      → HoldsOf Ram Swap Tab c
      → inv.Byte value
      → OnResult (λ r. HoldsOf Ram Swap Tab r.1) (Page.write c vmaid rgid offset value)
  unfolding Page.write
  write_keeps c vmaid rgid offset value h v =
      let Q = λ (r : Status × Caller). HoldsOf Ram Swap Tab r.1 in
      OnResult-after Q (get_vma_by_num c.mm vmaid) _ λ o.
        OnResult-option Q (get_symrg_byid rgid) _ _ h λ slot. OnResult-option Q o _ _ h λ a.
          OnResult-after Q (get_symrg c.mm slot) _ λ rg.
            OnResult-bind Q (pg_setval c (region_address rg.rg_start offset) value) _
              (pg_setval_keeps c (region_address rg.rg_start offset) value h v) λ c' h'. h'

  pub pgread_keeps :
      (c : Caller) (source offset destination : ℕ)
      → HoldsOf Ram Swap Tab c
      → OnResult (λ r. HoldsOf Ram Swap Tab r.2) (pgread c source offset destination)
  unfolding pgread
  pgread_keeps c source offset destination h =
      let Q = λ (r : Status × ℕ × Caller). HoldsOf Ram Swap Tab r.2 in
      OnResult-bind Q (Page.read c 0 source offset) _ (read_keeps c 0 source offset h) λ r h'.
        OnResult-after Q (need uninitialized r.1) _
          λ byte. OnResult-after Q (print_memory r.2) _ λ printed. h'

  pub pgwrite_keeps :
      (c : Caller) (value destination offset : ℕ)
      → HoldsOf Ram Swap Tab c
      → OnResult (λ r. HoldsOf Ram Swap Tab r.1) (pgwrite c value destination offset)
  unfolding pgwrite
  pgwrite_keeps c value destination offset h =
      OnResult-after (λ r. HoldsOf Ram Swap Tab r.1) (print_memory c) _
        λ printed. write_keeps c 0 destination offset (value % 2 ^ 8) h (inv.ram.low value)
