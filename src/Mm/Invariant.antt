-- ===== src/Mm/Invariant.antt =====
-- Invariants of the memory of a process: what the functions of src/mm.c keep.
use lab_os_assignment.Base.{ℕ, zero, suc, ◌+◌, Option, some}
use lab_os_assignment.Outcome.{
  Status, OnResult, OnResult-bind, OnResult-after, OnResult-need, OnResult-option, OnResult-status,
  need, null_pointer, uninitialized,
}
use lab_os_assignment.Words.{add_int, mul_256, rounds_to}
use lab_os_assignment.Chain.{Chain, null, wild, node}
use lab_os_assignment.Paging
use lab_os_assignment.Pte.{pte_set_fpn, pte_set_swap}
use lab_os_assignment.Device.{Device, get_freefp}
use lab_os_assignment.Device
use lab_os_assignment.Device.Invariant.{DeviceInvariant}
use lab_os_assignment.Mm.{
  Region, Mm, Caller, get_pte, put_pte, map_frames, enlist_pgn_node, vmap_page_range,
  put_freefp_elsewhere, alloc_loop, alloc_pages_range, vm_map_ram, cell_address, copy_cells,
  swap_cp_page,
}

-- `Entry` holds of the page table's entries, `Tab` of the tables.
pub record TableInvariant (Entry : ℕ → Type 0) (Tab : Mm → Type 0) : Type 0 where
  pub fpn_entry : (pte fpn : ℕ) → Entry pte → Entry (pte_set_fpn pte fpn)
  pub swap_entry : (pte swptyp swpoff : ℕ) → Entry pte → Entry (pte_set_swap pte swptyp swpoff)
  pub gets : (mm : Mm) (pgn : ℕ) → Tab mm → OnResult Entry (get_pte mm pgn)
  pub sets : (mm : Mm) (pgn pte : ℕ) → Tab mm → Entry pte → OnResult Tab (put_pte mm pgn pte)
  pub lists : (mm : Mm) (pages : Chain ℕ) → Tab mm → Tab (record mm { fifo_pgn = pages })

-- Of a process: its tables and both devices.
abbrev pub HoldsOf : (Device → Type 0) → (Device → Type 0) → (Mm → Type 0) → Caller → Type 0
HoldsOf Ram Swap Tab c = Ram c.mram × Swap c.active_mswp × Tab c.mm

module _ {Byte : ℕ → Type 0} {Src Dst : Device → Type 0} (src : DeviceInvariant Byte Src)
    (dst : DeviceInvariant Byte Dst) where
  copy_cells_keeps :
      (rounds cellidx : ℕ) (mpsrc : Device) (srcfpn : ℕ) (mpdst : Device) (dstfpn : ℕ)
      → Src mpsrc
      → Dst mpdst
      → OnResult (λ r. Src r.0 × Dst r.1) (copy_cells rounds cellidx mpsrc srcfpn mpdst dstfpn)
  unfolding copy_cells
  copy_cells_keeps zero cellidx mpsrc srcfpn mpdst dstfpn s d = (s, d)
  copy_cells_keeps (suc rounds) cellidx mpsrc srcfpn mpdst dstfpn s d =
      let Q = λ (r : Device × Device). Src r.0 × Dst r.1 in
      OnResult-after Q (cell_address srcfpn cellidx) _ λ addrsrc.
        OnResult-after Q (cell_address dstfpn cellidx) _ λ addrdst.
          OnResult-bind Q (Device.read (some mpsrc) addrsrc) _ (src.reads mpsrc addrsrc s) λ r from.
            OnResult-bind Q (need uninitialized r.1) _ (OnResult-need Byte uninitialized r.1 from.0)
              λ byte b.
                OnResult-bind Q (Device.write (some mpdst) addrdst byte) _
                  (dst.writes mpdst addrdst byte d b)
                  λ w to.
                    OnResult-bind Q (need null_pointer r.2) _
                      (OnResult-need Src null_pointer r.2 from.1)
                      λ mpsrc' s'.
                        OnResult-bind Q (need null_pointer w.1) _
                          (OnResult-need Dst null_pointer w.1 to)
                          λ mpdst' d'.
                            copy_cells_keeps rounds (cellidx + 1) mpsrc' srcfpn mpdst' dstfpn s' d'

  pub swap_cp_page_keeps :
      (mpsrc : Device) (srcfpn : ℕ) (mpdst : Device) (dstfpn : ℕ)
      → Src mpsrc
      → Dst mpdst
      → OnResult (λ r. Src r.0 × Dst r.1) (swap_cp_page mpsrc srcfpn mpdst dstfpn)
  unfolding swap_cp_page
  swap_cp_page_keeps mpsrc srcfpn mpdst dstfpn =
      copy_cells_keeps Paging.pagesz 0 mpsrc srcfpn mpdst dstfpn

module _ {Entry : ℕ → Type 0} {Tab : Mm → Type 0} (tables : TableInvariant Entry Tab) where
  map_frames_keeps :
      (rounds : ℕ) (frames : Chain ℕ) (mm : Mm) (pgit : ℕ)
      → Tab mm
      → OnResult (λ r. Tab r.0) (map_frames rounds frames mm pgit)
  unfolding map_frames
  map_frames_keeps zero frames mm pgit t = t
  map_frames_keeps (suc rounds) null mm pgit t = t
  map_frames_keeps (suc rounds) wild mm pgit t = tt
  map_frames_keeps (suc rounds) (node fpn next) mm pgit t =
      let Q = λ (r : Mm × ℕ). Tab r.0 in
      OnResult-bind Q (get_pte mm 0) _ (tables.gets mm 0 t) λ pte e.
        OnResult-bind Q (put_pte mm 0 (pte_set_fpn pte fpn)) _
          (tables.sets mm 0 (pte_set_fpn pte fpn) t (tables.fpn_entry pte fpn e))
          λ mm' t'. map_frames_keeps rounds next mm' (pgit + 1) t'

module _ {Byte Entry : ℕ → Type 0} {Ram : Device → Type 0} {Tab : Mm → Type 0}
    (Swap : Device → Type 0) (ram : DeviceInvariant Byte Ram)
    (tables : TableInvariant Entry Tab) where
  vmap_page_range_keeps :
      (c : Caller) (addr pgnum : ℕ) (frames : Chain ℕ)
      → HoldsOf Ram Swap Tab c
      → OnResult (λ r. HoldsOf Ram Swap Tab r.1) (vmap_page_range c addr pgnum frames)
  unfolding vmap_page_range enlist_pgn_node
  vmap_page_range_keeps c addr pgnum frames h =
      let Q = λ (r : Region × Caller). HoldsOf Ram Swap Tab r.1 in
      OnResult-bind Q (map_frames (rounds_to pgnum) frames c.mm 0) _
        (map_frames_keeps tables (rounds_to pgnum) frames c.mm 0 h.2)
        λ r t.
          OnResult-after Q (mul_256 r.1) _
            λ size. OnResult-after Q (add_int addr size) _ λ end. (h.0, h.1, tables.lists r.0 _ t)

  alloc_loop_keeps :
      (rounds : ℕ) (c : Caller)
      → HoldsOf Ram Swap Tab c
      → OnResult (λ r. HoldsOf Ram Swap Tab r.1) (alloc_loop rounds c)
  unfolding alloc_loop put_freefp_elsewhere
  alloc_loop_keeps zero c h = h
  alloc_loop_keeps (suc rounds) c h =
      let Q = λ (r : Status × Caller). HoldsOf Ram Swap Tab r.1 in
      OnResult-bind Q (get_freefp c.mram) _ (ram.takes c.mram h.0)
        λ r m. OnResult-option Q r.1 _ _ (m, h.1, h.2) λ f. tt

  pub vm_map_ram_keeps :
      (c : Caller) (astart aend mapstart incpgnum : ℕ)
      → HoldsOf Ram Swap Tab c
      → OnResult (λ r. HoldsOf Ram Swap Tab r.2) (vm_map_ram c astart aend mapstart incpgnum)
  unfolding vm_map_ram alloc_pages_range
  vm_map_ram_keeps c astart aend mapstart incpgnum h =
      let Q = λ (r : Status × Option Region × Caller). HoldsOf Ram Swap Tab r.2 in
      OnResult-bind Q (alloc_loop (rounds_to incpgnum) c) _
        (alloc_loop_keeps (rounds_to incpgnum) c h)
        λ r h'.
          OnResult-status Q r.0 _ _
            (OnResult-bind Q (vmap_page_range r.1 mapstart incpgnum null) _
              (vmap_page_range_keeps r.1 mapstart incpgnum null h') λ v h''. h'')
            h'
