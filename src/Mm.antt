-- ===== src/Mm.antt =====
-- The memory of a process: the structs of include/os-mm.h and the functions of src/mm.c that map
-- pages. A function that changes an object returns it anew; `malloc` is taken to succeed, and what
-- it returns is an argument where the program can read it before it is written.
pub mod Print
pub mod Copy
pub mod Map
pub mod Invariant
pub mod Shape
pub mod Range
pub mod First
mod Tests
use lab_os_assignment.Base.{
  ℕ, zero, suc, ◌+◌, ◌-◌, ◌*◌, ◌/◌, ◌%◌, ◌^◌, Option, none, some, List, [], ◌∷◌, length, get_elem?,
  set, ltb, leb, if◌then◌else◌,
}
use lab_os_assignment.Outcome.{
  Outcome, ok, fault, ◌>>=◌, ◌>>◌, need, Status, success, failure, null_pointer, wild_pointer,
  out_of_bounds, uninitialized, type_confusion,
}
use lab_os_assignment.Words.{int_lt, to_ulong, to_int, add_int, mul_256, is_negative, rounds_to}
use lab_os_assignment.Chain.{Chain, null, wild, node}
use lab_os_assignment.Paging
use lab_os_assignment.Pte.{pte_set_fpn}
use lab_os_assignment.Device.{Device, get_freefp, put_freefp}
use lab_os_assignment.Device

-- struct vm_rg_struct; `rg_next` is the chain that holds the region.
pub record Region : Type 0 where
  pub rg_start : ℕ
  pub rg_end : ℕ

-- struct vm_area_struct; `vm_mm` points back to the owner, and `vm_next` is the chain.
pub record Area : Type 0 where
  pub vm_id : ℕ
  pub vm_start : ℕ
  pub vm_end : ℕ
  pub sbrk : ℕ
  pub vm_freerg_list : Chain Region

pub record Mm : Type 0 where
  pub pgd : List ℕ
  pub mmap : Chain Area
  pub symrgtbl : List Region
  pub fifo_pgn : Chain ℕ

-- The part of struct pcb_t that the paging code uses. `mm` of a call is always `caller->mm`.
pub record Caller : Type 0 where
  pub mm : Mm
  pub mram : Device
  pub active_mswp : Device

pub init_vm_rg : (rg_start rg_end : ℕ) → Region
init_vm_rg rg_start rg_end = record { rg_start = to_ulong rg_start; rg_end = to_ulong rg_end }

pub enlist_vm_rg_node : Chain Region → Region → Chain Region
enlist_vm_rg_node rglist rgnode = node rgnode rglist

unfoldable pub enlist_pgn_node : Chain ℕ → ℕ → Chain ℕ
enlist_pgn_node plist pgn = node pgn plist

-- `ptes` and `syms` are what `malloc` returns for `pgd` and for the table in `mm`. The list
-- pointers that `malloc` leaves, `vm_freerg_list` and `fifo_pgn`, are indeterminate.
unfoldable pub init_mm : (ptes : List ℕ) (syms : List Region) → Mm
unfolding init_vm_rg enlist_vm_rg_node
init_mm ptes syms =
    let first_rg = init_vm_rg 0 0 in
    let vma : Area = record {
      vm_id = 1;
      vm_start = 0;
      vm_end = 0;
      sbrk = 0;
      vm_freerg_list = enlist_vm_rg_node wild first_rg;
    } in
    record { pgd = ptes; mmap = node vma null; symrgtbl = syms; fifo_pgn = wild }

-- The loop of get_vma_by_num never moves `vmait`, so for a positive `vmaid` it stops at NULL.
walk_areas : Chain Area → Outcome (Option Area)
walk_areas null = ok none
walk_areas wild = fault wild_pointer
walk_areas (node a next) = walk_areas next

-- Where the result is an area it is the first one.
unfoldable pub get_vma_by_num : Mm → (vmaid : ℕ) → Outcome (Option Area)
unfolding walk_areas
get_vma_by_num mm vmaid = elim mm.mmap [
  | null ↦ ok none
  | wild ↦ fault wild_pointer
  | node a next ↦ if int_lt 0 vmaid then walk_areas (node a next) else ok (some a)
]

-- A write through the pointer that get_vma_by_num returns.
abbrev pub put_area : Mm → Area → Mm
put_area mm a = elim mm.mmap [
  | null ↦ mm
  | wild ↦ mm
  | node _ next ↦ record mm { mmap = node a next }
]

-- `pgd[pgn]`, read and written.
abbrev pub get_pte : Mm → ℕ → Outcome ℕ
get_pte mm pgn = need out_of_bounds (get_elem? mm.pgd pgn)

abbrev pub put_pte : Mm → ℕ → ℕ → Outcome Mm
put_pte mm pgn pte =
    if ltb pgn (length mm.pgd)
    then ok (record mm { pgd = set mm.pgd pgn pte })
    else fault out_of_bounds

-- The loop of vmap_page_range: `pte` is `pgd` itself, in every round. Beside the memory: `pgit`.
pub map_frames : (rounds : ℕ) → Chain ℕ → Mm → (pgit : ℕ) → Outcome (Mm × ℕ)
map_frames zero fpit mm pgit = ok (mm, pgit)
map_frames (suc rounds) null mm pgit = ok (mm, pgit)
map_frames (suc rounds) wild mm pgit = fault wild_pointer
map_frames (suc rounds) (node fpn next) mm pgit = do
  pte ← get_pte mm 0
  mm' ← put_pte mm 0 (pte_set_fpn pte fpn)
  map_frames rounds next mm' (pgit + 1)

-- The region is what `ret_rg` points to.
unfoldable pub vmap_page_range :
    Caller → (addr pgnum : ℕ) → (frames : Chain ℕ) → Outcome (Region × Caller)
unfolding map_frames
vmap_page_range caller addr pgnum frames = do
  (mm, pgit) ← map_frames (rounds_to pgnum) frames caller.mm 0
  size ← mul_256 pgit
  end ← add_int addr size
  let listed = record mm { fifo_pgn = enlist_pgn_node mm.fifo_pgn (Paging.pgn addr + pgit) }
  ok (record { rg_start = to_ulong addr; rg_end = to_ulong end }, record caller { mm = listed })

-- MEMPHY_put_freefp on a pointer to something else than a device: `frm_lst` points to the list
-- pointer of vm_map_ram, and `used_fp_list` to a frame, if it points anywhere.
put_freefp_elsewhere : (fpn : ℕ) → Outcome (Unit {0})
put_freefp_elsewhere fpn = fault type_confusion

alloc_loop : (rounds : ℕ) → Caller → Outcome (Status × Caller)
alloc_loop zero caller = ok (success, caller)
alloc_loop (suc rounds) caller = do
  (s, fpn, mram) ← get_freefp caller.mram
  elim fpn [
    | none ↦ ok (failure, record caller { mram = mram })
    | some f ↦ do
      put_freefp_elsewhere f
      put_freefp_elsewhere f
      alloc_loop rounds (record caller { mram = mram })
  ]

unfoldable pub alloc_pages_range : Caller → (req_pgnum : ℕ) → Outcome (Status × Caller)
unfolding alloc_loop put_freefp_elsewhere
alloc_pages_range caller req_pgnum = alloc_loop (rounds_to req_pgnum) caller

-- The status of vmap_page_range is 0; where the allocation succeeds `frm_lst` is still NULL.
unfoldable pub vm_map_ram :
    Caller → (astart aend mapstart incpgnum : ℕ) → Outcome (Status × Option Region × Caller)
vm_map_ram caller astart aend mapstart incpgnum = do
  (s, caller') ← alloc_pages_range caller incpgnum
  elim s [
    | failure ↦ ok (failure, none, caller')
    | success ↦ do
      (rg, caller'') ← vmap_page_range caller' mapstart incpgnum null
      ok (success, some rg, caller'')
  ]

-- `fpn * PAGING_PAGESZ + cellidx`
abbrev pub cell_address : (fpn cellidx : ℕ) → Outcome ℕ
cell_address fpn cellidx = mul_256 fpn >>= λ base. add_int base cellidx

-- The loop of __swap_cp_page. The statuses are ignored, so `data` may be unassigned.
copy_cells :
    (rounds cellidx : ℕ) → Device → (srcfpn : ℕ) → Device → (dstfpn : ℕ) → Outcome (Device × Device)
copy_cells zero cellidx mpsrc srcfpn mpdst dstfpn = ok (mpsrc, mpdst)
copy_cells (suc rounds) cellidx mpsrc srcfpn mpdst dstfpn = do
  addrsrc ← cell_address srcfpn cellidx
  addrdst ← cell_address dstfpn cellidx
  (_, value, src) ← Device.read (some mpsrc) addrsrc
  byte ← need uninitialized value
  (_, dst) ← Device.write (some mpdst) addrdst byte
  mpsrc' ← need null_pointer src
  mpdst' ← need null_pointer dst
  copy_cells rounds (cellidx + 1) mpsrc' srcfpn mpdst' dstfpn

-- Source and destination are two devices in every call.
unfoldable pub swap_cp_page :
    Device → (srcfpn : ℕ) → Device → (dstfpn : ℕ) → Outcome (Device × Device)
unfolding copy_cells
swap_cp_page mpsrc srcfpn mpdst dstfpn = copy_cells Paging.pagesz 0 mpsrc srcfpn mpdst dstfpn
