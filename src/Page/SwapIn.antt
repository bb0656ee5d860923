-- ===== src/Page/SwapIn.antt =====
-- pg_getpage on a page that is not present, while the RAM has a free frame.
use lab_os_assignment.Base.{
  ℕ, ◌≡◌, ◌<◌, refl, ap, some, none, get_elem?, set, length, lt→ltb, false, Option,
}
use lab_os_assignment.Outcome.{Returns, Returns-bind_bind}
use lab_os_assignment.Chain.{Chain, node}
use lab_os_assignment.Paging
use lab_os_assignment.Paging.{page_present}
use lab_os_assignment.Pte.{pte_set_fpn}
use lab_os_assignment.Device.{Device}
use lab_os_assignment.Device.Frames.{get_freefp-node}
use lab_os_assignment.Mm.{Caller, swap_cp_page, enlist_pgn_node}
use lab_os_assignment.Mm.Copy.{HasFrame, byte_after, swap_cp_page-Copied}
use lab_os_assignment.Page.{pg_getpage}

-- What has become of the caller `c` when page `pgn`, with entry `pte`, has come to frame `f`.
pub record BroughtIn (c : Caller) (pgn pte f : ℕ) (rest : Chain ℕ) (r : Option ℕ × Caller)
    : Type 0 where
  pub unset : r.0 ≡ none
  pub entry : r.1.mm.pgd ≡ set c.mm.pgd pgn (pte_set_fpn pte f)
  pub enlisted : r.1.mm.fifo_pgn ≡ node pgn c.mm.fifo_pgn
  pub swap_kept : r.1.active_mswp ≡ c.active_mswp
  pub frames : r.1.mram.free_fp_list ≡ rest
  pub bytes :
      (j : ℕ)
      → get_elem? r.1.mram.storage j
        ≡ byte_after c.active_mswp.storage c.mram.storage (Paging.swp pte) f 0 256 j

-- A page of the table that is not present, a free frame at the head of the RAM's list, and both
-- frames inside their random access devices: the frame is taken, the entry is set to it, the page is
-- put at the head of the list of pages, and the RAM holds in that frame the bytes of the swap frame
-- PAGING_SWP of the entry, and elsewhere what it held. The swap device is kept, so the swap frame is
-- not given back; and no frame number is stored through `fpn`.
pub pg_getpage-BroughtIn :
    (c : Caller) (pgn pte f : ℕ) (rest : Chain ℕ)
    → pgn < length c.mm.pgd
    → get_elem? c.mm.pgd pgn ≡ some pte
    → page_present pte ≡ false
    → c.mram.free_fp_list ≡ node f rest
    → HasFrame c.active_mswp (Paging.swp pte)
    → HasFrame c.mram f
    → Returns (BroughtIn c pgn pte f rest) (pg_getpage c pgn)
unfolding pg_getpage enlist_pgn_node
pg_getpage-BroughtIn c pgn pte f rest inside e absent free from_swap to_ram =
    rw (e, absent, get_freefp-node c.mram f rest free, lt→ltb pgn (length c.mm.pgd) inside)
      (Returns-bind_bind (BroughtIn c pgn pte f rest)
        (swap_cp_page c.active_mswp (Paging.swp pte) ram f) _ _
        (swap_cp_page-Copied c.active_mswp ram (Paging.swp pte) f from_swap
          (record { random = to_ram.random; inside = to_ram.inside; small = to_ram.small }))
        (λ r copied. record {
          unset = refl;
          entry = refl;
          enlisted = refl;
          swap_kept = copied.source;
          frames = ap (λ (d : Device). d.free_fp_list) copied.rest;
          bytes = copied.bytes;
        }))
  where
    ram : Device
    ram = record (c.mram) { free_fp_list = rest }
