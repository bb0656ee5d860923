-- ===== src/Page/SwapOut.antt =====
-- pg_getpage on a page that is not present, while the RAM has no free frame.
use lab_os_assignment.Base.{
  ℕ, ◌≡◌, ◌≢◌, ◌<◌, refl, sym, ap, ◌∙◌, arith, List, ◌∷◌, some, none, get_elem?, set, length,
  lt→ltb, false, Option, subst,
}
use lab_os_assignment.Outcome.{Returns, Returns-bind_bind}
use lab_os_assignment.Chain.{Chain, null, node, chain_of}
use lab_os_assignment.Paging
use lab_os_assignment.Paging.{page_present}
use lab_os_assignment.Pte.{pte_set_swap}
use lab_os_assignment.Device.{Device}
use lab_os_assignment.Device.Frames.{get_freefp-node, get_freefp-null}
use lab_os_assignment.Mm.{Caller, swap_cp_page, enlist_pgn_node}
use lab_os_assignment.Mm.Copy.{HasFrame, Copied, byte_after, swap_cp_page-Copied}
use lab_os_assignment.Vm.Victim.{last_of, left_of, find_victim_page-last}
use lab_os_assignment.Page.{pg_getpage}

-- What has become of the caller `c` when page `pgn`, with entry `pte`, has taken the place of the
-- victim `v`, with entry `vicpte`, whose bytes go to the swap frame `g`.
pub record SwappedOut (c : Caller) (pgn pte v vicpte g : ℕ) (pages rest : Chain ℕ)
    (r : Option ℕ × Caller) : Type 0 where
  pub unset : r.0 ≡ none
  pub entry : r.1.mm.pgd ≡ set c.mm.pgd v (pte_set_swap vicpte 0 g)
  pub enlisted : r.1.mm.fifo_pgn ≡ node pgn pages
  pub frames : (r.1.active_mswp.free_fp_list ≡ rest) × (r.1.mram.free_fp_list ≡ null)
  pub saved :
      (j : ℕ)
      → get_elem? r.1.active_mswp.storage j
        ≡ byte_after c.mram.storage c.active_mswp.storage v g 0 256 j
  pub bytes :
      (j : ℕ)
      → get_elem? r.1.mram.storage j
        ≡ byte_after r.1.active_mswp.storage c.mram.storage (Paging.swp pte) v 0 256 j

-- A device that has taken a page has the same frames.
Copied-HasFrame :
    {src dst : Device} {s d fpn : ℕ} (r : Device × Device)
    → Copied src dst s d 0 256 r
    → HasFrame dst fpn
    → HasFrame r.1 fpn
Copied-HasFrame {dst} r copied frame = record {
  random = subst (λ (x : Device). x.rdmflg ≢ 0) (sym copied.rest) frame.random;
  inside = omega (arith, frame.inside, copied.same_length);
  small = frame.small;
}

-- A page that is not present, no free frame in RAM, a proper list of pages, a free frame at the head
-- of the swap device's list, and frames inside their random access devices, among them the frame of
-- RAM whose number is the victim's page number: the victim is the page enlisted first, its entry is
-- set to the swap frame, and that swap frame holds what stood in the RAM frame of the victim's page
-- number. The RAM holds there the bytes of the swap frame PAGING_SWP of the wanted page's entry, and
-- elsewhere what it held; the wanted page is enlisted, but no entry is changed besides
-- the victim's; and no frame number is stored through `fpn`.
pub pg_getpage-SwappedOut :
    (c : Caller) (pgn pte p : ℕ) (ps : List ℕ) (vicpte g : ℕ) (rest : Chain ℕ)
    → get_elem? c.mm.pgd pgn ≡ some pte
    → page_present pte ≡ false
    → c.mram.free_fp_list ≡ null
    → c.mm.fifo_pgn ≡ chain_of (p ∷ ps)
    → c.active_mswp.free_fp_list ≡ node g rest
    → last_of p ps < length c.mm.pgd
    → get_elem? c.mm.pgd (last_of p ps) ≡ some vicpte
    → HasFrame c.mram (last_of p ps)
    → HasFrame c.active_mswp g
    → HasFrame c.active_mswp (Paging.swp pte)
    → Returns (SwappedOut c pgn pte (last_of p ps) vicpte g (left_of p ps) rest) (pg_getpage c pgn)
unfolding pg_getpage enlist_pgn_node
pg_getpage-SwappedOut c pgn pte p ps vicpte g rest e absent full pages free inside e' ram_frame
      to_swap from_swap =
    rw
      (
        e,
        absent,
        get_freefp-null c.mram full,
        find_victim_page-last c.mm p ps pages,
        get_freefp-node c.active_mswp g rest free,
        e',
        lt→ltb v (length c.mm.pgd) inside,
      )
      (Returns-bind_bind Q (swap_cp_page c.mram v swap g) _ _
        (swap_cp_page-Copied c.mram swap v g ram_frame (on_swap g to_swap))
        (λ out copied.
          Returns-bind_bind Q (swap_cp_page out.1 (Paging.swp pte) out.0 v) _ _
            (swap_cp_page-Copied out.1 out.0 (Paging.swp pte) v
              (Copied-HasFrame out copied (on_swap (Paging.swp pte) from_swap))
              (subst (λ d. HasFrame d v) (sym copied.source) ram_frame))
            (λ back copied'. record {
              unset = refl;
              entry = refl;
              enlisted = refl;
              frames = (
                ap (λ (d : Device). d.free_fp_list) (copied'.source ∙ copied.rest),
                ap (λ (d : Device). d.free_fp_list)
                      (copied'.rest
                        ∙ ap (λ (d : Device). record d { storage = back.1.storage }) copied.source)
                    ∙ full,
              );
              saved =
                  λ j. ap (λ (d : Device). get_elem? d.storage j) copied'.source ∙ copied.bytes j;
              bytes = λ j.
                  copied'.bytes j
                  ∙ ap
                      (λ (d : Device).
                        byte_after d.storage out.0.storage (Paging.swp pte) v 0 256 j)
                      (sym copied'.source)
                  ∙ ap
                      (λ (d : Device).
                        byte_after back.0.storage d.storage (Paging.swp pte) v 0 256 j)
                      copied.source;
            })))
  where
    v : ℕ
    v = last_of p ps

    swap : Device
    swap = record (c.active_mswp) { free_fp_list = rest }

    on_swap : (f : ℕ) → HasFrame c.active_mswp f → HasFrame swap f
    on_swap f h = record { random = h.random; inside = h.inside; small = h.small }

    Q : Option ℕ × Caller → Type 0
    Q = SwappedOut c pgn pte v vicpte g (left_of p ps) rest
