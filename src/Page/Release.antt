-- ===== src/Page/Release.antt =====
-- free_pcb_memph: which device gets the frame of a page back.
use lab_os_assignment.Base.{ℕ, ◌≡◌, ◌<◌, ◌^◌, refl, List, [], ◌∷◌, if◌then◌else◌}
use lab_os_assignment.Outcome.{ok, ◌>>=◌}
use lab_os_assignment.Paging
use lab_os_assignment.Paging.{page_present}
use lab_os_assignment.Pte.{pte_set_fpn}
use lab_os_assignment.Pte.Fields.{pte_set_fpn_fields}
use lab_os_assignment.Device.{put_freefp}
use lab_os_assignment.Mm.{Caller}
use lab_os_assignment.Page.{free_pages, free_pcb_memph}

abbrev pub with_table : Caller → List ℕ → Caller
with_table c pgd = record c { mm = record (c.mm) { pgd = pgd } }

-- With the table of one entry that init_mm allocates: of a present page, a swap frame goes back to
-- the swap device, though the page lies in RAM; of any other, a frame goes back to the RAM.
pub free_pcb_memph_lem :
    (c : Caller) (pte : ℕ)
    → free_pcb_memph (with_table c (pte ∷ []))
      ≡ ok (
          if page_present pte
          then record (with_table c (pte ∷ [])) {
            active_mswp = put_freefp c.active_mswp (Paging.swp pte);
          }
          else record (with_table c (pte ∷ [])) { mram = put_freefp c.mram (Paging.fpn pte) })
unfolding free_pcb_memph free_pages
free_pcb_memph_lem c pte = refl

-- A process whose page was set to frame `x` of RAM never gives that frame back: the RAM is kept, and
-- its free list with it.
pub mram-free_pcb_memph :
    (c : Caller) (pte x : ℕ)
    → pte < 2 ^ 32
    → (free_pcb_memph (with_table c (pte_set_fpn pte x ∷ [])) >>= λ c'. ok c'.mram) ≡ ok c.mram
mram-free_pcb_memph c pte x h =
    rw (free_pcb_memph_lem c (pte_set_fpn pte x), (pte_set_fpn_fields pte x h).1)
