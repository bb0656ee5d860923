-- ===== src/Mm/Map.antt =====
-- alloc_pages_range, vmap_page_range and get_vma_by_num: what they come to.
use lab_os_assignment.Base.{
  ℕ, zero, suc, ◌+◌, ◌*◌, ◌^◌, ◌<◌, ◌≡◌, refl, arith, ◌||◌, Option, some, none, List, [], ◌∷◌,
  length, take, ap, ltb, ◌==◌, if◌then◌else◌, true, false, Bool-cases, inl, inr,
}
use lab_os_assignment.Outcome.{
  Outcome, ok, fault, ◌>>=◌, Status, success, failure, wild_pointer, type_confusion,
}
use lab_os_assignment.Words.{
  is_negative, int_lt, add_int_lem, mul_256_lem, to_ulong_lem, rounds_to_lem,
}
use lab_os_assignment.Chain.{Chain, null, wild, node, chain_of, IsProper}
use lab_os_assignment.Paging
use lab_os_assignment.Pte.{pte_set_fpn}
use lab_os_assignment.Device.{get_freefp}
use lab_os_assignment.Mm.{
  Region, Area, Mm, Caller, walk_areas, get_vma_by_num, map_frames, vmap_page_range, alloc_loop,
  put_freefp_elsewhere, alloc_pages_range, enlist_pgn_node, vm_map_ram,
}

-- What a request for at least one frame comes to, by the free list of the RAM.
abbrev pub first_frame : Chain ℕ → Caller → Outcome (Status × Caller)
first_frame null c = ok (failure, c)
first_frame wild c = fault wild_pointer
first_frame (node f rest) c = fault type_confusion

alloc_loop-first :
    (k : ℕ) (free : Chain ℕ) (c : Caller)
    → c.mram.free_fp_list ≡ free
    → alloc_loop (suc k) c ≡ first_frame free c
unfolding alloc_loop get_freefp put_freefp_elsewhere
alloc_loop-first k null c e = rw e
alloc_loop-first k wild c e = rw e
alloc_loop-first k (node f rest) c e = rw e

-- `alloc_pages_range`, for every request: none is asked for when the number is 0 or negative; without
-- a free frame the call fails and changes nothing; and with a free frame, the frame is handed to
-- MEMPHY_put_freefp through a pointer to something that is no device. So no call ever delivers one.
pub alloc_pages_range_lem :
    (c : Caller) (req_pgnum : ℕ)
    → alloc_pages_range c req_pgnum ≡ (
        if is_negative req_pgnum || req_pgnum == 0
        then ok (success, c)
        else first_frame c.mram.free_fp_list c)
unfolding alloc_pages_range alloc_loop
alloc_pages_range_lem c zero = refl
alloc_pages_range_lem c (suc k) = elim (Bool-cases (is_negative (suc k))) [
  | inl neg ↦ rw neg
  | inr pos ↦ rw (pos, alloc_loop-first k c.mram.free_fp_list c refl) (ground arith)
]

walk_areas-none : (areas : Chain Area) → IsProper areas → walk_areas areas ≡ ok none
unfolding walk_areas
walk_areas-none null h = refl
walk_areas-none wild h = absurd h
walk_areas-none (node a next) h = walk_areas-none next h

-- On a list of areas that ends in NULL, the first area answers to the number 0 and to every negative
-- number, and no area answers to a positive number, however many areas there are.
pub get_vma_by_num_lem :
    (mm : Mm) (a : Area) (next : Chain Area) (vmaid : ℕ)
    → IsProper next
    → get_vma_by_num (record mm { mmap = node a next }) vmaid
      ≡ (if int_lt 0 vmaid then ok none else ok (some a))
unfolding get_vma_by_num
get_vma_by_num_lem mm a next vmaid h = rw (walk_areas-none (node a next) h)

-- The entry after the frames `fs` have been written to it one after the other.
abbrev pub written : ℕ → List ℕ → ℕ
written pte [] = pte
written pte (f ∷ fs) = written (pte_set_fpn pte f) fs

module _ (mm : Mm) (rest : List ℕ) where
  abbrev with_pgd : ℕ → Mm
  with_pgd pte = record mm { pgd = pte ∷ rest }

  map_frames-eq :
      (rounds : ℕ) (fs : List ℕ) (pte pgit : ℕ)
      → map_frames rounds (chain_of fs) (with_pgd pte) pgit
        ≡ ok (with_pgd (written pte (take rounds fs)), pgit + length (take rounds fs))
  unfolding map_frames
  map_frames-eq zero fs pte pgit = ap (λ n. ok (with_pgd pte, n)) (omega arith)
  map_frames-eq (suc rounds) [] pte pgit = ap (λ n. ok (with_pgd pte, n)) (omega arith)
  map_frames-eq (suc rounds) (f ∷ fs) pte pgit =
      let inside : ltb 0 (suc (length rest)) ≡ true = ground arith in
      rw (inside, map_frames-eq rounds fs (pte_set_fpn pte f) (pgit + 1))
        (ap (λ n. ok (with_pgd (written (pte_set_fpn pte f) (take rounds fs)), n)) (omega arith))

  -- `vmap_page_range` with proper frames, a page table of at least one entry, an address and an end
  -- that are not negative as `int`: the region covers one page for each frame that is used, at most
  -- `pgnum`; every one of these frames is written to entry 0, and the other entries are kept; the
  -- page that is enlisted is the one behind the region.
  pub vmap_page_range_lem :
      (c : Caller) (fs : List ℕ) (pte addr pgnum : ℕ)
      → pgnum < 2 ^ 31
      → addr + length (take pgnum fs) * 256 < 2 ^ 31
      → let n = length (take pgnum fs) in
        vmap_page_range (record c { mm = with_pgd pte }) addr pgnum (chain_of fs)
        ≡ ok (
          record { rg_start = addr; rg_end = addr + n * 256 },
          record c {
            mm = record (with_pgd (written pte (take pgnum fs))) {
              fifo_pgn = node (Paging.pgn addr + n) mm.fifo_pgn;
            };
          },
        )
  unfolding vmap_page_range enlist_pgn_node
  vmap_page_range_lem c fs pte addr pgnum small fits =
      let n = length (take pgnum fs) in
      let from_zero : 0 + n ≡ n = omega arith in
      rw (
        rounds_to_lem pgnum small,
        map_frames-eq pgnum fs pte 0,
        from_zero,
        mul_256_lem n (omega arith),
        add_int_lem addr (n * 256) fits,
        to_ulong_lem addr (omega arith),
        to_ulong_lem (addr + n * 256) fits,
      )

-- What vm_map_ram hands on of a request for at least one frame.
abbrev pub first_map : Chain ℕ → Caller → Outcome (Status × Option Region × Caller)
first_map null c = ok (failure, none, c)
first_map wild c = fault wild_pointer
first_map (node f rest) c = fault type_confusion

pub vm_map_ram_lem :
    (c : Caller) (astart aend mapstart incpgnum : ℕ)
    → 0 < incpgnum
    → incpgnum < 2 ^ 31
    → vm_map_ram c astart aend mapstart incpgnum ≡ first_map c.mram.free_fp_list c
unfolding vm_map_ram
vm_map_ram_lem c astart aend mapstart incpgnum pos small =
    rw (alloc_pages_range_lem c incpgnum, asked) (through c.mram.free_fp_list)
  where
    asked : is_negative incpgnum || incpgnum == 0 ≡ false
    asked = ground arith

    through :
        (free : Chain ℕ)
        → (first_frame free c >>= λ r. elim r.0 [
          | success ↦
              vmap_page_range r.1 mapstart incpgnum null >>= λ v. ok (success, some v.0, v.1)
          | failure ↦ ok (failure, none, r.1)
        ])
          ≡ first_map free c
    through null = refl
    through wild = refl
    through (node f rest) = refl
