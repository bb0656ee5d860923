-- ===== src/Page/Present.antt =====
-- Reading and writing a page whose entry says that it is present, and what happens elsewhere.
use native.Mathlib.Decide.{ℕ_discrete}
use lab_os_assignment.Base.{
  ℕ, ◌+◌, ◌*◌, ◌≤◌, ◌<◌, ◌≡◌, ◌≢◌, ◌∙◌, arith, some, none, Option, length, get_elem?, set,
  length-set, get_elem?_lt, get_elem?_ge, get_elem?-set_self, get_elem?-set_ne, lt→ltb, ◌==◌,
  if◌then◌else◌, true, false,
}
use lab_os_assignment.Outcome.{Outcome, ok, fault, ◌>>=◌, >>=-eq-ok, out_of_bounds}
use lab_os_assignment.Paging
use lab_os_assignment.Paging.{page_present}
use lab_os_assignment.Device.{get_freefp}
use lab_os_assignment.Device.Cells.{read_lem, write_lem}
use lab_os_assignment.Mm.{Mm, Caller}
use lab_os_assignment.Page.{pg_getpage, pg_getval, pg_setval}

-- The physical address that an entry gives to a virtual one.
abbrev pub physical : (pte addr : ℕ) → ℕ
physical pte addr = Paging.fpn pte * 256 + Paging.offst addr

-- The entry of the page of `addr` is `pte`, it is present, and the byte lies in a random access RAM.
pub record IsMapped (c : Caller) (addr pte : ℕ) : Type 0 where
  pub entry : get_elem? c.mm.pgd (Paging.pgn addr) ≡ some pte
  pub present : page_present pte ≡ true
  pub random : c.mram.rdmflg ≢ 0
  pub inside : physical pte addr < length c.mram.storage

module _ (c : Caller) (addr pte : ℕ) (m : IsMapped c addr pte) where
  pub pg_getval_lem :
      (b : ℕ)
      → get_elem? c.mram.storage (physical pte addr) ≡ some b
      → pg_getval c addr ≡ ok (some b, c)
  unfolding pg_getval pg_getpage
  pg_getval_lem b e = rw (m.entry, m.present, read_lem c.mram (physical pte addr) b m.random e)

  pub pg_setval_lem :
      (value : ℕ)
      → pg_setval c addr value
        ≡ ok (record c {
          mram = record (c.mram) { storage = set c.mram.storage (physical pte addr) value };
        })
  unfolding pg_setval pg_getpage
  pg_setval_lem value = rw (
    m.entry,
    m.present,
    write_lem c.mram (physical pte addr) value m.random,
    lt→ltb (physical pte addr) (length c.mram.storage) m.inside,
  )

-- The value that a read reports.
abbrev pub value_of : Outcome (Option ℕ × Caller) → Outcome (Option ℕ)
value_of r = r >>= λ v. ok v.0

-- Another process on the same RAM and swap device.
abbrev pub with_mm : Caller → Mm → Caller
with_mm c mm = record c { mm = mm }

-- After one process has written to a mapped address, a process on the same RAM, which may be the same
-- one, finds at a mapped address the value that was written if the two addresses have the same
-- physical address, and otherwise what it would have found before.
pub value_across :
    (c : Caller) (other : Mm) (a b pte_a pte_b value : ℕ)
    → IsMapped c a pte_a
    → IsMapped (with_mm c other) b pte_b
    → (pg_setval c a value >>= λ c'. value_of (pg_getval (with_mm c' other) b)) ≡ (
        if physical pte_a a == physical pte_b b
        then ok (some value)
        else value_of (pg_getval (with_mm c other) b))
value_across c other a b pte_a pte_b value ma mb =
    rw (pg_setval_lem c a pte_a ma value) (elim (ℕ_discrete pa pb) [
      | yes same ↦
          (let hit : (pa == pb) ≡ true = ground arith in
            rw (
              hit,
              pg_getval_lem after b pte_b mapped value
                  (rw same (get_elem?-set_self c.mram.storage pb value mb.inside)),
            ))
      | no apart ↦
          (let miss : (pa == pb) ≡ false = ground arith in
            let (old, e) = get_elem?_lt c.mram.storage pb mb.inside in
            rw (
              miss,
              pg_getval_lem after b pte_b mapped old
                  (get_elem?-set_ne c.mram.storage pa pb value apart ∙ e),
              pg_getval_lem (with_mm c other) b pte_b mb old e,
            ))
    ])
  where
    pa : ℕ
    pa = physical pte_a a

    pb : ℕ
    pb = physical pte_b b

    after : Caller
    after = record c {
      mm = other;
      mram = record (c.mram) { storage = set c.mram.storage pa value };
    }

    mapped : IsMapped after b pte_b
    mapped = record {
      entry = mb.entry;
      present = mb.present;
      random = mb.random;
      inside = rw (length-set c.mram.storage pa value) mb.inside;
    }

-- After a write to one mapped address, a read of a mapped address finds the value that was written if
-- the two have the same physical address, and otherwise what it would have found before.
pub pg_getval-pg_setval :
    (c : Caller) (a b pte_a pte_b value : ℕ)
    → IsMapped c a pte_a
    → IsMapped c b pte_b
    → (pg_setval c a value >>= λ c'. value_of (pg_getval c' b))
      ≡ (if physical pte_a a == physical pte_b b then ok (some value) else value_of (pg_getval c b))
pg_getval-pg_setval c a b pte_a pte_b value ma mb =
    rw (pg_setval_lem c a pte_a ma value)
      (rw (pg_setval_lem c a pte_a ma value) at (value_across c c.mm a b pte_a pte_b value ma mb))

-- A chain that ends by reporting no frame number.
ends_unset :
    (m : Outcome Caller) (g : Caller → Caller) (r : Option ℕ × Caller)
    → (m >>= λ c. ok (none, g c)) ≡ ok r
    → r.0 ≡ none
ends_unset (ok c) g r h = cc
ends_unset (fault e) g r h = cc

pg_getpage-absent :
    (c : Caller) (pgn pte : ℕ) (r : Option ℕ × Caller)
    → get_elem? c.mm.pgd pgn ≡ some pte
    → page_present pte ≡ false
    → pg_getpage c pgn ≡ ok r
    → r.0 ≡ none
unfolding pg_getpage
pg_getpage-absent c pgn pte r e absent h =
    let (frame, _, rest) = >>=-eq-ok (get_freefp c.mram) _ (rw (e, absent) at h) in
    ends_unset _ _ r rest

-- No read of an address whose entry is not present comes to a value: the frame number is used
-- without having been assigned, if nothing worse happens before.
pub pg_getval-absent :
    (c : Caller) (addr pte : ℕ)
    → get_elem? c.mm.pgd (Paging.pgn addr) ≡ some pte
    → page_present pte ≡ false
    → (r : Option ℕ × Caller) → pg_getval c addr ≢ ok r
unfolding pg_getval
pg_getval-absent c addr pte e absent r h =
    let ((framenum, c'), page, rest) = >>=-eq-ok (pg_getpage c (Paging.pgn addr)) _ h in
    let unset : framenum ≡ none = pg_getpage-absent c (Paging.pgn addr) pte _ e absent page in
    let stuck = rw unset at rest in cc

-- An address whose page lies past the table is refused by no check: the entry is read outside it. The
-- table that init_mm allocates has one entry, so this is so for every page but page 0.
pub pg_getval-out :
    (c : Caller) (addr value : ℕ)
    → length c.mm.pgd ≤ Paging.pgn addr
    → (pg_getval c addr ≡ fault out_of_bounds) × (pg_setval c addr value ≡ fault out_of_bounds)
unfolding pg_getval pg_setval pg_getpage
pg_getval-out c addr value h =
    let out : get_elem? c.mm.pgd (Paging.pgn addr) ≡ none =
      get_elem?_ge c.mm.pgd (Paging.pgn addr) h in
    (rw out, rw out)
