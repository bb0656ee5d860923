-- ===== src/Mm/Shape.antt =====
-- What the functions of src/mm.c keep of a process: the sizes of its tables, the bounds of its first
-- area, and its devices.
use lab_os_assignment.Base.{ℕ, ◌≡◌, refl, ◌∙◌, length, length-set, ltb}
use lab_os_assignment.Outcome.{OnResult, OnResult-if, OnResult-any}
use lab_os_assignment.Chain.{Chain, node}
use lab_os_assignment.Device.Shape.{KeepsDevice, KeepsDevice-refl}
use lab_os_assignment.Mm.Invariant.{TableInvariant, HoldsOf}
use lab_os_assignment.Mm.{Area, Mm, Caller, get_pte, put_pte}

-- The first area may get another end and another free list; the list of areas is kept.
pub data KeepsAreas : Chain Area → Chain Area → Type 0 where
  kept : (areas : Chain Area) → KeepsAreas areas areas
  moved :
      (a a' : Area) (next : Chain Area)
      → a'.vm_id ≡ a.vm_id
      → a'.vm_start ≡ a.vm_start
      → a'.sbrk ≡ a.sbrk
      → KeepsAreas (node a next) (node a' next)

KeepsAreas-trans : {xs ys zs : Chain Area} → KeepsAreas xs ys → KeepsAreas ys zs → KeepsAreas xs zs
KeepsAreas-trans p (kept _) = p
KeepsAreas-trans (kept _) (moved a a' next i s b) = moved a a' next i s b
KeepsAreas-trans (moved a a' next i s b) (moved _ a'' _ i' s' b') =
    moved a a'' next (i' ∙ i) (s' ∙ s) (b' ∙ b)

pub record KeepsMm (mm mm' : Mm) : Type 0 where
  pub entries : length mm'.pgd ≡ length mm.pgd
  pub symbols : length mm'.symrgtbl ≡ length mm.symrgtbl
  pub areas : KeepsAreas mm.mmap mm'.mmap

pub KeepsMm-refl : (mm : Mm) → KeepsMm mm mm
KeepsMm-refl mm = record { entries = refl; symbols = refl; areas = kept mm.mmap }

pub KeepsMm-trans : {a b c : Mm} → KeepsMm a b → KeepsMm b c → KeepsMm a c
KeepsMm-trans p q = record {
  entries = q.entries ∙ p.entries;
  symbols = q.symbols ∙ p.symbols;
  areas = KeepsAreas-trans p.areas q.areas;
}

-- A process in use: its tables, its area and both devices.
abbrev pub Keeps : Caller → Caller → Type 0
Keeps c c' = HoldsOf (KeepsDevice c.mram) (KeepsDevice c.active_mswp) (KeepsMm c.mm) c'

pub Keeps-refl : (c : Caller) → Keeps c c
Keeps-refl c = (KeepsDevice-refl c.mram, KeepsDevice-refl c.active_mswp, KeepsMm-refl c.mm)

put_pte-Keeps :
    (old mm : Mm) (pgn pte : ℕ) → KeepsMm old mm → OnResult (KeepsMm old) (put_pte mm pgn pte)
put_pte-Keeps old mm pgn pte k =
    OnResult-if (KeepsMm old) (ltb pgn (length mm.pgd)) _ _
      (record {
        entries = length-set mm.pgd pgn pte ∙ k.entries;
        symbols = k.symbols;
        areas = k.areas;
      })
      tt

pub KeepsMm-invariant : (old : Mm) → TableInvariant (λ pte. Unit {0}) (KeepsMm old)
KeepsMm-invariant old = record {
  fpn_entry = λ pte fpn e. tt;
  swap_entry = λ pte swptyp swpoff e. tt;
  gets = λ mm pgn k. OnResult-any (get_pte mm pgn);
  sets = λ mm pgn pte k e. put_pte-Keeps old mm pgn pte k;
  lists = λ mm pages k. record { entries = k.entries; symbols = k.symbols; areas = k.areas };
}

-- Tables of which nothing is said.
pub any_tables : TableInvariant (λ pte. Unit {0}) (λ mm. Unit {0})
any_tables = record {
  fpn_entry = λ pte fpn e. tt;
  swap_entry = λ pte swptyp swpoff e. tt;
  gets = λ mm pgn k. OnResult-any (get_pte mm pgn);
  sets = λ mm pgn pte k e. OnResult-any (put_pte mm pgn pte);
  lists = λ mm pages k. tt;
}
