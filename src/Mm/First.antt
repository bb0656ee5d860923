-- ===== src/Mm/First.antt =====
-- get_vma_by_num and the area that it finds.
use lab_os_assignment.Base.{ℕ, ◌≡◌, refl, sym, subst}
use lab_os_assignment.Outcome.{IfSome, OnResult, OnResult-if}
use lab_os_assignment.Words.{int_lt}
use lab_os_assignment.Chain.{Chain, null, wild, node}
use lab_os_assignment.Mm.{Area, Mm, get_vma_by_num, walk_areas, put_area}
use lab_os_assignment.Mm.Shape.{moved, KeepsMm}

-- The area is the first one.
abbrev pub IsFirst : Mm → Area → Type 0
IsFirst mm a = (next : Chain Area) × (mm.mmap ≡ node a next)

walk_areas-IsFirst :
    (mm : Mm) (areas : Chain Area) → OnResult (IfSome (IsFirst mm)) (walk_areas areas)
unfolding walk_areas
walk_areas-IsFirst mm null = tt
walk_areas-IsFirst mm wild = tt
walk_areas-IsFirst mm (node a next) = walk_areas-IsFirst mm next

found_at :
    (mm : Mm) (vmaid : ℕ) (areas : Chain Area)
    → mm.mmap ≡ areas
    → OnResult
        (IfSome (IsFirst (record mm { mmap = areas })))
        (get_vma_by_num (record mm { mmap = areas }) vmaid)
unfolding get_vma_by_num
found_at mm vmaid null e = tt
found_at mm vmaid wild e = tt
found_at mm vmaid (node a next) e =
    OnResult-if (IfSome (IsFirst (record mm { mmap = node a next }))) (int_lt 0 vmaid) _ _
      (walk_areas-IsFirst (record mm { mmap = node a next }) (node a next)) (next, refl)

pub get_vma_by_num-IsFirst :
    (mm : Mm) (vmaid : ℕ) → OnResult (IfSome (IsFirst mm)) (get_vma_by_num mm vmaid)
get_vma_by_num-IsFirst mm vmaid = found_at mm vmaid mm.mmap refl

put_area_at :
    (mm : Mm) (a a' : Area) (next : Chain Area)
    → a'.vm_id ≡ a.vm_id
    → a'.vm_start ≡ a.vm_start
    → a'.sbrk ≡ a.sbrk
    → KeepsMm (record mm { mmap = node a next }) (put_area (record mm { mmap = node a next }) a')
put_area_at mm a a' next i s b = record {
  entries = refl;
  symbols = refl;
  areas = moved a a' next i s b;
}

-- A write to its end or to its free list.
pub put_area-Keeps :
    (mm : Mm) (a a' : Area)
    → IsFirst mm a
    → a'.vm_id ≡ a.vm_id
    → a'.vm_start ≡ a.vm_start
    → a'.sbrk ≡ a.sbrk
    → KeepsMm mm (put_area mm a')
put_area-Keeps mm a a' (next, e) i s b =
    subst (λ areas. KeepsMm (record mm { mmap = areas }) (put_area (record mm { mmap = areas }) a'))
      (sym e) (put_area_at mm a a' next i s b)
