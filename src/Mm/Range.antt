-- ===== src/Mm/Range.antt =====
-- The tables of a process: every number that the functions of src/mm.c store fits its C type.
use lab_os_assignment.Base.{ℕ, ◌<◌, ◌^◌, arith, All, All-set, length, ltb, List}
use lab_os_assignment.Outcome.{IfSome, OnResult, OnResult-if, out_of_bounds}
use lab_os_assignment.Words.{int_lt}
use lab_os_assignment.Chain.{Chain, null, wild, node}
use lab_os_assignment.Pte.Fields.{pte_set_fpn_fields, pte_set_swap_fields}
use lab_os_assignment.Device.Range.{need-All}
use lab_os_assignment.Mm.Invariant.{TableInvariant}
use lab_os_assignment.Mm.{
  Region, Area, Mm, init_vm_rg, enlist_vm_rg_node, init_mm, walk_areas, get_vma_by_num, put_area,
  get_pte, put_pte,
}

-- Every node of a list, up to its end.
abbrev pub EachNode : {A : Type 0} → (A → Type 0) → Chain A → Type 0
EachNode P null = Unit {0}
EachNode P wild = Unit {0}
EachNode P (node a next) = P a × EachNode P next

-- A page table entry is a uint32_t, and an address an `unsigned long`.
abbrev pub IsEntry : ℕ → Type 0
IsEntry pte = pte < 2 ^ 32

abbrev pub RegionFits : Region → Type 0
RegionFits rg = (rg.rg_start < 2 ^ 64) × (rg.rg_end < 2 ^ 64)

abbrev pub AreaFits : Area → Type 0
AreaFits a =
    (a.vm_start < 2 ^ 64)
    × (a.vm_end < 2 ^ 64)
    × (a.sbrk < 2 ^ 64)
    × EachNode RegionFits a.vm_freerg_list

pub record TablesFit (mm : Mm) : Type 0 where
  pub entries : All IsEntry mm.pgd
  pub symbols : All RegionFits mm.symrgtbl
  pub areas : EachNode AreaFits mm.mmap

pub init_mm-TablesFit :
    (ptes : List ℕ) (syms : List Region)
    → All IsEntry ptes
    → All RegionFits syms
    → TablesFit (init_mm ptes syms)
unfolding init_mm init_vm_rg enlist_vm_rg_node
init_mm-TablesFit ptes syms p s = record {
  entries = p;
  symbols = s;
  areas = ((omega arith, omega arith, omega arith, ((omega arith, omega arith), tt)), tt);
}

get_pte-IsEntry : (mm : Mm) (pgn : ℕ) → TablesFit mm → OnResult IsEntry (get_pte mm pgn)
get_pte-IsEntry mm pgn fit = need-All IsEntry out_of_bounds mm.pgd pgn fit.entries

put_pte-TablesFit :
    (mm : Mm) (pgn pte : ℕ) → TablesFit mm → IsEntry pte → OnResult TablesFit (put_pte mm pgn pte)
put_pte-TablesFit mm pgn pte fit e =
    OnResult-if TablesFit (ltb pgn (length mm.pgd)) _ _
      (record {
        entries = All-set IsEntry mm.pgd pgn pte fit.entries e;
        symbols = fit.symbols;
        areas = fit.areas;
      })
      tt

walk_areas-Fits : (areas : Chain Area) → OnResult (IfSome AreaFits) (walk_areas areas)
unfolding walk_areas
walk_areas-Fits null = tt
walk_areas-Fits wild = tt
walk_areas-Fits (node a next) = walk_areas-Fits next

found_at :
    (mm : Mm) (vmaid : ℕ) (areas : Chain Area)
    → EachNode AreaFits areas
    → OnResult (IfSome AreaFits) (get_vma_by_num (record mm { mmap = areas }) vmaid)
unfolding get_vma_by_num
found_at mm vmaid null fit = tt
found_at mm vmaid wild fit = tt
found_at mm vmaid (node a next) fit =
    OnResult-if (IfSome AreaFits) (int_lt 0 vmaid) _ _ (walk_areas-Fits (node a next)) fit.0

pub get_vma_by_num-Fits :
    (mm : Mm) (vmaid : ℕ) → TablesFit mm → OnResult (IfSome AreaFits) (get_vma_by_num mm vmaid)
get_vma_by_num-Fits mm vmaid fit = found_at mm vmaid mm.mmap fit.areas

put_area_at :
    (mm : Mm) (a : Area) (areas : Chain Area)
    → TablesFit (record mm { mmap = areas })
    → AreaFits a
    → TablesFit (put_area (record mm { mmap = areas }) a)
put_area_at mm a null fit f = fit
put_area_at mm a wild fit f = fit
put_area_at mm a (node b next) fit f = record {
  entries = fit.entries;
  symbols = fit.symbols;
  areas = (f, fit.areas.1);
}

pub put_area-TablesFit :
    (mm : Mm) (a : Area) → TablesFit mm → AreaFits a → TablesFit (put_area mm a)
put_area-TablesFit mm a fit f = put_area_at mm a mm.mmap fit f

pub TablesFit-invariant : TableInvariant IsEntry TablesFit
TablesFit-invariant = record {
  fpn_entry = λ pte fpn e. (pte_set_fpn_fields pte fpn e).4;
  swap_entry = λ pte swptyp swpoff e. (pte_set_swap_fields pte swptyp swpoff e).5;
  gets = get_pte-IsEntry;
  sets = put_pte-TablesFit;
  lists =
      λ mm pages fit. record { entries = fit.entries; symbols = fit.symbols; areas = fit.areas };
}
