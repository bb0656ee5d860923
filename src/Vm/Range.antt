-- ===== src/Vm/Range.antt =====
-- The regions and areas of a process: every number that is stored fits its C type.
use lab_os_assignment.Base.{ℕ, zero, suc, arith, subst, All-set, length, ltb, leb}
use lab_os_assignment.Outcome.{OnResult, OnResult-if, OnResult-bind, OnResult-mono}
use lab_os_assignment.Words.{add_ulong}
use lab_os_assignment.Chain.{Chain, null, wild, node}
use lab_os_assignment.Device.Range.{HasBytes, IsByte, HasBytes-invariant}
use lab_os_assignment.Mm.{Region, Area, Mm}
use lab_os_assignment.Mm.Range.{
  EachNode, RegionFits, AreaFits, IsEntry, TablesFit, TablesFit-invariant, get_vma_by_num-Fits,
  put_area-TablesFit,
}
use lab_os_assignment.Vm.{enlist_vm_freerg_list, put_symrg, fit_loop, no_region}
use lab_os_assignment.Vm.Invariant.{AreaInvariant, MemoryInvariant, OnResult-chain}

-- What the search for a region leaves.
abbrev FoundFits : Region × Chain Region → Type 0
FoundFits r = RegionFits r.0 × EachNode RegionFits r.1

fit_loop-Fits :
    (fuel size : ℕ) (newrg : Region) (list : Chain Region)
    → RegionFits newrg
    → EachNode RegionFits list
    → OnResult FoundFits (fit_loop fuel size newrg list)
unfolding fit_loop
fit_loop-Fits zero size newrg list n l = tt
fit_loop-Fits (suc fuel) size newrg null n l = (n, tt)
fit_loop-Fits (suc fuel) size newrg wild n l = tt
fit_loop-Fits (suc fuel) size newrg (node rg next) n l =
    let end = add_ulong rg.rg_start size in
    let taken : Region = record { rg_start = rg.rg_start; rg_end = end } in
    let fits : RegionFits taken = (l.0.0, omega arith) in
    OnResult-if FoundFits (leb end rg.rg_end) _ _
      (OnResult-if FoundFits (ltb end rg.rg_end) _ _
        (fit_loop-Fits fuel size taken (node (record rg { rg_start = end }) next) fits
          ((fits.1, l.0.1), l.1))
        (OnResult-chain FoundFits next _ _ _
          (fit_loop-Fits fuel size taken (node (record rg { rg_start = rg.rg_end }) null) fits
            ((l.0.1, l.0.1), tt))
          tt
          λ nextrg rest e.
            fit_loop-Fits fuel size taken (node nextrg rest) fits
              (subst (EachNode RegionFits) e l.1)))
      (OnResult-bind FoundFits (fit_loop fuel size newrg next) _
        (fit_loop-Fits fuel size newrg next n l.1) λ r f. (f.0, (l.0, f.1)))

put_symrg-TablesFit :
    (mm : Mm) (rgid : ℕ) (rg : Region)
    → TablesFit mm
    → RegionFits rg
    → OnResult TablesFit (put_symrg mm rgid rg)
put_symrg-TablesFit mm rgid rg fit r =
    OnResult-if TablesFit (ltb rgid (length mm.symrgtbl)) _ _
      (record {
        entries = fit.entries;
        symbols = All-set RegionFits mm.symrgtbl rgid rg fit.symbols r;
        areas = fit.areas;
      })
      tt

enlisted_at :
    (mm : Mm) (areas : Chain Area) (rg : Region)
    → TablesFit (record mm { mmap = areas })
    → OnResult (λ r. TablesFit r.1) (enlist_vm_freerg_list (record mm { mmap = areas }) rg)
unfolding enlist_vm_freerg_list
enlisted_at mm null rg fit = tt
enlisted_at mm wild rg fit = tt
enlisted_at mm (node a next) rg fit =
    OnResult-if (λ r. TablesFit r.1) (leb rg.rg_end rg.rg_start) _ _ fit
      (record {
        entries = fit.entries;
        symbols = fit.symbols;
        areas = ((fit.areas.0.0, fit.areas.0.1, fit.areas.0.2, tt), fit.areas.1);
      })

TablesFit-areas : AreaInvariant RegionFits (λ mm. AreaFits) TablesFit
TablesFit-areas = record {
  plain = (omega arith, omega arith);
  made = λ a b p q. (ground arith, ground arith);
  stores = put_symrg-TablesFit;
  enlists = λ mm rg fit. enlisted_at mm mm.mmap rg fit;
  finds = get_vma_by_num-Fits;
  searches = λ mm a fuel size rg next fit f e.
      OnResult-mono _ (fit_loop fuel size no_region (node rg next))
        (fit_loop-Fits fuel size no_region (node rg next) (omega arith, omega arith)
          (subst (EachNode RegionFits) e f.3))
        λ x r.
          (r.0, put_area-TablesFit mm (record a { vm_freerg_list = x.1 }) fit (f.0, f.1, f.2, r.1));
  moves = λ mm a n fit f.
      put_area-TablesFit mm (record a { vm_end = add_ulong a.vm_end n }) fit
        (f.0, omega arith, f.2, f.3);
}

pub range_invariant : MemoryInvariant HasBytes HasBytes TablesFit
range_invariant = record {
  Byte = IsByte;
  Entry = IsEntry;
  Rg = RegionFits;
  Ar = λ mm. AreaFits;
  ram = HasBytes-invariant;
  swap = HasBytes-invariant;
  tables = TablesFit-invariant;
  areas = TablesFit-areas;
}
