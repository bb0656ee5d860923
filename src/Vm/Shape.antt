-- ===== src/Vm/Shape.antt =====
-- What the functions of src/mm-vm.c that allocate and free keep of the tables.
use lab_os_assignment.Base.{ℕ, refl, ◌∙◌, length, length-set, ltb, leb}
use lab_os_assignment.Outcome.{OnResult, OnResult-if, OnResult-any, OnResult-mono}
use lab_os_assignment.Words.{add_ulong}
use lab_os_assignment.Chain.{Chain, null, wild, node}
use lab_os_assignment.Device.{Device}
use lab_os_assignment.Device.Shape.{KeepsDevice, KeepsDevice-invariant}
use lab_os_assignment.Mm.{Region, Area, Mm}
use lab_os_assignment.Mm.Shape.{moved, KeepsMm, KeepsMm-trans, KeepsMm-invariant, any_tables}
use lab_os_assignment.Mm.First.{IsFirst, get_vma_by_num-IsFirst, put_area-Keeps}
use lab_os_assignment.Vm.{enlist_vm_freerg_list, put_symrg, fit_loop, no_region}
use lab_os_assignment.Vm.Invariant.{AreaInvariant, MemoryInvariant}

put_symrg-Keeps :
    (old mm : Mm) (rgid : ℕ) (rg : Region)
    → KeepsMm old mm
    → OnResult (KeepsMm old) (put_symrg mm rgid rg)
put_symrg-Keeps old mm rgid rg k =
    OnResult-if (KeepsMm old) (ltb rgid (length mm.symrgtbl)) _ _
      (record {
        entries = k.entries;
        symbols = length-set mm.symrgtbl rgid rg ∙ k.symbols;
        areas = k.areas;
      })
      tt

enlisted_at :
    (old mm : Mm) (areas : Chain Area) (rg : Region)
    → KeepsMm old (record mm { mmap = areas })
    → OnResult (λ r. KeepsMm old r.1) (enlist_vm_freerg_list (record mm { mmap = areas }) rg)
unfolding enlist_vm_freerg_list
enlisted_at old mm null rg k = tt
enlisted_at old mm wild rg k = tt
enlisted_at old mm (node a next) rg k =
    OnResult-if (λ r. KeepsMm old r.1) (leb rg.rg_end rg.rg_start) _ _ k
      (KeepsMm-trans k
        (record { entries = refl; symbols = refl; areas = moved a _ next refl refl refl }))

KeepsMm-areas : (old : Mm) → AreaInvariant (λ rg. Unit {0}) IsFirst (KeepsMm old)
KeepsMm-areas old = record {
  plain = tt;
  made = λ a b p q. tt;
  stores = λ mm rgid rg k r. put_symrg-Keeps old mm rgid rg k;
  enlists = λ mm rg k. enlisted_at old mm mm.mmap rg k;
  finds = λ mm vmaid k. get_vma_by_num-IsFirst mm vmaid;
  searches = λ mm a fuel size rg next k first e.
      OnResult-mono _ (fit_loop fuel size no_region (node rg next)) (OnResult-any _) λ x u. (
        tt,
        KeepsMm-trans k
            (put_area-Keeps mm a (record a { vm_freerg_list = x.1 }) first refl refl refl),
      );
  moves = λ mm a n k first.
      KeepsMm-trans k
        (put_area-Keeps mm a (record a { vm_end = add_ulong a.vm_end n }) first refl refl refl);
}

pub Keeps-invariant :
    (ram swap : Device) (old : Mm)
    → MemoryInvariant (KeepsDevice ram) (KeepsDevice swap) (KeepsMm old)
Keeps-invariant ram swap old = record {
  Byte = λ b. Unit {0};
  Entry = λ pte. Unit {0};
  Rg = λ rg. Unit {0};
  Ar = IsFirst;
  ram = KeepsDevice-invariant ram;
  swap = KeepsDevice-invariant swap;
  tables = KeepsMm-invariant old;
  areas = KeepsMm-areas old;
}

-- The devices, whatever becomes of the tables.
pub devices_invariant :
    (ram swap : Device) → MemoryInvariant (KeepsDevice ram) (KeepsDevice swap) (λ mm. Unit {0})
devices_invariant ram swap = record {
  Byte = λ b. Unit {0};
  Entry = λ pte. Unit {0};
  Rg = λ rg. Unit {0};
  Ar = IsFirst;
  ram = KeepsDevice-invariant ram;
  swap = KeepsDevice-invariant swap;
  tables = any_tables;
  areas = record {
    plain = tt;
    made = λ a b p q. tt;
    stores = λ mm rgid rg k r. OnResult-any _;
    enlists = λ mm rg k. OnResult-any _;
    finds = λ mm vmaid k. get_vma_by_num-IsFirst mm vmaid;
    searches = λ mm a fuel size rg next k u e.
        OnResult-mono _ (fit_loop fuel size no_region (node rg next)) (OnResult-any _)
          λ x u. (tt, tt);
    moves = λ mm a n k u. tt;
  };
}
