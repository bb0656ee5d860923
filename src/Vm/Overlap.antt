-- ===== src/Vm/Overlap.antt =====
-- Two calls of __alloc that both grow the area.
use lab_os_assignment.Base.{ℕ, ◌+◌, ◌^◌, ◌≤◌, ◌<◌, length}
use lab_os_assignment.Outcome.{Outcome, ok, ◌>>=◌, Status}
use lab_os_assignment.Chain.{Chain}
use lab_os_assignment.Mm.{Region, Area, Caller}
use lab_os_assignment.Vm.{alloc}
use lab_os_assignment.Vm.Fit.{AllNodes, IsRegion, rounds_for}
use lab_os_assignment.Vm.Find.{NoRoom}
use lab_os_assignment.Vm.Grow.{aligned}

-- A request that the free list has no room for, for a slot of the table.
pub record Grows (c : Caller) (a : Area) (list : Chain Region) (fuel rgid size : ℕ) : Type 0 where
  pub positive : 0 < size
  pub small : size + 511 < 2 ^ 31
  pub fits : a.sbrk + aligned size < 2 ^ 31
  pub regions : AllNodes IsRegion list
  pub full : NoRoom size list
  pub enough : rounds_for list ≤ fuel
  pub slot : rgid < length c.mm.symrgtbl

-- What two calls of `alloc` for area 0, one after the other, report.
abbrev pub alloc_twice :
    (fuel : ℕ) → Caller → (rgid size rgid' size' : ℕ) → Outcome (Status × ℕ × Status × ℕ)
alloc_twice fuel caller rgid size rgid' size' = do
  (s, addr, caller') ← alloc fuel caller 0 rgid size
  (s', addr', _) ← alloc fuel caller' 0 rgid' size'
  ok (s, addr, s', addr')
