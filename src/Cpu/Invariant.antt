-- ===== src/Cpu/Invariant.antt =====
-- What every instruction keeps of the memory of a process, and with it every run of its code.
use lab_os_assignment.Base.{ℕ, zero, suc, get_elem?, length, leb}
use lab_os_assignment.Outcome.{
  OnResult, OnResult-bind, OnResult-after, OnResult-if, need, out_of_bounds,
}
use lab_os_assignment.Device.{Device}
use lab_os_assignment.Mm.{Mm, Caller}
use lab_os_assignment.Mm.Invariant.{HoldsOf}
use lab_os_assignment.Vm.{pgalloc, pgfree_data}
use lab_os_assignment.Vm.Invariant.{MemoryInvariant, pgalloc_keeps, pgfree_data_keeps}
use lab_os_assignment.Page.{pgread, pgwrite}
use lab_os_assignment.Page.Invariant.{pgread_keeps, pgwrite_keeps}
use lab_os_assignment.Cpu.{Opcode, calc, alloc, free, read, write, Pcb, execute, run}
use lab_os_assignment.Cpu.Steps.{run_many}

module _ {Ram Swap : Device → Type 0} {Tab : Mm → Type 0} (inv : MemoryInvariant Ram Swap Tab) where
  execute_keeps :
      (fuel : ℕ) (op : Opcode) (a b c : ℕ) (proc : Caller)
      → HoldsOf Ram Swap Tab proc
      → OnResult (λ r. HoldsOf Ram Swap Tab r.1) (execute fuel op a b c proc)
  unfolding execute
  execute_keeps fuel calc a b c proc h = h
  execute_keeps fuel alloc a b c proc h =
      OnResult-bind (λ r. HoldsOf Ram Swap Tab r.1) (pgalloc fuel proc a b) _
        (pgalloc_keeps inv fuel proc a b h) λ r h'. h'
  execute_keeps fuel free a b c proc h =
      OnResult-bind (λ r. HoldsOf Ram Swap Tab r.1) (pgfree_data proc a) _
        (pgfree_data_keeps inv proc a h) λ r h'. h'
  execute_keeps fuel read a b c proc h =
      OnResult-bind (λ r. HoldsOf Ram Swap Tab r.1) (pgread proc a b c) _
        (pgread_keeps inv proc a b c h) λ r h'. h'
  execute_keeps fuel write a b c proc h =
      OnResult-bind (λ r. HoldsOf Ram Swap Tab r.1) (pgwrite proc a b c) _
        (pgwrite_keeps inv proc a b c h) λ r h'. h'

  pub run_keeps :
      (fuel : ℕ) (proc : Pcb)
      → HoldsOf Ram Swap Tab proc.caller
      → OnResult (λ r. HoldsOf Ram Swap Tab r.1.caller) (run fuel proc)
  unfolding run
  run_keeps fuel proc h =
      let Q = λ (r : ℕ × Pcb). HoldsOf Ram Swap Tab r.1.caller in
      OnResult-if Q (leb (length proc.text) proc.pc) _ _ h (
        OnResult-after Q (need out_of_bounds (get_elem? proc.text proc.pc)) _ λ ins.
          OnResult-bind Q (execute fuel ins.opcode ins.arg_0 ins.arg_1 ins.arg_2 proc.caller) _
            (execute_keeps fuel ins.opcode ins.arg_0 ins.arg_1 ins.arg_2 proc.caller h) λ r h'. h')

  pub run_many_keeps :
      (fuel count : ℕ) (proc : Pcb)
      → HoldsOf Ram Swap Tab proc.caller
      → OnResult (λ last. HoldsOf Ram Swap Tab last.caller) (run_many fuel count proc)
  unfolding run_many
  run_many_keeps fuel zero proc h = h
  run_many_keeps fuel (suc count) proc h =
      OnResult-bind (λ last. HoldsOf Ram Swap Tab last.caller) (run fuel proc) _
        (run_keeps fuel proc h) λ r h'. run_many_keeps fuel count r.1 h'
