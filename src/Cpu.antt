-- ===== src/Cpu.antt =====
-- The processor of src/cpu.c, with MM_PAGING: `run` executes one instruction of a process.
pub mod Steps
pub mod Invariant
pub mod Shape
mod Tests
use lab_os_assignment.Base.{
  ℕ, zero, suc, ◌+◌, ◌-◌, ◌^◌, List, length, get_elem?, leb, if◌then◌else◌,
}
use lab_os_assignment.Outcome.{Outcome, ok, ◌>>=◌, need, Status, success, failure, out_of_bounds}
use lab_os_assignment.Mm.{Caller}
use lab_os_assignment.Vm.{pgalloc, pgfree_data}
use lab_os_assignment.Page.{pgread, pgwrite}

-- enum ins_opcode_t
pub data Opcode : Type 0 where
  calc alloc free read write : Opcode

-- struct inst_t
pub record Inst : Type 0 where
  pub opcode : Opcode
  pub arg_0 : ℕ
  pub arg_1 : ℕ
  pub arg_2 : ℕ

-- The part of struct pcb_t that the processor uses; `code->size` is the length of `text`.
pub record Pcb : Type 0 where
  pub pc : ℕ
  pub text : List Inst
  pub caller : Caller

-- The `int` behind a status.
abbrev pub to_stat : Status → ℕ
to_stat success = 0
to_stat failure = 2 ^ 32 - 1

-- The switch of `run`. `calc` returns 0; `fuel` is for the search of pgalloc.
unfoldable pub execute : (fuel : ℕ) → Opcode → (a b c : ℕ) → Caller → Outcome (ℕ × Caller)
execute fuel calc a b c proc = ok (0, proc)
execute fuel alloc a b c proc = do (s, proc') ← pgalloc fuel proc a b; ok (to_stat s, proc')
execute fuel free a b c proc = do (s, proc') ← pgfree_data proc a; ok (to_stat s, proc')
execute fuel read a b c proc = do (s, byte, proc') ← pgread proc a b c; ok (to_stat s, proc')
execute fuel write a b c proc = do (s, proc') ← pgwrite proc a b c; ok (to_stat s, proc')

-- Beside the process: what `run` returns.
unfoldable pub run : (fuel : ℕ) → Pcb → Outcome (ℕ × Pcb)
run fuel proc = if leb (length proc.text) proc.pc then ok (1, proc) else do
  ins ← need out_of_bounds (get_elem? proc.text proc.pc)
  (stat, caller) ← execute fuel ins.opcode ins.arg_0 ins.arg_1 ins.arg_2 proc.caller
  ok (stat, record proc { pc = (proc.pc + 1); caller = caller })
