-- ===== src/Legacy/Run.antt =====
-- `run` of src/cpu.c without MM_PAGING, and src/paging.c, which the target `mem` of the Makefile links
-- with it and with src/mem.c. The arrays of src/mem.c are static, so they are 0 before `init_mem`,
-- which src/paging.c does not call.
use lab_os_assignment.Base.{
  ℕ, zero, suc, ◌+◌, ◌%◌, ◌^◌, Option, none, some, List, length, get_elem?, leb, if◌then◌else◌,
}
use lab_os_assignment.Outcome.{Outcome, ok, ◌>>=◌, need, out_of_bounds}
use lab_os_assignment.Cpu.{Opcode, calc, alloc, free, read, write, Inst}
use lab_os_assignment.Loader.{Program, load}
use lab_os_assignment.Legacy.{Memory, PageTable, Process, init_mem, Line, dump}
use lab_os_assignment.Legacy.Calls

-- struct pcb_t as the processor without paging uses it; `code->size` is the length of `text`.
pub record Pcb : Type 0 where
  pub pc : ℕ
  pub text : List Inst
  pub process : Process

-- The switch of `run`. The second argument of `write` is a char.
unfoldable pub execute : Opcode → (a b c : ℕ) → Process → Memory → Outcome (ℕ × Process × Memory)
execute calc a b c proc m = ok (Calls.calc proc, proc, m)
execute alloc a b c proc m = do (s, proc') ← Calls.alloc proc a b; ok (s, proc', m)
execute free a b c proc m = do s ← Calls.free_data proc a; ok (s, proc, m)
execute read a b c proc m = do (s, proc') ← Calls.read proc a b c m; ok (s, proc', m)
execute write a b c proc m = do (s, m') ← Calls.write proc (a % 2 ^ 8) b c m; ok (s, proc, m')

-- Beside the process and the memory: what `run` returns.
unfoldable pub run : Pcb → Memory → Outcome (ℕ × Pcb × Memory)
unfolding execute
run proc m = if leb (length proc.text) proc.pc then ok (1, proc, m) else do
  ins ← need out_of_bounds (get_elem? proc.text proc.pc)
  (stat, process, m') ← execute ins.opcode ins.arg_0 ins.arg_1 ins.arg_2 proc.process m
  ok (stat, record proc { pc = proc.pc + 1; process = process }, m')

-- What `malloc` returns to `load` for a process.
pub record Fresh : Type 0 where
  pub priority : ℕ
  pub size : ℕ
  pub mem : ℕ → Inst
  pub regs : List ℕ
  pub page_table : PageTable

abbrev pub pcb_of : Program → Fresh → Pcb
pcb_of p new = record {
  pc = p.pc;
  text = p.text;
  process = record { regs = new.regs; page_table = new.page_table; bp = p.bp };
}

-- The loop of main.
unfoldable pub run_both : (rounds : ℕ) → (proc ld : Pcb) → Memory → Outcome Memory
unfolding run
run_both zero proc ld m = ok m
run_both (suc rounds) proc ld m = do
  (_, proc', m') ← run proc m
  (_, ld', m'') ← run ld m'
  run_both rounds proc' ld' m''

-- `file` holds the bytes of "input/p0"; `none` is the `exit` of `load`. The result is what `dump` prints.
unfoldable pub main :
    (file : Option (List ℕ)) → (new_ld new_proc : Fresh) → Outcome (Option (List Line))
unfolding run_both
main file new_ld new_proc = do
  first ← load 1 file new_ld.priority new_ld.size new_ld.mem
  elim first [
    | none ↦ ok none
    | some (ld, avail_pid) ↦ do
      second ← load avail_pid file new_proc.priority new_proc.size new_proc.mem
      elim second [
        | none ↦ ok none
        | some (proc, _) ↦ do
          m ← run_both (length proc.text) (pcb_of proc new_proc) (pcb_of ld new_ld) init_mem
          lines ← dump m
          ok (some lines)
      ]
  ]
