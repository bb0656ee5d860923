-- ===== src/Legacy/Calls.antt =====
-- The instructions of src/cpu.c over the memory without paging, which `run` calls when MM_PAGING is
-- not defined.
use lab_os_assignment.Base.{ℕ, ◌+◌, ◌%◌, ◌^◌, none, get_elem?, set, ◌==◌, if◌then◌else◌}
use lab_os_assignment.Outcome.{Outcome, ok, ◌>>=◌, need, uninitialized, out_of_bounds}
use lab_os_assignment.Legacy.{Memory, Process, alloc_mem, free_mem, read_mem, write_mem}

-- `((unsigned long)proc & 0UL)`
unfoldable pub calc : Process → ℕ
calc proc = 0

-- `proc->regs[reg_index] = addr`
abbrev put_reg : Process → (reg_index addr : ℕ) → Outcome Process
put_reg proc reg_index addr = do
  _ ← need out_of_bounds (get_elem? proc.regs reg_index)
  ok (record proc { regs = set proc.regs reg_index addr })

unfoldable pub alloc : Process → (size reg_index : ℕ) → Outcome (ℕ × Process)
alloc proc size reg_index =
    let (addr, proc') = alloc_mem size proc in
    if addr == 0 then ok (1, proc') else (put_reg proc' reg_index addr >>= λ proc''. ok (0, proc''))

unfoldable pub free_data : Process → (reg_index : ℕ) → Outcome ℕ
free_data proc reg_index = do
  address ← need out_of_bounds (get_elem? proc.regs reg_index)
  ok (free_mem address proc)

-- `data` is a local variable that is not assigned before the call of `read_mem`.
unfoldable pub read : Process → (source offset destination : ℕ) → Memory → Outcome (ℕ × Process)
read proc source offset destination m = do
  base ← need out_of_bounds (get_elem? proc.regs source)
  (stat, value) ← read_mem ((base + offset) % 2 ^ 32) proc none m
  let store : Outcome (ℕ × Process) = do
    byte ← need uninitialized value
    proc' ← put_reg proc destination byte
    ok (0, proc')
  if stat == 0 then ok (1, proc) else store

unfoldable pub write : Process → (value destination offset : ℕ) → Memory → Outcome (ℕ × Memory)
write proc value destination offset m = do
  base ← need out_of_bounds (get_elem? proc.regs destination)
  write_mem ((base + offset) % 2 ^ 32) proc value m
