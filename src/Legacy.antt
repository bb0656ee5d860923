-- ===== src/Legacy.antt =====
-- The memory without paging of src/mem.c. Its loops over tables run over indeterminate contents of
-- `malloc`, which are parts of the state here.
pub mod Calls
pub mod Translation
pub mod Run
pub mod Reads
mod Tests
use lab_os_assignment.Base.{
  ℕ, zero, suc, ◌+◌, ◌-◌, ◌*◌, ◌/◌, ◌%◌, ◌^◌, bit_and, Bool, Option, none, some, List, [], ◌∷◌,
  ◌++◌, set, get_elem?, replicate, ◌==◌, if◌then◌else◌,
}
use lab_os_assignment.Outcome.{Outcome, ok, ◌>>=◌, need, uninitialized, out_of_bounds}
use lab_os_assignment.Words.{rounds_to}

-- A row of `_mem_stat`.
pub record MemStat : Type 0 where
  pub proc : ℕ
  pub index : ℕ
  pub next : ℕ

-- `_ram` and `_mem_stat`.
pub record Memory : Type 0 where
  pub ram : List ℕ
  pub mem_stat : List MemStat

-- A row of struct trans_table_t, and the struct.
pub record Row : Type 0 where
  pub v_index : ℕ
  pub p_index : ℕ

pub record TransTable : Type 0 where
  pub table : List Row
  pub size : ℕ

-- A row of struct page_table_t, and the struct.
pub record Segment : Type 0 where
  pub v_index : ℕ
  pub next_lv : Option TransTable

pub record PageTable : Type 0 where
  pub table : List Segment
  pub size : ℕ

-- The part of struct pcb_t that these functions use.
pub record Process : Type 0 where
  pub regs : List ℕ
  pub page_table : PageTable
  pub bp : ℕ

pub init_mem : Memory
init_mem = record {
  ram = replicate (2 ^ 20) 0;
  mem_stat = replicate (2 ^ 10) (record { proc = 0; index = 0; next = 0 });
}

-- `addr & ~((~0U) << OFFSET_LEN)`
pub get_offset : ℕ → ℕ
get_offset addr = bit_and addr (2 ^ 32 - 1 - (2 ^ 32 - 1) * 2 ^ 10 % 2 ^ 32)

pub get_first_lv : ℕ → ℕ
get_first_lv addr = addr / 2 ^ (10 + 5)

pub get_second_lv : ℕ → ℕ
unfolding get_first_lv
get_second_lv addr = (addr / 2 ^ 10 + 2 ^ 32 - get_first_lv addr * 2 ^ 5 % 2 ^ 32) % 2 ^ 32

-- The loop, whose body is empty, and what follows it.
visit_rows : (rounds : ℕ) → Option TransTable
visit_rows zero = none
visit_rows (suc rounds) = visit_rows rounds

pub get_trans_table : (index : ℕ) → PageTable → Option TransTable
unfolding visit_rows
get_trans_table index page_table = visit_rows (rounds_to page_table.size)

-- The loop of `translate`.
find_row : (rounds i : ℕ) → (second_lv : ℕ) → List Row → Outcome ℕ
find_row zero i second_lv table = ok 0
find_row (suc rounds) i second_lv table = do
  row ← need out_of_bounds (get_elem? table i)
  let rest = find_row rounds (i + 1) second_lv table
  if row.v_index == second_lv then ok 1 else rest

-- `*physical_addr` is assigned on no path.
pub translate : (virtual_addr : ℕ) → Process → Outcome ℕ
unfolding get_trans_table find_row get_second_lv get_first_lv
translate virtual_addr proc = elim (get_trans_table (get_first_lv virtual_addr) proc.page_table) [
  | none ↦ ok 0
  | some t ↦ find_row (rounds_to t.size) 0 (get_second_lv virtual_addr) t.table
]

-- `mem_avail` is 0, and nothing assigns it.
pub alloc_mem : (size : ℕ) → Process → ℕ × Process
alloc_mem size proc =
    let num_pages : ℕ = if size % 2 ^ 10 == 0 then size / 2 ^ 10 + 1 else size / 2 ^ 10 in
    let mem_avail : ℕ = 0 in
    if mem_avail == 0
    then (0, proc)
    else (proc.bp, record proc { bp = (proc.bp + num_pages * 2 ^ 10) % 2 ^ 32 })

pub free_mem : (address : ℕ) → Process → ℕ
free_mem address proc = 0

-- `old` is `*data` before the call, where it has a value. Beside the result: `*data` after it.
pub read_mem : (address : ℕ) → Process → (old : Option ℕ) → Memory → Outcome (ℕ × Option ℕ)
unfolding translate
read_mem address proc old m = do
  valid ← translate address proc
  let physical_addr : Option ℕ = none
  let access : Outcome (ℕ × Option ℕ) = do
    a ← need uninitialized physical_addr
    byte ← need out_of_bounds (get_elem? m.ram a)
    ok (0, some byte)
  if valid == 0 then ok (1, old) else access

pub write_mem : (address : ℕ) → Process → (value : ℕ) → Memory → Outcome (ℕ × Memory)
unfolding translate
write_mem address proc value m = do
  valid ← translate address proc
  let physical_addr : Option ℕ = none
  let access : Outcome (ℕ × Memory) = do
    a ← need uninitialized physical_addr
    _ ← need out_of_bounds (get_elem? m.ram a)
    ok (0, record m { ram = set m.ram a value })
  if valid == 0 then ok (1, m) else access

-- A line that `dump` prints.
pub data Line : Type 0 where
  page : (i first last proc index next : ℕ) → Line
  byte : (j value : ℕ) → Line

-- The inner loop.
dump_bytes : (rounds j : ℕ) → Memory → Outcome (List Line)
dump_bytes zero j m = ok []
dump_bytes (suc rounds) j m = do
  b ← need out_of_bounds (get_elem? m.ram j)
  rest ← dump_bytes rounds (j + 1) m
  ok (if b == 0 then rest else byte j b ∷ rest)

dump_pages : (rounds i : ℕ) → Memory → Outcome (List Line)
unfolding dump_bytes
dump_pages zero i m = ok []
dump_pages (suc rounds) i m = do
  s ← need out_of_bounds (get_elem? m.mem_stat i)
  let last : ℕ = (i + 1) * 2 ^ 10 - 1
  bytes ← if s.proc == 0 then ok [] else dump_bytes (last - i * 2 ^ 10) (i * 2 ^ 10) m
  rest ← dump_pages rounds (i + 1) m
  ok (if s.proc == 0 then rest else page i (i * 2 ^ 10) last s.proc s.index s.next ∷ bytes ++ rest)

pub dump : Memory → Outcome (List Line)
unfolding dump_pages
dump m = dump_pages (2 ^ 10) 0 m
