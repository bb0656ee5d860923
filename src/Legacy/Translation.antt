-- ===== src/Legacy/Translation.antt =====
-- Virtual addresses in src/mem.c, and what the calls of the memory without paging come to.
use lab_os_assignment.Base.{
  ℕ, zero, suc, ◌+◌, ◌*◌, ◌/◌, ◌%◌, ◌^◌, ◌<◌, ◌≤◌, ◌≡◌, refl, ap, arith, Option, none, some, [],
  get_elem?, get_elem?_lt, get_elem?-replicate, length, length-replicate,
}
use lab_os_assignment.Outcome.{ok, fault, uninitialized}
use lab_os_assignment.Bits.{and-ones}
use lab_os_assignment.Words.{rounds_to}
use lab_os_assignment.Legacy.{
  MemStat, Memory, PageTable, Process, init_mem, get_offset, get_first_lv, get_second_lv,
  visit_rows, get_trans_table, translate, alloc_mem, read_mem, write_mem, dump_pages, dump,
}
use lab_os_assignment.Legacy.Calls.{alloc, read, write}

-- The three parts of a 32-bit address make it up again; the offset has ten bits and
-- the second index five.
pub address_parts :
    (addr : ℕ)
    → addr < 2 ^ 32
    → (get_first_lv addr * 2 ^ 15 + get_second_lv addr * 2 ^ 10 + get_offset addr ≡ addr)
      × (get_offset addr < 2 ^ 10)
      × (get_second_lv addr < 2 ^ 5)
unfolding get_offset get_first_lv get_second_lv
address_parts addr small =
    let offset : get_offset addr ≡ addr % 2 ^ 10 = and-ones 10 addr in
    let second : get_second_lv addr ≡ addr / 2 ^ 10 % 2 ^ 5 = omega arith in
    (omega arith, omega arith, omega arith)

visit_rows-none : (rounds : ℕ) → visit_rows rounds ≡ none
unfolding visit_rows
visit_rows-none zero = refl
visit_rows-none (suc rounds) = visit_rows-none rounds

get_trans_table-none : (index : ℕ) (t : PageTable) → get_trans_table index t ≡ none
unfolding get_trans_table
get_trans_table-none index t = visit_rows-none (rounds_to t.size)

translate-zero : (address : ℕ) (proc : Process) → translate address proc ≡ ok 0
unfolding translate
translate-zero address proc =
    rw (get_trans_table-none (get_first_lv address) proc.page_table, translate)

-- Whatever the tables hold, no address is valid: reading and writing fail and change nothing, and no
-- memory is allocated.
pub accesses_fail :
    (address size value : ℕ) (old : Option ℕ) (proc : Process) (m : Memory)
    → (read_mem address proc old m ≡ ok (1, old))
      × (write_mem address proc value m ≡ ok (1, m))
      × (alloc_mem size proc ≡ (0, proc))
unfolding read_mem write_mem alloc_mem
accesses_fail address size value old proc m =
    (rw (translate-zero address proc), rw (translate-zero address proc), refl)

-- For registers in range the instructions behave differently on the failure: `alloc` and `write`
-- report it, but `read` takes it for a success and stores a byte that nothing has assigned.
pub read-uninitialized :
    (proc : Process) (value reg offset destination size : ℕ) (m : Memory)
    → reg < length proc.regs
    → (alloc proc size destination ≡ ok (1, proc))
      × (write proc value reg offset m ≡ ok (1, m))
      × (read proc reg offset destination m ≡ fault uninitialized)
unfolding alloc write read
read-uninitialized proc value reg offset destination size m inside =
    let (base, e) = get_elem?_lt proc.regs reg inside in
    let address = (base + offset) % 2 ^ 32 in
    let fails = accesses_fail address size value none proc m in
    (rw fails.2, rw (e, fails.1), rw (e, fails.0))

unused_pages :
    (rounds i : ℕ) (m : Memory)
    → i + rounds ≤ length m.mem_stat
    → ((j : ℕ) (s : MemStat) → get_elem? m.mem_stat j ≡ some s → s.proc ≡ 0)
    → dump_pages rounds i m ≡ ok []
unfolding dump_pages
unused_pages zero i m fits unused = refl
unused_pages (suc rounds) i m fits unused =
    let (s, e) = get_elem?_lt m.mem_stat i (omega arith) in
    rw (e, unused i s e, unused_pages rounds (i + 1) m (omega arith) unused)

-- Nothing is printed of a memory that has just been set up.
pub init_mem-dump : dump init_mem ≡ ok []
unfolding dump init_mem
init_mem-dump =
    unused_pages (2 ^ 10) 0 init_mem (omega (arith, length-replicate (2 ^ 10) unused))
      (λ j s e. ap (λ (x : MemStat). x.proc) (get_elem?-replicate (2 ^ 10) j unused s e))
  where
    unused : MemStat
    unused = record { proc = 0; index = 0; next = 0 }
