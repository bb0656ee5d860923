-- ===== src/Legacy/Reads.antt =====
-- What src/paging.c comes to: the memory without paging gives out nothing, so that only reads matter.
use lab_os_assignment.Base.{
  ℕ, ◌<◌, ◌≡◌, Bool, true, false, List, [], ◌∷◌, length, drop, if◌then◌else◌,
}
use lab_os_assignment.Cpu.{Opcode, calc, alloc, free, read, write, Inst}
use lab_os_assignment.Loader.RoundTrip.{place_all}
use lab_os_assignment.Legacy.Calls
use lab_os_assignment.Legacy.Run.{Pcb}

abbrev pub is_read : Opcode → Bool
is_read calc = false
is_read alloc = false
is_read free = false
is_read read = true
is_read write = false

abbrev pub has_read : List Inst → Bool
has_read [] = false
has_read (t ∷ ts) = if is_read t.opcode then true else has_read ts

-- The register that the instruction reads is one of the ten.
abbrev pub InRange : Opcode → Inst → Type 0
InRange calc t = Unit
InRange alloc t = Unit
InRange free t = t.arg_0 < 10
InRange read t = t.arg_0 < 10
InRange write t = t.arg_1 < 10

-- What the instructions return that are not reads.
abbrev result : Opcode → ℕ
result calc = 0
result alloc = 1
result free = 0
result read = 0
result write = 1

-- A process that stands before `ts`, which have been loaded into slots from `i` on.
record Before (i : ℕ) (mem : ℕ → Inst) (ts : List Inst) (p : Pcb) : Type 0 where
  pub left : drop p.pc p.text ≡ place_all i mem ts
  pub regs : length p.process.regs ≡ 10
