-- ===== src/Loader.antt =====
-- The loader of src/loader.c: a process from the bytes of its file.
pub mod RoundTrip
pub mod Files
mod Tests
use lab_os_assignment.Base.{
  ℕ, zero, suc, ◌+◌, ◌%◌, ◌^◌, Bool, true, false, ◌&&◌, Option, none, some, List, [], ◌∷◌, ◌==◌,
  if◌then◌else◌,
}
use lab_os_assignment.Outcome.{Outcome, ok, ◌>>=◌, need, uninitialized}
use lab_os_assignment.Scan.{scan_uint, scan_string, next_of, space_if}
use lab_os_assignment.Cpu.{Opcode, calc, alloc, free, read, write, Inst}

-- The part of struct pcb_t that `load` assigns; `code->size` is the length of `text`.
pub record Program : Type 0 where
  pub pid : ℕ
  pub priority : ℕ
  pub text : List Inst
  pub pc : ℕ
  pub bp : ℕ

-- OPT_CALC to OPT_WRITE.
abbrev pub opt : Opcode → List ℕ
opt calc = b'c' ∷ b'a' ∷ b'l' ∷ b'c' ∷ []
opt alloc = b'a' ∷ b'l' ∷ b'l' ∷ b'o' ∷ b'c' ∷ []
opt free = b'f' ∷ b'r' ∷ b'e' ∷ b'e' ∷ []
opt read = b'r' ∷ b'e' ∷ b'a' ∷ b'd' ∷ []
opt write = b'w' ∷ b'r' ∷ b'i' ∷ b't' ∷ b'e' ∷ []

-- `!strcmp`
abbrev pub same_text : List ℕ → List ℕ → Bool
same_text [] [] = true
same_text [] (d ∷ ds) = false
same_text (c ∷ cs) [] = false
same_text (c ∷ cs) (d ∷ ds) = c == d && same_text cs ds

-- `none` is `exit(1)`, here and below.
unfoldable pub get_opcode : List ℕ → Option Opcode
get_opcode word =
    if same_text word (opt calc)
    then some calc
    else if same_text word (opt alloc)
    then some alloc
    else if same_text word (opt free)
    then some free
    else if same_text word (opt read)
    then some read
    else if same_text word (opt write)
    then some write
    else none

-- The switch of `load`: the arguments of an instruction. Those that are not read stay as they are.
pub load_args : Opcode → Inst → List ℕ → Outcome (Inst × List ℕ)
load_args calc t input = ok (t, input)
load_args alloc t input = do
  (first, a, input) ← scan_uint t.arg_0 input
  (second, b, input) ← next_of first t.arg_1 scan_uint (space_if first input)
  ok (record t { arg_0 = a; arg_1 = b }, space_if second input)
load_args free t input = do
  (first, a, input) ← scan_uint t.arg_0 input
  ok (record t { arg_0 = a }, space_if first input)
load_args read t input = do
  (first, a, input) ← scan_uint t.arg_0 input
  (second, b, input) ← next_of first t.arg_1 scan_uint (space_if first input)
  (third, c, input) ← next_of second t.arg_2 scan_uint (space_if second input)
  ok (record t { arg_0 = a; arg_1 = b; arg_2 = c }, space_if third input)
load_args write t input = do
  (first, a, input) ← scan_uint t.arg_0 input
  (second, b, input) ← next_of first t.arg_1 scan_uint (space_if first input)
  (third, c, input) ← next_of second t.arg_2 scan_uint (space_if second input)
  ok (record t { arg_0 = a; arg_1 = b; arg_2 = c }, space_if third input)

-- The loop of `load`. `mem` is what `malloc` returns for `text`, by index; `opcode` is the array of
-- that name, which keeps its text when nothing is left to read.
pub load_text :
    (rounds i : ℕ) (mem : ℕ → Inst) (opcode : Option (List ℕ)) (input : List ℕ)
    → Outcome (Option (List Inst))
load_text zero i mem opcode input = ok (some [])
load_text (suc rounds) i mem opcode input = do
  (_, opcode, input) ← scan_string 10 opcode input
  word ← need uninitialized opcode
  elim (get_opcode word) [
    | none ↦ ok none
    | some op ↦ do
      (t, input) ← load_args op (record (mem i) { opcode = op }) input
      rest ← load_text rounds (suc i) mem opcode input
      ok (elim rest [ none ↦ none | some ts ↦ some (t ∷ ts) ])
  ]

-- PAGE_SIZE of include/common.h
abbrev pub page_size : ℕ
page_size = 2 ^ 10

-- `file` is NULL where the file cannot be opened; `priority` and `size` are what `malloc` leaves in
-- the fields of these names. Beside the process: `avail_pid`.
pub load :
    (avail_pid : ℕ) (file : Option (List ℕ)) (priority size : ℕ) (mem : ℕ → Inst)
    → Outcome (Option (Program × ℕ))
unfolding load_text load_args
load avail_pid none priority size mem = ok none
load avail_pid (some bytes) priority size mem = do
  (first, priority, input) ← scan_uint priority bytes
  (_, size, input) ← next_of first size scan_uint (space_if first input)
  text ← load_text size 0 mem none input
  ok (elim text [
    | none ↦ none
    | some ts ↦ some (
      record { pid = avail_pid; priority = priority; text = ts; pc = 0; bp = page_size },
      (avail_pid + 1) % 2 ^ 32,
    )
  ])
