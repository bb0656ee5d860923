-- ===== src/Loader/Files.antt =====
-- What the loader makes of other files: unknown names, and a file that ends early.
use lab_os_assignment.Base.{ℕ, zero, suc, ◌≡◌, ◌↔◌, refl, arith, true, some, List, [], ◌∷◌}
use lab_os_assignment.Outcome.{ok}
use lab_os_assignment.Scan.Decimal.{scan_uint-nil, scan_string-nil}
use lab_os_assignment.Cpu.{Opcode, calc, alloc, free, read, write, Inst}
use lab_os_assignment.Loader.{opt, same_text, get_opcode, load_args, load_text}
use lab_os_assignment.Loader.RoundTrip.{get_opcode-opt}

same_text-eq : (cs ds : List ℕ) → same_text cs ds ≡ true → cs ≡ ds
same_text-eq [] [] h = refl
same_text-eq [] (d ∷ ds) h = cc
same_text-eq (c ∷ cs) [] h = cc
same_text-eq (c ∷ cs) (d ∷ ds) h = ground (arith, same_text-eq cs ds)

-- A word is taken for an instruction exactly when it is its name; any other word ends the program.
pub get_opcode-eq : (word : List ℕ) (op : Opcode) → (get_opcode word ≡ some op) ↔ (word ≡ opt op)
unfolding get_opcode
get_opcode-eq word op = (named, λ e. rw e (get_opcode-opt op))
  where
    named : get_opcode word ≡ some op → word ≡ opt op
    named h = ground (
      arith,
      same_text-eq word (opt calc),
      same_text-eq word (opt alloc),
      same_text-eq word (opt free),
      same_text-eq word (opt read),
      same_text-eq word (opt write),
    )

-- Instructions `i`, `i + 1`, … (`rounds` of them), whose arguments are what stands in the memory.
abbrev pub left_over : (rounds i : ℕ) → (ℕ → Inst) → Opcode → List Inst
left_over zero i mem op = []
left_over (suc rounds) i mem op = (record (mem i) { opcode = op }) ∷ left_over rounds (suc i) mem op

load_args-nil : (op : Opcode) (t : Inst) → load_args op t [] ≡ ok (t, [])
unfolding load_args
load_args-nil calc t = refl
load_args-nil alloc t = rw (scan_uint-nil t.arg_0)
load_args-nil free t = rw (scan_uint-nil t.arg_0)
load_args-nil read t = rw (scan_uint-nil t.arg_0)
load_args-nil write t = rw (scan_uint-nil t.arg_0)

-- At the end of the file, with `rounds` instructions to go, the loader reports no error: every one of
-- them gets the name that was read last, and arguments that were never assigned.
pub load_text-nil :
    (rounds i : ℕ) (mem : ℕ → Inst) (op : Opcode)
    → load_text rounds i mem (some (opt op)) [] ≡ ok (some (left_over rounds i mem op))
unfolding load_text
load_text-nil zero i mem op = refl
load_text-nil (suc rounds) i mem op = rw (scan_string-nil 10 (some (opt op))) (
    ground (
      arith,
      get_opcode-opt op,
      load_args-nil op (record (mem i) { opcode = op }),
      load_text-nil rounds (suc i) mem op,
    ))
