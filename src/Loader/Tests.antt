-- ===== src/Loader/Tests.antt =====
-- A program of three instructions.
use lab_os_assignment.Base.{ℕ, ◌+◌, ◌%◌, ◌^◌, ◌≡◌, arith, some, List, [], ◌∷◌}
use lab_os_assignment.Outcome.{ok}
use lab_os_assignment.Cpu.{Inst, calc, alloc, read}
use lab_os_assignment.Loader.{page_size, load}
use lab_os_assignment.Loader.RoundTrip.{print, place_all, load-print}

abbrev unset : ℕ → Inst
unset i = record { opcode = calc; arg_0 = 7; arg_1 = 7; arg_2 = 7 }

abbrev three : List Inst
three =
    record { opcode = alloc; arg_0 = 300; arg_1 = 0; arg_2 = 0 }
    ∷ record { opcode = read; arg_0 = 0; arg_1 = 20; arg_2 = 1 }
    ∷ record { opcode = calc; arg_0 = 0; arg_1 = 0; arg_2 = 0 }
    ∷ []

load-print_example :
    load 1 (some (print 2 three)) 0 0 unset
    ≡ ok (
        some (
          record { pid = 1; priority = 2; text = place_all 0 unset three; pc = 0; bp = page_size },
          (1 + 1) % 2 ^ 32,
        ))
load-print_example = load-print 1 2 0 0 three unset (omega arith) (omega arith) (
  (omega arith, omega arith, omega arith),
  ((omega arith, omega arith, omega arith), ((omega arith, omega arith, omega arith), tt)),
)
