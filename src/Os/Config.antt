-- ===== src/Os/Config.antt =====
-- The configuration file: read_config of src/os.c, with MLQ_SCHED and MM_PAGING. `malloc` returns
-- memory for whatever number of processes the file states.
pub mod RoundTrip
use lab_os_assignment.Base.{
  ℕ, zero, suc, ◌+◌, Bool, Option, none, some, List, [], ◌∷◌, ◌++◌, length, ltb, if◌then◌else◌,
}
use lab_os_assignment.Outcome.{Outcome, ok, fault, ◌>>=◌, need, uninitialized, out_of_bounds}
use lab_os_assignment.Words.{rounds_to}
use lab_os_assignment.Scan.{skip_space, scan_int, scan_ulong, scan_string, next_of, space_if}

-- A column of struct ld_args.
pub record Line : Type 0 where
  pub path : List ℕ
  pub start_time : ℕ
  pub prio : ℕ

-- The variables that read_config assigns.
pub record Config : Type 0 where
  pub time_slot : ℕ
  pub num_cpus : ℕ
  pub num_processes : ℕ
  pub memramsz : ℕ
  pub memswpsz : List ℕ
  pub ld_processes : List Line

-- "input/proc/"
abbrev pub folder : List ℕ
folder = b'i' ∷ b'n' ∷ b'p' ∷ b'u' ∷ b't' ∷ b'/' ∷ b'p' ∷ b'r' ∷ b'o' ∷ b'c' ∷ b'/' ∷ []

-- `strcat` into an array of 100 bytes.
abbrev pub strcat : List ℕ → List ℕ → Outcome (List ℕ)
strcat s t = if ltb (length (s ++ t)) 100 then ok (s ++ t) else fault out_of_bounds

-- The loop over PAGING_MAX_MMSWP; the sizes are static, so they are 0 before.
read_sizes : (rounds : ℕ) → List ℕ → Outcome (List ℕ × List ℕ)
read_sizes zero input = ok ([], input)
read_sizes (suc rounds) input = do
  (_, size, input) ← scan_int 0 input
  (sizes, input) ← read_sizes rounds input
  ok (size ∷ sizes, input)

-- The loop over the processes. `mem` is what `malloc` returns for the two arrays of numbers.
read_lines : (rounds i : ℕ) → (mem : ℕ → ℕ × ℕ) → List ℕ → Outcome (List Line)
read_lines zero i mem input = ok []
read_lines (suc rounds) i mem input = do
  (first, start_time, input) ← scan_ulong (mem i).0 input
  (second, proc, input) ← next_of first none (scan_string 100) (space_if first input)
  (third, prio, input) ← next_of second (mem i).1 scan_ulong (space_if second input)
  name ← need uninitialized proc
  path ← strcat folder name
  rest ← read_lines rounds (i + 1) mem (space_if third input)
  ok (record { path = path; start_time = start_time; prio = prio } ∷ rest)

-- `none` is `exit(1)`.
pub read_config : (file : Option (List ℕ)) → (mem : ℕ → ℕ × ℕ) → Outcome (Option Config)
unfolding read_sizes read_lines
read_config none mem = ok none
read_config (some input) mem = do
  (first, time_slot, input) ← scan_int 0 input
  (second, num_cpus, input) ← next_of first 0 scan_int (space_if first input)
  (third, num_processes, input) ← next_of second 0 scan_int (space_if second input)
  (fourth, memramsz, input) ← scan_int 0 (space_if third input)
  (memswpsz, input) ← read_sizes 4 (space_if fourth input)
  ld_processes ← read_lines (rounds_to num_processes) 0 mem (skip_space input)
  ok (
      some (record {
        time_slot = time_slot;
        num_cpus = num_cpus;
        num_processes = num_processes;
        memramsz = memramsz;
        memswpsz = memswpsz;
        ld_processes = ld_processes;
      }))
