-- ===== src/Program/Main.antt =====
-- What `main` of src/os.c does before its threads run: the arguments, the configuration, the devices
-- and the scheduler. The functions of <stdio.h> are the parameter `files`, the bytes behind a path.
pub mod Starts
pub mod Loads
use lab_os_assignment.Base.{
  ℕ, Option, none, some, List, [], ◌∷◌, drop, length, get_elem?, ◌==◌, if◌then◌else◌,
}
use lab_os_assignment.Outcome.{Outcome, ok, ◌>>=◌, need, out_of_bounds}
use lab_os_assignment.Device.{Device, init_memphy}
use lab_os_assignment.Sched.{Sched}
use lab_os_assignment.Os.{LdArgs}
use lab_os_assignment.Os.System.{System, boot}
use lab_os_assignment.Os.Config.{Line, Config, strcat, read_config}

-- What the memory holds before the program writes to it: the arrays of numbers of read_config, a
-- `storage`, a struct memphy_struct on the stack, and the static queues.
pub record Leftover : Type 0 where
  pub numbers : ℕ → ℕ × ℕ
  pub bytes : List ℕ
  pub left : Device
  pub unset : Sched

-- The program ends with a status, or its threads run with a time slot and processes to load.
pub data Begun : Type 0 where
  exits : (status : ℕ) → Begun
  runs : (time_slot : ℕ) (processes : List LdArgs) (first : System) → Begun

-- "input/"
abbrev pub input_folder : List ℕ
input_folder = b'i' ∷ b'n' ∷ b'p' ∷ b'u' ∷ b't' ∷ b'/' ∷ []

-- A column of struct ld_args with the file that `load` will find at its path.
abbrev pub ld_args : (files : List ℕ → Option (List ℕ)) → Line → LdArgs
ld_args files l = record { file = files l.path; start_time = l.start_time; prio = l.prio }

abbrev pub all_ld_args : (files : List ℕ → Option (List ℕ)) → List Line → List LdArgs
all_ld_args files [] = []
all_ld_args files (l ∷ ls) = ld_args files l ∷ all_ld_args files ls

-- The swap devices behind the first, which no process uses.
init_swaps : List ℕ → Leftover → Outcome (List Device)
init_swaps [] m = ok []
init_swaps (size ∷ sizes) m = do
  mswp ← init_memphy m.bytes m.left size 1
  rest ← init_swaps sizes m
  ok (mswp ∷ rest)

-- main from read_config on.
start_threads : (files : List ℕ → Option (List ℕ)) → Leftover → Option Config → Outcome Begun
unfolding init_swaps
start_threads files m none = ok (exits 1)
start_threads files m (some c) = do
  size ← need out_of_bounds (get_elem? c.memswpsz 0)
  _ ← init_swaps (drop 1 c.memswpsz) m
  first ← boot c.num_cpus c.memramsz size m.bytes m.left m.unset
  ok (runs c.time_slot (all_ld_args files c.ld_processes) first)

unfoldable pub main :
    (argv : List (List ℕ)) → (files : List ℕ → Option (List ℕ)) → Leftover → Outcome Begun
unfolding start_threads
main argv files m =
    if length argv == 2
    then (do
      name ← need out_of_bounds (get_elem? argv 1)
      path ← strcat input_folder name
      config ← read_config (files path) m.numbers
      start_threads files m config)
    else ok (exits 1)
