-- ===== src/Program/Main/Starts.antt =====
-- A start of the program on a configuration as Os.Config.RoundTrip writes it.
use lab_os_assignment.Base.{
  ℕ, ◌^◌, ◌<◌, ◌≡◌, refl, sym, ◌∙◌, arith, Option, some, List, [], ◌∷◌, ◌++◌, drop, length,
  get_elem?, get_elem?_lt, All, lt→ltb, subst,
}
use lab_os_assignment.Outcome.{Outcome, ok, Returns, Returns-bind, Returns-ok}
use lab_os_assignment.Device.{Device, init_memphy}
use lab_os_assignment.Device.Frames.{init_memphy-listed}
use lab_os_assignment.Words.{rounds_to_lem}
use lab_os_assignment.Sched.{init_scheduler}
use lab_os_assignment.Sched.Init.{init_scheduler-Returns}
use lab_os_assignment.Os.System.{System, boot}
use lab_os_assignment.Os.Config.{Config}
use lab_os_assignment.Os.Config.RoundTrip.{print_config, IsLine, in_folder, read_config-print}
use lab_os_assignment.Program.Main.{
  Leftover, Begun, runs, input_folder, all_ld_args, init_swaps, start_threads, main,
}
use lab_os_assignment.Program.Returns.{BootArgs, Boots, boot-IsBooted}

init_swaps-Returns : (sizes : List ℕ) (m : Leftover) → Returns (λ ds. Unit) (init_swaps sizes m)
unfolding init_swaps
init_swaps-Returns [] m = tt
init_swaps-Returns (size ∷ sizes) m =
    Returns-bind (λ ds. Unit) (init_memphy m.bytes m.left size 1) _
      (init_memphy-listed m.bytes m.left size 1)
      (λ d p.
        Returns-bind (λ ds. Unit) (init_swaps sizes m) _ (init_swaps-Returns sizes m) (λ ds u. tt))

boot-Returns :
    (b : BootArgs)
    → length b.unset.mlq_ready_queue ≡ 140
    → Returns (λ s. Unit) (boot b.num_cpus b.memramsz b.memswpsz b.bytes b.left b.unset)
unfolding boot
boot-Returns b table =
    Returns-bind (λ s. Unit) (init_memphy b.bytes b.left b.memramsz 1) _
      (init_memphy-listed b.bytes b.left b.memramsz 1)
      (λ ram p.
        Returns-bind (λ s. Unit) (init_memphy b.bytes b.left b.memswpsz 1) _
          (init_memphy-listed b.bytes b.left b.memswpsz 1)
          (λ swp q.
            Returns-bind (λ s. Unit) (init_scheduler b.unset) _
              (init_scheduler-Returns b.unset table) (λ s u. tt)))

abbrev pub boot_args : Config → (size : ℕ) → Leftover → BootArgs
boot_args c size m = record {
  num_cpus = c.num_cpus;
  memramsz = c.memramsz;
  memswpsz = size;
  bytes = m.bytes;
  left = m.left;
  unset = m.unset;
}

-- What main has started: a booted system with the processors and the processes of `c`.
abbrev pub Starts : (files : List ℕ → Option (List ℕ)) → Leftover → Config → Outcome Begun → Type 0
Starts files m c o =
    (first : System) × (size : ℕ) × (o
      ≡ ok (runs c.time_slot (all_ld_args files (in_folder c.ld_processes)) first))
    × (get_elem? c.memswpsz 0 ≡ some size)
    × Boots (boot_args c size m) first
    × (length first.cpus ≡ c.num_cpus)

start_threads-runs :
    (files : List ℕ → Option (List ℕ)) (m : Leftover) (c : Config) (size : ℕ) (spare : List Device)
    (first : System)
    → get_elem? c.memswpsz 0 ≡ some size
    → init_swaps (drop 1 c.memswpsz) m ≡ ok spare
    → Boots (boot_args c size m) first
    → start_threads files m (some c)
      ≡ ok (runs c.time_slot (all_ld_args files c.ld_processes) first)
unfolding start_threads
start_threads-runs files m c size spare first at swaps booted = rw (at, swaps, booted) refl

start_threads-Starts :
    (files : List ℕ → Option (List ℕ)) (m : Leftover) (c : Config)
    → length m.unset.mlq_ready_queue ≡ 140
    → 0 < length c.memswpsz
    → c.num_cpus < 2 ^ 31
    → Starts files m c
        (start_threads files m (some (record c { ld_processes = in_folder c.ld_processes })))
start_threads-Starts files m c table some_swap small =
    let (size, at) = get_elem?_lt c.memswpsz 0 some_swap in
    let (spare, swaps, u) =
      Returns-ok (init_swaps (drop 1 c.memswpsz) m) (init_swaps-Returns (drop 1 c.memswpsz) m) in
    let (first, booted, u') =
      Returns-ok (boot c.num_cpus c.memramsz size m.bytes m.left m.unset)
        (boot-Returns (boot_args c size m) table) in
    (
      first,
      size,
      start_threads-runs files m (record c { ld_processes = in_folder c.ld_processes }) size spare
          first at swaps booted,
      at,
      booted,
      (boot-IsBooted (boot_args c size m) first booted).cpus ∙ rounds_to_lem c.num_cpus small,
    )

pub main-Starts :
    (files : List ℕ → Option (List ℕ)) (m : Leftover) (c : Config) (program name : List ℕ)
    → length m.unset.mlq_ready_queue ≡ 140
    → length (input_folder ++ name) < 100
    → files (input_folder ++ name) ≡ some (print_config c)
    → All (λ n. n < 2 ^ 31) (c.time_slot ∷ c.num_cpus ∷ c.num_processes ∷ c.memramsz ∷ c.memswpsz)
    → length c.memswpsz ≡ 4
    → length c.ld_processes ≡ c.num_processes
    → All IsLine c.ld_processes
    → Starts files m c (main (program ∷ name ∷ []) files m)
unfolding main
main-Starts files m c program name table fits file small four count lines =
    subst (Starts files m c) (sym text)
      (start_threads-Starts files m c table (omega (arith, four)) small.1.0)
  where
    text :
        main (program ∷ name ∷ []) files m
        ≡ start_threads files m (some (record c { ld_processes = in_folder c.ld_processes }))
    text =
        rw
          (
            lt→ltb (length (input_folder ++ name)) 100 fits,
            file,
            read_config-print c m.numbers small four count lines,
          )
          refl
