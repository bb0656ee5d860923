-- ===== src/Program/Main/Loads.antt =====
-- From the file of a configuration to the ready queues.
use lab_os_assignment.Base.{
  ℕ, ◌^◌, ◌<◌, ◌≤◌, ◌≡◌, refl, true, Option, none, some, List, [], ◌∷◌, ◌++◌, length, get_elem?,
  All,
}
use lab_os_assignment.Outcome.{ok, IfSome}
use lab_os_assignment.Queue.{Queue}
use lab_os_assignment.Queue.Refine.{IsQueue, contents}
use lab_os_assignment.Sched.{Sched}
use lab_os_assignment.Sched.Holds.{Holds, IsTable}
use lab_os_assignment.Os.{LdArgs, Fresh}
use lab_os_assignment.Os.System.{System}
use lab_os_assignment.Os.Config.{Config}
use lab_os_assignment.Os.Config.RoundTrip.{print_config, IsLine, in_folder}
use lab_os_assignment.Os.Lines.{rounds_needed}
use lab_os_assignment.Os.Lines.Queues.{queued, load_all-Holds}
use lab_os_assignment.Os.Lines.Total.{IsLoadable}
use lab_os_assignment.Program.{State, launch, Reach}
use lab_os_assignment.Program.Main.{Leftover, runs, input_folder, all_ld_args, main}
use lab_os_assignment.Program.Main.Starts.{boot_args, main-Starts}
use lab_os_assignment.Program.Ends.{loader_ends}
use lab_os_assignment.Program.Loads.{loads_all}
use lab_os_assignment.Program.Ready.{boot-Holds}

-- The loader has ended, and each ready queue holds the processes of its priority, in the order of the
-- lines and with the numbers of the lines.
pub record IsLoaded (lines : List LdArgs) (q : State) : Type 0 where
  pub ended : q.ld ≡ none
  pub done : q.machine.done ≡ true
  pub table : length q.machine.sched.mlq_ready_queue ≡ 140
  pub queues :
      (prio : ℕ)
      → IfSome
          (λ r. IsQueue r × (contents r ≡ queued prio 1 lines))
          (get_elem? q.machine.sched.mlq_ready_queue prio)

each_queue :
    (lines : List LdArgs) (s : Sched) (prio : ℕ) (o : Option Queue)
    → Holds (λ j. queued j 1 lines) s
    → get_elem? s.mlq_ready_queue prio ≡ o
    → IfSome (λ r. IsQueue r × (contents r ≡ queued prio 1 lines)) o
each_queue lines s prio none h e = tt
each_queue lines s prio (some r) h e = h.queues prio r e

module _ (files : List ℕ → Option (List ℕ)) (m : Leftover) (c : Config) where
  abbrev lines : List LdArgs
  lines = all_ld_args files (in_folder c.ld_processes)

  -- From the file of a configuration in the folder input/ to the ready queues: main starts the
  -- threads, with as many processors as the file states, and from there the threads can take steps
  -- after which the loader has ended and each ready queue holds the processes of its priority, in the
  -- order of the lines. The configuration is one that can be written, its path is below 100 bytes, the
  -- files at its paths in input/proc/ are processes as `print` writes them, with priorities that have
  -- a queue and at most ten of each, and there are fewer than 2^64 time slots to the start of the last.
  pub main-IsLoaded :
      (program name : List ℕ) (fuel : ℕ) (new : ℕ → Fresh)
      → IsTable m.unset
      → length (input_folder ++ name) < 100
      → files (input_folder ++ name) ≡ some (print_config c)
      → All (λ n. n < 2 ^ 31) (c.time_slot ∷ c.num_cpus ∷ c.num_processes ∷ c.memramsz ∷ c.memswpsz)
      → length c.memswpsz ≡ 4
      → length c.ld_processes ≡ c.num_processes
      → All IsLine c.ld_processes
      → All IsLoadable lines
      → ((prio : ℕ) → length (queued prio 1 lines) ≤ 10)
      → rounds_needed lines 0 < 2 ^ 64
      → (first : System) × (main (program ∷ name ∷ []) files m ≡ ok (runs c.time_slot lines first))
        × (length first.cpus ≡ c.num_cpus)
        × (q : State) × Reach fuel c.time_slot lines new (launch first) q
        × IsLoaded lines q
  main-IsLoaded program name fuel new table fits file small four count all loadable room in_time =
      let (first, size, started, at, boots, cpus) =
        main-Starts files m c program name table.0 fits file small four count all in
      let (q, reached, ended, early) =
        loader_ends (boot_args c size m) first boots fuel c.time_slot lines new table loadable room
          in_time in
      let (n, loaded) = loads_all (boot_args c size m) first boots reached early ended in
      let (holds, set) =
        load_all-Holds lines 0 new 1 n first.machine q.machine
          (boot-Holds (boot_args c size m) first boots table) loaded in
      (
        first,
        started,
        cpus,
        q,
        reached,
        record {
          ended = ended;
          done = set;
          table = holds.table;
          queues = λ prio.
              each_queue lines q.machine.sched prio (get_elem? q.machine.sched.mlq_ready_queue prio)
                holds refl;
        },
      )
