-- ===== src/Program/Tests.antt =====
-- The program of Samples.Finished; and its start.
use lab_os_assignment.Base.{
  ℕ, ◌≤◌, ◌<◌, inl, inr, All, if◌then◌else◌, Bool-cases, ◌==◌, get_elem?, get_elem?-replicate,
  length, ap, Option, ◌%◌, ◌^◌, ◌≡◌, ◌≢◌, arith, refl, some, none, List, [], ◌∷◌, true,
}
use lab_os_assignment.Outcome.{ok}
use lab_os_assignment.Queue.{Queue}
use lab_os_assignment.Samples.{swap}
use lab_os_assignment.Samples.Booted.{none_yet, none_yet, unset, booted, config}
use lab_os_assignment.Os.System
use lab_os_assignment.Os.System.{System, boot, idle}
use lab_os_assignment.Os.Lines.{load_all}
use lab_os_assignment.Timer
use lab_os_assignment.Timer.{
  working, waiting, gone, next_slot, end_wait, detach_event, exited, Timer, fresh, started,
  start_timer, attach_many, attach_event, current_time, timer_routine,
}
use lab_os_assignment.Program.{State, joins_cpu, Reach}
use lab_os_assignment.Program.Returns.{never_returns}
use lab_os_assignment.Program.Ends.{loader_ends}
use lab_os_assignment.Sched.Holds.{IsTable}
use lab_os_assignment.Os.Lines.Total.{IsLoadable}
use lab_os_assignment.Os.Config.RoundTrip.{print_config, in_folder}
use lab_os_assignment.Program.Main.{Leftover, runs, all_ld_args, main}
use lab_os_assignment.Program.Main.Loads.{IsLoaded, main-IsLoaded}
use lab_os_assignment.Loader.RoundTrip.{print}
use lab_os_assignment.Os.{LdArgs}
use lab_os_assignment.Program.{launch}
use lab_os_assignment.Program.Main.Starts.{Starts}
use lab_os_assignment.Program.Ready.{ready_queues}
use lab_os_assignment.Queue.Refine.{IsQueue, contents}
use lab_os_assignment.Os.Lines.Queues.{queued}
use lab_os_assignment.Program.Loads.{loads_all}
use lab_os_assignment.Device.Shape.{KeepsDevice}
use lab_os_assignment.Program.Frames.{Reach-devices}
use lab_os_assignment.Samples.Busy.{busy, released, released-Reach}
use lab_os_assignment.Samples.Finished.{
  args, boots, calculates, new, first, line, finished, finished-Reach,
}

never_returns_example : (finished.main ≡ joins_cpu 0) × (finished.timer.pc ≢ exited)
never_returns_example = never_returns args booted boots finished-Reach (omega arith)

slots : IsTable unset
slots =
    (refl, λ j q at. ap (λ (x : Queue). length x.proc) (get_elem?-replicate 140 j none_yet q at))

line-IsLoadable : IsLoadable line
line-IsLoadable = record {
  priority = 5;
  text = calculates;
  file = refl;
  small = (omega arith, omega arith);
  arguments = ((omega arith, omega arith, omega arith), tt);
  queue = omega arith;
}

one_process : (prio : ℕ) → length (queued prio 1 (line ∷ [])) ≤ 10
one_process prio = elim (Bool-cases (3 % 2 ^ 32 == prio)) [
  | inl here ↦ rw here (omega arith)
  | inr away ↦ rw away (omega arith)
]

loads_all_example :
    (n : ℕ) × (load_all (line ∷ []) 0 new 1 booted.machine ≡ ok (some (n, finished.machine)))
unfolding started start_timer
loads_all_example = loads_all args booted boots finished-Reach (omega arith) refl

abbrev files : List ℕ → Option (List ℕ)
files path = some (print_config config)

abbrev memory : Leftover
memory = record { numbers = λ i. (0, 0); bytes = []; left = swap; unset = unset }

config-small :
    All
      (λ n. n < 2 ^ 31)
      (config.time_slot ∷ config.num_cpus ∷ config.num_processes ∷ config.memramsz
        ∷ config.memswpsz)
config-small = (
  omega arith,
  (
    omega arith,
    (omega arith, (omega arith, (omega arith, (omega arith, (omega arith, (omega arith, tt)))))),
  ),
)

-- The configuration is in input/c, and its process in input/proc/p.
abbrev two_files : List ℕ → Option (List ℕ)
two_files path = if length path == 7 then some (print_config config) else some (print 5 calculates)

abbrev to_load : List LdArgs
to_load = all_ld_args two_files (in_folder config.ld_processes)

process-IsLoadable : All IsLoadable to_load
process-IsLoadable = (
  record {
    priority = 5;
    text = calculates;
    file = refl;
    small = (omega arith, omega arith);
    arguments = ((omega arith, omega arith, omega arith), tt);
    queue = omega arith;
  },
  tt,
)

one_to_load : (prio : ℕ) → length (queued prio 1 to_load) ≤ 10
one_to_load prio = elim (Bool-cases (130 % 2 ^ 32 == prio)) [
  | inl here ↦ rw here (omega arith)
  | inr away ↦ rw away (omega arith)
]

main-IsLoaded_example :
    (begun : System) × (main ([] ∷ (b'c' ∷ []) ∷ []) two_files memory ≡ ok (runs 2 to_load begun))
    × (length begun.cpus ≡ 2)
    × (q : State) × Reach 0 2 to_load new (launch begun) q
    × IsLoaded to_load q
main-IsLoaded_example =
    main-IsLoaded two_files memory config [] (b'c' ∷ []) 0 new slots (omega arith) refl config-small
      refl refl ((((refl, tt), omega arith), omega arith, omega arith), tt) process-IsLoadable
      one_to_load (omega arith)

ready_queues_example :
    (q : Queue) × (get_elem? finished.machine.sched.mlq_ready_queue 3 ≡ some q)
    × IsQueue q
    × (contents q ≡ queued 3 1 (line ∷ []))
    × (finished.machine.done ≡ true)
unfolding started start_timer
ready_queues_example =
    ready_queues args booted boots slots finished-Reach (omega arith) refl 3 (omega arith)

loader_ends_example :
    (q : State) × Reach 0 2 (line ∷ []) new first q × (q.ld ≡ none) × (q.timer.rounds < 2 ^ 64)
loader_ends_example =
    loader_ends args booted boots 0 2 (line ∷ []) new slots (line-IsLoadable, tt) one_process
      (omega arith)

Reach-devices_example :
    KeepsDevice busy.machine.mram released.machine.mram
    × KeepsDevice busy.machine.active_mswp released.machine.active_mswp
Reach-devices_example = Reach-devices released-Reach
