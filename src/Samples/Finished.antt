-- ===== src/Samples/Finished.antt =====
-- A program with one processor and one process, until its loader has ended.
use lab_os_assignment.Base.{
  ℕ, ◌+◌, ◌%◌, ◌^◌, ◌≡◌, arith, refl, some, none, List, [], ◌∷◌, replicate, set, false, true,
}
use lab_os_assignment.Outcome.{ok}
use lab_os_assignment.Device.{init_memphy}
use lab_os_assignment.Sched.{init_scheduler, add_proc}
use lab_os_assignment.Queue.{enqueue}
use lab_os_assignment.Mm.{init_mm}
use lab_os_assignment.Cpu.{Inst}
use lab_os_assignment.Loader.{load, page_size}
use lab_os_assignment.Loader.RoundTrip.{print, load-print}
use lab_os_assignment.Samples.{swap}
use lab_os_assignment.Samples.Booted.{
  none_yet, none_yet, unset, ready, booted, instruction, process,
}
use lab_os_assignment.Os.Loading.{ld_round-due}
use lab_os_assignment.Os.{Machine, waits, put_task, ld_round, LdArgs, Fresh}
use lab_os_assignment.Os.System.{boot, idle}
use lab_os_assignment.Os.Idle.{cpu_round-idle}
use lab_os_assignment.Os.Lines.{at_line}
use lab_os_assignment.Timer.{
  working, waiting, gone, next_slot, end_wait, detach_event, fresh, started, start_timer,
  attach_many, attach_event, current_time, timer_routine,
}
use lab_os_assignment.Program.{
  State, launch, Reach, runs_cpu, runs_loader, resumes, turns, start, later,
}
use lab_os_assignment.Program.Returns.{BootArgs, Boots}

abbrev pub args : BootArgs
args = record {
  num_cpus = 1;
  memramsz = 512;
  memswpsz = 512;
  bytes = replicate 512 0;
  left = swap;
  unset = unset;
}

pub boots : Boots args booted
unfolding boot init_memphy init_scheduler
boots = refl

abbrev pub calculates : List Inst
calculates = instruction ∷ []

abbrev pub new : ℕ → Fresh
new time = record { priority = 0; size = 0; mem = λ i. instruction; ptes = []; syms = [] }

abbrev pub first : State
first = launch booted

abbrev pub line : LdArgs
line = record { file = some (print 5 calculates); start_time = 0; prio = 3 }

pub file_loads :
    load 1 line.file 0 0 (λ i. instruction)
    ≡ ok (
        some (
          record { pid = 1; priority = 5; text = calculates; pc = 0; bp = page_size },
          (1 + 1) % 2 ^ 32,
        ))
file_loads =
    load-print 1 5 0 0 calculates (λ i. instruction) (omega arith) (omega arith)
      ((omega arith, omega arith, omega arith), tt)

-- The process is in the queue of its priority.
abbrev pub arrived : Machine
arrived = record (booted.machine) {
  sched = record (booted.machine.sched) {
    mlq_ready_queue =
        set (ready 140) 3
          (record none_yet { proc = some process ∷ replicate 9 none; size = 1; time_slot = 137 });
  };
  tasks =
      (put_task booted.machine 1
        (some (record { text = calculates; pc = 0; mm = init_mm [] [] }))).tasks;
}

pub first_round :
    ld_round (line ∷ []) 0 (new 0) (at_line 0 1) booted.machine
    ≡ ok (some (waits, at_line 1 2, arrived))
unfolding add_proc enqueue
first_round =
    ld_round-due (line ∷ []) line 0 (new 0) (at_line 0 1) _ 2 booted.machine refl refl file_loads
      (omega arith)

-- One time slot later the loader has ended.
abbrev pub finished : State
finished = record first {
  machine = record arrived { done = true };
  ld = none;
  timer = record (first.timer) {
    dev_list =
        record { done = false; fsh = true; pc = gone; slots = 1 }
        ∷ record { done = false; fsh = false; pc = waiting; slots = 0 }
        ∷ [];
    time = 1;
    rounds = 1;
  };
}

pub finished-Reach : Reach 0 2 (line ∷ []) new first finished
unfolding started start_timer attach_many attach_event current_time timer_routine next_slot end_wait
    detach_event ld_round
finished-Reach =
    later
      (later
        (later
          (later
            (later
              (later
                (later
                  (later
                    (later
                      (later
                        (later
                          (later
                            (later start (
                              runs_cpu 0 idle fresh refl refl refl
                                (cpu_round-idle 0 2 0 booted.machine)))
                            (runs_loader (at_line 0 1) fresh refl refl refl first_round))
                          (turns refl))
                        (turns refl))
                      (turns refl))
                    (turns refl))
                  (turns refl))
                (turns refl))
              (turns refl))
            (turns refl))
          (turns refl))
        (resumes 0 (record { done = false; fsh = false; pc = waiting; slots = 0 }) refl refl refl))
      (runs_loader (at_line 1 2) (record { done = false; fsh = false; pc = working; slots = 1 })
        refl refl refl refl)
