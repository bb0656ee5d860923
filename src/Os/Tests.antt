-- ===== src/Os/Tests.antt =====
-- A system with one processor and two pages of RAM, and a process of two instructions on a processor.
use lab_os_assignment.Base.{ℕ, ◌+◌, ◌%◌, ◌^◌, ◌≡◌, arith, refl, some, none, [], ◌∷◌, replicate}
use lab_os_assignment.Outcome.{ok, ◌>>=◌}
use lab_os_assignment.Device.{init_memphy}
use lab_os_assignment.Sched.{put_proc, init_scheduler}
use lab_os_assignment.Cpu.{Pcb}
use lab_os_assignment.Cpu.Steps.{run_many}
use lab_os_assignment.Samples.Booted.{unset, booted, instruction, process}
use lab_os_assignment.Samples.{caller, present, swap}
use lab_os_assignment.Os.{CpuState, LdArgs, Fresh}
use lab_os_assignment.Loader.RoundTrip.{print}
use lab_os_assignment.Os.System.{System, boot, start, later, tick, cpu, idle}
use lab_os_assignment.Os.Idle.{IsIdle, cpu_round-idle, never_runs}
use lab_os_assignment.Os.Rounds.{keep, stored, ended}
use lab_os_assignment.Os.Quantum.{cpu_rounds, turn-preempted, turn-finished}

abbrev second_slot : System
second_slot = record booted { time = (0 + 1) % 2 ^ 64 }

-- A time slot and a round of the processor later.
never_runs_example : IsIdle booted second_slot
unfolding boot init_memphy init_scheduler
never_runs_example =
    never_runs {fuel = 0} {time_slot = 2} {processes = []} {s = second_slot} 1 512 512
      (replicate 512 0) swap unset booted refl
      (later {s = second_slot} (later {s = booted} start tick)
        (cpu 0 idle refl (cpu_round-idle 0 2 0 second_slot.machine)))

abbrev pcb : Pcb
pcb = record { pc = 0; text = instruction ∷ instruction ∷ []; caller = caller present }

abbrev busy : (time_left : ℕ) → CpuState
busy time_left = record { proc = some process; time_left = time_left }

turn-preempted_example : cpu_rounds 2 1 2 (busy 1) (keep booted.machine process pcb) ≡ (
    run_many 1 1 pcb >>= λ last. put_proc booted.machine.sched process >>= λ s.
    ok (ended booted.machine.done, idle, record (keep booted.machine process last) { sched = s }))
turn-preempted_example = turn-preempted 1 0 2 booted.machine process pcb (omega arith) (omega arith)

turn-finished_example : cpu_rounds 3 1 2 (busy 2) (keep booted.machine process pcb) ≡ (
    run_many 1 2 pcb >>= λ last.
    ok (ended booted.machine.done, idle, stored booted.machine process none last))
turn-finished_example =
    turn-finished 2 2 0 2 booted.machine process pcb refl (omega arith) (omega arith)

-- The file of a process of one instruction, which is to start in slot 2.
abbrev line : LdArgs
line = record { file = some (print 5 (instruction ∷ [])); start_time = 2; prio = 3 }

abbrev new : ℕ → Fresh
new time = record { priority = 0; size = 0; mem = λ i. instruction; ptes = present ∷ []; syms = [] }
