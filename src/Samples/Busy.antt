-- ===== src/Samples/Busy.antt =====
-- A program whose processor holds a process that frees a region; and the round in which it does so.
use lab_os_assignment.Base.{ℕ, ◌≡◌, arith, refl, ap, ◌∙◌, some, [], ◌∷◌, set}
use lab_os_assignment.Outcome.{ok, ◌>>=◌}
use lab_os_assignment.Chain.{null, wild, node}
use lab_os_assignment.Vm.{no_region, get_symrg_byid, enlist_vm_freerg_list, free, pgfree_data}
use lab_os_assignment.Cpu.{Inst, Pcb, execute, run}
use lab_os_assignment.Cpu
use lab_os_assignment.Samples.{area, mm, caller, present}
use lab_os_assignment.Samples.Booted.{booted, process}
use lab_os_assignment.Samples.Finished.{new, first}
use lab_os_assignment.Os.{CpuState, waits, cpu_round}
use lab_os_assignment.Os.Rounds.{keep, round_runs}
use lab_os_assignment.Timer.{fresh, next_slot, started, start_timer, attach_many, attach_event}
use lab_os_assignment.Program.{State, Reach, runs_cpu, start, later}

abbrev pub frees : Pcb
frees = record {
  pc = 0;
  text = record { opcode = Cpu.free; arg_0 = 0; arg_1 = 0; arg_2 = 0 } ∷ [];
  caller = caller present;
}

abbrev pub freed : Pcb
freed = record frees {
  pc = 1;
  caller = record (caller present) {
    mm = record (mm (present ∷ [])) {
      mmap = node (record area { vm_freerg_list = wild }) null;
      symrgtbl = set (mm []).symrgtbl 0 no_region;
    };
  };
}

pub run-frees : run 1 frees ≡ ok (0, freed)
unfolding run execute pgfree_data free get_symrg_byid enlist_vm_freerg_list
run-frees = refl

abbrev holds : (time_left : ℕ) → CpuState
holds time_left = record { proc = some process; time_left = time_left }

abbrev pub busy : State
busy = record first { machine = keep booted.machine process frees; cpus = some (holds 2) ∷ [] }

abbrev pub released : State
released = record busy {
  machine = keep booted.machine process freed;
  cpus = some (holds 1) ∷ [];
  timer = record (busy.timer) { dev_list = set busy.timer.dev_list 1 (next_slot fresh) };
}

busy_round :
    cpu_round 1 2 (holds 2) busy.machine ≡ ok (waits, holds 1, keep booted.machine process freed)
busy_round =
    round_runs 1 2 1 booted.machine process frees (omega arith) (omega arith)
    ∙ ap (λ r. r >>= λ x. ok (waits, holds 1, keep booted.machine process x.1)) run-frees

pub released-Reach : Reach 0 2 [] new busy released
unfolding started start_timer attach_many attach_event
released-Reach = later start (runs_cpu 0 (holds 2) fresh refl refl refl busy_round)
