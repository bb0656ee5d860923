-- ===== src/Samples/Booted.antt =====
-- A system with one processor and two pages of RAM; and a configuration.
use lab_os_assignment.Base.{ℕ, zero, suc, List, ◌^◌, some, none, [], ◌∷◌, replicate, false}
use lab_os_assignment.Chain.{null, node}
use lab_os_assignment.Device.{Device}
use lab_os_assignment.Queue.{Proc, Queue}
use lab_os_assignment.Sched.{Sched}
use lab_os_assignment.Cpu.{Inst, calc}
use lab_os_assignment.Samples.{swap}
use lab_os_assignment.Os.Config.{Config}
use lab_os_assignment.Os.System.{System, idle}

abbrev pub none_yet : Queue
none_yet = record { proc = replicate 10 none; size = 5; time_slot = 5 }

abbrev pub unset : Sched
unset = record {
  mlq_ready_queue = replicate 140 none_yet;
  ready_queue = none_yet;
  run_queue = none_yet;
}

abbrev pub ready : ℕ → List Queue
ready zero = []
ready (suc n) = record none_yet { size = 0; time_slot = suc n } ∷ ready n

abbrev pub formatted : Device
formatted = record swap { storage = replicate 512 0; free_fp_list = node 0 (node 1 null) }

abbrev pub booted : System
booted = record {
  machine = record {
    mram = formatted;
    active_mswp = formatted;
    sched = record {
      mlq_ready_queue = ready 140;
      ready_queue = record none_yet { size = 0 };
      run_queue = record none_yet { size = 0 };
    };
    tasks = λ pid. none;
    done = false;
  };
  cpus = some idle ∷ [];
  ld = some (record { i = 0; proc = none; avail_pid = 1 });
  time = 0;
}

abbrev pub instruction : Inst
instruction = record { opcode = calc; arg_0 = 0; arg_1 = 0; arg_2 = 0 }

abbrev pub process : Proc
process = record { pid = 1; prio = 3 }

-- Two processors and one process, which is to run the file "p".
abbrev pub config : Config
config = record {
  time_slot = 2;
  num_cpus = 2;
  num_processes = 1;
  memramsz = 2 ^ 20;
  memswpsz = 2 ^ 24 ∷ 0 ∷ 0 ∷ 0 ∷ [];
  ld_processes = record { path = b'p' ∷ []; start_time = 4; prio = 130 } ∷ [];
}
