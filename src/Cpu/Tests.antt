-- ===== src/Cpu/Tests.antt =====
-- A process of two instructions.
use lab_os_assignment.Base.{ℕ, refl, set, [], ◌∷◌}
use lab_os_assignment.Chain.{null, wild, node}
use lab_os_assignment.Mm.Shape.{Keeps}
use lab_os_assignment.Vm.{no_region, get_symrg_byid, enlist_vm_freerg_list, free, pgfree_data}
use lab_os_assignment.Cpu
use lab_os_assignment.Cpu.Shape.{run_many-Keeps}
use lab_os_assignment.Cpu.{Inst, Pcb, calc, run, execute}
use lab_os_assignment.Cpu.Steps.{run_many}
use lab_os_assignment.Samples.{area, mm, caller, present}

abbrev idle : Inst
idle = record { opcode = calc; arg_0 = 0; arg_1 = 0; arg_2 = 0 }

abbrev proc : (pc : ℕ) → Pcb
proc pc = record { pc = pc; text = idle ∷ idle ∷ []; caller = caller present }

-- Region 0 is freed by the first instruction.
abbrev frees : Pcb
frees = record (proc 0) {
  text = record { opcode = Cpu.free; arg_0 = 0; arg_1 = 0; arg_2 = 0 } ∷ idle ∷ [];
}

abbrev freed : Pcb
freed = record frees {
  pc = 2;
  caller = record (caller present) {
    mm = record (mm (present ∷ [])) {
      mmap = node (record area { vm_freerg_list = wild }) null;
      symrgtbl = set (mm []).symrgtbl 0 no_region;
    };
  };
}

run_many-Keeps_example : Keeps frees.caller freed.caller
unfolding run_many run execute pgfree_data free get_symrg_byid enlist_vm_freerg_list
run_many-Keeps_example = run_many-Keeps 1 3 frees freed refl
