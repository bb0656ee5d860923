-- ===== src/Legacy/Tests.antt =====
-- A process whose tables have a row each.
use lab_os_assignment.Base.{some, List, replicate, [], ◌∷◌}
use lab_os_assignment.Legacy.{Process}
use lab_os_assignment.Cpu.{Opcode, Inst}
use lab_os_assignment.Legacy.Run.{Fresh}

abbrev process : Process
process = record {
  regs = 70000 ∷ 0 ∷ [];
  page_table = record {
    table =
        record {
          v_index = 2;
          next_lv = some (record { table = record { v_index = 4; p_index = 0 } ∷ []; size = 1 });
        }
        ∷ [];
    size = 1;
  };
  bp = 1024;
}

abbrev writes : List Inst
writes =
    record { opcode = Opcode.alloc; arg_0 = 300; arg_1 = 0; arg_2 = 0 }
    ∷ record { opcode = Opcode.write; arg_0 = 100; arg_1 = 0; arg_2 = 20 }
    ∷ []

abbrev new : Fresh
new = record {
  priority = 0;
  size = 0;
  mem = λ i. record { opcode = Opcode.calc; arg_0 = 7; arg_1 = 7; arg_2 = 7 };
  regs = replicate 10 7;
  page_table = process.page_table;
}
