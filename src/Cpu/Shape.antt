-- ===== src/Cpu/Shape.antt =====
-- What the instructions of a process keep of its memory.
use lab_os_assignment.Base.{ℕ, ◌≡◌}
use lab_os_assignment.Outcome.{ok, OnResult-ok}
use lab_os_assignment.Mm.Shape.{Keeps, Keeps-refl}
use lab_os_assignment.Vm.Shape.{Keeps-invariant}
use lab_os_assignment.Cpu.{Pcb}
use lab_os_assignment.Cpu.Steps.{run_many}
use lab_os_assignment.Cpu.Invariant.{run_many_keeps}

-- Whatever instructions a process has executed, as long as they came to results: its page table and
-- its table of symbols have kept their sizes, its list of areas is kept but for the end and the free
-- list of the first one, whose `sbrk` has not moved; the RAM and the swap device have kept their
-- sizes and their kind; and the free list of either is what is left of the old one after some
-- frames of its front were taken, so no instruction, `free` among them, gives a frame back.
pub run_many-Keeps :
    (fuel count : ℕ) (proc last : Pcb)
    → run_many fuel count proc ≡ ok last
    → Keeps proc.caller last.caller
run_many-Keeps fuel count proc last h =
    OnResult-ok (λ last. Keeps proc.caller last.caller) (run_many fuel count proc)
      (run_many_keeps (Keeps-invariant proc.caller.mram proc.caller.active_mswp proc.caller.mm) fuel
        count proc (Keeps-refl proc.caller))
      h
