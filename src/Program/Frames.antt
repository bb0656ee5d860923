-- ===== src/Program/Frames.antt =====
-- RAM and swap device in the whole program, in every order of the steps of all threads.
use lab_os_assignment.Base.{ℕ, List}
use lab_os_assignment.Device.Shape.{KeepsDevice, KeepsDevice-refl}
use lab_os_assignment.Vm.Shape.{devices_invariant}
use lab_os_assignment.Os.{LdArgs, Fresh}
use lab_os_assignment.Program.{State, Reach}
use lab_os_assignment.Program.Memory.{Reach-Memory}

-- From any state of the program on, in every order of the steps of all threads, whatever the
-- processes do: RAM and swap device keep the length of their storage, their size and their kind, and
-- the free list of either is what is left of the one at first after some frames of its front were
-- taken. So no frame is ever given back.
pub Reach-devices :
    {fuel time_slot : ℕ} {processes : List LdArgs} {new : ℕ → Fresh} {first p : State}
    → Reach fuel time_slot processes new first p
    → KeepsDevice first.machine.mram p.machine.mram
      × KeepsDevice first.machine.active_mswp p.machine.active_mswp
Reach-devices {new} {first} r =
    let m = first.machine in
    let mem =
      Reach-Memory (KeepsDevice m.mram) (KeepsDevice m.active_mswp) (λ mm. Unit {0})
        (devices_invariant m.mram m.active_mswp) new (λ time. tt) r
        (KeepsDevice-refl m.mram, KeepsDevice-refl m.active_mswp, λ pid t e. tt) in
    (mem.0, mem.1)
