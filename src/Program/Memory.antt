-- ===== src/Program/Memory.antt =====
-- The memory of the processes in the whole program, in every order of the steps of all threads.
use lab_os_assignment.Base.{ℕ, suc, List}
use lab_os_assignment.Outcome.{OnResult-ok, IfSome}
use lab_os_assignment.Device.{Device}
use lab_os_assignment.Mm.{Mm, init_mm}
use lab_os_assignment.Vm.Invariant.{MemoryInvariant}
use lab_os_assignment.Os.{LdArgs, Fresh}
use lab_os_assignment.Os.Memory.{Memory, cpu_round-Memory, ld_round-Memory}
use lab_os_assignment.Timer.{current_time}
use lab_os_assignment.Program.{
  State, Step, runs_cpu, runs_loader, resumes, turns, joins, next_cpu, last_cpu, stop, return,
  Reach, start, later,
}

module _ (Ram Swap : Device → Type 0) (Tab : Mm → Type 0) (inv : MemoryInvariant Ram Swap Tab)
    (new : ℕ → Fresh) (tables : (time : ℕ) → Tab (init_mm (new time).ptes (new time).syms)) where
  Step-Memory :
      {fuel time_slot : ℕ} {processes : List LdArgs} {p q : State}
      → Step fuel time_slot processes new p q
      → Memory Ram Swap Tab p.machine
      → Memory Ram Swap Tab q.machine
  Step-Memory {fuel} {time_slot} {p} (runs_cpu i c d at dev works round) mem =
      OnResult-ok (λ r. Memory Ram Swap Tab r.2) _
        (cpu_round-Memory Ram Swap Tab inv (suc fuel) time_slot c p.machine mem) round
  Step-Memory {processes} {p} (runs_loader l d at dev works round) mem =
      OnResult-ok (IfSome (λ r. Memory Ram Swap Tab r.2)) _
        (ld_round-Memory Ram Swap Tab (new (current_time p.timer)) (tables (current_time p.timer))
          processes (current_time p.timer) l p.machine mem)
        round
  Step-Memory (resumes j d dev paused ready) mem = mem
  Step-Memory (turns e) mem = mem
  Step-Memory (joins (next_cpu i m at)) mem = mem
  Step-Memory (joins (last_cpu i m at)) mem = mem
  Step-Memory (joins (stop m at)) mem = mem
  Step-Memory (joins (return m at)) mem = mem

  -- What every instruction keeps, and what holds of the tables of a new process, holds throughout.
  pub Reach-Memory :
      {fuel time_slot : ℕ} {processes : List LdArgs} {first p : State}
      → Reach fuel time_slot processes new first p
      → Memory Ram Swap Tab first.machine
      → Memory Ram Swap Tab p.machine
  Reach-Memory start mem = mem
  Reach-Memory (later r st) mem = Step-Memory st (Reach-Memory r mem)
