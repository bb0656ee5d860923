-- ===== src/Os/System.antt =====
-- All threads of src/os.c together. One round of a thread is a step, as if it ran alone, and time
-- passes between any two rounds.
use lab_os_assignment.Base.{
  ℕ, suc, ◌+◌, ◌%◌, ◌^◌, ◌≡◌, Option, none, some, List, get_elem?, set, replicate, false,
}
use lab_os_assignment.Outcome.{Outcome, ok, ◌>>=◌}
use lab_os_assignment.Words.{rounds_to}
use lab_os_assignment.Device.{Device, init_memphy}
use lab_os_assignment.Sched.{Sched, init_scheduler}
use lab_os_assignment.Os.{
  Machine, Event, waits, stops, CpuState, LdArgs, Fresh, LdState, cpu_round, ld_round,
}

-- A thread that has ended is `none`.
pub record System : Type 0 where
  pub machine : Machine
  pub cpus : List (Option CpuState)
  pub ld : Option LdState
  pub time : ℕ

abbrev pub unless_stopped {ℓ} : {A : Type ℓ} → Event → A → Option A
unless_stopped waits a = some a
unless_stopped stops a = none

-- `fuel` is what a search is given beyond its first test.
pub data Step (fuel time_slot : ℕ) (processes : List LdArgs) (s : System) : System → Type 0 where
  cpu :
      (i : ℕ) (c : CpuState) {e : Event} {c' : CpuState} {m' : Machine}
      → get_elem? s.cpus i ≡ some (some c)
      → cpu_round (suc fuel) time_slot c s.machine ≡ ok (e, c', m')
      → Step fuel time_slot processes s
          (record s { cpus = set s.cpus i (unless_stopped e c'); machine = m' })
  loader :
      (l : LdState) (new : Fresh) {e : Event} {l' : LdState} {m' : Machine}
      → s.ld ≡ some l
      → ld_round processes s.time new l s.machine ≡ ok (some (e, l', m'))
      → Step fuel time_slot processes s (record s { ld = unless_stopped e l'; machine = m' })
  tick : Step fuel time_slot processes s (record s { time = (s.time + 1) % 2 ^ 64 })

abbrev pub idle : CpuState
idle = record { proc = none; time_left = 0 }

-- What `main` sets up: RAM and swap of the configured sizes, the scheduler, the threads. `bytes` and
-- `left` are what `malloc` and the stack hold there; `memswpsz` is the size of the active swap device.
unfoldable pub boot :
    (num_cpus memramsz memswpsz : ℕ) (bytes : List ℕ) (left : Device) (s : Sched) → Outcome System
boot num_cpus memramsz memswpsz bytes left s = do
  mram ← init_memphy bytes left memramsz 1
  mswp ← init_memphy bytes left memswpsz 1
  sched ← init_scheduler s
  ok (record {
    machine = record {
      mram = mram;
      active_mswp = mswp;
      sched = sched;
      tasks = λ pid. none;
      done = false;
    };
    cpus = replicate (rounds_to num_cpus) (some idle);
    ld = some (record { i = 0; proc = none; avail_pid = 1 });
    time = 0;
  })

-- The systems that can come from `first`.
pub data Reach (fuel time_slot : ℕ) (processes : List LdArgs) (first : System)
    : System → Type 0 where
  start : Reach fuel time_slot processes first first
  later :
      {s t : System}
      → Reach fuel time_slot processes first s
      → Step fuel time_slot processes s t
      → Reach fuel time_slot processes first t
