-- ===== src/Program.antt =====
-- The threads of src/os.c together with src/timer.c: main, which waits for the others, the processors,
-- the loader and the thread of the timer. A thread of src/os.c runs a round of Os when its device is
-- out of next_slot, and calls next_slot or detach_event at the end of it; that is one step.
pub mod Main
pub mod Parts
pub mod Waiting
pub mod Returns
pub mod GoesOn
pub mod Loading
pub mod Loads
pub mod Ready
pub mod RunsOn
pub mod Slot
pub mod Ends
pub mod Memory
pub mod Frames
pub mod Range
mod Tests
use lab_os_assignment.Base.{
  ℕ, zero, suc, ◌+◌, ◌-◌, ◌≤◌, ◌≡◌, false, Option, none, some, List, length, get_elem?, set,
}
use lab_os_assignment.Outcome.{Outcome, ok}
use lab_os_assignment.Os.{
  Machine, Event, waits, stops, CpuState, LdArgs, Fresh, LdState, cpu_round, ld_round,
}
use lab_os_assignment.Os.System.{System, unless_stopped}
use lab_os_assignment.Timer.{
  working, waiting, TimerId, exited, Timer, started, current_time, next_slot, end_wait,
  detach_event, timer_routine, stop_timer, free_devices,
}

-- Where main stands: in the join of a processor or of the loader, in stop_timer, or at its end.
pub data MainPc : Type 0 where
  joins_cpu : (i : ℕ) → MainPc
  joins_ld stopping returned : MainPc

-- A thread that has ended is `none`.
pub record State : Type 0 where
  pub machine : Machine
  pub cpus : List (Option CpuState)
  pub ld : Option LdState
  pub timer : Timer
  pub main : MainPc

-- attach_event puts a device in front of the others: the loader's, which is attached last, is the
-- first of the list, and that of processor 0 the last.
abbrev pub cpu_device : State → (i : ℕ) → ℕ
cpu_device p i = length p.cpus - i

-- What a thread does to its device at the end of a round.
abbrev pub signal : Event → TimerId → TimerId
signal waits d = next_slot d
signal stops d = detach_event d

-- main, once its threads have been created.
abbrev pub launch : System → State
launch s = record {
  machine = s.machine;
  cpus = s.cpus;
  ld = s.ld;
  timer = started (suc (length s.cpus));
  main = joins_cpu 0;
}

-- The joins of main, and stop_timer.
pub data Joins (p : State) : State → Type 0 where
  next_cpu :
      (i : ℕ)
      → p.main ≡ joins_cpu i
      → get_elem? p.cpus i ≡ some none
      → Joins p (record p { main = joins_cpu (suc i) })
  last_cpu :
      (i : ℕ) → p.main ≡ joins_cpu i → length p.cpus ≤ i → Joins p (record p { main = joins_ld })
  stop :
      p.main ≡ joins_ld
      → p.ld ≡ none
      → Joins p (record p { timer = stop_timer p.timer; main = stopping })
  return :
      p.main ≡ stopping
      → p.timer.pc ≡ exited
      → Joins p (record p { timer = free_devices p.timer; main = returned })

-- `fuel` is what a search is given beyond its first test, and `new` what `malloc` returns to the
-- loader, by time slot. A round of the loader that ends the program by `exit` has no step.
pub data Step (fuel time_slot : ℕ) (processes : List LdArgs) (new : ℕ → Fresh) (p : State)
    : State → Type 0 where
  runs_cpu :
      (i : ℕ) (c : CpuState) (d : TimerId) {e : Event} {c' : CpuState} {m' : Machine}
      → get_elem? p.cpus i ≡ some (some c)
      → get_elem? p.timer.dev_list (cpu_device p i) ≡ some d
      → d.pc ≡ working
      → cpu_round (suc fuel) time_slot c p.machine ≡ ok (e, c', m')
      → Step fuel time_slot processes new p (record p {
        machine = m';
        cpus = set p.cpus i (unless_stopped e c');
        timer = record (p.timer) { dev_list = set p.timer.dev_list (cpu_device p i) (signal e d) };
      })
  runs_loader :
      (l : LdState) (d : TimerId) {e : Event} {l' : LdState} {m' : Machine}
      → p.ld ≡ some l
      → get_elem? p.timer.dev_list 0 ≡ some d
      → d.pc ≡ working
      → ld_round processes (current_time p.timer) (new (current_time p.timer)) l p.machine
        ≡ ok (some (e, l', m'))
      → Step fuel time_slot processes new p (record p {
        machine = m';
        ld = unless_stopped e l';
        timer = record (p.timer) { dev_list = set p.timer.dev_list 0 (signal e d) };
      })
  resumes :
      (j : ℕ) (d : TimerId)
      → get_elem? p.timer.dev_list j ≡ some d
      → d.pc ≡ waiting
      → d.done ≡ false
      → Step fuel time_slot processes new p
          (record p { timer = record (p.timer) { dev_list = set p.timer.dev_list j (end_wait d) } })
  turns :
      {t : Timer}
      → timer_routine p.timer ≡ some t
      → Step fuel time_slot processes new p (record p { timer = t })
  joins : {q : State} → Joins p q → Step fuel time_slot processes new p q

-- The programs that can come from `first`.
pub data Reach (fuel time_slot : ℕ) (processes : List LdArgs) (new : ℕ → Fresh) (first : State)
    : State → Type 0 where
  start : Reach fuel time_slot processes new first first
  later :
      {p q : State}
      → Reach fuel time_slot processes new first p
      → Step fuel time_slot processes new p q
      → Reach fuel time_slot processes new first q
