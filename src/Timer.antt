-- ===== src/Timer.antt =====
-- The timer of src/timer.c. The devices, one for each processor and one for the loader, and the thread
-- of the timer take turns by flags; each piece of code under a lock is one step. A device that waits
-- on a condition tests its flag again when it goes on, so it waits by not being able to step.
mod Tests
mod Fits
pub mod Invariant
mod Turn
pub mod Lockstep
pub mod New
pub mod Keeps
pub mod Progress
pub mod Round
use lab_os_assignment.Base.{
  ℕ, zero, suc, ◌+◌, ◌%◌, ◌^◌, ◌≡◌, Bool, true, false, ◌||◌, Option, none, some, List, [], ◌∷◌,
  length, get_elem?, set, replicate, ◌==◌, if◌then◌else◌,
}

-- Where the thread of a device stands: outside the functions of the timer, in the second half of
-- next_slot, or after detach_event.
pub data DevicePc : Type 0 where
  working waiting gone : DevicePc

-- struct timer_id_t without its locks. `slots` counts the calls of next_slot that have returned; the
-- program has no such field.
pub record TimerId : Type 0 where
  pub done : Bool
  pub fsh : Bool
  pub pc : DevicePc
  pub slots : ℕ

-- Where timer_routine stands, with its local variables.
pub data TimerPc : Type 0 where
  head : TimerPc  -- the test of the outer loop
  scan : (i fsh event : ℕ) → TimerPc  -- the first loop, at device `i`
  advance : (fsh event : ℕ) → TimerPc  -- before `_time++`
  release : (i fsh event : ℕ) → TimerPc  -- the second loop, at device `i`
  check : (fsh event : ℕ) → TimerPc  -- `if (fsh == event)`
  exited : TimerPc

-- `rounds` counts the increments of `_time`, which is a uint64_t.
pub record Timer : Type 0 where
  pub dev_list : List TimerId
  pub time : ℕ
  pub rounds : ℕ
  pub timer_started : Bool
  pub timer_stop : Bool
  pub pc : TimerPc

abbrev pub fresh : TimerId
fresh = record { done = false; fsh = false; pc = working; slots = 0 }

abbrev pub no_timer : Timer
no_timer = record {
  dev_list = [];
  time = 0;
  rounds = 0;
  timer_started = false;
  timer_stop = false;
  pc = head;
}

-- The pointer is the number of devices that were attached before.
unfoldable pub attach_event : Timer → Option ℕ × Timer
attach_event s =
    if s.timer_started
    then (none, s)
    else (some (length s.dev_list), record s { dev_list = fresh ∷ s.dev_list })

unfoldable pub start_timer : Timer → Timer
start_timer s = record s { timer_started = true }

-- The first line of stop_timer, and what it does once the thread has ended: the devices are freed.
unfoldable pub stop_timer : Timer → Timer
stop_timer s = record s { timer_stop = true }

unfoldable pub free_devices : Timer → Timer
free_devices s = record s { dev_list = [] }

unfoldable pub current_time : Timer → ℕ
current_time s = s.time

-- The first half of next_slot, from its call on, and the end of its wait.
unfoldable pub next_slot : TimerId → TimerId
next_slot d = record d { done = true; pc = waiting }

unfoldable pub end_wait : TimerId → TimerId
end_wait d = record d { pc = working; slots = d.slots + 1 }

unfoldable pub detach_event : TimerId → TimerId
detach_event d = record d { fsh = true; pc = gone }

-- One step of timer_routine; `none` where it waits or has ended.
timer_at : TimerPc → Timer → Option Timer
timer_at head s = some (record s { pc = if s.timer_stop then exited else scan 0 0 0 })
timer_at (scan i fsh event) s = elim (get_elem? s.dev_list i) [
  | none ↦ some (record s { pc = advance fsh event })
  | some d ↦
      if d.done || d.fsh
      then some (record s { pc = scan (suc i) (if d.fsh then fsh + 1 else fsh) (event + 1) })
      else none
]
timer_at (advance fsh event) s =
    some
      (record s { time = (s.time + 1) % 2 ^ 64; rounds = s.rounds + 1; pc = release 0 fsh event })
timer_at (release i fsh event) s = elim (get_elem? s.dev_list i) [
  | none ↦ some (record s { pc = check fsh event })
  | some d ↦ some (record s {
    dev_list = set s.dev_list i (record d { done = false });
    pc = release (suc i) fsh event;
  })
]
timer_at (check fsh event) s = some (record s { pc = if fsh == event then exited else head })
timer_at exited s = none

unfoldable pub timer_routine : Timer → Option Timer
unfolding timer_at
timer_routine s = timer_at s.pc s

-- What a device may do next.
pub data Move (d : TimerId) : TimerId → Type 0 where
  call : d.pc ≡ working → Move d (next_slot d)
  resume : d.pc ≡ waiting → d.done ≡ false → Move d (end_wait d)
  leave : d.pc ≡ working → Move d (detach_event d)

-- The threads take steps in any order.
pub data Step (s : Timer) : Timer → Type 0 where
  device :
      (i : ℕ) (d : TimerId) {d' : TimerId}
      → get_elem? s.dev_list i ≡ some d
      → Move d d'
      → Step s (record s { dev_list = set s.dev_list i d' })
  timer : {t : Timer} → timer_routine s ≡ some t → Step s t
  stop : Step s (stop_timer s)
  freed : s.pc ≡ exited → Step s (free_devices s)

-- The timer with `n` devices attached, then started.
unfoldable pub attach_many : ℕ → Timer → Timer
attach_many zero s = s
attach_many (suc n) s = attach_many n (attach_event s).1

unfoldable pub started : ℕ → Timer
started n = start_timer (attach_many n no_timer)

pub data Reach (n : ℕ) : Timer → Type 0 where
  start : Reach n (started n)
  later : {s t : Timer} → Reach n s → Step s t → Reach n t
