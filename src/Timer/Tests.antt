-- ===== src/Timer/Tests.antt =====
-- A timer with two devices.
use lab_os_assignment.Base.{
  ◌+◌, ◌*◌, ◌%◌, ◌^◌, ◌≤◌, ◌≡◌, refl, true, false, some, [], ◌∷◌, length, ◌==◌, if◌then◌else◌,
}
use lab_os_assignment.Timer.{
  waiting, gone, TimerId, head, exited, Timer, call, device, Reach, start, later, fresh, started,
  next_slot, attach_event, attach_many, start_timer,
}
use lab_os_assignment.Timer.Lockstep.{lockstep}
use lab_os_assignment.Timer.Round.{turns, finished, let_go, full_round}

-- Two devices, of which the first has called next_slot.
abbrev called : TimerId
called = record { done = true; fsh = false; pc = waiting; slots = 0 }

abbrev pair : Timer
pair = record {
  dev_list = called ∷ fresh ∷ [];
  time = 0;
  rounds = 0;
  timer_started = true;
  timer_stop = false;
  pc = head;
}

pair-Reach : Reach 2 pair
unfolding started start_timer attach_many attach_event next_slot
pair-Reach = later {s = started 2} start (device 0 fresh refl (call refl))

lockstep_example : (called.slots ≤ fresh.slots + 1) × (fresh.slots ≤ called.slots + 1)
lockstep_example = lockstep {s = pair} 0 1 called fresh pair-Reach refl refl (λ e. cc) (λ e. cc)

abbrev settled : Timer
settled = record pair {
  dev_list = called ∷ (record { done = false; fsh = true; pc = gone; slots = 4 }) ∷ [];
}

full_round_example :
    turns (2 * length settled.dev_list + 5) settled
    ≡ some (record settled {
      dev_list = let_go settled.dev_list;
      time = (0 + 1) % 2 ^ 64;
      rounds = 0 + 1;
      pc = if finished settled.dev_list == length settled.dev_list then exited else head;
    })
full_round_example = full_round settled refl refl (refl, (refl, tt))
