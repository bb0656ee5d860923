-- ===== src/Timer/Lockstep.antt =====
-- How far the devices and the timer may be apart.
use lab_os_assignment.Base.{
  ℕ, ◌+◌, ◌%◌, ◌^◌, ◌≤◌, ◌≡◌, ◌≢◌, ◌⊎◌, refl, sym, ap, ◌∙◌, arith, Bool, true, false, some, [],
  get_elem?, subst,
}
use lab_os_assignment.Timer.{
  DevicePc, working, waiting, gone, TimerId, exited, Timer, Step, device, timer, stop, freed,
  free_devices, Reach, start, later, attach_many, started, start_timer, stop_timer, no_timer,
  current_time,
}
use lab_os_assignment.Timer.Fits.{Stage, open_slot, held, owed, stage, Fits, FitsAt}
use lab_os_assignment.Timer.Invariant.{Inv, Tally, Tally-mono, AllLeft, device-Inv}
use lab_os_assignment.Timer.New.{IsNew, attach_many-IsNew}
use lab_os_assignment.Timer.Turn.{timer-Inv}

Step-Inv : {s t : Timer} → Step s t → Inv s → Inv t
unfolding stop_timer free_devices
Step-Inv (device i d at mv) inv = device-Inv i d at mv inv
Step-Inv {s} {t} (timer e) inv = timer-Inv s t e inv
Step-Inv {s} stop inv = record {
  fits = inv.fits;
  clock = inv.clock;
  tally =
      Tally-mono s.pc s.dev_list s.dev_list s.timer_stop true (λ j d at. (d, at, λ g. g))
        (λ e. refl) inv.tally;
}
Step-Inv {s} (freed e) inv = record {
  fits = λ j d at. cc;
  clock = inv.clock;
  tally = Tally-mono s.pc s.dev_list [] s.timer_stop s.timer_stop (λ j d at. cc) (λ e. e) inv.tally;
}

new-Inv : {n : ℕ} (s : Timer) → IsNew n s → Inv (record s { timer_started = true })
new-Inv s v = record {
  fits = λ j d at.
      subst (λ pc. FitsAt (stage pc j) s.rounds d) (sym v.idle)
        (subst (FitsAt open_slot s.rounds) (sym (v.devices j d at)) (sym v.clock.1));
  clock = omega (arith, v.clock);
  tally = subst (λ pc. Tally pc s.dev_list s.timer_stop) (sym v.idle) tt;
}

started-Inv : (n : ℕ) → Inv (started n)
unfolding started start_timer
started-Inv n = new-Inv (attach_many n no_timer) (attach_many-IsNew n)

pub Reach-Inv : {n : ℕ} {s : Timer} → Reach n s → Inv s
Reach-Inv {n} start = started-Inv n
Reach-Inv (later r st) = Step-Inv st (Reach-Inv r)

-- A device that has not left has come as far as the rounds of the timer, or is one behind.
near :
    (st : Stage) (r n : ℕ) (pc : DevicePc) (done fsh : Bool)
    → Fits st r pc done fsh n
    → pc ≢ gone
    → (n ≤ r) × (r ≤ n + 1)
near st r n gone done fsh h stays = absurd (stays refl)
near open_slot r n working false false h stays = omega arith
near open_slot r n working false true h stays = elim h [ ]
near open_slot r n working true fsh h stays = elim h [ ]
near open_slot r n waiting false false h stays = omega arith
near open_slot r n waiting false true h stays = elim h [ ]
near open_slot r n waiting true false h stays = omega arith
near open_slot r n waiting true true h stays = elim h [ ]
near held r n working done fsh h stays = elim h [ ]
near held r n waiting true false h stays = omega arith
near held r n waiting true true h stays = elim h [ ]
near held r n waiting false fsh h stays = elim h [ ]
near owed r n working done fsh h stays = elim h [ ]
near owed r n waiting true false h stays = omega arith
near owed r n waiting true true h stays = elim h [ ]
near owed r n waiting false fsh h stays = elim h [ ]

-- In every reachable state, two devices that have not left have returned from equally many calls of
-- next_slot, or from one more and one less.
pub lockstep :
    {n : ℕ} {s : Timer} (i j : ℕ) (d e : TimerId)
    → Reach n s
    → get_elem? s.dev_list i ≡ some d
    → get_elem? s.dev_list j ≡ some e
    → d.pc ≢ gone
    → e.pc ≢ gone
    → (d.slots ≤ e.slots + 1) × (e.slots ≤ d.slots + 1)
lockstep {s} i j d e r at at' stays stays' =
    let inv = Reach-Inv r in
    let a : (d.slots ≤ s.rounds) × (s.rounds ≤ d.slots + 1) =
      near (stage s.pc i) s.rounds d.slots d.pc d.done d.fsh (inv.fits i d at) stays in
    let b : (e.slots ≤ s.rounds) × (s.rounds ≤ e.slots + 1) =
      near (stage s.pc j) s.rounds e.slots e.pc e.done e.fsh (inv.fits j e at') stays' in
    omega arith

working-eq : (st : Stage) (r n : ℕ) (done fsh : Bool) → Fits st r working done fsh n → n ≡ r
working-eq open_slot r n false false h = h
working-eq open_slot r n false true h = elim h [ ]
working-eq open_slot r n true fsh h = elim h [ ]
working-eq held r n done fsh h = elim h [ ]
working-eq owed r n done fsh h = elim h [ ]

pub working-rounds :
    {n : ℕ} {s : Timer} (i : ℕ) (d : TimerId)
    → Reach n s
    → get_elem? s.dev_list i ≡ some d
    → d.pc ≡ working
    → d.slots ≡ s.rounds
working-rounds {s} i d r at works =
    working-eq (stage s.pc i) s.rounds d.slots d.done d.fsh
      (rw works at ((Reach-Inv r).fits i d at))

-- In every reachable state, while a device works current_time() is the number of its calls of
-- next_slot that have returned, as a 64-bit number: the time does not move before it calls again.
pub current_time-working :
    {n : ℕ} {s : Timer} (i : ℕ) (d : TimerId)
    → Reach n s
    → get_elem? s.dev_list i ≡ some d
    → d.pc ≡ working
    → current_time s ≡ d.slots % 2 ^ 64
unfolding current_time
current_time-working {s} i d r at works =
    (Reach-Inv r).clock ∙ ap (λ n. n % 2 ^ 64) (sym (working-rounds i d r at works))

-- In every reachable state, the thread of the timer has ended only if stop_timer was called or every
-- device has left by detach_event.
pub exited-AllLeft :
    {n : ℕ} {s : Timer} → Reach n s → s.pc ≡ exited → (s.timer_stop ≡ true) ⊎ AllLeft s.dev_list
exited-AllLeft {s} r e = subst (λ pc. Tally pc s.dev_list s.timer_stop) e (Reach-Inv r).tally
