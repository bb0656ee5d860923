-- ===== src/Timer/Progress.antt =====
-- Who can go on, in a state of the timer and its devices.
use lab_os_assignment.Base.{
  ℕ, ◌≡◌, ◌≢◌, ◌⊎◌, inl, inr, refl, Bool, true, false, ◌||◌, some, none, get_elem?, Option-cases,
  Bool-cases,
}
use lab_os_assignment.Timer.{
  DevicePc, working, waiting, gone, TimerId, TimerPc, head, scan, advance, release, check, exited,
  Timer, Move, call, resume, Reach, next_slot, end_wait, timer_at, timer_routine,
}
use lab_os_assignment.Timer.Fits.{Stage, open_slot, held, owed, stage, Fits, FitsAt}
use lab_os_assignment.Timer.Lockstep.{Reach-Inv}

-- A device that the timer has to wait for can go on.
not_stuck :
    (st : Stage) (r : ℕ) (d : TimerId)
    → FitsAt st r d
    → d.done || d.fsh ≡ false
    → (d' : TimerId) × Move d d'
not_stuck st r d h waits = go d.pc refl
  where
    not_done : (done fsh : Bool) → done || fsh ≡ false → done ≡ false
    not_done false fsh e = refl
    not_done true fsh e = cc

    not_gone :
        (st : Stage) (done fsh : Bool) → Fits st r gone done fsh d.slots → done || fsh ≡ false → ⊥
    not_gone st false true h e = cc
    not_gone st true fsh h e = cc
    not_gone open_slot false false h e = h
    not_gone held false false h e = h
    not_gone owed false false h e = h

    go : (pc : DevicePc) → d.pc ≡ pc → (d' : TimerId) × Move d d'
    go working e = (next_slot d, call e)
    go waiting e = (end_wait d, resume e (not_done d.done d.fsh waits))
    go gone e = absurd (not_gone st d.done d.fsh (rw e at h) waits)

-- Where the thread cannot step, it waits for a device in its first loop.
waits_for :
    (pc : TimerPc) (s : Timer)
    → timer_at pc s ≡ none
    → pc ≢ exited
    → (i : ℕ) × (d : TimerId) × (get_elem? s.dev_list i ≡ some d) × (d.done || d.fsh ≡ false)
unfolding timer_at
waits_for head s e ne = cc
waits_for (scan i fsh event) s e ne = elim (Option-cases (get_elem? s.dev_list i)) [
  | inl past ↦ (let e' = rw (past, timer_at) at e in cc)
  | inr (d, at) ↦ elim (Bool-cases (d.done || d.fsh)) [
    | inl seen ↦ (let e' = rw (at, seen, timer_at) at e in cc)
    | inr waits ↦ (i, d, at, waits)
  ]
]
waits_for (advance fsh event) s e ne = cc
waits_for (release i fsh event) s e ne = elim (Option-cases (get_elem? s.dev_list i)) [
  | inl past ↦ (let e' = rw (past, timer_at) at e in cc)
  | inr (d, at) ↦ (let e' = rw (at, timer_at) at e in cc)
]
waits_for (check fsh event) s e ne = cc
waits_for exited s e ne = absurd (ne refl)

pub no_deadlock :
    {n : ℕ} {s : Timer}
    → Reach n s
    → s.pc ≢ exited
    → ((t : Timer) × (timer_routine s ≡ some t))
      ⊎ ((i : ℕ) × (d : TimerId) × (d' : TimerId) × (get_elem? s.dev_list i ≡ some d) × Move d d')
unfolding timer_routine
no_deadlock {s} r ne = elim (Option-cases (timer_at s.pc s)) [
  | inr turn ↦ inl turn
  | inl blocked ↦
      (let (i, d, at, waits) = waits_for s.pc s blocked ne in
        let (d', mv) = not_stuck (stage s.pc i) s.rounds d ((Reach-Inv r).fits i d at) waits in
        inr (i, d, d', at, mv))
]
