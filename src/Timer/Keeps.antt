-- ===== src/Timer/Keeps.antt =====
-- What a step of the thread of the timer leaves as it was.
use lab_os_assignment.Base.{
  ℕ, ◌+◌, ◌%◌, ◌^◌, ◌≤◌, ◌≡◌, ◌⊎◌, inl, inr, refl, arith, false, ◌||◌, some, List, get_elem?,
  length, length-set, set_all, subst, some-injective, Option-cases, Bool-cases,
}
use lab_os_assignment.Timer.{
  TimerId, TimerPc, head, scan, advance, release, check, exited, Timer, timer_at, timer_routine,
}

-- Every device of the second list has come from one of the first by its flag `done` alone.
abbrev pub SameDevices : (devs devs' : List TimerId) → Type 0
SameDevices devs devs' =
    (j : ℕ) (d' : TimerId)
    → get_elem? devs' j ≡ some d'
    → (d : TimerId) × (get_elem? devs j ≡ some d) × (d'.pc ≡ d.pc) × (d'.slots ≡ d.slots)

pub record Keeps (s t : Timer) : Type 0 where
  pub timer_stop : t.timer_stop ≡ s.timer_stop
  pub rounds : s.rounds ≤ t.rounds
  pub time : (t.time ≡ s.time) ⊎ (t.time ≡ (s.time + 1) % 2 ^ 64)
  pub size : length t.dev_list ≡ length s.dev_list
  pub devices : SameDevices s.dev_list t.dev_list

moved : (s : Timer) (pc : TimerPc) → Keeps s (record s { pc = pc })
moved s pc = record {
  timer_stop = refl;
  rounds = omega arith;
  time = inl refl;
  size = refl;
  devices = λ j d at. (d, at, refl, refl);
}

timer_at-Keeps : (pc : TimerPc) (s t : Timer) → timer_at pc s ≡ some t → Keeps s t
unfolding timer_at
timer_at-Keeps head s t e = subst (Keeps s) (some-injective e) (moved s _)
timer_at-Keeps (scan i fsh event) s t e = elim (Option-cases (get_elem? s.dev_list i)) [
  | inl past ↦
      subst (Keeps s) (some-injective (rw (past, timer_at) at e)) (moved s (advance fsh event))
  | inr (d, at) ↦ elim (Bool-cases (d.done || d.fsh)) [
    | inl seen ↦ subst (Keeps s) (some-injective (rw (at, seen, timer_at) at e)) (moved s _)
    | inr waits ↦ (let e' = rw (at, waits, timer_at) at e in cc)
  ]
]
timer_at-Keeps (advance fsh event) s t e = subst (Keeps s) (some-injective e) (record {
  timer_stop = refl;
  rounds = omega arith;
  time = inr refl;
  size = refl;
  devices = λ j d at. (d, at, refl, refl);
})
timer_at-Keeps (release i fsh event) s t e = elim (Option-cases (get_elem? s.dev_list i)) [
  | inl past ↦
      subst (Keeps s) (some-injective (rw (past, timer_at) at e)) (moved s (check fsh event))
  | inr (d, at) ↦ subst (Keeps s) (some-injective (rw (at, timer_at) at e)) (record {
    timer_stop = refl;
    rounds = omega arith;
    time = inl refl;
    size = length-set s.dev_list i (record d { done = false });
    devices =
        set_all
          (λ j d'.
            (d0 : TimerId) × (get_elem? s.dev_list j ≡ some d0)
            × (d'.pc ≡ d0.pc)
            × (d'.slots ≡ d0.slots))
          s.dev_list i (record d { done = false }) (d, at, refl, refl)
          (λ j a ne was. (a, was, refl, refl));
  })
]
timer_at-Keeps (check fsh event) s t e = subst (Keeps s) (some-injective e) (moved s _)
timer_at-Keeps exited s t e = cc

pub timer_routine-Keeps : (s t : Timer) → timer_routine s ≡ some t → Keeps s t
unfolding timer_routine
timer_routine-Keeps s t e = timer_at-Keeps s.pc s t e
