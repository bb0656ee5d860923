-- ===== src/Timer/Turn.antt =====
-- The steps of the thread of the timer.
use native.Mathlib.Decide.{dec_lt, ℕ_discrete}
use lab_os_assignment.Base.{
  ℕ, suc, ◌+◌, ◌%◌, ◌^◌, ◌<◌, ◌≡◌, ◌≢◌, ◌⊎◌, inl, inr, refl, sym, ap, ◌∙◌, arith, Bool, true, false,
  ◌||◌, some, none, List, get_elem?, get_elem?-some, get_elem?-none, set, set_all, ltb, lt→ltb,
  ge→ltb, Option-cases, some-injective, ◌==◌, if◌then◌else◌, Bool-cases, subst,
}
use lab_os_assignment.Timer.Fits.{
  open_slot, stage, FitsAt, seen-Fits, advance-Fits, release-Fits, fsh-gone,
}
use lab_os_assignment.Timer.Invariant.{Inv, Tally, Tally-mono, moved_back}
use lab_os_assignment.Timer.{
  gone, TimerId, TimerPc, head, scan, advance, release, check, exited, Timer, timer_at,
  timer_routine,
}

-- The timer at `pc`, on these devices.
abbrev pub at_pc : TimerPc → (devs : List TimerId) (time rounds : ℕ) (begun stopped : Bool) → Timer
at_pc pc devs time rounds begun stopped = record {
  dev_list = devs;
  time = time;
  rounds = rounds;
  timer_started = begun;
  timer_stop = stopped;
  pc = pc;
}

-- The stage of no other device changes when the loops move on from device `i`.
shift : (i j : ℕ) → i ≢ j → ltb j (suc i) ≡ ltb j i
shift i j ne = elim (dec_lt j i) [
  | yes below ↦ rw (lt→ltb j i below, lt→ltb j (suc i) (omega arith))
  | no above ↦ rw (ge→ltb j i (omega arith), ge→ltb j (suc i) (omega arith))
]

-- One device stands at one place.
one_device :
    (devs : List TimerId) (i j : ℕ) (d d' : TimerId)
    → i ≡ j
    → get_elem? devs i ≡ some d
    → get_elem? devs j ≡ some d'
    → d ≡ d'
one_device devs i j d d' e at at' = some-injective (sym at ∙ ap (get_elem? devs) e ∙ at')

module _ (devs : List TimerId) (time rounds : ℕ) (begun : Bool) where
  head-Inv :
      (stopped : Bool)
      → Inv (at_pc head devs time rounds begun stopped)
      → Inv (at_pc (if stopped then exited else scan 0 0 0) devs time rounds begun stopped)
  head-Inv true inv = record { fits = inv.fits; clock = inv.clock; tally = inl refl }
  head-Inv false inv = record {
    fits = λ j d at. rw (ge→ltb j 0 (omega arith)) (inv.fits j d at);
    clock = inv.clock;
    tally = (omega arith, λ e j d at lt. absurd (omega arith));
  }

  module _ (stopped : Bool) where
    scan_end-Inv :
        (i fsh event : ℕ)
        → get_elem? devs i ≡ none
        → Inv (at_pc (scan i fsh event) devs time rounds begun stopped)
        → Inv (at_pc (advance fsh event) devs time rounds begun stopped)
    scan_end-Inv i fsh event past inv = record {
      fits = λ j d at. rw (lt→ltb j i (inside j at)) at (inv.fits j d at);
      clock = inv.clock;
      tally = λ e j d at. inv.tally.1 e j d at (inside j at);
    }
      where
        inside : (j : ℕ) {d : TimerId} → get_elem? devs j ≡ some d → j < i
        inside j at = omega (arith, get_elem?-some devs j at, get_elem?-none devs i past)

    scan-Inv :
        (i fsh event : ℕ) (d : TimerId)
        → get_elem? devs i ≡ some d
        → d.done || d.fsh ≡ true
        → Inv (at_pc (scan i fsh event) devs time rounds begun stopped)
        → Inv (
            at_pc
              (scan (suc i) (if d.fsh then fsh + 1 else fsh) (event + 1))
              devs
              time
              rounds
              begun
              stopped)
    scan-Inv i fsh event d at seen inv = record {
      fits = λ j d' at'. elim (ℕ_discrete i j) [
        | yes e ↦
            (let same : d ≡ d' = one_device devs i j d d' e at at' in
              let open_before : FitsAt open_slot rounds d' =
                rw (ge→ltb j i (omega arith)) at (inv.fits j d' at') in
              rw (lt→ltb j (suc i) (omega arith)) (
                seen-Fits rounds d'.slots d'.pc d'.done d'.fsh
                  (subst (λ x. x.done || x.fsh ≡ true) same seen) open_before))
        | no ne ↦ rw (shift i j ne) (inv.fits j d' at')
      ];
      clock = inv.clock;
      tally = counted (Bool-cases d.fsh);
    }
      where
        left : d.fsh ≡ true → d.pc ≡ gone
        left f =
            fsh-gone open_slot rounds d.slots d.pc d.done
              (rw f at (rw (ge→ltb i i (omega arith)) at (inv.fits i d at)))

        counted :
            (d.fsh ≡ true) ⊎ (d.fsh ≡ false)
            → Tally (scan (suc i) (if d.fsh then fsh + 1 else fsh) (event + 1)) devs stopped
        counted (inl f) = rw f (
          omega (arith, inv.tally.0),
          λ e j d' at' lt. elim (dec_lt j i) [
            | yes below ↦ inv.tally.1 (omega arith) j d' at' below
            | no last ↦
                subst (λ (x : TimerId). x.pc ≡ gone) (one_device devs i j d d' (omega arith) at at')
                  (left f)
          ],
        )
        counted (inr f) =
            rw f (omega (arith, inv.tally.0), λ e. absurd (omega (arith, inv.tally.0)))

    advance-Inv :
        (fsh event : ℕ)
        → Inv (at_pc (advance fsh event) devs time rounds begun stopped)
        → Inv (at_pc (release 0 fsh event) devs ((time + 1) % 2 ^ 64) (rounds + 1) begun stopped)
    advance-Inv fsh event inv = record {
      fits = λ j d at.
          rw (ge→ltb j 0 (omega arith))
            (advance-Fits rounds d.slots d.pc d.done d.fsh (inv.fits j d at));
      clock = omega (arith, inv.clock);
      tally = inv.tally;
    }

    release-Inv :
        (i fsh event : ℕ) (d : TimerId)
        → get_elem? devs i ≡ some d
        → Inv (at_pc (release i fsh event) devs time rounds begun stopped)
        → Inv (
            at_pc
              (release (suc i) fsh event)
              (set devs i (record d { done = false }))
              time
              rounds
              begun
              stopped)
    release-Inv i fsh event d at inv = record {
      fits =
          set_all (λ j e. FitsAt (stage (release (suc i) fsh event) j) rounds e) devs i
            (record d { done = false })
            (rw (lt→ltb i (suc i) (omega arith)) (
              release-Fits rounds d.slots d.pc d.done d.fsh
                (rw (ge→ltb i i (omega arith)) at (inv.fits i d at))))
            (λ j a ne was. rw (shift i j ne) (inv.fits j a was));
      clock = inv.clock;
      tally =
          Tally-mono (release i fsh event) devs (set devs i (record d { done = false })) stopped
            stopped (moved_back devs i d (record d { done = false }) at (λ g. g)) (λ e. e)
            inv.tally;
    }

    release_end-Inv :
        (i fsh event : ℕ)
        → get_elem? devs i ≡ none
        → Inv (at_pc (release i fsh event) devs time rounds begun stopped)
        → Inv (at_pc (check fsh event) devs time rounds begun stopped)
    release_end-Inv i fsh event past inv = record {
      fits = λ j d at. rw (lt→ltb j i (inside j at)) at (inv.fits j d at);
      clock = inv.clock;
      tally = inv.tally;
    }
      where
        inside : (j : ℕ) {d : TimerId} → get_elem? devs j ≡ some d → j < i
        inside j at = omega (arith, get_elem?-some devs j at, get_elem?-none devs i past)

    check-Inv :
        (fsh event : ℕ)
        → Inv (at_pc (check fsh event) devs time rounds begun stopped)
        → Inv (at_pc (if fsh == event then exited else head) devs time rounds begun stopped)
    check-Inv fsh event inv = elim (ℕ_discrete fsh event) [
      | yes e ↦
          (let all : (fsh == event) ≡ true = ground arith in
            rw all (record { fits = inv.fits; clock = inv.clock; tally = inr (inv.tally e) }))
      | no ne ↦
          (let some_stay : (fsh == event) ≡ false = ground arith in
            rw some_stay (record { fits = inv.fits; clock = inv.clock; tally = tt }))
    ]

-- Every step of the thread of the timer keeps the invariant.
turn-Inv :
    (pc : TimerPc) (devs : List TimerId) (time rounds : ℕ) (begun stopped : Bool) (t : Timer)
    → timer_at pc (at_pc pc devs time rounds begun stopped) ≡ some t
    → Inv (at_pc pc devs time rounds begun stopped)
    → Inv t
unfolding timer_at
turn-Inv head devs time rounds begun stopped t e inv =
    subst Inv (cc) (head-Inv devs time rounds begun stopped inv)
turn-Inv (scan i fsh event) devs time rounds begun stopped t e inv =
    elim (Option-cases (get_elem? devs i)) [
      | inl past ↦
          subst Inv (let e' = rw past at e in cc)
            (scan_end-Inv devs time rounds begun stopped i fsh event past inv)
      | inr (d, at) ↦ elim (Bool-cases (d.done || d.fsh)) [
        | inl seen ↦
            subst Inv (let e' = rw seen at (rw at at e) in cc)
              (scan-Inv devs time rounds begun stopped i fsh event d at seen inv)
        | inr waits ↦ (let e' = rw waits at (rw at at e) in cc)
      ]
    ]
turn-Inv (advance fsh event) devs time rounds begun stopped t e inv =
    subst Inv (cc) (advance-Inv devs time rounds begun stopped fsh event inv)
turn-Inv (release i fsh event) devs time rounds begun stopped t e inv =
    elim (Option-cases (get_elem? devs i)) [
      | inl past ↦
          subst Inv (let e' = rw past at e in cc)
            (release_end-Inv devs time rounds begun stopped i fsh event past inv)
      | inr (d, at) ↦
          subst Inv (let e' = rw at at e in cc)
            (release-Inv devs time rounds begun stopped i fsh event d at inv)
    ]
turn-Inv (check fsh event) devs time rounds begun stopped t e inv =
    subst Inv (cc) (check-Inv devs time rounds begun stopped fsh event inv)
turn-Inv exited devs time rounds begun stopped t e inv = cc

pub timer-Inv : (s t : Timer) → timer_routine s ≡ some t → Inv s → Inv t
unfolding timer_routine
timer-Inv s t e inv = turn-Inv s.pc s.dev_list s.time s.rounds s.timer_started s.timer_stop t e inv
