-- ===== src/Program/GoesOn.antt =====
-- Some thread of the program can go on.
use lab_os_assignment.Base.{
  ℕ, zero, suc, ◌-◌, ◌<◌, ◌≡◌, ◌≢◌, ◌⊎◌, inl, inr, refl, sym, ap, ◌∙◌, arith, Option, none, some,
  List, length, get_elem?, get_elem?-some, get_elem?_lt, Option-cases,
}
use lab_os_assignment.Outcome.{Outcome, ok, fault}
use lab_os_assignment.Words.{rounds_to}
use lab_os_assignment.Os.{Machine, Event, LdArgs, LdState, Fresh, ld_round}
use lab_os_assignment.Os.System.{System, idle}
use lab_os_assignment.Os.Idle.{IsIdle, cpu_round-idle}
use lab_os_assignment.Timer.{working, TimerId, Move, call, leave, resume, current_time}
use lab_os_assignment.Timer.Progress.{no_deadlock}
use lab_os_assignment.Program.{
  State, cpu_device, launch, Step, runs_cpu, runs_loader, resumes, turns, Reach,
}
use lab_os_assignment.Program.Parts.{system_of}
use lab_os_assignment.Program.Waiting.{IsWaiting}
use lab_os_assignment.Program.Returns.{
  BootArgs, Boots, Reach-IsIdle, Reach-IsWaiting, Reach-timer, never_returns,
}

-- A step of the program that a device can take.
module _ (fuel time_slot : ℕ) (processes : List LdArgs) (new : ℕ → Fresh) where
  -- The loader is at the start of a round that has no result.
  abbrev pub LoaderStuck : State → Type 0
  LoaderStuck p =
      (l : LdState) × (d : TimerId) × (p.ld ≡ some l)
      × (get_elem? p.timer.dev_list 0 ≡ some d)
      × (d.pc ≡ working)
      × ((r : Event × LdState × Machine)
          → ld_round processes (current_time p.timer) (new (current_time p.timer)) l p.machine
            ≢ ok (some r))

  abbrev pub GoesOn : State → Type 0
  GoesOn p = ((q : State) × Step fuel time_slot processes new p q) ⊎ LoaderStuck p

  by_loader :
      (p : State) (l : LdState) (d : TimerId) (o : Outcome (Option (Event × LdState × Machine)))
      → p.ld ≡ some l
      → get_elem? p.timer.dev_list 0 ≡ some d
      → d.pc ≡ working
      → ld_round processes (current_time p.timer) (new (current_time p.timer)) l p.machine ≡ o
      → GoesOn p
  by_loader p l d (ok (some (e, l', m'))) ld at works round =
      inl (_, runs_loader l d ld at works round)
  by_loader p l d (ok none) ld at works round =
      inr (l, d, ld, at, works, λ r h. (let clash = sym round ∙ h in cc))
  by_loader p l d (fault f) ld at works round =
      inr (l, d, ld, at, works, λ r h. (let clash = sym round ∙ h in cc))

  by_worker :
      {first : System} (p : State) (k : ℕ) (d : TimerId)
      → get_elem? p.timer.dev_list k ≡ some d
      → d.pc ≡ working
      → IsIdle first (system_of p)
      → IsWaiting p
      → GoesOn p
  by_worker p zero d at works h v = elim (Option-cases p.ld) [
    | inl over ↦ (let left = v.ended 0 d at refl over in cc)
    | inr (l, ld) ↦ by_loader p l d _ ld at works refl
  ]
  by_worker p (suc k) d at works h v =
      let small : suc k < length p.timer.dev_list = get_elem?-some p.timer.dev_list (suc k) at in
      let i : ℕ = length p.cpus - suc k in
      let (c, here) = get_elem?_lt p.cpus i (omega (arith, v.size)) in
      let device : suc k ≡ cpu_device p i = omega (arith, v.size) in
      inl (
        _,
        runs_cpu i idle d (here ∙ ap (λ x. some x) (h.cpus i c here))
            (ap (λ j. get_elem? p.timer.dev_list j) (sym device) ∙ at) works
            (cpu_round-idle fuel time_slot 0 p.machine),
      )

  by_device :
      {first : System} (p : State) (k : ℕ) (d d' : TimerId)
      → get_elem? p.timer.dev_list k ≡ some d
      → Move d d'
      → IsIdle first (system_of p)
      → IsWaiting p
      → GoesOn p
  by_device p k d d' at (call works) h v = by_worker p k d at works h v
  by_device p k d d' at (leave works) h v = by_worker p k d at works h v
  by_device p k d d' at (resume paused ready) h v = inl (_, resumes k d at paused ready)

-- In every order of the steps of all threads, some step is left: the program can go on, unless the
-- round of the loader that comes next has no result, by undefined behaviour or by `exit`.
pub goes_on :
    (b : BootArgs) (first : System) (booted : Boots b first) {fuel time_slot : ℕ}
    {processes : List LdArgs} {new : ℕ → Fresh} {p : State}
    → Reach fuel time_slot processes new (launch first) p
    → 0 < rounds_to b.num_cpus
    → GoesOn fuel time_slot processes new p
goes_on b first booted {fuel} {time_slot} {processes} {new} {p} r pos =
    elim (no_deadlock (Reach-timer b first booted r) (never_returns b first booted r pos).1) [
      | inl (t, e) ↦ inl (_, turns e)
      | inr (k, d, d', at, move) ↦
          by_device fuel time_slot processes new p k d d' at move (Reach-IsIdle b first booted r)
            (Reach-IsWaiting b first booted r pos)
    ]
