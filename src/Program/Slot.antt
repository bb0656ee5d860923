-- ===== src/Program/Slot.antt =====
-- A time slot in which all threads do their work one after the other.
use lab_os_assignment.Base.{
  replicate-All, ℕ, zero, suc, ◌+◌, ◌-◌, ◌*◌, ◌≤◌, ◌<◌, ◌≡◌, refl, sym, ap, ◌∙◌, arith, subst,
  false, true, ◌||◌, ◌==◌, some, List, [], ◌∷◌, length, All, replicate, length-replicate,
  length-set, get_elem?, get_elem?-some, get_elem?_lt, get_elem?-replicate, set, set_all,
  some-injective, Option-cases, if◌then◌else◌, inl, inr,
}
use lab_os_assignment.Os.{LdArgs, LdState, Fresh}
use lab_os_assignment.Os.System.{System, idle}
use lab_os_assignment.Os.Idle.{cpu_round-idle}
use lab_os_assignment.Timer.{
  working, waiting, head, exited, TimerId, Timer, next_slot, end_wait, timer_routine,
}
use lab_os_assignment.Timer.Round
use lab_os_assignment.Timer.Round.{finished, let_go, full_round}
use lab_os_assignment.Program.{State, cpu_device, launch, runs_cpu, resumes, turns, Reach, later}
use lab_os_assignment.Program.Returns.{BootArgs, Boots, Reach-IsIdle}

-- A device at work in slot `r`, one that has called next_slot, and one that may go on.
abbrev pub at_work : (r : ℕ) → TimerId
at_work r = record { done = false; fsh = false; pc = working; slots = r }

abbrev pub called : (r : ℕ) → TimerId
called r = record { done = true; fsh = false; pc = waiting; slots = r }

abbrev pub released : (r : ℕ) → TimerId
released r = record { done = false; fsh = false; pc = waiting; slots = r }

-- The thread of the timer is at the head of its loop, and the first `k` devices are past the others.
pub record Swept (r k : ℕ) (below above : TimerId) (p : State) : Type 0 where
  pub size : length p.timer.dev_list ≡ suc (length p.cpus)
  pub at_head : p.timer.pc ≡ head
  pub going : p.timer.timer_stop ≡ false
  pub rounds : p.timer.rounds ≡ r
  pub devices :
      (j : ℕ) (d : TimerId)
      → get_elem? p.timer.dev_list j ≡ some d
      → (j < k → d ≡ below) × (k ≤ j → d ≡ above)

-- One device more.
pub swept_one :
    {k : ℕ} {below above : TimerId} (devs : List TimerId)
    → ((j : ℕ) (d : TimerId)
        → get_elem? devs j ≡ some d
        → (j < k → d ≡ below) × (k ≤ j → d ≡ above))
    → (j : ℕ) (d : TimerId) → get_elem? (set devs k below) j ≡ some d
    → (j < suc k → d ≡ below) × (suc k ≤ j → d ≡ above)
swept_one {k} {below} {above} devs v =
    set_all (λ j d. (j < suc k → d ≡ below) × (suc k ≤ j → d ≡ above)) devs k below
      (λ small. refl, λ large. absurd (omega arith))
      (λ j d other was.
        (λ small. (v j d was).0 (omega arith), λ large. (v j d was).1 (omega arith)))

same_all :
    (xs : List TimerId) (c : TimerId)
    → ((j : ℕ) (d : TimerId) → get_elem? xs j ≡ some d → d ≡ c)
    → xs ≡ replicate (length xs) c
same_all [] c v = refl
same_all (x ∷ xs) c v = λ i. v 0 x refl i ∷ same_all xs c (λ j d at. v (suc j) d at) i

let_go-called : (n r : ℕ) → let_go (replicate n (called r)) ≡ replicate n (released r)
let_go-called zero r = refl
let_go-called (suc n) r = ap (λ ds. released r ∷ ds) (let_go-called n r)

finished-called : (n r : ℕ) → finished (replicate n (called r)) ≡ 0
finished-called zero r = refl
finished-called (suc n) r = omega (arith, finished-called n r)

none_of : (n : ℕ) → 0 < n → (0 == n) ≡ false
none_of n pos = ground arith

module _ (b : BootArgs) (first : System) (booted : Boots b first) (fuel time_slot : ℕ)
    (processes : List LdArgs) (new : ℕ → Fresh) where
  -- The programs that can come from the boot, and have `P`.
  abbrev pub Comes : (State → Type 0) → Type 0
  Comes P = (p : State) × Reach fuel time_slot processes new (launch first) p × P p

  -- The processors that are left make their rounds.
  pub all_call :
      (t k r : ℕ) (l : LdState) (p : State)
      → Reach fuel time_slot processes new (launch first) p
      → suc k + t ≡ suc (length p.cpus)
      → p.ld ≡ some l
      → Swept r (suc k) (called r) (at_work r) p
      → Comes (λ q. (Swept r (length q.timer.dev_list) (called r) (at_work r) q) × (q.ld ≡ some l))
  unfolding next_slot
  all_call zero k r l p reached count ld v =
      (p, reached, (subst (λ n. Swept r n (called r) (at_work r) p) (omega (arith, v.size)) v, ld))
  all_call (suc t) k r l p reached count ld v =
      let i : ℕ = length p.cpus - suc k in
      let device : suc k ≡ cpu_device p i = omega arith in
      let (c, here) = get_elem?_lt p.cpus i (omega arith) in
      let is_idle : get_elem? p.cpus i ≡ some (some idle) =
        here ∙ ap (λ x. some x) ((Reach-IsIdle b first booted reached).cpus i c here) in
      let (d, at) = get_elem?_lt p.timer.dev_list (suc k) (omega (arith, v.size)) in
      let at' : get_elem? p.timer.dev_list (cpu_device p i) ≡ some (at_work r) =
        ap (λ n. get_elem? p.timer.dev_list n) (sym device)
        ∙ at
        ∙ ap (λ x. some x) ((v.devices (suc k) d at).1 (omega arith)) in
      all_call t (suc k) r l _
        (later reached (
          runs_cpu i idle (at_work r) is_idle at' refl (cpu_round-idle fuel time_slot 0 p.machine)))
        (omega (arith, length-set p.cpus i (some idle))) ld
        (record {
          size =
              length-set p.timer.dev_list (cpu_device p i) (called r)
              ∙ v.size
              ∙ ap suc (sym (length-set p.cpus i (some idle)));
          at_head = v.at_head;
          going = v.going;
          rounds = v.rounds;
          devices =
              subst
                (λ n.
                  (j : ℕ) (x : TimerId)
                  → get_elem? (set p.timer.dev_list n (called r)) j ≡ some x
                  → (j < suc (suc k) → x ≡ called r) × (suc (suc k) ≤ j → x ≡ at_work r))
                device (swept_one p.timer.dev_list v.devices);
        })

  -- The devices that are left go on.
  pub all_resume :
      (t k r : ℕ) (l : LdState) (p : State)
      → Reach fuel time_slot processes new (launch first) p
      → k + t ≡ length p.timer.dev_list
      → p.ld ≡ some l
      → Swept (suc r) k (at_work (suc r)) (released r) p
      → Comes (λ q.
        Swept (suc r) (length q.timer.dev_list) (at_work (suc r)) (released r) q × (q.ld ≡ some l))
  unfolding end_wait
  all_resume zero k r l p reached count ld v = (
    p,
    reached,
    (subst (λ n. Swept (suc r) n (at_work (suc r)) (released r) p) (omega arith) v, ld),
  )
  all_resume (suc t) k r l p reached count ld v =
      let (d, at) = get_elem?_lt p.timer.dev_list k (omega arith) in
      let at' : get_elem? p.timer.dev_list k ≡ some (released r) =
        at ∙ ap (λ x. some x) ((v.devices k d at).1 (omega arith)) in
      let one : r + 1 ≡ suc r = omega arith in
      all_resume t (suc k) r l _ (later reached (resumes k (released r) at' refl refl))
        (omega (arith, length-set p.timer.dev_list k (end_wait (released r)))) ld
        (record {
          size = length-set p.timer.dev_list k (end_wait (released r)) ∙ v.size;
          at_head = v.at_head;
          going = v.going;
          rounds = v.rounds;
          devices =
              subst
                (λ n.
                  (j : ℕ) (x : TimerId)
                  → get_elem? (set p.timer.dev_list k (at_work n)) j ≡ some x
                  → (j < suc k → x ≡ at_work (suc r)) × (suc k ≤ j → x ≡ released r))
                (sym one) (swept_one p.timer.dev_list v.devices);
        })

  -- The thread of the timer goes on alone.
  turns-Reach :
      (n : ℕ) (p : State) (t : Timer)
      → Round.turns n p.timer ≡ some t
      → Reach fuel time_slot processes new (launch first) p
      → Reach fuel time_slot processes new (launch first) (record p { timer = t })
  unfolding Round.turns
  turns-Reach zero p t e reached =
      subst (λ x. Reach fuel time_slot processes new (launch first) (record p { timer = x }))
        (some-injective e) reached
  turns-Reach (suc n) p t e reached = elim (Option-cases (timer_routine p.timer)) [
    | inl waits_on ↦ (let clash = rw (waits_on, Round.turns) at e in cc)
    | inr (s, es) ↦
        turns-Reach n (record p { timer = s }) t (rw (es, Round.turns) at e)
          (later reached (turns es))
  ]

  -- All devices have called: the timer makes a round, and lets them go on.
  pub one_turn :
      (r : ℕ) (l : LdState) (p : State)
      → Reach fuel time_slot processes new (launch first) p
      → p.ld ≡ some l
      → Swept r (length p.timer.dev_list) (called r) (at_work r) p
      → Comes (λ q. (Swept (suc r) 0 (at_work (suc r)) (released r) q) × (q.ld ≡ some l))
  one_turn r l p reached ld v =
      let n : ℕ = length p.timer.dev_list in
      let same : p.timer.dev_list ≡ replicate n (called r) =
        same_all p.timer.dev_list (called r)
          (λ j d at. (v.devices j d at).0 (get_elem?-some p.timer.dev_list j at)) in
      let ready =
        subst (All (λ (d : TimerId). d.done || d.fsh ≡ true)) (sym same)
          (replicate-All _ n (called r) refl) in
      let gone_on : let_go p.timer.dev_list ≡ replicate n (released r) =
        ap let_go same ∙ let_go-called n r in
      let some_left : (finished p.timer.dev_list == n) ≡ false =
        ap (λ x. finished x == n) same
        ∙ (rw (finished-called n r) (none_of n (omega (arith, v.size)))) in
      (
        record p { timer = _ },
        turns-Reach (2 * n + 5) p _ (full_round p.timer v.at_head v.going ready) reached,
        (
          record {
            size = ap (λ x. length x) gone_on ∙ length-replicate n (released r) ∙ v.size;
            at_head = ap (λ x. if x then exited else head) some_left;
            going = v.going;
            rounds = omega (arith, v.rounds);
            devices = λ j d at. (
              λ small. absurd (omega arith),
              λ large.
                  get_elem?-replicate n j (released r) d
                    (ap (λ x. get_elem? x j) (sym gone_on) ∙ at),
            );
          },
          ld,
        ),
      )
