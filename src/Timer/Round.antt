-- ===== src/Timer/Round.antt =====
-- A whole round of the thread of the timer, while its devices wait.
use lab_os_assignment.Base.{
  ℕ, zero, suc, ◌+◌, ◌*◌, ◌%◌, ◌^◌, ◌≡◌, refl, sym, ◌∙◌, ap, arith, Bool, true, false, ◌||◌, Option,
  some, none, List, [], ◌∷◌, ◌++◌, length, get_elem?, set, ◌==◌, if◌then◌else◌, All,
}
use lab_os_assignment.Timer.{
  TimerId, TimerPc, head, scan, advance, release, check, exited, Timer, timer_at, timer_routine,
}
use lab_os_assignment.Timer.Turn.{at_pc}

-- The thread of the timer on its own.
unfoldable pub turns : ℕ → Timer → Option Timer
turns zero s = some s
turns (suc k) s = elim (timer_routine s) [ none ↦ none | some t ↦ turns k t ]

get_elem?-middle :
    (pre post : List TimerId) (d : TimerId) → get_elem? (pre ++ d ∷ post) (length pre) ≡ some d
get_elem?-middle [] post d = refl
get_elem?-middle (x ∷ pre) post d = get_elem?-middle pre post d

set-middle :
    (pre post : List TimerId) (d d' : TimerId)
    → set (pre ++ d ∷ post) (length pre) d' ≡ pre ++ d' ∷ post
set-middle [] post d d' = refl
set-middle (x ∷ pre) post d d' = ap (λ l. x ∷ l) (set-middle pre post d d')

get_elem?-end : (pre : List TimerId) → get_elem? (pre ++ []) (length pre) ≡ none
get_elem?-end [] = refl
get_elem?-end (x ∷ pre) = get_elem?-end pre

length-snoc : (pre : List TimerId) (d : TimerId) → length (pre ++ d ∷ []) ≡ suc (length pre)
length-snoc [] d = refl
length-snoc (x ∷ pre) d = ap suc (length-snoc pre d)

snoc-append : (pre post : List TimerId) (d : TimerId) → (pre ++ d ∷ []) ++ post ≡ pre ++ d ∷ post
snoc-append [] post d = refl
snoc-append (x ∷ pre) post d = ap (λ l. x ∷ l) (snoc-append pre post d)

-- How many of the devices have finished.
abbrev pub finished : List TimerId → ℕ
finished [] = 0
finished (d ∷ devs) = (if d.fsh then 1 else 0) + finished devs

-- The counters of the first loop behind these devices.
abbrev fsh_after : List TimerId → ℕ → ℕ
fsh_after [] fsh = fsh
fsh_after (d ∷ devs) fsh = fsh_after devs (if d.fsh then fsh + 1 else fsh)

abbrev event_after : List TimerId → ℕ → ℕ
event_after [] event = event
event_after (d ∷ devs) event = event_after devs (event + 1)

fsh_after-eq : (devs : List TimerId) (fsh : ℕ) → fsh_after devs fsh ≡ fsh + finished devs
fsh_after-eq [] fsh = omega arith
fsh_after-eq (d ∷ devs) fsh = ground (arith, fsh_after-eq devs (if d.fsh then fsh + 1 else fsh))

event_after-eq : (devs : List TimerId) (event : ℕ) → event_after devs event ≡ event + length devs
event_after-eq [] event = omega arith
event_after-eq (d ∷ devs) event = omega (arith, event_after-eq devs (event + 1))

abbrev pub let_go : List TimerId → List TimerId
let_go [] = []
let_go (d ∷ devs) = (record d { done = false }) ∷ let_go devs

-- `k` steps after a loop over these devices.
abbrev after_loop : List TimerId → ℕ → ℕ
after_loop [] k = suc k
after_loop (d ∷ devs) k = suc (after_loop devs k)

turns-suc : (k : ℕ) (s t : Timer) → timer_routine s ≡ some t → turns (suc k) s ≡ turns k t
unfolding turns
turns-suc k s t e = rw (e, turns)

module _ (time rounds : ℕ) (begun stopped : Bool) where
  abbrev state : TimerPc → List TimerId → Timer
  state pc devs = at_pc pc devs time rounds begun stopped

  module _ (devs : List TimerId) (i fsh event : ℕ) where
    scan_past :
        get_elem? devs i ≡ none
        → timer_routine (state (scan i fsh event) devs) ≡ some (state (advance fsh event) devs)
    unfolding timer_routine
    scan_past e = rw (e, timer_at)

    scan_one :
        (d : TimerId)
        → get_elem? devs i ≡ some d
        → d.done || d.fsh ≡ true
        → timer_routine (state (scan i fsh event) devs)
          ≡ some (state (scan (suc i) (if d.fsh then fsh + 1 else fsh) (event + 1)) devs)
    unfolding timer_routine
    scan_one d e seen = rw (e, seen, timer_at)

    release_past :
        get_elem? devs i ≡ none
        → timer_routine (state (release i fsh event) devs) ≡ some (state (check fsh event) devs)
    unfolding timer_routine
    release_past e = rw (e, timer_at)

    release_one :
        (d : TimerId)
        → get_elem? devs i ≡ some d
        → timer_routine (state (release i fsh event) devs)
          ≡ some (state (release (suc i) fsh event) (set devs i (record d { done = false })))
    unfolding timer_routine
    release_one d e = rw (e, timer_at)

  scan_loop :
      (pre post : List TimerId) (fsh event k : ℕ)
      → All (λ d. d.done || d.fsh ≡ true) post
      → turns (after_loop post k) (state (scan (length pre) fsh event) (pre ++ post))
        ≡ turns k (state (advance (fsh_after post fsh) (event_after post event)) (pre ++ post))
  scan_loop pre [] fsh event k ready =
      turns-suc k _ _ (scan_past (pre ++ []) (length pre) fsh event (get_elem?-end pre))
  scan_loop pre (d ∷ post) fsh event k ready =
      turns-suc (after_loop post k) _ _
        (scan_one (pre ++ d ∷ post) (length pre) fsh event d (get_elem?-middle pre post d) ready.0)
      ∙ rw (← length-snoc pre d, ← snoc-append pre post d)
          (scan_loop (pre ++ d ∷ []) post (if d.fsh then fsh + 1 else fsh) (event + 1) k ready.1)

  release_loop :
      (pre post : List TimerId) (fsh event k : ℕ)
      → turns (after_loop post k) (state (release (length pre) fsh event) (pre ++ post))
        ≡ turns k (state (check fsh event) (pre ++ let_go post))
  release_loop pre [] fsh event k =
      turns-suc k _ _ (release_past (pre ++ []) (length pre) fsh event (get_elem?-end pre))
  release_loop pre (d ∷ post) fsh event k =
      turns-suc (after_loop post k) _ _
        (release_one (pre ++ d ∷ post) (length pre) fsh event d (get_elem?-middle pre post d))
      ∙ rw
          (
            set-middle pre post d gone_on,
            ← length-snoc pre gone_on,
            ← snoc-append pre post gone_on,
            ← snoc-append pre (let_go post) gone_on,
          )
          (release_loop (pre ++ gone_on ∷ []) post fsh event k)
    where
      gone_on : TimerId
      gone_on = record d { done = false }

after_loop-eq : (devs : List TimerId) (k : ℕ) → after_loop devs k ≡ length devs + suc k
after_loop-eq [] k = omega arith
after_loop-eq (d ∷ devs) k = omega (arith, after_loop-eq devs k)

-- One round, from the head of the outer loop.
round-eq :
    (devs : List TimerId) (time rounds : ℕ) (begun : Bool)
    → All (λ d. d.done || d.fsh ≡ true) devs
    → turns
        (suc (after_loop devs (suc (after_loop devs 1))))
        (at_pc head devs time rounds begun false)
      ≡ some (
          at_pc
            (if finished devs == length devs then exited else head)
            (let_go devs)
            ((time + 1) % 2 ^ 64)
            (rounds + 1)
            begun
            false)
unfolding timer_routine timer_at turns
round-eq devs time rounds begun ready =
    scan_loop time rounds begun false [] devs 0 0 (suc (after_loop devs 1)) ready
    ∙ release_loop ((time + 1) % 2 ^ 64) (rounds + 1) begun false [] devs (fsh_after devs 0)
        (event_after devs 0) 1
    ∙ last
  where
    all_fsh : fsh_after devs 0 ≡ finished devs
    all_fsh = omega (arith, fsh_after-eq devs 0)

    all_event : event_after devs 0 ≡ length devs
    all_event = omega (arith, event_after-eq devs 0)

    last :
        turns 1 (
          at_pc
            (check (fsh_after devs 0) (event_after devs 0))
            (let_go devs)
            ((time + 1) % 2 ^ 64)
            (rounds + 1)
            begun
            false)
        ≡ some (
            at_pc
              (if finished devs == length devs then exited else head)
              (let_go devs)
              ((time + 1) % 2 ^ 64)
              (rounds + 1)
              begun
              false)
    last = rw (all_fsh, all_event)

-- At the head of its loop, not told to stop, and with every device in next_slot or finished, the
-- thread of the timer comes to the end of a round by itself, in two steps for each device and five
-- more: the time is one later, as a 64-bit number, every device is let go on, and the thread goes on
-- with the next round, or ends if all devices have finished.
pub full_round :
    (s : Timer)
    → s.pc ≡ head
    → s.timer_stop ≡ false
    → All (λ d. d.done || d.fsh ≡ true) s.dev_list
    → turns (2 * length s.dev_list + 5) s
      ≡ some (record s {
        dev_list = let_go s.dev_list;
        time = (s.time + 1) % 2 ^ 64;
        rounds = s.rounds + 1;
        pc = if finished s.dev_list == length s.dev_list then exited else head;
      })
full_round s at_head going ready = rw steps (
    ap (turns (suc (after_loop devs (suc (after_loop devs 1))))) whole
    ∙ round-eq devs s.time s.rounds s.timer_started ready
    ∙ λ i. some (record s {
      dev_list = let_go devs;
      time = (s.time + 1) % 2 ^ 64;
      rounds = s.rounds + 1;
      timer_stop = sym going i;
      pc = if finished devs == length devs then exited else head;
    }))
  where
    devs : List TimerId
    devs = s.dev_list

    steps : 2 * length devs + 5 ≡ suc (after_loop devs (suc (after_loop devs 1)))
    steps = omega (arith, after_loop-eq devs (suc (after_loop devs 1)), after_loop-eq devs 1)

    whole : s ≡ at_pc head devs s.time s.rounds s.timer_started false
    whole = λ i. record s { timer_stop = going i; pc = at_head i }
