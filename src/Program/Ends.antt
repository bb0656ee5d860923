-- ===== src/Program/Ends.antt =====
-- That the loader can come to its end, by slots in which the threads work one after the other.
use lab_os_assignment.Base.{
  ℕ, zero, suc, ◌+◌, ◌≤◌, ◌^◌, ◌<◌, ◌≡◌, refl, ap, ◌∙◌, arith, none, some, List, [], length,
  length-set, All, get_elem?, get_elem?-some, get_elem?_lt,
}
use lab_os_assignment.Outcome.{ok}
use lab_os_assignment.Sched.Holds.{IsTable}
use lab_os_assignment.Os.{Machine, Event, waits, stops, LdArgs, LdState, Fresh, ld_round}
use lab_os_assignment.Os.System.{System}
use lab_os_assignment.Os.Lines.{load_all, rounds_needed, at_line}
use lab_os_assignment.Os.Lines.Queues.{queued}
use lab_os_assignment.Os.Lines.Ended.{rounds_left, next_round}
use lab_os_assignment.Os.Lines.Total.{IsLoadable, load_all-total}
use lab_os_assignment.Timer.{TimerId, next_slot, current_time, started, start_timer}
use lab_os_assignment.Timer.New.{attach_many-IsNew}
use lab_os_assignment.Timer.Lockstep.{current_time-working}
use lab_os_assignment.Program.{State, launch, runs_loader, Reach, start, later}
use lab_os_assignment.Program.Returns.{BootArgs, Boots, boot-IsBooted, Reach-timer}
use lab_os_assignment.Program.Loads.{Reach-Loading}
use lab_os_assignment.Program.Ready.{boot-Holds}
use lab_os_assignment.Program.Slot.{
  at_work, called, Swept, swept_one, Comes, all_call, one_turn, all_resume,
}

launch-Swept : (first : System) → Swept 0 0 (called 0) (at_work 0) (launch first)
unfolding started start_timer
launch-Swept first =
    let v = attach_many-IsNew (suc (length first.cpus)) in
    record {
      size = v.size;
      at_head = v.idle;
      going = v.running;
      rounds = v.clock.1;
      devices = λ j d at. (λ small. absurd (omega arith), λ large. v.devices j d at);
    }

first_works :
    {r : ℕ} {below : TimerId} (p : State)
    → Swept r 0 below (at_work r) p
    → get_elem? p.timer.dev_list 0 ≡ some (at_work r)
first_works p v =
    let (d, found) = get_elem?_lt p.timer.dev_list 0 (omega (arith, v.size)) in
    found ∙ ap (λ x. some x) ((v.devices 0 d found).1 (omega arith))

-- All devices have gone on: the next slot.
next_Swept :
    {r : ℕ} {below : TimerId} (p : State)
    → Swept r (length p.timer.dev_list) (at_work r) below p
    → Swept r 0 (called r) (at_work r) p
next_Swept p v = record {
  size = v.size;
  at_head = v.at_head;
  going = v.going;
  rounds = v.rounds;
  devices = λ j d at. (
    λ small. absurd (omega arith),
    λ large. (v.devices j d at).0 (get_elem?-some p.timer.dev_list j at),
  );
}

module _ (b : BootArgs) (first : System) (booted : Boots b first) (fuel time_slot : ℕ)
    (processes : List LdArgs) (new : ℕ → Fresh) where
  -- The loader has ended in time.
  abbrev pub Ends : State → Type 0
  Ends q = (q.ld ≡ none) × (q.timer.rounds < 2 ^ 64)

  -- The loader's round of the slot.
  round_of :
      (r : ℕ) (l : LdState) (p : State) (n : ℕ) (m' : Machine)
      → load_all processes 0 new 1 first.machine ≡ ok (some (n, m'))
      → Reach fuel time_slot processes new (launch first) p
      → r ≤ rounds_needed processes 0
      → rounds_needed processes 0 < 2 ^ 64
      → p.ld ≡ some l
      → Swept r 0 (called r) (at_work r) p
      → (r < rounds_needed processes 0)
        × (e : Event) × (l' : LdState) × (m'' : Machine) × (p.timer.rounds < 2 ^ 64)
        × (ld_round processes (current_time p.timer) (new (current_time p.timer)) l p.machine
            ≡ ok (some (e, l', m'')))
  round_of r l p n m' all reached count small ld v =
      let at = first_works p v in
      let in_time : p.timer.rounds < 2 ^ 64 = omega (arith, v.rounds) in
      let ran =
        ((Reach-Loading b first booted reached in_time).alive l ld 0 (at_work r) at refl).1 refl in
      let now : current_time p.timer ≡ r =
        current_time-working 0 (at_work r) (Reach-timer b first booted reached) at refl
        ∙ omega (arith, v.rounds, in_time) in
      let (result, round) = next_round processes new r l first.machine p.machine n m' ran all in
      (
        rounds_left processes new r l first.machine p.machine n m' ran all,
        result.0,
        result.1,
        result.2,
        in_time,
        ap (λ t. ld_round processes t (new t) l p.machine) now ∙ round,
      )

  -- A time slot from the loader's round on; `again` is what follows it.
  after_round :
      (r : ℕ) (l : LdState) (p : State) (e : Event) (l' : LdState) (m' : Machine)
      → Reach fuel time_slot processes new (launch first) p
      → p.ld ≡ some l
      → Swept r 0 (called r) (at_work r) p
      → p.timer.rounds < 2 ^ 64
      → ld_round processes (current_time p.timer) (new (current_time p.timer)) l p.machine
        ≡ ok (some (e, l', m'))
      → ((q : State)
          → Reach fuel time_slot processes new (launch first) q
          → q.ld ≡ some l'
          → Swept (suc r) 0 (called (suc r)) (at_work (suc r)) q
          → Comes b first booted fuel time_slot processes new Ends)
      → Comes b first booted fuel time_slot processes new Ends
  unfolding next_slot
  after_round r l p stops l' m' reached ld v in_time round again =
      let at = first_works p v in
      (_, later reached (runs_loader l (at_work r) ld at refl round), (refl, in_time))
  after_round r l p waits l' m' reached ld v in_time round again =
      let at = first_works p v in
      let (p1, r1, (v1, ld1)) =
        all_call b first booted fuel time_slot processes new (length p.cpus) 0 r l' _
          (later reached (runs_loader l (at_work r) ld at refl round)) (omega arith) refl
          (record {
            size = length-set p.timer.dev_list 0 (called r) ∙ v.size;
            at_head = v.at_head;
            going = v.going;
            rounds = v.rounds;
            devices = swept_one p.timer.dev_list v.devices;
          }) in
      let (p2, r2, (v2, ld2)) =
        one_turn b first booted fuel time_slot processes new r l' p1 r1 ld1 v1 in
      let (p3, r3, (v3, ld3)) =
        all_resume b first booted fuel time_slot processes new (length p2.timer.dev_list) 0 r l' p2
          r2 (omega arith) ld2 v2 in
      again p3 r3 ld3 (next_Swept p3 v3)

  slots_end :
      (t r : ℕ) (l : LdState) (p : State) (n : ℕ) (m' : Machine)
      → load_all processes 0 new 1 first.machine ≡ ok (some (n, m'))
      → Reach fuel time_slot processes new (launch first) p
      → r + t ≡ rounds_needed processes 0
      → rounds_needed processes 0 < 2 ^ 64
      → p.ld ≡ some l
      → Swept r 0 (called r) (at_work r) p
      → Comes b first booted fuel time_slot processes new Ends
  slots_end zero r l p n m' all reached count small ld v =
      let (left, e, l', m'', in_time, round) =
        round_of r l p n m' all reached (omega arith) small ld v in
      absurd (omega arith)
  slots_end (suc t) r l p n m' all reached count small ld v =
      let (left, e, l', m'', in_time, round) =
        round_of r l p n m' all reached (omega arith) small ld v in
      after_round r l p e l' m'' reached ld v in_time round
        (λ q reached' ld' v'. slots_end t (suc r) l' q n m' all reached' (omega arith) small ld' v')

  can_end :
      (n : ℕ) (m' : Machine)
      → load_all processes 0 new 1 first.machine ≡ ok (some (n, m'))
      → rounds_needed processes 0 < 2 ^ 64
      → Comes b first booted fuel time_slot processes new Ends
  can_end n m' all small =
      slots_end (rounds_needed processes 0) 0 (at_line 0 1) (launch first) n m' all start
        (omega arith) small (boot-IsBooted b first booted).ld (launch-Swept first)

  -- With a configuration whose files are processes as `print` writes them, with priorities that have a
  -- queue and at most ten processes of each, and fewer than 2^64 time slots to the start of the last,
  -- the threads can take steps after which the loader has ended, in fewer than 2^64 time slots.
  pub loader_ends :
      IsTable b.unset
      → All IsLoadable processes
      → ((prio : ℕ) → length (queued prio 1 processes) ≤ 10)
      → rounds_needed processes 0 < 2 ^ 64
      → (q : State) × Reach fuel time_slot processes new (launch first) q
        × (q.ld ≡ none)
        × (q.timer.rounds < 2 ^ 64)
  loader_ends table loadable room small =
      let ((n, m'), all) =
        load_all-total (λ j. []) processes 0 new 1 first.machine (boot-Holds b first booted table)
          loadable room in
      let (q, reached, (ended, in_time)) = can_end n m' all small in (q, reached, ended, in_time)
