-- ===== src/Os/Quantum.antt =====
-- The turn of a process on a processor: the rounds from its dispatch until it is put back or done,
-- with no round of another thread between them.
use lab_os_assignment.Base.{
  ℕ, zero, suc, ◌+◌, ◌^◌, ◌<◌, ◌≤◌, ◌≡◌, refl, sym, ap, ◌∙◌, arith, none, some, length,
}
use lab_os_assignment.Outcome.{Outcome, ok, ◌>>=◌, >>=-assoc, >>=-cong}
use lab_os_assignment.Queue.{Proc}
use lab_os_assignment.Sched.{put_proc}
use lab_os_assignment.Cpu.{Pcb, run}
use lab_os_assignment.Cpu.Steps.{run_many, run-steps}
use lab_os_assignment.Os.Rounds.{keep, stored, ended, round_runs, round_preempts, round_finishes}
use lab_os_assignment.Os.{Machine, Event, waits, stops, CpuState, cpu_round}

-- At most `k` rounds of one processor, fewer if it ends.
pub cpu_rounds : (k fuel time_slot : ℕ) → CpuState → Machine → Outcome (Event × CpuState × Machine)
cpu_rounds zero fuel time_slot c m = ok (waits, c, m)
cpu_rounds (suc k) fuel time_slot c m = do
  r ← cpu_round fuel time_slot c m
  elim r.0 [ stops ↦ ok r | waits ↦ cpu_rounds k fuel time_slot r.1 r.2 ]

abbrev go_on :
    (k fuel time_slot : ℕ) → Event × CpuState × Machine → Outcome (Event × CpuState × Machine)
go_on k fuel time_slot (stops, c, m) = ok (stops, c, m)
go_on k fuel time_slot (waits, c, m) = cpu_rounds k fuel time_slot c m

cpu_rounds-suc :
    (k fuel time_slot : ℕ) (c : CpuState) (m : Machine)
    → cpu_rounds (suc k) fuel time_slot c m
      ≡ (cpu_round fuel time_slot c m >>= go_on k fuel time_slot)
unfolding cpu_rounds
cpu_rounds-suc k fuel time_slot c m = ap (λ f. cpu_round fuel time_slot c m >>= f) (λ i r. same r i)
  where
    same :
        (r : Event × CpuState × Machine)
        → elim r.0 [ stops ↦ ok r | waits ↦ cpu_rounds k fuel time_slot r.1 r.2 ]
          ≡ go_on k fuel time_slot r
    same (stops, c, m) = refl
    same (waits, c, m) = refl

go_on-zero : (fuel time_slot : ℕ) (r : Event × CpuState × Machine) → go_on 0 fuel time_slot r ≡ ok r
unfolding cpu_rounds
go_on-zero fuel time_slot (stops, c, m) = refl
go_on-zero fuel time_slot (waits, c, m) = refl

-- Rounds that begin in the middle of a turn: the first runs an instruction.
turn_suc :
    (k count left fuel time_slot : ℕ) (m : Machine) (p : Proc) (pcb : Pcb)
    (after : Pcb → Outcome (Event × CpuState × Machine))
    → pcb.pc < length pcb.text
    → suc left < 2 ^ 31
    → ((next : Pcb)
        → length next.text ≡ length pcb.text
        → next.pc ≡ pcb.pc + 1
        → cpu_rounds k fuel time_slot (record { proc = some p; time_left = left }) (keep m p next)
          ≡ (run_many fuel count next >>= after))
    → cpu_rounds
        (suc k)
        fuel
        time_slot
        (record { proc = some p; time_left = suc left })
        (keep m p pcb)
      ≡ (run_many fuel (suc count) pcb >>= after)
unfolding run_many
turn_suc k count left fuel time_slot m p pcb after before small rest =
    cpu_rounds-suc k fuel time_slot (record { proc = some p; time_left = suc left }) (keep m p pcb)
    ∙ ap (λ x. x >>= go_on k fuel time_slot) (round_runs fuel time_slot left m p pcb before small)
    ∙ >>=-assoc (run fuel pcb) _ (go_on k fuel time_slot)
    ∙ >>=-cong (run fuel pcb) _ (λ r. run_many fuel count r.1 >>= after)
        (λ r done.
          (let (text, pc) = run-steps fuel pcb r done before in rest r.1 (ap length text) pc))
    ∙ sym (>>=-assoc (run fuel pcb) (λ r. run_many fuel count r.1) after)

-- A process whose time slot ends first: `left` rounds run one instruction each, as `left` calls of
-- `run` on the process alone do, and the next round puts it back into the queue of its priority. The
-- processor is then idle, or ends if the loader is done.
pub turn-preempted :
    (left fuel time_slot : ℕ) (m : Machine) (p : Proc) (pcb : Pcb)
    → pcb.pc + left < length pcb.text
    → left < 2 ^ 31
    → cpu_rounds
        (suc left)
        (suc fuel)
        time_slot
        (record { proc = some p; time_left = left })
        (keep m p pcb)
      ≡ (run_many (suc fuel) left pcb >>= λ last. put_proc m.sched p >>= λ s. ok (
        ended m.done,
        record { proc = none; time_left = 0 },
        record (keep m p last) { sched = s },
      ))
unfolding run_many
turn-preempted zero fuel time_slot m p pcb before small =
    cpu_rounds-suc 0 (suc fuel) time_slot (record { proc = some p; time_left = 0 }) (keep m p pcb)
    ∙ ap (λ x. x >>= go_on 0 (suc fuel) time_slot)
        (round_preempts fuel time_slot m p pcb (omega arith))
    ∙ >>=-assoc (put_proc m.sched p) _ (go_on 0 (suc fuel) time_slot)
    ∙ ap (λ f. put_proc m.sched p >>= f)
        (λ i s.
          go_on-zero (suc fuel) time_slot
            (
              ended m.done,
              record { proc = none; time_left = 0 },
              record (keep m p pcb) { sched = s },
            )
            i)
turn-preempted (suc left) fuel time_slot m p pcb before small =
    turn_suc (suc left) left left (suc fuel) time_slot m p pcb _ (omega arith) small
      λ next size pc. turn-preempted left fuel time_slot m p next (omega arith) (omega arith)

-- A process that finishes in its time slot, or in its last round: `rest` rounds run the rest of its
-- instructions, as `rest` calls of `run` on the process alone do, and the next round frees it and
-- keeps RAM and swap; the queues are as before. The processor is then idle, or ends if the loader is
-- done.
pub turn-finished :
    (rest left fuel time_slot : ℕ) (m : Machine) (p : Proc) (pcb : Pcb)
    → pcb.pc + rest ≡ length pcb.text
    → rest ≤ left
    → left < 2 ^ 31
    → cpu_rounds
        (suc rest)
        (suc fuel)
        time_slot
        (record { proc = some p; time_left = left })
        (keep m p pcb)
      ≡ (run_many (suc fuel) rest pcb >>= λ last.
          ok (ended m.done, record { proc = none; time_left = 0 }, stored m p none last))
unfolding run_many
turn-finished zero left fuel time_slot m p pcb over le small =
    cpu_rounds-suc 0 (suc fuel) time_slot (record { proc = some p; time_left = left })
      (keep m p pcb)
    ∙ ap (λ x. x >>= go_on 0 (suc fuel) time_slot)
        (round_finishes fuel time_slot left m p pcb (omega arith))
    ∙ go_on-zero (suc fuel) time_slot
        (ended m.done, record { proc = none; time_left = 0 }, stored m p none pcb)
turn-finished (suc rest) zero fuel time_slot m p pcb over le small = absurd (omega arith)
turn-finished (suc rest) (suc left) fuel time_slot m p pcb over le small =
    turn_suc (suc rest) rest left (suc fuel) time_slot m p pcb _ (omega arith) small λ next size pc.
      turn-finished rest left fuel time_slot m p next (omega arith) (omega arith) (omega arith)
