-- ===== src/Cpu/Steps.antt =====
-- How the program counter moves.
use native.Mathlib.Decide.{dec_lt}
use lab_os_assignment.Base.{
  List, sym, ℕ, zero, suc, ◌+◌, ◌≤◌, ◌<◌, ◌≡◌, ◌∙◌, arith, min, some, length, get_elem?,
  get_elem?_lt, leb, le→leb, lt→leb, if◌then◌else◌, ap,
}
use lab_os_assignment.Outcome.{Outcome, ok, fault, ◌>>=◌, >>=-eq-ok}
use lab_os_assignment.Cpu.{Pcb, Inst, execute, run}

-- Past the end of the code `run` returns 1 and changes nothing.
pub run-finished :
    (fuel : ℕ) (proc : Pcb) → length proc.text ≤ proc.pc → run fuel proc ≡ ok (1, proc)
unfolding run
run-finished fuel proc h = rw (le→leb (length proc.text) proc.pc h)

-- Before it, a run that comes to a result has executed the instruction at the program counter, and
-- moved the counter by one, whatever the instruction returned; the code is kept.
pub run-executes :
    (fuel : ℕ) (proc : Pcb) (ins : Inst)
    → get_elem? proc.text proc.pc ≡ some ins
    → proc.pc < length proc.text
    → run fuel proc ≡ (
        execute fuel ins.opcode ins.arg_0 ins.arg_1 ins.arg_2 proc.caller >>= λ r.
        ok (r.0, record proc { pc = proc.pc + 1; caller = r.1 }))
unfolding run
run-executes fuel proc ins e h = rw (lt→leb (length proc.text) proc.pc h, e)

-- `count` calls of `run`, one after the other.
unfoldable pub run_many : (fuel count : ℕ) → Pcb → Outcome Pcb
run_many fuel zero proc = ok proc
run_many fuel (suc count) proc = run fuel proc >>= λ r. run_many fuel count r.1

-- The code and the counter that a run leaves.
place : Pcb → Outcome (ℕ × Pcb) → List Inst × ℕ
place proc (ok r) = (r.1.text, r.1.pc)
place proc (fault e) = (proc.text, proc.pc)

run-pc :
    (fuel : ℕ) (proc : Pcb) (r : ℕ × Pcb)
    → run fuel proc ≡ ok r
    → place proc (ok r)
      ≡ (proc.text, (if leb (length proc.text) proc.pc then proc.pc else proc.pc + 1))
unfolding place
run-pc fuel proc r h = elim (dec_lt proc.pc (length proc.text)) [
  | yes before ↦
      (let (ins, e) = get_elem?_lt proc.text proc.pc before in
        let (x, done, last) =
          >>=-eq-ok (execute fuel ins.opcode ins.arg_0 ins.arg_1 ins.arg_2 proc.caller)
            (λ x. ok (x.0, record proc { pc = proc.pc + 1; caller = x.1 }))
            (sym (run-executes fuel proc ins e before) ∙ h) in
        rw (lt→leb (length proc.text) proc.pc before) (sym (ap (place proc) last)))
  | no past ↦
      rw (le→leb (length proc.text) proc.pc (omega arith))
        (sym (ap (place proc) (sym (run-finished fuel proc (omega arith)) ∙ h)))
]

-- A run that comes to a result keeps the code, and moves the counter by one before its end.
pub run-steps :
    (fuel : ℕ) (proc : Pcb) (r : ℕ × Pcb)
    → run fuel proc ≡ ok r
    → proc.pc < length proc.text
    → (r.1.text ≡ proc.text) × (r.1.pc ≡ proc.pc + 1)
unfolding place
run-steps fuel proc r h before =
    let at = run-pc fuel proc r h in
    let pc : r.1.pc ≡ (if leb (length proc.text) proc.pc then proc.pc else proc.pc + 1) =
      ap (λ x. x.1) at in
    (ap (λ x. x.0) at, rw (lt→leb (length proc.text) proc.pc before) at pc)

-- After `count` calls that come to results the counter has moved by `count`, but not past the end of
-- the code: a process has finished exactly when it has been given as many calls as instructions.
pub run_many-pc :
    (fuel count : ℕ) (proc last : Pcb)
    → proc.pc ≤ length proc.text
    → run_many fuel count proc ≡ ok last
    → (last.text ≡ proc.text) × (last.pc ≡ min (proc.pc + count) (length proc.text))
unfolding run_many place
run_many-pc fuel zero proc last le h = ground arith
run_many-pc fuel (suc count) proc last le h =
    let (r, step, rest) = >>=-eq-ok (run fuel proc) _ h in
    let at : place proc (ok r)
        ≡ (proc.text, (if leb (length proc.text) proc.pc then proc.pc else proc.pc + 1)) =
      run-pc fuel proc r step in
    let text : r.1.text ≡ proc.text = ap (λ x. x.0) at in
    let size : length r.1.text ≡ length proc.text = ap length text in
    let pc : r.1.pc ≡ (if leb (length proc.text) proc.pc then proc.pc else proc.pc + 1) =
      ap (λ x. x.1) at in
    let (text', pc') = run_many-pc fuel count r.1 last (ground arith) rest in
    (text' ∙ text, ground arith)
