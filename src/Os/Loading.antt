-- ===== src/Os/Loading.antt =====
-- A line of the configuration in the hands of the loader: its rounds from the first look at the line
-- until the process is in its queue. One round takes one time slot.
use lab_os_assignment.Base.{
  ℕ, zero, suc, ◌+◌, ◌%◌, ◌^◌, ◌≤◌, ◌<◌, ◌-◌, ◌≡◌, refl, ap, ◌∙◌, arith, Option, none, some, List,
  get_elem?, lt→ltb, ge→ltb,
}
use lab_os_assignment.Outcome.{Outcome, ok, ◌>>=◌, >>=-assoc}
use lab_os_assignment.Mm.{init_mm}
use lab_os_assignment.Sched.{Sched, add_proc}
use lab_os_assignment.Loader.{Program, load}
use lab_os_assignment.Os.{
  Task, Machine, Event, waits, stops, LdArgs, Fresh, LdState, put_task, ld_round, try_add,
}

abbrev pub Round : Type 0
Round = Outcome (Option (Event × LdState × Machine))

-- What follows a round, if the loader goes on.
abbrev pub ld_rest : (LdState → Machine → Round) → Option (Event × LdState × Machine) → Round
ld_rest rest none = ok none
ld_rest rest (some (stops, l, m)) = ok (some (stops, l, m))
ld_rest rest (some (waits, l, m)) = rest l m

-- At most `k` rounds of the loader, fewer if it ends; `new` is what `malloc` returns, by time slot.
unfoldable pub ld_rounds :
    (k : ℕ) → List LdArgs → (time : ℕ) → (new : ℕ → Fresh) → LdState → Machine → Round
ld_rounds zero processes time new l m = ok (some (waits, l, m))
ld_rounds (suc k) processes time new l m =
    ld_round processes time (new time) l m >>= ld_rest (ld_rounds k processes (time + 1) new)

-- The loader and the machine when `p` has been put into the queue of its priority.
abbrev pub loaded : LdState → LdArgs → Fresh → Program → Machine → Round
loaded l args new p m = do
  s ← add_proc m.sched (record { pid = p.pid; prio = args.prio % 2 ^ 32 })
  let task : Task = record { text = p.text; pc = p.pc; mm = init_mm new.ptes new.syms }
  ok (
      some (
        waits,
        record l { i = l.i + 1; proc = none },
        record (put_task m p.pid (some task)) { sched = s },
      ))

abbrev try_some : LdArgs → (time : ℕ) → Fresh → LdState → Program → Machine → Round
try_some args time new l p m = do r ← try_add args time new l p m; ok (some r)

try_some-due :
    (args : LdArgs) (time : ℕ) (new : Fresh) (l : LdState) (p : Program) (m : Machine)
    (processes : List LdArgs) (later : ℕ → Fresh)
    → args.start_time ≤ time
    → (try_some args time new l p m >>= ld_rest (ld_rounds 0 processes (time + 1) later))
      ≡ loaded l args new p m
unfolding try_add ld_rounds
try_some-due args time new l p m processes later due = rw (ge→ltb time args.start_time due) (
    >>=-assoc (add >>= added) (λ r. ok (some r)) stop
    ∙ >>=-assoc add added (λ r. ok (some r) >>= stop))
  where
    add : Outcome Sched
    add = add_proc m.sched (record { pid = p.pid; prio = args.prio % 2 ^ 32 })

    stop : Option (Event × LdState × Machine) → Round
    stop = ld_rest (ld_rounds 0 processes (time + 1) later)

    added : Sched → Outcome (Event × LdState × Machine)
    added s = ok (
      waits,
      record l { i = l.i + 1; proc = none },
      record (put_task m p.pid
          (some (record { text = p.text; pc = p.pc; mm = init_mm new.ptes new.syms }))) {
            sched = s;
          },
    )

try_some-early :
    (args : LdArgs) (time : ℕ) (new : Fresh) (l : LdState) (p : Program) (m : Machine)
    (rest : LdState → Machine → Round)
    → time < args.start_time
    → (try_some args time new l p m >>= ld_rest rest) ≡ rest (record l { proc = some p }) m
unfolding try_add
try_some-early args time new l p m rest early = rw (lt→ltb time args.start_time early)

ld_round-held :
    (processes : List LdArgs) (args : LdArgs) (time : ℕ) (new : Fresh) (l : LdState) (p : Program)
    (m : Machine)
    → get_elem? processes l.i ≡ some args
    → l.proc ≡ some p
    → ld_round processes time new l m ≡ try_some args time new l p m
unfolding ld_round
ld_round-held processes args time new l p m line held = rw (held, line)

ld_round-free :
    (processes : List LdArgs) (args : LdArgs) (time : ℕ) (new : Fresh) (l : LdState) (p : Program)
    (next_pid : ℕ) (m : Machine)
    → l.proc ≡ none
    → get_elem? processes l.i ≡ some args
    → load l.avail_pid args.file new.priority new.size new.mem ≡ ok (some (p, next_pid))
    → ld_round processes time new l m
      ≡ try_some args time new (record l { avail_pid = next_pid }) p m
unfolding ld_round
ld_round-free processes args time new l p next_pid m free line file =
    rw (free, ld_round, line, file)

-- A process that is not due is kept until it is.
waits_for :
    (w : ℕ) (processes : List LdArgs) (time : ℕ) (new : ℕ → Fresh) (l : LdState) (args : LdArgs)
    (p : Program) (m : Machine)
    → get_elem? processes l.i ≡ some args
    → w ≡ args.start_time - time
    → (try_some args time (new time) l p m >>= ld_rest (ld_rounds w processes (time + 1) new))
      ≡ loaded l args (new (time + w)) p m
unfolding ld_rounds
waits_for zero processes time new l args p m line w_eq =
    try_some-due args time (new time) l p m processes new (omega arith)
    ∙ ap (λ t. loaded l args (new t) p m) (omega arith)
waits_for (suc w) processes time new l args p m line w_eq =
    try_some-early args time (new time) l p m (ld_rounds (suc w) processes (time + 1) new)
      (omega arith)
    ∙ ap (λ x. x >>= ld_rest (ld_rounds w processes (time + 1 + 1) new))
        (ld_round-held processes args (time + 1) (new (time + 1)) (record l { proc = some p }) p m
          line refl)
    ∙ waits_for w processes (time + 1) new (record l { proc = some p }) args p m line (omega arith)
    ∙ ap (λ t. loaded l args (new t) p m) (omega arith)

-- The round in which the loader comes to a line that is due.
pub ld_round-due :
    (processes : List LdArgs) (args : LdArgs) (time : ℕ) (new : Fresh) (l : LdState) (p : Program)
    (next_pid : ℕ) (m : Machine)
    → l.proc ≡ none
    → get_elem? processes l.i ≡ some args
    → load l.avail_pid args.file new.priority new.size new.mem ≡ ok (some (p, next_pid))
    → args.start_time ≤ time
    → ld_round processes time new l m ≡ loaded (record l { avail_pid = next_pid }) args new p m
unfolding try_add
ld_round-due processes args time new l p next_pid m free line file due =
    ld_round-free processes args time new l p next_pid m free line file
    ∙ rw (ge→ltb time args.start_time due) (>>=-assoc (add_proc m.sched _) _ (λ r. ok (some r)))

-- A line of the configuration whose file is a program: the loader reads the file in the time slot in
-- which it comes to the line, and puts the process into the queue of its priority in the slot of its
-- start time, or at once when that has passed; not earlier and not later. The process has the memory
-- that `init_mm` sets up, and the loader goes on with the next line and the next process number.
pub added-on_time :
    (processes : List LdArgs) (time : ℕ) (new : ℕ → Fresh) (l : LdState) (args : LdArgs)
    (p : Program) (next_pid : ℕ) (m : Machine)
    → l.proc ≡ none
    → get_elem? processes l.i ≡ some args
    → load l.avail_pid args.file (new time).priority (new time).size (new time).mem
      ≡ ok (some (p, next_pid))
    → ld_rounds (suc (args.start_time - time)) processes time new l m
      ≡ loaded (record l { avail_pid = next_pid }) args (new (time + (args.start_time - time))) p m
unfolding ld_rounds
added-on_time processes time new l args p next_pid m free line file =
    ap (λ x. x >>= ld_rest (ld_rounds (args.start_time - time) processes (time + 1) new))
      (ld_round-free processes args time (new time) l p next_pid m free line file)
    ∙ waits_for (args.start_time - time) processes time new (record l { avail_pid = next_pid }) args
        p m line refl
