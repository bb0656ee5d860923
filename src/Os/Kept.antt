-- ===== src/Os/Kept.antt =====
-- What a round of the loader keeps: the programs that it has read are at their start, and RAM and
-- swap are as they were.
use native.Mathlib.Decide.{ℕ_discrete}
use mathlib.Core.Logic.{if_pos, if_neg}
use lab_os_assignment.Base.{
  ℕ, ◌+◌, ◌≡◌, refl, sym, ap, ◌∙◌, ◌%◌, ◌^◌, true, Option, none, some, List, get_elem?, subst,
  some-injective, Bool-cases, Option-cases, inl, inr, ltb,
}
use lab_os_assignment.Outcome.{Outcome, ok, ◌>>=◌, need, out_of_bounds, >>=-eq-ok, ok-injective}
use lab_os_assignment.Mm.{init_mm}
use lab_os_assignment.Sched.{Sched, add_proc}
use lab_os_assignment.Loader.{Program, load}
use lab_os_assignment.Loader.RoundTrip.{load-starts}
use lab_os_assignment.Os.{
  Task, Machine, Event, waits, stops, LdArgs, Fresh, LdState, put_task, ld_round, try_add,
}

abbrev pub AtStart : Machine → Type 0
AtStart m = (pid : ℕ) (t : Task) → m.tasks pid ≡ some t → t.pc ≡ 0

-- What a round of the loader leaves of the machine `m`, and of its own state.
pub record Kept (m : Machine) (r : Event × LdState × Machine) : Type 0 where
  pub tasks : AtStart r.2
  pub loaded : (p : Program) → r.1.proc ≡ some p → p.pc ≡ 0
  pub mram : r.2.mram ≡ m.mram
  pub active_mswp : r.2.active_mswp ≡ m.active_mswp

put_task-AtStart :
    (m : Machine) (pid : ℕ) (t : Task) → t.pc ≡ 0 → AtStart m → AtStart (put_task m pid (some t))
put_task-AtStart m pid t zero_pc v j u e = elim (ℕ_discrete pid j) [
  | yes here ↦
      (let e' : some t ≡ some u = sym (if_pos (ℕ_discrete pid j) here _ _) ∙ e in
        subst (λ (x : Task). x.pc ≡ 0) (some-injective e') zero_pc)
  | no away ↦ v j u (sym (if_neg (ℕ_discrete pid j) away _ _) ∙ e)
]

abbrev added : LdState → Fresh → Program → Sched → Machine → Event × LdState × Machine
added l new p s m = (
  waits,
  record l { i = l.i + 1; proc = none },
  record (put_task m p.pid
      (some (record { text = p.text; pc = p.pc; mm = init_mm new.ptes new.syms }))) { sched = s },
)

try_add-Kept :
    (args : LdArgs) (time : ℕ) (new : Fresh) (l : LdState) (p : Program) (m : Machine)
    (r : Event × LdState × Machine)
    → try_add args time new l p m ≡ ok r
    → p.pc ≡ 0
    → AtStart m
    → Kept m r
unfolding try_add
try_add-Kept args time new l p m r e zero_pc v = elim (Bool-cases (ltb time args.start_time)) [
  | inl early ↦
      (let same : ◌≡◌ {A = Event × LdState × Machine} (waits, record l { proc = some p }, m) r =
          ok-injective (rw (early, try_add) at e) in
        subst (Kept m) same (record {
          tasks = v;
          loaded = λ p' q. subst (λ (x : Program). x.pc ≡ 0) (some-injective q) zero_pc;
          mram = refl;
          active_mswp = refl;
        }))
  | inr due ↦
      (let h : (do
        s ← add_proc m.sched (record { pid = p.pid; prio = args.prio % 2 ^ 32 })
        ok (added l new p s m))
            ≡ ok r =
          rw (due, try_add) at e in
        let (s, _, last) =
          >>=-eq-ok (add_proc m.sched (record { pid = p.pid; prio = args.prio % 2 ^ 32 })) _ h in
        subst (Kept m) (ok-injective last) (record {
          tasks = put_task-AtStart m p.pid _ zero_pc v;
          loaded = λ p' q. cc;
          mram = refl;
          active_mswp = refl;
        }))
]

abbrev try_some :
    LdArgs
    → (time : ℕ) → Fresh
    → LdState
    → Program
    → Machine
    → Outcome (Option (Event × LdState × Machine))
try_some args time new l p m = do r ← try_add args time new l p m; ok (some r)

try_some-Kept :
    (args : LdArgs) (time : ℕ) (new : Fresh) (l : LdState) (p : Program) (m : Machine)
    (r : Event × LdState × Machine)
    → try_some args time new l p m ≡ ok (some r)
    → p.pc ≡ 0
    → AtStart m
    → Kept m r
try_some-Kept args time new l p m r e zero_pc v =
    let (r', tried, last) = >>=-eq-ok (try_add args time new l p m) _ e in
    subst (Kept m) (some-injective (ok-injective last))
      (try_add-Kept args time new l p m r' tried zero_pc v)

-- A round that loads the file of line `i`.
abbrev after_load :
    LdArgs
    → (time : ℕ) → Fresh
    → LdState
    → Machine
    → Option (Program × ℕ)
    → Outcome (Option (Event × LdState × Machine))
after_load args time new l m none = ok none
after_load args time new l m (some (p, avail_pid)) =
    try_some args time new (record l { avail_pid = avail_pid }) p m

after_load-Kept :
    (args : LdArgs) (time : ℕ) (new : Fresh) (l : LdState) (m : Machine) (o : Option (Program × ℕ))
    (r : Event × LdState × Machine)
    → after_load args time new l m o ≡ ok (some r)
    → ((q : Program × ℕ) → o ≡ some q → q.0.pc ≡ 0)
    → AtStart m
    → Kept m r
after_load-Kept args time new l m none r e zero_pc v = cc
after_load-Kept args time new l m (some (p, n)) r e zero_pc v =
    try_some-Kept args time new (record l { avail_pid = n }) p m r e (zero_pc (p, n) refl) v

-- A round of the loader reads the programs of its files, whose program counters are 0.
pub ld_round-Kept :
    (processes : List LdArgs) (time : ℕ) (new : Fresh) (l : LdState) (m : Machine)
    (r : Event × LdState × Machine)
    → ld_round processes time new l m ≡ ok (some r)
    → ((p : Program) → l.proc ≡ some p → p.pc ≡ 0)
    → AtStart m
    → Kept m r
unfolding ld_round
ld_round-Kept processes time new l m r e zero_pc v = elim (Option-cases l.proc) [
  | inr (p, waiting) ↦
      (let h : (do
        args ← need out_of_bounds (get_elem? processes l.i)
        try_some args time new l p m)
            ≡ ok (some r) =
          rw (waiting, ld_round) at e in
        let (args, _, h1) = >>=-eq-ok (need out_of_bounds (get_elem? processes l.i)) _ h in
        try_some-Kept args time new l p m r h1 (zero_pc p waiting) v)
  | inl free ↦ elim (Option-cases (get_elem? processes l.i)) [
    | inl over ↦
        (let h : ok (some (stops, l, record m { done = true })) ≡ ok (some r) =
            rw (free, over, ld_round) at e in
          let same : ◌≡◌ {A = Event × LdState × Machine} (stops, l, record m { done = true }) r =
            some-injective (ok-injective h) in
          subst (Kept m) same
            (record { tasks = v; loaded = zero_pc; mram = refl; active_mswp = refl }))
    | inr (args, line) ↦
        (let h : (do
          o ← load l.avail_pid args.file new.priority new.size new.mem
          after_load args time new l m o)
              ≡ ok (some r) =
            rw (free, line, ld_round) at e in
          let (o, loaded, h1) =
            >>=-eq-ok (load l.avail_pid args.file new.priority new.size new.mem) _ h in
          after_load-Kept args time new l m o r h1
            (λ q is.
              (load-starts l.avail_pid args.file new.priority new.size new.mem q
                (loaded ∙ ap (λ x. ok x) is)).0)
            v)
  ]
]
