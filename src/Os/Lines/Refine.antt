-- ===== src/Os/Lines/Refine.antt =====
-- The rounds of the loader, and Os.Lines.
use lab_os_assignment.Base.{
  ℕ, zero, suc, ◌+◌, ◌-◌, ◌%◌, ◌^◌, ◌≡◌, refl, sym, ap, ◌∙◌, arith, Option, none, some, true, List,
  [], ◌∷◌, get_elem?, drop, drop-nil, drop-cons, length,
}
use lab_os_assignment.Outcome.{Outcome, ok, fault, ◌>>=◌, >>=-assoc}
use lab_os_assignment.Sched.{add_proc}
use lab_os_assignment.Loader.{Program, load}
use lab_os_assignment.Os.{Machine, Event, waits, stops, LdArgs, Fresh, LdState, ld_round}
use lab_os_assignment.Os.Loading.{Round, ld_rest, ld_rounds, loaded, added-on_time}
use lab_os_assignment.Os.Lines.{slot, arrive, load_all, load_rest, rounds_needed, at_line, finish}

ld_rest-ld_rest :
    (f g : LdState → Machine → Round) (o : Option (Event × LdState × Machine))
    → (ld_rest f o >>= ld_rest g) ≡ ld_rest (λ l m. f l m >>= ld_rest g) o
ld_rest-ld_rest f g none = refl
ld_rest-ld_rest f g (some (stops, l, m)) = refl
ld_rest-ld_rest f g (some (waits, l, m)) = refl

-- Rounds can be counted in two parts.
pub ld_rounds-add :
    (a b : ℕ) (processes : List LdArgs) (time : ℕ) (new : ℕ → Fresh) (l : LdState) (m : Machine)
    → ld_rounds (a + b) processes time new l m
      ≡ (ld_rounds a processes time new l m >>= ld_rest (ld_rounds b processes (time + a) new))
unfolding ld_rounds
ld_rounds-add zero b processes time new l m =
    ap (λ n. ld_rounds n processes time new l m) zero_sum
    ∙ ap (λ t. ld_rounds b processes t new l m) now
  where
    zero_sum : 0 + b ≡ b
    zero_sum = omega arith

    now : time ≡ time + 0
    now = omega arith
ld_rounds-add (suc a) b processes time new l m =
    ap (λ n. ld_rounds n processes time new l m) suc_sum
    ∙ ap (λ f. ld_round processes time (new time) l m >>= f)
        (λ i o.
          (ap (λ f. ld_rest f o) (λ j l' m'. ld_rounds-add a b processes (time + 1) new l' m' j)
              ∙ sym (
                  ld_rest-ld_rest (ld_rounds a processes (time + 1) new)
                    (ld_rounds b processes (time + 1 + a) new) o))
            i)
    ∙ sym (
        >>=-assoc (ld_round processes time (new time) l m)
          (ld_rest (ld_rounds a processes (time + 1) new))
          (ld_rest (ld_rounds b processes (time + 1 + a) new)))
    ∙ ap (λ t. ld_rounds (suc a) processes time new l m >>= ld_rest (ld_rounds b processes t new))
        later
  where
    suc_sum : suc a + b ≡ suc (a + b)
    suc_sum = omega arith

    later : time + 1 + a ≡ time + suc a
    later = omega arith

abbrev line_result : LdArgs → Fresh → (i : ℕ) → Machine → Option (Program × ℕ) → Round
line_result args new i m none = ok none
line_result args new i m (some (p, next_pid)) = loaded (at_line i next_pid) args new p m

one_line :
    (processes : List LdArgs) (time : ℕ) (new : ℕ → Fresh) (i n : ℕ) (args : LdArgs) (m : Machine)
    (o : Outcome (Option (Program × ℕ)))
    → get_elem? processes i ≡ some args
    → load n args.file (new time).priority (new time).size (new time).mem ≡ o
    → ld_rounds (suc (args.start_time - time)) processes time new (at_line i n) m
      ≡ (o >>= line_result args (new (slot time args.start_time)) i m)
unfolding ld_rounds ld_round
one_line processes time new i n args m (fault e) line file = rw (ld_round, line, file)
one_line processes time new i n args m (ok none) line file = rw (ld_round, line, file)
one_line processes time new i n args m (ok (some (p, next_pid))) line file =
    added-on_time processes time new (at_line i n) args p next_pid m refl line file

load_all-nil :
    (processes : List LdArgs) (time : ℕ) (new : ℕ → Fresh) (i n : ℕ) (m : Machine)
    → get_elem? processes i ≡ none
    → ld_rounds 1 processes time new (at_line i n) m
      ≡ ok (some (stops, at_line i n, record m { done = true }))
unfolding ld_rounds ld_round
load_all-nil processes time new i n m over = rw (ld_round, over)

-- The rounds behind a line go as `load_all` says for the lines behind it, up to line `last`.
abbrev Goes : (processes lines : List LdArgs) (t : ℕ) (new : ℕ → Fresh) (i last : ℕ) → Type 0
Goes processes lines t new i last =
    (n : ℕ) (m : Machine)
    → ld_rounds (rounds_needed lines t) processes t new (at_line i n) m
      ≡ (load_all lines t new n m >>= λ o. ok (finish last o))

line_step :
    (args : LdArgs) (lines processes : List LdArgs) (t : ℕ) (new : ℕ → Fresh) (i last : ℕ)
    (m : Machine) (o : Option (Program × ℕ))
    → Goes processes lines (t + 1) new (i + 1) last
    → (line_result args (new t) i m o
        >>= ld_rest (ld_rounds (rounds_needed lines (t + 1)) processes (t + 1) new))
      ≡ (load_rest args lines t new m o >>= λ o'. ok (finish last o'))
line_step args lines processes t new i last m none rest = refl
line_step args lines processes t new i last m (some (p, q)) rest =
    let add = add_proc m.sched (record { pid = p.pid; prio = args.prio % 2 ^ 32 }) in
    >>=-assoc add (λ s. ok (some (waits, at_line (i + 1) q, arrive args (new t) p m s)))
      (ld_rest (ld_rounds (rounds_needed lines (t + 1)) processes (t + 1) new))
    ∙ ap (λ f. add >>= f) (λ j s. rest q (arrive args (new t) p m s) j)
    ∙ sym (>>=-assoc add (λ s. load_all lines (t + 1) new q (arrive args (new t) p m s)) _)

-- A line and the lines behind it.
lines_suc :
    (args : LdArgs) (lines processes : List LdArgs) (time : ℕ) (new : ℕ → Fresh) (i last : ℕ)
    → get_elem? processes i ≡ some args
    → Goes processes lines (slot time args.start_time + 1) new (i + 1) last
    → Goes processes (args ∷ lines) time new i last
unfolding load_all
lines_suc args lines processes time new i last line rest n m =
    ld_rounds-add (suc (args.start_time - time))
      (rounds_needed lines (slot time args.start_time + 1)) processes time new (at_line i n) m
    ∙ ap (λ x. x >>= ld_rest (later (time + suc (args.start_time - time))))
        (one_line processes time new i n args m loading line refl)
    ∙ ap (λ t. (loading >>= line_result args made i m) >>= ld_rest (later t)) next_slot
    ∙ >>=-assoc loading (line_result args made i m)
        (ld_rest (later (slot time args.start_time + 1)))
    ∙ ap (λ f. loading >>= f)
        (λ j o. line_step args lines processes (slot time args.start_time) new i last m o rest j)
    ∙ sym (>>=-assoc loading (load_rest args lines (slot time args.start_time) new m) _)
  where
    later : ℕ → LdState → Machine → Round
    later t = ld_rounds (rounds_needed lines (slot time args.start_time + 1)) processes t new

    made : Fresh
    made = new (slot time args.start_time)

    loading : Outcome (Option (Program × ℕ))
    loading = load n args.file (new time).priority (new time).size (new time).mem

    next_slot : time + suc (args.start_time - time) ≡ slot time args.start_time + 1
    next_slot = omega arith

-- The loader at line `i`, with `lines` left, does what `load_all` says and ends.
ld_rounds-load_all :
    (lines processes : List LdArgs) (time : ℕ) (new : ℕ → Fresh) (i n : ℕ) (m : Machine)
    → drop i processes ≡ lines
    → ld_rounds (rounds_needed lines time) processes time new (at_line i n) m
      ≡ (load_all lines time new n m >>= λ o. ok (finish (i + length lines) o))
unfolding load_all
ld_rounds-load_all [] processes time new i n m left =
    load_all-nil processes time new i n m (drop-nil i processes left)
    ∙ ap (λ j. ok (some (stops, at_line j n, record m { done = true }))) the_end
  where
    the_end : i ≡ i + 0
    the_end = omega arith
ld_rounds-load_all (args ∷ lines) processes time new i n m left =
    let (line, rest) = drop-cons i processes args lines left in
    lines_suc args lines processes time new i (i + suc (length lines)) line
      (λ n' m'.
        ld_rounds-load_all lines processes (slot time args.start_time + 1) new (i + 1) n' m'
          (ap (λ k. drop k processes) (next i) ∙ rest)
        ∙ ap
            (λ k. load_all lines (slot time args.start_time + 1) new n' m' >>= λ o. ok (finish k o))
            (count i))
      n m
  where
    next : (i : ℕ) → i + 1 ≡ suc i
    next i = omega arith

    count : (i : ℕ) → i + 1 + length lines ≡ i + suc (length lines)
    count i = omega arith

pub ld_routine_refines :
    (processes : List LdArgs) (time : ℕ) (new : ℕ → Fresh) (avail_pid : ℕ) (m : Machine)
    → ld_rounds (rounds_needed processes time) processes time new (at_line 0 avail_pid) m
      ≡ (load_all processes time new avail_pid m >>= λ o. ok (finish (length processes) o))
ld_routine_refines processes time new avail_pid m =
    ld_rounds-load_all processes processes time new 0 avail_pid m refl
    ∙ ap (λ k. load_all processes time new avail_pid m >>= λ o. ok (finish k o)) from_zero
  where
    from_zero : 0 + length processes ≡ length processes
    from_zero = omega arith
