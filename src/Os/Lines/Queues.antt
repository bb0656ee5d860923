-- ===== src/Os/Lines/Queues.antt =====
-- The ready queues when the loader has been over all lines.
use lab_os_assignment.Base.{
  ℕ, ◌+◌, ◌%◌, ◌^◌, ◌≡◌, refl, ap, subst, Bool-cases, inl, inr, Option, none, some, true, List, [],
  ◌∷◌, ◌++◌, ◌==◌, if◌then◌else◌, some-injective,
}
use lab_os_assignment.Outcome.{ok, ok-injective, >>=-eq-ok}
use lab_os_assignment.Queue.{Proc}
use lab_os_assignment.Sched.{add_proc}
use lab_os_assignment.Sched.Holds.{Holds, with_proc, add_proc-Holds}
use lab_os_assignment.Loader.{Program, load}
use lab_os_assignment.Loader.RoundTrip.{load-starts}
use lab_os_assignment.Os.{Machine, LdArgs, Fresh}
use lab_os_assignment.Os.Lines.{slot, arrive, load_all, load_rest}

-- The processes of priority `prio` among the lines, in their order; the first line's process has
-- number `pid`, and the numbers go up by one with each line.
abbrev pub queued : (prio pid : ℕ) → List LdArgs → List (Option Proc)
queued prio pid [] = []
queued prio pid (args ∷ lines) =
    if args.prio % 2 ^ 32 == prio
    then some (record { pid = pid; prio = args.prio % 2 ^ 32 })
      ∷ queued prio ((pid + 1) % 2 ^ 32) lines
    else queued prio ((pid + 1) % 2 ^ 32) lines

++-nil : {A : Type 0} (xs : List A) → xs ≡ xs ++ []
++-nil [] = refl
++-nil (x ∷ xs) = ap (λ ys. x ∷ ys) (++-nil xs)

++-snoc : {A : Type 0} (xs : List A) (y : A) (ys : List A) → (xs ++ y ∷ []) ++ ys ≡ xs ++ y ∷ ys
++-snoc [] y ys = refl
++-snoc (x ∷ xs) y ys = ap (λ zs. x ∷ zs) (++-snoc xs y ys)

pub queued-cons :
    (held : ℕ → List (Option Proc)) (pid : ℕ) (args : LdArgs) (lines : List LdArgs) (j : ℕ)
    → (with_proc held (record { pid = pid; prio = args.prio % 2 ^ 32 }) j
        ++ queued j ((pid + 1) % 2 ^ 32) lines)
      ≡ held j ++ queued j pid (args ∷ lines)
queued-cons held pid args lines j = elim (Bool-cases (args.prio % 2 ^ 32 == j)) [
  | inl here ↦ rw here (++-snoc (held j) _ (queued j ((pid + 1) % 2 ^ 32) lines))
  | inr away ↦ rw away refl
]

-- Where `load_all` comes to a result, each ready queue holds what it held before and the processes of
-- its priority behind them, and `done` is set.
pub load_all-Holds :
    {held : ℕ → List (Option Proc)} (lines : List LdArgs) (time : ℕ) (new : ℕ → Fresh) (pid n : ℕ)
    (m m' : Machine)
    → Holds held m.sched
    → load_all lines time new pid m ≡ ok (some (n, m'))
    → Holds (λ j. held j ++ queued j pid lines) m'.sched × (m'.done ≡ true)
unfolding load_all
load_all-Holds {held} [] time new pid n m m' v e =
    let same : ◌≡◌ {A = ℕ × Machine} (pid, record m { done = true }) (n, m') =
      some-injective (ok-injective e) in
    subst (λ (r : ℕ × Machine). Holds (λ j. held j ++ []) r.1.sched × (r.1.done ≡ true)) same
      (subst (λ h. Holds h m.sched) (λ i j. ++-nil (held j) i) v, refl)
load_all-Holds {held} (args ∷ lines) time new pid n m m' v e =
    let (o, loaded, e1) =
      >>=-eq-ok (load pid args.file (new time).priority (new time).size (new time).mem) _ e in
    go o
      (λ held' m'' w h.
        load_all-Holds {held = held'} lines (slot time args.start_time + 1) new ((pid + 1) % 2 ^ 32)
          n m'' m' w h)
      loaded e1
  where
    go :
        (o : Option (Program × ℕ))
        → ((held' : ℕ → List (Option Proc)) (m'' : Machine)
            → Holds held' m''.sched
            → load_all lines (slot time args.start_time + 1) new ((pid + 1) % 2 ^ 32) m''
              ≡ ok (some (n, m'))
            → Holds (λ j. held' j ++ queued j ((pid + 1) % 2 ^ 32) lines) m'.sched
              × (m'.done ≡ true))
        → load pid args.file (new time).priority (new time).size (new time).mem ≡ ok o
        → load_rest args lines (slot time args.start_time) new m o ≡ ok (some (n, m'))
        → Holds (λ j. held j ++ queued j pid (args ∷ lines)) m'.sched × (m'.done ≡ true)
    go none again loaded h = cc
    go (some (p, next)) again loaded h =
        let (_, pid_eq, next_eq) =
          load-starts pid args.file (new time).priority (new time).size (new time).mem (p, next)
            loaded in
        let proc : Proc = record { pid = p.pid; prio = args.prio % 2 ^ 32 } in
        let (s, added, rest) = >>=-eq-ok (add_proc m.sched proc) _ h in
        let holds : Holds (with_proc held (record { pid = pid; prio = args.prio % 2 ^ 32 })) s =
          subst (λ k. Holds (with_proc held (record { pid = k; prio = args.prio % 2 ^ 32 })) s)
            pid_eq (add_proc-Holds m.sched s proc v added) in
        let (after, set) =
          again (with_proc held (record { pid = pid; prio = args.prio % 2 ^ 32 }))
            (arrive args (new (slot time args.start_time)) p m s) holds
            (subst
              (λ k.
                load_all lines (slot time args.start_time + 1) new k
                  (arrive args (new (slot time args.start_time)) p m s)
                ≡ ok (some (n, m')))
              next_eq rest) in
        (subst (λ h. Holds h m'.sched) (λ i j. queued-cons held pid args lines j i) after, set)
