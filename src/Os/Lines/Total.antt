-- ===== src/Os/Lines/Total.antt =====
-- Configurations whose processes can all be loaded.
use lab_os_assignment.Base.{
  ℕ, zero, suc, ◌+◌, ◌%◌, ◌^◌, ◌≤◌, ◌<◌, ◌≡◌, refl, sym, ap, ◌∙◌, subst, arith, Option, some, List,
  [], ◌∷◌, ◌++◌, length, take, All, get_elem?_lt, ◌==◌, true,
}
use lab_os_assignment.Outcome.{ok, Returns-ok}
use lab_os_assignment.Queue.{Proc, Queue}
use lab_os_assignment.Queue.Refine.{IsQueue, contents}
use lab_os_assignment.Cpu.{Inst}
use lab_os_assignment.Sched.{Sched, add_proc}
use lab_os_assignment.Sched.Holds.{Holds, with_proc, add_proc-Holds}
use lab_os_assignment.Sched.Ready.{add_proc-Added}
use lab_os_assignment.Loader.{Program, load, page_size}
use lab_os_assignment.Loader.RoundTrip.{print, IsSmall, place_all, load-print}
use lab_os_assignment.Os.{Machine, LdArgs, Fresh}
use lab_os_assignment.Os.Lines.{slot, arrive, load_all}
use lab_os_assignment.Os.Lines.Queues.{queued, queued-cons}

-- A line whose file is a process written by `print`, and whose priority has a queue.
pub record IsLoadable (args : LdArgs) : Type 0 where
  pub priority : ℕ
  pub text : List Inst
  pub file : args.file ≡ some (print priority text)
  pub small : (priority < 2 ^ 32) × (length text < 2 ^ 32)
  pub arguments : All IsSmall text
  pub queue : args.prio % 2 ^ 32 < 140

length-take : {A : Type 0} (n : ℕ) (xs : List A) → n ≤ length xs → length (take n xs) ≡ n
length-take zero xs h = refl
length-take (suc n) [] h = elim h [ ]
length-take (suc n) (x ∷ xs) h = ap suc (length-take n xs (omega arith))

length-++ : {A : Type 0} (xs ys : List A) → length (xs ++ ys) ≡ length xs + length ys
length-++ [] ys = omega arith
length-++ (x ∷ xs) ys = omega (arith, length-++ xs ys)

-- A queue with room for one more of the processes that are to come.
has_room :
    (held : ℕ → List (Option Proc)) (pid : ℕ) (args : LdArgs) (lines : List LdArgs) (q : Queue)
    → IsQueue q
    → contents q ≡ held (args.prio % 2 ^ 32)
    → length (held (args.prio % 2 ^ 32) ++ queued (args.prio % 2 ^ 32) pid (args ∷ lines)) ≤ 10
    → q.size < 10
has_room held pid args lines q v same room =
    let prio = args.prio % 2 ^ 32 in
    let here : (prio == prio) ≡ true = ground arith in
    let rest = queued prio ((pid + 1) % 2 ^ 32) lines in
    let counted : length (held prio ++ some (record { pid = pid; prio = prio }) ∷ rest) ≤ 10 =
      rw here at room in
    let size : length (held prio) ≡ q.size =
      sym (ap (λ x. length x) same) ∙ length-take q.size q.proc (omega (arith, v.slots, v.fits)) in
    omega (
      arith,
      counted,
      size,
      length-++ (held prio) (some (record { pid = pid; prio = prio }) ∷ rest),
    )

load_all-cons :
    (args : LdArgs) (lines : List LdArgs) (time : ℕ) (new : ℕ → Fresh) (pid next : ℕ) (p : Program)
    (m : Machine) (s : Sched)
    → load pid args.file (new time).priority (new time).size (new time).mem ≡ ok (some (p, next))
    → add_proc m.sched (record { pid = p.pid; prio = args.prio % 2 ^ 32 }) ≡ ok s
    → load_all (args ∷ lines) time new pid m
      ≡ load_all lines
          (slot time args.start_time + 1)
          new
          next
          (arrive args (new (slot time args.start_time)) p m s)
unfolding load_all
load_all-cons args lines time new pid next p m s loaded added = rw (loaded, added) refl

-- Lines that can be loaded, with at most ten processes of a priority.
pub load_all-total :
    (held : ℕ → List (Option Proc)) (lines : List LdArgs) (time : ℕ) (new : ℕ → Fresh) (pid : ℕ)
    (m : Machine)
    → Holds held m.sched
    → All IsLoadable lines
    → ((j : ℕ) → length (held j ++ queued j pid lines) ≤ 10)
    → (r : ℕ × Machine) × (load_all lines time new pid m ≡ ok (some r))
unfolding load_all
load_all-total held [] time new pid m v loadable room = (_, refl)
load_all-total held (args ∷ lines) time new pid m v loadable room =
    let here = loadable.0 in
    let t = slot time args.start_time in
    let proc : Proc = record { pid = pid; prio = args.prio % 2 ^ 32 } in
    let p : Program = record {
      pid = pid;
      priority = here.priority;
      text = place_all 0 (new time).mem here.text;
      pc = 0;
      bp = page_size;
    } in
    let loaded : load pid args.file (new time).priority (new time).size (new time).mem
        ≡ ok (some (p, (pid + 1) % 2 ^ 32)) =
      ap (λ f. load pid f (new time).priority (new time).size (new time).mem) here.file
      ∙ load-print pid here.priority (new time).size (new time).priority here.text (new time).mem
          here.small.0 here.small.1 here.arguments in
    let (q, at) =
      get_elem?_lt m.sched.mlq_ready_queue (args.prio % 2 ^ 32)
        (omega (arith, here.queue, v.table)) in
    let (proper, same) = v.queues (args.prio % 2 ^ 32) q at in
    let (s, added, _) =
      Returns-ok (add_proc m.sched proc)
        (add_proc-Added m.sched proc q at (omega (arith, here.queue, v.table)) proper
          (has_room held pid args lines q proper same (room (args.prio % 2 ^ 32)))).0 in
    let (r, rest) =
      load_all-total (with_proc held proc) lines (t + 1) new ((pid + 1) % 2 ^ 32)
        (arrive args (new t) p m s) (add_proc-Holds m.sched s proc v added) loadable.1
        (λ j. subst (λ x. length x ≤ 10) (sym (queued-cons held pid args lines j)) (room j)) in
    (r, load_all-cons args lines time new pid ((pid + 1) % 2 ^ 32) p m s loaded added ∙ rest)
