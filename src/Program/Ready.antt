-- ===== src/Program/Ready.antt =====
-- The ready queues once the loader has ended, in every order of the steps of all threads.
use lab_os_assignment.Base.{
  ℕ, ◌^◌, ◌<◌, ◌≡◌, sym, ap, ◌∙◌, arith, subst, true, none, some, List, [], get_elem?, get_elem?_lt,
}
use lab_os_assignment.Outcome.{ok-injective, >>=-eq-ok, Returns-ok}
use lab_os_assignment.Device.{init_memphy}
use lab_os_assignment.Queue.{Queue}
use lab_os_assignment.Queue.Refine.{IsQueue, contents}
use lab_os_assignment.Sched.{init_scheduler}
use lab_os_assignment.Sched.Holds.{Holds, IsTable, init_scheduler-Holds}
use lab_os_assignment.Os.{LdArgs, Fresh}
use lab_os_assignment.Os.System.{System, boot}
use lab_os_assignment.Os.Lines.Queues.{queued, load_all-Holds}
use lab_os_assignment.Program.{State, launch, Reach}
use lab_os_assignment.Program.Returns.{BootArgs, Boots}
use lab_os_assignment.Program.Loads.{loads_all}

pub boot-Holds :
    (b : BootArgs) (first : System)
    → Boots b first
    → IsTable b.unset
    → Holds (λ j. []) first.machine.sched
unfolding boot
boot-Holds b first e table =
    let (mram, _, e1) = >>=-eq-ok (init_memphy b.bytes b.left b.memramsz 1) _ e in
    let (mswp, _, e2) = >>=-eq-ok (init_memphy b.bytes b.left b.memswpsz 1) _ e1 in
    let (sched, sched_eq, e3) = >>=-eq-ok (init_scheduler b.unset) _ e2 in
    let (sched', sched_eq', holds) =
      Returns-ok (init_scheduler b.unset) (init_scheduler-Holds b.unset table) in
    let same : sched' ≡ first.machine.sched =
      ok-injective (sym sched_eq' ∙ sched_eq)
      ∙ ap (λ (s : System). s.machine.sched) (ok-injective e3) in
    subst (Holds (λ j. [])) same holds

-- In every order of the steps of all threads, up to 2^64 time slots: when the loader has ended, the
-- ready queue of each priority holds the processes of the lines with that priority, and no other, in
-- the order of the lines, with the number of the line, from 1 on, as process number; and `done` is set.
-- Before the boot the table of the queues may hold anything.
pub ready_queues :
    (b : BootArgs) (first : System) (booted : Boots b first) {fuel time_slot : ℕ}
    {processes : List LdArgs} {new : ℕ → Fresh} {p : State}
    → IsTable b.unset
    → Reach fuel time_slot processes new (launch first) p
    → p.timer.rounds < 2 ^ 64
    → p.ld ≡ none
    → (prio : ℕ) → prio < 140
    → (q : Queue) × (get_elem? p.machine.sched.mlq_ready_queue prio ≡ some q)
      × IsQueue q
      × (contents q ≡ queued prio 1 processes)
      × (p.machine.done ≡ true)
ready_queues b first booted {processes} {new} {p} table r small over prio inside =
    let (n, loaded) = loads_all b first booted r small over in
    let (holds, set) =
      load_all-Holds processes 0 new 1 n first.machine p.machine (boot-Holds b first booted table)
        loaded in
    let (q, at) =
      get_elem?_lt p.machine.sched.mlq_ready_queue prio (omega (arith, inside, holds.table)) in
    (q, at, (holds.queues prio q at).0, (holds.queues prio q at).1, set)
