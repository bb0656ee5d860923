-- ===== src/Os/Memory.antt =====
-- The memory of all processes together: what every instruction keeps of RAM, swap device and tables
-- is kept by the rounds of all threads.
use native.Mathlib.Decide.{ℕ_discrete}
use mathlib.Core.Logic.{if_pos, if_neg}
use lab_os_assignment.Base.{
  ℕ, ◌%◌, ◌^◌, ◌≡◌, refl, sym, subst, ◌∙◌, Option, none, some, some-injective, List, get_elem?,
  length, ltb, ◌==◌, if◌then◌else◌,
}
use lab_os_assignment.Outcome.{
  OnResult, IfSome, OnResult-bind, OnResult-after, OnResult-option, OnResult-if, need,
  out_of_bounds, wild_pointer,
}
use lab_os_assignment.Device.{Device}
use lab_os_assignment.Mm.{Mm, init_mm}
use lab_os_assignment.Queue.{Proc}
use lab_os_assignment.Sched.{get_proc, put_proc, add_proc}
use lab_os_assignment.Cpu.{run}
use lab_os_assignment.Cpu.Invariant.{run_keeps}
use lab_os_assignment.Vm.Invariant.{MemoryInvariant}
use lab_os_assignment.Loader.{Program, load}
use lab_os_assignment.Os.{
  Task, Machine, put_task, Event, CpuState, pcb_of, run_proc, decrement, recheck, cpu_busy,
  cpu_round, LdArgs, Fresh, LdState, try_add, ld_round,
}

module _ (Ram Swap : Device → Type 0) (Tab : Mm → Type 0) where
  -- Of all processes.
  abbrev pub Memory : Machine → Type 0
  Memory m =
      Ram m.mram × Swap m.active_mswp × ((pid : ℕ) (t : Task) → m.tasks pid ≡ some t → Tab t.mm)

  put_task-Tab :
      (m : Machine) (pid : ℕ) (o : Option Task)
      → ((t : Task) → o ≡ some t → Tab t.mm)
      → Memory m
      → (j : ℕ) (t : Task) → (put_task m pid o).tasks j ≡ some t
      → Tab t.mm
  put_task-Tab m pid o new mem j t e = elim (ℕ_discrete pid j) [
    | yes here ↦ new t (sym (if_pos (ℕ_discrete pid j) here _ _) ∙ e)
    | no away ↦ mem.2 j t (sym (if_neg (ℕ_discrete pid j) away _ _) ∙ e)
  ]

  module _ (inv : MemoryInvariant Ram Swap Tab) where
    found :
        (m : Machine) (pid : ℕ) (o : Option Task)
        → m.tasks pid ≡ o
        → Memory m
        → OnResult (λ t. Tab t.mm) (need wild_pointer o)
    found m pid none e mem = tt
    found m pid (some t) e mem = mem.2 pid t e

    run_proc-Memory :
        (fuel : ℕ) (proc : Proc) (m : Machine) → Memory m → OnResult Memory (run_proc fuel proc m)
    unfolding run_proc
    run_proc-Memory fuel proc m mem =
        OnResult-bind Memory (need wild_pointer (m.tasks proc.pid)) _
          (found m proc.pid (m.tasks proc.pid) refl mem)
          λ t tab.
            OnResult-bind Memory (run fuel (pcb_of m t)) _
              (run_keeps inv fuel (pcb_of m t) (mem.0, mem.1, tab))
              λ r h. (
                h.0,
                h.1,
                put_task-Tab m proc.pid _
                    (λ u e. subst (λ (x : Task). Tab x.mm) (some-injective e) h.2) mem,
              )

    recheck-Memory :
        (fuel time_slot : ℕ) (o : Option Proc) (time_left : ℕ) (m : Machine)
        → Memory m
        → OnResult (λ r. Memory r.2) (recheck fuel time_slot o time_left m)
    unfolding recheck
    recheck-Memory fuel time_slot none time_left m mem = mem
    recheck-Memory fuel time_slot (some proc) time_left m mem =
        let Q = λ (r : Event × CpuState × Machine). Memory r.2 in
        OnResult-bind Q (run_proc fuel proc m) _ (run_proc-Memory fuel proc m mem) λ m' mem'.
          OnResult-after Q (decrement (if time_left == 0 then time_slot else time_left)) _
            λ left. mem'

    cpu_busy-Memory :
        (fuel time_slot : ℕ) (proc : Proc) (time_left : ℕ) (m : Machine)
        → Memory m
        → OnResult (λ r. Memory r.2) (cpu_busy fuel time_slot proc time_left m)
    unfolding cpu_busy
    cpu_busy-Memory fuel time_slot proc time_left m mem =
        let Q = λ (r : Event × CpuState × Machine). Memory r.2 in
        OnResult-after Q (need wild_pointer (m.tasks proc.pid)) _ λ t.
          OnResult-if Q (t.pc == length t.text) _ _
            (OnResult-after Q (get_proc fuel m.sched) _ λ n.
              recheck-Memory fuel time_slot n.0 0 _
                (mem.0, mem.1, put_task-Tab m proc.pid none (λ u e. cc) mem))
            (OnResult-if Q (time_left == 0) _ _
              (OnResult-after Q (put_proc m.sched proc) _ λ s.
                OnResult-after Q (get_proc fuel s) _
                  λ n. recheck-Memory fuel time_slot n.0 time_left (record m { sched = n.1 }) mem)
              (recheck-Memory fuel time_slot (some proc) time_left m mem))

    pub cpu_round-Memory :
        (fuel time_slot : ℕ) (c : CpuState) (m : Machine)
        → Memory m
        → OnResult (λ r. Memory r.2) (cpu_round fuel time_slot c m)
    unfolding cpu_round
    cpu_round-Memory fuel time_slot c m mem =
        let Q = λ (r : Event × CpuState × Machine). Memory r.2 in
        OnResult-option Q c.proc _ _
          (OnResult-after Q (get_proc fuel m.sched) _ λ n. OnResult-option Q n.0 _ _ mem λ proc.
            recheck-Memory fuel time_slot (some proc) c.time_left (record m { sched = n.1 }) mem)
          λ proc. cpu_busy-Memory fuel time_slot proc c.time_left m mem

  module _ (new : Fresh) (tables : Tab (init_mm new.ptes new.syms)) where
    try_add-Memory :
        (args : LdArgs) (time : ℕ) (l : LdState) (p : Program) (m : Machine)
        → Memory m
        → OnResult (λ r. Memory r.2) (try_add args time new l p m)
    unfolding try_add
    try_add-Memory args time l p m mem =
        let Q = λ (r : Event × LdState × Machine). Memory r.2 in
        OnResult-if Q (ltb time args.start_time) _ _ mem (
          OnResult-after Q (add_proc m.sched (record { pid = p.pid; prio = args.prio % 2 ^ 32 })) _
            λ s. (
              mem.0,
              mem.1,
              put_task-Tab m p.pid _
                  (λ u e. subst (λ (x : Task). Tab x.mm) (some-injective e) tables) mem,
            ))

    pub ld_round-Memory :
        (processes : List LdArgs) (time : ℕ) (l : LdState) (m : Machine)
        → Memory m
        → OnResult (IfSome (λ r. Memory r.2)) (ld_round processes time new l m)
    unfolding ld_round
    ld_round-Memory processes time l m mem =
        let Q = λ (r : Option (Event × LdState × Machine)). IfSome (λ x. Memory x.2) r in
        OnResult-option Q l.proc _ _
          (OnResult-option Q (get_elem? processes l.i) _ _ mem λ args.
            OnResult-after Q (load l.avail_pid args.file new.priority new.size new.mem) _ λ loaded.
              OnResult-option Q loaded _ _ tt λ p.
                OnResult-bind Q (try_add args time new (record l { avail_pid = p.1 }) p.0 m) _
                  (try_add-Memory args time (record l { avail_pid = p.1 }) p.0 m mem)
                  λ r mem'. mem')
          λ p. OnResult-after Q (need out_of_bounds (get_elem? processes l.i)) _ λ args.
            OnResult-bind Q (try_add args time new l p m) _ (try_add-Memory args time l p m mem)
              λ r mem'. mem'
