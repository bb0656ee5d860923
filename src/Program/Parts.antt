-- ===== src/Program/Parts.antt =====
-- The program seen as the threads of Os, and as the timer with its devices.
use lab_os_assignment.Base.{ℕ, suc, ◌≡◌, inl, inr, sym, ◌∙◌, subst, List, length}
use lab_os_assignment.Os.{Event, waits, stops, LdArgs, Fresh}
use lab_os_assignment.Os.System
use lab_os_assignment.Os.System.{System}
use lab_os_assignment.Timer
use lab_os_assignment.Timer.{
  TimerId, attach_event, attach_many, started, start_timer, no_timer, working, Move, call, leave,
  resume, Timer, current_time, timer_routine, stop_timer, free_devices,
}
use lab_os_assignment.Timer.New.{attach_many-IsNew}
use lab_os_assignment.Timer.Keeps.{timer_routine-Keeps}
use lab_os_assignment.Program.{
  State, signal, launch, next_cpu, last_cpu, stop, return, Step, runs_cpu, runs_loader, resumes,
  turns, joins, Reach, start, later,
}

abbrev pub system_of : State → System
system_of p = record { machine = p.machine; cpus = p.cpus; ld = p.ld; time = current_time p.timer }

signal-Move : (e : Event) (d : TimerId) → d.pc ≡ working → Move d (signal e d)
signal-Move waits d works = call works
signal-Move stops d works = leave works

-- A step of the program is a step of the timer, or none.
Step-timer :
    {fuel time_slot : ℕ} {processes : List LdArgs} {new : ℕ → Fresh} {p q : State} {n : ℕ}
    → Step fuel time_slot processes new p q
    → Timer.Reach n p.timer
    → Timer.Reach n q.timer
Step-timer {p} (runs_cpu i c d {e} at dev works round) r =
    Timer.later r (Timer.device _ d dev (signal-Move e d works))
Step-timer (runs_loader l d {e} at dev works round) r =
    Timer.later r (Timer.device 0 d dev (signal-Move e d works))
Step-timer (resumes j d dev paused ready) r =
    Timer.later r (Timer.device j d dev (resume paused ready))
Step-timer (turns e) r = Timer.later r (Timer.timer e)
Step-timer (joins (next_cpu i m at)) r = r
Step-timer (joins (last_cpu i m at)) r = r
Step-timer (joins (stop m at)) r = Timer.later r Timer.stop
Step-timer (joins (return m at)) r = Timer.later r (Timer.freed at)

-- A step of the program is a step of the threads of Os, or none; time passes for them when the
-- thread of the timer says so.
Step-system :
    {fuel time_slot : ℕ} {processes : List LdArgs} {new : ℕ → Fresh} {p q : State} {first : System}
    → Step fuel time_slot processes new p q
    → System.Reach fuel time_slot processes first (system_of p)
    → System.Reach fuel time_slot processes first (system_of q)
unfolding current_time stop_timer free_devices
Step-system (runs_cpu i c d at dev works round) r = System.later r (System.cpu i c at round)
Step-system {new} {p} (runs_loader l d at dev works round) r =
    System.later r (System.loader l (new (current_time p.timer)) at round)
Step-system (resumes j d dev paused ready) r = r
Step-system {fuel} {time_slot} {processes} {p} {first} (turns {t} e) r =
    elim (timer_routine-Keeps p.timer t e).time [
      | inl same ↦
          subst
            (λ n. System.Reach fuel time_slot processes first (record (system_of p) { time = n }))
            (sym same) r
      | inr next ↦
          subst
            (λ n. System.Reach fuel time_slot processes first (record (system_of p) { time = n }))
            (sym next) (System.later r System.tick)
    ]
Step-system (joins (next_cpu i m at)) r = r
Step-system (joins (last_cpu i m at)) r = r
Step-system (joins (stop m at)) r = r
Step-system (joins (return m at)) r = r

started-time : (n : ℕ) → current_time (started n) ≡ 0
unfolding current_time started start_timer
started-time n = (attach_many-IsNew n).clock.0

pub Reach-parts :
    {fuel time_slot : ℕ} {processes : List LdArgs} {new : ℕ → Fresh} (first : System) {p : State}
    → first.time ≡ 0
    → Reach fuel time_slot processes new (launch first) p
    → System.Reach fuel time_slot processes first (system_of p)
      × Timer.Reach (suc (length first.cpus)) p.timer
Reach-parts {fuel} {time_slot} {processes} first zero_time start = (
  subst (System.Reach fuel time_slot processes first)
      (λ i. record first { time = (zero_time ∙ sym (started-time (suc (length first.cpus)))) i })
      System.start,
  Timer.start,
)
Reach-parts first zero_time (later r st) =
    let (a, b) = Reach-parts first zero_time r in (Step-system st a, Step-timer st b)
