-- ===== src/Timer/New.antt =====
-- A timer before its start.
use lab_os_assignment.Base.{
  ℕ, zero, suc, ◌+◌, ◌≡◌, refl, ap, arith, false, some, List, ◌∷◌, get_elem?, length, subst,
}
use lab_os_assignment.Timer.{TimerId, head, Timer, fresh, no_timer, attach_event, attach_many}

-- A timer that has not started, with `n` devices, all of them new.
pub record IsNew (n : ℕ) (s : Timer) : Type 0 where
  pub idle : s.pc ≡ head
  pub clock : (s.time ≡ 0) × (s.rounds ≡ 0)
  pub begun : s.timer_started ≡ false
  pub running : s.timer_stop ≡ false
  pub size : length s.dev_list ≡ n
  pub devices : (j : ℕ) (d : TimerId) → get_elem? s.dev_list j ≡ some d → d ≡ fresh

one_more :
    (devs : List TimerId)
    → ((j : ℕ) (d : TimerId) → get_elem? devs j ≡ some d → d ≡ fresh)
    → (j : ℕ) (d : TimerId) → get_elem? (fresh ∷ devs) j ≡ some d
    → d ≡ fresh
one_more devs h zero d e = cc
one_more devs h (suc j) d e = h j d e

attach_event-IsNew : (n : ℕ) (s : Timer) → IsNew n s → IsNew (suc n) (attach_event s).1
unfolding attach_event
attach_event-IsNew n s v = rw v.begun (record {
  idle = v.idle;
  clock = v.clock;
  begun = refl;
  running = v.running;
  size = ap suc v.size;
  devices = one_more s.dev_list v.devices;
})

attach_more-IsNew : (n k : ℕ) (s : Timer) → IsNew k s → IsNew (n + k) (attach_many n s)
unfolding attach_many
attach_more-IsNew zero k s v = subst (λ m. IsNew m s) sum v
  where
    sum : k ≡ 0 + k
    sum = omega arith
attach_more-IsNew (suc n) k s v =
    subst (λ m. IsNew m (attach_many n (attach_event s).1)) sum
      (attach_more-IsNew n (suc k) (attach_event s).1 (attach_event-IsNew k s v))
  where
    sum : n + suc k ≡ suc n + k
    sum = omega arith

pub attach_many-IsNew : (n : ℕ) → IsNew n (attach_many n no_timer)
attach_many-IsNew n =
    subst (λ m. IsNew m (attach_many n no_timer)) sum
      (attach_more-IsNew n 0 no_timer (record {
        idle = refl;
        clock = (refl, refl);
        begun = refl;
        running = refl;
        size = refl;
        devices = λ j d e. cc;
      }))
  where
    sum : n + 0 ≡ n
    sum = omega arith
