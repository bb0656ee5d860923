-- ===== src/Timer/Invariant.antt =====
-- What holds of every device in every state that the threads of the timer and its devices can reach.
use lab_os_assignment.Base.{
  ℕ, ◌%◌, ◌^◌, ◌≤◌, ◌<◌, ◌≡◌, ◌⊎◌, inl, inr, Bool, true, some, List, get_elem?, set, set_all,
}
use lab_os_assignment.Timer.Fits.{stage, FitsAt, Move-Fits}
use lab_os_assignment.Timer.{
  gone, TimerId, TimerPc, head, scan, advance, release, check, exited, Timer, Move, call, resume,
  leave,
}

-- Every device that the first `i` of the list hold has left; and every device of the list.
abbrev pub LeftBelow : ℕ → List TimerId → Type 0
LeftBelow i devs = (j : ℕ) (d : TimerId) → get_elem? devs j ≡ some d → j < i → d.pc ≡ gone

abbrev pub AllLeft : List TimerId → Type 0
AllLeft devs = (j : ℕ) (d : TimerId) → get_elem? devs j ≡ some d → d.pc ≡ gone

-- What the counters of timer_routine say.
abbrev pub Tally : TimerPc → List TimerId → (timer_stop : Bool) → Type 0
Tally head devs stopped = Unit
Tally (scan i fsh event) devs stopped = (fsh ≤ event) × (fsh ≡ event → LeftBelow i devs)
Tally (advance fsh event) devs stopped = fsh ≡ event → AllLeft devs
Tally (release i fsh event) devs stopped = fsh ≡ event → AllLeft devs
Tally (check fsh event) devs stopped = fsh ≡ event → AllLeft devs
Tally exited devs stopped = (stopped ≡ true) ⊎ AllLeft devs

pub record Inv (s : Timer) : Type 0 where
  pub fits :
      (j : ℕ) (d : TimerId) → get_elem? s.dev_list j ≡ some d → FitsAt (stage s.pc j) s.rounds d
  pub clock : s.time ≡ s.rounds % 2 ^ 64
  pub tally : Tally s.pc s.dev_list s.timer_stop

-- A list in which every device is as far as before says the same of the counters.
pub Tally-mono :
    (pc : TimerPc) (devs devs' : List TimerId) (stopped stopped' : Bool)
    → ((j : ℕ) (d' : TimerId)
        → get_elem? devs' j ≡ some d'
        → (d : TimerId) × (get_elem? devs j ≡ some d) × (d.pc ≡ gone → d'.pc ≡ gone))
    → (stopped ≡ true → stopped' ≡ true)
    → Tally pc devs stopped
    → Tally pc devs' stopped'
Tally-mono head devs devs' st st' back go t = tt
Tally-mono (scan i fsh event) devs devs' st st' back go t =
    (t.0, λ e j d' at lt. let (d, was, keeps) = back j d' at in keeps (t.1 e j d was lt))
Tally-mono (advance fsh event) devs devs' st st' back go t =
    λ e j d' at. let (d, was, keeps) = back j d' at in keeps (t e j d was)
Tally-mono (release i fsh event) devs devs' st st' back go t =
    λ e j d' at. let (d, was, keeps) = back j d' at in keeps (t e j d was)
Tally-mono (check fsh event) devs devs' st st' back go t =
    λ e j d' at. let (d, was, keeps) = back j d' at in keeps (t e j d was)
Tally-mono exited devs devs' st st' back go (inl e) = inl (go e)
Tally-mono exited devs devs' st st' back go (inr t) =
    inr (λ j d' at. let (d, was, keeps) = back j d' at in keeps (t j d was))

-- The list with a device that has only moved on.
pub moved_back :
    (devs : List TimerId) (i : ℕ) (d d' : TimerId)
    → get_elem? devs i ≡ some d
    → (d.pc ≡ gone → d'.pc ≡ gone)
    → (j : ℕ) (e' : TimerId) → get_elem? (set devs i d') j ≡ some e'
    → (e : TimerId) × (get_elem? devs j ≡ some e) × (e.pc ≡ gone → e'.pc ≡ gone)
moved_back devs i d d' at keeps =
    set_all (λ j e'. (e : TimerId) × (get_elem? devs j ≡ some e) × (e.pc ≡ gone → e'.pc ≡ gone))
      devs i d' (d, at, keeps) (λ j a ne was. (a, was, λ g. g))

Move-keeps : {d d' : TimerId} → Move d d' → d.pc ≡ gone → d'.pc ≡ gone
Move-keeps (call e) g = cc
Move-keeps (resume e f) g = cc
Move-keeps (leave e) g = cc

pub device-Inv :
    {s : Timer} (i : ℕ) (d : TimerId) {d' : TimerId}
    → get_elem? s.dev_list i ≡ some d
    → Move d d'
    → Inv s
    → Inv (record s { dev_list = set s.dev_list i d' })
device-Inv {s} i d {d'} at mv inv = record {
  fits =
      set_all (λ j e. FitsAt (stage s.pc j) s.rounds e) s.dev_list i d'
        (Move-Fits (stage s.pc i) s.rounds mv (inv.fits i d at)) (λ j a ne was. inv.fits j a was);
  clock = inv.clock;
  tally =
      Tally-mono s.pc s.dev_list (set s.dev_list i d') s.timer_stop s.timer_stop
        (moved_back s.dev_list i d d' at (Move-keeps mv)) (λ e. e) inv.tally;
}
