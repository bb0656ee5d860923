-- ===== src/Timer/Fits.antt =====
-- Where a device may stand, by what the timer has done in the current round.
use lab_os_assignment.Base.{ℕ, ◌+◌, ◌≡◌, refl, arith, Bool, true, false, ◌||◌, ltb, if◌then◌else◌}
use lab_os_assignment.Timer.{
  DevicePc, working, waiting, gone, TimerId, TimerPc, head, scan, advance, release, check, exited,
  Move, call, resume, leave, next_slot, end_wait, detach_event,
}

-- `open_slot`: the device may work in the current slot. `held`: the timer has seen that the device
-- has done so. `owed`: the time has advanced, and the device has not been let go on.
pub data Stage : Type 0 where
  open_slot held owed : Stage

abbrev pub stage : TimerPc → ℕ → Stage
stage head j = open_slot
stage (scan i fsh event) j = if ltb j i then held else open_slot
stage (advance fsh event) j = held
stage (release i fsh event) j = if ltb j i then open_slot else owed
stage (check fsh event) j = open_slot
stage exited j = open_slot

-- At a stage and after `r` rounds: what a device with these flags has been through.
abbrev pub Fits : Stage → (r : ℕ) → DevicePc → (done fsh : Bool) → (slots : ℕ) → Type 0
Fits open_slot r working false false n = n ≡ r
Fits open_slot r waiting true false n = n ≡ r
Fits open_slot r waiting false false n = n + 1 ≡ r
Fits held r waiting true false n = n ≡ r
Fits owed r waiting true false n = n + 1 ≡ r
Fits st r gone done true n = Unit
Fits st r pc done fsh n = ⊥

abbrev pub FitsAt : Stage → (r : ℕ) → TimerId → Type 0
FitsAt st r d = Fits st r d.pc d.done d.fsh d.slots

call-Fits :
    (st : Stage) (r n : ℕ) (done fsh : Bool)
    → Fits st r working done fsh n
    → Fits st r waiting true fsh n
call-Fits open_slot r n false false h = h
call-Fits open_slot r n false true h = elim h [ ]
call-Fits open_slot r n true false h = elim h [ ]
call-Fits open_slot r n true true h = elim h [ ]
call-Fits held r n done fsh h = elim h [ ]
call-Fits owed r n done fsh h = elim h [ ]

resume-Fits :
    (st : Stage) (r n : ℕ) (fsh : Bool)
    → Fits st r waiting false fsh n
    → Fits st r working false fsh (n + 1)
resume-Fits open_slot r n false h = h
resume-Fits open_slot r n true h = elim h [ ]
resume-Fits held r n fsh h = elim h [ ]
resume-Fits owed r n fsh h = elim h [ ]

leave-Fits :
    (st : Stage) (r n : ℕ) (done fsh : Bool)
    → Fits st r working done fsh n
    → Fits st r gone done true n
leave-Fits open_slot r n done fsh h = tt
leave-Fits held r n done fsh h = elim h [ ]
leave-Fits owed r n done fsh h = elim h [ ]

-- A device that the timer does not wait for is held.
pub seen-Fits :
    (r n : ℕ) (pc : DevicePc) (done fsh : Bool)
    → done || fsh ≡ true
    → Fits open_slot r pc done fsh n
    → Fits held r pc done fsh n
seen-Fits r n working false false e h = cc
seen-Fits r n working false true e h = elim h [ ]
seen-Fits r n working true fsh e h = elim h [ ]
seen-Fits r n waiting false false e h = cc
seen-Fits r n waiting false true e h = elim h [ ]
seen-Fits r n waiting true false e h = h
seen-Fits r n waiting true true e h = elim h [ ]
seen-Fits r n gone done true e h = tt
seen-Fits r n gone done false e h = elim h [ ]

pub advance-Fits :
    (r n : ℕ) (pc : DevicePc) (done fsh : Bool)
    → Fits held r pc done fsh n
    → Fits owed (r + 1) pc done fsh n
advance-Fits r n working done fsh h = elim h [ ]
advance-Fits r n waiting true false h = omega arith
advance-Fits r n waiting true true h = elim h [ ]
advance-Fits r n waiting false fsh h = elim h [ ]
advance-Fits r n gone done true h = tt
advance-Fits r n gone done false h = elim h [ ]

pub release-Fits :
    (r n : ℕ) (pc : DevicePc) (done fsh : Bool)
    → Fits owed r pc done fsh n
    → Fits open_slot r pc false fsh n
release-Fits r n working done fsh h = elim h [ ]
release-Fits r n waiting true false h = h
release-Fits r n waiting true true h = elim h [ ]
release-Fits r n waiting false fsh h = elim h [ ]
release-Fits r n gone done true h = tt
release-Fits r n gone done false h = elim h [ ]

-- A device that has finished has left.
pub fsh-gone :
    (st : Stage) (r n : ℕ) (pc : DevicePc) (done : Bool) → Fits st r pc done true n → pc ≡ gone
fsh-gone st r n gone done h = refl
fsh-gone open_slot r n working true h = elim h [ ]
fsh-gone open_slot r n working false h = elim h [ ]
fsh-gone held r n working done h = elim h [ ]
fsh-gone owed r n working done h = elim h [ ]
fsh-gone open_slot r n waiting true h = elim h [ ]
fsh-gone open_slot r n waiting false h = elim h [ ]
fsh-gone held r n waiting true h = elim h [ ]
fsh-gone held r n waiting false h = elim h [ ]
fsh-gone owed r n waiting true h = elim h [ ]
fsh-gone owed r n waiting false h = elim h [ ]

pub Move-Fits : {d d' : TimerId} (st : Stage) (r : ℕ) → Move d d' → FitsAt st r d → FitsAt st r d'
unfolding next_slot end_wait detach_event
Move-Fits {d} st r (call e) h = call-Fits st r d.slots d.done d.fsh (rw e at h)
Move-Fits {d} st r (resume e f) h = rw f (resume-Fits st r d.slots d.fsh (rw f at (rw e at h)))
Move-Fits {d} st r (leave e) h = leave-Fits st r d.slots d.done d.fsh (rw e at h)
