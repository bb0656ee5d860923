-- ===== src/Queue/Refine.antt =====
-- enqueue and dequeue of src/queue.c against a list of processes.
use native.Mathlib.Numerals.{add-one}
use lab_os_assignment.Base.{
  ℕ, zero, suc, ◌+◌, ◌-◌, ◌≤◌, ◌<◌, ◌≡◌, refl, ap, ◌∙◌, arith, Option, none, some, List, [], ◌∷◌,
  ◌++◌, length, length-set, set, take, lt→ltb, ge→ltb, get_elem?, ◌==◌, false,
}
use lab_os_assignment.Outcome.{ok, fault, ◌>>=◌, need, Returns, out_of_bounds}
use lab_os_assignment.Queue.{Proc, Queue, enqueue, shift_loop, dequeue}

pub record IsQueue (q : Queue) : Type 0 where
  pub slots : length q.proc ≡ 10
  pub fits : q.size ≤ 10

-- The processes of the queue, first the one that was put in first.
abbrev pub contents : Queue → List (Option Proc)
contents q = take q.size q.proc

-- A queue of processes without an array.
abbrev pub pop : List (Option Proc) → Option Proc × List (Option Proc)
pop [] = (none, [])
pop (p ∷ ps) = (p, ps)

take-set :
    (n : ℕ) (xs : List (Option Proc)) (x : Option Proc)
    → n < length xs
    → take (suc n) (set xs n x) ≡ take n xs ++ x ∷ []
take-set zero [] x h = elim h [ ]
take-set (suc n) [] x h = elim h [ ]
take-set zero (y ∷ ys) x h = refl
take-set (suc n) (y ∷ ys) x h = ap (λ l. y ∷ l) (take-set n ys x (omega arith))

-- A process that is enqueued in a queue with room comes last, behind all others in their order; the
-- array keeps its ten slots, and the time slot is kept.
pub enqueue_refines :
    (q : Queue) (p : Option Proc)
    → IsQueue q
    → q.size < 10
    → Returns
        (λ q'. (contents q' ≡ contents q ++ p ∷ []) × IsQueue q' × (q'.time_slot ≡ q.time_slot))
        (enqueue q p)
unfolding enqueue
enqueue_refines q p v h =
    rw (lt→ltb q.size (length q.proc) (omega arith))
      (last, record { slots = length-set q.proc q.size p ∙ v.slots; fits = omega arith }, refl)
  where
    after : Queue
    after = record q { proc = set q.proc q.size p; size = q.size + 1 }

    last : contents after ≡ contents q ++ p ∷ []
    last = rw add-one (take-set q.size q.proc p (omega arith))

-- In a full queue the write is past the array.
pub enqueue-full :
    (q : Queue) (p : Option Proc) → IsQueue q → 10 ≤ q.size → enqueue q p ≡ fault out_of_bounds
unfolding enqueue
enqueue-full q p v full = rw (ge→ltb q.size (length q.proc) (omega arith))

-- The array after `n` steps of the loop.
shifted : ℕ → List (Option Proc) → List (Option Proc)
shifted zero xs = xs
shifted (suc n) [] = []
shifted (suc n) (x ∷ []) = x ∷ []
shifted (suc n) (x ∷ y ∷ ys) = y ∷ shifted n (y ∷ ys)

-- The loop leaves the slots before its index alone.
shift_loop-cons :
    (rounds i : ℕ) (x : Option Proc) (xs : List (Option Proc))
    → shift_loop rounds (suc i) (x ∷ xs) ≡ (shift_loop rounds i xs >>= λ ys. ok (x ∷ ys))
unfolding shift_loop
shift_loop-cons zero i x xs = refl
shift_loop-cons (suc rounds) i x xs = go (get_elem? xs (suc i)) (shift_loop-cons rounds (suc i) x)
  where
    go :
        (o : Option (Option Proc))
        → ((ys : List (Option Proc))
            → shift_loop rounds (suc (suc i)) (x ∷ ys)
              ≡ (shift_loop rounds (suc i) ys >>= λ zs. ok (x ∷ zs)))
        → (need out_of_bounds o >>= λ p. shift_loop rounds (suc (suc i)) (x ∷ set xs i p))
          ≡ (need out_of_bounds o >>= λ p. shift_loop rounds (suc i) (set xs i p)) >>= λ ys.
              ok (x ∷ ys)
    go none ih = refl
    go (some p) ih = ih (set xs i p)

shift_loop-eq :
    (n : ℕ) (x : Option Proc) (xs : List (Option Proc))
    → n ≤ length xs
    → shift_loop n 0 (x ∷ xs) ≡ ok (shifted n (x ∷ xs))
unfolding shift_loop shifted
shift_loop-eq zero x xs h = refl
shift_loop-eq (suc n) x [] h = elim h [ ]
shift_loop-eq (suc n) x (y ∷ ys) h =
    rw (shift_loop-cons n 0 y (y ∷ ys), shift_loop-eq n y ys (omega arith))

take-shifted :
    (n : ℕ) (x : Option Proc) (xs : List (Option Proc))
    → n ≤ length xs
    → (take n (shifted n (x ∷ xs)) ≡ take n xs) × (length (shifted n (x ∷ xs)) ≡ suc (length xs))
unfolding shifted
take-shifted zero x xs h = (refl, refl)
take-shifted (suc n) x [] h = elim h [ ]
take-shifted (suc n) x (y ∷ ys) h =
    let (same, len) = take-shifted n y ys (omega arith) in (ap (λ l. y ∷ l) same, ap suc len)

abbrev Popped : Queue → Option Proc × Queue → Type 0
Popped q r = ((r.0, contents r.1) ≡ pop (contents q)) × IsQueue r.1 × (r.1.time_slot ≡ q.time_slot)

-- The queue given by its fields.
dequeue-Popped :
    (proc : List (Option Proc)) (size time_slot : ℕ)
    → length proc ≡ 10
    → size ≤ 10
    → let q : Queue = record { proc = proc; size = size; time_slot = time_slot } in
      Returns (Popped q) (dequeue q)
unfolding dequeue
dequeue-Popped proc zero time_slot len fits = (refl, record { slots = len; fits = fits }, refl)
dequeue-Popped [] (suc n) time_slot len fits = absurd (omega arith)
dequeue-Popped (x ∷ xs) (suc n) time_slot len fits =
    let one_less : suc n - 1 ≡ n = omega arith in
    let full : (suc n == 0) ≡ false = ground arith in
    let (same, kept) = take-shifted n x xs (omega arith) in
    rw (full, one_less, shift_loop-eq n x xs (omega arith))
      (ap (λ l. (x, l)) same, record { slots = kept ∙ len; fits = omega arith }, refl)

-- `dequeue` returns the process that was put in first and leaves the others in order, and returns
-- NULL on an empty queue, which it leaves empty; the array keeps its ten slots, and the time slot is
-- kept.
pub dequeue_refines :
    (q : Queue)
    → IsQueue q
    → Returns
        (λ r.
          ((r.0, contents r.1) ≡ pop (contents q)) × IsQueue r.1 × (r.1.time_slot ≡ q.time_slot))
        (dequeue q)
dequeue_refines q v = dequeue-Popped q.proc q.size q.time_slot v.slots v.fits
