-- ===== src/Outcome.antt =====
-- Runs of C code: a result, or the undefined behaviour that the run meets first.
use lab_os_assignment.Base.{◌≡◌, refl, subst, Option, none, some, Bool, true, false, if◌then◌else◌}

-- What the C standard leaves undefined, and `out_of_fuel` for a loop that is still running when
-- the rounds given to it are used up.
pub data Fault : Type 0 where
  null_pointer : Fault  -- NULL is dereferenced
  wild_pointer : Fault  -- an indeterminate or a dangling pointer is dereferenced
  out_of_bounds : Fault  -- an array is accessed outside its bounds
  uninitialized : Fault  -- a local variable is read before it is assigned
  type_confusion : Fault  -- an object is accessed through a pointer to another struct
  signed_overflow : Fault  -- an `int` operation leaves the range of `int`
  division_by_zero : Fault
  unrepresentable : Fault  -- a number that is read does not fit its object
  out_of_fuel : Fault

pub data Outcome {ℓ} (A : Type ℓ) : Type ℓ where
  ok : A → Outcome A
  fault : Fault → Outcome A

infixl 5 ◌>>=◌ ◌>>◌
abbrev pub ◌>>=◌ {ℓ κ} : {A : Type ℓ} {B : Type κ} → Outcome A → (A → Outcome B) → Outcome B
ok a >>= f = f a
fault e >>= f = fault e

abbrev pub ◌>>◌ {ℓ κ} : {A : Type ℓ} {B : Type κ} → Outcome A → Outcome B → Outcome B
m >> k = m >>= λ _. k

-- The `int` that most functions return: 0 or -1.
pub data Status : Type 0 where
  success failure : Status

-- A read of a place that may not hold a value.
abbrev pub need {ℓ} : {A : Type ℓ} → Fault → Option A → Outcome A
need e none = fault e
need e (some a) = ok a

-- A run that comes to a result, and what holds of the result.
abbrev pub Returns : {A : Type 0} → (A → Type 0) → Outcome A → Type 0
Returns P (ok a) = P a
Returns P (fault e) = ⊥

pub Returns-mono :
    {A : Type 0} {P Q : A → Type 0} (r : Outcome A)
    → Returns P r
    → ((a : A) → P a → Q a)
    → Returns Q r
Returns-mono (ok a) p weaken = weaken a p
Returns-mono (fault e) p weaken = p

pub Returns-bind :
    {A B : Type 0} {P : A → Type 0} (Q : B → Type 0) (r : Outcome A) (k : A → Outcome B)
    → Returns P r
    → ((a : A) → P a → Returns Q (k a))
    → Returns Q (r >>= k)
Returns-bind Q (ok a) k p next = next a p
Returns-bind Q (fault e) k p next = absurd p

pub Returns-ok :
    {A : Type 0} {P : A → Type 0} (r : Outcome A) → Returns P r → (a : A) × (r ≡ ok a) × P a
Returns-ok (ok a) p = (a, refl, p)
Returns-ok (fault e) p = absurd p

-- A chain that comes to a result has come to one at its first step.
pub >>=-eq-ok {ℓ κ} :
    {A : Type ℓ} {B : Type κ} {last : B} (first : Outcome A) (next : A → Outcome B)
    → first >>= next ≡ ok last
    → (mid : A) × (first ≡ ok mid) × (next mid ≡ ok last)
>>=-eq-ok (fault e) next h = cc
>>=-eq-ok (ok mid) next h = (mid, refl, h)

-- Two chains with the same first step agree when they agree after each of its results.
pub >>=-cong {ℓ κ} :
    {A : Type ℓ} {B : Type κ} (first : Outcome A) (f g : A → Outcome B)
    → ((a : A) → first ≡ ok a → f a ≡ g a)
    → first >>= f ≡ first >>= g
>>=-cong (ok a) f g h = h a refl
>>=-cong (fault e) f g h = refl

pub >>=-assoc {ℓ κ} :
    {A B : Type ℓ} {C : Type κ} (first : Outcome A) (f : A → Outcome B) (g : B → Outcome C)
    → first >>= f >>= g ≡ first >>= (λ a. f a >>= g)
>>=-assoc (ok a) f g = refl
>>=-assoc (fault e) f g = refl

pub Returns-bind_bind :
    {A B C : Type 0} {P : A → Type 0} (Q : C → Type 0) (r : Outcome A) (k : A → Outcome B)
    (l : B → Outcome C)
    → Returns P r
    → ((a : A) → P a → Returns Q (k a >>= l))
    → Returns Q (r >>= k >>= l)
Returns-bind_bind Q (ok a) k l p next = next a p
Returns-bind_bind Q (fault e) k l p next = absurd p

pub ok-injective {ℓ} : {A : Type ℓ} {a b : A} → ok a ≡ ok b → a ≡ b
ok-injective p = cc

-- What holds of the result of a run that comes to one.
abbrev pub OnResult : {A : Type 0} → (A → Type 0) → Outcome A → Type 0
OnResult P (ok a) = P a
OnResult P (fault e) = Unit {0}

pub OnResult-bind :
    {A B : Type 0} {P : A → Type 0} (Q : B → Type 0) (r : Outcome A) (k : A → Outcome B)
    → OnResult P r
    → ((a : A) → P a → OnResult Q (k a))
    → OnResult Q (r >>= k)
OnResult-bind Q (ok a) k p next = next a p
OnResult-bind Q (fault e) k p next = tt

-- The same where the first step may come to any result.
pub OnResult-after :
    {A B : Type 0} (Q : B → Type 0) (r : Outcome A) (k : A → Outcome B)
    → ((a : A) → OnResult Q (k a))
    → OnResult Q (r >>= k)
OnResult-after Q (ok a) k next = next a
OnResult-after Q (fault e) k next = tt

pub OnResult-any : {A : Type 0} (r : Outcome A) → OnResult (λ a. Unit {0}) r
OnResult-any (ok a) = tt
OnResult-any (fault e) = tt

pub OnResult-mono :
    {A : Type 0} {P : A → Type 0} (Q : A → Type 0) (r : Outcome A)
    → OnResult P r
    → ((a : A) → P a → Q a)
    → OnResult Q r
OnResult-mono Q (ok a) p weaken = weaken a p
OnResult-mono Q (fault e) p weaken = tt

pub OnResult-ok :
    {A : Type 0} (P : A → Type 0) {a : A} (r : Outcome A) → OnResult P r → r ≡ ok a → P a
OnResult-ok P (ok a) p h = subst P (ok-injective h) p
OnResult-ok P (fault e) p h = cc

-- What holds of a value that is there.
abbrev pub IfSome : {A : Type 0} → (A → Type 0) → Option A → Type 0
IfSome P none = Unit {0}
IfSome P (some a) = P a

pub OnResult-need :
    {A : Type 0} (P : A → Type 0) (e : Fault) (o : Option A) → IfSome P o → OnResult P (need e o)
OnResult-need P e none p = tt
OnResult-need P e (some a) p = p

-- The branches of a test.
pub OnResult-option :
    {A B : Type 0} (Q : B → Type 0) (o : Option A) (x : Outcome B) (y : A → Outcome B)
    → OnResult Q x
    → ((a : A) → OnResult Q (y a))
    → OnResult Q (elim o [ none ↦ x | some a ↦ y a ])
OnResult-option Q none x y p q = p
OnResult-option Q (some a) x y p q = q a

pub OnResult-some :
    {A B : Type 0} (P : A → Type 0) (Q : B → Type 0) (o : Option A) (x : Outcome B)
    (y : A → Outcome B)
    → IfSome P o
    → OnResult Q x
    → ((a : A) → P a → OnResult Q (y a))
    → OnResult Q (elim o [ none ↦ x | some a ↦ y a ])
OnResult-some P Q none x y i p q = p
OnResult-some P Q (some a) x y i p q = q a i

pub OnResult-status :
    {B : Type 0} (Q : B → Type 0) (s : Status) (x y : Outcome B)
    → OnResult Q x
    → OnResult Q y
    → OnResult Q (elim s [ success ↦ x | failure ↦ y ])
OnResult-status Q success x y p q = p
OnResult-status Q failure x y p q = q

pub OnResult-if :
    {B : Type 0} (Q : B → Type 0) (b : Bool) (x y : Outcome B)
    → OnResult Q x
    → OnResult Q y
    → OnResult Q (if b then x else y)
OnResult-if Q true x y p q = p
OnResult-if Q false x y p q = q
