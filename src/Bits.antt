-- ===== src/Bits.antt =====
-- Laws of `&` and `|` at variables: how they act on the last digit, on disjoint masks and on a
-- mask of neighbouring ones.
use Prim.Native.Nat.{digits, bit_and-bitwise, bit_or-bitwise, max}
use native.Mathlib.Nat.{
  pow-suc, pow-succ', one-le-pow, add-mul-mod_self_left, mod-eq_of_lt, div-add-mod,
  div-div-eq-div-mul,
}
use lab_os_assignment.Base.{
  ℕ, zero, suc, ◌+◌, ◌-◌, ◌*◌, ◌/◌, ◌%◌, ◌^◌, ◌≤◌, ◌<◌, min, bit_and, bit_or, ◌≡◌, refl, ap, ◌∙◌,
  arith,
}

-- The recursion that the native operations stand for, with more fuel than the number needs.
module _ (z : ℕ → ℕ) (f : ℕ → ℕ → ℕ) where
  enough : (n m a b : ℕ) → a ≤ n → a ≤ m → digits z f n a b ≡ digits z f m a b
  enough zero zero a b p q = refl
  enough zero (suc m) zero b p q = refl
  enough zero (suc m) (suc a) b p q = elim p [ ]
  enough (suc n) zero zero b p q = refl
  enough (suc n) zero (suc a) b p q = elim q [ ]
  enough (suc n) (suc m) zero b p q = refl
  enough (suc n) (suc m) (suc a) b p q =
      ap (λ t. t * 2 + f (suc a % 2) (b % 2))
        (enough n m (suc a / 2) (b / 2) (omega arith) (omega arith))

pub and_last : (a b : ℕ) → bit_and a b ≡ bit_and (a / 2) (b / 2) * 2 + min (a % 2) (b % 2)
and_last zero b = omega (arith, bit_and-bitwise 0 b, bit_and-bitwise 0 (b / 2))
and_last (suc a) b = omega (
  arith,
  bit_and-bitwise (suc a) b,
  bit_and-bitwise (suc a / 2) (b / 2),
  enough (λ b. zero) min a (suc a / 2) (suc a / 2) (b / 2) (omega arith) (omega arith),
)

pub or_last : (a b : ℕ) → bit_or a b ≡ bit_or (a / 2) (b / 2) * 2 + max (a % 2) (b % 2)
or_last zero b = omega (arith, bit_or-bitwise 0 b, bit_or-bitwise 0 (b / 2))
or_last (suc a) b = omega (
  arith,
  bit_or-bitwise (suc a) b,
  bit_or-bitwise (suc a / 2) (b / 2),
  enough (λ b. b) max a (suc a / 2) (suc a / 2) (b / 2) (omega arith) (omega arith),
)

pub zero-and : (b : ℕ) → bit_and 0 b ≡ 0
zero-and b = bit_and-bitwise 0 b

pub zero-or : (b : ℕ) → bit_or 0 b ≡ b
zero-or b = bit_or-bitwise 0 b

-- `a | b` and `a & b` together hold the digits of `a` and `b`.
or_and_sum : (n a b : ℕ) → a ≤ n → bit_or a b + bit_and a b ≡ a + b
or_and_sum n zero b h = omega (arith, zero-and b, zero-or b)
or_and_sum zero (suc a) b h = elim h [ ]
or_and_sum (suc n) (suc a) b h =
    omega
      (arith, and_last (suc a) b, or_last (suc a) b, or_and_sum n (suc a / 2) (b / 2) (omega arith))

pub or-add-and : (a b : ℕ) → bit_or a b + bit_and a b ≡ a + b
or-add-and a b = or_and_sum a a b (omega arith)

-- A mask made of two disjoint masks.
and_split : (n a m k : ℕ) → a ≤ n → bit_and m k ≡ 0 → bit_and a (m + k) ≡ bit_and a m + bit_and a k
and_split n zero m k h d = omega (arith, zero-and (m + k), zero-and m, zero-and k)
and_split zero (suc a) m k h d = elim h [ ]
and_split (suc n) (suc a) m k h d =
    let halves : (m + k) / 2 ≡ m / 2 + k / 2 = omega (arith, and_last m k) in
    let rest : bit_and (suc a / 2) ((m + k) / 2)
        ≡ bit_and (suc a / 2) (m / 2) + bit_and (suc a / 2) (k / 2) =
      rw halves
        (and_split n (suc a / 2) (m / 2) (k / 2) (omega arith) (omega (arith, and_last m k))) in
    omega
      (arith, rest, and_last m k, and_last (suc a) (m + k), and_last (suc a) m, and_last (suc a) k)

pub and-add : (a m k : ℕ) → bit_and m k ≡ 0 → bit_and a (m + k) ≡ bit_and a m + bit_and a k
and-add a m k d = and_split a a m k (omega arith) d

-- What two disjoint masks let through is disjoint.
and_apart : (n a b m k : ℕ) → a ≤ n → bit_and m k ≡ 0 → bit_and (bit_and a m) (bit_and b k) ≡ 0
and_apart n zero b m k h d = rw (zero-and m, zero-and)
and_apart zero (suc a) b m k h d = elim h [ ]
and_apart (suc n) (suc a) b m k h d =
    let left : bit_and (suc a) m / 2 ≡ bit_and (suc a / 2) (m / 2) =
      omega (arith, and_last (suc a) m) in
    let right : bit_and b k / 2 ≡ bit_and (b / 2) (k / 2) = omega (arith, and_last b k) in
    let rest : bit_and (bit_and (suc a) m / 2) (bit_and b k / 2) ≡ 0 =
      rw (left, right)
        (and_apart n (suc a / 2) (b / 2) (m / 2) (k / 2) (omega arith)
          (omega (arith, and_last m k))) in
    omega (
      arith,
      rest,
      and_last (bit_and (suc a) m) (bit_and b k),
      and_last (suc a) m,
      and_last b k,
      and_last m k,
    )

pub and-disjoint : (a b m k : ℕ) → bit_and m k ≡ 0 → bit_and (bit_and a m) (bit_and b k) ≡ 0
and-disjoint a b m k d = and_apart a a b m k (omega arith) d

double-mod : (a p : ℕ) → 0 < p → a % (2 * p) ≡ a / 2 % p * 2 + a % 2
double-mod a p h =
    ap (λ t. t % (2 * p)) halved
    ∙ add-mul-mod_self_left (a / 2 % p * 2 + a % 2) (2 * p) (a / 2 / p)
    ∙ mod-eq_of_lt (omega arith)
  where
    halved : a ≡ a / 2 % p * 2 + a % 2 + 2 * p * (a / 2 / p)
    halved = omega (arith, ap (λ (t : ℕ). t * 2) (div-add-mod (a / 2) p))

and_zero : (n a : ℕ) → a ≤ n → bit_and a 0 ≡ 0
and_zero n zero h = zero-and 0
and_zero zero (suc a) h = elim h [ ]
and_zero (suc n) (suc a) h = omega (arith, and_last (suc a) 0, and_zero n (suc a / 2) (omega arith))

pub and-zero : (a : ℕ) → bit_and a 0 ≡ 0
and-zero a = and_zero a a (omega arith)

-- A mask of ones takes the remainder.
pub and-ones : (k a : ℕ) → bit_and a (2 ^ k - 1) ≡ a % 2 ^ k
and-ones zero a = omega (arith, and-zero a)
and-ones (suc k) a =
    let half : (2 ^ suc k - 1) / 2 ≡ 2 ^ k - 1 = omega (arith, pow-suc 2 k, one-le-pow k 2) in
    let rest : bit_and (a / 2) ((2 ^ suc k - 1) / 2) ≡ a / 2 % 2 ^ k =
      rw half (and-ones k (a / 2)) in
    omega (
      arith,
      rest,
      and_last a (2 ^ suc k - 1),
      pow-suc 2 k,
      one-le-pow k 2,
      double-mod a (2 ^ k) (one-le-pow k 2 (omega arith)),
      ap (λ t. a % t) (pow-succ' 2 k),
    )

-- A mask that ends in zeros lets nothing of the low digits through.
pub and-shift : (k a m : ℕ) → bit_and a (m * 2 ^ k) ≡ bit_and (a / 2 ^ k) m * 2 ^ k
and-shift zero a m =
    let e : m * 1 ≡ m = omega arith in let d : a / 1 ≡ a = omega arith in rw (e, d) (omega arith)
and-shift (suc k) a m =
    let half : m * 2 ^ suc k / 2 ≡ m * 2 ^ k = omega (arith, ap (λ (t : ℕ). m * t) (pow-suc 2 k)) in
    let rest : bit_and (a / 2) (m * 2 ^ suc k / 2) ≡ bit_and (a / 2 ^ suc k) m * 2 ^ k =
      rw (half, pow-succ' 2 k, ← div-div-eq-div-mul a 2 (2 ^ k)) (and-shift k (a / 2) m) in
    omega (
      arith,
      rest,
      and_last a (m * 2 ^ suc k),
      ap (λ (t : ℕ). m * t) (pow-suc 2 k),
      ap (λ (t : ℕ). bit_and (a / 2 ^ suc k) m * t) (pow-suc 2 k),
    )

-- The single bit `k`.
pub and-bit : (k a : ℕ) → bit_and a (2 ^ k) ≡ a / 2 ^ k % 2 * 2 ^ k
and-bit k a =
    let e : 1 * 2 ^ k ≡ 2 ^ k = omega arith in
    let shifted : bit_and a (2 ^ k) ≡ bit_and (a / 2 ^ k) 1 * 2 ^ k = rw e at (and-shift k a 1) in
    shifted ∙ ap (λ t. t * 2 ^ k) (and-ones 1 (a / 2 ^ k))
