-- ===== src/Words.antt =====
-- Machine integers: an `int` or `uint32_t` is its 32-bit pattern, an `unsigned long` a 64-bit one.
use lab_os_assignment.Base.{
  ℕ, ◌+◌, ◌-◌, ◌*◌, ◌/◌, ◌%◌, ◌^◌, ◌<◌, ◌≡◌, arith, Bool, not, ◌&&◌, ltb, leb, if◌then◌else◌,
}
use lab_os_assignment.Outcome.{Outcome, ok, fault, signed_overflow}

-- The sign bit of an `int`.
abbrev pub is_negative : ℕ → Bool
is_negative x = leb (2 ^ 31) x

-- Signed `a < b` on patterns.
abbrev pub int_lt : ℕ → ℕ → Bool
int_lt a b = ltb ((a + 2 ^ 31) % 2 ^ 32) ((b + 2 ^ 31) % 2 ^ 32)

-- Conversion of an `int` to `unsigned long`: the sign is extended.
abbrev pub to_ulong : ℕ → ℕ
to_ulong x = if is_negative x then x + (2 ^ 64 - 2 ^ 32) else x

-- Conversion of an `unsigned long` to `int` or `uint32_t`: the low half.
abbrev pub to_int : ℕ → ℕ
to_int x = x % 2 ^ 32

abbrev pub add_ulong : ℕ → ℕ → ℕ
add_ulong a b = (a + b) % 2 ^ 64

-- -1 as an `unsigned long`.
abbrev pub ulong_max : ℕ
ulong_max = 2 ^ 64 - 1

-- `a + b` on `int`.
unfoldable pub add_int : ℕ → ℕ → Outcome ℕ
add_int a b =
    if not (is_negative a) && not (is_negative b) && leb (2 ^ 31) (a + b)
    then fault signed_overflow
    else if is_negative a && is_negative b && ltb (a + b) (2 ^ 32 + 2 ^ 31)
    then fault signed_overflow
    else ok ((a + b) % 2 ^ 32)

-- `a / 256` on `int`, which rounds toward zero.
abbrev pub div_256 : ℕ → ℕ
div_256 a = if is_negative a then (2 ^ 32 - (2 ^ 32 - a) / 256) % 2 ^ 32 else a / 256

-- `a * 256` on `int`.
unfoldable pub mul_256 : ℕ → Outcome ℕ
mul_256 a =
    if is_negative a
    then (if ltb (2 ^ 23) (2 ^ 32 - a) then fault signed_overflow else ok (a * 256 % 2 ^ 32))
    else if leb (2 ^ 23) a
    then fault signed_overflow
    else ok (a * 256)

-- The rounds of a loop `for (i = 0; i < n; i++)` over an `int`.
abbrev pub rounds_to : ℕ → ℕ
rounds_to n = if is_negative n then 0 else n

-- Where nothing overflows, these are the operations of ℕ.
pub add_int_lem : (a b : ℕ) → a + b < 2 ^ 31 → add_int a b ≡ ok (a + b)
unfolding add_int
add_int_lem a b h = ground arith

pub mul_256_lem : (a : ℕ) → a < 2 ^ 23 → mul_256 a ≡ ok (a * 256)
unfolding mul_256
mul_256_lem a h = ground arith

pub to_ulong_lem : (x : ℕ) → x < 2 ^ 31 → to_ulong x ≡ x
to_ulong_lem x h = ground arith

pub rounds_to_lem : (n : ℕ) → n < 2 ^ 31 → rounds_to n ≡ n
rounds_to_lem n h = ground arith
