-- ===== src/Scan.antt =====
-- What the program uses of fscanf: the conversions %u, %lu, %d and %s over the bytes of a file. A
-- conversion that fails leaves its object alone, and no return value of fscanf is looked at.
pub mod Decimal
use lab_os_assignment.Base.{
  ℕ, ◌+◌, ◌-◌, ◌*◌, ◌%◌, ◌^◌, Bool, true, false, ◌&&◌, ◌||◌, not, Option, none, some, List, [], ◌∷◌,
  length, ltb, leb, ◌==◌, if◌then◌else◌,
}
use lab_os_assignment.Outcome.{Outcome, ok, fault, ◌>>=◌, unrepresentable, out_of_bounds}

abbrev pub is_space : ℕ → Bool
is_space c = c == 32 || leb 9 c && leb c 13

abbrev pub is_digit : ℕ → Bool
is_digit c = leb 48 c && leb c 57

pub skip_space : List ℕ → List ℕ
skip_space [] = []
skip_space (c ∷ cs) = if is_space c then skip_space cs else c ∷ cs

-- The digits at the front, behind a number that has been read.
pub scan_digits : (acc : ℕ) → List ℕ → ℕ × List ℕ
scan_digits acc [] = (acc, [])
scan_digits acc (c ∷ cs) =
    if is_digit c then scan_digits (acc * 10 + (c - 48)) cs else (acc, c ∷ cs)

-- The characters up to the next space.
pub scan_chars : List ℕ → List ℕ × List ℕ
scan_chars [] = ([], [])
scan_chars (c ∷ cs) =
    let rest = scan_chars cs in if is_space c then ([], c ∷ cs) else (c ∷ rest.0, rest.1)

-- A sign, and what follows it.
abbrev pub scan_sign : List ℕ → Bool × List ℕ
scan_sign [] = (false, [])
scan_sign (c ∷ cs) =
    if c == 45 then (true, cs) else if c == 43 then (false, cs) else (false, c ∷ cs)

-- The number, if there is a digit.
abbrev pub scan_number : List ℕ → Option ℕ × List ℕ
scan_number [] = (none, [])
scan_number (c ∷ cs) =
    if is_digit c then (let r = scan_digits 0 (c ∷ cs) in (some r.0, r.1)) else (none, c ∷ cs)

-- Does a signed number fit, and what is its pattern? `%u` and `%lu` take a negative number as
-- `strtoul` does, modulo 2^64.
abbrev pub fits_unsigned : (bits : ℕ) → (minus : Bool) → ℕ → Option ℕ
fits_unsigned bits minus n =
    let value = if minus then (2 ^ 64 - n % 2 ^ 64) % 2 ^ 64 else n in
    if ltb value (2 ^ bits) then some value else none

abbrev pub fits_int : (minus : Bool) → ℕ → Option ℕ
fits_int minus n =
    if minus
    then (if leb n (2 ^ 31) then some ((2 ^ 32 - n) % 2 ^ 32) else none)
    else if ltb n (2 ^ 31)
    then some n
    else none

-- A numeric conversion into an object that holds `old`, once the number has been found or not.
-- Beside the input: whether it has succeeded, which tells if the next one of the format is tried.
abbrev pub convert :
    (Bool → ℕ → Option ℕ)
    → (old : ℕ) → (minus : Bool) → Option ℕ × List ℕ
    → Outcome (Bool × ℕ × List ℕ)
convert fits old minus (none, rest) = ok (false, old, rest)
convert fits old minus (some n, rest) = elim (fits minus n) [
  | none ↦ fault unrepresentable
  | some value ↦ ok (true, value, rest)
]

abbrev pub scan_at : (Bool → ℕ → Option ℕ) → (old : ℕ) → List ℕ → Outcome (Bool × ℕ × List ℕ)
scan_at fits old input = convert fits old (scan_sign input).0 (scan_number (scan_sign input).1)

pub scan_with : (Bool → ℕ → Option ℕ) → (old : ℕ) → List ℕ → Outcome (Bool × ℕ × List ℕ)
scan_with fits old input = scan_at fits old (skip_space input)

-- %u, %lu, %d
pub scan_uint : (old : ℕ) → List ℕ → Outcome (Bool × ℕ × List ℕ)
scan_uint old input = scan_with (fits_unsigned 32) old input

pub scan_ulong : (old : ℕ) → List ℕ → Outcome (Bool × ℕ × List ℕ)
scan_ulong old input = scan_with (fits_unsigned 64) old input

pub scan_int : (old : ℕ) → List ℕ → Outcome (Bool × ℕ × List ℕ)
scan_int old input = scan_with fits_int old input

-- %s into an array of `size` bytes, which takes a terminating NUL too. The option is what the array
-- holds as a text, where anything has been assigned.
abbrev pub fill :
    (size : ℕ)
    → (old : Option (List ℕ)) → List ℕ × List ℕ
    → Outcome (Bool × Option (List ℕ) × List ℕ)
fill size old ([], rest) = ok (false, old, rest)
fill size old (c ∷ cs, rest) =
    if ltb (length (c ∷ cs)) size then ok (true, some (c ∷ cs), rest) else fault out_of_bounds

pub scan_string :
    (size : ℕ) → (old : Option (List ℕ)) → List ℕ → Outcome (Bool × Option (List ℕ) × List ℕ)
scan_string size old input = fill size old (scan_chars (skip_space input))

-- The next conversion of a format, which is tried only if the one before has succeeded.
abbrev pub next_of :
    {A : Type 0}
    → Bool
    → (old : A) → (A → List ℕ → Outcome (Bool × A × List ℕ))
    → List ℕ
    → Outcome (Bool × A × List ℕ)
next_of before old scan input = if before then scan old input else ok (false, old, input)

-- A space in a format, which matches any number of spaces.
abbrev pub space_if : Bool → List ℕ → List ℕ
space_if before input = if before then skip_space input else input
