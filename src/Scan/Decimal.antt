-- ===== src/Scan/Decimal.antt =====
-- Numbers and words as text, and what the conversions read of them.
use native.Mathlib.Decide.{dec_lt}
use lab_os_assignment.Base.{
  ℕ, zero, suc, ◌+◌, ◌-◌, ◌*◌, ◌/◌, ◌%◌, ◌^◌, ◌<◌, ◌≡◌, refl, sym, ap, ◌∙◌, arith, Bool, true,
  false, Option, some, List, [], ◌∷◌, ◌++◌, length, ltb, lt→ltb, ge→ltb, ◌==◌, if◌then◌else◌,
  Bool-cases, inl, inr,
}
use lab_os_assignment.Outcome.{ok}
use lab_os_assignment.Scan.{
  is_space, is_digit, skip_space, scan_digits, scan_chars, scan_sign, scan_number, fits_unsigned,
  scan_with, scan_at, convert, fill, fits_int, scan_int, scan_ulong, scan_uint, scan_string,
}

-- The decimal digits of `n`, with fuel above `n`.
digits_on : (fuel n : ℕ) (after : List ℕ) → List ℕ
digits_on zero n after = after
digits_on (suc fuel) n after =
    let more = digits_on fuel (n / 10) ((48 + n % 10) ∷ after) in
    if ltb n 10 then (48 + n) ∷ after else more

-- The text of `n`, in front of `after`.
pub decimal : (n : ℕ) (after : List ℕ) → List ℕ
unfolding digits_on
decimal n after = digits_on (suc n) n after

scan_digits-digit :
    (acc d : ℕ) (cs : List ℕ)
    → d < 10
    → scan_digits acc ((48 + d) ∷ cs) ≡ scan_digits (acc * 10 + d) cs
unfolding scan_digits
scan_digits-digit acc d cs h =
    let digit : is_digit (48 + d) ≡ true = ground arith in
    let back : 48 + d - 48 ≡ d = omega arith in rw (digit, back)

scan_digits-digits_on :
    (fuel n : ℕ) (after : List ℕ)
    → n < fuel
    → scan_digits 0 (digits_on fuel n after) ≡ scan_digits n after
unfolding digits_on
scan_digits-digits_on zero n after h = absurd (omega arith)
scan_digits-digits_on (suc fuel) n after h = elim (dec_lt n 10) [
  | yes one ↦
      rw (lt→ltb n 10 one, scan_digits-digit 0 n after one)
        (ap (λ k. scan_digits k after) (omega arith))
  | no more ↦
      rw
        (
          ge→ltb n 10 (omega arith),
          scan_digits-digits_on fuel (n / 10) ((48 + n % 10) ∷ after) (omega arith),
          scan_digits-digit (n / 10) (n % 10) after (omega arith),
        )
        (ap (λ k. scan_digits k after) (omega arith))
]

-- The text of a number starts with a digit.
digits_on-head :
    (fuel n : ℕ) (after : List ℕ)
    → n < fuel
    → (d : ℕ) × (cs : List ℕ) × (digits_on fuel n after ≡ (48 + d) ∷ cs) × (d < 10)
unfolding digits_on
digits_on-head zero n after h = absurd (omega arith)
digits_on-head (suc fuel) n after h = elim (dec_lt n 10) [
  | yes one ↦ (n, after, rw (lt→ltb n 10 one), one)
  | no more ↦
      (let (d, cs, e, lt) = digits_on-head fuel (n / 10) ((48 + n % 10) ∷ after) (omega arith) in
        (d, cs, rw (ge→ltb n 10 (omega arith)) e, lt))
]

-- What may stand behind a number or a word.
abbrev pub EndsWord : List ℕ → Type 0
EndsWord [] = Unit
EndsWord (c ∷ cs) = is_space c ≡ true

scan_digits-end : (n : ℕ) (after : List ℕ) → EndsWord after → scan_digits n after ≡ (n, after)
unfolding scan_digits
scan_digits-end n [] e = refl
scan_digits-end n (c ∷ cs) e = let no_digit : is_digit c ≡ false = ground arith in rw no_digit

skip_space-word : (c : ℕ) (cs : List ℕ) → is_space c ≡ false → skip_space (c ∷ cs) ≡ c ∷ cs
unfolding skip_space
skip_space-word c cs e = rw e

pub skip_space-space :
    (c : ℕ) (cs : List ℕ) → is_space c ≡ true → skip_space (c ∷ cs) ≡ skip_space cs
unfolding skip_space
skip_space-space c cs e = rw e

scan_sign-digit : (d : ℕ) (cs : List ℕ) → scan_sign ((48 + d) ∷ cs) ≡ (false, (48 + d) ∷ cs)
scan_sign-digit d cs =
    let no_minus : (48 + d == 45) ≡ false = ground arith in
    let no_plus : (48 + d == 43) ≡ false = ground arith in rw (no_minus, no_plus)

scan_number-digit :
    (d n : ℕ) (cs after : List ℕ)
    → d < 10
    → scan_digits 0 ((48 + d) ∷ cs) ≡ (n, after)
    → scan_number ((48 + d) ∷ cs) ≡ (some n, after)
scan_number-digit d n cs after lt all =
    let digit : is_digit (48 + d) ≡ true = ground arith in rw (digit, all)

scan_at-digit :
    (fits : Bool → ℕ → Option ℕ) (old d n : ℕ) (cs after : List ℕ)
    → d < 10
    → scan_digits 0 ((48 + d) ∷ cs) ≡ (n, after)
    → fits false n ≡ some n
    → scan_at fits old ((48 + d) ∷ cs) ≡ ok (true, n, after)
scan_at-digit fits old d n cs after lt all fit =
    ap (λ (p : Bool × List ℕ). convert fits old p.0 (scan_number p.1)) (scan_sign-digit d cs)
    ∙ ap (convert fits old false) (scan_number-digit d n cs after lt all)
    ∙ rw (fit, convert)

-- A number that fits is read back.
pub scan_with-decimal :
    (fits : Bool → ℕ → Option ℕ) (old n : ℕ) (after : List ℕ)
    → fits false n ≡ some n
    → EndsWord after
    → scan_with fits old (decimal n after) ≡ ok (true, n, after)
unfolding scan_with decimal
scan_with-decimal fits old n after fit ends =
    let (d, cs, e, lt) = digits_on-head (suc n) n after (omega arith) in
    let no_space : is_space (48 + d) ≡ false = ground arith in
    rw (e, skip_space-word (48 + d) cs no_space)
      (scan_at-digit fits old d n cs after lt
        (ap (scan_digits 0) (sym e)
          ∙ scan_digits-digits_on (suc n) n after (omega arith)
          ∙ scan_digits-end n after ends)
        fit)

pub scan_uint-decimal :
    (old n : ℕ) (after : List ℕ)
    → n < 2 ^ 32
    → EndsWord after
    → scan_uint old (decimal n after) ≡ ok (true, n, after)
unfolding scan_uint
scan_uint-decimal old n after small ends =
    scan_with-decimal (fits_unsigned 32) old n after (rw (lt→ltb n (2 ^ 32) small)) ends

-- Spaces in front of a number are skipped.
pub scan_with-space :
    (fits : Bool → ℕ → Option ℕ) (old c : ℕ) (cs : List ℕ)
    → is_space c ≡ true
    → scan_with fits old (c ∷ cs) ≡ scan_with fits old cs
unfolding scan_with
scan_with-space fits old c cs e = ap (scan_at fits old) (skip_space-space c cs e)

pub scan_uint-space :
    (old c : ℕ) (cs : List ℕ) → is_space c ≡ true → scan_uint old (c ∷ cs) ≡ scan_uint old cs
unfolding scan_uint
scan_uint-space old c cs e = scan_with-space (fits_unsigned 32) old c cs e

pub skip_space-skip_space : (cs : List ℕ) → skip_space (skip_space cs) ≡ skip_space cs
unfolding skip_space
skip_space-skip_space [] = refl
skip_space-skip_space (c ∷ cs) = elim (Bool-cases (is_space c)) [
  | inl space ↦ rw space (skip_space-skip_space cs)
  | inr word ↦ rw word (skip_space-word c cs word)
]

pub scan_with-skip_space :
    (fits : Bool → ℕ → Option ℕ) (old : ℕ) (cs : List ℕ)
    → scan_with fits old (skip_space cs) ≡ scan_with fits old cs
unfolding scan_with
scan_with-skip_space fits old cs = ap (scan_at fits old) (skip_space-skip_space cs)

pub scan_uint-skip_space :
    (old : ℕ) (cs : List ℕ) → scan_uint old (skip_space cs) ≡ scan_uint old cs
unfolding scan_uint
scan_uint-skip_space old cs = scan_with-skip_space (fits_unsigned 32) old cs

-- The characters of a word.
abbrev pub IsWord : List ℕ → Type 0
IsWord [] = Unit
IsWord (c ∷ cs) = (is_space c ≡ false) × IsWord cs

scan_chars-word :
    (word after : List ℕ)
    → IsWord word
    → EndsWord after
    → scan_chars (word ++ after) ≡ (word, after)
unfolding scan_chars
scan_chars-word [] [] w ends = refl
scan_chars-word [] (c ∷ cs) w ends = rw ends
scan_chars-word (c ∷ word) after w ends = rw (w.0, scan_chars-word word after w.1 ends)

-- A word that fits the array is read back by %s.
pub scan_string-word :
    (size : ℕ) (old : Option (List ℕ)) (c : ℕ) (cs after : List ℕ)
    → IsWord (c ∷ cs)
    → length (c ∷ cs) < size
    → EndsWord after
    → scan_string size old ((c ∷ cs) ++ after) ≡ ok (true, some (c ∷ cs), after)
unfolding scan_string
scan_string-word size old c cs after w fits ends =
    ap (λ input. fill size old (scan_chars input)) (skip_space-word c (cs ++ after) w.0)
    ∙ ap (fill size old) (scan_chars-word (c ∷ cs) after w ends)
    ∙ rw (lt→ltb (length (c ∷ cs)) size fits)

pub scan_string-space :
    (size : ℕ) (old : Option (List ℕ)) (c : ℕ) (cs : List ℕ)
    → is_space c ≡ true
    → scan_string size old (c ∷ cs) ≡ scan_string size old cs
unfolding scan_string
scan_string-space size old c cs e =
    ap (λ input. fill size old (scan_chars input)) (skip_space-space c cs e)

-- Where the input agrees with another behind its spaces, so do the words read from both.
pub scan_string-skip :
    (size : ℕ) (old : Option (List ℕ)) (input input' : List ℕ)
    → skip_space input ≡ skip_space input'
    → scan_string size old input ≡ scan_string size old input'
unfolding scan_string
scan_string-skip size old input input' e = ap (λ cs. fill size old (scan_chars cs)) e

-- At the end of the file every conversion fails.
pub scan_uint-nil : (old : ℕ) → scan_uint old [] ≡ ok (false, old, [])
unfolding scan_uint scan_with skip_space
scan_uint-nil old = refl

pub scan_string-nil :
    (size : ℕ) (old : Option (List ℕ)) → scan_string size old [] ≡ ok (false, old, [])
unfolding scan_string scan_chars skip_space
scan_string-nil size old = refl

-- A number behind any number of spaces.
field :
    (fits : Bool → ℕ → Option ℕ) (old n : ℕ) (after input : List ℕ)
    → skip_space input ≡ skip_space (decimal n after)
    → fits false n ≡ some n
    → EndsWord after
    → scan_with fits old input ≡ ok (true, n, after)
field fits old n after input same fit ends =
    sym (scan_with-skip_space fits old input)
    ∙ ap (scan_with fits old) same
    ∙ scan_with-skip_space fits old (decimal n after)
    ∙ scan_with-decimal fits old n after fit ends

pub int_field :
    (old n : ℕ) (after input : List ℕ)
    → skip_space input ≡ skip_space (decimal n after)
    → n < 2 ^ 31
    → EndsWord after
    → scan_int old input ≡ ok (true, n, after)
unfolding scan_int
int_field old n after input same small ends =
    field fits_int old n after input same (rw (lt→ltb n (2 ^ 31) small)) ends

pub ulong_field :
    (old n : ℕ) (after input : List ℕ)
    → skip_space input ≡ skip_space (decimal n after)
    → n < 2 ^ 64
    → EndsWord after
    → scan_ulong old input ≡ ok (true, n, after)
unfolding scan_ulong
ulong_field old n after input same small ends =
    field (fits_unsigned 64) old n after input same (rw (lt→ltb n (2 ^ 64) small)) ends
