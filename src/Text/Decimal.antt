-- ===== src/Text/Decimal.antt =====
-- Printing an integer, parsing the text, and what the printed text is made of.
use sharding_p2p_poc.Prelude.{
  ℕ, zero, suc, ◌+◌, ◌-◌, ◌*◌, ◌/◌, ◌%◌, ◌^◌, ◌<◌, ◌≤◌, ℤ, pos, negsuc, IsInt64, Bytes, false, ◌≡◌,
  ◌≢◌, refl, ◌∙◌, arith, [], ◌∷◌, nat_beq, All, inl, inr, Bool-cases,
}
use sharding_p2p_poc.Outcome.{ok}
use sharding_p2p_poc.Text.{
  signed, digits_loop, format_uint, format_int, scan_digits, parse_uint, parse_int,
}

abbrev pub IsDigit : ℕ → Type 0
IsDigit c = (b'0' ≤ c) × (c ≤ b'9')

next_digit :
    (text out : Bytes) (n : ℕ)
    → n < 2 ^ 64
    → scan_digits text ((b'0' + n % 10) ∷ out) (n / 10) ≡ scan_digits text out n
unfolding scan_digits
next_digit text out n lt =
    let e : n / 10 * 10 + (48 + n % 10 - 48) ≡ n = omega arith in
    let d : n % 10 < 10 = omega arith in ground (arith, e, d)

-- Reading the printed digits of n, and then the rest, is reading the rest with n so far.
scan_digits-digits_loop :
    (text out : Bytes) (fuel n : ℕ)
    → n ≤ fuel
    → n < 2 ^ 64
    → scan_digits text (digits_loop fuel n out) 0 ≡ scan_digits text out n
unfolding digits_loop
scan_digits-digits_loop text out zero zero h lt = refl
scan_digits-digits_loop text out zero (suc n) h lt = absurd (omega arith)
scan_digits-digits_loop text out (suc fuel) n h lt = elim (Bool-cases (nat_beq n 0)) [
  | inl e ↦ ground (arith, e)
  | inr e ↦ rw e (
      scan_digits-digits_loop text ((b'0' + n % 10) ∷ out) fuel (n / 10) (ground arith)
        (omega arith)
      ∙ next_digit text out n lt)
]

digits_loop-IsDigit :
    (fuel n : ℕ) (out : Bytes) → All IsDigit out → All IsDigit (digits_loop fuel n out)
unfolding digits_loop
digits_loop-IsDigit zero n out h = h
digits_loop-IsDigit (suc fuel) n out h = elim (Bool-cases (nat_beq n 0)) [
  | inl e ↦ rw e h
  | inr e ↦ rw e (digits_loop-IsDigit fuel (n / 10) _ ((omega arith, omega arith), h))
]

digits_loop-ne_nil : (fuel n d : ℕ) (out : Bytes) → digits_loop fuel n (d ∷ out) ≢ []
unfolding digits_loop
digits_loop-ne_nil zero n d out = λ p. cc
digits_loop-ne_nil (suc fuel) n d out = elim (Bool-cases (nat_beq n 0)) [
  | inl e ↦ rw e (λ p. cc)
  | inr e ↦ rw e (digits_loop-ne_nil fuel (n / 10) (b'0' + n % 10) (d ∷ out))
]

-- Printed numbers are made of digits, and are not empty.
pub format_uint-IsDigit : (n : ℕ) → All IsDigit (format_uint n)
unfolding format_uint
format_uint-IsDigit n = elim (Bool-cases (nat_beq n 0)) [
  | inl e ↦ rw e (omega arith)
  | inr e ↦ rw e (digits_loop-IsDigit n n [] tt)
]

pub format_uint-ne_nil : (n : ℕ) → format_uint n ≢ []
unfolding format_uint digits_loop
format_uint-ne_nil zero = λ p. cc
format_uint-ne_nil (suc n) =
    ground (arith, digits_loop-ne_nil n (suc n / 10) (b'0' + suc n % 10) [])

scan_digits-format_uint :
    (text : Bytes) (n : ℕ) → n < 2 ^ 64 → scan_digits text (format_uint n) 0 ≡ ok n
unfolding format_uint scan_digits
scan_digits-format_uint text n lt = elim (Bool-cases (nat_beq n 0)) [
  | inl e ↦ ground (arith, e)
  | inr e ↦ rw e (scan_digits-digits_loop text [] n n (omega arith) lt)
]

parse_uint-scan : (s : Bytes) → s ≢ [] → parse_uint s ≡ scan_digits s s 0
unfolding parse_uint
parse_uint-scan [] h = absurd (h refl)
parse_uint-scan (c ∷ rest) h = refl

-- Every `uint64` is parsed back from its text.
pub parse_uint-format_uint : (n : ℕ) → n < 2 ^ 64 → parse_uint (format_uint n) ≡ ok n
parse_uint-format_uint n lt =
    parse_uint-scan (format_uint n) (format_uint-ne_nil n)
    ∙ scan_digits-format_uint (format_uint n) n lt

parse_int-unsigned :
    (s : Bytes) → s ≢ [] → All IsDigit s → parse_int s ≡ signed s false (parse_uint s)
unfolding parse_int
parse_int-unsigned [] h d = absurd (h refl)
parse_int-unsigned (c ∷ rest) h d = ground arith

-- Every `int64` is parsed back from its text.
pub parse_int-format_int : (z : ℤ) → IsInt64 z → parse_int (format_int z) ≡ ok z
unfolding format_int
parse_int-format_int (pos n) h =
    parse_int-unsigned (format_uint n) (format_uint-ne_nil n) (format_uint-IsDigit n)
    ∙ ground (arith, parse_uint-format_uint n (omega arith))
parse_int-format_int (negsuc n) h =
    unfold parse_int in ground (arith, parse_uint-format_uint (n + 1) (omega arith))
