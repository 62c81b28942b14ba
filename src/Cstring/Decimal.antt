-- ===== src/Cstring/Decimal.antt =====
-- Numbers that "%ld" and "%d" wrote, read by atol.
use posix_network_programmin.Prelude.{
  ℕ, zero, suc, ◌+◌, ◌/◌, ◌%◌, ◌^◌, ◌<◌, ◌≤◌, ◌≡◌, ◌≢◌, All, refl, ◌∙◌, true, [], ◌∷◌, ◌++◌, arith,
  ltb, Bool-cases, inl, inr,
}
use posix_network_programmin.Cstring.Array.{Bytes}
use posix_network_programmin.Cstring.Ctype.{is_digit}
use posix_network_programmin.Cstring.Number.{
  digits_onto, decimal, digits_value, skip_space, int_pos, signed_value, atol_int,
}

digits_onto-append :
    (f n : ℕ) (acc rest : Bytes) → digits_onto f n acc ++ rest ≡ digits_onto f n (acc ++ rest)
unfolding digits_onto
digits_onto-append zero n acc rest = refl
digits_onto-append (suc f) n acc rest =
    ground (arith, digits_onto-append f (n / 10) ((b'0' + n % 10) ∷ acc) rest)

digits_value-digits_onto :
    (f n : ℕ) (acc : Bytes) → n < f → digits_value 0 (digits_onto f n acc) ≡ digits_value n acc
unfolding digits_onto digits_value
digits_value-digits_onto zero n acc h = absurd (omega arith)
digits_value-digits_onto (suc f) n acc h =
    ground (arith, digits_value-digits_onto f (n / 10) ((b'0' + n % 10) ∷ acc))

-- A number in decimal begins with a digit.
record Digits (s : Bytes) : Type 0 where
  first : ℕ
  others : Bytes
  splits : s ≡ first ∷ others
  digit : is_digit first ≡ true

digits_onto-Digits : (f n : ℕ) (acc : Bytes) → n < f → Digits (digits_onto f n acc)
unfolding digits_onto is_digit
digits_onto-Digits zero n acc h = absurd (omega arith)
digits_onto-Digits (suc f) n acc h = elim (Bool-cases (ltb n 10)) [
  | inl last ↦ record {
    first = b'0' + n;
    others = acc;
    splits = rw (last, digits_onto);
    digit = ground arith;
  }
  | inr more ↦
      rw (more, digits_onto) (digits_onto-Digits f (n / 10) ((b'0' + n % 10) ∷ acc) (ground arith))
]

skip_space-digit : (c : ℕ) (cs : Bytes) → is_digit c ≡ true → skip_space (c ∷ cs) ≡ c ∷ cs
unfolding skip_space is_digit
skip_space-digit c cs h = ground arith

signed_value-digit :
    (c : ℕ) (cs : Bytes)
    → is_digit c ≡ true
    → signed_value (c ∷ cs) ≡ int_pos (digits_value 0 (c ∷ cs))
unfolding signed_value is_digit
signed_value-digit c cs h = ground arith

decimal-append : (n : ℕ) (rest : Bytes) → decimal n ++ rest ≡ digits_onto (suc n) n rest
unfolding decimal
decimal-append n rest = digits_onto-append (suc n) n [] rest

int_pos_lem : (n : ℕ) → n < 2 ^ 31 → int_pos n ≡ n
unfolding int_pos
int_pos_lem n h = omega arith

signed_value-Digits :
    (n : ℕ) {s : Bytes}
    → Digits s
    → digits_value 0 s ≡ n
    → n < 2 ^ 31
    → signed_value (skip_space s) ≡ n
signed_value-Digits n d v h = rw d.splits (
    rw (skip_space-digit _ _ d.digit, signed_value-digit _ _ d.digit)
      (rw (rw d.splits at v) (int_pos_lem n h)))

-- What "%ld" wrote is read back by atol, up to the first char that is no digit.
pub atol_int-decimal :
    (n : ℕ) (rest : Bytes) → n < 2 ^ 31 → digits_value n rest ≡ n → atol_int (decimal n ++ rest) ≡ n
unfolding atol_int
atol_int-decimal n rest h stop = rw decimal-append (
    signed_value-Digits n (digits_onto-Digits (suc n) n rest (omega arith))
      (digits_value-digits_onto (suc n) n rest (omega arith) ∙ stop) h)

abbrev pub IsDigit : ℕ → Type 0
IsDigit c = (b'0' ≤ c) × (c ≤ b'9')

digits_onto-IsDigit : (f n : ℕ) (acc : Bytes) → All IsDigit acc → All IsDigit (digits_onto f n acc)
unfolding digits_onto
digits_onto-IsDigit zero n acc h = h
digits_onto-IsDigit (suc f) n acc h = elim (Bool-cases (ltb n 10)) [
  | inl last ↦ rw last (ground arith, h)
  | inr more ↦ rw more (digits_onto-IsDigit f (n / 10) ((b'0' + n % 10) ∷ acc) (omega arith, h))
]

-- A number in decimal is made of digits.
pub decimal-IsDigit : (n : ℕ) → All IsDigit (decimal n)
unfolding decimal
decimal-IsDigit n = digits_onto-IsDigit (suc n) n [] tt

pub decimal-ne-nil : (n : ℕ) → decimal n ≢ []
unfolding decimal
decimal-ne-nil n e = let d = digits_onto-Digits (suc n) n [] (omega arith) in cc (d.splits, e)
