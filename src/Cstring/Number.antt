-- ===== src/Cstring/Number.antt =====
-- Numbers in text: the conversions "%d" and "%ld" of printf, and atol. An `int` is its 32-bit
-- pattern; a `long` has 64 bits, and atol stops at its ends as strtol does.
use Prim.Native.Nat.{min}
use posix_network_programmin.Prelude.{
  ℕ, zero, suc, ◌+◌, ◌-◌, ◌*◌, ◌/◌, ◌%◌, ◌^◌, [], ◌∷◌, ltb, ◌==◌, if◌then◌else◌,
}
use posix_network_programmin.Cstring.Array.{Bytes}
use posix_network_programmin.Cstring.Ctype.{is_digit, is_space}

-- The digits of `n` in front of `acc`; each turn takes the last digit off.
unfoldable pub digits_onto : ℕ → ℕ → Bytes → Bytes
digits_onto zero n acc = acc
digits_onto (suc f) n acc =
    let more = digits_onto f (n / 10) ((b'0' + n % 10) ∷ acc) in
    if ltb n 10 then (b'0' + n) ∷ acc else more

-- "%ld" of a number that is not negative
unfoldable pub decimal : ℕ → Bytes
unfolding digits_onto
decimal n = digits_onto (suc n) n []

abbrev pub int_mod : ℕ
int_mod = 2 ^ 32

-- "%d"
unfoldable pub print_int : ℕ → Bytes
unfolding decimal
print_int v = if ltb v (2 ^ 31) then decimal v else b'-' ∷ decimal (int_mod - v)

-- The value of the digits that `s` begins with.
unfoldable pub digits_value : ℕ → Bytes → ℕ
unfolding is_digit
digits_value acc [] = acc
digits_value acc (c ∷ cs) =
    let more = digits_value (acc * 10 + (c - b'0')) cs in if is_digit c then more else acc

unfoldable pub skip_space : Bytes → Bytes
unfolding is_space
skip_space [] = []
skip_space (c ∷ cs) = let more = skip_space cs in if is_space c then more else c ∷ cs

-- `(int)` of a `long` with this sign and size, after strtol's stop at the ends of `long`
unfoldable pub int_pos : ℕ → ℕ
int_pos v = min v (2 ^ 63 - 1) % int_mod

unfoldable pub int_neg : ℕ → ℕ
int_neg v = (2 ^ 64 - min v (2 ^ 63)) % int_mod

unfoldable pub signed_value : Bytes → ℕ
unfolding digits_value int_pos int_neg
signed_value [] = 0
signed_value (c ∷ cs) =
    if c == b'-'
    then int_neg (digits_value 0 cs)
    else if c == b'+'
    then int_pos (digits_value 0 cs)
    else int_pos (digits_value 0 (c ∷ cs))

-- (int)atol(s), and atoi(s)
unfoldable pub atol_int : Bytes → ℕ
unfolding skip_space signed_value
atol_int s = signed_value (skip_space s)
