-- ===== src/Cstring/Radix.antt =====
-- strtoul with base 0: the radix is read off the text. The result is of the LP64 model, as kept in an
-- unsigned int.
use Prim.Native.Nat.{min}
use posix_network_programmin.Prelude.{
  ℕ, ◌+◌, ◌-◌, ◌*◌, ◌^◌, ◌%◌, ◌&&◌, ◌||◌, [], ◌∷◌, ltb, ◌==◌, if◌then◌else◌,
}
use posix_network_programmin.Cstring.Array.{Bytes}
use posix_network_programmin.Cstring.Ctype.{is_digit, is_lower, is_upper}
use posix_network_programmin.Cstring.Number.{skip_space, int_mod}

-- 36 for a char that is no digit in any radix
unfoldable pub digit_of : ℕ → ℕ
unfolding is_digit is_lower is_upper
digit_of c =
    if is_digit c
    then c - b'0'
    else if is_lower c
    then c - b'a' + 10
    else if is_upper c
    then c - b'A' + 10
    else 36

unfoldable pub radix_value : ℕ → ℕ → Bytes → ℕ
unfolding digit_of
radix_value radix acc [] = acc
radix_value radix acc (c ∷ cs) =
    let more = radix_value radix (acc * radix + digit_of c) cs in
    if ltb (digit_of c) radix then more else acc

-- 0x and a digit: hexadecimal; 0: octal; any other: decimal
unfoldable pub prefixed_value : Bytes → ℕ
unfolding radix_value
prefixed_value (b0 ∷ x ∷ d ∷ cs) =
    if b0 == b'0'
    then if (x == b'x' || x == b'X') && ltb (digit_of d) 16
      then radix_value 16 0 (d ∷ cs)
      else radix_value 8 0 (x ∷ d ∷ cs)
    else radix_value 10 0 (b0 ∷ x ∷ d ∷ cs)
prefixed_value (b0 ∷ cs) = if b0 == b'0' then radix_value 8 0 cs else radix_value 10 0 (b0 ∷ cs)
prefixed_value [] = 0

-- A value out of range is ULONG_MAX; a sign in front negates the value that fits.
unfoldable pub negated : ℕ → ℕ
negated v = if ltb v (2 ^ 64) then (2 ^ 64 - v) % int_mod else int_mod - 1

unfoldable pub unsigned_value : Bytes → ℕ
unfolding prefixed_value negated
unsigned_value [] = 0
unsigned_value (c ∷ cs) =
    if c == b'-'
    then negated (prefixed_value cs)
    else if c == b'+'
    then min (prefixed_value cs) (2 ^ 64 - 1) % int_mod
    else min (prefixed_value (c ∷ cs)) (2 ^ 64 - 1) % int_mod

unfoldable pub strtoul_int : Bytes → ℕ
unfolding skip_space unsigned_value
strtoul_int s = unsigned_value (skip_space s)
