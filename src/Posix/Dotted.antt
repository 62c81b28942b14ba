-- ===== src/Posix/Dotted.antt =====
-- The length and the chars of an address in text.
use posix_network_programmin.Prelude.{
  ◌*◌, ltb, Bool-cases, inl, inr, ℕ, zero, suc, ◌+◌, ◌/◌, ◌%◌, ◌<◌, ◌≤◌, ◌≢◌, [], ◌∷◌, ◌++◌, arith,
  All, All-append, length, length-append,
}
use posix_network_programmin.Cstring.{Bytes, digits_onto, decimal}
use posix_network_programmin.Cstring.Laws.{IsText}
use posix_network_programmin.Cstring.Decimal.{IsDigit, decimal-IsDigit}
use posix_network_programmin.Posix.Accept.{dotted}

-- A bound for numbers below `m` gives one for numbers below 10 times that.
length-digits :
    (k m : ℕ)
    → ((f n : ℕ) (acc : Bytes) → n < m → length (digits_onto f n acc) ≤ length acc + k)
    → (f n : ℕ) (acc : Bytes) → n < 10 * m
    → length (digits_onto f n acc) ≤ length acc + suc k
unfolding digits_onto
length-digits k m shorter zero n acc h = omega arith
length-digits k m shorter (suc f) n acc h = elim (Bool-cases (ltb n 10)) [
  | inl last ↦ rw last (omega arith)
  | inr more ↦ rw more (omega (arith, shorter f (n / 10) ((b'0' + n % 10) ∷ acc) (omega arith)))
]

length-digits_1 : (f n : ℕ) (acc : Bytes) → n < 1 → length (digits_onto f n acc) ≤ length acc + 1
unfolding digits_onto
length-digits_1 zero n acc h = omega arith
length-digits_1 (suc f) n acc h = ground arith

length-decimal : (n : ℕ) → n < 256 → length (decimal n) ≤ 4
unfolding decimal
length-decimal n h =
    length-digits 3 100 (length-digits 2 10 (length-digits 1 1 length-digits_1)) (suc n) n []
      (omega arith)

IsDigit-IsText : (s : Bytes) → All IsDigit s → IsText s
IsDigit-IsText [] d = tt
IsDigit-IsText (c ∷ cs) d = (omega (arith, d.0.0), IsDigit-IsText cs d.1)

dot-IsText : (n : ℕ) (rest : Bytes) → IsText rest → IsText (decimal n ++ b'.' ∷ rest)
dot-IsText n rest t =
    All-append (λ c. c ≢ 0) (decimal n) (b'.' ∷ rest)
      (IsDigit-IsText (decimal n) (decimal-IsDigit n)) (omega arith, t)

pub dotted-IsText : (addr : ℕ) → IsText (dotted addr)
unfolding dotted
dotted-IsText addr = dot-IsText (addr % 256) _ (
    dot-IsText (addr / 256 % 256) _ (
      dot-IsText (addr / 65536 % 256) _ (
        IsDigit-IsText (decimal (addr / 16777216 % 256))
          (decimal-IsDigit (addr / 16777216 % 256)))))

dot_bound :
    (n k : ℕ) (rest : Bytes) → n < 256 → length rest ≤ k → length (decimal n ++ b'.' ∷ rest) ≤ k + 5
dot_bound n k rest h b = omega (arith, length-append (decimal n) (b'.' ∷ rest), length-decimal n h)

pub length-dotted : (addr : ℕ) → length (dotted addr) ≤ 19
unfolding dotted
length-dotted addr = dot_bound (addr % 256) 14 _ (omega arith) (
    dot_bound (addr / 256 % 256) 9 _ (omega arith) (
      dot_bound (addr / 65536 % 256) 4 _ (omega arith)
        (length-decimal (addr / 16777216 % 256) (omega arith))))
