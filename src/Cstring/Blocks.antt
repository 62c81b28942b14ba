-- ===== src/Cstring/Blocks.antt =====
-- Arrays of one size that hold a text and NULs behind it, as they go through a pipe.
use native.Mathlib.Numerals.{unary_clauses}
use posix_network_programmin.Prelude.{
  ℕ, zero, suc, ◌-◌, ◌<◌, ◌≤◌, ◌≡◌, refl, sym, ap, ◌∙◌, some, [], ◌∷◌, ◌++◌, arith, length,
  length-append, drop, append-nil, drop-append, append_assoc,
}
use posix_network_programmin.Cstring.Array.{Bytes, c_str, fresh, overwrite, clear}
use posix_network_programmin.Cstring.Laws.{
  IsText, c_str-append, overwrite-eq, overwrite-append, length-fresh,
}
use posix_network_programmin.Cstring.Zeros.{clear-fresh}

-- A text and the NULs that fill the array.
abbrev pub block : ℕ → Bytes → Bytes
block n s = s ++ fresh (n - length s)

pub length-block : (n : ℕ) (s : Bytes) → length s ≤ n → length (block n s) ≡ n
length-block n s h =
    omega (arith, length-append s (fresh (n - length s)), length-fresh (n - length s))

drop-fresh : (k n : ℕ) → drop k (fresh n) ≡ fresh (n - k)
unfolding fresh
drop-fresh zero n = simp unary_clauses refl
drop-fresh (suc k) zero = let none_left : 0 - suc k ≡ 0 = omega arith in rw none_left refl
drop-fresh (suc k) (suc n) =
    let less : suc n - suc k ≡ n - k = omega arith in rw less (drop-fresh k n)

-- A text that is read into an array of NULs.
pub overwrite-block : (n : ℕ) (s : Bytes) → length s ≤ n → overwrite s (fresh n) ≡ block n s
overwrite-block n s h =
    overwrite-eq s (fresh n) (omega (arith, length-fresh n))
    ∙ ap (λ t. s ++ t) (drop-fresh (length s) n)

-- A block that is read into an array of its size.
pub overwrite-whole : (b buf : Bytes) → length b ≡ length buf → overwrite b buf ≡ b
overwrite-whole b buf h =
    ap (overwrite b) (sym (append-nil buf)) ∙ overwrite-append b buf [] h ∙ append-nil b

pub clear-whole : (n : ℕ) (buf : Bytes) → length buf ≡ n → clear n buf ≡ fresh n
clear-whole n buf h =
    let none_left : drop n buf ≡ [] =
      ap (λ k. drop k buf) (sym h)
      ∙ ap (drop (length buf)) (sym (append-nil buf))
      ∙ drop-append buf [] in
    clear-fresh n buf (omega arith) ∙ ap (λ t. fresh n ++ t) none_left ∙ append-nil (fresh n)

fresh-suc : (k : ℕ) → 0 < k → fresh k ≡ 0 ∷ fresh (k - 1)
unfolding fresh
fresh-suc zero h = absurd (omega arith)
fresh-suc (suc k) h = simp unary_clauses refl

-- With room for one NUL, the text is terminated.
pub block-terminated :
    (n : ℕ) (s : Bytes) → length s < n → block n s ≡ s ++ 0 ∷ fresh (n - length s - 1)
block-terminated n s h = ap (λ t. s ++ t) (fresh-suc (n - length s) (omega arith))

pub c_str-block : (n : ℕ) (s : Bytes) → IsText s → length s < n → c_str (block n s) ≡ some s
c_str-block n s t h =
    ap c_str (block-terminated n s h) ∙ c_str-append s (fresh (n - length s - 1)) t

pub drop-over : (k : ℕ) (a b : Bytes) → drop k (a ++ b) ≡ drop k a ++ drop (k - length a) b
drop-over zero a b = let none : 0 - length a ≡ 0 = omega arith in rw none refl
drop-over (suc k) [] b = let whole : suc k - 0 ≡ suc k = omega arith in rw whole refl
drop-over (suc k) (c ∷ cs) b =
    let less : suc k - suc (length cs) ≡ k - length cs = omega arith in rw less (drop-over k cs b)

-- A text that is read over another: what the other had behind it stays, and the array is terminated.
pub overwrite-over :
    (n : ℕ) (s old : Bytes)
    → length s < n
    → length old < n
    → (tail : Bytes) × (overwrite s (block n old) ≡ (s ++ drop (length s) old) ++ 0 ∷ tail)
overwrite-over n s old hs ho =
    let zeros = n - length old in
    let k = length s - length old in
    let ends : drop k (fresh zeros) ≡ 0 ∷ fresh (zeros - k - 1) =
      drop-fresh k zeros ∙ fresh-suc (zeros - k) (omega arith) in
    (
      fresh (zeros - k - 1),
      overwrite-eq s (block n old) (omega (arith, length-block n old (omega arith)))
          ∙ ap (λ t. s ++ t) (drop-over (length s) old (fresh zeros))
          ∙ ap (λ t. s ++ (drop (length s) old ++ t)) ends
          ∙ sym (append_assoc s (drop (length s) old) (0 ∷ fresh (zeros - k - 1))),
    )
