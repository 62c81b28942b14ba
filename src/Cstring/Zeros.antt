-- ===== src/Cstring/Zeros.antt =====
-- Arrays that begin with NULs, as memset leaves them: a text copied in is terminated.
use mathlib.Core.Option
use posix_network_programmin.Prelude.{
  ℕ, zero, suc, ◌<◌, ◌≤◌, ◌+◌, ◌≡◌, ◌≢◌, some, List-cases, inl, inr, length-drop, refl, ap, ◌∙◌, [],
  ◌∷◌, ◌++◌, arith, length, drop, replicate,
}
use posix_network_programmin.Cstring.Array.{Bytes, c_str, fresh, overwrite, clear, strcpy, strcat}
use posix_network_programmin.Cstring.Laws.{
  IsText, c_str-append, memcpy_at-append, strcpy_text, overwrite-eq, length-overwrite, length-fresh,
}

pub clear-fresh : (n : ℕ) (buf : Bytes) → n ≤ length buf → clear n buf ≡ fresh n ++ drop n buf
unfolding clear fresh
clear-fresh n buf h =
    let l = length-fresh n in
    overwrite-eq (fresh n) buf (omega (arith, l)) ∙ ap (λ k. fresh n ++ drop k buf) l

pub length-clear : (n : ℕ) (buf : Bytes) → length (clear n buf) ≡ length buf
unfolding clear
length-clear n buf = length-overwrite (replicate n 0) buf

overwrite-zeros :
    (s : Bytes) (n : ℕ) (t : Bytes)
    → length s < n
    → (rest : Bytes) × (overwrite s (replicate n 0 ++ t) ≡ s ++ 0 ∷ rest)
unfolding overwrite
overwrite-zeros [] zero t h = absurd (omega arith)
overwrite-zeros [] (suc n) t h = (replicate n 0 ++ t, refl)
overwrite-zeros (c ∷ cs) zero t h = absurd (omega arith)
overwrite-zeros (c ∷ cs) (suc n) t h =
    let (rest, e) = overwrite-zeros cs n t (omega arith) in (rest, ap (◌∷◌ c) e)

pub overwrite-fresh :
    (s : Bytes) (n : ℕ) (t : Bytes)
    → length s < n
    → (rest : Bytes) × (overwrite s (fresh n ++ t) ≡ s ++ 0 ∷ rest)
unfolding fresh
overwrite-fresh s n t h = overwrite-zeros s n t h

-- strcat of one char to a string with room for it.
pub strcat_char :
    (s rest : Bytes) (r c : ℕ)
    → IsText s
    → c ≢ 0
    → strcat (s ++ 0 ∷ r ∷ rest) (c ∷ 0 ∷ []) ≡ some (s ++ c ∷ 0 ∷ rest)
unfolding strcat
strcat_char s rest r c t ne =
    let one : c_str (c ∷ 0 ∷ []) ≡ some (c ∷ []) = c_str-append (c ∷ []) [] (ne, tt) in
    rw (c_str-append s (r ∷ rest) t, one) (memcpy_at-append s (c ∷ 0 ∷ []) (0 ∷ r ∷ []) rest refl)

-- A text and a char copied into a fresh array.
pub copy_line :
    (n : ℕ) (s : Bytes) (c : ℕ)
    → IsText s
    → c ≢ 0
    → length s + 2 ≤ n
    → (rest : Bytes) × (Option.bind (strcpy (fresh n) (s ++ 0 ∷ [])) (λ p. strcat p (c ∷ 0 ∷ []))
        ≡ some (s ++ c ∷ 0 ∷ rest))
unfolding Option.bind
copy_line n s c t ne h = elim (List-cases (drop (suc (length s)) (fresh n))) [
  | inl e ↦
      absurd (omega (arith, ap length e, length-drop (suc (length s)) (fresh n), length-fresh n))
  | inr (r, rest, e) ↦ (
    rest,
    rw (strcpy_text (fresh n) s [] t (omega (arith, length-fresh n)), e)
        (strcat_char s rest r c t ne),
  )
]
