-- ===== src/Exercise/Split/Words.antt =====
-- The tokens that the calls of strtok give, and the words of a line, described with no state.
use posix_network_programmin.Prelude.{
  ℕ, zero, suc, ◌<◌, ◌≤◌, ◌≡◌, refl, ap, sym, ◌∙◌, Bool, true, false, List, [], ◌∷◌, arith, ◌==◌,
  if◌then◌else◌, length, List-cases, inl, inr,
}
use posix_network_programmin.Cstring.{Bytes}
use posix_network_programmin.Exercise.Split.{skip, token, after, strtok, strtok_all}

-- Whether a word ends in front of this text.
abbrev pub ends_word : ℕ → Bytes → Bool
ends_word d [] = true
ends_word d (c ∷ cs) = c == d

abbrev extend : ℕ → List Bytes → List Bytes
extend c [] = (c ∷ []) ∷ []
extend c (w ∷ ws) = (c ∷ w) ∷ ws

-- The longest runs of chars other than `d`.
unfoldable pub words : ℕ → Bytes → List Bytes
words d [] = []
words d (c ∷ cs) =
    let ws = words d cs in
    if c == d then ws else if ends_word d cs then (c ∷ []) ∷ ws else extend c ws

words-skip : (d : ℕ) (s : Bytes) → words d (skip d s) ≡ words d s
unfolding words skip
words-skip d [] = refl
words-skip d (c ∷ cs) = ground (arith, words-skip d cs)

words-token :
    (d c : ℕ) (cs : Bytes)
    → (c == d) ≡ false
    → words d (c ∷ cs) ≡ token d (c ∷ cs) ∷ words d (after d (c ∷ cs))
unfolding words token after
words-token d c [] h = ground arith
words-token d c (e ∷ cs) h = ground (arith, words-token d e cs)

length-after : (d : ℕ) (s : Bytes) → length (after d s) ≤ length s
unfolding after
length-after d [] = omega arith
length-after d (c ∷ cs) = ground (arith, length-after d cs)

after-cons : (d c : ℕ) (cs : Bytes) → (c == d) ≡ false → length (after d (c ∷ cs)) ≤ length cs
unfolding after
after-cons d c cs h = ground (arith, length-after d cs)

length-skip : (d : ℕ) (s : Bytes) → length (skip d s) ≤ length s
unfolding skip
length-skip d [] = omega arith
length-skip d (c ∷ cs) = ground (arith, length-skip d cs)

-- A text that strtok stopped skipping at does not begin with the delimiter.
skip-head : (d : ℕ) (s : Bytes) {c : ℕ} {cs : Bytes} → skip d s ≡ c ∷ cs → (c == d) ≡ false
unfolding skip
skip-head d [] h = ground arith
skip-head d (x ∷ xs) {c} {cs} h = ground (arith, skip-head d xs {c = c} {cs = cs})

-- The tokens of the strtok loop of `split`, with fuel beyond the length of the text, are its words.
pub strtok_all-words : (f d : ℕ) (s : Bytes) → length s < f → strtok_all f d s ≡ words d s
unfolding strtok_all strtok words
strtok_all-words zero d s h = absurd (omega arith)
strtok_all-words (suc f) d s h = elim (List-cases (skip d s)) [
  | inl e ↦ rw (e, strtok_all) (sym (sym (words-skip d s) ∙ ap (words d) e))
  | inr (c, cs, e) ↦
      let rest = after d (c ∷ cs) in
      rw (e, strtok_all)
        (ap (◌∷◌ (token d (c ∷ cs))) (
            strtok_all-words f d rest
              (omega (arith, after-cons d c cs (skip-head d s e), length-skip d s, ap length e)))
          ∙ sym (words-token d c cs (skip-head d s e))
          ∙ ap (words d) (sym e)
          ∙ words-skip d s)
]
