-- ===== src/Exercise/Split/Laws.antt =====
-- `split` as a whole: its results and its failures.
use posix_network_programmin.Prelude.{
  ℕ, suc, ◌<◌, ◌≤◌, ◌≡◌, ◌≢◌, refl, sym, ap, ◌∙◌, Bool, true, false, List, [], ◌∷◌, ◌++◌, some,
  arith, ◌==◌, if◌then◌else◌, length, All, All-append, append-nil,
}
use posix_network_programmin.Cstring.{Bytes, fresh}
use posix_network_programmin.Cstring.Laws.{
  IsText, c_str-append, length-fresh, strcpy_text, strcpy_overrun,
}
use posix_network_programmin.Posix.{pure, fault, out_of_bounds, failed_assert}
use posix_network_programmin.Exercise.Split.{line_size, scan, store, split, filled, entries}
use posix_network_programmin.Exercise.Split.Words.{words, ends_word, strtok_all-words}
use posix_network_programmin.Exercise.Split.Count.{surplus, entries-words, store-eq}

abbrev is_empty : Bytes → Bool
is_empty [] = true
is_empty (c ∷ cs) = false

-- Some char, no separator in front, and no two side by side.
abbrev pub well_spaced : ℕ → Bytes → Bool
well_spaced d [] = false
well_spaced d (c ∷ cs) = surplus d true (c ∷ cs) == 0

filled_cons :
    (d c : ℕ) (cs : Bytes)
    → filled (entries d (c ∷ cs)) (words d (c ∷ cs))
      ≡ (if well_spaced d (c ∷ cs) then pure (some (words d (c ∷ cs))) else fault failed_assert)
filled_cons d c cs =
    ground (arith, store-eq (entries d (c ∷ cs)) 0 (words d (c ∷ cs)), entries-words d c cs)

filled-words :
    (d : ℕ) (s : Bytes)
    → filled (entries d s) (words d s)
      ≡ (if well_spaced d s then pure (some (words d s)) else fault failed_assert)
unfolding entries scan words store
filled-words d [] = refl
filled-words d (c ∷ cs) = filled_cons d c cs

-- On a text of fewer than 256 chars, with malloc successful, `split` returns the words of the text
-- if it is not empty, does not begin with the separator and has no two separators side by side;
-- on every other such text its last assertion fails.
pub split-words :
    (s rest : Bytes) (d : ℕ)
    → IsText s
    → length s < line_size
    → split true (s ++ 0 ∷ rest) d
      ≡ (if well_spaced d s then pure (some (words d s)) else fault failed_assert)
unfolding split
split-words s rest d t h = rw (
  strcpy_text (fresh line_size) s rest t (omega (arith, length-fresh line_size)),
  c_str-append s _ t,
  strtok_all-words (suc (length s)) d s (omega arith),
  filled-words d s,
)

-- On a text of 256 chars or more `split` writes outside its local array.
pub split_overrun :
    (allocated : Bool) (s rest : Bytes) (d : ℕ)
    → IsText s
    → line_size ≤ length s
    → split allocated (s ++ 0 ∷ rest) d ≡ fault out_of_bounds
unfolding split
split_overrun allocated s rest d t h =
    rw (strcpy_overrun (fresh line_size) s rest t (omega (arith, length-fresh line_size)))

-- The texts with one `d` between each two.
abbrev pub join : ℕ → List Bytes → Bytes
join d [] = []
join d (t ∷ []) = t
join d (t ∷ u ∷ us) = t ++ d ∷ join d (u ∷ us)

abbrev pub IsWord : ℕ → Bytes → Type 0
IsWord d t = (t ≢ []) × All (λ c. (c ≢ 0) × (c ≢ d)) t

words-IsWord :
    (d : ℕ) (t rest : Bytes)
    → IsWord d t
    → ends_word d rest ≡ true
    → words d (t ++ rest) ≡ t ∷ words d rest
unfolding words
words-IsWord d [] rest w h = absurd (w.0 refl)
words-IsWord d (c ∷ []) rest w h = ground arith
words-IsWord d (c ∷ e ∷ t) rest w h = ground (arith, words-IsWord d (e ∷ t) rest)

words-join : (d : ℕ) (ts : List Bytes) → All (IsWord d) ts → words d (join d ts) ≡ ts
unfolding words
words-join d [] w = refl
words-join d (t ∷ []) w = ap (words d) (sym (append-nil t)) ∙ words-IsWord d t [] w.0 refl
words-join d (t ∷ u ∷ us) w =
    words-IsWord d t (d ∷ join d (u ∷ us)) w.0 (ground arith)
    ∙ ground (arith, words-join d (u ∷ us) w.1)

surplus-IsWord :
    (d : ℕ) (start : Bool) (t rest : Bytes)
    → IsWord d t
    → surplus d start (t ++ rest) ≡ surplus d false rest
unfolding surplus
surplus-IsWord d start [] rest w = absurd (w.0 refl)
surplus-IsWord d start (c ∷ []) rest w = ground arith
surplus-IsWord d start (c ∷ e ∷ t) rest w = ground (arith, surplus-IsWord d false (e ∷ t) rest)

surplus-join : (d : ℕ) (ts : List Bytes) → All (IsWord d) ts → surplus d true (join d ts) ≡ 0
unfolding surplus
surplus-join d [] w = refl
surplus-join d (t ∷ []) w =
    ap (surplus d true) (sym (append-nil t)) ∙ surplus-IsWord d true t [] w.0
surplus-join d (t ∷ u ∷ us) w =
    surplus-IsWord d true t (d ∷ join d (u ∷ us)) w.0 ∙ ground (arith, surplus-join d (u ∷ us) w.1)

pub IsWord-IsText : (d : ℕ) (t : Bytes) → All (λ c. (c ≢ 0) × (c ≢ d)) t → IsText t
IsWord-IsText d [] w = tt
IsWord-IsText d (c ∷ cs) w = (w.0.0, IsWord-IsText d cs w.1)

join-IsText : (d : ℕ) (ts : List Bytes) → d ≢ 0 → All (IsWord d) ts → IsText (join d ts)
join-IsText d [] ne w = tt
join-IsText d (t ∷ []) ne w = IsWord-IsText d t w.0.1
join-IsText d (t ∷ u ∷ us) ne w =
    All-append (λ c. c ≢ 0) t (d ∷ join d (u ∷ us)) (IsWord-IsText d t w.0.1)
      (ne, join-IsText d (u ∷ us) ne w.1)

well_spaced-ne-nil :
    (d : ℕ) (s : Bytes) → words d s ≢ [] → surplus d true s ≡ 0 → well_spaced d s ≡ true
unfolding words
well_spaced-ne-nil d [] h e = absurd (h refl)
well_spaced-ne-nil d (c ∷ cs) h e = ground arith

-- Splitting undoes joining: one or more words (none empty, none with the separator in it) that are
-- joined with one separator between each two come back unchanged, if the line has fewer than 256
-- chars, the separator is not NUL, and malloc is successful.
pub split-join :
    (d : ℕ) (t : Bytes) (ts : List Bytes) (rest : Bytes)
    → d ≢ 0
    → All (IsWord d) (t ∷ ts)
    → length (join d (t ∷ ts)) < line_size
    → split true (join d (t ∷ ts) ++ 0 ∷ rest) d ≡ pure (some (t ∷ ts))
split-join d t ts rest ne w h =
    let line = join d (t ∷ ts) in
    let back = words-join d (t ∷ ts) w in
    split-words line rest d (join-IsText d (t ∷ ts) ne w) h
    ∙ rw (well_spaced-ne-nil d line (rw back (λ e. cc)) (surplus-join d (t ∷ ts) w), back)
