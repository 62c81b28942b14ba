-- ===== src/Exercise/Split/Count.antt =====
-- The size that `split` computes for its array, against the number of words.
use posix_network_programmin.Prelude.{
  ℕ, ◌+◌, ◌-◌, ◌≤◌, ◌≡◌, refl, Bool, true, ◌&&◌, [], ◌∷◌, none, some, arith, ◌==◌, if◌then◌else◌,
  length, List,
}
use posix_network_programmin.Cstring.{Bytes}
use posix_network_programmin.Exercise.Split.{Scan, scan, before_end, entries, store}
use posix_network_programmin.Exercise.Split.Words.{words}

-- The delimiters at the start, and those right behind another one; `start` is true at the start.
unfoldable pub surplus : ℕ → Bool → Bytes → ℕ
surplus d start [] = 0
surplus d start (c ∷ cs) = (if (c == d) && start then 1 else 0) + surplus d (c == d) cs

-- One for each delimiter, and one for a last word with no delimiter behind it.
terminators : ℕ → Bytes → ℕ
terminators d [] = 0
terminators d (c ∷ []) = 1
terminators d (c ∷ e ∷ cs) = (if c == d then 1 else 0) + terminators d (e ∷ cs)

scan-terminators :
    (d at c : ℕ) (cs : Bytes) (s : Scan)
    → before_end s.last_delimiter (at + 1) ≡ true
    → (scan d at s (c ∷ cs)).count
        + (if before_end (scan d at s (c ∷ cs)).last_delimiter (at + length (c ∷ cs)) then 1 else 0)
      ≡ s.count + terminators d (c ∷ cs)
unfolding scan terminators
scan-terminators d at c [] s h = ground arith
scan-terminators d at c (e ∷ cs) s h = ground (
  arith,
  scan-terminators d (at + 1) e cs (record { count = s.count + 1; last_delimiter = some at }),
  scan-terminators d (at + 1) e cs s,
)

words-terminators :
    (d c : ℕ) (cs : Bytes)
    → length (words d (c ∷ cs)) + surplus d true (c ∷ cs) ≡ terminators d (c ∷ cs)
unfolding words terminators surplus
words-terminators d c [] = ground arith
words-terminators d c (e ∷ cs) = ground (arith, words-terminators d e cs)

-- With every index below the size, the last assertion alone decides.
pub store-eq :
    (count idx : ℕ) (ts : List Bytes)
    → idx + length ts ≤ count - 1
    → store count idx ts ≡ (idx + length ts == count - 1)
unfolding store
store-eq count idx [] h = ground arith
store-eq count idx (t ∷ ts) h = ground (arith, store-eq count (idx + 1) ts)

pub entries-words :
    (d c : ℕ) (cs : Bytes)
    → entries d (c ∷ cs) ≡ length (words d (c ∷ cs)) + surplus d true (c ∷ cs) + 1
unfolding entries
entries-words d c cs =
    let start : Scan = record { count = 0; last_delimiter = none } in
    let from_zero : 0 + length (c ∷ cs) ≡ length (c ∷ cs) = omega arith in
    omega (arith, words-terminators d c cs, rw from_zero at (scan-terminators d 0 c cs start refl))
