-- ===== src/Copies/Scan.antt =====
-- The loop over scanf of week1/teht2a.c.
use posix_network_programmin.Prelude.{
  ℕ, ◌<◌, ◌≤◌, ◌≡◌, refl, sym, ap, ◌∙◌, List, [], ◌∷◌, ◌++◌, Option, none, some, arith, All, length,
  length-append, length-take, take, drop, take-append-drop, append_assoc, codes,
}
use posix_network_programmin.Cstring.{Bytes, c_str, memcpy_at}
use posix_network_programmin.Cstring.Laws.{
  IsText, c_str-append, memcpy_at-append, length-memcpy_at, memcpy_at-overrun,
}
use posix_network_programmin.Posix.{
  Effect, print, returned, faulted, blocked, out_of_bounds, stdout_fileno,
}
use posix_network_programmin.Copies.{scan_in, scan_turn, scan_loop}

-- A word that an array of `n` chars holds.
abbrev pub Fits : ℕ → Option Bytes → Type 0
Fits n none = Unit
Fits n (some word) = IsText word × (length word < n)

-- A word printed, and printed with a newline.
abbrev pub doubled : Bytes → List Effect
doubled w = print stdout_fileno w ∷ print stdout_fileno (w ++ codes "\n") ∷ []

-- The word that a turn leaves in the array.
abbrev pub latest : Bytes → Option Bytes → Bytes
latest w none = w
latest w (some v) = v

abbrev pub all_doubled : Bytes → List (Option Bytes) → List Effect
all_doubled w [] = []
all_doubled w (x ∷ xs) = doubled (latest w x) ++ all_doubled (latest w x) xs

-- The array holds the word.
pub record IsHeld (n : ℕ) (w buf : Bytes) : Type 0 where
  pub text : IsText w
  pub rest : Bytes
  pub shape : buf ≡ w ++ 0 ∷ rest
  pub size : length buf ≡ n

store_word :
    (n : ℕ) (v buf : Bytes)
    → IsText v
    → length v < n
    → length buf ≡ n
    → (filled : Bytes) × (memcpy_at 0 (v ++ 0 ∷ []) buf ≡ some filled) × IsHeld n v filled
store_word n v buf t short size =
    let src = v ++ 0 ∷ [] in
    let long = length-append v (0 ∷ []) in
    let rest = drop (length src) buf in
    let stored : memcpy_at 0 src buf ≡ some (src ++ rest) =
      ap (memcpy_at 0 src) (sym (take-append-drop (length src) buf))
      ∙ memcpy_at-append [] src (take (length src) buf) rest
          (omega (arith, long, length-take (length src) buf)) in
    (
      src ++ rest,
      stored,
      record {
        text = t;
        rest = rest;
        shape = append_assoc v (0 ∷ []) rest;
        size = length-memcpy_at 0 src buf stored ∙ size;
      },
    )

scan_in-IsHeld :
    (n : ℕ) (w buf : Bytes) (x : Option Bytes)
    → Fits n x
    → IsHeld n w buf
    → (filled : Bytes) × (scan_in x buf ≡ some filled) × IsHeld n (latest w x) filled
unfolding scan_in
scan_in-IsHeld n w buf none f h = (buf, refl, h)
scan_in-IsHeld n w buf (some v) f h = store_word n v buf f.0 f.1 h.size

scan_turn_lem :
    (n : ℕ) (w buf : Bytes) (x : Option Bytes)
    → Fits n x
    → IsHeld n w buf
    → (filled : Bytes) × (scan_turn buf x ≡ (doubled (latest w x), returned filled))
      × IsHeld n (latest w x) filled
unfolding scan_turn
scan_turn_lem n w buf x f h =
    let (filled, stored, held) = scan_in-IsHeld n w buf x f h in
    let string : c_str filled ≡ some (latest w x) =
      ap c_str held.shape ∙ c_str-append (latest w x) held.rest held.text in
    (filled, rw (stored, string) refl, held)

-- From an array of `n` chars that holds a word: if every word is shorter than `n`, each turn prints the
-- latest word twice, the second time with a newline, and so does each turn at the end of the input,
-- which does not end the loop.
pub scan_loop-latest :
    (n : ℕ) (w buf : Bytes) (xs : List (Option Bytes))
    → All (Fits n) xs
    → IsHeld n w buf
    → scan_loop buf xs ≡ (all_doubled w xs, blocked)
unfolding scan_loop
scan_loop-latest n w buf [] f h = refl
scan_loop-latest n w buf (x ∷ xs) f h =
    let (filled, turn, held) = scan_turn_lem n w buf x f.0 h in
    rw (turn, scan_loop-latest n (latest w x) filled xs f.1 held) refl

-- From an array of `n` chars that holds a word: behind words that are shorter, each of which is printed
-- as it should, a word of `n` chars or more makes the program write outside the array.
pub scan_loop-overrun :
    (n : ℕ) (w buf v : Bytes) (xs ys : List (Option Bytes))
    → All (Fits n) xs
    → IsHeld n w buf
    → n ≤ length v
    → scan_loop buf (xs ++ some v ∷ ys) ≡ (all_doubled w xs, faulted out_of_bounds)
unfolding scan_loop scan_turn scan_in
scan_loop-overrun n w buf v [] ys f h long =
    let tail = length-append v (0 ∷ []) in
    rw (memcpy_at-overrun 0 (v ++ 0 ∷ []) buf (omega (arith, h.size, long, tail))) refl
scan_loop-overrun n w buf v (x ∷ xs) ys f h long =
    let (filled, turn, held) = scan_turn_lem n w buf x f.0 h in
    rw (turn, scan_loop-overrun n (latest w x) filled v xs ys f.1 held long) refl
