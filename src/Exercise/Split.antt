-- ===== src/Exercise/Split.antt =====
-- exercise/exercise.c, `split`: the words of a line, in an array that ends with a null pointer.
-- The separator is one char, as in both calls. `strdup` is taken to succeed; `allocated` says
-- whether `malloc` does.
pub mod Words
pub mod Count
pub mod Laws
use posix_network_programmin.Prelude.{
  ℕ, zero, suc, ◌+◌, ◌-◌, Bool, true, false, cond, List, [], ◌∷◌, Option, none, some, ltb, ◌==◌,
  if◌then◌else◌, length,
}
use posix_network_programmin.Cstring.{Bytes, fresh, c_str, strcpy}
use posix_network_programmin.Posix.{
  Proc, returned, pure, fault, checked, ◌>>=◌, out_of_bounds, null_pointer, failed_assert,
}

abbrev pub line_size : ℕ
line_size = 256

-- The first loop: how many delimiters there are, and where the last one stands.
pub record Scan : Type 0 where
  pub count : ℕ
  pub last_delimiter : Option ℕ

unfoldable pub scan : ℕ → ℕ → Scan → Bytes → Scan
scan delimeter at s [] = s
scan delimeter at s (c ∷ cs) =
    scan delimeter (at + 1)
      (if delimeter == c then record { count = s.count + 1; last_delimiter = some at } else s) cs

-- last_delimiter < (line + strlen(line) - 1); the null pointer is below every other
abbrev pub before_end : Option ℕ → ℕ → Bool
before_end none len = true
before_end (some i) len = ltb (i + 1) len

unfoldable pub entries : ℕ → Bytes → ℕ
unfolding scan
entries delimeter s =
    let found = scan delimeter 0 (record { count = 0; last_delimiter = none }) s in
    found.count + (if before_end found.last_delimiter (length s) then 1 else 0) + 1

-- strtok: past the delimiters, the chars up to the next one, and what stands behind that.
unfoldable pub skip : ℕ → Bytes → Bytes
skip d [] = []
skip d (c ∷ cs) = if c == d then skip d cs else c ∷ cs

unfoldable pub token : ℕ → Bytes → Bytes
token d [] = []
token d (c ∷ cs) = if c == d then [] else c ∷ token d cs

unfoldable pub after : ℕ → Bytes → Bytes
after d [] = []
after d (c ∷ cs) = if c == d then cs else after d cs

abbrev pub strtok_at : ℕ → Bytes → Option (Bytes × Bytes)
strtok_at d [] = none
strtok_at d (c ∷ cs) = some (token d (c ∷ cs), after d (c ∷ cs))

unfoldable pub strtok : ℕ → Bytes → Option (Bytes × Bytes)
unfolding skip
strtok d s = strtok_at d (skip d s)

-- The tokens of all calls up to the one that returns a null pointer.
unfoldable pub strtok_all : ℕ → ℕ → Bytes → List Bytes
unfolding strtok token after
strtok_all zero d s = []
strtok_all (suc f) d s = elim (strtok d s) [ none ↦ [] | some (t, rest) ↦ t ∷ strtok_all f d rest ]

-- The second loop and what follows it; `idx` counts the tokens stored so far.
unfoldable pub store : ℕ → ℕ → List Bytes → Bool
store count idx [] = idx == count - 1
store count idx (t ∷ ts) =
    let more = store count (idx + 1) ts in if ltb idx count then more else false

-- What the tokens leave in the new array, if both assertions hold.
abbrev filled : ℕ → List Bytes → Proc (Option (List Bytes))
filled count tokens = if store count 0 tokens then pure (some tokens) else fault failed_assert

unfoldable pub split : Bool → Bytes → ℕ → Proc (Option (List Bytes))
unfolding strcpy c_str entries strtok_all store
split allocated source separator = do
  line ← checked (strcpy (fresh line_size) source)
  s ← checked (c_str line)
  cond allocated (filled (entries separator s) (strtok_all (suc (length s)) separator s))
      (pure none)

-- result[i], where the array ends with a null pointer, handed to a function that reads a string
unfoldable pub entry : Option (List Bytes) → ℕ → Proc Bytes
entry none i = fault null_pointer
entry (some []) zero = fault null_pointer
entry (some []) (suc i) = fault out_of_bounds
entry (some (t ∷ ts)) zero = pure t
entry (some (t ∷ ts)) (suc i) = entry (some ts) i
