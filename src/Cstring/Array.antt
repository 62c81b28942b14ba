-- ===== src/Cstring/Array.antt =====
-- Arrays of chars, and the functions of <string.h> and <strings.h> on them.
use mathlib.Core.Option
use posix_network_programmin.Prelude.{
  ℕ, zero, suc, ◌+◌, Bool, true, false, ◌&&◌, ◌||◌, List, [], ◌∷◌, ◌++◌, Option, none, some, ◌==◌,
  leb, if◌then◌else◌, length, take, drop, replicate,
}

abbrev pub Bytes : Type 0
Bytes = List ℕ

-- A local array of `n` chars. C leaves its first contents open: where they can be read before they
-- are written, they are an argument instead.
unfoldable pub fresh : ℕ → Bytes
fresh n = replicate n 0

-- The chars before the first NUL; the read leaves the array where it holds none.
unfoldable pub c_str : Bytes → Option Bytes
c_str [] = none
c_str (c ∷ cs) = if c == 0 then some [] else Option.map (◌∷◌ c) (c_str cs)

-- The array `buf` after its first items were overwritten.
unfoldable pub overwrite : Bytes → Bytes → Bytes
overwrite [] buf = buf
overwrite (c ∷ cs) [] = []
overwrite (c ∷ cs) (b ∷ bs) = c ∷ overwrite cs bs

-- memcpy(&buf[i], src, length src)
unfoldable pub memcpy_at : ℕ → Bytes → Bytes → Option Bytes
unfolding overwrite
memcpy_at i src buf =
    if leb (i + length src) (length buf)
    then some (take i buf ++ overwrite src (drop i buf))
    else none

-- memset(buf, 0, n), for an `n` within the array
unfoldable pub clear : ℕ → Bytes → Bytes
unfolding overwrite
clear n buf = overwrite (replicate n 0) buf

-- strcpy(dst, src)
unfoldable pub strcpy : Bytes → Bytes → Option Bytes
unfolding c_str memcpy_at Option.bind
strcpy dst src = Option.bind (c_str src) (λ s. memcpy_at 0 (s ++ 0 ∷ []) dst)

-- strcat(dst, src)
unfoldable pub strcat : Bytes → Bytes → Option Bytes
unfolding c_str memcpy_at Option.bind
strcat dst src =
    Option.bind (c_str dst)
      (λ d. Option.bind (c_str src) (λ s. memcpy_at (length d) (s ++ 0 ∷ []) dst))

-- The `n` chars that strncpy takes from `src`: the string, then NULs.
unfoldable pub padded : ℕ → Bytes → Option Bytes
padded zero src = some []
padded (suc n) [] = none
padded (suc n) (c ∷ cs) =
    if c == 0 then some (replicate (suc n) 0) else Option.map (◌∷◌ c) (padded n cs)

-- strncpy(dst, src, n)
unfoldable pub strncpy : Bytes → Bytes → ℕ → Option Bytes
unfolding padded memcpy_at Option.bind
strncpy dst src n = Option.bind (padded n src) (λ s. memcpy_at 0 s dst)

unfoldable pub is_prefix : Bytes → Bytes → Bool
is_prefix [] s = true
is_prefix (c ∷ cs) [] = false
is_prefix (c ∷ cs) (d ∷ ds) = c == d && is_prefix cs ds

-- strstr(s, needle) != NULL
unfoldable pub occurs : Bytes → Bytes → Bool
unfolding is_prefix
occurs needle [] = is_prefix needle []
occurs needle (c ∷ cs) = is_prefix needle (c ∷ cs) || occurs needle cs
