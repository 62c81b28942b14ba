-- ===== src/Cstring/Laws.antt =====
-- The size of arrays, and the strings in them.
use posix_network_programmin.Prelude.{
  ℕ, zero, suc, ◌+◌, ◌≤◌, ◌≡◌, ◌≢◌, refl, ap, [], ◌∷◌, ◌++◌, some, arith, All, length, drop,
  replicate, take, length-append, length-replicate, Bool-cases, Option-cases, inl, inr, ◌==◌,
  length-take, length-drop, take-append, drop-append, ◌<◌, none, append_assoc,
}
use posix_network_programmin.Cstring.Array.{
  Bytes, c_str, overwrite, fresh, memcpy_at, strcpy, padded, strncpy,
}

-- Text proper: no NUL.
abbrev pub IsText : Bytes → Type 0
IsText = All (λ c. c ≢ 0)

pub length-overwrite : (src buf : Bytes) → length (overwrite src buf) ≡ length buf
unfolding overwrite
length-overwrite [] buf = refl
length-overwrite (c ∷ cs) [] = refl
length-overwrite (c ∷ cs) (b ∷ bs) = ap suc (length-overwrite cs bs)

pub overwrite-eq :
    (src buf : Bytes) → length src ≤ length buf → overwrite src buf ≡ src ++ drop (length src) buf
unfolding overwrite
overwrite-eq [] buf h = refl
overwrite-eq (c ∷ cs) [] h = elim h [ ]
overwrite-eq (c ∷ cs) (b ∷ bs) h = ap (◌∷◌ c) (overwrite-eq cs bs (omega arith))

pub overwrite-append :
    (src mid rest : Bytes) → length src ≡ length mid → overwrite src (mid ++ rest) ≡ src ++ rest
unfolding overwrite
overwrite-append [] [] rest h = refl
overwrite-append [] (b ∷ bs) rest h = absurd (omega arith)
overwrite-append (c ∷ cs) [] rest h = absurd (omega arith)
overwrite-append (c ∷ cs) (b ∷ bs) rest h = ap (◌∷◌ c) (overwrite-append cs bs rest (omega arith))

pub c_str-append : (s rest : Bytes) → IsText s → c_str (s ++ 0 ∷ rest) ≡ some s
unfolding c_str
c_str-append [] rest h = refl
c_str-append (c ∷ cs) rest h = ground (arith, c_str-append cs rest h.1)

-- strncpy of a text that is followed by a NUL
pub padded-append :
    (s rest : Bytes) (k : ℕ)
    → IsText s
    → padded (length s + k) (s ++ 0 ∷ rest) ≡ some (s ++ replicate k 0)
unfolding padded
padded-append [] rest zero h = refl
padded-append [] rest (suc k) h = let e : 0 + suc k ≡ suc k = omega arith in rw e
padded-append (c ∷ cs) rest k h =
    let e : suc (length cs) + k ≡ suc (length cs + k) = omega arith in
    rw e (ground (arith, padded-append cs rest k h.1))

pub length-memcpy_at :
    (i : ℕ) (src buf : Bytes) {buf' : Bytes}
    → memcpy_at i src buf ≡ some buf'
    → length buf' ≡ length buf
unfolding memcpy_at
length-memcpy_at i src buf h = ground (
  arith,
  length-append (take i buf) (overwrite src (drop i buf)),
  length-overwrite src (drop i buf),
  length-take i buf,
  length-drop i buf,
)

pub memcpy_at-append :
    (front src mid rest : Bytes)
    → length src ≡ length mid
    → memcpy_at (length front) src (front ++ (mid ++ rest)) ≡ some (front ++ (src ++ rest))
unfolding memcpy_at
memcpy_at-append front src mid rest h =
    rw (take-append, drop-append, overwrite-append src mid rest h)
      (ground (arith, length-append front (mid ++ rest), length-append mid rest))

pub memcpy_at-overrun :
    (i : ℕ) (src buf : Bytes) → length buf < i + length src → memcpy_at i src buf ≡ none
unfolding memcpy_at
memcpy_at-overrun i src buf h = ground arith

-- strcpy of a text that fits
pub strcpy_text :
    (dst s rest : Bytes)
    → IsText s
    → length s < length dst
    → strcpy dst (s ++ 0 ∷ rest) ≡ some (s ++ 0 ∷ drop (suc (length s)) dst)
unfolding strcpy memcpy_at
strcpy_text dst s rest t h =
    let n = length-append s (0 ∷ []) in
    rw (c_str-append s rest t) (
      ground (
        arith,
        n,
        overwrite-eq (s ++ 0 ∷ []) dst,
        ap (λ k. drop k dst) n,
        append_assoc s (0 ∷ []) (drop (suc (length s)) dst),
      ))

-- strcpy of a text that does not
pub strcpy_overrun :
    (dst s rest : Bytes) → IsText s → length dst ≤ length s → strcpy dst (s ++ 0 ∷ rest) ≡ none
unfolding strcpy memcpy_at
strcpy_overrun dst s rest t h =
    rw (c_str-append s rest t) (ground (arith, length-append s (0 ∷ [])))

pub length-fresh : (n : ℕ) → length (fresh n) ≡ n
unfolding fresh
length-fresh n = length-replicate n 0

pub length-padded : (n : ℕ) (src : Bytes) {p : Bytes} → padded n src ≡ some p → length p ≡ n
unfolding padded
length-padded zero src h = ground arith
length-padded (suc n) [] h = cc
length-padded (suc n) (c ∷ cs) {p} h = elim (Bool-cases (c == 0)) [
  | inl e ↦ ground (arith, length-replicate {A = ℕ} n 0)
  | inr e ↦ elim (Option-cases (padded n cs)) [
    | inl none_left ↦ ground arith
    | inr (q, eq) ↦ ground (arith, length-padded n cs eq)
  ]
]

-- strncpy of a text with no room left for its NUL
pub padded_text : (s rest : Bytes) → IsText s → padded (length s) (s ++ rest) ≡ some s
unfolding padded
padded_text [] rest t = refl
padded_text (c ∷ cs) rest t = ground (arith, padded_text cs rest t.1)

pub strncpy_fits :
    (dst src : Bytes) (n : ℕ) {p : Bytes}
    → padded n src ≡ some p
    → n ≤ length dst
    → strncpy dst src n ≡ some (p ++ drop n dst)
unfolding strncpy memcpy_at
strncpy_fits dst src n {p} e h =
    let l = length-padded n src e in
    rw e (ground (arith, l, overwrite-eq p dst, ap (λ k. drop k dst) l))
