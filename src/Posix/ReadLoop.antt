-- ===== src/Posix/ReadLoop.antt =====
-- A loop over what read(2) gives, as an interface: a turn on the bytes of each read, and an end at the
-- end of the input or an error. The programs that have such a loop fill it in.
use posix_network_programmin.Prelude.{
  ℕ, ◌<◌, ◌≡◌, sym, ap, ◌∙◌, List, [], ◌∷◌, ◌++◌, map, arith, All, length, append_assoc,
}
use posix_network_programmin.Cstring.{Bytes}
use posix_network_programmin.Posix.{Proc, ◌>>=◌, ReadResult, got, failed, written}
use posix_network_programmin.Posix.Emits.{Emits, Emits-continue}

-- A read that is not positive.
abbrev pub IsEnd : ReadResult → Type 0
IsEnd (failed errno) = Unit {0}
IsEnd (got bytes) = bytes ≡ []

pub record ReadLoop (A : Type 0) : Type 0 where
  pub turn : Bytes → Bytes → Proc Bytes
  pub loop : Bytes → List ReadResult → Proc A
  pub final : Bytes → Proc A
  pub step :
      (buffer : Bytes) (c : ℕ) (cs : Bytes) (later : List ReadResult)
      → loop buffer (got (c ∷ cs) ∷ later) ≡ (turn buffer (c ∷ cs) >>= λ next. loop next later)
  pub on_error :
      (buffer : Bytes) (errno : ℕ) (later : List ReadResult)
      → loop buffer (failed errno ∷ later) ≡ final buffer
  pub on_end :
      (buffer : Bytes) (later : List ReadResult) → loop buffer (got [] ∷ later) ≡ final buffer

stop :
    {A : Type 0} (L : ReadLoop A) (buffer : Bytes) (end : ReadResult) (later : List ReadResult)
    → IsEnd end
    → L.loop buffer (end ∷ later) ≡ L.final buffer
stop L buffer (failed errno) later e = L.on_error buffer errno later
stop L buffer (got []) later e = L.on_end buffer later
stop L buffer (got (c ∷ cs)) later e = absurd (omega (arith, ap length e))

-- The texts for each piece, one after the other.
abbrev pub all_texts : (Bytes → List Bytes) → List Bytes → List Bytes
all_texts texts [] = []
all_texts texts (s ∷ ss) = texts s ++ all_texts texts ss

-- Each piece twice.
abbrev pub twice : List Bytes → List Bytes
twice ss = all_texts (λ s. s ∷ s ∷ []) ss

-- A turn on a piece with P writes its texts to `fd`, and leaves the array as it found it.
module _ {A : Type 0} (L : ReadLoop A) (fd : ℕ) (buffer : Bytes) (P : Bytes → Type 0)
    (texts : Bytes → List Bytes)
    (turns : (s : Bytes) → P s → (0 < length s) × Emits fd (texts s) buffer (L.turn buffer s)) where
  pub loop-texts :
      (pieces : List Bytes) (end : ReadResult) (later : List ReadResult)
      → All P pieces
      → IsEnd end
      → (written fd (L.loop buffer (map got pieces ++ end ∷ later)).0
          ≡ all_texts texts pieces ++ written fd (L.final buffer).0)
        × ((L.loop buffer (map got pieces ++ end ∷ later)).1 ≡ (L.final buffer).1)
  loop-texts [] end later h e =
      let ends = stop L buffer end later e in (ap (λ r. written fd r.0) ends, ap (λ r. r.1) ends)
  loop-texts ([] ∷ pieces) end later h e = absurd (omega (arith, (turns [] h.0).0))
  loop-texts ((c ∷ cs) ∷ pieces) end later h e =
      let rest = map got pieces ++ end ∷ later in
      let begins = L.step buffer c cs rest in
      let both =
        Emits-continue fd (L.turn buffer (c ∷ cs)) (λ next. L.loop next rest) (turns (c ∷ cs) h.0).1
          (loop-texts pieces end later h.1 e) in
      (
        ap (λ r. written fd r.0) begins
            ∙ both.0
            ∙ sym (append_assoc (texts (c ∷ cs)) (all_texts texts pieces) _),
        ap (λ r. r.1) begins ∙ both.1,
      )
