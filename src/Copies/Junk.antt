-- ===== src/Copies/Junk.antt =====
-- The first line that the reader of week2/teht5.c sends, from an array that nothing initialises.
use posix_network_programmin.Prelude.{
  ℕ, ◌<◌, ◌≤◌, ◌≢◌, ◌≡◌, refl, ap, ◌∙◌, false, List, [], ◌∷◌, ◌++◌, map, arith, All, All-append,
  length, length-append, drop, length-drop, ltb,
}
use posix_network_programmin.Cstring.{Bytes, fresh}
use posix_network_programmin.Cstring.Laws.{IsText, c_str-append}
use posix_network_programmin.Cstring.Blocks.{clear-whole}
use posix_network_programmin.Cstring.Remains.{drop-IsText, overwrite-shorter}
use posix_network_programmin.Posix.{◌>>=◌, returned, ReadResult, got, written}
use posix_network_programmin.Posix.Emits.{Emits, Emits-continue}
use posix_network_programmin.Posix.ReadLoop.{IsEnd}
use posix_network_programmin.Copies.{send_turn, send_loop}
use posix_network_programmin.Copies.Twice.{IsPiece}
use posix_network_programmin.Copies.Pipe.{send_loop-pieces}

-- What stood in the array up to its first NUL, and behind it.
pub record IsArray (n : ℕ) (old tail : Bytes) : Type 0 where
  pub text : IsText old
  pub size : length (old ++ 0 ∷ tail) ≡ n

send_loop-got :
    (n fd : ℕ) (buffer s : Bytes) (later : List ReadResult)
    → 0 < length s
    → send_loop n fd buffer (got s ∷ later)
      ≡ (send_turn n fd buffer s >>= λ next. send_loop n fd next later)
unfolding send_loop
send_loop-got n fd buffer [] later h = absurd (omega arith)
send_loop-got n fd buffer (c ∷ cs) later h = refl

module _ (n fd : ℕ) (old tail first : Bytes) (array : IsArray n old tail) (piece : IsPiece n first)
    (shorter : length first ≤ length old) where
  -- The first piece, and what the array had behind it.
  abbrev pub with_junk : Bytes
  with_junk = first ++ drop (length first) old

  first_turn-Emits : Emits fd (with_junk ∷ []) (fresh n) (send_turn n fd (old ++ 0 ∷ tail) first)
  unfolding send_turn written
  first_turn-Emits =
      let rest = drop (length first) old in
      let sizes = length-append first rest in
      let left = length-drop (length first) old in
      let whole = length-append with_junk (0 ∷ tail) in
      let before = length-append old (0 ∷ tail) in
      let size : length (with_junk ++ 0 ∷ tail) ≡ n =
        omega (arith, array.size, sizes, left, whole, before, shorter) in
      let fits : ltb n (length with_junk) ≡ false = ground arith in
      rw
        (
          overwrite-shorter old first tail shorter,
          c_str-append with_junk tail (
              All-append (λ c. c ≢ 0) first rest piece.0
                (drop-IsText (length first) old array.text)),
          fits,
          clear-whole n (with_junk ++ 0 ∷ tail) size,
        )
        (ground arith)

  -- From an array of any chars with a NUL, a first piece that is no longer than the text in front of
  -- that NUL is sent with the rest of that text behind it; the other pieces are sent as they are. All
  -- pieces are NUL-free, not empty and shorter than the array; the function returns at the end.
  pub send_loop-junk :
      (others : List Bytes) (end : ReadResult) (later : List ReadResult)
      → All (IsPiece n) others
      → IsEnd end
      → (written fd (send_loop n fd (old ++ 0 ∷ tail) (map got (first ∷ others) ++ end ∷ later)).0
          ≡ with_junk ∷ others)
        × ((send_loop n fd (old ++ 0 ∷ tail) (map got (first ∷ others) ++ end ∷ later)).1
            ≡ returned tt)
  send_loop-junk others end later h e =
      let array_first = old ++ 0 ∷ tail in
      let rest = map got others ++ end ∷ later in
      let begins = send_loop-got n fd array_first first rest piece.1 in
      let both =
        Emits-continue fd (send_turn n fd array_first first) (λ next. send_loop n fd next rest)
          first_turn-Emits (send_loop-pieces n fd others end later h e) in
      (ap (λ r. written fd r.0) begins ∙ both.0, ap (λ r. r.1) begins ∙ both.1)
