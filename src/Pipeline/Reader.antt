-- ===== src/Pipeline/Reader.antt =====
-- What the reader of week3/teht1_1.c writes to its pipe.
use posix_network_programmin.Prelude.{
  ℕ, ◌<◌, ◌≡◌, refl, List, [], ◌∷◌, map, arith, All, length, leb, true,
}
use posix_network_programmin.Cstring.{Bytes, fresh}
use posix_network_programmin.Cstring.Laws.{IsText}
use posix_network_programmin.Cstring.Blocks.{
  block, length-block, overwrite-block, clear-whole, c_str-block,
}
use posix_network_programmin.Posix.{blocked, got, written}
use posix_network_programmin.Posix.Emits.{Emits, Emits-continue}
use posix_network_programmin.Pipeline.{reader_turn, reader_loop}

-- A line that leaves room for a NUL.
abbrev pub IsLine : ℕ → Bytes → Type 0
IsLine n s = IsText s × (length s < n)

reader_turn-Emits :
    (n fd : ℕ) (line : Bytes)
    → IsLine n line
    → Emits fd (block n line ∷ []) (fresh n) (reader_turn n fd (fresh n) line)
unfolding reader_turn written
reader_turn-Emits n fd line (text, short) =
    let fits : leb (length line) n ≡ true = ground arith in
    rw
      (
        overwrite-block n line (omega arith),
        c_str-block n line text short,
        fits,
        clear-whole n (block n line) (length-block n line (omega arith)),
      )
      (ground arith)

-- From an array of NULs, on lines of NUL-free chars shorter than the array: each line is written in
-- one call, with NULs up to the size of the array, and the reader waits for the next one.
pub reader_loop-block :
    (n fd : ℕ) (lines : List Bytes)
    → All (IsLine n) lines
    → (written fd (reader_loop n fd (fresh n) (map got lines)).0 ≡ map (block n) lines)
      × ((reader_loop n fd (fresh n) (map got lines)).1 ≡ blocked)
unfolding reader_loop written
reader_loop-block n fd [] h = (refl, refl)
reader_loop-block n fd (line ∷ lines) h =
    Emits-continue fd (reader_turn n fd (fresh n) line)
      (λ next. reader_loop n fd next (map got lines)) (reader_turn-Emits n fd line h.0)
      (reader_loop-block n fd lines h.1)
