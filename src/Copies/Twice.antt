-- ===== src/Copies/Twice.antt =====
-- The doubled lines of week1/teht2b.c.
use posix_network_programmin.Prelude.{
  ℕ, ◌<◌, ◌≡◌, refl, append-nil, List, [], ◌∷◌, ◌++◌, map, arith, All, length,
}
use posix_network_programmin.Cstring.{Bytes, fresh}
use posix_network_programmin.Cstring.Laws.{IsText}
use posix_network_programmin.Cstring.Blocks.{
  block, length-block, overwrite-block, clear-whole, c_str-block,
}
use posix_network_programmin.Posix.{
  pure, returned, ReadResult, got, written, stdout_fileno, exit_success,
}
use posix_network_programmin.Posix.Emits.{Emits}
use posix_network_programmin.Copies.{twice_turn, twice_loop}
use posix_network_programmin.Posix.ReadLoop.{IsEnd, ReadLoop, twice, loop-texts}

-- What one read gives: some chars, and room for a NUL behind them.
abbrev pub IsPiece : ℕ → Bytes → Type 0
IsPiece n s = IsText s × (0 < length s) × (length s < n)

twice_turn-Emits :
    (s : Bytes)
    → IsPiece 500 s
    → Emits stdout_fileno (s ∷ s ∷ []) (fresh 500) (twice_turn (fresh 500) s)
unfolding twice_turn written
twice_turn-Emits s (text, some_char, short) =
    rw
      (
        overwrite-block 500 s (omega arith),
        c_str-block 500 s text short,
        clear-whole 500 (block 500 s) (length-block 500 s (omega arith)),
      )
      (refl, refl)

twice_reads : ReadLoop ℕ
unfolding twice_loop
twice_reads = record {
  turn = twice_turn;
  loop = twice_loop;
  final = λ buffer. pure exit_success;
  step = λ buffer c cs later. refl;
  on_error = λ buffer errno later. refl;
  on_end = λ buffer later. refl;
}

-- On reads of NUL-free chars, not empty and fewer than the 500 of the array, up to the end of the
-- input or an error: each is written twice, and the program returns success.
pub twice_loop-twice :
    (pieces : List Bytes) (end : ReadResult) (later : List ReadResult)
    → All (IsPiece 500) pieces
    → IsEnd end
    → (written stdout_fileno (twice_loop (fresh 500) (map got pieces ++ end ∷ later)).0
        ≡ twice pieces)
      × ((twice_loop (fresh 500) (map got pieces ++ end ∷ later)).1 ≡ returned exit_success)
unfolding written twice_reads
twice_loop-twice pieces end later h e =
    let run =
      loop-texts twice_reads stdout_fileno (fresh 500) (IsPiece 500) (λ s. s ∷ s ∷ [])
        (λ s p. (p.1, twice_turn-Emits s p)) pieces end later h e in
    (rw append-nil at run.0, run.1)
