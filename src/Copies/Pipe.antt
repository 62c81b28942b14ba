-- ===== src/Copies/Pipe.antt =====
-- Reader and doubler of week2/teht5.c, and the pipe between them.
use posix_network_programmin.Prelude.{
  ℕ, ◌<◌, ◌≢◌, ◌≡◌, refl, ap, append-nil, List, [], ◌∷◌, ◌++◌, map, arith, All, length, false, ltb,
  ◌∙◌,
}
use posix_network_programmin.Cstring.{Bytes, fresh}
use posix_network_programmin.Cstring.Blocks.{
  block, length-block, overwrite-block, clear-whole, c_str-block,
}
use posix_network_programmin.Posix.{returned, write, close, ReadResult, got, written, stdout_fileno}
use posix_network_programmin.Posix.Emits.{Emits, bind-runs}
use posix_network_programmin.Posix.Fifo.{
  Delivers, Delivers-concat, Delivers-All, Delivers-some, concat,
}
use posix_network_programmin.Cstring.Laws.{IsText}
use posix_network_programmin.Copies.{send_turn, send_end, send_loop, double_turn, double_loop}
use posix_network_programmin.Posix.ReadLoop.{IsEnd, ReadLoop, twice, all_texts, loop-texts}
use posix_network_programmin.Copies.Twice.{IsPiece}

module _ (n fd : ℕ) where
  send_turn-Emits :
      (s : Bytes) → IsPiece n s → Emits fd (s ∷ []) (fresh n) (send_turn n fd (fresh n) s)
  unfolding send_turn written
  send_turn-Emits s (text, some_char, short) =
      let fits : ltb n (length s) ≡ false = ground arith in
      rw
        (
          overwrite-block n s (omega arith),
          c_str-block n s text short,
          fits,
          clear-whole n (block n s) (length-block n s (omega arith)),
        )
        (ground arith)

  send_reads : ReadLoop (Unit {0})
  unfolding send_loop send_end
  send_reads = record {
    turn = send_turn n fd;
    loop = send_loop n fd;
    final = λ buffer. send_end fd;
    step = λ buffer c cs later. refl;
    on_error = λ buffer errno later. refl;
    on_end = λ buffer later. refl;
  }

  pub send_loop-pieces :
      (pieces : List Bytes) (end : ReadResult) (later : List ReadResult)
      → All (IsPiece n) pieces
      → IsEnd end
      → (written fd (send_loop n fd (fresh n) (map got pieces ++ end ∷ later)).0 ≡ pieces)
        × ((send_loop n fd (fresh n) (map got pieces ++ end ∷ later)).1 ≡ returned tt)
  unfolding written send_reads send_end
  send_loop-pieces pieces end later h e =
      let run =
        loop-texts send_reads fd (fresh n) (IsPiece n) (λ s. s ∷ [])
          (λ s p. (p.1, send_turn-Emits s p)) pieces end later h e in
      (rw append-nil at run.0 ∙ once pieces, run.1)
    where
      once : (ps : List Bytes) → all_texts (λ s. s ∷ []) ps ≡ ps
      once [] = refl
      once (p ∷ ps) = ap (λ t. p ∷ t) (once ps)

  double_turn_lem :
      (s : Bytes)
      → IsPiece n s
      → double_turn n fd (fresh n) s
        ≡ (write stdout_fileno s ∷ write stdout_fileno s ∷ [], returned (fresh n))
  unfolding double_turn
  double_turn_lem s (text, some_char, short) =
      let fits : ltb n (length s) ≡ false = ground arith in
      rw
        (
          overwrite-block n s (omega arith),
          c_str-block n s text short,
          fits,
          clear-whole n (block n s) (length-block n s (omega arith)),
        )
        refl

  double_loop-pieces :
      (pieces : List Bytes)
      → All (IsPiece n) pieces
      → double_loop n fd (fresh n) (map got pieces ++ got [] ∷ [])
        ≡ (map (write stdout_fileno) (twice pieces) ++ close fd ∷ [], returned tt)
  unfolding double_loop
  double_loop-pieces [] h = refl
  double_loop-pieces ([] ∷ ps) h = absurd (omega (arith, h.0.1))
  double_loop-pieces ((c ∷ cs) ∷ ps) h =
      bind-runs (double_turn n fd (fresh n) (c ∷ cs))
        (λ next. double_loop n fd next (map got ps ++ got [] ∷ [])) (double_turn_lem (c ∷ cs) h.0)
        (double_loop-pieces ps h.1)

reads-IsPiece :
    (n : ℕ) (reads : List Bytes)
    → All IsText reads
    → All (λ r. 0 < length r) reads
    → All (λ r. length r < n) reads
    → All (IsPiece n) reads
reads-IsPiece n [] t some_char short = tt
reads-IsPiece n (r ∷ rs) t some_char short =
    ((t.0, some_char.0, short.0), reads-IsPiece n rs t.1 some_char.1 short.1)

pieces-IsText : (n : ℕ) (pieces : List Bytes) → All (IsPiece n) pieces → All IsText pieces
pieces-IsText n [] h = tt
pieces-IsText n (p ∷ ps) h = (h.0.0, pieces-IsText n ps h.1)

-- Reader and doubler, from arrays of NULs and with a pipe between them, on pieces of NUL-free chars, not
-- empty and shorter than the arrays, up to the end of the input: in every order of the turns in which
-- no read fills the doubler's array, it writes each piece it reads twice, closes its end of the pipe and
-- makes no other call, and the pieces it reads are the input, cut in other places at most; both functions
-- return.
pub double_loop-send_loop :
    (n fd1 fd0 : ℕ) (pieces reads : List Bytes)
    → 0 < n
    → All (IsPiece n) pieces
    → All (λ r. length r < n) reads
    → Delivers n
        (written fd1 (send_loop n fd1 (fresh n) (map got pieces ++ got [] ∷ [])).0)
        []
        reads
    → (double_loop n fd0 (fresh n) (map got reads ++ got [] ∷ [])
        ≡ (map (write stdout_fileno) (twice reads) ++ close fd0 ∷ [], returned tt))
      × (concat reads ≡ concat pieces)
      × ((send_loop n fd1 (fresh n) (map got pieces ++ got [] ∷ [])).1 ≡ returned tt)
double_loop-send_loop n fd1 fd0 pieces reads pos hp short d =
    let sent = send_loop-pieces n fd1 pieces (got []) [] hp refl in
    let d' = rw sent.0 at d in
    let text = Delivers-All (λ c. c ≢ 0) n d' tt (pieces-IsText n pieces hp) in
    let hr = reads-IsPiece n reads text (Delivers-some n pos d') short in
    (double_loop-pieces n fd0 reads hr, Delivers-concat n d', sent.1)
