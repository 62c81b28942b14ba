-- ===== src/Pipeline/Doubler.antt =====
-- What the doubler of week3/teht1_3.c writes to its standard output.
use posix_network_programmin.Prelude.{
  length, ◌++◌, zero, suc, ◌+◌, ◌≤◌, ◌≢◌, ap, none, codes, take, length-take, length-append,
  All-append, ℕ, ◌≡◌, refl, List, [], ◌∷◌, map, arith, All,
}
use posix_network_programmin.Cstring.{c_str, Bytes, decimal, fresh, overwrite}
use posix_network_programmin.Cstring.Blocks.{
  block, length-block, overwrite-block, overwrite-whole, clear-whole, c_str-block,
}
use posix_network_programmin.Posix.{
  faulted, out_of_bounds, ReadResult, blocked, returned, Effect, print, write, got, failed,
  stdout_fileno,
}
use posix_network_programmin.Pipeline.{after_input, doubler_turn, doubler_loop}
use posix_network_programmin.Posix.Fifo.{Delivers, Delivers-joined}
use posix_network_programmin.Pipeline.Reader.{IsLine}
use posix_network_programmin.Cstring.Laws.{IsText, length-fresh}

-- What one read gives the doubler: nothing if it failed.
abbrev pub line_of : ReadResult → Bytes
line_of (failed errno) = []
line_of (got line) = line

abbrev pub IsInput : ℕ → ReadResult → Type 0
IsInput n r = IsLine n (line_of r)

-- The calls for one piece: its length on a line, and the piece twice.
abbrev pub doubled : Bytes → List Effect
doubled line =
    print stdout_fileno (decimal (length line) ++ codes "\n")
    ∷ write stdout_fileno line
    ∷ write stdout_fileno line
    ∷ []

abbrev pub all_doubled : List Bytes → List Effect
all_doubled [] = []
all_doubled (line ∷ lines) = doubled line ++ all_doubled lines

after_input-line_of :
    (n : ℕ) (r : ReadResult) → after_input r (fresh n) ≡ overwrite (line_of r) (fresh n)
unfolding after_input overwrite
after_input-line_of n (failed errno) = refl
after_input-line_of n (got line) = refl

doubler_turn_lem :
    (n : ℕ) (r : ReadResult)
    → IsInput n r
    → doubler_turn n (fresh n) r ≡ (doubled (line_of r), returned (fresh n))
unfolding doubler_turn
doubler_turn_lem n r (text, short) =
    let line = line_of r in
    rw
      (
        after_input-line_of n r,
        overwrite-block n line (omega arith),
        c_str-block n line text short,
        clear-whole n (block n line) (length-block n line (omega arith)),
      )
      refl

-- From an array of NULs, on reads of NUL-free chars, fewer than the array has: the length of what each
-- read gave is printed, and that is written twice, nothing of it if the read failed, and the doubler
-- reads on even then. It makes no other call.
pub doubler_loop-doubled :
    (n : ℕ) (inputs : List ReadResult)
    → All (IsInput n) inputs
    → doubler_loop n (fresh n) inputs ≡ (all_doubled (map line_of inputs), blocked)
unfolding doubler_loop
doubler_loop-doubled n [] h = refl
doubler_loop-doubled n (r ∷ rs) h =
    rw (doubler_turn_lem n r h.0, doubler_loop-doubled n rs h.1) refl

c_str-unterminated : (s : Bytes) → IsText s → c_str s ≡ none
unfolding c_str
c_str-unterminated [] t = refl
c_str-unterminated (c ∷ cs) t = ground (arith, c_str-unterminated cs t.1)

-- A read that fills the array with chars other than NUL.
doubler_loop-full :
    (n : ℕ) (input : Bytes) (rest : List ReadResult)
    → IsText input
    → length input ≡ n
    → (doubler_loop n (fresh n) (got input ∷ rest)).1 ≡ faulted out_of_bounds
unfolding doubler_loop doubler_turn after_input
doubler_loop-full n input rest text size =
    rw
      (
        overwrite-whole input (fresh n) (omega (arith, size, length-fresh n)),
        c_str-unterminated input text,
      )
      refl

take-IsText : (n : ℕ) (s : Bytes) → IsText s → IsText (take n s)
take-IsText zero s t = tt
take-IsText (suc n) [] t = tt
take-IsText (suc n) (c ∷ cs) t = (t.0, take-IsText n cs t.1)

-- Two lines of NUL-free chars, each shorter than the array but not both together, can be delivered so
-- that the doubler reads past the end of its array.
pub doubler_loop-joined :
    (n : ℕ) (a b : Bytes)
    → IsLine n a
    → IsLine n b
    → n ≤ length a + length b
    → (reads : List Bytes) × Delivers n (a ∷ b ∷ []) [] reads
      × ((doubler_loop n (fresh n) (map got reads)).1 ≡ faulted out_of_bounds)
doubler_loop-joined n a b (ta, sa) (tb, sb) long =
    let whole = a ++ b in
    let size = length-append a b in
    let (rest, d) = Delivers-joined n a b (omega arith) (λ e. omega (arith, size, ap length e)) in
    (
      take n whole ∷ rest,
      d,
      doubler_loop-full n (take n whole) (map got rest)
          (take-IsText n whole (All-append (λ c. c ≢ 0) a b ta tb))
          (omega (arith, size, length-take n whole)),
    )
