-- ===== src/Pipeline/Whole.antt =====
-- The three programs of week3, joined by two pipes.
use posix_network_programmin.Prelude.{
  ℕ, ◌<◌, ◌≢◌, ◌≡◌, refl, ap, ◌∙◌, List, [], ◌∷◌, map, All, length,
}
use posix_network_programmin.Cstring.{Bytes, fresh}
use posix_network_programmin.Cstring.Laws.{IsText}
use posix_network_programmin.Posix.{blocked, got, written}
use posix_network_programmin.Pipeline.{reader_loop, converter_loop, doubler_loop}
use posix_network_programmin.Posix.Fifo.{Delivers, Delivers-concat, Delivers-All, concat}
use posix_network_programmin.Pipeline.Reader.{IsLine}
use posix_network_programmin.Pipeline.Converter.{
  other_case, converter_loop-reader_loop, other_case-IsText,
}
use posix_network_programmin.Pipeline.Doubler.{IsInput, line_of, all_doubled, doubler_loop-doubled}

swapped-IsText :
    (n : ℕ) (lines : List Bytes) → All (IsLine n) lines → All IsText (map (map other_case) lines)
swapped-IsText n [] h = tt
swapped-IsText n (line ∷ lines) h = (other_case-IsText line h.0.0, swapped-IsText n lines h.1)

reads-IsInput :
    (n : ℕ) (reads : List Bytes)
    → All IsText reads
    → All (λ r. length r < n) reads
    → All (IsInput n) (map got reads)
reads-IsInput n [] t short = tt
reads-IsInput n (r ∷ rs) t short = ((t.0, short.0), reads-IsInput n rs t.1 short.1)

lines-got : (reads : List Bytes) → map line_of (map got reads) ≡ reads
lines-got [] = refl
lines-got (r ∷ rs) = ap (λ t. r ∷ t) (lines-got rs)

-- Reader, converter and doubler, from arrays of NULs and with a pipe between each two, on lines of
-- NUL-free chars shorter than the arrays: in every order of their turns in which no read fills the
-- doubler's array, the doubler prints the length of each piece it reads and writes the piece twice, makes
-- no other call, and waits for more; the pieces it reads, put together, are the lines with their letters
-- in the other case.
pub doubler_loop-converter_loop :
    (n out_fd in_fd : ℕ) (lines blocks reads : List Bytes)
    → 0 < n
    → All (IsLine n) lines
    → Delivers n (written out_fd (reader_loop n out_fd (fresh n) (map got lines)).0) [] blocks
    → Delivers n (written in_fd (converter_loop n in_fd (fresh n) (map got blocks)).0) [] reads
    → All (λ r. length r < n) reads
    → (doubler_loop n (fresh n) (map got reads) ≡ (all_doubled reads, blocked))
      × (concat reads ≡ concat (map (map other_case) lines))
doubler_loop-converter_loop n out_fd in_fd lines blocks reads pos h first second short =
    let converted = converter_loop-reader_loop n out_fd in_fd lines blocks pos h first in
    let d = rw converted at second in
    let text = Delivers-All (λ c. c ≢ 0) n d tt (swapped-IsText n lines h) in
    let doubled = doubler_loop-doubled n (map got reads) (reads-IsInput n reads text short) in
    (doubled ∙ ap (λ ps. (all_doubled ps, blocked)) (lines-got reads), Delivers-concat n d)
