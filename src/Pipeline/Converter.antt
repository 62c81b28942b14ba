-- ===== src/Pipeline/Converter.antt =====
-- What the converter of week3/teht1_2.c does to a line, and the pipe between it and the reader.
use mathlib.Core.Option
use mathlib.Core.Path.{fun_ext}
use posix_network_programmin.Prelude.{
  ℕ, ◌+◌, ◌-◌, ◌<◌, ◌&&◌, leb, if◌then◌else◌, ◌≡◌, refl, ap, ap₂, ◌∙◌, List, [], ◌∷◌, ◌++◌, map,
  some, arith, All, length, length-append, length-map,
}
use posix_network_programmin.Cstring.{Bytes, fresh, is_upper, is_lower, to_upper, to_lower}
use posix_network_programmin.Cstring.Laws.{IsText, c_str-append, length-fresh}
use posix_network_programmin.Cstring.Blocks.{
  block, length-block, overwrite-whole, clear-whole, block-terminated,
}
use posix_network_programmin.Posix.{blocked, got, written}
use posix_network_programmin.Posix.Emits.{Emits, Emits-continue}
use posix_network_programmin.Pipeline.{
  swap_case, convert, after_input, converter_turn, converter_loop, reader_loop,
}
use posix_network_programmin.Posix.Fifo.{Delivers, HasLength, Delivers-blocks}
use posix_network_programmin.Pipeline.Reader.{IsLine, reader_loop-block}

-- The letter in the other case; every other char as it is.
abbrev pub other_case : ℕ → ℕ
other_case c =
    if leb b'A' c && leb c b'Z' then c + 32 else if leb b'a' c && leb c b'z' then c - 32 else c

swap_case-other_case : (c : ℕ) → swap_case c ≡ other_case c
unfolding swap_case is_upper is_lower to_upper to_lower
swap_case-other_case c = ground arith

-- Converted twice, every char is what it was.
pub swap_case-swap_case : (c : ℕ) → swap_case (swap_case c) ≡ c
unfolding swap_case is_upper is_lower to_upper to_lower
swap_case-swap_case c = ground arith

convert_text :
    (s rest : Bytes) → IsText s → convert (s ++ 0 ∷ rest) ≡ some (map swap_case s ++ 0 ∷ rest)
unfolding convert
convert_text [] rest t = refl
convert_text (c ∷ cs) rest t = ground (arith, convert_text cs rest t.1)

swap_case-IsText : (s : Bytes) → IsText s → IsText (map swap_case s)
unfolding swap_case is_upper is_lower to_upper to_lower
swap_case-IsText [] t = tt
swap_case-IsText (c ∷ cs) t = (ground arith, swap_case-IsText cs t.1)

pub other_case-IsText : (s : Bytes) → IsText s → IsText (map other_case s)
other_case-IsText [] t = tt
other_case-IsText (c ∷ cs) t = (ground arith, other_case-IsText cs t.1)

swap_case_twice : (s : Bytes) → map swap_case (map swap_case s) ≡ s
swap_case_twice [] = refl
swap_case_twice (c ∷ cs) = ap₂ ◌∷◌ (swap_case-swap_case c) (swap_case_twice cs)

-- On an array with a terminated string in it, the loop over the chars changes the case of each letter of
-- the string, and nothing else, also nothing behind the string; run twice, it gives the array back.
pub convert-convert :
    (s rest : Bytes)
    → IsText s
    → (convert (s ++ 0 ∷ rest) ≡ some (map other_case s ++ 0 ∷ rest))
      × (Option.bind (convert (s ++ 0 ∷ rest)) convert ≡ some (s ++ 0 ∷ rest))
unfolding Option.bind
convert-convert s rest t = (
  convert_text s rest t ∙ ap (λ f. some (map f s ++ 0 ∷ rest)) (fun_ext swap_case-other_case),
  ap (λ o. Option.bind o convert) (convert_text s rest t)
      ∙ convert_text (map swap_case s) rest (swap_case-IsText s t)
      ∙ ap (λ b. some (b ++ 0 ∷ rest)) (swap_case_twice s),
)

converter_turn-Emits :
    (n fd : ℕ) (line : Bytes)
    → IsLine n line
    → Emits fd
        (map swap_case line ∷ [])
        (fresh n)
        (converter_turn n fd (fresh n) (got (block n line)))
unfolding converter_turn after_input written
converter_turn-Emits n fd line (text, short) =
    let size = length-block n line (omega arith) in
    let tail = fresh (n - length line - 1) in
    let swapped = map swap_case line in
    rw
      (
        overwrite-whole (block n line) (fresh n) (omega (arith, size, length-fresh n)),
        block-terminated n line short,
        convert_text line tail text,
        c_str-append swapped tail (swap_case-IsText line text),
        clear-whole n (swapped ++ 0 ∷ tail) (
            omega (
              arith,
              length-map swap_case line,
              length-append swapped (0 ∷ tail),
              length-append line (0 ∷ tail),
              rw (block-terminated n line short) at size,
            )),
      )
      (ground arith)

-- From an array of NULs, on blocks with lines in them: each line is written in one call, with its
-- letters in the other case.
pub converter_loop-block :
    (n fd : ℕ) (lines : List Bytes)
    → All (IsLine n) lines
    → (written fd (converter_loop n fd (fresh n) (map got (map (block n) lines))).0
        ≡ map (map swap_case) lines)
      × ((converter_loop n fd (fresh n) (map got (map (block n) lines))).1 ≡ blocked)
unfolding converter_loop written
converter_loop-block n fd [] h = (refl, refl)
converter_loop-block n fd (line ∷ lines) h =
    Emits-continue fd (converter_turn n fd (fresh n) (got (block n line)))
      (λ next. converter_loop n fd next (map got (map (block n) lines)))
      (converter_turn-Emits n fd line h.0) (converter_loop-block n fd lines h.1)

blocks-HasLength :
    (n : ℕ) (lines : List Bytes) → All (IsLine n) lines → All (HasLength n) (map (block n) lines)
blocks-HasLength n [] h = tt
blocks-HasLength n (line ∷ lines) h =
    (length-block n line (omega (arith, h.0.1)), blocks-HasLength n lines h.1)

-- Reader and converter, from arrays of NULs and with a pipe between them, on lines of NUL-free chars
-- shorter than the arrays:
-- in every order in which the two take turns the converter writes each line in one call, with its
-- letters in the other case.
pub converter_loop-reader_loop :
    (n out_fd in_fd : ℕ) (lines reads : List Bytes)
    → 0 < n
    → All (IsLine n) lines
    → Delivers n (written out_fd (reader_loop n out_fd (fresh n) (map got lines)).0) [] reads
    → written in_fd (converter_loop n in_fd (fresh n) (map got reads)).0
      ≡ map (map other_case) lines
converter_loop-reader_loop n out_fd in_fd lines reads pos h d =
    let sent = (reader_loop-block n out_fd lines h).0 in
    let same : reads ≡ map (block n) lines =
      Delivers-blocks n pos (rw sent at d) (blocks-HasLength n lines h) in
    rw same (
      (converter_loop-block n in_fd lines h).0
      ∙ ap (λ f. map (map f) lines) (fun_ext swap_case-other_case))
