-- ===== src/Pipeline/Tests.antt =====
-- The pipeline of week3 on concrete lines.
use posix_network_programmin.Prelude.{◌≡◌, List, [], ◌∷◌, ◌++◌, map, some, arith, codes}
use mathlib.Core.Option
use posix_network_programmin.Cstring.{Bytes, fresh, decimal}
use posix_network_programmin.Cstring.Blocks.{block}
use posix_network_programmin.Posix.{faulted, out_of_bounds, blocked, got, written, print, write}
use posix_network_programmin.Pipeline.{convert, reader_loop, converter_loop, doubler_loop}
use posix_network_programmin.Posix.Fifo.{concat, Delivers, sent, received, idle}
use posix_network_programmin.Pipeline.Reader.{reader_loop-block}
use posix_network_programmin.Pipeline.Converter.{convert-convert, converter_loop-reader_loop}
use posix_network_programmin.Pipeline.Doubler.{doubler_loop-joined}
use posix_network_programmin.Pipeline.Whole.{doubler_loop-converter_loop}

abbrev lines : List Bytes
lines = codes "Ab\n" ∷ codes "c\n" ∷ []

convert-convert_example :
    (convert (codes "Ab" ++ 0 ∷ codes "Z") ≡ some (codes "aB" ++ 0 ∷ codes "Z"))
    × (Option.bind (convert (codes "Ab" ++ 0 ∷ codes "Z")) convert
        ≡ some (codes "Ab" ++ 0 ∷ codes "Z"))
convert-convert_example = convert-convert (codes "Ab") (codes "Z") (omega arith)

-- Both lines are in the pipe before the first is read.
delivered :
    Delivers 8 (written 3 (reader_loop 8 3 (fresh 8) (map got lines)).0) [] (map (block 8) lines)
unfolding fresh
delivered =
    rw
      (reader_loop-block 8 3 lines ((omega arith, omega arith), ((omega arith, omega arith), tt))).0
      (sent _ _ _ _ (sent _ _ _ _ (received _ _ _ (λ e. cc) (received _ _ _ (λ e. cc) idle))))

-- The doubler finds both lines in the pipe, and reads them at once.
converted :
    Delivers 8
      (written 4 (converter_loop 8 4 (fresh 8) (map got (map (block 8) lines))).0)
      []
      (codes "aB\nC\n" ∷ [])
converted =
    rw
      (converter_loop-reader_loop 8 3 4 lines (map (block 8) lines) (omega arith)
        (((omega arith), omega arith), (((omega arith), omega arith), tt)) delivered)
      (sent _ _ _ _ (sent _ _ _ _ (received _ _ _ (λ e. cc) idle)))

doubler_loop-converter_loop_example :
    (doubler_loop 8 (fresh 8) (map got (codes "aB\nC\n" ∷ [])) ≡ (
      print 1 (codes "5\n") ∷ write 1 (codes "aB\nC\n") ∷ write 1 (codes "aB\nC\n") ∷ [],
      blocked,
    ))
    × (concat (codes "aB\nC\n" ∷ []) ≡ codes "aB\nC\n")
unfolding decimal
doubler_loop-converter_loop_example =
    doubler_loop-converter_loop 8 3 4 lines (map (block 8) lines) (codes "aB\nC\n" ∷ [])
      (omega arith) (((omega arith), omega arith), (((omega arith), omega arith), tt)) delivered
      converted (omega arith, tt)

doubler_loop-joined_example :
    (reads : List Bytes) × Delivers 5 (codes "ab\n" ∷ codes "cd\n" ∷ []) [] reads
    × ((doubler_loop 5 (fresh 5) (map got reads)).1 ≡ faulted out_of_bounds)
doubler_loop-joined_example =
    doubler_loop-joined 5 (codes "ab\n") (codes "cd\n") (omega arith, omega arith)
      (omega arith, omega arith) (omega arith)
