-- ===== src/Copies/Tests.antt =====
-- The copies of week1 and week2 on concrete reads.
use posix_network_programmin.Prelude.{◌≡◌, refl, List, [], ◌∷◌, ◌++◌, map, arith, codes}
use posix_network_programmin.Cstring.{Bytes, fresh}
use posix_network_programmin.Posix.{write, close, returned, got, written}
use posix_network_programmin.Posix.Fifo.{concat, Delivers, sent, received, idle}
use posix_network_programmin.Copies.{send_loop, double_loop}
use posix_network_programmin.Copies.Twice.{IsPiece}
use posix_network_programmin.Copies.Junk.{send_loop-junk}
use posix_network_programmin.Copies.Pipe.{send_loop-pieces, double_loop-send_loop}

abbrev pieces : List Bytes
pieces = codes "ab\n" ∷ codes "c\n" ∷ []

pieces-IsPiece : (IsPiece 6 (codes "ab\n")) × (IsPiece 6 (codes "c\n"))
pieces-IsPiece = ((omega arith, omega arith, omega arith), (omega arith, omega arith, omega arith))

-- Both lines come out in one read.
delivered :
    Delivers 6
      (written 4 (send_loop 6 4 (fresh 6) (map got pieces ++ got [] ∷ [])).0)
      []
      (codes "ab\nc\n" ∷ [])
delivered =
    rw (send_loop-pieces 6 4 pieces (got []) [] (pieces-IsPiece.0, (pieces-IsPiece.1, tt)) refl).0
      (sent _ _ _ _ (sent _ _ _ _ (received _ _ _ (λ e. cc) idle)))

double_loop-send_loop_example :
    (double_loop 6 3 (fresh 6) (map got (codes "ab\nc\n" ∷ []) ++ got [] ∷ [])
      ≡ (write 1 (codes "ab\nc\n") ∷ write 1 (codes "ab\nc\n") ∷ close 3 ∷ [], returned tt))
    × (concat (codes "ab\nc\n" ∷ []) ≡ concat pieces)
    × ((send_loop 6 4 (fresh 6) (map got pieces ++ got [] ∷ [])).1 ≡ returned tt)
double_loop-send_loop_example =
    double_loop-send_loop 6 4 3 pieces (codes "ab\nc\n" ∷ []) (omega arith)
      (pieces-IsPiece.0, (pieces-IsPiece.1, tt)) (omega arith, tt) delivered

-- The array held "hello" before the first read.
send_loop-junk_example :
    (written 4
        (send_loop 6 4
          (codes "hello" ++ 0 ∷ [])
          (map got (codes "ab\n" ∷ codes "c\n" ∷ []) ++ got [] ∷ [])).0
      ≡ codes "ab\nlo" ∷ codes "c\n" ∷ [])
    × ((send_loop 6 4
          (codes "hello" ++ 0 ∷ [])
          (map got (codes "ab\n" ∷ codes "c\n" ∷ []) ++ got [] ∷ [])).1
        ≡ returned tt)
send_loop-junk_example =
    send_loop-junk 6 4 (codes "hello") [] (codes "ab\n")
      (record { text = omega arith; size = refl }) pieces-IsPiece.0 (omega arith) (codes "c\n" ∷ [])
      (got []) [] (pieces-IsPiece.1, tt) refl
