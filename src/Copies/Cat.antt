-- ===== src/Copies/Cat.antt =====
-- The copy of week1/teht4.c, one char at a time.
use posix_network_programmin.Prelude.{ℕ, ◌≡◌, refl, ap, List, [], ◌∷◌, ◌++◌, map, arith, length}
use posix_network_programmin.Cstring.{Bytes, overwrite}
use posix_network_programmin.Posix.{returned, ReadResult, got, failed, written, stdout_fileno}
use posix_network_programmin.Posix.ReadLoop.{IsEnd}
use posix_network_programmin.Copies.{cat_loop}

abbrev pub one_char : ℕ → Bytes
one_char c = c ∷ []

-- A file that is read one char at a time, up to its end or an error, goes to the standard output char
-- by char; then the file is closed.
pub cat_loop-content :
    (fd b : ℕ) (buffer content : Bytes) (end : ReadResult) (later : List ReadResult)
    → IsEnd end
    → (written stdout_fileno
          (cat_loop fd (b ∷ buffer) (map (λ c. got (one_char c)) content ++ end ∷ later)).0
        ≡ map one_char content)
      × ((cat_loop fd (b ∷ buffer) (map (λ c. got (one_char c)) content ++ end ∷ later)).1
          ≡ returned tt)
unfolding cat_loop written overwrite
cat_loop-content fd b buffer [] (failed errno) later h = (refl, refl)
cat_loop-content fd b buffer [] (got []) later h = (refl, refl)
cat_loop-content fd b buffer [] (got (c ∷ cs)) later h = absurd (omega (arith, ap length h))
cat_loop-content fd b buffer (c ∷ cs) end later h =
    let rest = cat_loop-content fd c buffer cs end later h in
    (ap (λ ts. one_char c ∷ ts) rest.0, rest.1)
