-- ===== src/StandardEcho/Replies.antt =====
-- The client of week4/teht2.c on a service that echoes.
use posix_network_programmin.Prelude.{
  ℕ, ◌<◌, ◌≡◌, refl, ◌∙◌, List, [], ◌∷◌, ◌++◌, some, arith, length, length-append, drop,
  append_assoc, codes,
}
use posix_network_programmin.Cstring.{Bytes, fresh, overwrite}
use posix_network_programmin.Cstring.Laws.{
  IsText, c_str-append, overwrite-eq, overwrite-append, length-fresh,
}
use posix_network_programmin.Posix.{
  Effect, returned, blocked, got, write, print, stdout_fileno, is_error-some,
}
use posix_network_programmin.StandardEcho.{Echoed, ask, ask_loop}

-- A line that is sent and comes back.
pub record ComesBack (x : Echoed) (line : Bytes) : Type 0 where
  pub line_read : x.line ≡ some line
  pub text : IsText line
  pub fits : length line < 256
  pub wrote : (n : ℕ) × (x.wrote.value ≡ some n)
  pub reply : x.reply ≡ got line

abbrev pub AllComeBack : List Echoed → List Bytes → Type 0
AllComeBack [] [] = Unit
AllComeBack (x ∷ xs) (line ∷ lines) = ComesBack x line × AllComeBack xs lines
AllComeBack _ _ = ⊥

-- The calls of one such turn after the other.
abbrev pub echoes : ℕ → List Bytes → List Effect
echoes sockfd [] = []
echoes sockfd (line ∷ lines) =
    write sockfd line ∷ print stdout_fileno (line ++ codes "\n") ∷ echoes sockfd lines

ask-ComesBack :
    (sockfd : ℕ) (x : Echoed) (line : Bytes)
    → ComesBack x line
    → ask sockfd x
      ≡ (write sockfd line ∷ print stdout_fileno (line ++ codes "\n") ∷ [], returned tt)
unfolding ask
ask-ComesBack sockfd x line c =
    let tail = drop (length (line ++ 0 ∷ [])) (fresh 256) in
    let typed : overwrite (line ++ 0 ∷ []) (fresh 256) ≡ line ++ 0 ∷ tail =
      overwrite-eq (line ++ 0 ∷ []) (fresh 256)
        (omega (arith, c.fits, length-append line (0 ∷ []), length-fresh 256))
      ∙ append_assoc line (0 ∷ []) tail in
    rw
      (
        c.line_read,
        typed,
        c_str-append line tail c.text,
        is_error-some x.wrote c.wrote.1,
        c.reply,
        overwrite-append line line (0 ∷ tail) refl,
        c_str-append line tail c.text,
      )
      refl

-- If each line, of NUL-free chars and shorter than 256, is sent and comes back whole in one read: the
-- client sends and prints them in turn, and waits for the next one.
pub ask_loop-echoes :
    (sockfd : ℕ) (xs : List Echoed) (lines : List Bytes)
    → AllComeBack xs lines
    → ask_loop sockfd xs ≡ (echoes sockfd lines, blocked)
unfolding ask_loop
ask_loop-echoes sockfd [] [] h = refl
ask_loop-echoes sockfd [] (line ∷ lines) h = absurd h
ask_loop-echoes sockfd (x ∷ xs) [] h = absurd h
ask_loop-echoes sockfd (x ∷ xs) (line ∷ lines) h =
    rw (ask-ComesBack sockfd x line h.0, ask_loop-echoes sockfd xs lines h.1) refl
