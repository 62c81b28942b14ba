-- ===== src/EchoService/Client.antt =====
-- What the client of week4/teht6_client.c prints of a reply, in an array that is not set to 0 between send
-- and read.
use posix_network_programmin.Prelude.{
  ◌≢◌, All-append, append_assoc, ℕ, ◌+◌, ◌≤◌, ◌<◌, ◌≡◌, refl, ap, ◌∙◌, [], ◌∷◌, ◌++◌, some, arith,
  length, length-append, drop, codes,
}
use posix_network_programmin.Cstring.{Bytes, fresh, overwrite}
use posix_network_programmin.Cstring.Laws.{IsText, c_str-append, overwrite-eq, length-fresh}
use posix_network_programmin.Cstring.Remains.{drop-IsText, overwrite-shorter}
use posix_network_programmin.Posix.{returned, got, write, print, stdout_fileno, is_error-some}
use posix_network_programmin.EchoService.{Exchange, exchange}

-- An exchange in which the line is sent, and a reply no longer than the line comes back.
pub record IsAnswered (x : Exchange) (line reply : Bytes) : Type 0 where
  pub line_read : x.line ≡ some line
  pub line_text : IsText line
  pub fits : length line < 256
  pub sent : (n : ℕ) × (x.sent.value ≡ some n)
  pub answer : x.reply ≡ got reply
  pub reply_text : IsText reply
  pub shorter : length reply ≤ length line

-- The array when the line is in it.
typed-line :
    (line : Bytes)
    → length line < 256
    → overwrite (line ++ 0 ∷ []) (fresh 256) ≡ line ++ 0 ∷ drop (length line + 1) (fresh 256)
typed-line line h =
    let size = length-append line (0 ∷ []) in
    overwrite-eq (line ++ 0 ∷ []) (fresh 256) (omega (arith, size, length-fresh 256))
    ∙ ap (λ k. (line ++ 0 ∷ []) ++ drop k (fresh 256)) size
    ∙ append_assoc line (0 ∷ []) (drop (length line + 1) (fresh 256))

-- For a line of fewer than 256 NUL-free chars that is sent, and a NUL-free reply that is no longer: the
-- client prints the reply, and behind it the chars of the line that the reply did not reach.
pub exchange-rest :
    (sockfd : ℕ) (x : Exchange) (line reply : Bytes)
    → IsAnswered x line reply
    → exchange sockfd x ≡ (
      write sockfd line
          ∷ print stdout_fileno ((reply ++ drop (length reply) line) ++ codes "\n")
          ∷ [],
      returned tt,
    )
unfolding exchange
exchange-rest sockfd x line reply a =
    let tail = drop (length line + 1) (fresh 256) in
    let shown = reply ++ drop (length reply) line in
    rw
      (
        a.line_read,
        typed-line line a.fits,
        c_str-append line tail a.line_text,
        is_error-some x.sent a.sent.1,
        a.answer,
        overwrite-shorter line reply tail a.shorter,
        c_str-append shown tail (
            All-append (λ c. c ≢ 0) reply (drop (length reply) line) a.reply_text
              (drop-IsText (length reply) line a.line_text)),
      )
      refl
