-- ===== src/Exercise/Reply/Echo.antt =====
-- What `echoer` and `getsrcfldr` write, on every answer of the kernel.
use posix_network_programmin.Prelude.{
  ℕ, zero, suc, ◌+◌, ◌≤◌, ◌≡◌, refl, ap, ap₂, ◌∙◌, [], ◌∷◌, ◌++◌, map, some, arith, if◌then◌else◌,
  length, take, drop, replicate, length-map, take-append,
}
use mathlib.Core.List.{map-append}
use mathlib.Core.Path.{fun_ext}
use posix_network_programmin.Cstring.{Bytes, fresh, padded, to_upper}
use posix_network_programmin.Cstring.Laws.{
  IsText, length-fresh, length-padded, padded-append, padded_text, strncpy_fits,
}
use posix_network_programmin.Posix.{
  Proc, returned, write, print, Answer, is_error_or_zero, stderr_fileno, exit_success, exit_failure,
}
use posix_network_programmin.Exercise.Reply.{max_buffer, write_failed, raise, echoer}

-- The trace and the result of a function that sends `bytes` and logs them.
abbrev pub reply : Bytes → ℕ → ℕ → Answer → Proc ℕ
reply bytes sockfd logfd sent =
    if is_error_or_zero sent
    then (
      write sockfd bytes
          ∷ print stderr_fileno (write_failed sent.errno)
          ∷ print logfd (write_failed sent.errno)
          ∷ [],
      returned exit_failure,
    )
    else (write sockfd bytes ∷ write logfd bytes ∷ [], returned exit_success)

pub raise-to_upper : (c : ℕ) → raise c ≡ to_upper c
unfolding raise
raise-to_upper c = ground arith

take-map :
    (f : ℕ → ℕ) (n : ℕ) (p rest : Bytes) → length p ≡ n → take n (map f (p ++ rest)) ≡ map f p
take-map f n p rest h = rw (map-append, ← h, ← length-map f p) (take-append (map f p) (map f rest))

echoer-padded :
    (line : Bytes) (size sockfd logfd : ℕ) (sent : Answer) {p : Bytes}
    → padded size line ≡ some p
    → size ≤ max_buffer + 1
    → echoer line size sockfd logfd sent ≡ reply (map raise p) sockfd logfd sent
unfolding echoer
echoer-padded line size sockfd logfd sent {p} e h =
    let n = length-padded size line e in
    rw
      (
        strncpy_fits (fresh (max_buffer + 1)) line size e
            (omega (arith, length-fresh (max_buffer + 1))),
        take-map raise size p (drop size (fresh (max_buffer + 1))) n,
      )
      (ground arith)

-- Asked for exactly the chars of a text that fits its array (2049 chars), `echoer` writes them in
-- capitals to the peer in one call; then it writes the same bytes to the log and returns success,
-- or, if the first write returned 0 or failed, reports the error twice and returns failure.
pub echoer_text :
    (s rest : Bytes) (sockfd logfd : ℕ) (sent : Answer)
    → IsText s
    → length s ≤ max_buffer + 1
    → echoer (s ++ rest) (length s) sockfd logfd sent ≡ reply (map to_upper s) sockfd logfd sent
echoer_text s rest sockfd logfd sent t h =
    echoer-padded (s ++ rest) (length s) sockfd logfd sent (padded_text s rest t) h
    ∙ ap (λ f. reply (map f s) sockfd logfd sent) (fun_ext raise-to_upper)

raise-zeros : (k : ℕ) → map raise (replicate k 0) ≡ replicate k 0
unfolding raise
raise-zeros zero = refl
raise-zeros (suc k) = ap (◌∷◌ 0) (raise-zeros k)

raise-padded :
    (s : Bytes) (k : ℕ) → map raise (s ++ replicate k 0) ≡ map to_upper s ++ replicate k 0
raise-padded [] k = raise-zeros k
raise-padded (c ∷ cs) k = ap₂ ◌∷◌ (raise-to_upper c) (raise-padded cs k)

-- Asked for `k` chars more than the text has, 2049 at most in all, `echoer` writes `k` NULs behind
-- the capitals, in the same call; the log and the result are as they are for an exact size.
pub echoer_short :
    (s rest : Bytes) (k sockfd logfd : ℕ) (sent : Answer)
    → IsText s
    → length s + k ≤ max_buffer + 1
    → echoer (s ++ 0 ∷ rest) (length s + k) sockfd logfd sent
      ≡ reply (map to_upper s ++ replicate k 0) sockfd logfd sent
echoer_short s rest k sockfd logfd sent t h =
    echoer-padded (s ++ 0 ∷ rest) (length s + k) sockfd logfd sent (padded-append s rest k t) h
    ∙ ap (λ b. reply b sockfd logfd sent) (raise-padded s k)
