-- ===== src/Datagram/Sizes.antt =====
-- The sizes of the datagrams that the client of week6/teht2_client.c sends.
use posix_network_programmin.Prelude.{
  ℕ, ◌^◌, ◌<◌, ◌≤◌, ◌≡◌, ◌≢◌, refl, ap, ◌∙◌, [], ◌∷◌, ◌++◌, some, arith, All, length, drop,
  append_assoc, if◌then◌else◌, codes,
}
use posix_network_programmin.Cstring.{
  Bytes, fresh, overwrite, decimal, digits_value, is_digit, is_space, skip_space, print_int,
}
use posix_network_programmin.Cstring.Laws.{overwrite-eq}
use posix_network_programmin.Cstring.Decimal.{
  IsDigit, decimal-IsDigit, decimal-ne-nil, atol_int-decimal,
}
use posix_network_programmin.Posix.{pure, call, ◌>>◌, write, print, Answer, is_error, stderr_fileno}
use posix_network_programmin.Datagram.{
  drop_digits, drop_sign, atoi_end, atoi_in, sendline, send_size,
}

drop_digits-IsDigit :
    (s rest : Bytes) → All IsDigit s → drop_digits (s ++ 0x0a ∷ rest) ≡ 0x0a ∷ rest
unfolding drop_digits is_digit
drop_digits-IsDigit [] rest d = refl
drop_digits-IsDigit (c ∷ cs) rest d = ground (arith, drop_digits-IsDigit cs rest d.1)

front-IsDigit :
    (s : Bytes) → s ≢ [] → All IsDigit s → (t : Bytes) → drop_sign (skip_space (s ++ t)) ≡ s ++ t
unfolding drop_sign skip_space is_space
front-IsDigit [] ne d t = absurd (ne refl)
front-IsDigit (c ∷ cs) ne d t = ground arith

atoi_in-decimal : (n : ℕ) (rest : Bytes) → n < 2 ^ 31 → atoi_in (decimal n ++ 0x0a ∷ rest) ≡ some n
unfolding atoi_in digits_value
atoi_in-decimal n rest h =
    let text = decimal n ++ 0x0a ∷ rest in
    let digits = decimal-IsDigit n in
    ap (λ t. atoi_end text (drop_digits t))
      (front-IsDigit (decimal n) (decimal-ne-nil n) digits (0x0a ∷ rest))
    ∙ ap (atoi_end text) (drop_digits-IsDigit (decimal n) rest digits)
    ∙ ap some (atol_int-decimal n (0x0a ∷ rest) h refl)

sendline-fresh : (n : ℕ) → 0 < n → n < 2 ^ 31 → sendline n ≡ some (fresh n)
unfolding sendline
sendline-fresh n pos h = ground arith

-- A number from 1 to 2^31 - 1 in decimal with a newline behind it, read into an array where it fits: the
-- client sends as many NULs as it says, in one datagram, and if that fails prints the errno and goes on.
pub send_size-decimal :
    (sockfd n : ℕ) (buff : Bytes) (sent : Answer)
    → 0 < n
    → n < 2 ^ 31
    → length (decimal n ++ 0x0a ∷ []) ≤ length buff
    → send_size sockfd (overwrite (decimal n ++ 0x0a ∷ []) buff) sent ≡ (
        call (write sockfd (fresh n))
        >> (if is_error sent
            then call (
                print stderr_fileno (codes "Sendto errno:" ++ (print_int sent.errno ++ codes "\n")))
            else pure tt))
unfolding send_size
send_size-decimal sockfd n buff sent pos h fits =
    let line = decimal n ++ 0x0a ∷ [] in
    let tail = drop (length line) buff in
    let filled : overwrite line buff ≡ decimal n ++ 0x0a ∷ tail =
      overwrite-eq line buff fits ∙ append_assoc (decimal n) (0x0a ∷ []) tail in
    rw (filled, atoi_in-decimal n tail h, sendline-fresh n pos h) refl
