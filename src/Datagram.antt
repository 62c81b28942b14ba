-- ===== src/Datagram.antt =====
-- week6/teht2_client.c and teht2_server.c: a client that sends as many NULs as a number says, in one
-- datagram, and a server that prints how many bytes each datagram has.
pub mod Sizes
mod Tests
use mathlib.Core.Option
use posix_network_programmin.Prelude.{
  ℕ, ◌^◌, ◌-◌, Bool, ◌||◌, List, [], ◌∷◌, ◌++◌, Option, none, some, ltb, leb, ◌==◌, if◌then◌else◌,
  codes,
}
use posix_network_programmin.Cstring.{
  Bytes, fresh, c_str, overwrite, strcpy, strcat, is_digit, skip_space, decimal, print_int,
  atol_int, strtoul_int, int_mod,
}
use posix_network_programmin.Posix.{
  Proc, blocked, pure, call, exit, checked, fault, null_pointer, out_of_bounds, ◌>>=◌, ◌>>◌,
  ReadResult, got, failed, write, print, bind, connect, on_signal, Answer, is_error, descriptor,
  htons, af_inet, stdout_fileno, stderr_fileno, exit_success, exit_failure,
}
use posix_network_programmin.Posix.Accept.{any_address}

unfoldable pub drop_digits : Bytes → Bytes
drop_digits [] = []
drop_digits (c ∷ cs) = let rest = drop_digits cs in if is_digit c then rest else c ∷ cs

unfoldable pub drop_sign : Bytes → Bytes
drop_sign [] = []
drop_sign (c ∷ cs) = if c == b'-' || c == b'+' then cs else c ∷ cs

-- atoi on an array: `none` if the number has no end in it; the second argument is what stands behind.
abbrev pub atoi_end : Bytes → Bytes → Option ℕ
atoi_end buff [] = none
atoi_end buff (c ∷ cs) = some (atol_int buff)

unfoldable pub atoi_in : Bytes → Option ℕ
unfolding drop_digits drop_sign
atoi_in buff = atoi_end buff (drop_digits (drop_sign (skip_space buff)))

-- The array `sendline`, which needs a positive size.
unfoldable pub sendline : ℕ → Option Bytes
sendline size = if size == 0 || leb (2 ^ 31) size then none else some (fresh size)

-- One turn of the client's loop: what the read and sendto returned.
pub record Order : Type 0 where
  pub read : ReadResult
  pub sent : Answer

unfoldable pub send_size : ℕ → Bytes → Answer → Proc (Unit {0})
unfolding atoi_in sendline
send_size sockfd filled sent = do
  size ← checked (atoi_in filled)
  line ← checked (sendline size)
  call (write sockfd line)
  if is_error sent
      then call
          (print stderr_fileno (codes "Sendto errno:" ++ (print_int sent.errno ++ codes "\n")))
      else pure tt

unfoldable pub order_loop : ℕ → Bytes → List Order → Proc ℕ
unfolding send_size
order_loop sockfd buff [] = ([], blocked)
order_loop sockfd buff (o ∷ os) = elim o.read [
  | failed errno ↦ pure exit_success
  | got [] ↦ pure exit_success
  | got (c ∷ cs) ↦ do
    let filled = overwrite (c ∷ cs) buff
    send_size sockfd filled o.sent
    order_loop sockfd filled os
]

-- `pton` is inet_pton for AF_INET; the structure was set to 0, and the result is not looked at.
unfoldable pub order_address : (Bytes → Option ℕ) → Bytes → ℕ
order_address pton ip = elim (pton ip) [ none ↦ 0 | some addr ↦ addr ]

unfoldable pub order_port :
    (Bytes → Option ℕ) → Bytes → ℕ → Answer → Answer → Bytes → List Order → Proc ℕ
unfolding order_loop order_address
order_port pton ip port socket connected buff orders = do
  call (
      print stdout_fileno (
        codes "PORT: "
        ++ (print_int port ++ (codes " HTONS " ++ (print_int (htons port) ++ codes "\n")))))
  if is_error socket
      then (do call (print stdout_fileno (codes "socket error")); exit exit_failure)
      else (do
        call (
            connect (descriptor socket)
              (record { family = af_inet; port = htons port; addr = order_address pton ip }))
        if is_error connected
            then (do
              call (
                  print stderr_fileno
                    (codes "Connect errno:" ++ (print_int connected.errno ++ codes "\n")))
              exit exit_failure)
            else order_loop (descriptor socket) buff orders)

unfoldable pub order_main :
    (Bytes → Option ℕ) → List Bytes → Answer → Answer → Bytes → List Order → Proc ℕ
unfolding order_port strtoul_int
order_main pton (program ∷ ip ∷ port ∷ []) socket connected buff orders = do
  call (on_signal 13)
  order_port pton ip (strtoul_int port) socket connected buff orders
order_main pton (program ∷ rest) socket connected buff orders = do
  call (on_signal 13)
  call (print stderr_fileno (codes "usage: " ++ (program ++ codes " ip port\n")))
  exit exit_failure
order_main pton [] socket connected buff orders = do call (on_signal 13); fault null_pointer

-- `handle_sigint` of the client
unfoldable pub signal_text : ℕ → Option Bytes
unfolding Option.bind
signal_text sig =
    Option.bind (strcpy (fresh 32) (codes "Caugh signal:" ++ 0 ∷ []))
      (λ message. strcat message (print_int sig ++ 0 ∷ []))

unfoldable pub show_signal : ℕ → Proc (Unit {0})
unfolding signal_text
show_signal sig = do
  message ← checked (signal_text sig)
  text ← checked (c_str message)
  call (write stdout_fileno text)
  exit exit_failure

-- The server's loop; the argument of each turn is what recvfrom returned, -1 as `none`.
unfoldable pub received_line : Option ℕ → Bytes
received_line none = codes "Received -1 bytes of data\n"
received_line (some n) = codes "Received " ++ (print_int n ++ codes " bytes of data\n")

unfoldable pub receive_loop : List (Option ℕ) → Proc ℕ
unfolding received_line
receive_loop [] = ([], blocked)
receive_loop (n ∷ ns) = do
  (elim n [ none ↦ call (print stdout_fileno (codes "recvfrom error")) | some k ↦ pure tt ])
  call (print stdout_fileno (received_line n))
  receive_loop ns

-- -1 as a descriptor
unfoldable pub raw_descriptor : Answer → ℕ
raw_descriptor a = elim a.value [ none ↦ int_mod - 1 | some fd ↦ fd ]

-- The apostrophe is U+2019 in the source, three bytes in UTF-8.
abbrev cannot : Bytes → Bytes
cannot what = codes "server: can" ++ (0xe2 ∷ 0x80 ∷ 0x99 ∷ codes "t ") ++ what

unfoldable pub receive_main : List Bytes → Answer → Answer → List (Option ℕ) → Proc ℕ
unfolding receive_loop any_address atol_int sendline raw_descriptor
receive_main (program ∷ port ∷ maxline ∷ []) socket bound ns = do
  (if is_error socket
      then call (print stdout_fileno (cannot (codes "create datagram socket")))
      else pure tt)
  call (bind (raw_descriptor socket) (any_address (atol_int port)))
  (if is_error bound
      then call (print stdout_fileno (cannot (codes "bind datagram socket")))
      else pure tt)
  mesg ← checked (sendline (atol_int maxline))
  receive_loop ns
receive_main (program ∷ rest) socket bound ns = do
  call (print stderr_fileno (codes "usage: " ++ (program ++ codes " port datagram\n")))
  exit exit_failure
receive_main [] socket bound ns = fault null_pointer
