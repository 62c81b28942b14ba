-- ===== src/Daytime.antt =====
-- week5/daytimetcpcli.c, daytimetcpcli_2c.c and daytimetcpsrv1.c: clients that ask for the time over a
-- number of connections, one after the other, and a server. The numbers of connections are below 2^31;
-- err_sys and err_quit are those of the book's library.
pub mod Contacts
use posix_network_programmin.Prelude.{
  ℕ, zero, suc, Bool, List, [], ◌∷◌, ◌++◌, Option, none, some, if◌then◌else◌, take, codes,
}
use posix_network_programmin.Cstring.{Bytes, c_str, overwrite, print_int, strtoul_int}
use posix_network_programmin.Posix.{
  Proc, blocked, pure, call, exit, checked, fault, null_pointer, ◌>>=◌, ◌>>◌, ReadResult, got,
  failed, write, print, perror, bind, listen, connect, close, Answer, is_error, descriptor, htons,
  af_inet, stdout_fileno, stderr_fileno, exit_success, exit_failure,
}
use posix_network_programmin.Posix.Accept.{any_address, dotted}

abbrev pub err_quit {ℓ} : {A : Type ℓ} → Bytes → Proc A
err_quit text = call (print stderr_fileno (text ++ codes "\n")) >> exit exit_failure

abbrev pub err_sys {ℓ} : {A : Type ℓ} → Bytes → ℕ → Proc A
err_sys text errno = call (perror text errno) >> exit exit_failure

abbrev pub maxline : ℕ
maxline = 4096

-- One read, and whether fputs could write what it gave.
pub record Piece : Type 0 where
  pub read : ReadResult
  pub shown : Bool
  pub errno : ℕ

-- The loop over the reads of one connection; `k` is what follows it.
unfoldable pub receive : Bytes → List Piece → (Bytes → Proc ℕ) → Proc ℕ
receive recvline [] k = ([], blocked)
receive recvline (p ∷ ps) k = elim p.read [
  | failed errno ↦ err_sys (codes "read error") errno
  | got [] ↦ k recvline
  | got (c ∷ cs) ↦ do
    let filled = overwrite ((c ∷ cs) ++ 0 ∷ []) recvline
    let rest = receive filled ps k
    text ← checked (c_str filled)
    call (print stdout_fileno text)
    if p.shown then rest else err_sys (codes "fputs error") p.errno
]

pub record Contact : Type 0 where
  pub socket : Answer
  pub connected : Answer
  pub pieces : List Piece

-- One connection. `addr` is what inet_pton made of the text `ip`.
unfoldable pub contact : Bytes → Option ℕ → ℕ → Bytes → Contact → (Bytes → Proc ℕ) → Proc ℕ
unfolding receive
contact ip none port recvline c k =
    if is_error c.socket
    then err_sys (codes "socket error") c.socket.errno
    else err_quit (codes "inet_pton error for " ++ ip)
contact ip (some addr) port recvline c k =
    if is_error c.socket then err_sys (codes "socket error") c.socket.errno else (do
      call (
          connect (descriptor c.socket)
            (record { family = af_inet; port = htons port; addr = addr }))
      if is_error c.connected
          then err_sys (codes "connect error") c.connected.errno
          else receive recvline c.pieces k)

unfoldable pub contact_loop : Bytes → Option ℕ → ℕ → ℕ → Bytes → List Contact → Proc ℕ
unfolding contact
contact_loop ip addr port zero recvline cs = exit exit_success
contact_loop ip addr port (suc n) recvline [] = ([], blocked)
contact_loop ip addr port (suc n) recvline (c ∷ cs) =
    contact ip addr port recvline c (λ next. contact_loop ip addr port n next cs)

-- daytimetcpcli.c; `pton` is inet_pton for AF_INET
unfoldable pub daytime_main : (Bytes → Option ℕ) → List Bytes → Bytes → List Contact → Proc ℕ
unfolding contact_loop strtoul_int
daytime_main pton (program ∷ ip ∷ port ∷ number ∷ []) recvline cs = do
  call (
      print stdout_fileno (
        codes "PORT: "
        ++ (print_int (strtoul_int port)
            ++ (codes " HTONS " ++ (print_int (htons (strtoul_int port)) ++ codes "\n")))))
  contact_loop ip (pton ip) (strtoul_int port) (strtoul_int number) recvline cs
daytime_main pton words recvline cs =
    err_quit (codes "usage: a.out <IPaddress> <Port> <Connections>")

-- argv[3] of a command line, a null pointer behind its last word
unfoldable pub fourth : List Bytes → Option Bytes
fourth (a ∷ b ∷ c ∷ d ∷ rest) = some d
fourth words = none

-- daytimetcpcli_2c.c: of three words the fourth is read as a number.
unfoldable pub count_of : Option Bytes → Proc ℕ
unfolding strtoul_int
count_of none = fault null_pointer
count_of (some number) = pure (strtoul_int number)

unfoldable pub daytime_2c_main : (Bytes → Option ℕ) → List Bytes → Bytes → List Contact → Proc ℕ
unfolding contact_loop fourth count_of
daytime_2c_main pton (program ∷ ip ∷ number ∷ []) recvline cs = do
  n ← count_of (fourth (program ∷ ip ∷ number ∷ []))
  contact_loop ip (pton ip) 13 n recvline cs
daytime_2c_main pton words recvline cs = err_quit (codes "usage: a.out <IPaddress> <Connections>")

-- daytimetcpsrv1.c, one client: what Accept returned, its address and port, and the text of ctime.
pub record Visitor : Type 0 where
  pub accepted : Answer
  pub addr : ℕ
  pub port : ℕ
  pub time : Bytes
  pub wrote : Answer

unfoldable pub tell_time : Visitor → Proc ℕ → Proc ℕ
tell_time v loop = do
  call (
      print stdout_fileno (
        codes "connection from "
        ++ (dotted v.addr ++ (codes ", port " ++ (print_int (htons v.port) ++ codes "\n")))))
  call (write (descriptor v.accepted) (take 24 v.time ++ codes "\r\n"))
  if is_error v.wrote
      then err_sys (codes "write error") v.wrote.errno
      else (do call (close (descriptor v.accepted)); loop)

unfoldable pub visitor_loop : List Visitor → Proc ℕ
unfolding tell_time
visitor_loop [] = ([], blocked)
visitor_loop (v ∷ vs) =
    let loop = visitor_loop vs in
    if is_error v.accepted
    then err_sys (codes "accept error") v.accepted.errno
    else tell_time v loop

unfoldable pub daytime_port : ℕ → Answer → Answer → List Visitor → Proc ℕ
unfolding visitor_loop any_address
daytime_port port socket bound vs = do
  call (
      print stdout_fileno (
        codes "PORT: "
        ++ (print_int port ++ (codes " HTONS " ++ (print_int (htons port) ++ codes "\n")))))
  if is_error socket then err_sys (codes "socket error") socket.errno else (do
    call (bind (descriptor socket) (any_address port))
    if is_error bound
        then err_sys (codes "bind error") bound.errno
        else (do call (listen (descriptor socket) 1024); visitor_loop vs))

unfoldable pub daytime_server_main : List Bytes → Answer → Answer → List Visitor → Proc ℕ
unfolding daytime_port strtoul_int
daytime_server_main (program ∷ port ∷ []) socket bound vs =
    daytime_port (strtoul_int port) socket bound vs
daytime_server_main (program ∷ rest) socket bound vs = do
  call (print stderr_fileno (codes "usage: " ++ (program ++ codes " port\n")))
  exit exit_failure
daytime_server_main [] socket bound vs = fault null_pointer
