-- ===== src/LineService.antt =====
-- week5/teht3_server.c and teht3_client.c: a server that prints what its clients send, one client after
-- the other, and a client that sends what it reads.
pub mod Remains
pub mod Peers
mod Tests
use posix_network_programmin.Prelude.{
  ℕ, ◌+◌, ◌/◌, ◌%◌, Bool, List, [], ◌∷◌, ◌++◌, Option, none, some, leb, if◌then◌else◌, length, take,
  codes,
}
use posix_network_programmin.Cstring.{
  Bytes, fresh, c_str, overwrite, clear, memcpy_at, decimal, print_int, strtoul_int,
}
use posix_network_programmin.Posix.{
  Proc, blocked, pure, call, exit, checked, fault, null_pointer, out_of_bounds, ◌>>=◌, ◌>>◌,
  ReadResult, got, failed, write, print, bind, listen, connect, on_signal, Answer, is_error,
  descriptor, htons, af_inet, stdout_fileno, stderr_fileno, exit_success, exit_failure,
}
use posix_network_programmin.Posix.Accept.{is_transient, any_address, dotted}

-- One client: what accept returned, the address and port (in network order) that it came from, and what
-- is read from it.
pub record Peer : Type 0 where
  pub accepted : Answer
  pub addr : ℕ
  pub port : ℕ
  pub reads : List ReadResult

abbrev errno_line : Bytes → ℕ → Bytes
errno_line text errno = text ++ (print_int errno ++ codes " \n")

-- The inner loop, one turn and all of it; its result is the array.
unfoldable pub show_turn : Bytes → Bytes → Proc Bytes
show_turn buffer input = do
  let filled = overwrite input buffer
  text ← checked (c_str filled)
  call (write stdout_fileno text)
  pure (clear 1024 filled)

unfoldable pub show_loop : Bytes → List ReadResult → Proc Bytes
show_loop buffer [] = ([], blocked)
show_loop buffer (failed errno ∷ rest) = pure buffer
show_loop buffer (got [] ∷ rest) = pure buffer
show_loop buffer (got (c ∷ cs) ∷ rest) = show_turn buffer (c ∷ cs) >>= λ next. show_loop next rest

-- A client that was accepted: inet_ntop writes its address to `buffer`, the array of the reads.
unfoldable pub show_peer : Bytes → Peer → Proc Bytes
unfolding show_loop
show_peer buffer p = do
  call (
      print stdout_fileno (
        codes "connection from "
        ++ (dotted p.addr ++ (codes ", port " ++ (print_int (htons p.port) ++ codes "\n")))))
  show_loop (overwrite (dotted p.addr ++ 0 ∷ []) buffer) p.reads

unfoldable pub no_peer : ℕ → Proc ℕ → Proc ℕ
unfolding is_transient
no_peer errno loop = do
  call (print stderr_fileno (errno_line (codes "Error accepting connection errno: ") errno))
  if is_transient errno then loop else exit exit_failure

-- The server loop. The sockets of the clients are never closed.
unfoldable pub peer_loop : Bytes → List Peer → Proc ℕ
unfolding no_peer show_peer
peer_loop buffer [] = ([], blocked)
peer_loop buffer (p ∷ ps) =
    let refused = peer_loop buffer ps in
    if is_error p.accepted
    then no_peer p.accepted.errno refused
    else (show_peer buffer p >>= λ next. peer_loop next ps)

unfoldable pub show_port : ℕ → Answer → Answer → Bytes → List Peer → Proc ℕ
unfolding peer_loop any_address
show_port port socket bound buffer peers =
    if is_error socket
    then (do
      call (print stderr_fileno (errno_line (codes "Error creating socket. Errno: ") socket.errno))
      exit exit_failure)
    else (do
      call (
          print stdout_fileno (
            codes "PORT: "
            ++ (print_int port ++ (codes " HTONS " ++ (print_int (htons port) ++ codes "\n")))))
      call (bind (descriptor socket) (any_address port))
      if is_error bound
          then (do
            call (
                print stderr_fileno
                  (errno_line (codes "Error binding local address Errno: ") bound.errno))
            exit exit_failure)
          else (do call (listen (descriptor socket) 5); peer_loop buffer peers))

-- `main` of the server, where `buffer` is its array at first
unfoldable pub show_main : List Bytes → Answer → Answer → Bytes → List Peer → Proc ℕ
unfolding show_port strtoul_int
show_main (program ∷ port ∷ []) socket bound buffer peers =
    show_port (strtoul_int port) socket bound buffer peers
show_main (program ∷ rest) socket bound buffer peers = do
  call (print stderr_fileno (codes "usage: " ++ (program ++ codes " port\n")))
  exit exit_failure
show_main [] socket bound buffer peers = fault null_pointer

-- One turn of the client's loop: what the read and the write returned.
pub record Input : Type 0 where
  pub read : ReadResult
  pub wrote : Answer

-- sprintf(buf, "%d", bytes); buf[strlen(buf) + 1] = '\n'
unfoldable pub count_line : ℕ → Bytes → Option Bytes
count_line bytes buf =
    memcpy_at (length (decimal bytes) + 1) (codes "\n") (overwrite (decimal bytes ++ 0 ∷ []) buf)

-- write(STDOUT_FILENO, buf, strlen(buffer)), where `buf` has 100 chars
unfoldable pub show_count : Bytes → Bytes → Proc (Unit {0})
show_count buf text =
    if leb (length text) (length buf)
    then call (write stdout_fileno (take (length text) buf))
    else fault out_of_bounds

unfoldable pub after_write : Bytes → Bytes → Answer → Proc (Bytes × Bytes)
unfolding count_line show_count
after_write filled buf wrote =
    if is_error wrote
    then (do
      call (print stderr_fileno (codes "write errno: " ++ (print_int wrote.errno ++ codes "\n")))
      exit exit_failure)
    else (do
      counted ← checked (count_line (descriptor wrote) buf)
      text ← checked (c_str filled)
      show_count counted text
      pure (clear 1024 filled, counted))

unfoldable pub input_loop : ℕ → Bytes → Bytes → List Input → Proc ℕ
unfolding after_write
input_loop sockfd buffer buf [] = ([], blocked)
input_loop sockfd buffer buf (i ∷ is) = elim i.read [
  | failed errno ↦ pure exit_success
  | got [] ↦ pure exit_success
  | got (c ∷ cs) ↦ do
    let filled = overwrite (c ∷ cs) buffer
    call (write sockfd filled)
    arrays ← after_write filled buf i.wrote
    input_loop sockfd arrays.0 arrays.1 is
]

-- The client's `handle_sigint`, for SIGPIPE: the message goes out with the NUL behind it.
unfoldable pub show_caught : Proc (Unit {0})
show_caught = do call (write stdout_fileno (codes "Caugh signal:" ++ 0 ∷ [])); exit exit_failure

-- From the address on. `pton` is inet_pton for AF_INET: the address as stored, if the text is one; the
-- structure was set to 0, and the result is not looked at. The text is that of the port.
unfoldable pub address_of : (Bytes → Option ℕ) → Bytes → ℕ
address_of pton text = elim (pton text) [ none ↦ 0 | some addr ↦ addr ]

unfoldable pub dial_port :
    (Bytes → Option ℕ) → Bytes → Answer → Answer → Bytes → Bytes → List Input → Proc ℕ
unfolding input_loop address_of strtoul_int
dial_port pton port socket connected buffer buf inputs = do
  call (
      print stdout_fileno (
        codes "PORT: "
        ++ (print_int (strtoul_int port)
            ++ (codes " HTONS " ++ (print_int (htons (strtoul_int port)) ++ codes "\n")))))
  if is_error socket
      then (do call (print stdout_fileno (codes "socket error")); exit exit_failure)
      else (do
        call (
            connect (descriptor socket) (record {
              family = af_inet;
              port = htons (strtoul_int port);
              addr = address_of pton port;
            }))
        if is_error connected
            then (do call (print stdout_fileno (codes "connect error")); exit exit_failure)
            else input_loop (descriptor socket) buffer buf inputs)

unfoldable pub dial_main :
    (Bytes → Option ℕ) → List Bytes → Answer → Answer → Bytes → Bytes → List Input → Proc ℕ
unfolding dial_port
dial_main pton (program ∷ ip ∷ port ∷ []) socket connected buffer buf inputs = do
  call (on_signal 13)
  dial_port pton port socket connected buffer buf inputs
dial_main pton (program ∷ rest) socket connected buffer buf inputs = do
  call (on_signal 13)
  call (print stderr_fileno (codes "usage: " ++ (program ++ codes " ip port\n")))
  exit exit_failure
dial_main pton [] socket connected buffer buf inputs = do call (on_signal 13); fault null_pointer
