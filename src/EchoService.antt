-- ===== src/EchoService.antt =====
-- week4/teht6_server.c and teht6_client.c: a service that sends back what it reads, in a process for
-- each connection, and its client. Exits and returns of `main` are not told apart.
pub mod Server
pub mod Client
pub mod Stream
pub mod World
pub mod Whole
mod Tests
use posix_network_programmin.Prelude.{
  ℕ, Bool, List, [], ◌∷◌, ◌++◌, Option, none, some, ◌==◌, if◌then◌else◌, length, take, codes,
}
use posix_network_programmin.Cstring.{
  Bytes, fresh, c_str, overwrite, print_int, atol_int, strtoul_int,
}
use posix_network_programmin.Posix.{
  Effect, Proc, blocked, pure, call, exit, checked, fault, null_pointer, ◌>>=◌, ◌>>◌, ReadResult,
  got, failed, write, print, perror, bind, listen, close, connect, Answer, is_error, descriptor,
  htons, stdout_fileno, stderr_fileno, exit_success, exit_failure,
}
use posix_network_programmin.Posix.Accept.{
  is_transient, any_address, dotted, Forked, no_process, in_child, in_parent,
}

abbrev pub eintr : ℕ
eintr = 4

abbrev errno_line : Bytes → ℕ → Bytes
errno_line text errno = text ++ (print_int errno ++ codes " \n")

-- `echoer`: a read that a signal interrupted is made again.
unfoldable pub echo_back : ℕ → Bytes → List ReadResult → Proc (Unit {0})
echo_back sockfd buffer [] = ([], blocked)
echo_back sockfd buffer (failed errno ∷ rest) =
    let again = echo_back sockfd buffer rest in
    if errno == eintr
    then again
    else call (print stderr_fileno (errno_line (codes "Read failed errno: ") errno))
echo_back sockfd buffer (got [] ∷ rest) = pure tt
echo_back sockfd buffer (got (c ∷ cs) ∷ rest) =
    let filled = overwrite (c ∷ cs) buffer in
    call (write sockfd (take (length (c ∷ cs)) filled)) >> echo_back sockfd filled rest

-- One turn of the server loop, and the reads of the new process.
pub record Caller : Type 0 where
  pub accepted : Answer
  pub forked : Forked
  pub pid : ℕ
  pub reads : List ReadResult

unfoldable pub serve_caller : ℕ → Caller → Proc ℕ
unfolding echo_back
serve_caller listenfd a = do
  call (close listenfd)
  echo_back (descriptor a.accepted) (fresh 256) a.reads
  pure exit_success

unfoldable pub after_caller : Forked → ℕ → Caller → Proc ℕ → Proc ℕ
unfolding serve_caller
after_caller (no_process errno) listenfd a loop = do
  call (print stderr_fileno (errno_line (codes "Fork failed errno: ") errno))
  loop
after_caller in_child listenfd a loop = serve_caller listenfd a
after_caller (in_parent forkpid) listenfd a loop = do
  call (close (descriptor a.accepted))
  call (print stdout_fileno (codes "Parent PID: " ++ (print_int a.pid ++ codes "\n")))
  call (print stdout_fileno (codes "Connection PID:" ++ (print_int forkpid ++ codes "\n")))
  loop

unfoldable pub no_caller : ℕ → Proc ℕ → Proc ℕ
unfolding is_transient
no_caller errno loop = do
  call (print stderr_fileno (errno_line (codes "Error accepting connection errno: ") errno))
  if is_transient errno then loop else exit exit_failure

unfoldable pub caller_loop : ℕ → List Caller → Proc ℕ
unfolding no_caller after_caller
caller_loop listenfd [] = ([], blocked)
caller_loop listenfd (a ∷ rest) =
    let loop = caller_loop listenfd rest in
    if is_error a.accepted
    then no_caller a.accepted.errno loop
    else after_caller a.forked listenfd a loop

-- `main` behind the reading of its arguments; `port` is an unsigned int, and its test for a negative
-- value always fails.
unfoldable pub serve_port : ℕ → Answer → Answer → List Caller → Proc ℕ
unfolding caller_loop any_address
serve_port port socket bound callers =
    if is_error socket
    then (do
      call (print stderr_fileno (errno_line (codes "Error creating socket. Errno: ") socket.errno))
      exit exit_failure)
    else (do
      call (
          print stdout_fileno (
            codes "PORT: "
            ++ (print_int port ++ (codes " HTONS " ++ (print_int (htons port) ++ codes "\n")))))
      call (bind (descriptor socket) (any_address port))
      if is_error bound
          then (do
            call (
                print stderr_fileno
                  (errno_line (codes "Error binding local address Errno: ") bound.errno))
            exit exit_failure)
          else (do call (listen (descriptor socket) 5); caller_loop (descriptor socket) callers))

unfoldable pub server_main : List Bytes → Answer → Answer → List Caller → Proc ℕ
unfolding serve_port strtoul_int
server_main (program ∷ port ∷ []) socket bound callers =
    serve_port (strtoul_int port) socket bound callers
server_main (program ∷ rest) socket bound callers = do
  call (print stderr_fileno (codes "usage: " ++ (program ++ codes " port\n")))
  exit exit_failure
server_main [] socket bound callers = fault null_pointer

-- The client, behind `connect`. One turn: the line that fgets gave, none at the end of the input (then
-- the array is all NULs), what send returned, and what was read.
pub record Exchange : Type 0 where
  pub line : Option Bytes
  pub sent : Answer
  pub reply : ReadResult

abbrev typed : Option Bytes → Bytes
typed none = fresh 256
typed (some line) = overwrite (line ++ 0 ∷ []) (fresh 256)

unfoldable pub show_reply : Bytes → ReadResult → Proc (Unit {0})
show_reply buffer (failed errno) = do call (perror (codes "read\n") errno); exit exit_failure
show_reply buffer (got bytes) = do
  text ← checked (c_str (overwrite bytes buffer))
  call (print stdout_fileno (text ++ codes "\n"))

unfoldable pub exchange : ℕ → Exchange → Proc (Unit {0})
unfolding show_reply
exchange sockfd x = do
  let buffer = typed x.line
  text ← checked (c_str buffer)
  call (write sockfd text)
  if is_error x.sent
      then (do call (close sockfd); call (perror (codes "write\n") x.sent.errno); exit exit_failure)
      else show_reply buffer x.reply

unfoldable pub exchanges : ℕ → List Exchange → Proc (Unit {0})
unfolding exchange
exchanges sockfd [] = ([], blocked)
exchanges sockfd (x ∷ xs) = exchange sockfd x >> exchanges sockfd xs

-- What gethostbyname gives: the type of the address, and the address as stored.
pub record Named : Type 0 where
  pub addrtype : ℕ
  pub addr : ℕ

unfoldable pub dial : ℕ → Bytes → Bytes → Named → Answer → Answer → List Exchange → Proc (Unit {0})
unfolding exchanges
dial port host port_word h socket connected xs = do
  call (
      print stdout_fileno (
        codes "Host adress: " ++ (host ++ (codes " Ip adress: " ++ (dotted h.addr ++ codes "\n")))))
  call (
      print stdout_fileno (
        codes "Port: "
        ++ (port_word ++ (codes " HTONS: " ++ (print_int (htons port) ++ codes "\n")))))
  if is_error socket
      then (do call (perror (codes "socket\n") socket.errno); exit exit_failure)
      else (do
        call (
            connect (descriptor socket)
              (record { family = h.addrtype; port = htons port; addr = h.addr }))
        if is_error connected
            then (do call (perror (codes "connect\n") connected.errno); exit exit_failure)
            else exchanges (descriptor socket) xs)

unfoldable pub find_named :
    Bytes → Bytes → Bytes → Option Named → Answer → Answer → List Exchange → Proc (Unit {0})
unfolding dial atol_int
find_named program host port none socket connected xs = do
  call (print stderr_fileno (program ++ (codes ": cannot find host " ++ (host ++ codes "\n"))))
  exit exit_failure
find_named program host port (some h) socket connected xs =
    dial (atol_int port) host port h socket connected xs

unfoldable pub client_main :
    List Bytes → Option Named → Answer → Answer → List Exchange → Proc (Unit {0})
unfolding find_named
client_main (program ∷ host ∷ port ∷ []) found socket connected xs =
    find_named program host port found socket connected xs
client_main (program ∷ rest) found socket connected xs = do
  call (print stderr_fileno (codes "usage: " ++ (program ++ codes " <hostname> <port>\n")))
  exit exit_failure
client_main [] found socket connected xs = fault null_pointer
