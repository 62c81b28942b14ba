-- ===== src/StandardEcho.antt =====
-- week4/teht2.c: a client of the standard echo service.
pub mod Replies
use posix_network_programmin.Prelude.{
  ℕ, Bool, List, [], ◌∷◌, ◌++◌, Option, none, some, if◌then◌else◌, codes,
}
use posix_network_programmin.Cstring.{Bytes, fresh, c_str, overwrite}
use posix_network_programmin.Posix.{
  Proc, blocked, pure, call, exit, checked, fault, null_pointer, ◌>>=◌, ◌>>◌, ReadResult, got,
  failed, write, print, perror, connect, Answer, is_error, descriptor, stdout_fileno, stderr_fileno,
  exit_failure,
}
use posix_network_programmin.Posix.Accept.{dotted}

-- One turn: the line that fgets gave, none at the end of the input (then the array is all NULs), what
-- write returned, and what was read.
pub record Echoed : Type 0 where
  pub line : Option Bytes
  pub wrote : Answer
  pub reply : ReadResult

abbrev line_array : Option Bytes → Bytes
line_array none = fresh 256
line_array (some line) = overwrite (line ++ 0 ∷ []) (fresh 256)

unfoldable pub print_reply : Bytes → ReadResult → Proc (Unit {0})
print_reply buffer (failed errno) = do call (perror (codes "read\n") errno); exit exit_failure
print_reply buffer (got bytes) = do
  text ← checked (c_str (overwrite bytes buffer))
  call (print stdout_fileno (text ++ codes "\n"))

unfoldable pub ask : ℕ → Echoed → Proc (Unit {0})
unfolding print_reply
ask sockfd x = do
  let buffer = line_array x.line
  text ← checked (c_str buffer)
  call (write sockfd text)
  if is_error x.wrote
      then (do call (perror (codes "write\n") x.wrote.errno); exit exit_failure)
      else print_reply buffer x.reply

unfoldable pub ask_loop : ℕ → List Echoed → Proc (Unit {0})
unfolding ask
ask_loop sockfd [] = ([], blocked)
ask_loop sockfd (x ∷ xs) = ask sockfd x >> ask_loop sockfd xs

-- What gethostbyname gives: the type of the address, the address as stored, and the chars that printf
-- finds there, for it is handed the bytes of the address as a string.
pub record Found : Type 0 where
  pub addrtype : ℕ
  pub addr : ℕ
  pub as_string : Bytes

unfoldable pub ask_host : ℕ → Found → Answer → Answer → List Echoed → Proc (Unit {0})
unfolding ask_loop
ask_host port h socket connected xs = do
  call (
      print stdout_fileno
        (codes "Host adress: " ++ (h.as_string ++ (codes " Ip adress: " ++ dotted h.addr))))
  if is_error socket
      then (do call (perror (codes "socket\n") socket.errno); exit exit_failure)
      else (do
        call (
            connect (descriptor socket)
              (record { family = h.addrtype; port = port; addr = h.addr }))
        if is_error connected
            then (do call (perror (codes "connect\n") connected.errno); exit exit_failure)
            else ask_loop (descriptor socket) xs)

-- `service` is the port of getservbyname, in network byte order.
unfoldable pub ask_service :
    Bytes → Bytes → Option ℕ → Option Found → Answer → Answer → List Echoed → Proc (Unit {0})
unfolding ask_host
ask_service program host none found socket connected xs = do
  call (print stderr_fileno (program ++ codes ": no echo service on this host\n"))
  exit exit_failure
ask_service program host (some port) none socket connected xs = do
  call (print stderr_fileno (program ++ (codes ": cannot find host " ++ (host ++ codes "\n"))))
  exit exit_failure
ask_service program host (some port) (some h) socket connected xs =
    ask_host port h socket connected xs

unfoldable pub ask_main :
    List Bytes → Option ℕ → Option Found → Answer → Answer → List Echoed → Proc (Unit {0})
unfolding ask_service
ask_main (program ∷ host ∷ []) service found socket connected xs =
    ask_service program host service found socket connected xs
ask_main (program ∷ rest) service found socket connected xs = do
  call (print stderr_fileno (codes "usage: " ++ (program ++ codes " hostname\n")))
  exit exit_failure
ask_main [] service found socket connected xs = fault null_pointer
