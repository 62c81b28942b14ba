-- ===== src/Exercise/Client.antt =====
-- exercise/exercise.c, `main` and `handle_signals`: the dialog with the UNIX_TL service, which at its
-- fifth message starts the server in a new process.
pub mod Port
pub mod Turns
pub mod Dialog
pub mod Whole
pub mod Output
pub mod Greets
pub mod Failures
pub mod Signals
use posix_network_programmin.Prelude.{
  ℕ, suc, ◌+◌, ◌%◌, Bool, Option, none, some, List, [], ◌∷◌, ◌++◌, ◌==◌, if◌then◌else◌, codes,
}
use posix_network_programmin.Cstring.{
  Bytes, fresh, c_str, overwrite, clear, strcat, print_int, atol_int, int_mod,
}
use posix_network_programmin.Posix.{
  SockAddr, Effect, Proc, blocked, pure, call, exit, checked, fault, null_pointer, ◌>>=◌, ◌>>◌,
  ReadResult, got, failed, write, print, perror, connect, close, wait, create, on_signal, Answer,
  is_error, descriptor, stdout_fileno, stderr_fileno, exit_success, exit_failure,
}
use posix_network_programmin.Posix.Accept.{Forked, no_process, in_child, in_parent}
use posix_network_programmin.Exercise.Split.{split, entry}
use posix_network_programmin.Exercise.Reply.{max_buffer}
use posix_network_programmin.Exercise.Server.{Arrival, Logs, child_server}

-- One turn of the loop in `main`. The last fields are the life of the server, where fork returns in
-- the new process: what socket and bind return there, and the arrivals.
pub record Message : Type 0 where
  pub input : ReadResult
  pub allocated : Bool
  pub forked : Forked
  pub socket : Answer
  pub bound : Answer
  pub arrivals : List Arrival

-- The descriptors of `main`, and the path on its command line.
pub record Client : Type 0 where
  pub sockfd : ℕ
  pub logs : Logs

unfoldable pub say : ℕ → Bytes → Proc (Unit {0})
say sockfd text = do call (write sockfd text); call (write stdout_fileno text)

-- `if (n == 0)` and `if (n == 1)`
unfoldable pub greet : ℕ → ℕ → Proc (Unit {0})
unfolding say
greet sockfd n =
    if n == 0
    then say sockfd (codes "HELLO\n")
    else if n == 1
    then say sockfd (codes "joonahal\n")
    else pure tt

unfoldable pub start_server : Client → ℕ → Message → Forked → Proc (Unit {0})
start_server c port m (no_process errno) = do
  call (perror (codes "fork\n") errno)
  exit exit_failure
start_server c port m in_child = do
  call (close c.sockfd)
  result ← child_server port c.logs m.socket m.bound m.arrivals
  exit exit_success
start_server c port m (in_parent pid) =
    call (print stdout_fileno (codes "Fork server to port: " ++ (print_int port ++ codes "\n")))

-- `if (n == 4)`: the port is the twelfth word of the message
unfoldable pub read_port : Client → Bytes → Message → Proc (Unit {0})
read_port c buffer m = do
  result ← split m.allocated buffer 0x20
  word ← entry result 11
  let port = atol_int word
  call (print stdout_fileno (codes "\n PORT: " ++ (print_int port ++ codes " \n")))
  start_server c port m m.forked

-- write(STDOUT_FILENO, buffer, strlen(buffer))
unfoldable pub show : Bytes → Proc (Unit {0})
show buffer = do text ← checked (c_str buffer); call (write stdout_fileno text)

-- The last test on `n`, and what follows it up to the memset.
unfoldable pub finish_turn : Client → ℕ → Bytes → Message → Proc (Unit {0})
finish_turn c n buffer m = (if n == 4 then read_port c buffer m else pure tt) >> show buffer

-- One turn on a message that was read.
unfoldable pub turn : Client → ℕ → Bytes → Message → Proc (Unit {0})
turn c n buffer m = greet c.sockfd n >> finish_turn c n buffer m

unfoldable pub leave : Proc ℕ
leave = do call wait; exit exit_success

-- The end of `main` when a read fails or meets the end of the input; `k` is the turn on its bytes.
unfoldable pub on_input : ReadResult → (Bytes → Proc ℕ) → Proc ℕ
unfolding leave
on_input (failed errno) k = do call (perror (codes "read\n") errno); leave
on_input (got []) k = leave
on_input (got (b ∷ bs)) k = k (b ∷ bs)

-- One turn on the bytes that were read, and the turns after it, on a buffer set to 0.
unfoldable pub after_read : Client → ℕ → Bytes → Message → (Bytes → Proc ℕ) → Bytes → Proc ℕ
after_read c n buffer m loop bytes =
    turn c n (overwrite bytes buffer) m >>= λ _. loop (clear max_buffer (overwrite bytes buffer))

-- The loop. `n` counts the messages from a value that nothing initialises, an int as its pattern.
unfoldable pub dialog : Client → ℕ → Bytes → List Message → Proc ℕ
unfolding after_read
dialog c n buffer [] = ([], blocked)
dialog c n buffer (m ∷ ms) =
    on_input m.input (after_read c n buffer m (λ cleared. dialog c ((n + 1) % int_mod) cleared ms))

-- What the name services return: the port as stored, and a host's address and its type.
pub record Host : Type 0 where
  pub addrtype : ℕ
  pub addr : ℕ

pub record Start : Type 0 where
  pub service : Option ℕ
  pub host : Option Host
  pub socket : Answer
  pub connected : Answer
  pub logfile : Answer
  pub response_file : Answer
  pub n : ℕ
  pub buffer : Bytes

abbrev pub sigint : ℕ
sigint = 2

abbrev pub sigpipe : ℕ
sigpipe = 13

-- From the open sockets on.
unfoldable pub talk : Start → Bytes → List Message → Proc ℕ
unfolding dialog
talk s srcpath ms = do
  call (create (codes "./exercise.log"))
  call (create (codes "./response.log"))
  dialog
      (record {
        sockfd = descriptor s.socket;
        logs = record {
          logfd = descriptor s.logfile;
          respfd = descriptor s.response_file;
          srcpath = srcpath;
        };
      })
      s.n s.buffer ms

unfoldable pub connect_to : Start → ℕ → Host → Bytes → List Message → Proc ℕ
unfolding talk
connect_to s port h srcpath ms = do
  call (print stdout_fileno (codes "Service port: " ++ (print_int port ++ codes "\n")))
  if is_error s.socket
      then (do call (perror (codes "socket\n") s.socket.errno); exit exit_failure)
      else (do
        call (
            connect (descriptor s.socket)
              (record { family = h.addrtype; port = port; addr = h.addr }))
        if is_error s.connected
            then (do call (perror (codes "connect\n") s.connected.errno); exit exit_failure)
            else talk s srcpath ms)

unfoldable pub find_host : Bytes → Start → ℕ → Bytes → Option Host → List Message → Proc ℕ
unfolding connect_to
find_host program s port srcpath none ms = do
  call (print stderr_fileno (program ++ codes ": cannot find host whx-10.cs.helsinki.fi\n"))
  exit exit_failure
find_host program s port srcpath (some h) ms = connect_to s port h srcpath ms

unfoldable pub find_service : Bytes → Start → Bytes → Option ℕ → List Message → Proc ℕ
unfolding find_host
find_service program s srcpath none ms = do
  call (print stderr_fileno (program ++ codes ": no service on this host\n"))
  exit exit_failure
find_service program s srcpath (some port) ms = find_host program s port srcpath s.host ms

-- `main`, on the words of its command line
unfoldable pub main : List Bytes → Start → List Message → Proc ℕ
unfolding find_service
main (program ∷ srcpath ∷ []) s ms = do
  call (on_signal sigpipe)
  call (on_signal sigint)
  find_service program s (srcpath ++ 0 ∷ []) s.service ms
main (program ∷ rest) s ms = do
  call (print stderr_fileno (codes "usage: " ++ (program ++ codes " <relative path to source>\n")))
  exit exit_failure
main [] s ms = fault null_pointer

-- `handle_signals`; `message` has 64 chars.
unfoldable pub add_name : Bytes → Bytes → Proc Bytes
unfolding strcat
add_name message name = checked (strcat message (name ++ 0 ∷ []))

unfoldable pub handle_signals : ℕ → Proc (Unit {0})
unfolding add_name fresh overwrite c_str
handle_signals sig = do
  let message = overwrite (codes "Caugh signal:") (fresh 64)
  piped ← (if sig == sigpipe then add_name message (codes "SIGPIPE\n") else pure message)
  both ← (if sig == sigint then add_name piped (codes "SIGINT\n") else pure piped)
  text ← checked (c_str both)
  call (write stdout_fileno text)
  call wait
  exit exit_success
