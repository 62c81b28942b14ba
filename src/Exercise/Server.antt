-- ===== src/Exercise/Server.antt =====
-- exercise/exercise.c, `childServer`: a process for each connection. A run of the model is the run of
-- one process, so what follows a fork depends on the side that it returned in.
pub mod Laws
pub mod Connections
use posix_network_programmin.Prelude.{ℕ, List, [], ◌∷◌, ◌++◌, if◌then◌else◌, codes}
use posix_network_programmin.Cstring.{Bytes, print_int}
use posix_network_programmin.Posix.{
  Proc, blocked, pure, call, exit, ◌>>=◌, ◌>>◌, print, bind, listen, close, Answer, is_error,
  descriptor, stdout_fileno, stderr_fileno, exit_success, exit_failure,
}
use posix_network_programmin.Posix.Accept.{
  is_transient, any_address, dotted, Forked, no_process, in_child, in_parent,
}
use posix_network_programmin.Exercise.Connection.{Setup, Session, Turn, serve}

-- One turn of the server loop: what accept and fork return, the peer, and the process number that
-- getpid gives. The last fields are the life of the connection in the new process.
pub record Arrival : Type 0 where
  pub accepted : Answer
  pub peer : ℕ
  pub forked : Forked
  pub pid : ℕ
  pub locals : Session
  pub turns : List Turn

pub record Logs : Type 0 where
  pub logfd : ℕ
  pub respfd : ℕ
  pub srcpath : Bytes

abbrev with_errno : Bytes → ℕ → Bytes
with_errno text errno = text ++ (print_int errno ++ codes " \n")

-- The new process: the listening socket is closed, the connection served, and the function left.
unfoldable pub in_new_process : ℕ → Logs → Arrival → Proc ℕ
in_new_process listenfd l a = do
  call (close listenfd)
  call (print stdout_fileno (codes "\nIP: " ++ (dotted a.peer ++ codes "\n")))
  result ←
      serve
        (record {
          sockfd = descriptor a.accepted;
          logfd = l.logfd;
          respfd = l.respfd;
          client_ip = a.peer;
          srcpath = l.srcpath;
        })
        a.locals a.turns
  pure exit_success

unfoldable pub after_fork : Forked → ℕ → Logs → Arrival → Proc ℕ → Proc ℕ
unfolding in_new_process
after_fork (no_process errno) listenfd l a loop = do
  call (print stderr_fileno (with_errno (codes "Fork failed errno: ") errno))
  loop
after_fork in_child listenfd l a loop = in_new_process listenfd l a
after_fork (in_parent forkpid) listenfd l a loop = do
  call (close (descriptor a.accepted))
  call (print stdout_fileno (codes "Parent PID: " ++ (print_int a.pid ++ codes "\n")))
  call (print stdout_fileno (codes "Connection PID:" ++ (print_int forkpid ++ codes "\n")))
  loop

unfoldable pub not_accepted : ℕ → Proc ℕ → Proc ℕ
unfolding is_transient
not_accepted errno loop = do
  call (print stderr_fileno (with_errno (codes "Error accepting connection errno: ") errno))
  if is_transient errno then loop else exit exit_failure

-- The server loop over the arrivals to come; at their end the process waits in accept.
unfoldable pub accept_loop : ℕ → Logs → List Arrival → Proc ℕ
unfolding not_accepted after_fork
accept_loop listenfd l [] = ([], blocked)
accept_loop listenfd l (a ∷ rest) =
    let loop = accept_loop listenfd l rest in
    if is_error a.accepted
    then not_accepted a.accepted.errno loop
    else after_fork a.forked listenfd l a loop

unfoldable pub child_server : ℕ → Logs → Answer → Answer → List Arrival → Proc ℕ
unfolding accept_loop any_address
child_server port l socket bound arrivals =
    if is_error socket
    then (do
      call (print stderr_fileno (with_errno (codes "Error creating socket. Errno: ") socket.errno))
      exit exit_failure)
    else (do
      call (bind (descriptor socket) (any_address port))
      if is_error bound
          then (do
            call (
                print stderr_fileno
                  (with_errno (codes "Error binding local address Errno: ") bound.errno))
            exit exit_failure)
          else (do
            call (listen (descriptor socket) 20)
            accept_loop (descriptor socket) l arrivals))
