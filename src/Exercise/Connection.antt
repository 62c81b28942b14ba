-- ===== src/Exercise/Connection.antt =====
-- exercise/exercise.c, `newConnection`: the commands that arrive on one connection. A command that
-- begins with E is held back until the next message shows whether it was whole.
pub mod Invariant
pub mod Echo
pub mod Others
pub mod Protocol
pub mod File
pub mod Refines
pub mod Overrun
pub mod Calls
pub mod Output
use posix_network_programmin.Prelude.{
  ℕ, suc, ◌+◌, ◌%◌, Bool, List, [], ◌∷◌, ◌++◌, ltb, ◌==◌, if◌then◌else◌, length, codes,
}
use posix_network_programmin.Cstring.{
  Bytes, int_mod, c_str, overwrite, clear, memcpy_at, strcpy, occurs, print_int,
}
use posix_network_programmin.Posix.{
  Proc, returned, blocked, pure, call, checked, ◌>>=◌, ◌>>◌, write, print, close, shutdown,
  kill_parent, ReadResult, got, failed, stdout_fileno, exit_success, exit_failure,
}
use posix_network_programmin.Exercise.Reply.{max_buffer, Answers, echoer, getsrcfldr, filetransfer}

-- The arguments of `newConnection` and the global `SRCPATH`.
pub record Setup : Type 0 where
  pub sockfd : ℕ
  pub logfd : ℕ
  pub respfd : ℕ
  pub client_ip : ℕ
  pub srcpath : Bytes

-- The local variables: both arrays have MAXBUFFER + 1 chars.
pub record Session : Type 0 where
  pub buffer : Bytes
  pub ebuffer : Bytes
  pub esize : ℕ
  pub line : ℕ

-- What a read returned, and what is answered while the message is handled.
pub record Turn : Type 0 where
  pub input : ReadResult
  pub answers : Answers

pub data Next : Type 0 where
  again : Session → Next
  leave : ℕ → Next

abbrev pub sigterm : ℕ
sigterm = 15

abbrev pub o_rdwr : ℕ
o_rdwr = 2

-- dprintf(logfd, "\n%s\n", buffer)
unfoldable pub log_buffer : Setup → Session → Proc (Unit {0})
log_buffer e s = do
  text ← checked (c_str s.buffer)
  call (print e.logfd (codes "\n" ++ (text ++ codes "\n")))

-- The body of `if (esize > 0)`, without the memcpy of the last branch.
unfoldable pub flush : Setup → Answers → ℕ → Session → Proc Session
flush e a size s = do
  sent ← echoer s.ebuffer size e.sockfd e.logfd a.sent
  pure (record s { ebuffer = clear (max_buffer + 1) s.ebuffer; esize = 0 })

-- `esize = read_len; strcpy(ebuffer, buffer)`, and the log
unfoldable pub hold_back : Setup → Bytes → Session → Proc Next
hold_back e message s = do
  ebuffer ← checked (strcpy s.ebuffer s.buffer)
  call (print e.logfd (codes "\nFOUND E!!!!\n"))
  call (write e.logfd message)
  pure (again (record s { ebuffer = ebuffer; esize = length message }))

unfoldable pub on_echo : Setup → Answers → Bytes → Session → Proc Next
on_echo e a message s =
    (if ltb 0 s.esize then flush e a (s.esize + length message) s else pure s)
    >>= hold_back e message

-- `strstr(buffer, "209")`: a goodbye ends the parent process and this one.
unfoldable pub goodbye : Session → Proc Next
goodbye s = do
  text ← checked (c_str s.buffer)
  if occurs (codes "209") text
      then (do
        call (print stdout_fileno (codes "Found Goodbye. Closing the programn\n"))
        call (kill_parent sigterm)
        pure (leave exit_success))
      else pure (again (record s { line = (s.line + 1) % int_mod }))

unfoldable pub on_comment : Setup → Session → Proc Next
on_comment e s = do
  call (print e.logfd (codes "\nComment line:" ++ (print_int s.line ++ codes " \n")))
  log_buffer e s
  goodbye s

unfoldable pub on_code : Setup → Answers → Bytes → Session → Proc Next
on_code e a message s = do
  call (print e.logfd (codes "\nFOUND C!!!!\n"))
  call (write e.logfd message)
  sent ← getsrcfldr e.srcpath e.sockfd e.logfd a.sent
  pure (again s)

unfoldable pub on_file : Setup → Answers → Session → Proc Next
unfolding log_buffer
on_file e a s = do
  call (print e.logfd (codes "\nF\n"))
  log_buffer e s
  sent ← filetransfer e.sockfd s.buffer e.client_ip a
  pure (again s)

unfoldable pub on_accept : Setup → Proc Next
on_accept e = do
  call (print e.logfd (codes "\nA\n"))
  call (print stdout_fileno (codes "Found Accept. Closing the programn\n"))
  call (shutdown o_rdwr e.sockfd)
  call (kill_parent sigterm)
  pure (leave exit_success)

unfoldable pub on_quit : Setup → Proc Next
on_quit e = do
  call (print e.logfd (codes "\nQ\n"))
  call (shutdown o_rdwr e.sockfd)
  call (close e.sockfd)
  pure (leave exit_success)

-- The continuation of a command held back: it is appended to it, and both are echoed.
unfoldable pub join_echo : Setup → Answers → Bytes → Session → Proc Session
join_echo e a message s = do
  ebuffer ← checked (memcpy_at s.esize message s.ebuffer)
  flush e a (s.esize + length message) (record s { ebuffer = ebuffer })

unfoldable pub log_other : Setup → Session → Proc Next
unfolding log_buffer
log_other e s = do call (print e.logfd (codes "\nSOMETHING ELSE\n")); log_buffer e s; pure (again s)

unfoldable pub on_other : Setup → Answers → Bytes → Session → Proc Next
on_other e a message s = (if ltb 0 s.esize then join_echo e a message s else pure s) >>= log_other e

-- The chain of tests on `buffer[0]`, which is the first char of the message.
unfoldable pub dispatch : ℕ → Setup → Answers → Bytes → Session → Proc Next
dispatch c e a message s =
    if c == b'E'
    then on_echo e a message s
    else if c == b'#'
    then on_comment e s
    else if c == b'C'
    then on_code e a message s
    else if c == b'F'
    then on_file e a s
    else if c == b'A'
    then on_accept e
    else if c == b'Q'
    then on_quit e
    else on_other e a message s

-- One turn of the loop on a message that was read, up to the memset at its end.
unfoldable pub handle : Setup → Answers → ℕ → Bytes → Session → Proc Next
unfolding dispatch
handle e a c cs s = do
  call (write e.respfd (c ∷ cs))
  dispatch c e a (c ∷ cs) (record s { buffer = overwrite (c ∷ cs) s.buffer })

abbrev pub wipe : Session → Session
wipe s = record s { buffer = clear max_buffer s.buffer }

-- What follows a turn: the memset and the next turn, or the end.
abbrev pub resume : (Session → Proc ℕ) → Next → Proc ℕ
resume k (again s) = k (wipe s)
resume k (leave n) = pure n

-- `newConnection`. The list holds the turns to come; at its end the process waits in `read`.
unfoldable pub serve : Setup → Session → List Turn → Proc ℕ
serve e s [] = ([], blocked)
serve e s (t ∷ ts) = elim t.input [
  | failed errno ↦ do
    call (print e.logfd (codes "Read failed errno: " ++ (print_int errno ++ codes " \n")))
    pure exit_failure
  | got [] ↦ pure exit_failure
  | got (c ∷ cs) ↦ handle e t.answers c cs s >>= resume (λ s'. serve e s' ts)
]
