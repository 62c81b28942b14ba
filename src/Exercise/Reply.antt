-- ===== src/Exercise/Reply.antt =====
-- exercise/exercise.c: `echoer`, `getsrcfldr` and `filetransfer`, the answers to one command.
pub mod Echo
pub mod Transfer
use mathlib.Core.Option
use posix_network_programmin.Prelude.{
  ℕ, zero, suc, ◌+◌, Bool, ◌||◌, List, [], ◌∷◌, ◌++◌, map, Option, none, some, ltb, ◌==◌,
  if◌then◌else◌, length, take, codes,
}
use posix_network_programmin.Cstring.{
  Bytes, fresh, c_str, strcpy, strcat, strncpy, is_upper, to_upper, decimal, print_int, atol_int,
}
use posix_network_programmin.Posix.{
  SockAddr, Proc, returned, pure, call, exit, checked, ◌>>=◌, ◌>>◌, write, print, connect, close,
  Answer, is_error, is_error_or_zero, descriptor, htons, af_inet, stdout_fileno, stderr_fileno,
  exit_success, exit_failure,
}
use posix_network_programmin.Exercise.Split.{split, entry}

abbrev pub max_buffer : ℕ
max_buffer = 2048

abbrev pub write_failed : ℕ → Bytes
write_failed errno = codes "Write failed errno: " ++ (print_int errno ++ codes " \n")

-- The loop body: capitals are passed over, every other char is raised.
unfoldable pub raise : ℕ → ℕ
unfolding is_upper to_upper
raise c = if is_upper c then c else to_upper c

-- `echoer(line, size, sockfd, logfd)`; `sent` is what the first write returns.
unfoldable pub echoer : Bytes → ℕ → ℕ → ℕ → Answer → Proc ℕ
unfolding strncpy
echoer line size sockfd logfd sent = do
  copied ← checked (strncpy (fresh (max_buffer + 1)) line size)
  let buffer = map raise copied
  call (write sockfd (take size buffer))
  if is_error_or_zero sent
      then (do
        call (print stderr_fileno (write_failed sent.errno))
        call (print logfd (write_failed sent.errno))
        pure exit_failure)
      else (do call (write logfd (take size buffer)); pure exit_success)

-- strcpy(buffer, SRCPATH) and strcat(buffer, "\n"), on a local array
unfoldable pub add_newline : Bytes → Option Bytes
unfolding Option.bind
add_newline srcpath =
    Option.bind (strcpy (fresh max_buffer) srcpath) (λ path. strcat path (codes "\n" ++ 0 ∷ []))

-- `getsrcfldr(sockfd, logfd)`, with the global `SRCPATH` as an argument
unfoldable pub getsrcfldr : Bytes → ℕ → ℕ → Answer → Proc ℕ
unfolding add_newline
getsrcfldr srcpath sockfd logfd sent = do
  buffer ← checked (add_newline srcpath)
  line ← checked (c_str buffer)
  call (write sockfd line)
  if is_error_or_zero sent
      then (do
        call (print stderr_fileno (write_failed sent.errno))
        call (print logfd (write_failed sent.errno))
        pure exit_failure)
      else (do call (write logfd line); pure exit_success)

-- EOF, stored in a char (which is signed)
abbrev pub eof_char : ℕ
eof_char = 0xff

abbrev fgetc : Bytes → ℕ
fgetc [] = eof_char
fgetc (c ∷ cs) = c

abbrev rest_of : Bytes → Bytes
rest_of [] = []
rest_of (c ∷ cs) = cs

-- `for (i = 0; (ch == EOF || i < filesize); i++) { ch = fgetc(file); filebuf[i] = ch; }`
-- The first argument counts the cells of `filebuf` from `i` on; `out` is what stands before `i`.
-- `i` is an int: the files are taken to be below 2^31 bytes, and `filebuf` to fit the stack.
unfoldable pub copy_loop : ℕ → ℕ → ℕ → ℕ → Bytes → Bytes → Option Bytes
copy_loop zero filesize i ch file out = if ch == eof_char || ltb i filesize then none else some out
copy_loop (suc room) filesize i ch file out =
    let next =
      copy_loop room filesize (i + 1) (fgetc file) (rest_of file) (out ++ fgetc file ∷ []) in
    if ch == eof_char || ltb i filesize then next else some out

-- What the kernel and the library answer while one command is handled.
pub record Answers : Type 0 where
  pub allocated : Bool  -- malloc in `split`
  pub sent : Answer  -- write to the client
  pub socket : Answer
  pub connected : Answer
  pub file : Bytes → Option Bytes  -- fopen: the content of the file with this name
  pub ch : ℕ  -- first value of the variable `ch`, which nothing initialises

unfoldable pub send_file : ℕ → ℕ → Bytes → Answers → Proc ℕ
send_file sockfd fd content a = do
  let filesize = length content
  call (write sockfd (decimal filesize ++ codes "\n"))
  if is_error a.sent
      then (do
        call (
            print stderr_fileno
              (codes "Read failed errno: " ++ (print_int a.sent.errno ++ codes " \n")))
        pure exit_failure)
      else (do
        filebuf ← checked (copy_loop (filesize + 1) filesize 0 a.ch content [])
        call (
            print stdout_fileno
              (codes "Filetransfer read " ++ (print_int (length filebuf) ++ codes " bytes\n")))
        call (write fd filebuf)
        call (close fd)
        pure exit_success)

unfoldable pub open_file : ℕ → ℕ → Answers → Option Bytes → Proc ℕ
open_file sockfd fd a none = do
  call (print stdout_fileno (codes "File Not Found!\n"))
  pure exit_failure
open_file sockfd fd a (some content) = send_file sockfd fd content a

-- `filetransfer(sockfd, buffer, clientIp)`
unfoldable pub filetransfer : ℕ → Bytes → ℕ → Answers → Proc ℕ
unfolding entry open_file
filetransfer sockfd buffer client_ip a = do
  result ← split a.allocated buffer 0x20
  name ← entry result 1
  copied ← checked (strcpy (fresh (max_buffer + 1)) (name ++ 0 ∷ []))
  path ← checked (c_str copied)
  number ← entry result 2
  let port = atol_int number
  call (print stdout_fileno (codes "Filetransfer port :" ++ (print_int port ++ codes "\n")))
  if is_error a.socket
      then (do
        call (
            print stderr_fileno (
              codes "Filetransfer socket error Errno: "
              ++ (print_int a.socket.errno ++ codes "\n")))
        exit exit_failure)
      else (do
        call (
            connect (descriptor a.socket)
              (record { family = af_inet; port = htons port; addr = client_ip }))
        if is_error a.connected
            then (do
              call (
                  print stderr_fileno (
                    codes "Filetransfer connect errno:"
                    ++ (print_int a.connected.errno ++ codes "\n")))
              exit exit_failure)
            else open_file sockfd (descriptor a.socket) a (a.file path))
