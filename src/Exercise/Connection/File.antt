-- ===== src/Exercise/Connection/File.antt =====
-- The F command within a connection.
use posix_network_programmin.Prelude.{
  ℕ, ◌<◌, ◌^◌, ◌≡◌, ◌≢◌, refl, [], ◌∷◌, ◌++◌, Option, length, codes, ne→==, arith,
}
use posix_network_programmin.Cstring.{Bytes, decimal}
use posix_network_programmin.Posix.{written, ◌>>=◌, pure, exit_success}
use posix_network_programmin.Posix.Emits.{Emits, Emits-bind, Emits-then, Emits-pure, quiet_print}
use posix_network_programmin.Exercise.Split.{line_size}
use posix_network_programmin.Exercise.Split.Laws.{IsWord}
use posix_network_programmin.Exercise.Reply.{Answers, eof_char, filetransfer}
use posix_network_programmin.Exercise.Reply.Transfer.{
  command, Succeeds, last_char, filetransfer_lem,
}
use posix_network_programmin.Exercise.Connection.{Setup, Session, again, on_file, log_buffer}
use posix_network_programmin.Exercise.Connection.Invariant.{IsLeft, IsMessage}
use posix_network_programmin.Exercise.Connection.Echo.{Handled}
use posix_network_programmin.Exercise.Connection.Others.{log_buffer-Emits}

-- A message "F <path> <port>" for which every call is successful, the file being there.
pub record IsFileCommand (sockfd : ℕ) (a : Answers) (m content : Bytes) : Type 0 where
  pub path : Bytes
  pub port : ℕ
  pub fd : ℕ
  pub shape : m ≡ command path port
  pub word : IsWord 0x20 path
  pub port_bound : port < 2 ^ 16
  pub short : length (command path port) < line_size
  pub succeeds : Succeeds a path content fd
  pub apart : fd ≢ sockfd
  pub last : last_char a.ch content ≢ eof_char

filetransfer-Emits :
    (sockfd client_ip : ℕ) (a : Answers) (m content rest : Bytes)
    → IsFileCommand sockfd a m content
    → Emits sockfd
        ((decimal (length content) ++ codes "\n") ∷ [])
        exit_success
        (filetransfer sockfd (m ++ 0 ∷ rest) client_ip a)
unfolding written
filetransfer-Emits sockfd client_ip a m content rest f =
    let lem =
      filetransfer_lem sockfd client_ip f.fd f.port f.path content rest a f.word f.port_bound
        f.short f.succeeds f.last in
    rw (f.shape, lem, ne→== f.fd sockfd f.apart) (ground arith, refl)

pub on_file-Handled :
    (e : Setup) (log_apart : e.logfd ≢ e.sockfd) (a : Answers) (p : Option Bytes)
    (m content rest : Bytes) (s : Session)
    → IsMessage m
    → IsFileCommand e.sockfd a m content
    → s.buffer ≡ m ++ 0 ∷ rest
    → IsLeft p s
    → Handled e p ((decimal (length content) ++ codes "\n") ∷ []) (on_file e a s)
unfolding on_file
on_file-Handled e log_apart a p m content rest s ok f read left =
    let sent : Emits e.sockfd ((decimal (length content) ++ codes "\n") ∷ []) exit_success
        (filetransfer e.sockfd s.buffer e.client_ip a) =
      rw read (filetransfer-Emits e.sockfd e.client_ip a m content rest f) in
    let answer =
      Emits-then e.sockfd (filetransfer e.sockfd s.buffer e.client_ip a) (λ _. pure (again s)) sent
        (Emits-pure e.sockfd (again s)) in
    (
      s,
      quiet_print e.sockfd e.logfd _ _ (
          Emits-bind e.sockfd (log_buffer e s)
            (λ _. filetransfer e.sockfd s.buffer e.client_ip a >>= λ _. pure (again s))
            (log_buffer-Emits e log_apart m rest s ok.text read) answer),
      left,
    )
