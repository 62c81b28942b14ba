-- ===== src/Exercise/Connection/Calls.antt =====
-- The calls that `newConnection` can make while it handles a message.
use posix_network_programmin.Prelude.{
  ℕ, zero, suc, Bool, true, false, List, [], ◌∷◌, Option, none, some,
}
use posix_network_programmin.Cstring.{Bytes}
use posix_network_programmin.Posix.{
  Effect, write, print, connect, close, shutdown, kill_parent, SockAddr, descriptor, stdout_fileno,
  stderr_fileno,
}
use posix_network_programmin.Posix.Every.{Every, every_rules}
use posix_network_programmin.Exercise.Split.{split, entry}
use posix_network_programmin.Exercise.Reply.{
  Answers, echoer, getsrcfldr, send_file, open_file, filetransfer,
}
use posix_network_programmin.Exercise.Connection.{
  Setup, Session, flush, hold_back, on_echo, goodbye, on_comment, on_code, on_file, on_quit,
  on_accept, dispatch, join_echo, log_other, on_other, log_buffer,
}

-- A property that holds of the calls of a connection, other than what it records in `respfd` and the
-- signal to its parent.
pub record Allows (P : Effect → Type 0) (e : Setup) (a : Answers) : Type 0 where
  pub shows : (b : Bytes) → P (print stdout_fileno b)
  pub complains : (b : Bytes) → P (print stderr_fileno b)
  pub reports : (b : Bytes) → P (print e.logfd b)
  pub answers : (b : Bytes) → P (write e.sockfd b)
  pub logs : (b : Bytes) → P (write e.logfd b)
  pub sends : (b : Bytes) → P (write (descriptor a.socket) b)
  pub connects : (fd : ℕ) (addr : SockAddr) → P (connect fd addr)
  pub closes : (fd : ℕ) → P (close fd)
  pub shuts : (fd how : ℕ) → P (shutdown fd how)

pub split-Every : (P : Effect → Type 0) (ok : Bool) (b : Bytes) (d : ℕ) → Every P (split ok b d)
unfolding split
split-Every P true b d = search every_rules
split-Every P false b d = search every_rules

pub entry-Every :
    (P : Effect → Type 0) (words : Option (List Bytes)) (i : ℕ) → Every P (entry words i)
unfolding entry
entry-Every P none i = search every_rules
entry-Every P (some []) zero = search every_rules
entry-Every P (some []) (suc i) = search every_rules
entry-Every P (some (t ∷ ts)) zero = search every_rules
entry-Every P (some (t ∷ ts)) (suc i) = entry-Every P (some ts) i

module _ (P : Effect → Type 0) (e : Setup) (a : Answers) (ok : Allows P e a) where
  echoer-Every : (line : Bytes) (size : ℕ) → Every P (echoer line size e.sockfd e.logfd a.sent)
  unfolding echoer
  echoer-Every line size =
      search (every_rules, ok.complains, ok.reports, ok.answers, ok.logs) depth 9

  getsrcfldr-Every : Every P (getsrcfldr e.srcpath e.sockfd e.logfd a.sent)
  unfolding getsrcfldr
  getsrcfldr-Every = search (every_rules, ok.complains, ok.reports, ok.answers, ok.logs) depth 9

  send_file-Every : (content : Bytes) → Every P (send_file e.sockfd (descriptor a.socket) content a)
  unfolding send_file
  send_file-Every content =
      search (every_rules, ok.shows, ok.complains, ok.answers, ok.sends, ok.closes) depth 9

  open_file-Every :
      (content : Option Bytes) → Every P (open_file e.sockfd (descriptor a.socket) a content)
  unfolding open_file
  open_file-Every none = search (every_rules, ok.shows)
  open_file-Every (some content) = send_file-Every content

  filetransfer-Every : (buffer : Bytes) → Every P (filetransfer e.sockfd buffer e.client_ip a)
  unfolding filetransfer
  filetransfer-Every buffer =
      search
        (
          every_rules, split-Every, entry-Every, open_file-Every, ok.shows, ok.complains,
          ok.connects,
        )
        depth 14

  log_buffer-Every : (s : Session) → Every P (log_buffer e s)
  unfolding log_buffer
  log_buffer-Every s = search (every_rules, ok.reports)

  flush-Every : (size : ℕ) (s : Session) → Every P (flush e a size s)
  unfolding flush
  flush-Every size s = search (every_rules, echoer-Every)

  pub on_echo-Every : (m : Bytes) (s : Session) → Every P (on_echo e a m s)
  unfolding on_echo hold_back
  on_echo-Every m s = search (every_rules, flush-Every, ok.reports, ok.logs) depth 9

  pub on_code-Every : (m : Bytes) (s : Session) → Every P (on_code e a m s)
  unfolding on_code
  on_code-Every m s = search (every_rules, getsrcfldr-Every, ok.reports, ok.logs) depth 9

  pub on_file-Every : (s : Session) → Every P (on_file e a s)
  unfolding on_file
  on_file-Every s = search (every_rules, filetransfer-Every, ok.reports) depth 9

  pub on_quit-Every : Every P (on_quit e)
  unfolding on_quit
  on_quit-Every = search (every_rules, ok.reports, ok.shuts, ok.closes) depth 9

  pub on_other-Every : (m : Bytes) (s : Session) → Every P (on_other e a m s)
  unfolding on_other join_echo log_other
  on_other-Every m s = search (every_rules, flush-Every, ok.reports) depth 9

  module _ (signals : (sig : ℕ) → P (kill_parent sig)) where
    goodbye-Every : (s : Session) → Every P (goodbye s)
    unfolding goodbye
    goodbye-Every s = search (every_rules, ok.shows, signals) depth 9

    on_comment-Every : (s : Session) → Every P (on_comment e s)
    unfolding on_comment log_buffer
    on_comment-Every s = search (every_rules, goodbye-Every, ok.reports) depth 9

    on_accept-Every : Every P (on_accept e)
    unfolding on_accept
    on_accept-Every = search (every_rules, ok.shows, ok.reports, ok.shuts, signals) depth 9

    pub dispatch-Every : (c : ℕ) (m : Bytes) (s : Session) → Every P (dispatch c e a m s)
    unfolding dispatch
    dispatch-Every c m s =
        search
          (
            every_rules, on_echo-Every, on_comment-Every, on_code-Every, on_file-Every,
            on_accept-Every, on_quit-Every, on_other-Every,
          )
          depth 9
