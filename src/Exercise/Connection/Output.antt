-- ===== src/Exercise/Connection/Output.antt =====
-- Everything that `newConnection` puts on its socket, against the protocol.
use posix_network_programmin.Prelude.{
  ℕ, ◌≡◌, ◌≢◌, ◌∙◌, List, [], ◌∷◌, ◌++◌, map, Option, All, codes,
}
use posix_network_programmin.Cstring.{Bytes, overwrite, print_int}
use posix_network_programmin.Posix.{
  Proc, pure, call, ◌>>=◌, ◌>>◌, print, got, stdout_fileno, stderr_fileno, ReadResult, failed,
  exit_failure,
}
use posix_network_programmin.Posix.Every.{Every, Every-bind}
use posix_network_programmin.Posix.Output.{output, PrintsElsewhere, output-written}
use posix_network_programmin.Exercise.Reply.{Answers}
use posix_network_programmin.Exercise.Connection.{
  Setup, Session, Turn, Next, again, leave, wipe, handle, resume, serve,
}
use posix_network_programmin.Exercise.Connection.Calls.{Allows, dispatch-Every}
use posix_network_programmin.Exercise.Connection.Invariant.{IsReady}
use posix_network_programmin.Exercise.Connection.Protocol.{responses, ends}
use posix_network_programmin.Exercise.Connection.Others.{IsPath}
use posix_network_programmin.Exercise.Connection.Refines.{
  Job, turn, asked, IsServed, last_code, serve-responses,
}

-- The descriptor is none that `newConnection` prints to.
pub record IsApart (fd : ℕ) (e : Setup) : Type 0 where
  pub stdout : stdout_fileno ≢ fd
  pub stderr : stderr_fileno ≢ fd
  pub log : e.logfd ≢ fd

module _ (fd : ℕ) (e : Setup) (apart : IsApart fd e) where
  handle-Every :
      (a : Answers) (c : ℕ) (cs : Bytes) (s : Session)
      → Every (PrintsElsewhere fd) (handle e a c cs s)
  unfolding handle
  handle-Every a c cs s =
      let allows : Allows (PrintsElsewhere fd) e a = record {
        shows = λ b. apart.stdout;
        complains = λ b. apart.stderr;
        reports = λ b. apart.log;
        answers = λ b. tt;
        logs = λ b. tt;
        sends = λ b. tt;
        connects = λ f addr. tt;
        closes = λ f. tt;
        shuts = λ f how. tt;
      } in
      let m = c ∷ cs in
      let rest =
        dispatch-Every (PrintsElsewhere fd) e a allows (λ sig. tt) c m
          (record s { buffer = overwrite m s.buffer }) in
      record { all = (tt, rest.all) }

  input-Every :
      (t : Turn) (s : Session) (k : Session → Proc ℕ)
      → ((s' : Session) → Every (PrintsElsewhere fd) (k s'))
      → (r : ReadResult)
      → Every (PrintsElsewhere fd) (elim r [
        | failed errno ↦ do
          call (print e.logfd (codes "Read failed errno: " ++ (print_int errno ++ codes " \n")))
          pure exit_failure
        | got [] ↦ pure exit_failure
        | got (c ∷ cs) ↦ handle e t.answers c cs s >>= resume k
      ])
  input-Every t s k rest (failed errno) = record { all = (apart.log, tt) }
  input-Every t s k rest (got []) = record { all = tt }
  input-Every t s k rest (got (c ∷ cs)) =
      Every-bind (PrintsElsewhere fd) (handle e t.answers c cs s) (resume k)
        (handle-Every t.answers c cs s) next-Every
    where
      next-Every : (n : Next) → Every (PrintsElsewhere fd) (resume k n)
      next-Every (again s') = rest (wipe s')
      next-Every (leave n) = record { all = tt }

  -- `newConnection` prints nothing there, whatever it reads.
  pub serve-Every : (ts : List Turn) (s : Session) → Every (PrintsElsewhere fd) (serve e s ts)
  unfolding serve
  serve-Every [] s = record { all = tt }
  serve-Every (t ∷ ts) s = input-Every t s (λ s'. serve e s' ts) (serve-Every ts) t.input

-- From any session between two turns whose array is set to 0 for the next read, on messages of NUL-free
-- chars, not empty and at most 1024 long, with the standard output, the standard error and both logs on
-- descriptors other than the socket and `SRCPATH` a terminated text that fits, each F command of the form
-- "F <path> <port>", of fewer than 256 chars, with every call for it successful and a last char of the file
-- other than 0xff: all that is put on the socket, by write or by a function of printf, is what the
-- protocol says, whatever the kernel answers to the other writes; no access is outside an array; the run
-- returns success if a message ends it, and otherwise waits for the next one.
pub serve-output :
    (e : Setup) (path : Bytes) (ts : List Job) (p : Option Bytes) (s : Session)
    → IsApart e.sockfd e
    → e.respfd ≢ e.sockfd
    → e.srcpath ≡ path ++ 0 ∷ []
    → IsPath path
    → All (IsServed e.sockfd) ts
    → IsReady p s
    → (output e.sockfd (serve e s (map turn ts)).0 ≡ responses path p (map asked ts))
      × ((serve e s (map turn ts)).1 ≡ last_code (ends (map asked ts)))
serve-output e path ts p s apart resp source ok served ready =
    let run = serve e s (map turn ts) in
    let sent = serve-responses e path apart.log resp source ok ts p s served ready in
    (
      output-written e.sockfd run.0 (serve-Every e.sockfd e apart (map turn ts) s).all ∙ sent.0,
      sent.1,
    )
