-- ===== src/Exercise/World.antt =====
-- exercise/exercise.c: `childServer` and the processes of its connections side by side, as a server that
-- forks.
pub mod Answers
pub mod Kills
pub mod Terminated
pub mod Recorded
pub mod Junk
use posix_network_programmin.Prelude.{ℕ, ◌≡◌, refl, List, [], ◌∷◌, ◌++◌, codes, append-nil}
use posix_network_programmin.Cstring.{print_int}
use posix_network_programmin.Posix.{
  Effect, print, Proc, Outcome, returned, exited, faulted, blocked, ◌>>=◌, Answer, descriptor,
  ReadResult, got, failed,
}
use posix_network_programmin.Posix.Forking.{Life, alive, over, Goes, Service, Worker}
use posix_network_programmin.Exercise.Connection.{
  Setup, Session, Turn, Next, again, leave, handle, wipe, resume, serve,
}
use posix_network_programmin.Exercise.Server.{Logs}

abbrev pub life_after : Outcome Next → Life Session
life_after (returned (again s)) = alive (wipe s)
life_after _ = over

-- One turn of the loop of `newConnection`, from its read on.
unfoldable pub hear : Setup → Session → Turn → List Effect × Life Session
hear e s t = elim t.input [
  | failed errno ↦
      (print e.logfd (codes "Read failed errno: " ++ (print_int errno ++ codes " \n")) ∷ [], over)
  | got [] ↦ ([], over)
  | got (c ∷ cs) ↦ let r = handle e t.answers c cs s in (r.0, life_after r.1)
]

resume-Goes :
    (e : Setup) (r : Proc Next)
    → Goes (serve e) (λ ts. r >>= resume (λ s. serve e s ts)) (life_after r.1) r.0
resume-Goes e (es, returned (again s)) = λ ts. refl
resume-Goes e (es, returned (leave n)) = λ ts. append-nil es
resume-Goes e (es, exited n) = λ ts. refl
resume-Goes e (es, faulted x) = λ ts. refl
resume-Goes e (es, blocked) = λ ts. refl

pub hear-Goes :
    (e : Setup) (s : Session) (t : Turn) (input : ReadResult)
    → t.input ≡ input
    → Goes (serve e) (λ ts. serve e s (t ∷ ts)) (hear e s t).1 (hear e s t).0
unfolding serve hear
hear-Goes e s t (failed errno) h = rw h (λ ts. refl)
hear-Goes e s t (got []) h = rw h (λ ts. refl)
hear-Goes e s t (got (c ∷ cs)) h = rw h (resume-Goes e (handle e t.answers c cs s))

abbrev pub setup_of : Logs → Answer → ℕ → Setup
setup_of l accepted peer = record {
  sockfd = descriptor accepted;
  logfd = l.logfd;
  respfd = l.respfd;
  client_ip = peer;
  srcpath = l.srcpath;
}

abbrev pub connection_service : Service
connection_service = record {
  Params = Logs;
  Setup = Setup;
  Session = Session;
  Turn = Turn;
  Result = ℕ;
  setup = setup_of;
  loop = serve;
  turn = hear;
  turn-Goes = λ e s t. hear-Goes e s t t.input refl;
}

abbrev pub Connection : Type 0
Connection = Worker connection_service
