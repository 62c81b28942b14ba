-- ===== src/Exercise/World/Recorded.antt =====
-- What the connections record of their messages, in the descriptor `respfd` that all of them share.
use posix_network_programmin.Prelude.{
  ℕ, ◌≡◌, ◌≢◌, refl, sym, true, ap, ap₂, ◌∙◌, List, [], ◌∷◌, ◌++◌, All, All-split, All-at, ◌==◌,
  ne→==, arith,
}
use posix_network_programmin.Cstring.{Bytes, overwrite}
use posix_network_programmin.Posix.{
  Answer, descriptor, ReadResult, got, failed, stdout_fileno, stderr_fileno,
}
use posix_network_programmin.Exercise.Connection.{Setup, Session, Turn, handle, dispatch}
use posix_network_programmin.Posix.Output.{output, output-append, Elsewhere, Elsewhere-output}
use posix_network_programmin.Exercise.Connection.Calls.{Allows, dispatch-Every}
use posix_network_programmin.Exercise.Server.{Logs}
use posix_network_programmin.Posix.Forking.{alive, World, Reach, admitted, heard_by}
use posix_network_programmin.Posix.Forking.Follows.{Reach-All}
use posix_network_programmin.Exercise.World.{hear, connection_service, Connection}

-- The messages that were read.
abbrev pub texts : List Turn → List Bytes
texts [] = []
texts (t ∷ ts) = elim t.input [
  | failed errno ↦ texts ts
  | got [] ↦ texts ts
  | got (c ∷ cs) ↦ (c ∷ cs) ∷ texts ts
]

-- The socket of a file transfer, while a message is handled, is not the descriptor of the record.
abbrev pub TransfersApart : ℕ → Turn → Type 0
TransfersApart respfd t = descriptor t.answers.socket ≢ respfd

pub record IsApart (c : Connection) : Type 0 where
  pub stdout : stdout_fileno ≢ c.setup.respfd
  pub stderr : stderr_fileno ≢ c.setup.respfd
  pub socket : c.setup.sockfd ≢ c.setup.respfd
  pub log : c.setup.logfd ≢ c.setup.respfd
  pub transfers : All (TransfersApart c.setup.respfd) c.heard

texts-append : (ts us : List Turn) → texts (ts ++ us) ≡ texts ts ++ texts us
texts-append [] us = refl
texts-append (t ∷ ts) us = ground (arith, texts-append ts us)

hear-recorded :
    (e : Setup) (s : Session) (t : Turn)
    → stdout_fileno ≢ e.respfd
    → stderr_fileno ≢ e.respfd
    → e.sockfd ≢ e.respfd
    → e.logfd ≢ e.respfd
    → TransfersApart e.respfd t
    → (input : ReadResult) → t.input ≡ input
    → output e.respfd (hear e s t).0 ≡ texts (t ∷ [])
unfolding hear handle output
hear-recorded e s t stdout stderr socket log transfer (failed errno) h =
    rw (h, ne→== e.logfd e.respfd log) refl
hear-recorded e s t stdout stderr socket log transfer (got []) h = rw h refl
hear-recorded e s t stdout stderr socket log transfer (got (c ∷ cs)) h =
    let allows : Allows (Elsewhere e.respfd) e t.answers = record {
      shows = λ b. stdout;
      complains = λ b. stderr;
      reports = λ b. log;
      answers = λ b. socket;
      logs = λ b. log;
      sends = λ b. transfer;
      connects = λ fd addr. tt;
      closes = λ fd. tt;
      shuts = λ fd how. tt;
    } in
    let m = c ∷ cs in
    let s' = record s { buffer = overwrite m s.buffer } in
    let others = dispatch-Every (Elsewhere e.respfd) e t.answers allows (λ sig. tt) c m s' in
    let none_more = Elsewhere-output e.respfd (dispatch c e t.answers m s').0 others.all in
    let same : (e.respfd == e.respfd) ≡ true = ground arith in
    rw (h, same) (ap (λ ts. m ∷ ts) none_more)

-- What a connection has put there, if its descriptors are apart.
abbrev Records : Connection → Type 0
Records c = IsApart c → output c.setup.respfd c.trace ≡ texts c.heard

heard_by-Records :
    (c : Connection) (s : Session) (t : Turn)
    → c.life ≡ alive s
    → Records c
    → Records (heard_by connection_service c s t)
unfolding heard_by
heard_by-Records c s t here before apart =
    let e = c.setup in
    let (front, back) = All-split (TransfersApart e.respfd) c.heard (t ∷ []) apart.transfers in
    let old = before (record {
      stdout = apart.stdout;
      stderr = apart.stderr;
      socket = apart.socket;
      log = apart.log;
      transfers = front;
    }) in
    let new =
      hear-recorded e s t apart.stdout apart.stderr apart.socket apart.log back.0 t.input refl in
    output-append e.respfd c.trace (hear e s t).0
    ∙ ap₂ ◌++◌ old new
    ∙ sym (texts-append c.heard (t ∷ []))

admitted-Records :
    (l : Logs) (accepted : Answer) (peer : ℕ) (locals : Session)
    → Records (admitted connection_service l accepted peer locals)
unfolding admitted output
admitted-Records l accepted peer locals apart = refl

-- In every order of the turns of the parent and of the connections: what a connection has put on
-- `respfd`, by write or by a function of printf, is each message that it has read, and nothing more, however
-- it answered it, and also if it ended in the middle of an answer, if the standard output, the standard
-- error, its socket, its log and its sockets of file transfers are other descriptors.
pub Reach-recorded :
    {l : Logs} {w : World connection_service} (left right : List Connection) (c : Connection)
    → Reach connection_service l w
    → w.processes ≡ left ++ c ∷ right
    → IsApart c
    → output c.setup.respfd c.trace ≡ texts c.heard
Reach-recorded left right c reach place =
    All-at Records left right c
      (rw place at (Reach-All connection_service Records admitted-Records heard_by-Records reach))
