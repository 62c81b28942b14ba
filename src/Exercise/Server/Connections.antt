-- ===== src/Exercise/Server/Connections.antt =====
-- A connection of the server, from the loop of the parent to the last answer of its process.
use posix_network_programmin.Prelude.{
  ℕ, ◌≡◌, ◌≢◌, List, [], ◌∷◌, ◌++◌, map, none, some, arith, All, Bool-cases, inl, inr,
}
use posix_network_programmin.Cstring.{Bytes}
use posix_network_programmin.Posix.{pure, written, is_error-some, descriptor-some, exit_success}
use posix_network_programmin.Posix.Accept.{in_child}
use posix_network_programmin.Posix.Emits.{Emits-then, Emits-pure, blocked-bind}
use posix_network_programmin.Exercise.Connection.{Setup, serve}
use posix_network_programmin.Exercise.Connection.Invariant.{IsReady}
use posix_network_programmin.Exercise.Connection.Others.{IsPath}
use posix_network_programmin.Exercise.Connection.Protocol.{responses, ends}
use posix_network_programmin.Exercise.Connection.Refines.{
  Job, turn, asked, IsServed, last_code, serve-responses,
}
use posix_network_programmin.Exercise.Server.{Arrival, Logs, in_new_process, accept_loop}
use posix_network_programmin.Exercise.Server.Laws.{GoesOn}

-- A connection that is accepted on `sockfd` and seen from its new process, with its messages.
pub record IsOpened (l : Logs) (a : Arrival) (sockfd : ℕ) (path : Bytes) (ts : List Job)
    : Type 0 where
  pub accepted : a.accepted.value ≡ some sockfd
  pub forked : a.forked ≡ in_child
  pub turns : a.turns ≡ map turn ts
  pub served : All (IsServed sockfd) ts
  pub locals : IsReady none a.locals
  pub log_apart : l.logfd ≢ sockfd
  pub resp_apart : l.respfd ≢ sockfd
  pub source : l.srcpath ≡ path ++ 0 ∷ []
  pub path_ok : IsPath path

in_new_process-responses :
    (listenfd sockfd : ℕ) (l : Logs) (a : Arrival) (path : Bytes) (ts : List Job)
    → IsOpened l a sockfd path ts
    → (written sockfd (in_new_process listenfd l a).0 ≡ responses path none (map asked ts))
      × ((in_new_process listenfd l a).1 ≡ last_code (ends (map asked ts)))
unfolding in_new_process written
in_new_process-responses listenfd sockfd l a path ts o =
    let e : Setup = record {
      sockfd = sockfd;
      logfd = l.logfd;
      respfd = l.respfd;
      client_ip = a.peer;
      srcpath = l.srcpath;
    } in
    let run = serve e a.locals (map turn ts) in
    let sent =
      serve-responses e path o.log_apart o.resp_apart o.source o.path_ok ts none a.locals o.served
        o.locals in
    rw (descriptor-some a.accepted o.accepted, o.turns)
      (elim (Bool-cases (ends (map asked ts))) [
        | inl over ↦ rw over (
            Emits-then sockfd run (λ _. pure exit_success) (rw over at sent)
              (Emits-pure sockfd exit_success))
        | inr going ↦ rw going (blocked-bind sockfd run (λ _. pure exit_success) (rw going at sent))
      ])

-- Whatever arrivals the parent passed over before, the process of a connection sends what the protocol
-- says, on messages as in the theorem on `newConnection`, from cleared arrays; it returns success if a
-- message ends the connection, and otherwise waits for the next one.
pub accept_loop-responses :
    (listenfd sockfd : ℕ) (l : Logs) (before : List Arrival) (a : Arrival) (later : List Arrival)
    (path : Bytes) (ts : List Job)
    → All GoesOn before
    → IsOpened l a sockfd path ts
    → (written sockfd (accept_loop listenfd l (before ++ a ∷ later)).0
        ≡ responses path none (map asked ts))
      × ((accept_loop listenfd l (before ++ a ∷ later)).1 ≡ last_code (ends (map asked ts)))
unfolding accept_loop written
accept_loop-responses listenfd sockfd l [] a later path ts passed o =
    rw (is_error-some a.accepted o.accepted, o.forked)
      (in_new_process-responses listenfd sockfd l a path ts o)
accept_loop-responses listenfd sockfd l (b ∷ before) a later path ts passed o =
    ground (arith, accept_loop-responses listenfd sockfd l before a later path ts passed.1 o)
