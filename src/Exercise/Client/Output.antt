-- ===== src/Exercise/Client/Output.antt =====
-- Everything that the program and the processes it starts put on the descriptor of a connection.
use posix_network_programmin.Prelude.{
  ℕ, ◌≡◌, ◌≢◌, ◌∙◌, ◌+◌, ◌%◌, List, [], ◌∷◌, ◌++◌, map, none, some, Option, length,
}
use posix_network_programmin.Cstring.{Bytes, int_mod}
use posix_network_programmin.Posix.{
  Effect, SockAddr, write, print, perror, connect, bind, listen, close, wait, create, on_signal,
  Proc, exit, exit_success, exit_failure, is_error, ReadResult, got, failed, Answer, descriptor,
  stdout_fileno, stderr_fileno,
}
use posix_network_programmin.Posix.Accept.{is_transient, Forked, no_process, in_child, in_parent}
use posix_network_programmin.Posix.Every.{
  Every, every_rules, Every-call, Every-if, Every-bind, Every-exit,
}
use posix_network_programmin.Posix.Output.{output, PrintsElsewhere, output-written}
use posix_network_programmin.Exercise.Connection.Calls.{split-Every, entry-Every}
use posix_network_programmin.Exercise.Connection.Output.{serve-Every}
use posix_network_programmin.Exercise.Connection.Invariant.{IsClean}
use posix_network_programmin.Exercise.Connection.Protocol.{responses, ends}
use posix_network_programmin.Exercise.Connection.Refines.{Job, asked}
use posix_network_programmin.Exercise.Connection.{serve}
use posix_network_programmin.Exercise.Server.{
  Arrival, Logs, in_new_process, after_fork, not_accepted, accept_loop, child_server,
}
use posix_network_programmin.Exercise.Client.{
  Message, Client, say, greet, start_server, read_port, show, finish_turn, turn, leave, on_input,
  after_read, dialog, Host, Start, talk, connect_to, find_host, find_service, main,
}
use posix_network_programmin.Exercise.Client.Turns.{AreExpected}
use posix_network_programmin.Exercise.Client.Whole.{
  process_end, client_of, IsConnected, IsServing, StartsServer, main-responses,
}

-- A property that holds of every call that the program and its processes make, beside those of
-- `newConnection`.
record Permits (P : Effect → Type 0) : Type 0 where
  shows : (b : Bytes) → P (print stdout_fileno b)
  complains : (b : Bytes) → P (print stderr_fileno b)
  writes : (f : ℕ) (b : Bytes) → P (write f b)
  perrors : (b : Bytes) (n : ℕ) → P (perror b n)
  closes : (f : ℕ) → P (close f)
  binds : (f : ℕ) (a : SockAddr) → P (bind f a)
  connects : (f : ℕ) (a : SockAddr) → P (connect f a)
  listens : (f n : ℕ) → P (listen f n)
  waits : P wait
  creates : (b : Bytes) → P (create b)
  on_signals : (n : ℕ) → P (on_signal n)

-- It holds of those too.
abbrev Serves : (Effect → Type 0) → Logs → Type 0
Serves P l =
    (a : Arrival)
    → Every P (
        serve
          (record {
            sockfd = descriptor a.accepted;
            logfd = l.logfd;
            respfd = l.respfd;
            client_ip = a.peer;
            srcpath = l.srcpath;
          })
          a.locals a.turns)

abbrev logs_of : Start → Bytes → Logs
logs_of s path = record {
  logfd = descriptor s.logfile;
  respfd = descriptor s.response_file;
  srcpath = path;
}

module _ (P : Effect → Type 0) (ok : Permits P) where
  module _ (l : Logs) (served : Serves P l) where
    in_new_process-Every : (listenfd : ℕ) (a : Arrival) → Every P (in_new_process listenfd l a)
    unfolding in_new_process
    in_new_process-Every listenfd a = search (every_rules, ok.shows, ok.closes, served) depth 9

    after_fork-Every :
        (f : Forked) (listenfd : ℕ) (a : Arrival) (loop : Proc ℕ)
        → Every P loop
        → Every P (after_fork f listenfd l a loop)
    unfolding after_fork
    after_fork-Every (no_process errno) listenfd a loop h = search (every_rules, ok.complains, h)
    after_fork-Every in_child listenfd a loop h = in_new_process-Every listenfd a
    after_fork-Every (in_parent pid) listenfd a loop h =
        search (every_rules, ok.shows, ok.closes, h) depth 9

    not_accepted-Every :
        (errno : ℕ) (loop : Proc ℕ) → Every P loop → Every P (not_accepted errno loop)
    unfolding not_accepted
    not_accepted-Every errno loop h =
        Every-call P _ _ (ok.complains _)
          (Every-if P (is_transient errno) loop (exit exit_failure) h (Every-exit P exit_failure))

    accept_loop-Every :
        (listenfd : ℕ) (arrivals : List Arrival) → Every P (accept_loop listenfd l arrivals)
    unfolding accept_loop
    accept_loop-Every listenfd [] = record { all = tt }
    accept_loop-Every listenfd (a ∷ rest) =
        let loop = accept_loop-Every listenfd rest in
        Every-if P (is_error a.accepted) _ _
          (not_accepted-Every a.accepted.errno (accept_loop listenfd l rest) loop)
          (after_fork-Every a.forked listenfd a (accept_loop listenfd l rest) loop)

    child_server-Every :
        (port : ℕ) (socket bound : Answer) (arrivals : List Arrival)
        → Every P (child_server port l socket bound arrivals)
    unfolding child_server
    child_server-Every port socket bound arrivals =
        search (every_rules, accept_loop-Every, ok.complains, ok.binds, ok.listens) depth 14

  module _ (c : Client) (served : Serves P c.logs) where
    start_server-Every : (port : ℕ) (m : Message) (f : Forked) → Every P (start_server c port m f)
    unfolding start_server
    start_server-Every port m (no_process errno) = search (every_rules, ok.perrors)
    start_server-Every port m in_child =
        let server = child_server-Every c.logs served port m.socket m.bound m.arrivals in
        Every-call P _ _ (ok.closes c.sockfd) (
          Every-bind P (child_server port c.logs m.socket m.bound m.arrivals)
            (λ _. exit exit_success) server (λ _. Every-exit P exit_success))
    start_server-Every port m (in_parent pid) = search (every_rules, ok.shows)

    read_port-Every : (buffer : Bytes) (m : Message) → Every P (read_port c buffer m)
    unfolding read_port
    read_port-Every buffer m =
        search (every_rules, split-Every, entry-Every, start_server-Every, ok.shows) depth 9

    show-Every : (buffer : Bytes) → Every P (show buffer)
    unfolding show
    show-Every buffer = search (every_rules, ok.writes) depth 9

    finish_turn-Every : (n : ℕ) (buffer : Bytes) (m : Message) → Every P (finish_turn c n buffer m)
    unfolding finish_turn
    finish_turn-Every n buffer m = search (every_rules, read_port-Every, show-Every) depth 9

    greet-Every : (n : ℕ) → Every P (greet c.sockfd n)
    unfolding greet say
    greet-Every n = search (every_rules, ok.writes) depth 9

    turn-Every : (n : ℕ) (buffer : Bytes) (m : Message) → Every P (turn c n buffer m)
    unfolding turn
    turn-Every n buffer m = search (every_rules, greet-Every, finish_turn-Every) depth 9

    on_input-Every :
        (r : ReadResult) (k : Bytes → Proc ℕ)
        → ((b : Bytes) → Every P (k b))
        → Every P (on_input r k)
    unfolding on_input leave
    on_input-Every (failed errno) k h = search (every_rules, ok.perrors, ok.waits)
    on_input-Every (got []) k h = search (every_rules, ok.waits)
    on_input-Every (got (b ∷ bs)) k h = h (b ∷ bs)

    after_read-Every :
        (n : ℕ) (buffer : Bytes) (m : Message) (loop : Bytes → Proc ℕ)
        → ((b : Bytes) → Every P (loop b))
        → (b : Bytes) → Every P (after_read c n buffer m loop b)
    unfolding after_read
    after_read-Every n buffer m loop h b = search (every_rules, turn-Every, h) depth 9

    dialog-Every : (n : ℕ) (buffer : Bytes) (ms : List Message) → Every P (dialog c n buffer ms)
    unfolding dialog
    dialog-Every n buffer [] = record { all = tt }
    dialog-Every n buffer (m ∷ ms) = on_input-Every m.input _ (
        after_read-Every n buffer m (λ cleared. dialog c ((n + 1) % int_mod) cleared ms)
          (λ cleared. dialog-Every ((n + 1) % int_mod) cleared ms))

  module _ (s : Start) (served : (path : Bytes) → Serves P (logs_of s path)) where
    talk-Every : (srcpath : Bytes) (ms : List Message) → Every P (talk s srcpath ms)
    unfolding talk
    talk-Every srcpath ms = search (every_rules, ok.creates, dialog-Every, served) depth 9

    connect_to-Every :
        (port : ℕ) (h : Host) (srcpath : Bytes) (ms : List Message)
        → Every P (connect_to s port h srcpath ms)
    unfolding connect_to
    connect_to-Every port h srcpath ms =
        search (every_rules, ok.shows, ok.perrors, ok.connects, talk-Every) depth 14

    find_host-Every :
        (program : Bytes) (port : ℕ) (srcpath : Bytes) (h : Option Host) (ms : List Message)
        → Every P (find_host program s port srcpath h ms)
    unfolding find_host
    find_host-Every program port srcpath none ms = search (every_rules, ok.complains)
    find_host-Every program port srcpath (some h) ms = connect_to-Every port h srcpath ms

    find_service-Every :
        (program srcpath : Bytes) (port : Option ℕ) (ms : List Message)
        → Every P (find_service program s srcpath port ms)
    unfolding find_service
    find_service-Every program srcpath none ms = search (every_rules, ok.complains)
    find_service-Every program srcpath (some port) ms =
        find_host-Every program port srcpath s.host ms

    main-Every :
        (program srcpath : Bytes) (ms : List Message) → Every P (main (program ∷ srcpath ∷ []) s ms)
    unfolding main
    main-Every program srcpath ms = search (every_rules, ok.on_signals, find_service-Every) depth 9

-- The program and its processes print on the standard output, the standard error and their log only.
pub main-prints :
    (fd : ℕ) (program srcpath : Bytes) (s : Start) (ms : List Message)
    → stdout_fileno ≢ fd
    → stderr_fileno ≢ fd
    → descriptor s.logfile ≢ fd
    → Every (PrintsElsewhere fd) (main (program ∷ srcpath ∷ []) s ms)
main-prints fd program srcpath s ms out err log =
    let ok : Permits (PrintsElsewhere fd) = record {
      shows = λ b. out;
      complains = λ b. err;
      writes = λ f b. tt;
      perrors = λ b n. tt;
      closes = λ f. tt;
      binds = λ f a. tt;
      connects = λ f a. tt;
      listens = λ f n. tt;
      waits = tt;
      creates = λ b. tt;
      on_signals = λ n. tt;
    } in
    main-Every (PrintsElsewhere fd) ok s
      (λ path a.
        serve-Every fd
          (record {
            sockfd = descriptor a.accepted;
            logfd = descriptor s.logfile;
            respfd = descriptor s.response_file;
            client_ip = a.peer;
            srcpath = path;
          })
          (record { stdout = out; stderr = err; log = log }) a.turns a.locals)
      program srcpath ms

-- The program is connected, its counter starts at 0 and its buffer is set to 0, though the code
-- initialises neither; four messages as the client expects them come first, and a fifth that names a
-- port, where fork returns in the new process. There the server is bound, and after arrivals that it goes
-- on from a connection is opened, seen from its own process, on a descriptor that is none of the standard
-- output and error, the client's socket and its logs, from arrays set to 0, with messages as in the
-- theorem on `newConnection`. Then all that is put on that connection, by write or by a function of
-- printf, is what the protocol says, and the process exits with success if a message ends the connection,
-- and otherwise waits for the next one.
pub main-output :
    (connfd : ℕ) (path : Bytes) (jobs : List Job) (program : Bytes) (s : Start)
    (first : List Message) (fifth : Message) (later : List Message)
    → IsConnected s
    → s.n ≡ 0
    → IsClean s.buffer
    → length first ≡ 4
    → AreExpected 0 first
    → StartsServer fifth
    → IsServing fifth (client_of s path).logs connfd path jobs
    → stdout_fileno ≢ connfd
    → stderr_fileno ≢ connfd
    → descriptor s.socket ≢ connfd
    → (output connfd (main (program ∷ path ∷ []) s (first ++ fifth ∷ later)).0
        ≡ responses path none (map asked jobs))
      × ((main (program ∷ path ∷ []) s (first ++ fifth ∷ later)).1
          ≡ process_end (ends (map asked jobs)))
main-output connfd path jobs program s first fifth later start zero_n clean four expected x serving
      out err other =
    let run = main (program ∷ path ∷ []) s (first ++ fifth ∷ later) in
    let elsewhere =
      main-prints connfd program path s (first ++ fifth ∷ later) out err serving.opened.log_apart in
    let sent =
      main-responses connfd path jobs program s first fifth later start zero_n clean four expected x
        serving out other in
    (output-written connfd run.0 elsewhere.all ∙ sent.0, sent.1)
