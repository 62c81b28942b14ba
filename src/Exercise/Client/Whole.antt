-- ===== src/Exercise/Client/Whole.antt =====
-- The program from its command line to the last answer of a process that it started.
use posix_network_programmin.Prelude.{
  ℕ, ◌+◌, ◌%◌, ◌<◌, ◌≡◌, ◌≢◌, refl, ap, ap₂, ◌∙◌, Bool, true, false, List, [], ◌∷◌, ◌++◌, map, none,
  some, arith, All, append-nil, length, ne→==,
}
use posix_network_programmin.Cstring.{Bytes, overwrite, int_mod}
use posix_network_programmin.Posix.{
  Proc, Outcome, blocked, exited, exit, ◌>>=◌, got, written, is_error-some, descriptor,
  stdout_fileno, exit_success,
}
use posix_network_programmin.Posix.Emits.{Emits-continue, blocked-bind}
use posix_network_programmin.Posix.Accept.{in_child}
use posix_network_programmin.Exercise.Reply.{max_buffer}
use posix_network_programmin.Exercise.Connection.Invariant.{IsClean, message_terminated}
use posix_network_programmin.Exercise.Connection.Protocol.{responses, ends}
use posix_network_programmin.Exercise.Connection.Refines.{Job, asked, last_code}
use posix_network_programmin.Exercise.Server.{Arrival, Logs, child_server}
use posix_network_programmin.Exercise.Server.Laws.{GoesOn}
use posix_network_programmin.Exercise.Server.Connections.{IsOpened, accept_loop-responses}
use posix_network_programmin.Exercise.Client.{
  Message, Client, read_port, show, finish_turn, turn, greet, dialog, Host, Start, main,
}
use posix_network_programmin.Exercise.Client.Port.{NamesPort, read_port-in_child}
use posix_network_programmin.Exercise.Client.Turns.{
  AreExpected, heard, after, dialog-turn, dialog-append,
}

-- How a process ends that does not return: with success if `over`, and otherwise it waits.
abbrev pub process_end {ℓ} : {A : Type ℓ} → Bool → Outcome A
process_end true = exited exit_success
process_end false = blocked

abbrev Stops {ℓ} : {A : Type ℓ} → ℕ → List Bytes → Bool → Proc A → Type ℓ
Stops fd texts over r = (written fd r.0 ≡ texts) × (r.1 ≡ process_end over)

Stops-bind {ℓ κ} :
    {A : Type ℓ} {B : Type κ} (fd : ℕ) {texts : List Bytes} (b : Bool) (r : Proc A) (f : A → Proc B)
    → Stops fd texts b r
    → Stops fd texts b (r >>= f)
Stops-bind fd true (es, end) f h = rw h.1 (h.0, refl)
Stops-bind fd false (es, end) f h = rw h.1 (h.0, refl)

-- The descriptors that `main` works with.
abbrev pub client_of : Start → Bytes → Client
client_of s srcpath = record {
  sockfd = descriptor s.socket;
  logs = record {
    logfd = descriptor s.logfile;
    respfd = descriptor s.response_file;
    srcpath = srcpath ++ 0 ∷ [];
  };
}

-- The names are found, and the service is connected.
pub record IsConnected (s : Start) : Type 0 where
  pub service : (port : ℕ) × (s.service ≡ some port)
  pub host : (h : Host) × (s.host ≡ some h)
  pub socket : (fd : ℕ) × (s.socket.value ≡ some fd)
  pub connected : (n : ℕ) × (s.connected.value ≡ some n)

pub main-dialog :
    (fd : ℕ) (program srcpath : Bytes) (s : Start) (ms : List Message)
    → IsConnected s
    → (written fd (main (program ∷ srcpath ∷ []) s ms).0
        ≡ written fd (dialog (client_of s srcpath) s.n s.buffer ms).0)
      × ((main (program ∷ srcpath ∷ []) s ms).1 ≡ (dialog (client_of s srcpath) s.n s.buffer ms).1)
unfolding main written
main-dialog fd program srcpath s ms c =
    rw
      (
        c.service.1,
        c.host.1,
        is_error-some s.socket c.socket.1,
        is_error-some s.connected c.connected.1,
      )
      (refl, refl)

-- The server in its new process: its socket is bound, and after arrivals that it goes on from a
-- connection is opened, seen from a new process of its own.
pub record IsServing (m : Message) (l : Logs) (connfd : ℕ) (path : Bytes) (jobs : List Job)
    : Type 0 where
  pub socket : (listenfd : ℕ) × (m.socket.value ≡ some listenfd)
  pub bound : (n : ℕ) × (m.bound.value ≡ some n)
  pub before : List Arrival
  pub arrival : Arrival
  pub later : List Arrival
  pub arrivals : m.arrivals ≡ before ++ arrival ∷ later
  pub passed : All GoesOn before
  pub opened : IsOpened l arrival connfd path jobs

-- The fifth message: it names the port, and fork returns in the new process.
pub record StartsServer (m : Message) : Type 0 where
  pub text : Bytes
  pub input : m.input ≡ got text
  pub some_char : 0 < length text
  pub short : length text < max_buffer
  pub port : ℕ
  pub names : NamesPort text port
  pub allocated : m.allocated ≡ true
  pub forked : m.forked ≡ in_child

after-length : (ms : List Message) (n : ℕ) → n + length ms < int_mod → after n ms ≡ n + length ms
after-length [] n h = omega arith
after-length (m ∷ ms) n h =
    let next : (n + 1) % int_mod ≡ n + 1 = omega arith in
    rw next (omega (arith, after-length ms (n + 1) (omega arith)))

heard-apart :
    (c : Client) (fd : ℕ) (apart : stdout_fileno ≢ fd) (n : ℕ) (ms : List Message)
    → c.sockfd ≢ fd
    → heard c fd apart n ms ≡ []
heard-apart c fd apart n [] h = refl
heard-apart c fd apart n (m ∷ ms) h =
    rw (ne→== c.sockfd fd h) (heard-apart c fd apart ((n + 1) % int_mod) ms h)

module _ (connfd : ℕ) (path : Bytes) (jobs : List Job) where
  abbrev texts : List Bytes
  texts = responses path none (map asked jobs)

  abbrev over : Bool
  over = ends (map asked jobs)

  child_server-responses :
      (port : ℕ) (l : Logs) (m : Message)
      → IsServing m l connfd path jobs
      → (written connfd (child_server port l m.socket m.bound m.arrivals).0 ≡ texts)
        × ((child_server port l m.socket m.bound m.arrivals).1 ≡ last_code over)
  unfolding child_server written
  child_server-responses port l m s =
      rw (is_error-some m.socket s.socket.1, is_error-some m.bound s.bound.1, s.arrivals)
        (accept_loop-responses (descriptor m.socket) connfd l s.before s.arrival s.later path jobs
          s.passed s.opened)

  exits :
      (b : Bool) (r : Proc ℕ)
      → (written connfd r.0 ≡ texts) × (r.1 ≡ last_code b)
      → Stops connfd texts b (r >>= λ _. exit {A = Unit {0}} exit_success)
  unfolding written
  exits true r h =
      let e = Emits-continue connfd r (λ _. exit {A = Unit {0}} exit_success) h (refl, refl) in
      (rw append-nil at e.0, e.1)
  exits false r h = blocked-bind connfd r (λ _. exit exit_success) h

  read_port-Stops :
      (c : Client) (m : Message) (text rest : Bytes) (port : ℕ)
      → m.allocated ≡ true
      → m.forked ≡ in_child
      → NamesPort text port
      → IsServing m c.logs connfd path jobs
      → Stops connfd texts over (read_port c (text ++ 0 ∷ rest) m)
  unfolding written
  read_port-Stops c m text rest port alloc fork names s =
      rw (read_port-in_child c m text rest port alloc fork names) (
        exits over (child_server port c.logs m.socket m.bound m.arrivals)
          (child_server-responses port c.logs m s))

  dialog-Stops :
      (c : Client) (m : Message) (later : List Message) (buffer : Bytes)
      → StartsServer m
      → IsClean buffer
      → IsServing m c.logs connfd path jobs
      → Stops connfd texts over (dialog c 4 buffer (m ∷ later))
  unfolding turn greet finish_turn
  dialog-Stops c m later buffer x clean s =
      let filled = overwrite x.text buffer in
      let (rest, read) = message_terminated x.text buffer clean x.short in
      let port_read : Stops connfd texts over (read_port c filled m) =
        rw read (read_port-Stops c m x.text rest x.port x.allocated x.forked x.names s) in
      rw (dialog-turn c 4 buffer m later x.text x.input x.some_char) (
        Stops-bind connfd over _ _
          (Stops-bind connfd over (read_port c filled m) (λ _. show filled) port_read))

  -- The program is connected, its counter starts at 0 and its buffer is clean, four messages as the
  -- client expects them come first, and a fifth that names a port, where fork returns in the new
  -- process. There the server is bound, and after arrivals that it goes on from a connection is
  -- opened, seen from its own process, on a descriptor that is neither the standard output nor the
  -- client's socket, with messages as in the theorem on `newConnection`. Then what is written on that
  -- connection is what the protocol says, and the process exits with success if a message ends the
  -- connection, and otherwise waits for the next one.
  pub main-responses :
      (program : Bytes) (s : Start) (first : List Message) (fifth : Message) (later : List Message)
      → IsConnected s
      → s.n ≡ 0
      → IsClean s.buffer
      → length first ≡ 4
      → AreExpected 0 first
      → StartsServer fifth
      → IsServing fifth (client_of s path).logs connfd path jobs
      → stdout_fileno ≢ connfd
      → descriptor s.socket ≢ connfd
      → (written connfd (main (program ∷ path ∷ []) s (first ++ fifth ∷ later)).0
          ≡ responses path none (map asked jobs))
        × ((main (program ∷ path ∷ []) s (first ++ fifth ∷ later)).1
            ≡ process_end (ends (map asked jobs)))
  main-responses program s first fifth later start zero_n clean four expected x serving apart
        other =
      let c = client_of s path in
      let whole = main-dialog connfd program path s (first ++ fifth ∷ later) start in
      let (cleared, ready, heard_all, end) =
        dialog-append c connfd apart first (fifth ∷ later) 0 s.buffer expected clean in
      let number : after 0 first ≡ 4 = omega (arith, four, after-length first 0 (omega arith)) in
      let silent = heard-apart c connfd apart 0 first other in
      let last = dialog-Stops c fifth later cleared x ready serving in
      (
        whole.0
            ∙ ap (λ n. written connfd (dialog c n s.buffer (first ++ fifth ∷ later)).0) zero_n
            ∙ heard_all
            ∙ ap₂ (λ h n. h ++ written connfd (dialog c n cleared (fifth ∷ later)).0) silent number
            ∙ last.0,
        whole.1
            ∙ ap (λ n. (dialog c n s.buffer (first ++ fifth ∷ later)).1) zero_n
            ∙ end
            ∙ ap (λ n. (dialog c n cleared (fifth ∷ later)).1) number
            ∙ last.1,
      )
