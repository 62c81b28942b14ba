-- ===== src/Posix/Forking.antt =====
-- A server that forks a process for each connection: the parent in its loop over accept and the processes
-- run side by side, one turn of one of them at a time. A signal of a process to its parent ends that,
-- which has no handler for it.
pub mod Follows
pub mod Kills
use posix_network_programmin.Prelude.{ℕ, ◌≡◌, Bool, true, false, List, [], ◌∷◌, ◌++◌, if◌then◌else◌}
use posix_network_programmin.Posix.{Effect, kill_parent, Proc, Answer, is_error}
use posix_network_programmin.Posix.Accept.{is_transient}

-- The process of a connection is in front of a read, or has ended.
pub data Life (Session : Type 0) : Type 0 where
  alive : Session → Life Session
  over : Life Session

-- What a run does on any turns to come: the calls so far, and then what the loop does from a session, or
-- nothing more.
abbrev pub Goes :
    {Session Turn Result : Type 0}
    → (Session → List Turn → Proc Result)
    → (List Turn → Proc Result)
    → Life Session
    → List Effect
    → Type 0
Goes {Turn} loop run (alive s) es = (ts : List Turn) → run ts ≡ (es ++ (loop s ts).0, (loop s ts).1)
Goes {Turn} loop run over es = (ts : List Turn) → (run ts).0 ≡ es

-- The program of a connection: a loop over turns, each with a read in front, on a session that holds its
-- local variables.
pub record Service : Type 1 where
  pub Params : Type 0
  pub Setup : Type 0
  pub Session : Type 0
  pub Turn : Type 0
  pub Result : Type 0
  pub setup : Params → Answer → ℕ → Setup
  pub loop : Setup → Session → List Turn → Proc Result
  pub turn : Setup → Session → Turn → List Effect × Life Session
  pub turn-Goes :
      (e : Setup) (s : Session) (t : Turn)
      → Goes (loop e) (λ ts. loop e s (t ∷ ts)) (turn e s t).1 (turn e s t).0

-- The parent is in its loop, or was ended by a signal, or by an error of accept.
pub data Server : Type 0 where
  accepting terminated broken : Server

abbrev pub terminate : Server → Server
terminate accepting = terminated
terminate s = s

-- Whether a trace has a signal to the parent.
unfoldable pub kills : List Effect → Bool
kills [] = false
kills (kill_parent sig ∷ es) = true
kills (e ∷ es) = kills es

unfoldable pub server_after : Server → List Effect → Server
unfolding kills
server_after server es = if kills es then terminate server else server

module _ (v : Service) where
  -- The process of a connection with the local variables at its start, what it has read, and the calls it
  -- has made.
  pub record Worker : Type 0 where
    pub setup : v.Setup
    pub locals : v.Session
    pub life : Life v.Session
    pub heard : List v.Turn
    pub trace : List Effect

  pub record World : Type 0 where
    pub server : Server
    pub processes : List Worker

  unfoldable pub admitted : v.Params → Answer → ℕ → v.Session → Worker
  admitted l accepted peer locals = record {
    setup = v.setup l accepted peer;
    locals = locals;
    life = alive locals;
    heard = [];
    trace = [];
  }

  unfoldable pub heard_by : Worker → v.Session → v.Turn → Worker
  heard_by c s t = record {
    setup = c.setup;
    locals = c.locals;
    life = (v.turn c.setup s t).1;
    heard = c.heard ++ t ∷ [];
    trace = c.trace ++ (v.turn c.setup s t).0;
  }

  pub data Move (l : v.Params) : World → World → Type 0 where
    admits :
        (cs : List Worker) (accepted : Answer) (peer : ℕ) (locals : v.Session)
        → is_error accepted ≡ false
        → Move l
            (record { server = accepting; processes = cs })
            (record { server = accepting; processes = cs ++ admitted l accepted peer locals ∷ [] })
    -- accept fails with a transient error, or fork fails
    passes :
        (cs : List Worker)
        → Move l
            (record { server = accepting; processes = cs })
            (record { server = accepting; processes = cs })
    breaks :
        (cs : List Worker) (accepted : Answer)
        → is_error accepted ≡ true
        → is_transient accepted.errno ≡ false
        → Move l
            (record { server = accepting; processes = cs })
            (record { server = broken; processes = cs })
    hears :
        (server : Server) (left right : List Worker) (c : Worker) (s : v.Session) (t : v.Turn)
        → c.life ≡ alive s
        → Move l
            (record { server = server; processes = left ++ c ∷ right })
            (record {
              server = server_after server (v.turn c.setup s t).0;
              processes = left ++ heard_by c s t ∷ right;
            })

  pub data Reach (l : v.Params) : World → Type 0 where
    here : Reach l (record { server = accepting; processes = [] })
    next : {w x : World} → Reach l w → Move l w x → Reach l x
