-- ===== src/Exercise/World/Answers.antt =====
-- What the connections of exercise/exercise.c answer, beside one another.
use posix_network_programmin.Prelude.{
  refl, ◌≡◌, ◌≢◌, sym, ap, ◌∙◌, List, [], ◌∷◌, ◌++◌, map, none, All, All-at,
}
use posix_network_programmin.Cstring.{Bytes}
use posix_network_programmin.Posix.Output.{output}
use posix_network_programmin.Exercise.Connection.Output.{IsApart, serve-output}
use posix_network_programmin.Exercise.Connection.{serve}
use posix_network_programmin.Exercise.Connection.Invariant.{IsReady}
use posix_network_programmin.Exercise.Connection.Others.{IsPath}
use posix_network_programmin.Exercise.Connection.Protocol.{responses}
use posix_network_programmin.Exercise.Connection.Refines.{Job, turn, asked, IsServed}
use posix_network_programmin.Exercise.Server.{Logs}
use posix_network_programmin.Posix.Forking.{World, Reach}
use posix_network_programmin.Exercise.World.{connection_service, Connection}
use posix_network_programmin.Posix.Forking.Follows.{Follows, Follows-trace, Reach-Follows}

-- A connection from cleared arrays, whose messages are as in the theorem on `newConnection`.
pub record IsTame (c : Connection) : Type 0 where
  pub path : Bytes
  pub apart : IsApart c.setup.sockfd c.setup
  pub resp_apart : c.setup.respfd ≢ c.setup.sockfd
  pub source : c.setup.srcpath ≡ path ++ 0 ∷ []
  pub path_ok : IsPath path
  pub jobs : List Job
  pub turns : c.heard ≡ map turn jobs
  pub served : All (IsServed c.setup.sockfd) jobs
  pub ready : IsReady none c.locals

pub jobs-trace :
    (c : Connection)
    → Follows connection_service c
    → (t : IsTame c) → (serve c.setup c.locals (map turn t.jobs)).0 ≡ c.trace
unfolding serve
jobs-trace c f t = Follows-trace connection_service c (map turn t.jobs) (λ s. refl) f t.turns

-- In every order of the turns of the parent and of the connections: all that a connection has put on its
-- socket, by write or by a function of printf, is what the protocol says of the messages that it has read,
-- whatever the other connections have read, if it started from arrays that are set to 0 and its messages
-- and descriptors are as in the theorem on `newConnection`.
pub Reach-responses :
    {l : Logs} {w : World connection_service} (left right : List Connection) (c : Connection)
    → Reach connection_service l w
    → w.processes ≡ left ++ c ∷ right
    → (t : IsTame c) → output c.setup.sockfd c.trace ≡ responses t.path none (map asked t.jobs)
Reach-responses left right c reach place t =
    let follows =
      All-at (Follows connection_service) left right c
        (rw place at (Reach-Follows connection_service reach)) in
    let alone =
      serve-output c.setup t.path t.jobs none c.locals t.apart t.resp_apart t.source t.path_ok
        t.served t.ready in
    ap (output c.setup.sockfd) (sym (jobs-trace c follows t)) ∙ alone.0
