-- ===== src/Exercise/Tests/World.antt =====
-- Two connections of exercise/exercise.c beside one another.
use posix_network_programmin.Prelude.{◌≡◌, ◌≢◌, refl, List, [], ◌∷◌, ◌++◌, none, arith, codes}
use posix_network_programmin.Cstring.{fresh}
use posix_network_programmin.Cstring.Laws.{length-fresh}
use posix_network_programmin.Posix.{got}
use posix_network_programmin.Posix.Output.{output}
use posix_network_programmin.Exercise.Connection.{Session, Turn, wipe}
use posix_network_programmin.Exercise.Connection.Invariant.{IsLeft, wipe-IsReady}
use posix_network_programmin.Exercise.Connection.Protocol.{responses}
use posix_network_programmin.Exercise.Server.{Logs}
use posix_network_programmin.Posix.Forking.{
  World, Server, accepting, terminated, broken, server_after, Reach, here, next, admits, hears,
  admitted, heard_by,
}
use posix_network_programmin.Exercise.World.{hear, connection_service, Connection}
use posix_network_programmin.Exercise.World.Answers.{IsTame, Reach-responses}
use posix_network_programmin.Exercise.World.Recorded.{IsApart, Reach-recorded}
use posix_network_programmin.Exercise.World.Terminated.{stops, Reach-terminated}
use posix_network_programmin.Exercise.Tests.{fine, serving}

abbrev logs : Logs
logs = record { logfd = 5; respfd = 6; srcpath = codes "x.c" ++ 0 ∷ [] }

abbrev cleared : Session
cleared = wipe (record { buffer = fresh 2049; ebuffer = fresh 2049; esize = 0; line = 0 })

cleared-IsLeft :
    IsLeft none (record { buffer = fresh 2049; ebuffer = fresh 2049; esize = 0; line = 0 })
cleared-IsLeft = record { size = length-fresh 2049; esize_bound = length-fresh 2049; holds = refl }

abbrev asks_code : Turn
asks_code = record { input = got (codes "C\n"); answers = serving [] }

abbrev accepts : Turn
accepts = record { input = got (codes "A\n"); answers = serving [] }

abbrev first : Connection
first = admitted connection_service logs (fine 4) 7 cleared

abbrev second : Connection
second = admitted connection_service logs (fine 4) 8 cleared

-- The second connection has read an A, and the first a C.
abbrev both : List Connection
both =
    heard_by connection_service first cleared asks_code
    ∷ heard_by connection_service second cleared accepts
    ∷ []

abbrev server : Server
server =
    server_after (server_after accepting (hear second.setup cleared accepts).0)
      (hear first.setup cleared asks_code).0

Reach-both : Reach connection_service logs (record { server = server; processes = both })
unfolding admitted
Reach-both =
    next
      (next
        (next (next here (admits [] (fine 4) 7 cleared refl))
          (admits (first ∷ []) (fine 4) 8 cleared refl))
        (hears accepting (first ∷ []) [] second cleared accepts refl))
      (hears (server_after accepting (hear second.setup cleared accepts).0) []
        (heard_by connection_service second cleared accepts ∷ []) first cleared asks_code refl)

first-IsTame : IsTame (heard_by connection_service first cleared asks_code)
unfolding admitted heard_by
first-IsTame = record {
  path = codes "x.c";
  apart = record { stdout = omega arith; stderr = omega arith; log = omega arith };
  resp_apart = omega arith;
  source = refl;
  path_ok = omega arith;
  jobs = (codes "C\n", serving [], []) ∷ [];
  turns = refl;
  served = ((omega arith, λ n. cc), tt);
  ready = wipe-IsReady _ cleared-IsLeft;
}

second-IsTame : IsTame (heard_by connection_service second cleared accepts)
unfolding admitted heard_by
second-IsTame = record {
  path = codes "x.c";
  apart = record { stdout = omega arith; stderr = omega arith; log = omega arith };
  resp_apart = omega arith;
  source = refl;
  path_ok = omega arith;
  jobs = (codes "A\n", serving [], []) ∷ [];
  turns = refl;
  served = ((omega arith, λ n. cc), tt);
  ready = wipe-IsReady _ cleared-IsLeft;
}

first-IsApart : IsApart (heard_by connection_service first cleared asks_code)
unfolding admitted heard_by
first-IsApart = record {
  stdout = omega arith;
  stderr = omega arith;
  socket = omega arith;
  log = omega arith;
  transfers = (omega arith, tt);
}

Reach-responses_example :
    output 4 (heard_by connection_service first cleared asks_code).trace ≡ codes "x.c\n" ∷ []
unfolding admitted heard_by responses first-IsTame
Reach-responses_example =
    Reach-responses [] (heard_by connection_service second cleared accepts ∷ [])
      (heard_by connection_service first cleared asks_code) Reach-both refl first-IsTame

Reach-recorded_example :
    output 6 (heard_by connection_service first cleared asks_code).trace ≡ codes "C\n" ∷ []
unfolding admitted heard_by
Reach-recorded_example =
    Reach-recorded [] (heard_by connection_service second cleared accepts ∷ [])
      (heard_by connection_service first cleared asks_code) Reach-both refl first-IsApart

not_broken : server ≢ broken
unfolding server_after
not_broken = ground arith

Reach-terminated_example : server ≡ terminated
unfolding stops first-IsTame second-IsTame
Reach-terminated_example =
    Reach-terminated Reach-both not_broken (first-IsTame, (second-IsTame, tt))

-- An array that held another text before.
abbrev unclean : Session
unclean = record {
  buffer = codes "# bye 209" ++ 0 ∷ fresh 2039;
  ebuffer = fresh 2049;
  esize = 0;
  line = 0;
}
