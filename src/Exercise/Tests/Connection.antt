-- ===== src/Exercise/Tests/Connection.antt =====
-- A connection of exercise/exercise.c on concrete messages.
use posix_network_programmin.Prelude.{
  ℕ, ◌≡◌, refl, List, [], ◌∷◌, ◌++◌, map, none, arith, codes, replicate, inl,
}
use posix_network_programmin.Cstring.{fresh, to_upper, decimal, occurs}
use posix_network_programmin.Cstring.Laws.{length-fresh}
use posix_network_programmin.Posix.{returned, faulted, out_of_bounds, got, exit_success}
use posix_network_programmin.Posix.Accept.{Forked, in_child}
use posix_network_programmin.Exercise.Server.{Arrival, Logs}
use posix_network_programmin.Exercise.Server.Connections.{IsOpened}
use posix_network_programmin.Exercise.Reply.Transfer.{command}
use posix_network_programmin.Exercise.Connection.{Turn, Setup, Session, wipe, serve}
use posix_network_programmin.Exercise.Connection.Invariant.{IsLeft, wipe-IsReady}
use posix_network_programmin.Exercise.Connection.Invariant.{IsMessage}
use posix_network_programmin.Exercise.Connection.File.{IsFileCommand}
use posix_network_programmin.Exercise.Connection.Overrun.{serve_overrun}
use posix_network_programmin.Exercise.Connection.Protocol.{responses, ends}
use posix_network_programmin.Exercise.Connection.Refines.{Job, IsServed, turn}
use posix_network_programmin.Posix.Output.{output}
use posix_network_programmin.Exercise.Connection.Output.{serve-output}
use posix_network_programmin.Exercise.Tests.{fine, serving, serving-Succeeds}
use posix_network_programmin.Prelude.{All}

abbrev server : Setup
server = record {
  sockfd = 4;
  logfd = 5;
  respfd = 6;
  client_ip = 7;
  srcpath = codes "x.c" ++ 0 ∷ [];
}

abbrev opened : Session
opened = record { buffer = fresh 2049; ebuffer = fresh 2049; esize = 0; line = 0 }

opened-IsLeft : IsLeft none opened
opened-IsLeft = record { size = length-fresh 2049; esize_bound = length-fresh 2049; holds = refl }

abbrev pub messages : List Job
messages =
    (codes "E hi ", serving [], [])
    ∷ (codes "you\n", serving [], [])
    ∷ (codes "E a\n", serving [], [])
    ∷ (codes "C\n", serving [], [])
    ∷ (command (codes "/tmp/x") 80, serving (codes "data"), codes "data")
    ∷ (codes "E b\n", serving [], [])
    ∷ (codes "Q\n", serving [], [])
    ∷ []

command-IsMessage : IsMessage (command (codes "/tmp/x") 80)
command-IsMessage = unfold decimal in omega arith

asks_file : IsFileCommand 4 (serving (codes "data")) (command (codes "/tmp/x") 80) (codes "data")
asks_file = record {
  path = codes "/tmp/x";
  port = 80;
  fd = 9;
  shape = refl;
  word = (λ n. cc, omega arith);
  port_bound = omega arith;
  short = unfold decimal in omega arith;
  succeeds = serving-Succeeds (codes "/tmp/x") (codes "data");
  apart = omega arith;
  last = omega arith;
}

messages-IsServed : All (IsServed 4) messages
messages-IsServed = (
  (omega arith, λ n. cc),
  (
    (omega arith, λ n. cc),
    (
      (omega arith, λ n. cc),
      (
        (omega arith, λ n. cc),
        (
          (command-IsMessage, λ n. asks_file),
          ((omega arith, λ n. cc), ((omega arith, λ n. cc), tt)),
        ),
      ),
    ),
  ),
)

serve-output_example :
    (output 4 (serve server (wipe opened) (map turn messages)).0
      ≡ codes "E HI YOU\n"
        ∷ codes "x.c\n"
        ∷ codes "4\n"
        ∷ (codes "E A\n" ++ 0 ∷ 0 ∷ 0 ∷ 0 ∷ [])
        ∷ [])
    × ((serve server (wipe opened) (map turn messages)).1 ≡ returned exit_success)
unfolding responses ends occurs to_upper decimal
serve-output_example =
    serve-output server (codes "x.c") messages none (wipe opened)
      (record { stdout = omega arith; stderr = omega arith; log = omega arith }) (omega arith) refl
      (omega arith) messages-IsServed (wipe-IsReady opened opened-IsLeft)

abbrev pub logs : Logs
logs = record { logfd = 5; respfd = 6; srcpath = codes "x.c" ++ 0 ∷ [] }

-- A connection of another process, and the one with the messages.
abbrev pub arrival : ℕ → Forked → List Turn → Arrival
arrival sockfd forked turns = record {
  accepted = fine sockfd;
  peer = 7;
  forked = forked;
  pid = 300;
  locals = wipe opened;
  turns = turns;
}

pub arrival-IsOpened :
    IsOpened logs (arrival 4 in_child (map turn messages)) 4 (codes "x.c") messages
arrival-IsOpened = record {
  accepted = refl;
  forked = refl;
  turns = refl;
  served = messages-IsServed;
  locals = wipe-IsReady opened opened-IsLeft;
  log_apart = omega arith;
  resp_apart = omega arith;
  source = refl;
  path_ok = omega arith;
}

-- A command of 1025 chars, and as many behind it.
serve_overrun_example :
    (serve server (wipe opened) (
      record { input = got (b'E' ∷ replicate 1024 b'a'); answers = serving [] }
      ∷ record { input = got (b'x' ∷ replicate 1024 b'a'); answers = serving [] }
      ∷ [])).1
    ≡ faulted out_of_bounds
serve_overrun_example =
    serve_overrun server (wipe opened) (serving []) (serving []) (replicate 1024 b'a') b'x'
      (replicate 1024 b'a') [] (wipe-IsReady opened opened-IsLeft) (omega arith) (omega arith)
      (inl refl) (omega arith)
