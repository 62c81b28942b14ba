-- ===== src/Exercise/Tests/Whole.antt =====
-- Runs of exercise/exercise.c from its command line on.
use posix_network_programmin.Prelude.{◌≡◌, refl, List, [], ◌∷◌, ◌++◌, map, none, some, arith, codes}
use posix_network_programmin.Cstring.{fresh, clear, decimal, occurs, to_upper}
use posix_network_programmin.Posix.{blocked, exited, written, exit_success, exit_failure}
use posix_network_programmin.Posix.Accept.{in_child, in_parent}
use posix_network_programmin.Exercise.Reply.{max_buffer}
use posix_network_programmin.Exercise.Connection.Protocol.{responses, ends}
use posix_network_programmin.Exercise.Connection.Refines.{turn}
use posix_network_programmin.Exercise.Client.{Message, Start, main}
use posix_network_programmin.Exercise.Client.Whole.{IsConnected, IsServing, StartsServer, client_of}
use posix_network_programmin.Posix.Output.{output}
use posix_network_programmin.Exercise.Client.Output.{main-output}
use posix_network_programmin.Exercise.Client.Failures.{main_failed}
use posix_network_programmin.Exercise.Client.Greets.{main-greets}
use posix_network_programmin.Exercise.Tests.{fine}
use posix_network_programmin.Exercise.Tests.Client.{
  start_line, start_line-NamesPort, message, greeting, greeting-IsExpected, start, start-IsExpected,
  zeros-IsClean,
}
use posix_network_programmin.Exercise.Tests.Connection.{messages, arrival, arrival-IsOpened}

abbrev begins : Start
begins = record {
  service = some 0x3905;
  host = some (record { addrtype = 2; addr = 7 });
  socket = fine 3;
  connected = fine 0;
  logfile = fine 5;
  response_file = fine 6;
  n = 0;
  buffer = clear max_buffer (fresh 2049);
}

begins-IsConnected : IsConnected begins
begins-IsConnected = record {
  service = (0x3905, refl);
  host = (_, refl);
  socket = (3, refl);
  connected = (0, refl);
}

abbrev fifth : Message
fifth = record (message in_child start_line) {
  socket = fine 3;
  arrivals = arrival 9 (in_parent 301) [] ∷ arrival 4 in_child (map turn messages) ∷ [];
}

fifth-StartsServer : StartsServer fifth
fifth-StartsServer = record {
  text = start_line;
  input = refl;
  some_char = omega arith;
  short = omega arith;
  port = 12553;
  names = start_line-NamesPort;
  allocated = refl;
  forked = refl;
}

fifth-IsServing : IsServing fifth (client_of begins (codes "x.c")).logs 4 (codes "x.c") messages
fifth-IsServing = record {
  socket = (3, refl);
  bound = (0, refl);
  before = arrival 9 (in_parent 301) [] ∷ [];
  arrival = arrival 4 in_child (map turn messages);
  later = [];
  arrivals = refl;
  passed = (tt, tt);
  opened = arrival-IsOpened;
}

abbrev first : List Message
first = greeting ∷ greeting ∷ greeting ∷ greeting ∷ []

main-output_example :
    (output 4 (main (codes "./exercise" ∷ codes "x.c" ∷ []) begins (first ++ fifth ∷ [])).0
      ≡ codes "E HI YOU\n"
        ∷ codes "x.c\n"
        ∷ codes "4\n"
        ∷ (codes "E A\n" ++ 0 ∷ 0 ∷ 0 ∷ 0 ∷ [])
        ∷ [])
    × ((main (codes "./exercise" ∷ codes "x.c" ∷ []) begins (first ++ fifth ∷ [])).1
        ≡ exited exit_success)
unfolding responses ends occurs to_upper decimal
main-output_example =
    main-output 4 (codes "x.c") messages (codes "./exercise") begins first fifth []
      begins-IsConnected refl zeros-IsClean refl
      (
        greeting-IsExpected 0 (omega arith),
        (
          greeting-IsExpected 1 (omega arith),
          (greeting-IsExpected 2 (omega arith), (greeting-IsExpected 3 (omega arith), tt)),
        ),
      )
      fifth-StartsServer fifth-IsServing (omega arith) (omega arith) (omega arith)

main-greets_example :
    (output 3
        (main (codes "./exercise" ∷ codes "x.c" ∷ []) begins (first ++ start ∷ greeting ∷ [])).0
      ≡ codes "HELLO\n" ∷ codes "joonahal\n" ∷ [])
    × ((main (codes "./exercise" ∷ codes "x.c" ∷ []) begins (first ++ start ∷ greeting ∷ [])).1
        ≡ blocked)
main-greets_example =
    main-greets (codes "./exercise") (codes "x.c") begins (first ++ start ∷ greeting ∷ [])
      begins-IsConnected refl zeros-IsClean (omega arith) (omega arith) (omega arith)
      (
        greeting-IsExpected 0 (omega arith),
        (
          greeting-IsExpected 1 (omega arith),
          (
            greeting-IsExpected 2 (omega arith),
            (
              greeting-IsExpected 3 (omega arith),
              (start-IsExpected, (greeting-IsExpected 5 (omega arith), tt)),
            ),
          ),
        ),
      )
      (omega arith)

-- The connection is refused.
main_failed_example :
    (written 3
        (main
          (codes "./exercise" ∷ codes "x.c" ∷ [])
          (record begins { connected = record { value = none; errno = 111 } })
          first).0
      ≡ [])
    × ((main
          (codes "./exercise" ∷ codes "x.c" ∷ [])
          (record begins { connected = record { value = none; errno = 111 } })
          first).1
        ≡ exited exit_failure)
main_failed_example =
    main_failed 3 (codes "./exercise") (codes "x.c" ∷ [])
      (record begins { connected = record { value = none; errno = 111 } }) first refl
