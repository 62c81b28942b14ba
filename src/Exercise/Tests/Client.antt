-- ===== src/Exercise/Tests/Client.antt =====
-- The dialog of exercise/exercise.c with the service, on concrete messages.
use posix_network_programmin.Prelude.{ℕ, ◌≢◌, refl, true, [], ◌∷◌, ◌++◌, some, arith, codes}
use posix_network_programmin.Cstring.{Bytes, fresh, clear, decimal}
use posix_network_programmin.Cstring.Laws.{length-fresh}
use posix_network_programmin.Posix.{Answer, got}
use posix_network_programmin.Posix.Accept.{Forked, in_parent}
use posix_network_programmin.Exercise.Reply.{max_buffer}
use posix_network_programmin.Exercise.Connection.Invariant.{IsClean, clear-IsClean}
use posix_network_programmin.Exercise.Client.{Message, Client}
use posix_network_programmin.Exercise.Client.Port.{NamesPort}
use posix_network_programmin.Exercise.Client.Turns.{IsExpected}

abbrev client : Client
client = record {
  sockfd = 3;
  logs = record { logfd = 5; respfd = 6; srcpath = codes "x.c" ++ 0 ∷ [] };
}

abbrev socket_of : ℕ → Answer
socket_of fd = record { value = some fd; errno = 0 }

abbrev pub message : Forked → Bytes → Message
message forked text = record {
  input = got text;
  allocated = true;
  forked = forked;
  socket = socket_of 4;
  bound = socket_of 0;
  arrivals = [];
}

abbrev pub start_line : Bytes
start_line = codes "# a b c d e f g h i j 12553"

pub start_line-NamesPort : NamesPort start_line 12553
unfolding decimal
start_line-NamesPort = record {
  first = codes "#";
  others =
      codes "a"
      ∷ codes "b"
      ∷ codes "c"
      ∷ codes "d"
      ∷ codes "e"
      ∷ codes "f"
      ∷ codes "g"
      ∷ codes "h"
      ∷ codes "i"
      ∷ codes "j"
      ∷ codes "12553"
      ∷ [];
  shape = refl;
  proper = (
    (λ n. cc, omega arith),
    (
      (λ n. cc, omega arith),
      (
        (λ n. cc, omega arith),
        (
          (λ n. cc, omega arith),
          (
            (λ n. cc, omega arith),
            (
              (λ n. cc, omega arith),
              (
                (λ n. cc, omega arith),
                (
                  (λ n. cc, omega arith),
                  (
                    (λ n. cc, omega arith),
                    (
                      (λ n. cc, omega arith),
                      ((λ n. cc, omega arith), ((λ n. cc, omega arith), tt)),
                    ),
                  ),
                ),
              ),
            ),
          ),
        ),
      ),
    ),
  );
  short = omega arith;
  twelfth = refl;
  range = omega arith;
}

abbrev pub greeting : Message
greeting = message (in_parent 99) (codes "# Who are you?\n")

abbrev pub start : Message
start = message (in_parent 99) start_line

pub greeting-IsExpected : (n : ℕ) → n ≢ 4 → IsExpected n greeting
greeting-IsExpected n h = record {
  text = codes "# Who are you?\n";
  input = refl;
  some_char = omega arith;
  short = omega arith;
  proper = omega arith;
  fifth = λ e. absurd (h e);
}

pub start-IsExpected : IsExpected 4 start
start-IsExpected = record {
  text = start_line;
  input = refl;
  some_char = omega arith;
  short = omega arith;
  proper = omega arith;
  fifth = λ e. (12553, 99, start_line-NamesPort, refl, refl);
}

pub zeros-IsClean : IsClean (clear max_buffer (fresh 2049))
zeros-IsClean = clear-IsClean (fresh 2049) (length-fresh 2049)
