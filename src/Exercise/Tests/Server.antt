-- ===== src/Exercise/Tests/Server.antt =====
-- The server loop of exercise/exercise.c on concrete arrivals.
use posix_network_programmin.Prelude.{
  arith, inr, ℕ, ◌≡◌, refl, List, [], ◌∷◌, ◌++◌, none, some, codes,
}
use posix_network_programmin.Cstring.{fresh}
use posix_network_programmin.Posix.{Answer, blocked}
use posix_network_programmin.Posix.Accept.{Forked, is_transient, no_process, in_child, in_parent}
use posix_network_programmin.Exercise.Server.{Arrival, Logs, accept_loop, child_server}
use posix_network_programmin.Exercise.Server.Laws.{
  closed, accept_loop-GoesOn, HasFailed, child_server_failed,
}

abbrev arrival : Answer → Forked → Arrival
arrival accepted forked = record {
  accepted = accepted;
  peer = 0x0100007f;
  forked = forked;
  pid = 300;
  locals = record { buffer = fresh 2049; ebuffer = fresh 2049; esize = 0; line = 0 };
  turns = [];
}

abbrev socket_of : ℕ → Answer
socket_of fd = record { value = some fd; errno = 0 }

abbrev error_of : ℕ → Answer
error_of errno = record { value = none; errno = errno }

abbrev logs : Logs
logs = record { logfd = 5; respfd = 6; srcpath = codes "x.c" ++ 0 ∷ [] }

-- A connection, a transient error, a fork that fails, and another connection.
abbrev arrivals : List Arrival
arrivals =
    arrival (socket_of 7) (in_parent 301)
    ∷ arrival (error_of 113) in_child
    ∷ arrival (socket_of 8) (no_process 11)
    ∷ arrival (socket_of 9) (in_parent 302)
    ∷ []

accept_loop-GoesOn_example :
    (closed (accept_loop 4 logs arrivals).0 ≡ 7 ∷ 9 ∷ [])
    × ((accept_loop 4 logs arrivals).1 ≡ blocked)
unfolding is_transient
accept_loop-GoesOn_example = accept_loop-GoesOn 4 logs arrivals (tt, (refl, (tt, (tt, tt))))

child_server_failed_example : HasFailed 7 (
    child_server 5000 logs
      (socket_of 4)
      (socket_of 0)
      (arrivals ++ arrival (error_of 24) in_child ∷ arrivals))
unfolding is_transient
child_server_failed_example =
    child_server_failed 7 5000 logs (socket_of 4) (socket_of 0) arrivals
      (arrival (error_of 24) in_child) arrivals (omega arith) (omega arith)
      (inr (inr ((tt, (refl, (tt, (tt, tt)))), (refl, refl))))
