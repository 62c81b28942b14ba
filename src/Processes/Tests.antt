-- ===== src/Processes/Tests.antt =====
-- The new process of week2/testPipe.c with a short word and a long one.
use posix_network_programmin.Prelude.{◌≡◌, [], ◌∷◌, ◌++◌, arith, codes}
use posix_network_programmin.Cstring.{fresh}
use posix_network_programmin.Cstring.Laws.{length-fresh}
use posix_network_programmin.Posix.{exited, got, print, close, stdout_fileno, exit_success}
use posix_network_programmin.Processes.{join_fixed}
use posix_network_programmin.Processes.Concat.{join_fixed_lem}

join_fixed_lem_example : join_fixed 3 4 (got (codes "geeks" ++ 0 ∷ [])) (fresh 100) ≡ (
  close 4 ∷ close 3 ∷ print stdout_fileno (codes "Concatenated string geeksforgeeks.org\n") ∷ [],
  exited exit_success,
)
join_fixed_lem_example =
    join_fixed_lem 3 4 (codes "geeks") (fresh 100) (omega arith) (omega arith) (length-fresh 100)
