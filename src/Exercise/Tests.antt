-- ===== src/Exercise/Tests.antt =====
-- Runs of the programs of exercise/ on concrete inputs, and the theorems at inputs that meet their
-- hypotheses.
mod Server
mod Client
mod Connection
mod Whole
mod World
use posix_network_programmin.Prelude.{
  ℕ, ◌≡◌, refl, true, List, [], ◌∷◌, ◌++◌, map, none, some, arith, codes, replicate,
}
use posix_network_programmin.Cstring.{
  Bytes, fresh, to_upper, decimal, occurs, print_int, digits_value, atol_int,
}
use posix_network_programmin.Cstring.Laws.{length-fresh}
use posix_network_programmin.Cstring.Decimal.{atol_int-decimal}
use posix_network_programmin.Posix.{
  Answer, returned, faulted, out_of_bounds, failed_assert, pure, fault, written, write, print,
  connect, close, htons, af_inet, stdout_fileno, exit_success,
}
use posix_network_programmin.Posix.Accept.{Forked, in_child, in_parent}
use posix_network_programmin.Exercise.Server.{Arrival, Logs, accept_loop}
use posix_network_programmin.Exercise.Server.Connections.{IsOpened, accept_loop-responses}
use posix_network_programmin.Exercise.Split.{strtok_all, split}
use posix_network_programmin.Exercise.Split.Count.{surplus}
use posix_network_programmin.Exercise.Split.Words.{words, strtok_all-words}
use posix_network_programmin.Exercise.Split.Laws.{split-words, split_overrun, split-join}
use posix_network_programmin.Exercise.Reply.{copy_loop, Answers, filetransfer, echoer}
use posix_network_programmin.Exercise.Reply.Echo.{echoer_short, reply, echoer_text}
use posix_network_programmin.Exercise.Reply.Transfer.{
  copy_loop_lem, command, Succeeds, filetransfer_lem, filetransfer_overrun,
}
use posix_network_programmin.Exercise.Connection.{Turn, Setup, Session, wipe, serve}
use posix_network_programmin.Exercise.Connection.Invariant.{IsLeft, wipe-IsReady}
use posix_network_programmin.Exercise.Connection.Refines.{turn, serve-responses}

abbrev pub fine : ℕ → Answer
fine n = record { value = some n; errno = 0 }

-- Every call succeeds, and every file has this content.
abbrev pub serving : Bytes → Answers
serving content = record {
  allocated = true;
  sent = fine 5;
  socket = fine 9;
  connected = fine 0;
  file = λ _. some content;
  ch = 0;
}

pub serving-Succeeds : (path content : Bytes) → Succeeds (serving content) path content 9
serving-Succeeds path content = record {
  allocated = refl;
  sent = (5, refl);
  socket = refl;
  connected = (0, refl);
  file = refl;
}

split-words_example : split true (codes " E hi" ++ 0 ∷ codes "junk") 0x20 ≡ fault failed_assert
unfolding surplus
split-words_example = split-words (codes " E hi") (codes "junk") 0x20 (omega arith) (omega arith)

split_overrun_example : split true (replicate 256 b'a' ++ 0 ∷ []) 0x20 ≡ fault out_of_bounds
split_overrun_example = split_overrun true (replicate 256 b'a') [] 0x20 (omega arith) (omega arith)

split-join_example :
    split true (codes "F /tmp/x 80" ++ 0 ∷ []) 0x20
    ≡ pure (some (codes "F" ∷ codes "/tmp/x" ∷ codes "80" ∷ []))
split-join_example =
    split-join 0x20 (codes "F") (codes "/tmp/x" ∷ codes "80" ∷ []) [] (omega arith)
      ((λ n. cc, omega arith), ((λ n. cc, omega arith), ((λ n. cc, omega arith), tt))) (omega arith)

filetransfer_lem_example :
    filetransfer 4 (command (codes "/tmp/x") 80 ++ 0 ∷ []) 7 (serving (codes "data")) ≡ (
      print stdout_fileno (codes "Filetransfer port :" ++ (print_int 80 ++ codes "\n"))
          ∷ connect 9 (record { family = af_inet; port = htons 80; addr = 7 })
          ∷ write 4 (decimal 4 ++ codes "\n")
          ∷ print stdout_fileno (codes "Filetransfer read " ++ (print_int 4 ++ codes " bytes\n"))
          ∷ write 9 (codes "data")
          ∷ close 9
          ∷ [],
      returned exit_success,
    )
filetransfer_lem_example =
    filetransfer_lem 4 7 9 80 (codes "/tmp/x") (codes "data") [] (serving (codes "data"))
      (λ n. cc, omega arith) (omega arith) (unfold decimal in omega arith)
      (serving-Succeeds (codes "/tmp/x") (codes "data")) (omega arith)

filetransfer_overrun_example :
    filetransfer 4 (command (codes "/tmp/x") 80 ++ 0 ∷ []) 7 (serving (0xff ∷ [])) ≡ (
      print stdout_fileno (codes "Filetransfer port :" ++ (print_int 80 ++ codes "\n"))
          ∷ connect 9 (record { family = af_inet; port = htons 80; addr = 7 })
          ∷ write 4 (decimal 1 ++ codes "\n")
          ∷ [],
      faulted out_of_bounds,
    )
filetransfer_overrun_example =
    filetransfer_overrun 4 7 9 80 (codes "/tmp/x") (0xff ∷ []) [] (serving (0xff ∷ []))
      (λ n. cc, omega arith) (omega arith) (unfold decimal in omega arith)
      (serving-Succeeds (codes "/tmp/x") (0xff ∷ [])) refl
