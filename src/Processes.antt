-- ===== src/Processes.antt =====
-- week2/teht2.c and week2/testPipe.c: a process that runs a program in a new process, and one that hands
-- a word to a new process over a pipe.
pub mod Concat
mod Tests
use posix_network_programmin.Prelude.{
  ℕ, suc, ◌+◌, Bool, List, [], ◌∷◌, ◌++◌, Option, none, some, ltb, ◌==◌, if◌then◌else◌, length,
  codes,
}
use posix_network_programmin.Cstring.{Bytes, c_str, overwrite, memcpy_at, print_int}
use posix_network_programmin.Posix.{
  Proc, blocked, pure, call, exit, checked, fault, out_of_bounds, ◌>>=◌, ◌>>◌, ReadResult, got,
  failed, write, print, close, wait, exec, stdout_fileno, stderr_fileno, exit_success, exit_failure,
}
use posix_network_programmin.Posix.Accept.{Forked, no_process, in_child, in_parent}

-- week2/teht2.c, `do_child`, where execv returned with an error. With an argument the array of the words
-- has no null pointer behind them, and execv reads on past its end.
unfoldable pub do_child : Bytes → Option Bytes → Proc (Unit {0})
do_child path none = call (exec path (path ∷ []))
do_child path (some arg) = fault out_of_bounds

-- The process that execv gave back returns from `main` with 0.
unfoldable pub run_child : List Bytes → Proc ℕ
unfolding do_child
run_child (program ∷ path ∷ []) = do do_child path none; pure exit_success
run_child (program ∷ path ∷ arg ∷ []) = do do_child path (some arg); pure exit_success
run_child words = pure exit_success

-- The old process. The list holds what wait returns; `childPid` keeps whether that was another process
-- than the new one, and so is 0 when the loop ends.
unfoldable pub await : ℕ → List ℕ → Proc (Unit {0})
await pid [] = (wait ∷ [], blocked)
await pid (w ∷ ws) = let rest = await pid ws in call wait >> (if w == pid then pure tt else rest)

unfoldable pub parent : ℕ → List ℕ → Proc ℕ
unfolding await
parent pid waits = do
  call (print stdout_fileno (codes " i = 1 \n"))
  call (print stdout_fileno (codes " i = 2 \n"))
  call (print stdout_fileno (codes " i = 3 \n"))
  call (print stdout_fileno (codes " i = 4 \n"))
  call (print stdout_fileno (codes " i = 5 \n"))
  await pid waits
  call (print stdout_fileno (codes "Child process exit status: 0\n"))
  exit exit_success

unfoldable pub either_process : Forked → List Bytes → List ℕ → Proc ℕ
unfolding run_child parent
either_process (no_process errno) words waits = exit exit_failure
either_process (in_parent pid) words waits = parent pid waits
either_process in_child words waits = run_child words

unfoldable pub runner_main : Forked → List Bytes → List ℕ → Proc ℕ
unfolding either_process
runner_main forked words waits =
    if ltb (length words) 2
    then (do
      call (
          print stdout_fileno
            (codes "Usage: " ++ (program words ++ codes " <pathname> <optional arg>\n")))
      exit exit_failure)
    else either_process forked words waits
  where
    program : List Bytes → Bytes
    program [] = codes "(null)"
    program (w ∷ ws) = w

-- week2/testPipe.c: what scanf stores in `input_str`, of 100 chars
unfoldable pub scanned : Bytes → Bytes → Option Bytes
scanned word input_str = memcpy_at 0 (word ++ 0 ∷ []) input_str

-- The old process sends the word with its NUL.
unfoldable pub send_word : ℕ → ℕ → Bytes → Proc ℕ
send_word fd0 fd1 input_str = do
  call (close fd0)
  text ← checked (c_str input_str)
  call (write fd1 (text ++ 0 ∷ []))
  call (close fd1)
  call wait
  pure exit_success

-- The array after the read, and with the fixed string put behind the text in it.
unfoldable pub filled_by : ReadResult → Bytes → Bytes
filled_by (failed errno) concat_str = concat_str
filled_by (got bytes) concat_str = overwrite bytes concat_str

abbrev pub fixed_str : Bytes
fixed_str = codes "forgeeks.org"

unfoldable pub join_fixed : ℕ → ℕ → ReadResult → Bytes → Proc ℕ
unfolding filled_by
join_fixed fd0 fd1 input concat_str = do
  call (close fd1)
  let filled = filled_by input concat_str
  text ← checked (c_str filled)
  joined ← checked (memcpy_at (length text) (fixed_str ++ 0 ∷ []) filled)
  call (close fd0)
  whole ← checked (c_str joined)
  call (print stdout_fileno (codes "Concatenated string " ++ (whole ++ codes "\n")))
  exit exit_success

unfoldable pub after_scan : ℕ → ℕ → Forked → Bytes → ReadResult → Bytes → Proc ℕ
unfolding send_word join_fixed
after_scan fd0 fd1 (no_process errno) input_str input concat_str = do
  call (print stderr_fileno (codes "fork Failed"))
  pure 1
after_scan fd0 fd1 (in_parent pid) input_str input concat_str = send_word fd0 fd1 input_str
after_scan fd0 fd1 in_child input_str input concat_str = join_fixed fd0 fd1 input concat_str

-- `main`, on the two ends of the pipe if there is one, the word that scanf reads, and the two arrays
-- as they are at first
unfoldable pub pipe_test_main :
    Option (ℕ × ℕ) → Bytes → Forked → Bytes → ReadResult → Bytes → Proc ℕ
unfolding scanned after_scan
pipe_test_main none word forked input_str input concat_str = do
  call (print stderr_fileno (codes "Pipe Failed"))
  pure 1
pipe_test_main (some (fd0, fd1)) word forked input_str input concat_str = do
  stored ← checked (scanned word input_str)
  after_scan fd0 fd1 forked stored input concat_str
