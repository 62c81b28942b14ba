-- ===== src/Copies.antt =====
-- week1/teht2a.c, teht2b.c and teht4.c, and week2/teht5.c: programs that copy what they read, once or
-- twice. The result of a read is kept as the test whether it is positive, so that an error ends a loop
-- as the end of the input does.
pub mod Cat
pub mod Twice
pub mod Pipe
pub mod Scan
pub mod Junk
mod Tests
use posix_network_programmin.Prelude.{
  ℕ, Bool, List, [], ◌∷◌, ◌++◌, Option, none, some, ltb, if◌then◌else◌, length, take, codes,
}
use posix_network_programmin.Cstring.{Bytes, fresh, c_str, overwrite, clear, memcpy_at}
use posix_network_programmin.Posix.{
  Proc, blocked, pure, call, exit, checked, ◌>>=◌, ◌>>◌, ReadResult, got, failed, write, print,
  perror, open_read, close, wait, on_signal, Answer, is_error, descriptor, stdout_fileno,
  exit_success, exit_failure,
}
use posix_network_programmin.Posix.Accept.{Forked, no_process, in_child, in_parent}

-- week1/teht4.c, the loop: `sizeof (*buffer)` is 1, and so is the length that is written.
unfoldable pub cat_loop : ℕ → Bytes → List ReadResult → Proc (Unit {0})
cat_loop fd buffer [] = ([], blocked)
cat_loop fd buffer (failed errno ∷ rest) = call (close fd)
cat_loop fd buffer (got [] ∷ rest) = call (close fd)
cat_loop fd buffer (got (c ∷ cs) ∷ rest) =
    let filled = overwrite (c ∷ cs) buffer in
    call (write stdout_fileno (take 1 filled)) >> cat_loop fd filled rest

unfoldable pub cat_main : List Bytes → Answer → Bytes → List ReadResult → Proc ℕ
unfolding cat_loop
cat_main (program ∷ path ∷ []) opened buffer reads = do
  call (on_signal 2)
  call (open_read path)
  if is_error opened
      then exit exit_failure
      else (do cat_loop (descriptor opened) buffer reads; pure exit_success)
cat_main words opened buffer reads = do call (on_signal 2); exit exit_failure

-- `handle_sigint`: the message goes out with the NUL behind it.
unfoldable pub handle_sigint : Proc (Unit {0})
handle_sigint = do
  call (write stdout_fileno (codes "\n\nCaught signal\n" ++ 0 ∷ []))
  exit exit_failure

-- week1/teht2b.c
unfoldable pub twice_turn : Bytes → Bytes → Proc Bytes
twice_turn buffer input = do
  let filled = overwrite input buffer
  text ← checked (c_str filled)
  call (write stdout_fileno text)
  call (write stdout_fileno text)
  pure (clear 500 filled)

unfoldable pub twice_loop : Bytes → List ReadResult → Proc ℕ
twice_loop buffer [] = ([], blocked)
twice_loop buffer (failed errno ∷ rest) = pure exit_success
twice_loop buffer (got [] ∷ rest) = pure exit_success
twice_loop buffer (got (c ∷ cs) ∷ rest) =
    twice_turn buffer (c ∷ cs) >>= λ next. twice_loop next rest

unfoldable pub twice_main : List ReadResult → Proc ℕ
unfolding twice_loop
twice_main reads = twice_loop (fresh 500) reads

-- week1/teht2a.c, the loop over the lines of a file: getline leaves the newline on the line, and the
-- second copy gets one more. The lines, which hold no NUL, are those that it gives before its -1.
unfoldable pub print_twice : List Bytes → Proc ℕ
print_twice [] = pure exit_success
print_twice (line ∷ lines) = do
  call (print stdout_fileno line)
  call (print stdout_fileno (line ++ codes "\n"))
  print_twice lines

-- The loop over scanf, one turn and all of it. A turn has the word that scanf read, or `none` at the
-- end of the input, where it stores nothing; the array of the turn is the one of the turn before.
unfoldable pub scan_in : Option Bytes → Bytes → Option Bytes
scan_in none read_str = some read_str
scan_in (some word) read_str = memcpy_at 0 (word ++ 0 ∷ []) read_str

unfoldable pub scan_turn : Bytes → Option Bytes → Proc Bytes
scan_turn read_str word = do
  filled ← checked (scan_in word read_str)
  text ← checked (c_str filled)
  call (print stdout_fileno text)
  call (print stdout_fileno (text ++ codes "\n"))
  pure filled

unfoldable pub scan_loop : Bytes → List (Option Bytes) → Proc ℕ
scan_loop read_str [] = ([], blocked)
scan_loop read_str (word ∷ words) = scan_turn read_str word >>= λ next. scan_loop next words

-- `main`, with whether fopen succeeds, and the array `readStr` as it is at first
unfoldable pub stdio_main : List Bytes → Bool → List Bytes → Bytes → List (Option Bytes) → Proc ℕ
unfolding print_twice scan_loop
stdio_main (program ∷ path ∷ []) is_open lines read_str words = do
  call (open_read path)
  if is_open then print_twice lines else exit exit_failure
stdio_main args is_open lines read_str words = scan_loop read_str words

-- week2/teht5.c, `reader`, one turn
unfoldable pub send_turn : ℕ → ℕ → Bytes → Bytes → Proc Bytes
send_turn max_buffer fd1 buffer input = do
  let filled = overwrite input buffer
  text ← checked (c_str filled)
  if ltb max_buffer (length text)
      then (do call (close fd1); call wait; exit exit_failure)
      else (do call (write fd1 text); pure (clear max_buffer filled))

unfoldable pub send_end : ℕ → Proc (Unit {0})
send_end fd1 = do call (close fd1); call wait

unfoldable pub send_loop : ℕ → ℕ → Bytes → List ReadResult → Proc (Unit {0})
unfolding send_end
send_loop max_buffer fd1 buffer [] = ([], blocked)
send_loop max_buffer fd1 buffer (failed errno ∷ rest) = send_end fd1
send_loop max_buffer fd1 buffer (got [] ∷ rest) = send_end fd1
send_loop max_buffer fd1 buffer (got (c ∷ cs) ∷ rest) =
    send_turn max_buffer fd1 buffer (c ∷ cs) >>= λ next. send_loop max_buffer fd1 next rest

-- `doubler`, one turn
unfoldable pub double_turn : ℕ → ℕ → Bytes → Bytes → Proc Bytes
double_turn max_buffer fd0 buffer input = do
  let filled = overwrite input buffer
  text ← checked (c_str filled)
  if ltb max_buffer (length text) then (do call (close fd0); exit exit_failure) else (do
    call (write stdout_fileno text)
    call (write stdout_fileno text)
    pure (clear max_buffer filled))

unfoldable pub double_loop : ℕ → ℕ → Bytes → List ReadResult → Proc (Unit {0})
double_loop max_buffer fd0 buffer [] = ([], blocked)
double_loop max_buffer fd0 buffer (failed errno ∷ rest) = call (close fd0)
double_loop max_buffer fd0 buffer (got [] ∷ rest) = call (close fd0)
double_loop max_buffer fd0 buffer (got (c ∷ cs) ∷ rest) =
    double_turn max_buffer fd0 buffer (c ∷ cs) >>= λ next. double_loop max_buffer fd0 next rest

-- What pipe returned: an errno, or its two ends.
pub data PipeEnds : Type 0 where
  no_pipe : (errno : ℕ) → PipeEnds
  ends : (fd0 fd1 : ℕ) → PipeEnds

-- Each side closes the end of the pipe that it does not use, and runs on the reads that it gets.
unfoldable pub either_side : ℕ → ℕ → Forked → Bytes → List ReadResult → Proc ℕ
unfolding send_loop double_loop
either_side fd0 fd1 (no_process errno) buffer reads = do
  call (perror (codes "fork Failed") errno)
  exit exit_failure
either_side fd0 fd1 (in_parent pid) buffer reads = do
  call (close fd0)
  send_loop 100 fd1 buffer reads
  exit exit_success
either_side fd0 fd1 in_child buffer reads = do
  call (close fd1)
  double_loop 100 fd0 buffer reads
  exit exit_success

unfoldable pub pipe_main : PipeEnds → Forked → Bytes → List ReadResult → Proc ℕ
unfolding either_side
pipe_main (no_pipe errno) forked buffer reads = do
  call (perror (codes "Pipe Failed") errno)
  exit exit_failure
pipe_main (ends fd0 fd1) forked buffer reads = either_side fd0 fd1 forked buffer reads
