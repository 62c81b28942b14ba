-- ===== src/Pipeline.antt =====
-- week3/teht1_1.c, teht1_2.c and teht1_3.c: a reader, a converter and a doubler, joined by two named
-- pipes. None of them leaves its loop but by an error, so a run is blocked at the end of its input, and
-- the calls of close and unlink behind the loops of `reader`, `converter` and `doubler` are not made.
pub mod Reader
pub mod Converter
pub mod Doubler
pub mod Whole
mod Tests
use mathlib.Core.Option
use posix_network_programmin.Prelude.{
  ℕ, ◌+◌, Bool, List, [], ◌∷◌, ◌++◌, Option, none, some, ◌==◌, leb, if◌then◌else◌, length, codes,
}
use posix_network_programmin.Cstring.{
  Bytes, c_str, overwrite, clear, is_upper, to_upper, to_lower, decimal,
}
use posix_network_programmin.Posix.{
  Proc, blocked, pure, call, exit, checked, ◌>>=◌, ◌>>◌, ReadResult, got, failed, write, print,
  perror, open_read, open_write, close, mkfifo, unlink, Answer, is_error, descriptor, stdout_fileno,
  exit_success, exit_failure,
}

-- The array after a read whose result is ignored.
unfoldable pub after_input : ReadResult → Bytes → Bytes
after_input (failed errno) buffer = buffer
after_input (got input) buffer = overwrite input buffer

-- `reader`, one turn on a successful read: the whole array is written, and set to 0.
unfoldable pub reader_turn : ℕ → ℕ → Bytes → Bytes → Proc Bytes
reader_turn max_buffer fd buffer input = do
  let filled = overwrite input buffer
  text ← checked (c_str filled)
  if leb (length text) max_buffer
      then (do call (write fd filled); pure (clear max_buffer filled))
      else pure filled

unfoldable pub reader_loop : ℕ → ℕ → Bytes → List ReadResult → Proc (Unit {0})
reader_loop max_buffer fd buffer [] = ([], blocked)
reader_loop max_buffer fd buffer (failed errno ∷ rest) = do
  call (perror (codes "READER: Couldnt read STDIN ") errno)
  exit exit_failure
reader_loop max_buffer fd buffer (got input ∷ rest) =
    reader_turn max_buffer fd buffer input >>= λ next. reader_loop max_buffer fd next rest

-- `reader`; `buffer` is the array before anything was written to it.
unfoldable pub reader : ℕ → Bytes → Answer → Bytes → List ReadResult → Proc (Unit {0})
unfolding reader_loop
reader max_buffer fifo_path opened buffer inputs = do
  call (open_write fifo_path)
  if is_error opened
      then (do
        call (perror (codes "READER: can't open write fifo") opened.errno)
        exit exit_failure)
      else reader_loop max_buffer (descriptor opened) buffer inputs

unfoldable pub reader_main : Answer → Bytes → List ReadResult → Answer → Proc ℕ
unfolding reader
reader_main opened buffer inputs unlinked = do
  call (mkfifo (codes "./myfifo1"))
  reader 100 (codes "./myfifo1") opened buffer inputs
  call (unlink (codes "./myfifo1"))
  (if is_error unlinked
      then call (perror (codes "READER: can't unlink") unlinked.errno)
      else pure tt)
  exit exit_success

-- The body of the loop over the chars.
unfoldable pub swap_case : ℕ → ℕ
unfolding is_upper to_lower to_upper
swap_case c = if is_upper c then to_lower c else to_upper c

-- for (i = 0; buffer[i] != 0; i++)
unfoldable pub convert : Bytes → Option Bytes
unfolding swap_case
convert [] = none
convert (c ∷ cs) = if c == 0 then some (c ∷ cs) else Option.map (◌∷◌ (swap_case c)) (convert cs)

-- `converter`, one turn; an error of the read, or the end of its input, is not looked at.
unfoldable pub converter_turn : ℕ → ℕ → Bytes → ReadResult → Proc Bytes
converter_turn max_buffer write_fd buffer input = do
  converted ← checked (convert (after_input input buffer))
  text ← checked (c_str converted)
  call (write write_fd text)
  pure (clear max_buffer converted)

unfoldable pub converter_loop : ℕ → ℕ → Bytes → List ReadResult → Proc (Unit {0})
converter_loop max_buffer write_fd buffer [] = ([], blocked)
converter_loop max_buffer write_fd buffer (input ∷ rest) =
    converter_turn max_buffer write_fd buffer input >>= λ next.
    converter_loop max_buffer write_fd next rest

unfoldable pub converter :
    ℕ → Bytes → Bytes → Answer → Answer → Bytes → List ReadResult → Proc (Unit {0})
unfolding converter_loop
converter max_buffer fifo_path1 fifo_path2 read_opened write_opened buffer inputs = do
  call (open_read fifo_path1)
  if is_error read_opened
      then (do
        call (perror (codes "CONVERTER: can't open read fifo") read_opened.errno)
        exit exit_failure)
      else (do
        call (open_write fifo_path2)
        if is_error write_opened
            then (do
              call (perror (codes "CONVERTER: can't open write fifo") write_opened.errno)
              exit exit_failure)
            else converter_loop max_buffer (descriptor write_opened) buffer inputs)

-- mkfifo, whose failure is reported and passed over
unfoldable pub make_fifo : Bytes → Bytes → Answer → Proc (Unit {0})
make_fifo path message made = do
  call (mkfifo path)
  if is_error made then call (perror message made.errno) else pure tt

unfoldable pub converter_main : Answer → Answer → Answer → Answer → Bytes → List ReadResult → Proc ℕ
unfolding make_fifo converter
converter_main made1 made2 read_opened write_opened buffer inputs = do
  make_fifo (codes "./myfifo1") (codes "CONVERTER: Couldn't create fifo1.") made1
  make_fifo (codes "./myfifo2") (codes "CONVERTER: Couldn't create fifo2.") made2
  converter 100 (codes "./myfifo1") (codes "./myfifo2") read_opened write_opened buffer inputs
  exit exit_success

-- `doubler`, one turn: the length of the line, and the line twice.
unfoldable pub doubler_turn : ℕ → Bytes → ReadResult → Proc Bytes
doubler_turn max_buffer buffer input = do
  let filled = after_input input buffer
  text ← checked (c_str filled)
  call (print stdout_fileno (decimal (length text) ++ codes "\n"))
  call (write stdout_fileno text)
  call (write stdout_fileno text)
  pure (clear max_buffer filled)

unfoldable pub doubler_loop : ℕ → Bytes → List ReadResult → Proc (Unit {0})
doubler_loop max_buffer buffer [] = ([], blocked)
doubler_loop max_buffer buffer (input ∷ rest) =
    doubler_turn max_buffer buffer input >>= λ next. doubler_loop max_buffer next rest

unfoldable pub doubler : ℕ → Bytes → Answer → Bytes → List ReadResult → Proc (Unit {0})
unfolding doubler_loop
doubler max_buffer fifo_path opened buffer inputs = do
  call (open_read fifo_path)
  if is_error opened
      then (do
        call (perror (codes "DOUBLER: can't open read fifo") opened.errno)
        exit exit_failure)
      else doubler_loop max_buffer buffer inputs

unfoldable pub doubler_main : Answer → Answer → Bytes → List ReadResult → Proc ℕ
unfolding make_fifo doubler
doubler_main made opened buffer inputs = do
  make_fifo (codes "./myfifo2") (codes "DOUBLER: Couldn't create write fifo2.") made
  doubler 100 (codes "./myfifo2") opened buffer inputs
  exit exit_success
