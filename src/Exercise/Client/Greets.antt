-- ===== src/Exercise/Client/Greets.antt =====
-- What the program sends to the service, from its command line on.
use posix_network_programmin.Prelude.{◌≤◌, ◌≢◌, ◌≡◌, ap, ◌∙◌, List, [], ◌∷◌, length, take, codes}
use posix_network_programmin.Cstring.{Bytes, int_mod}
use posix_network_programmin.Posix.{blocked, written, descriptor, stdout_fileno, stderr_fileno}
use posix_network_programmin.Posix.Output.{output, output-written}
use posix_network_programmin.Exercise.Client.Output.{main-prints}
use posix_network_programmin.Exercise.Connection.Invariant.{IsClean}
use posix_network_programmin.Exercise.Client.{Message, Start, dialog, main}
use posix_network_programmin.Exercise.Client.Turns.{AreExpected}
use posix_network_programmin.Exercise.Client.Dialog.{dialog-zero}
use posix_network_programmin.Exercise.Client.Whole.{IsConnected, client_of, main-dialog}

-- The program is connected, on a socket that is none of the standard output, the standard error and its
-- log, its counter starts at 0 and its buffer is set to 0, though the code initialises neither. On messages
-- of NUL-free chars, not empty and shorter than 2048, 2^32 at most, of which the fifth, if it comes, has
-- fewer than 256 chars, single blanks between its words and a port for its twelfth word, with malloc
-- successful and fork returning in the parent: all that it puts on its socket, by write or by a function of printf, is HELLO for the first and the login name for the
-- second, and it waits for the next message.
pub main-greets :
    (program path : Bytes) (s : Start) (ms : List Message)
    → IsConnected s
    → s.n ≡ 0
    → IsClean s.buffer
    → stdout_fileno ≢ descriptor s.socket
    → stderr_fileno ≢ descriptor s.socket
    → descriptor s.logfile ≢ descriptor s.socket
    → AreExpected 0 ms
    → length ms ≤ int_mod
    → (output (descriptor s.socket) (main (program ∷ path ∷ []) s ms).0
        ≡ take (length ms) (codes "HELLO\n" ∷ codes "joonahal\n" ∷ []))
      × ((main (program ∷ path ∷ []) s ms).1 ≡ blocked)
main-greets program path s ms start zero_n clean apart err log expected few =
    let fd = descriptor s.socket in
    let c = client_of s path in
    let run = main (program ∷ path ∷ []) s ms in
    let whole = main-dialog fd program path s ms start in
    let talk = dialog-zero c apart ms s.buffer expected few clean in
    (
      output-written fd run.0 (main-prints fd program path s ms apart err log).all
          ∙ whole.0
          ∙ ap (λ n. written fd (dialog c n s.buffer ms).0) zero_n
          ∙ talk.0,
      whole.1 ∙ ap (λ n. (dialog c n s.buffer ms).1) zero_n ∙ talk.1,
    )
