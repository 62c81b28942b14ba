-- ===== src/EchoService/Stream.antt =====
-- The service of week4/teht6_server.c over a connection that cuts what is written as it likes.
use posix_network_programmin.Prelude.{
  ℕ, ◌≤◌, ◌<◌, ◌≡◌, refl, ap, ◌∙◌, List, [], ◌∷◌, ◌++◌, map, some, All, length,
}
use posix_network_programmin.Cstring.{Bytes}
use posix_network_programmin.Posix.{got, returned, written, exit_success}
use posix_network_programmin.Posix.Accept.{in_child}
use posix_network_programmin.Posix.Stream.{stream_of}
use posix_network_programmin.EchoService.{Caller, caller_loop}
use posix_network_programmin.EchoService.Server.{GoesOn, chunks, IsPassedOn, caller_loop-chunks}

-- What one read gives, other than the end of the input.
abbrev pub FitsRead : Bytes → Type 0
FitsRead r = (0 < length r) × (length r ≤ 255)

pub got-GoesOn : (rs : List Bytes) → All (FitsRead) rs → All GoesOn (map got rs)
got-GoesOn [] h = tt
got-GoesOn (r ∷ rs) h = (h.0, got-GoesOn rs h.1)

pub chunks-map : (rs : List Bytes) → chunks (map got rs) ≡ rs
chunks-map [] = refl
chunks-map (r ∷ rs) = ap (λ ls. r ∷ ls) (chunks-map rs)

-- If the reads of the new process, of 1 to 255 bytes each, give the stream that a peer writes, in whatever
-- pieces, and then its end: the process sends back that stream, and returns success, whatever callers
-- came before.
pub caller_loop-stream :
    (listenfd sockfd : ℕ) (before : List Caller) (a : Caller) (later : List Caller)
    (ws rs : List Bytes)
    → All IsPassedOn before
    → a.accepted.value ≡ some sockfd
    → a.forked ≡ in_child
    → a.reads ≡ map got rs ++ got [] ∷ []
    → All FitsRead rs
    → stream_of rs ≡ stream_of ws
    → (stream_of (written sockfd (caller_loop listenfd (before ++ a ∷ later)).0) ≡ stream_of ws)
      × ((caller_loop listenfd (before ++ a ∷ later)).1 ≡ returned exit_success)
caller_loop-stream listenfd sockfd before a later ws rs passed s child reads fit same =
    let (sent, end) =
      caller_loop-chunks listenfd sockfd before a later (map got rs) (got []) [] passed s child
        reads (got-GoesOn rs fit) refl in
    (ap stream_of (sent ∙ chunks-map rs) ∙ same, end)
