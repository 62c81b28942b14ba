-- ===== src/Exercise/Connection/Protocol.antt =====
-- The protocol of one connection of exercise/exercise.c, stated with no buffers.
use posix_network_programmin.Prelude.{
  ℕ, Bool, true, false, List, [], ◌∷◌, ◌++◌, Option, none, some, length, ◌==◌, if◌then◌else◌, codes,
}
use posix_network_programmin.Cstring.{Bytes, occurs, decimal}
use posix_network_programmin.Exercise.Connection.Echo.{stale, joined}

-- The commands of the protocol. A comment with "209" in it is the goodbye of the service.
pub data Command : Type 0 where
  echo code file comment goodbye_comment accept quit other : Command

abbrev pub command_of : ℕ → Bytes → Command
command_of c m =
    if c == b'E'
    then echo
    else if c == b'#'
    then (if occurs (codes "209") m then goodbye_comment else comment)
    else if c == b'C'
    then code
    else if c == b'F'
    then file
    else if c == b'A'
    then accept
    else if c == b'Q'
    then quit
    else other

abbrev pub command : Bytes → Command
command [] = other
command (c ∷ cs) = command_of c (c ∷ cs)

-- What one command sends back, with the E command held back before it, and the content of the file that
-- an F command names.
abbrev pub response : Bytes → Option Bytes → Bytes → Command → Bytes → List Bytes
response path p content echo m = stale p (length m)
response path p content code m = (path ++ codes "\n") ∷ []
response path p content file m = (decimal (length content) ++ codes "\n") ∷ []
response path p content other m = joined p m
response path p content _ m = []

abbrev pub pending_after : Option Bytes → Command → Bytes → Option Bytes
pending_after p echo m = some m
pending_after p other m = none
pending_after p _ m = p

abbrev pub is_last : Command → Bool
is_last goodbye_comment = true
is_last accept = true
is_last quit = true
is_last _ = false

-- Everything that is sent on the connection, on messages with the contents of the files that they name.
unfoldable pub responses : Bytes → Option Bytes → List (Bytes × Bytes) → List Bytes
responses path p [] = []
responses path p ((m, content) ∷ ms) =
    let more = responses path (pending_after p (command m) m) ms in
    response path p content (command m) m ++ (if is_last (command m) then [] else more)

-- Whether one of the messages ends the connection.
unfoldable pub ends : List (Bytes × Bytes) → Bool
ends [] = false
ends ((m, content) ∷ ms) = let more = ends ms in if is_last (command m) then true else more
