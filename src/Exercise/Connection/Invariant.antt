-- ===== src/Exercise/Connection/Invariant.antt =====
-- What the arrays of a session hold between two turns.
use posix_network_programmin.Prelude.{
  ℕ, ◌+◌, ◌*◌, ◌<◌, ◌≤◌, ◌≡◌, ◌∙◌, ◌∷◌, ◌++◌, Option, none, some, arith, length, drop,
}
use posix_network_programmin.Cstring.{Bytes, fresh, overwrite, clear}
use posix_network_programmin.Cstring.Laws.{IsText}
use posix_network_programmin.Cstring.Zeros.{clear-fresh, length-clear, overwrite-fresh}
use posix_network_programmin.Exercise.Reply.{max_buffer}
use posix_network_programmin.Exercise.Connection.{Session, wipe}

-- The array of the next read: zeros, but for its last char, which no memset reaches.
pub record IsClean (buffer : Bytes) : Type 0 where
  pub size : length buffer ≡ max_buffer + 1
  pub last : Bytes
  pub zeros : buffer ≡ fresh max_buffer ++ last

-- The command held back, in the other array, with its length.
abbrev pub Holds : Option Bytes → Bytes → ℕ → Type 0
Holds none ebuffer esize = esize ≡ 0
Holds (some m) ebuffer esize =
    (esize ≡ length m)
    × (0 < length m)
    × (2 * length m ≤ max_buffer)
    × IsText m
    × ((rest : Bytes) × (ebuffer ≡ m ++ 0 ∷ rest))

pub record IsReady (pending : Option Bytes) (s : Session) : Type 0 where
  pub clean : IsClean s.buffer
  pub esize_bound : length s.ebuffer ≡ max_buffer + 1
  pub holds : Holds pending s.ebuffer s.esize

pub clear-IsClean :
    (buffer : Bytes) → length buffer ≡ max_buffer + 1 → IsClean (clear max_buffer buffer)
clear-IsClean buffer h = record {
  size = length-clear max_buffer buffer ∙ h;
  last = drop max_buffer buffer;
  zeros = clear-fresh max_buffer buffer (omega arith);
}

-- What a handler leaves, before the memset that ends its turn.
pub record IsLeft (pending : Option Bytes) (s : Session) : Type 0 where
  pub size : length s.buffer ≡ max_buffer + 1
  pub esize_bound : length s.ebuffer ≡ max_buffer + 1
  pub holds : Holds pending s.ebuffer s.esize

pub wipe-IsReady : {p : Option Bytes} (s : Session) → IsLeft p s → IsReady p (wipe s)
wipe-IsReady s l = record {
  clean = clear-IsClean s.buffer l.size;
  esize_bound = l.esize_bound;
  holds = l.holds;
}

-- A text of which two fit an array.
pub record IsMessage (m : Bytes) : Type 0 where
  pub some_char : 0 < length m
  pub half : 2 * length m ≤ max_buffer
  pub text : IsText m

-- A message that was read into a clean array is a terminated string.
pub message_terminated :
    (m buffer : Bytes)
    → IsClean buffer
    → length m < max_buffer
    → (rest : Bytes) × (overwrite m buffer ≡ m ++ 0 ∷ rest)
message_terminated m buffer c h =
    let (rest, e) = overwrite-fresh m max_buffer c.last h in (rest, rw c.zeros e)
