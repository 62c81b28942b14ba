-- ===== src/Posix/Stream.antt =====
-- A stream of bytes: what was written to a pipe or a connection, however it was cut into calls.
use mathlib.Core.Quot
use mathlib.Core.Quot.{Quot}
use native.Mathlib.Nat.{ℕ_set}
use posix_network_programmin.Prelude.{◌≡◌, ap, List}
use posix_network_programmin.Cstring.{Bytes}
use posix_network_programmin.Posix.Fifo.{concat}

abbrev SameBytes : List Bytes → List Bytes → Type 0
SameBytes xs ys = concat xs ≡ concat ys

abbrev pub Stream : Type 0
Stream = Quot SameBytes

abbrev pub stream_of : List Bytes → Stream
stream_of xs = Quot.mk xs

bytes_set : IsSet Bytes
bytes_set = hlevel (ℕ_set)

-- The bytes of a stream; equal streams have the same ones.
bytes_of : Stream → Bytes
bytes_of = Quot.lift bytes_set concat (λ xs ys h. h)

pub stream_of-concat : (xs ys : List Bytes) → stream_of xs ≡ stream_of ys → concat xs ≡ concat ys
unfolding bytes_of
stream_of-concat xs ys h = ap bytes_of h
