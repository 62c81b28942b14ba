-- ===== src/Daytime/Contacts.antt =====
-- The connections of the client of week5/daytimetcpcli.c.
use posix_network_programmin.Prelude.{
  ℕ, suc, ◌+◌, ◌<◌, ◌≤◌, ◌≡◌, refl, ap, ◌∙◌, true, List, [], ◌∷◌, ◌++◌, some, arith, All, length,
  length-append, drop, append_assoc,
}
use posix_network_programmin.Cstring.{Bytes, c_str, overwrite}
use posix_network_programmin.Cstring.Laws.{IsText, c_str-append, overwrite-eq, length-overwrite}
use posix_network_programmin.Posix.{Effect, Proc, exited, exit_success, got, connect, is_error-some}
use posix_network_programmin.Daytime.{maxline, Piece, receive, Contact, contact, contact_loop}

-- How often a trace connects.
unfoldable pub connects : List Effect → ℕ
connects [] = 0
connects (connect fd addr ∷ es) = suc (connects es)
connects (e ∷ es) = connects es

-- The reads of a connection that the server closes: chunks, and the end of the input.
abbrev chunk : Bytes → Piece
chunk b = record { read = got b; shown = true; errno = 0 }

abbrev pub pieces_of : List Bytes → List Piece
pieces_of [] = chunk [] ∷ []
pieces_of (b ∷ bs) = chunk b ∷ pieces_of bs

abbrev pub IsChunk : Bytes → Type 0
IsChunk b = IsText b × (0 < length b) × (length b ≤ maxline)

-- A connection whose calls all succeed.
pub record IsGood (c : Contact) : Type 0 where
  pub socket : (fd : ℕ) × (c.socket.value ≡ some fd)
  pub connected : (n : ℕ) × (c.connected.value ≡ some n)
  pub chunks : List Bytes
  pub pieces : c.pieces ≡ pieces_of chunks
  pub proper : All IsChunk chunks

-- The reads connect to nothing, and leave the array at its size.
receive-pieces_of :
    (recvline : Bytes) (bs : List Bytes) (k : Bytes → Proc ℕ)
    → length recvline ≡ maxline + 1
    → All IsChunk bs
    → (next : Bytes) × (length next ≡ maxline + 1)
      × (connects (receive recvline (pieces_of bs) k).0 ≡ connects (k next).0)
      × ((receive recvline (pieces_of bs) k).1 ≡ (k next).1)
unfolding receive connects
receive-pieces_of recvline [] k size h = (recvline, size, refl, refl)
receive-pieces_of recvline ([] ∷ bs) k size h = absurd (omega (arith, h.0.1))
receive-pieces_of recvline ((c ∷ cs) ∷ bs) k size h =
    let b = c ∷ cs in
    let line = b ++ 0 ∷ [] in
    let tail = drop (length line) recvline in
    let filled : c_str (overwrite line recvline) ≡ some b =
      ap c_str (
        overwrite-eq line recvline (omega (arith, h.0.1, size, length-append b (0 ∷ [])))
        ∙ append_assoc b (0 ∷ []) tail)
      ∙ c_str-append b tail h.0.0 in
    let (next, same, count, end) =
      receive-pieces_of (overwrite line recvline) bs k (length-overwrite line recvline ∙ size)
        h.1 in
    (next, same, rw filled count, rw filled end)

-- With a valid address, and connections whose calls all succeed, on which chunks of NUL-free chars
-- arrive, none longer than the 4096 of a read: the client connects exactly as often as it is told, and
-- exits with success.
pub contact_loop-connects :
    (ip : Bytes) (addr port : ℕ) (recvline : Bytes) (cs : List Contact)
    → length recvline ≡ maxline + 1
    → All IsGood cs
    → (connects (contact_loop ip (some addr) port (length cs) recvline cs).0 ≡ length cs)
      × ((contact_loop ip (some addr) port (length cs) recvline cs).1 ≡ exited exit_success)
unfolding contact_loop contact connects
contact_loop-connects ip addr port recvline [] size h = (refl, refl)
contact_loop-connects ip addr port recvline (c ∷ cs) size h =
    let g = h.0 in
    let k : Bytes → Proc ℕ = λ next. contact_loop ip (some addr) port (length cs) next cs in
    let (next, same, count, end) = receive-pieces_of recvline g.chunks k size g.proper in
    let rest = contact_loop-connects ip addr port next cs same h.1 in
    rw (is_error-some c.socket g.socket.1, is_error-some c.connected g.connected.1, g.pieces)
      (ap suc (count ∙ rest.0), end ∙ rest.1)
