-- ===== src/LineService/Peers.antt =====
-- What the server of week5/teht3_server.c prints of one client after the other.
use posix_network_programmin.Prelude.{
  ℕ, ◌<◌, ◌≡◌, refl, ap, true, List, [], ◌∷◌, ◌++◌, map, some, arith, codes, All, length,
}
use posix_network_programmin.Cstring.{Bytes, fresh, overwrite, print_int}
use posix_network_programmin.Cstring.Laws.{IsText}
use posix_network_programmin.Posix.{
  Effect, write, print, returned, failed, htons, stderr_fileno, blocked, ReadResult, got, is_error,
  is_error-some, stdout_fileno,
}
use posix_network_programmin.Posix.Accept.{dotted, is_transient}
use posix_network_programmin.Posix.Emits.{bind-runs}
use posix_network_programmin.Posix.ReadLoop.{IsEnd}
use posix_network_programmin.LineService.{
  Peer, errno_line, show_turn, show_loop, show_peer, peer_loop,
}
use posix_network_programmin.LineService.Remains.{over_address, first_turn_lem, later_turn_lem}

-- What one read gives: some chars, and room for a NUL behind them.
abbrev pub IsPiece : Bytes → Type 0
IsPiece s = IsText s × (0 < length s) × (length s < 1024)

-- A client that is accepted, with what it sends up to its end.
pub record IsTalk (p : Peer) (first : Bytes) (others : List Bytes) : Type 0 where
  pub accepted : (fd : ℕ) × (p.accepted.value ≡ some fd)
  pub end : ReadResult
  pub later : List ReadResult
  pub ends : IsEnd end
  pub reads : p.reads ≡ got first ∷ (map got others ++ end ∷ later)
  pub first_piece : IsPiece first
  pub other_pieces : All IsPiece others

-- A client with the pieces that it sends; none stand for a transient error of accept.
abbrev pub IsHandled : Peer × List Bytes → Type 0
IsHandled (p, []) = (is_error p.accepted ≡ true) × (is_transient p.accepted.errno ≡ true)
IsHandled (p, first ∷ others) = IsTalk p first others

-- The calls for a client: a line with its address and port, the first piece with the end of the address
-- behind it, if that is longer, and the other pieces.
abbrev pub connection_line : Peer → Bytes
connection_line p =
    codes "connection from "
    ++ (dotted p.addr ++ (codes ", port " ++ (print_int (htons p.port) ++ codes "\n")))

abbrev pub shown : Peer → Bytes → List Bytes → List Effect
shown p first others =
    print stdout_fileno (connection_line p)
    ∷ write stdout_fileno (over_address first p.addr)
    ∷ map (write stdout_fileno) others

-- An error of accept is reported.
abbrev pub all_shown : List (Peer × List Bytes) → List Effect
all_shown [] = []
all_shown ((p, []) ∷ ts) =
    print stderr_fileno (errno_line (codes "Error accepting connection errno: ") p.accepted.errno)
    ∷ all_shown ts
all_shown ((p, first ∷ others) ∷ ts) = shown p first others ++ all_shown ts

ends_loop :
    (buffer : Bytes) (end : ReadResult) (later : List ReadResult)
    → IsEnd end
    → show_loop buffer (end ∷ later) ≡ ([], returned buffer)
unfolding show_loop
ends_loop buffer (failed errno) later e = refl
ends_loop buffer (got []) later e = refl
ends_loop buffer (got (c ∷ cs)) later e = absurd (cc e)

others_lem :
    (others : List Bytes) (end : ReadResult) (later : List ReadResult)
    → All IsPiece others
    → IsEnd end
    → show_loop (fresh 1024) (map got others ++ end ∷ later)
      ≡ (map (write stdout_fileno) others, returned (fresh 1024))
unfolding show_loop
others_lem [] end later h e = ends_loop (fresh 1024) end later e
others_lem ([] ∷ ps) end later h e = absurd (omega (arith, h.0.1))
others_lem ((c ∷ cs) ∷ ps) end later h e =
    rw (later_turn_lem (c ∷ cs) h.0.0 h.0.2, others_lem ps end later h.1 e) refl

show_peer_lem :
    (p : Peer) (first : Bytes) (others : List Bytes)
    → IsTalk p first others
    → show_peer (fresh 1024) p ≡ (shown p first others, returned (fresh 1024))
unfolding show_peer show_loop
show_peer_lem p [] others t = absurd (omega (arith, t.first_piece.1))
show_peer_lem p (c ∷ cs) others t =
    let s = c ∷ cs in
    let run =
      bind-runs (show_turn (overwrite (dotted p.addr ++ 0 ∷ []) (fresh 1024)) s)
        (λ next. show_loop next (map got others ++ t.end ∷ t.later))
        (first_turn_lem p.addr s t.first_piece.0 t.first_piece.2)
        (others_lem others t.end t.later t.other_pieces t.ends) in
    rw t.reads (ap (λ r. (print stdout_fileno (connection_line p) ∷ r.0, r.1)) run)

-- From an array of NULs, on clients one after the other, each of which sends pieces of NUL-free chars,
-- not empty and shorter than 1024, up to its end, with transient errors of accept between them: the
-- server prints the address of each client, writes its first piece with the end of that address in dots
-- behind it, where that is longer, and its other pieces as they are, reports the errors, and makes no
-- other call; then it waits for the next client.
pub peer_loop-shown :
    (ts : List (Peer × List Bytes))
    → All IsHandled ts
    → peer_loop (fresh 1024) (map (λ t. t.0) ts) ≡ (all_shown ts, blocked)
unfolding peer_loop
peer_loop-shown [] h = refl
peer_loop-shown ((p, []) ∷ ts) h = rw (h.0.0, h.0.1, peer_loop-shown ts h.1) refl
peer_loop-shown ((p, first ∷ others) ∷ ts) h =
    rw
      (
        is_error-some p.accepted h.0.accepted.1,
        show_peer_lem p first others h.0,
        peer_loop-shown ts h.1,
      )
      refl
