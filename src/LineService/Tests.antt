-- ===== src/LineService/Tests.antt =====
-- The server of week5/teht3_server.c on the texts of two clients.
use posix_network_programmin.Prelude.{◌≡◌, refl, List, [], ◌∷◌, map, none, some, arith, codes}
use posix_network_programmin.Cstring.{Bytes, fresh, decimal, print_int}
use posix_network_programmin.Posix.{ReadResult, blocked, got, failed, print, write, htons}
use posix_network_programmin.Posix.Accept.{dotted, is_transient}
use posix_network_programmin.LineService.{Peer, peer_loop}
use posix_network_programmin.LineService.Peers.{IsTalk, peer_loop-shown}

abbrev peer : List ReadResult → Peer
peer reads = record {
  accepted = record { value = some 4; errno = 0 };
  addr = 0x0100007f;
  port = 0x901f;
  reads = reads;
}

abbrev refused : Peer
refused = record { accepted = record { value = none; errno = 113 }; addr = 0; port = 0; reads = [] }

-- A short first text and another, a transient error, and a client with a long text.
abbrev talks : List (Peer × List Bytes)
talks =
    (
      peer (got (codes "hi\n") ∷ got (codes "you\n") ∷ got [] ∷ []),
      codes "hi\n" ∷ codes "you\n" ∷ [],
    )
    ∷ (refused, [])
    ∷ (peer (got (codes "good morning\n") ∷ failed 104 ∷ []), codes "good morning\n" ∷ [])
    ∷ []

first-IsTalk :
    IsTalk
      (peer (got (codes "hi\n") ∷ got (codes "you\n") ∷ got [] ∷ []))
      (codes "hi\n")
      (codes "you\n" ∷ [])
first-IsTalk = record {
  accepted = (4, refl);
  end = got [];
  later = [];
  ends = refl;
  reads = refl;
  first_piece = (omega arith, omega arith, omega arith);
  other_pieces = ((omega arith, omega arith, omega arith), tt);
}

last-IsTalk :
    IsTalk (peer (got (codes "good morning\n") ∷ failed 104 ∷ [])) (codes "good morning\n") []
last-IsTalk = record {
  accepted = (4, refl);
  end = failed 104;
  later = [];
  ends = tt;
  reads = refl;
  first_piece = (omega arith, omega arith, omega arith);
  other_pieces = tt;
}

peer_loop-shown_example : peer_loop (fresh 1024) (map (λ t. t.0) talks) ≡ (
  print 1 (codes "connection from 127.0.0.1, port 8080\n")
      ∷ write 1 (codes "hi\n.0.0.1")
      ∷ write 1 (codes "you\n")
      ∷ print 2 (codes "Error accepting connection errno: 113 \n")
      ∷ print 1 (codes "connection from 127.0.0.1, port 8080\n")
      ∷ write 1 (codes "good morning\n")
      ∷ [],
  blocked,
)
unfolding dotted decimal is_transient print_int htons
peer_loop-shown_example = peer_loop-shown talks (first-IsTalk, ((refl, refl), (last-IsTalk, tt)))
