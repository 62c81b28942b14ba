-- ===== src/EchoService/Tests/World.antt =====
-- Two connections of the echo service of week4 beside one another.
use posix_network_programmin.Prelude.{◌≡◌, refl, [], ◌∷◌, some, arith, codes}
use posix_network_programmin.Cstring.{fresh}
use posix_network_programmin.Cstring.Laws.{length-fresh}
use posix_network_programmin.Posix.{ReadResult, got, written}
use posix_network_programmin.Posix.Forking.{
  Worker, Reach, here, next, admits, hears, admitted, heard_by, accepting, server_after,
}
use posix_network_programmin.EchoService.World.{echo_service, echo_turn, Reach-echoes}

-- Two peers, of which the second has sent a piece.
abbrev first : Worker echo_service
first = admitted echo_service tt (record { value = some 7; errno = 0 }) 1 (fresh 256)

abbrev second : Worker echo_service
second = admitted echo_service tt (record { value = some 7; errno = 0 }) 2 (fresh 256)

abbrev piece : ReadResult
piece = got (codes "hi")

Reach-both : Reach echo_service tt (record {
  server = server_after accepting (echo_turn 7 (fresh 256) piece).0;
  processes = first ∷ heard_by echo_service second (fresh 256) piece ∷ [];
})
unfolding admitted
Reach-both =
    next
      (next (next here (admits [] (record { value = some 7; errno = 0 }) 1 (fresh 256) refl))
        (admits (first ∷ []) (record { value = some 7; errno = 0 }) 2 (fresh 256) refl))
      (hears accepting (first ∷ []) [] second (fresh 256) piece refl)

Reach-echoes_example :
    written 7 (heard_by echo_service second (fresh 256) piece).trace ≡ codes "hi" ∷ []
unfolding admitted heard_by
Reach-echoes_example =
    Reach-echoes (first ∷ []) [] (heard_by echo_service second (fresh 256) piece) Reach-both refl
      (length-fresh 256) ((omega arith, omega arith), tt)
