-- ===== src/Datagram/Tests.antt =====
-- The client of week6/teht2_client.c on one number.
use posix_network_programmin.Prelude.{◌≡◌, [], ◌∷◌, ◌++◌, some, arith}
use posix_network_programmin.Cstring.{fresh, overwrite, decimal}
use posix_network_programmin.Cstring.Laws.{length-fresh}
use posix_network_programmin.Posix.{call, pure, ◌>>◌, write}
use posix_network_programmin.Datagram.{send_size}
use posix_network_programmin.Datagram.Sizes.{send_size-decimal}

send_size-decimal_example :
    send_size 3
      (overwrite (decimal 12 ++ 0x0a ∷ []) (fresh 64))
      (record { value = some 12; errno = 0 })
    ≡ (call (write 3 (fresh 12)) >> pure tt)
send_size-decimal_example =
    send_size-decimal 3 12 (fresh 64) (record { value = some 12; errno = 0 }) (omega arith)
      (omega arith) (unfold decimal in omega (arith, length-fresh 64))
