-- ===== src/Posix/Accept.antt =====
-- What the servers share: the address that they bind, the errors of accept(2) after which they go
-- on, and an address in text. The numbers are those of Linux.
use posix_network_programmin.Prelude.{ℕ, ◌/◌, ◌%◌, Bool, ◌||◌, ◌∷◌, ◌++◌, ◌==◌}
use posix_network_programmin.Cstring.{Bytes, decimal}
use posix_network_programmin.Posix.{SockAddr, htons, af_inet}

-- ENETDOWN, EPROTO, ENOPROTOOPT, EHOSTDOWN, ENONET, EHOSTUNREACH, EOPNOTSUPP, ENETUNREACH
unfoldable pub is_transient : ℕ → Bool
is_transient errno =
    errno == 100
    || errno == 71
    || errno == 92
    || errno == 112
    || errno == 64
    || errno == 113
    || errno == 95
    || errno == 101

-- AF_INET, htonl(INADDR_ANY), htons(port)
unfoldable pub any_address : ℕ → SockAddr
unfolding htons
any_address port = record { family = af_inet; port = htons port; addr = 0 }

-- inet_ntop(AF_INET, …): the four bytes of an address, in the order in which they are stored
unfoldable pub dotted : ℕ → Bytes
unfolding decimal
dotted addr =
    decimal (addr % 256)
    ++ (b'.'
        ∷ (decimal (addr / 256 % 256)
            ++ (b'.' ∷ (decimal (addr / 65536 % 256) ++ (b'.' ∷ decimal (addr / 16777216 % 256))))))

-- What fork(2) returned: -1, or 0 in the new process, or its number in the old one.
pub data Forked : Type 0 where
  no_process : (errno : ℕ) → Forked
  in_child : Forked
  in_parent : (pid : ℕ) → Forked
