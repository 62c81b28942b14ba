-- ===== src/Exercise/Client/Failures.antt =====
-- Where the program cannot begin: a wrong command line, a name that is not found, a socket that is not
-- given or not connected.
use posix_network_programmin.Prelude.{
  ℕ, ◌≡◌, refl, Bool, true, false, ◌&&◌, not, List, [], ◌∷◌, ◌++◌, inl, inr, none, some, length,
  ◌==◌, Bool-cases, Option,
}
use posix_network_programmin.Cstring.{Bytes}
use posix_network_programmin.Posix.{exited, written, is_error, exit_failure}
use posix_network_programmin.Exercise.Client.{Message, Host, Start, main, find_service, connect_to}

abbrev pub is_found {ℓ} : {A : Type ℓ} → Option A → Bool
is_found none = false
is_found (some a) = true

-- One argument, both names found, and the socket connected.
abbrev pub can_begin : List Bytes → Start → Bool
can_begin args s =
    length args == 1
    && is_found s.service
    && is_found s.host
    && not (is_error s.socket)
    && not (is_error s.connected)

connect_to_failed :
    (fd : ℕ) (s : Start) (port : ℕ) (h : Host) (srcpath : Bytes) (ms : List Message)
    → (not (is_error s.socket) && not (is_error s.connected)) ≡ false
    → (written fd (connect_to s port h srcpath ms).0 ≡ [])
      × ((connect_to s port h srcpath ms).1 ≡ exited exit_failure)
unfolding connect_to written
connect_to_failed fd s port h srcpath ms bad = elim (Bool-cases (is_error s.socket)) [
  | inl no_socket ↦ rw no_socket (refl, refl)
  | inr socket ↦ elim (Bool-cases (is_error s.connected)) [
    | inl refused ↦ rw (socket, refused) (refl, refl)
    | inr connected ↦ absurd (both (rw (socket, connected) at bad))
  ]
]
  where
    both : true ≡ false → ⊥
    both e = cc

find_service_failed :
    (fd : ℕ) (program : Bytes) (s : Start) (srcpath : Bytes) (ms : List Message)
    → (service : Option ℕ) (host : Option Host) → s.host ≡ host
    → (is_found service && is_found host && not (is_error s.socket) && not (is_error s.connected))
      ≡ false
    → (written fd (find_service program s srcpath service ms).0 ≡ [])
      × ((find_service program s srcpath service ms).1 ≡ exited exit_failure)
unfolding find_service written
find_service_failed fd program s srcpath ms none host e bad = (refl, refl)
find_service_failed fd program s srcpath ms (some port) none e bad = rw e (refl, refl)
find_service_failed fd program s srcpath ms (some port) (some h) e bad =
    rw e (connect_to_failed fd s port h srcpath ms bad)

-- With another number of arguments than one, or if the service or the host is not found, or the socket
-- is not given or not connected: the program exits with a failure, and calls `write` on no descriptor;
-- what it prints goes through stdio or perror.
pub main_failed :
    (fd : ℕ) (program : Bytes) (args : List Bytes) (s : Start) (ms : List Message)
    → can_begin args s ≡ false
    → (written fd (main (program ∷ args) s ms).0 ≡ [])
      × ((main (program ∷ args) s ms).1 ≡ exited exit_failure)
unfolding main written
main_failed fd program [] s ms bad = (refl, refl)
main_failed fd program (srcpath ∷ []) s ms bad =
    find_service_failed fd program s (srcpath ++ 0 ∷ []) ms s.service s.host refl bad
main_failed fd program (a ∷ b ∷ args) s ms bad = (refl, refl)
