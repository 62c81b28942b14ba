-- ===== src/Exercise/Server/Laws.antt =====
-- The parent of the connections, over the errors of accept and the forks.
use posix_network_programmin.Prelude.{
  ℕ, ◌≡◌, ◌≢◌, ne→==, refl, true, false, List, [], ◌∷◌, ◌++◌, arith, All, Bool-cases, ◌⊎◌, inl, inr,
  if◌then◌else◌,
}
use posix_network_programmin.Posix.{
  Effect, Proc, Answer, stdout_fileno, stderr_fileno, blocked, exited, close, is_error, descriptor,
  exit_failure,
}
use posix_network_programmin.Posix.Output.{output}
use posix_network_programmin.Posix.Accept.{is_transient, in_child, in_parent}
use posix_network_programmin.Exercise.Server.{Arrival, Logs, accept_loop, child_server}

-- The descriptors that a trace closes.
unfoldable pub closed : List Effect → List ℕ
closed [] = []
closed (close fd ∷ es) = fd ∷ closed es
closed (e ∷ es) = closed es

-- An arrival after which the parent goes on: a transient error, or a fork seen from its side.
abbrev pub GoesOn : Arrival → Type 0
GoesOn a = elim (is_error a.accepted) [
  | true ↦ is_transient a.accepted.errno ≡ true
  | false ↦ elim a.forked [ in_child ↦ ⊥ | _ ↦ Unit {0} ]
]

-- The sockets of the connections that were handed to a new process.
abbrev pub handed_over : List Arrival → List ℕ
handed_over [] = []
handed_over (a ∷ rest) =
    let more = handed_over rest in
    if is_error a.accepted
    then more
    else elim a.forked [ in_parent pid ↦ descriptor a.accepted ∷ more | _ ↦ more ]

-- While accept fails with transient errors only, the parent stays in the loop, and closes exactly
-- the sockets of the connections that a new process serves, in their order; a socket whose fork
-- failed stays open.
pub accept_loop-GoesOn :
    (listenfd : ℕ) (l : Logs) (arrivals : List Arrival)
    → All GoesOn arrivals
    → (closed (accept_loop listenfd l arrivals).0 ≡ handed_over arrivals)
      × ((accept_loop listenfd l arrivals).1 ≡ blocked)
unfolding accept_loop closed
accept_loop-GoesOn listenfd l [] h = (refl, refl)
accept_loop-GoesOn listenfd l (a ∷ rest) h = ground (arith, accept_loop-GoesOn listenfd l rest h.1)

-- A run that exits with a failure, and put nothing on a descriptor.
abbrev pub HasFailed : ℕ → Proc ℕ → Type 0
HasFailed fd r = (r.1 ≡ exited exit_failure) × (output fd r.0 ≡ [])

abbrev pub IsFatal : Arrival → Type 0
IsFatal a = (is_error a.accepted ≡ true) × (is_transient a.accepted.errno ≡ false)

-- The first error of accept that is not transient ends the parent.
pub accept_loop_fatal :
    (fd listenfd : ℕ) (l : Logs) (before : List Arrival) (a : Arrival) (later : List Arrival)
    → stdout_fileno ≢ fd
    → stderr_fileno ≢ fd
    → All GoesOn before
    → IsFatal a
    → HasFailed fd (accept_loop listenfd l (before ++ a ∷ later))
unfolding accept_loop output
accept_loop_fatal fd listenfd l [] a later out err h fatal =
    ground (arith, ne→== 1 fd out, ne→== 2 fd err)
accept_loop_fatal fd listenfd l (b ∷ before) a later out err h fatal = ground (
  arith,
  ne→== 1 fd out,
  ne→== 2 fd err,
  accept_loop_fatal fd listenfd l before a later out err h.1 fatal,
)

-- The server exits with a failure, and has put nothing on any descriptor but the standard output and the
-- standard error, if it gets no socket, or cannot bind it, or, behind arrivals that it goes on from, meets
-- an error of accept that is not transient; whatever would come later.
pub child_server_failed :
    (fd port : ℕ) (l : Logs) (socket bound : Answer) (before : List Arrival) (a : Arrival)
    (later : List Arrival)
    → stdout_fileno ≢ fd
    → stderr_fileno ≢ fd
    → (is_error socket ≡ true) ⊎ ((is_error bound ≡ true) ⊎ (All GoesOn before × IsFatal a))
    → HasFailed fd (child_server port l socket bound (before ++ a ∷ later))
unfolding child_server output
child_server_failed fd port l socket bound before a later out err h =
    elim (Bool-cases (is_error socket)) [
      | inl no_socket ↦ rw (no_socket, ne→== 2 fd err) (refl, refl)
      | inr made ↦ elim (Bool-cases (is_error bound)) [
        | inl not_bound ↦ rw (made, not_bound, ne→== 2 fd err) (refl, refl)
        | inr is_bound ↦ elim h [
          | inl no_socket ↦ absurd (ground (arith, no_socket, made))
          | inr rest ↦ elim rest [
            | inl not_bound ↦ absurd (ground (arith, not_bound, is_bound))
            | inr fatal ↦
                rw (made, is_bound)
                  (accept_loop_fatal fd (descriptor socket) l before a later out err fatal.0
                    fatal.1)
          ]
        ]
      ]
    ]
