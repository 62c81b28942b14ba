-- ===== src/EchoService/Server.antt =====
-- What the server of week4/teht6_server.c sends back.
use posix_network_programmin.Prelude.{
  some, ℕ, ◌≤◌, ◌<◌, ◌≡◌, ◌≢◌, refl, ap, ◌∙◌, true, false, List, [], ◌∷◌, ◌++◌, arith, All, length,
  take, take-append, drop, ◌==◌,
}
use posix_network_programmin.Cstring.{Bytes, fresh, overwrite}
use posix_network_programmin.Cstring.Laws.{overwrite-eq, length-overwrite, length-fresh}
use posix_network_programmin.Posix.{
  pure, is_error-some, descriptor-some, returned, ReadResult, got, failed, written, is_error,
  exit_success,
}
use posix_network_programmin.Posix.Emits.{Emits-then, Emits-pure}
use posix_network_programmin.Posix.Accept.{is_transient, in_child}
use posix_network_programmin.EchoService.{eintr, echo_back, Caller, serve_caller, caller_loop}

-- Bytes that fit the array, or a read that a signal interrupted.
abbrev pub GoesOn : ReadResult → Type 0
GoesOn (failed errno) = errno ≡ eintr
GoesOn (got bytes) = (0 < length bytes) × (length bytes ≤ 255)

-- The end of the input, or an error.
abbrev pub IsEnd : ReadResult → Type 0
IsEnd (failed errno) = errno ≢ eintr
IsEnd (got bytes) = bytes ≡ []

abbrev pub chunks : List ReadResult → List Bytes
chunks [] = []
chunks (failed errno ∷ rs) = chunks rs
chunks (got bytes ∷ rs) = bytes ∷ chunks rs

pub take-overwrite : (b buf : Bytes) → length b ≤ length buf → take (length b) (overwrite b buf) ≡ b
take-overwrite b buf h =
    ap (take (length b)) (overwrite-eq b buf h) ∙ take-append b (drop (length b) buf)

echo_back-end :
    (sockfd : ℕ) (buffer : Bytes) (end : ReadResult) (later : List ReadResult)
    → IsEnd end
    → (written sockfd (echo_back sockfd buffer (end ∷ later)).0 ≡ [])
      × ((echo_back sockfd buffer (end ∷ later)).1 ≡ returned tt)
unfolding echo_back written
echo_back-end sockfd buffer (failed errno) later h = ground arith
echo_back-end sockfd buffer (got []) later h = (refl, refl)
echo_back-end sockfd buffer (got (c ∷ cs)) later h = absurd (omega (arith, ap length h))

-- Each chunk of at most 255 bytes that is read, up to the end of the input or an error, is sent back as
-- it is, over any number of reads that a signal interrupted; then the function returns.
pub echo_back-chunks :
    (sockfd : ℕ) (buffer : Bytes) (rs : List ReadResult) (end : ReadResult)
    (later : List ReadResult)
    → length buffer ≡ 256
    → All GoesOn rs
    → IsEnd end
    → (written sockfd (echo_back sockfd buffer (rs ++ end ∷ later)).0 ≡ chunks rs)
      × ((echo_back sockfd buffer (rs ++ end ∷ later)).1 ≡ returned tt)
unfolding echo_back written
echo_back-chunks sockfd buffer [] end later size h e = echo_back-end sockfd buffer end later e
echo_back-chunks sockfd buffer (failed errno ∷ rs) end later size h e =
    ground (arith, echo_back-chunks sockfd buffer rs end later size h.1 e)
echo_back-chunks sockfd buffer (got [] ∷ rs) end later size h e = absurd (omega (arith, h.0.0))
echo_back-chunks sockfd buffer (got (c ∷ cs) ∷ rs) end later size h e =
    let b = c ∷ cs in
    let filled = overwrite b buffer in
    let rest =
      echo_back-chunks sockfd filled rs end later (length-overwrite b buffer ∙ size) h.1 e in
    let same : (sockfd == sockfd) ≡ true = ground arith in
    rw (take-overwrite b buffer (omega (arith, h.0.1, size)), same)
      (ap (λ ts. b ∷ ts) rest.0, rest.1)

-- A caller whom the parent sees: accept failed and the loop goes on, or fork returned in the parent.
abbrev pub IsPassedOn : Caller → Type 0
IsPassedOn a = elim (is_error a.accepted) [
  | true ↦ is_transient a.accepted.errno ≡ true
  | false ↦ elim a.forked [ in_child ↦ ⊥ | _ ↦ Unit {0} ]
]

serve_caller-chunks :
    (listenfd sockfd : ℕ) (a : Caller) (rs : List ReadResult) (end : ReadResult)
    (more : List ReadResult)
    → a.accepted.value ≡ some sockfd
    → a.reads ≡ rs ++ end ∷ more
    → All GoesOn rs
    → IsEnd end
    → (written sockfd (serve_caller listenfd a).0 ≡ chunks rs)
      × ((serve_caller listenfd a).1 ≡ returned exit_success)
unfolding serve_caller written
serve_caller-chunks listenfd sockfd a rs end more s reads h e =
    rw (reads, descriptor-some a.accepted s)
      (Emits-then sockfd (echo_back sockfd (fresh 256) (rs ++ end ∷ more)) (λ _. pure exit_success)
        (echo_back-chunks sockfd (fresh 256) rs end more (length-fresh 256) h e)
        (Emits-pure sockfd exit_success))

-- Whatever callers the parent saw before, the process of a new one sends back each chunk of at most 255
-- bytes that it reads, up to the end of the input or an error, and returns success.
pub caller_loop-chunks :
    (listenfd sockfd : ℕ) (before : List Caller) (a : Caller) (later : List Caller)
    (rs : List ReadResult) (end : ReadResult) (more : List ReadResult)
    → All IsPassedOn before
    → a.accepted.value ≡ some sockfd
    → a.forked ≡ in_child
    → a.reads ≡ rs ++ end ∷ more
    → All GoesOn rs
    → IsEnd end
    → (written sockfd (caller_loop listenfd (before ++ a ∷ later)).0 ≡ chunks rs)
      × ((caller_loop listenfd (before ++ a ∷ later)).1 ≡ returned exit_success)
unfolding caller_loop written
caller_loop-chunks listenfd sockfd [] a later rs end more passed s child reads h e =
    rw (is_error-some a.accepted s, child)
      (serve_caller-chunks listenfd sockfd a rs end more s reads h e)
caller_loop-chunks listenfd sockfd (b ∷ before) a later rs end more passed s child reads h e =
    let rest =
      caller_loop-chunks listenfd sockfd before a later rs end more passed.1 s child reads h e in
    ground (arith, rest)
