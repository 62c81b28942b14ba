-- ===== src/EchoService/World.antt =====
-- week4/teht6_server.c: the parent and the processes of its connections side by side, as a server that
-- forks.
use posix_network_programmin.Prelude.{
  ℕ, ◌≡◌, refl, sym, ap, ◌∙◌, true, List, [], ◌∷◌, ◌++◌, arith, All, All-at, Bool-cases, inl, inr,
  length, take, ◌==◌, if◌then◌else◌, codes,
}
use posix_network_programmin.Cstring.{Bytes, overwrite}
use posix_network_programmin.Cstring.Laws.{length-overwrite}
use posix_network_programmin.Posix.{
  Effect, descriptor, ReadResult, got, failed, write, print, written, stderr_fileno,
}
use posix_network_programmin.Posix.Forking.{Life, alive, over, Goes, Service, Worker, World, Reach}
use posix_network_programmin.Posix.Forking.Follows.{Follows, Follows-trace, Reach-Follows}
use posix_network_programmin.EchoService.{eintr, errno_line, echo_back}
use posix_network_programmin.EchoService.Server.{GoesOn, chunks, take-overwrite}

-- One turn of the loop of `echoer`, from its read on.
unfoldable pub echo_turn : ℕ → Bytes → ReadResult → List Effect × Life Bytes
echo_turn sockfd buffer (failed errno) =
    if errno == eintr
    then ([], alive buffer)
    else (print stderr_fileno (errno_line (codes "Read failed errno: ") errno) ∷ [], over)
echo_turn sockfd buffer (got []) = ([], over)
echo_turn sockfd buffer (got (c ∷ cs)) =
    let filled = overwrite (c ∷ cs) buffer in
    (write sockfd (take (length (c ∷ cs)) filled) ∷ [], alive filled)

pub echo_turn-Goes :
    (sockfd : ℕ) (buffer : Bytes) (r : ReadResult)
    → Goes
        (echo_back sockfd)
        (λ rs. echo_back sockfd buffer (r ∷ rs))
        (echo_turn sockfd buffer r).1
        (echo_turn sockfd buffer r).0
unfolding echo_turn echo_back
echo_turn-Goes sockfd buffer (failed errno) = elim (Bool-cases (errno == eintr)) [
  | inl interrupted ↦ rw interrupted (λ rs. refl)
  | inr broken ↦ rw broken (λ rs. refl)
]
echo_turn-Goes sockfd buffer (got []) = λ rs. refl
echo_turn-Goes sockfd buffer (got (c ∷ cs)) = λ rs. refl

abbrev pub echo_service : Service
echo_service = record {
  Params = Unit {0};
  Setup = ℕ;
  Session = Bytes;
  Turn = ReadResult;
  Result = Unit {0};
  setup = λ l accepted peer. descriptor accepted;
  loop = echo_back;
  turn = echo_turn;
  turn-Goes = echo_turn-Goes;
}

-- A loop in front of its next read has sent back what it has read.
echo_back-waits :
    (sockfd : ℕ) (buffer : Bytes) (rs : List ReadResult)
    → length buffer ≡ 256
    → All GoesOn rs
    → written sockfd (echo_back sockfd buffer rs).0 ≡ chunks rs
unfolding echo_back written
echo_back-waits sockfd buffer [] size h = refl
echo_back-waits sockfd buffer (failed errno ∷ rs) size h =
    ground (arith, echo_back-waits sockfd buffer rs size h.1)
echo_back-waits sockfd buffer (got [] ∷ rs) size h = absurd (omega (arith, h.0.0))
echo_back-waits sockfd buffer (got (c ∷ cs) ∷ rs) size h =
    let b = c ∷ cs in
    let filled = overwrite b buffer in
    let rest = echo_back-waits sockfd filled rs (length-overwrite b buffer ∙ size) h.1 in
    let same : (sockfd == sockfd) ≡ true = ground arith in
    rw (take-overwrite b buffer (omega (arith, h.0.1, size)), same) (ap (λ ts. b ∷ ts) rest)

-- In every order of the turns of the parent and of the processes: a process whose reads so far gave 1 to
-- 255 bytes each, or were interrupted by a signal, has sent back to its peer exactly what it has read,
-- piece by piece, whatever the others have read.
pub Reach-echoes :
    {w : World echo_service} (left right : List (Worker echo_service)) (c : Worker echo_service)
    → Reach echo_service tt w
    → w.processes ≡ left ++ c ∷ right
    → length c.locals ≡ 256
    → All GoesOn c.heard
    → written c.setup c.trace ≡ chunks c.heard
unfolding echo_back
Reach-echoes left right c reach place size fit =
    let follows =
      All-at (Follows echo_service) left right c (rw place at (Reach-Follows echo_service reach)) in
    let trace = Follows-trace echo_service c c.heard (λ buffer. refl) follows refl in
    ap (written c.setup) (sym trace) ∙ echo_back-waits c.setup c.locals c.heard size fit
