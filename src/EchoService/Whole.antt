-- ===== src/EchoService/Whole.antt =====
-- Both programs of week4's echo service on one connection: teht6_server.c reads what teht6_client.c sends,
-- and that reads what the server sends back.
use posix_network_programmin.Prelude.{
  ℕ, ◌<◌, ◌≡◌, refl, ap, ◌∙◌, List, [], ◌∷◌, ◌++◌, map, some, arith, All, length, drop,
}
use posix_network_programmin.Cstring.{Bytes}
use posix_network_programmin.Cstring.Laws.{IsText}
use posix_network_programmin.Posix.{ReadResult, got, blocked, written}
use posix_network_programmin.Posix.Accept.{in_child}
use posix_network_programmin.StandardEcho.Replies.{echoes}
use posix_network_programmin.EchoService.{Caller, caller_loop, Exchange, exchanges}
use posix_network_programmin.EchoService.Server.{GoesOn, IsPassedOn, caller_loop-chunks}
use posix_network_programmin.EchoService.Stream.{chunks-map}
use posix_network_programmin.EchoService.Client.{exchange-rest}

-- A turn in which a line is read and sent.
pub record IsSent (x : Exchange) (line : Bytes) : Type 0 where
  pub line_read : x.line ≡ some line
  pub line_text : IsText line
  pub some_char : 0 < length line
  pub fits : length line < 256
  pub sent : (n : ℕ) × (x.sent.value ≡ some n)

abbrev pub AllSent : List Exchange → List Bytes → Type 0
AllSent [] [] = Unit
AllSent (x ∷ xs) (line ∷ lines) = IsSent x line × AllSent xs lines
AllSent _ _ = ⊥

append-drop : (line : Bytes) → line ++ drop (length line) line ≡ line
append-drop [] = refl
append-drop (c ∷ cs) = ap (λ ds. c ∷ ds) (append-drop cs)

AllSent-GoesOn :
    (xs : List Exchange) (lines : List Bytes) → AllSent xs lines → All GoesOn (map got lines)
AllSent-GoesOn [] [] h = tt
AllSent-GoesOn [] (line ∷ lines) h = absurd h
AllSent-GoesOn (x ∷ xs) [] h = absurd h
AllSent-GoesOn (x ∷ xs) (line ∷ lines) h =
    ((h.0.some_char, omega (arith, h.0.fits)), AllSent-GoesOn xs lines h.1)

-- Where each line comes back.
exchanges-echoes :
    (sockfd : ℕ) (xs : List Exchange) (lines : List Bytes)
    → AllSent xs lines
    → map (λ x. x.reply) xs ≡ map got lines
    → exchanges sockfd xs ≡ (echoes sockfd lines, blocked)
unfolding exchanges
exchanges-echoes sockfd [] [] h e = refl
exchanges-echoes sockfd [] (line ∷ lines) h e = absurd h
exchanges-echoes sockfd (x ∷ xs) [] h e = absurd h
exchanges-echoes sockfd (x ∷ xs) (line ∷ lines) h e =
    let answer : x.reply ≡ got line = cc in
    let rest : map (λ x. x.reply) xs ≡ map got lines = cc in
    let turn = exchange-rest sockfd x line line (record {
      line_read = h.0.line_read;
      line_text = h.0.line_text;
      fits = h.0.fits;
      sent = h.0.sent;
      answer = answer;
      reply_text = h.0.line_text;
      shorter = omega arith;
    }) in
    rw (turn, append-drop line, exchanges-echoes sockfd xs lines h.1 rest) refl

-- Whatever callers the parent saw before: if each line is NUL-free, has 1 to 255 chars and is sent, the
-- process of the connection reads each whole, and then the end of the input, and the client's reads give
-- what that process writes, piece by piece, then the client sends and prints the lines in turn, and
-- waits for the next one.
pub exchanges-caller_loop :
    (listenfd connfd sockfd : ℕ) (before : List Caller) (a : Caller) (later : List Caller)
    (xs : List Exchange) (lines : List Bytes) (more : List ReadResult)
    → All IsPassedOn before
    → a.accepted.value ≡ some connfd
    → a.forked ≡ in_child
    → a.reads ≡ map got lines ++ got [] ∷ more
    → AllSent xs lines
    → map (λ x. x.reply) xs
      ≡ map got (written connfd (caller_loop listenfd (before ++ a ∷ later)).0)
    → exchanges sockfd xs ≡ (echoes sockfd lines, blocked)
exchanges-caller_loop listenfd connfd sockfd before a later xs lines more passed s child reads h e =
    let back =
      caller_loop-chunks listenfd connfd before a later (map got lines) (got []) more passed s child
        reads (AllSent-GoesOn xs lines h) refl in
    exchanges-echoes sockfd xs lines h (e ∙ ap (map got) (back.0 ∙ chunks-map lines))
