-- ===== src/Exercise/Connection/Echo.antt =====
-- One message at a time: what it makes `newConnection` send, and what is held back after it.
use posix_network_programmin.Prelude.{
  ℕ, suc, ◌+◌, ◌*◌, ◌≤◌, ◌≡◌, ◌≢◌, refl, ap, ◌∙◌, List, [], ◌∷◌, ◌++◌, map, Option, none, some,
  arith, length, drop, replicate, length-append, length-drop, Bool-cases, inl, inr, ltb, lt→ltb,
  le→ltb, if◌then◌else◌,
}
use posix_network_programmin.Cstring.{Bytes, clear, strcpy, to_upper}
use posix_network_programmin.Cstring.Laws.{strcpy_text}
use posix_network_programmin.Cstring.Zeros.{length-clear}
use posix_network_programmin.Posix.{Proc, pure, written, is_error_or_zero}
use posix_network_programmin.Posix.Emits.{
  Emits, Emits-bind, Emits-then, Emits-pure, quiet_print, quiet_write,
}
use posix_network_programmin.Exercise.Reply.{max_buffer, Answers, echoer}
use posix_network_programmin.Exercise.Reply.Echo.{reply, echoer_short}
use posix_network_programmin.Exercise.Connection.{
  Setup, Session, flush, hold_back, on_echo, Next, again,
}
use posix_network_programmin.Exercise.Connection.Invariant.{Holds, IsLeft, IsMessage}

-- The echo of a command held back, when a message of `n` chars turns out to be another command:
-- `n` NULs follow it.
abbrev pub stale : Option Bytes → ℕ → List Bytes
stale none n = []
stale (some q) n = (map to_upper q ++ replicate n 0) ∷ []

-- The echo of a command held back, with the message that continues it.
abbrev pub joined : Option Bytes → Bytes → List Bytes
joined none m = []
joined (some q) m = map to_upper (q ++ m) ∷ []

-- What a handler sends, and the state that it leaves with a command held back or with none.
abbrev pub Handled : Setup → Option Bytes → List Bytes → Proc Next → Type 0
Handled e p texts r = (s' : Session) × Emits e.sockfd texts (again s') r × IsLeft p s'

module _ (e : Setup) (log_apart : e.logfd ≢ e.sockfd) (a : Answers) where
  -- The code that `echoer` and `getsrcfldr` return says whether the write failed.
  abbrev pub code : ℕ
  code = if is_error_or_zero a.sent then 1 else 0

  pub reply-Emits : (b : Bytes) → Emits e.sockfd (b ∷ []) code (reply b e.sockfd e.logfd a.sent)
  unfolding written
  reply-Emits b = elim (Bool-cases (is_error_or_zero a.sent)) [
    | inl bad ↦ rw bad (ground arith, refl)
    | inr good ↦ rw good (ground arith, refl)
  ]

  abbrev pub flushed : Session → Session
  flushed s = record s { ebuffer = clear (max_buffer + 1) s.ebuffer; esize = 0 }

  pub flush-Emits :
      (size : ℕ) (s : Session) (b : Bytes)
      → echoer s.ebuffer size e.sockfd e.logfd a.sent ≡ reply b e.sockfd e.logfd a.sent
      → Emits e.sockfd (b ∷ []) (flushed s) (flush e a size s)
  unfolding flush
  flush-Emits size s b h =
      let echo = echoer s.ebuffer size e.sockfd e.logfd a.sent in
      let sent : Emits e.sockfd (b ∷ []) code echo = rw h (reply-Emits b) in
      Emits-bind e.sockfd echo (λ _. pure (flushed s)) sent (Emits-pure e.sockfd (flushed s))

  settle :
      (p : Option Bytes) (n : ℕ) (s : Session)
      → 2 * n ≤ max_buffer
      → length s.ebuffer ≡ max_buffer + 1
      → Holds p s.ebuffer s.esize
      → (s' : Session) × Emits e.sockfd
          (stale p n)
          s'
          (if ltb 0 s.esize then flush e a (s.esize + n) s else pure s)
        × (s'.buffer ≡ s.buffer)
        × (length s'.ebuffer ≡ max_buffer + 1)
  settle none n s half room h =
      (s, rw (le→ltb 0 s.esize (omega arith)) (Emits-pure e.sockfd s), refl, room)
  settle (some q) n s half room h =
      let again_echo : echoer s.ebuffer (s.esize + n) e.sockfd e.logfd a.sent
          ≡ reply (map to_upper q ++ replicate n 0) e.sockfd e.logfd a.sent =
        rw (h.0, h.4.1) (echoer_short q h.4.0 n e.sockfd e.logfd a.sent h.3 (omega arith)) in
      (
        flushed s,
        rw (lt→ltb 0 s.esize (omega arith)) (flush-Emits (s.esize + n) s _ again_echo),
        refl,
        length-clear (max_buffer + 1) s.ebuffer ∙ room,
      )

  hold_back-Emits :
      (m rest : Bytes) (s : Session)
      → IsMessage m
      → s.buffer ≡ m ++ 0 ∷ rest
      → length s.ebuffer ≡ max_buffer + 1
      → Emits e.sockfd []
          (again
            (record s { ebuffer = m ++ 0 ∷ drop (suc (length m)) s.ebuffer; esize = length m }))
          (hold_back e m s)
  unfolding hold_back
  hold_back-Emits m rest s ok read room =
      let copied : strcpy s.ebuffer s.buffer ≡ some (m ++ 0 ∷ drop (suc (length m)) s.ebuffer) =
        ap (strcpy s.ebuffer) read
        ∙ strcpy_text s.ebuffer m rest ok.text (omega (arith, ok.half)) in
      rw copied (
        quiet_print e.sockfd e.logfd _ _
          (quiet_write e.sockfd e.logfd m _ log_apart (Emits-pure e.sockfd _)))

  pub on_echo-Handled :
      (p : Option Bytes) (m rest : Bytes) (s : Session)
      → IsMessage m
      → s.buffer ≡ m ++ 0 ∷ rest
      → length s.buffer ≡ max_buffer + 1
      → length s.ebuffer ≡ max_buffer + 1
      → Holds p s.ebuffer s.esize
      → Handled e (some m) (stale p (length m)) (on_echo e a m s)
  unfolding on_echo
  on_echo-Handled p m rest s ok read size room h =
      let (s', sent, kept, room') = settle p (length m) s ok.half room h in
      let s'' = record s' {
        ebuffer = m ++ 0 ∷ drop (suc (length m)) s'.ebuffer;
        esize = length m;
      } in
      (
        s'',
        Emits-then e.sockfd _ (hold_back e m) sent
            (hold_back-Emits m rest s' ok (kept ∙ read) room'),
        record {
          size = ap length kept ∙ size;
          esize_bound = omega (
            arith,
            length-append m (0 ∷ drop (suc (length m)) s'.ebuffer),
            length-drop (suc (length m)) s'.ebuffer,
            ok.half,
          );
          holds = (refl, ok.some_char, ok.half, ok.text, (_, refl));
        },
      )
