-- ===== src/Exercise/Connection/Refines.antt =====
-- A whole connection against the protocol.
use posix_network_programmin.Prelude.{
  ℕ, ◌≡◌, ◌≢◌, refl, ◌∙◌, Bool, true, false, List, [], ◌∷◌, ◌++◌, map, Option, arith, Bool-cases,
  inl, inr, ◌==◌, codes, All,
}
use posix_network_programmin.Cstring.{Bytes, overwrite, occurs}
use posix_network_programmin.Cstring.Laws.{length-overwrite}
use posix_network_programmin.Posix.{
  Proc, call, write, ◌>>◌, Outcome, returned, blocked, written, got, exit_success,
}
use posix_network_programmin.Posix.Emits.{Emits, Emits-continue, quiet_write}
use posix_network_programmin.Exercise.Reply.{Answers}
use posix_network_programmin.Exercise.Connection.{
  Setup, Session, Turn, Next, leave, wipe, handle, dispatch, resume, serve, on_accept, on_quit,
}
use posix_network_programmin.Exercise.Connection.Invariant.{
  IsReady, IsLeft, IsMessage, message_terminated, wipe-IsReady,
}
use posix_network_programmin.Exercise.Connection.Protocol.{
  Command, echo, code, file, comment, goodbye_comment, accept, quit, other, command, response,
  pending_after, is_last, responses, ends,
}
use posix_network_programmin.Exercise.Connection.File.{IsFileCommand, on_file-Handled}
use posix_network_programmin.Exercise.Connection.Echo.{Handled, on_echo-Handled}
use posix_network_programmin.Exercise.Connection.Others.{
  IsPath, on_comment-Handled, on_comment_goodbye, on_code-Handled, on_other-Handled,
}

-- A message, what is answered while it is handled, and the content of the file that it names.
abbrev pub Job : Type 0
Job = Bytes × Answers × Bytes

abbrev pub turn : Job → Turn
turn j = record { input = got j.0; answers = j.1 }

abbrev pub asked : Job → Bytes × Bytes
asked j = (j.0, j.2)

abbrev pub IsServed : ℕ → Job → Type 0
IsServed sockfd j = IsMessage j.0 × (command j.0 ≡ file → IsFileCommand sockfd j.1 j.0 j.2)

abbrev pub last_code : Bool → Outcome ℕ
last_code true = returned exit_success
last_code false = blocked

module _ (e : Setup) (path : Bytes) (log_apart : e.logfd ≢ e.sockfd)
    (resp_apart : e.respfd ≢ e.sockfd) (src : e.srcpath ≡ path ++ 0 ∷ [])
    (path_ok : IsPath path) where
  -- What a message of each kind does to a session that has read it.
  abbrev pub Does : Option Bytes → Bytes → Command → Bytes → Proc Next → Type 0
  Does p content k m r = elim (is_last k) [
    | true ↦ Emits e.sockfd (response path p content k m) (leave exit_success) r
    | false ↦ Handled e (pending_after p k m) (response path p content k m) r
  ]

  dispatch-Does :
      (a : Answers) (content : Bytes) (p : Option Bytes) (c : ℕ) (cs rest : Bytes) (s : Session)
      → IsMessage (c ∷ cs)
      → (command (c ∷ cs) ≡ file → IsFileCommand e.sockfd a (c ∷ cs) content)
      → s.buffer ≡ (c ∷ cs) ++ 0 ∷ rest
      → IsLeft p s
      → Does p content (command (c ∷ cs)) (c ∷ cs) (dispatch c e a (c ∷ cs) s)
  unfolding dispatch on_accept on_quit written
  dispatch-Does a content p c cs rest s ok served read left = elim (Bool-cases (c == b'E')) [
    | inl y ↦
        rw y
          (on_echo-Handled e log_apart a p m rest s ok read left.size left.esize_bound left.holds)
    | inr not_echo ↦ elim (Bool-cases (c == b'#')) [
      | inl y ↦ elim (Bool-cases (occurs (codes "209") m)) [
        | inl bye ↦ rw (not_echo, y, bye) (on_comment_goodbye e log_apart m rest s ok.text read bye)
        | inr stay ↦
            rw (not_echo, y, stay) (on_comment-Handled e log_apart p m rest s ok read left stay)
      ]
      | inr not_comment ↦ elim (Bool-cases (c == b'C')) [
        | inl y ↦
            rw (not_echo, not_comment, y)
              (on_code-Handled e log_apart a p m path s src path_ok left)
        | inr not_code ↦ elim (Bool-cases (c == b'F')) [
          | inl y ↦
              let asks = served (rw (not_echo, not_comment, not_code, y)) in
              rw (not_echo, not_comment, not_code, y)
                (on_file-Handled e log_apart a p m content rest s ok asks read left)
          | inr not_file ↦ elim (Bool-cases (c == b'A')) [
            | inl y ↦ rw (not_echo, not_comment, not_code, not_file, y) (refl, refl)
            | inr not_accept ↦ elim (Bool-cases (c == b'Q')) [
              | inl y ↦ rw (not_echo, not_comment, not_code, not_file, not_accept, y) (refl, refl)
              | inr not_quit ↦
                  rw (not_echo, not_comment, not_code, not_file, not_accept, not_quit)
                    (on_other-Handled e log_apart a p m rest s ok read left)
            ]
          ]
        ]
      ]
    ]
  ]
    where
      m : Bytes
      m = c ∷ cs

  Handled-quiet :
      (q : Option Bytes) (texts : List Bytes) (m : Bytes) (r : Proc Next)
      → Handled e q texts r
      → Handled e q texts (call (write e.respfd m) >> r)
  Handled-quiet q texts m r (s', sent, left) =
      (s', quiet_write e.sockfd e.respfd m r resp_apart sent, left)

  Does-quiet :
      (p : Option Bytes) (content : Bytes) (k : Command) (m : Bytes) (r : Proc Next)
      → Does p content k m r
      → Does p content k m (call (write e.respfd m) >> r)
  Does-quiet p content goodbye_comment m r h = quiet_write e.sockfd e.respfd m r resp_apart h
  Does-quiet p content accept m r h = quiet_write e.sockfd e.respfd m r resp_apart h
  Does-quiet p content quit m r h = quiet_write e.sockfd e.respfd m r resp_apart h
  Does-quiet p content echo m r h = Handled-quiet _ _ m r h
  Does-quiet p content code m r h = Handled-quiet _ _ m r h
  Does-quiet p content file m r h = Handled-quiet _ _ m r h
  Does-quiet p content comment m r h = Handled-quiet _ _ m r h
  Does-quiet p content other m r h = Handled-quiet _ _ m r h

  pub handle-Does :
      (a : Answers) (content : Bytes) (p : Option Bytes) (c : ℕ) (cs : Bytes) (s : Session)
      → IsMessage (c ∷ cs)
      → (command (c ∷ cs) ≡ file → IsFileCommand e.sockfd a (c ∷ cs) content)
      → IsReady p s
      → Does p content (command (c ∷ cs)) (c ∷ cs) (handle e a c cs s)
  unfolding handle
  handle-Does a content p c cs s ok served ready =
      let m = c ∷ cs in
      let (rest, read) =
        message_terminated m s.buffer ready.clean (omega (arith, ok.half, ok.some_char)) in
      let s' = record s { buffer = overwrite m s.buffer } in
      Does-quiet p content (command m) m (dispatch c e a m s') (
        dispatch-Does a content p c cs rest s' ok served read (record {
          size = length-overwrite m s.buffer ∙ ready.clean.size;
          esize_bound = ready.esize_bound;
          holds = ready.holds;
        }))

  -- From any session between two turns, on messages of NUL-free chars, not empty and at most 1024
  -- long, with both logs on descriptors other than the socket and `SRCPATH` a terminated text that
  -- fits, each F command of the form "F <path> <port>", of fewer than 256 chars, with every call for
  -- it successful and a last char of the file other than 0xff: what is written to the peer is what
  -- the protocol says, whatever the kernel answers to the other writes; no access is outside an
  -- array; the run returns success if a message ends it, and otherwise waits for the next one.
  pub serve-responses :
      (ts : List Job) (p : Option Bytes) (s : Session)
      → All (IsServed e.sockfd) ts
      → IsReady p s
      → (written e.sockfd (serve e s (map turn ts)).0 ≡ responses path p (map asked ts))
        × ((serve e s (map turn ts)).1 ≡ last_code (ends (map asked ts)))
  unfolding serve responses ends written
  serve-responses [] p s ok ready = (refl, refl)
  serve-responses (([], a, f) ∷ ts) p s ok ready = absurd (omega (arith, ok.0.0.some_char))
  serve-responses ((c ∷ cs, a, f) ∷ ts) p s ok ready =
      let m = c ∷ cs in
      let step = handle-Does a f p c cs s ok.0.0 ok.0.1 ready in
      let run = handle e a c cs s in
      let rest : Session → Proc ℕ = λ s'. serve e s' (map turn ts) in
      elim (Bool-cases (is_last (command m))) [
        | inl stop ↦
            rw stop
              (Emits-continue e.sockfd run (resume rest) (rw (stop, Does) at step) (refl, refl))
        | inr more ↦
            let (s', sent, left) = rw (more, Does) at step in
            rw more (
              Emits-continue e.sockfd run (resume rest) sent (
                serve-responses ts (pending_after p (command m) m) (wipe s') ok.1
                  (wipe-IsReady s' left)))
      ]
