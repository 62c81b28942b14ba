-- ===== src/Exercise/Connection/Others.antt =====
-- The messages that are no E command: what each makes `newConnection` send.
use posix_network_programmin.Prelude.{
  ℕ, ◌+◌, ◌%◌, ◌*◌, ◌≤◌, ◌≡◌, ◌≢◌, refl, ap, ◌∙◌, sym, [], ◌∷◌, ◌++◌, map, Option, none, some, true,
  false, arith, length, length-append, take, drop, length-take, take-append-drop, lt→ltb, le→ltb,
  codes, All-append, append_assoc,
}
use posix_network_programmin.Cstring.{int_mod, Bytes, c_str, memcpy_at, occurs, to_upper}
use posix_network_programmin.Cstring.Laws.{IsText, c_str-append, memcpy_at-append, length-memcpy_at}
use posix_network_programmin.Cstring.Zeros.{length-clear, copy_line}
use posix_network_programmin.Posix.{pure, written, Answer, exit_success}
use posix_network_programmin.Posix.Emits.{Emits, Emits-then, Emits-pure, quiet_print, quiet_write}
use posix_network_programmin.Exercise.Reply.{max_buffer, Answers, echoer, getsrcfldr}
use posix_network_programmin.Exercise.Reply.Echo.{reply, echoer_text}
use posix_network_programmin.Exercise.Connection.{
  Setup, Session, again, leave, log_buffer, log_other, join_echo, goodbye, on_comment, on_code,
  on_other,
}
use posix_network_programmin.Exercise.Connection.Invariant.{Holds, IsLeft, IsMessage}
use posix_network_programmin.Exercise.Connection.Echo.{
  joined, Handled, code, reply-Emits, flushed, flush-Emits,
}

-- A source path that the local array of `getsrcfldr` holds, with a newline.
abbrev pub IsPath : Bytes → Type 0
IsPath p = IsText p × (length p + 2 ≤ max_buffer)

getsrcfldr_lem :
    (path : Bytes) (sockfd logfd : ℕ) (sent : Answer)
    → IsPath path
    → getsrcfldr (path ++ 0 ∷ []) sockfd logfd sent ≡ reply (path ++ codes "\n") sockfd logfd sent
unfolding getsrcfldr
getsrcfldr_lem path sockfd logfd sent ok =
    let (rest, copied) = copy_line max_buffer path 10 ok.0 (omega arith) ok.1 in
    let line =
      c_str-append (path ++ codes "\n") rest
        (All-append (λ c. c ≢ 0) path (codes "\n") ok.0 (omega arith, tt)) in
    rw copied (rw (← append_assoc path (codes "\n") (0 ∷ rest), line) (ground arith))

module _ (e : Setup) (log_apart : e.logfd ≢ e.sockfd) where
  pub log_buffer-Emits :
      (m rest : Bytes) (s : Session)
      → IsText m
      → s.buffer ≡ m ++ 0 ∷ rest
      → Emits e.sockfd [] tt (log_buffer e s)
  unfolding log_buffer
  log_buffer-Emits m rest s text read =
      rw (read, c_str-append m rest text)
        (quiet_print e.sockfd e.logfd _ _ (Emits-pure e.sockfd tt))

  log_other-Emits :
      (m rest : Bytes) (s : Session)
      → IsText m
      → s.buffer ≡ m ++ 0 ∷ rest
      → Emits e.sockfd [] (again s) (log_other e s)
  unfolding log_other
  log_other-Emits m rest s text read = quiet_print e.sockfd e.logfd _ _ (
      Emits-then e.sockfd (log_buffer e s) (λ _. pure (again s))
        (log_buffer-Emits m rest s text read) (Emits-pure e.sockfd (again s)))

  goodbye-Emits :
      (m rest : Bytes) (s : Session)
      → IsText m
      → s.buffer ≡ m ++ 0 ∷ rest
      → occurs (codes "209") m ≡ false
      → Emits e.sockfd [] (again (record s { line = (s.line + 1) % int_mod })) (goodbye s)
  unfolding goodbye
  goodbye-Emits m rest s text read other =
      let found : c_str s.buffer ≡ some m = ap c_str read ∙ c_str-append m rest text in
      rw (found, other) (Emits-pure e.sockfd _)

  pub on_comment-Handled :
      (p : Option Bytes) (m rest : Bytes) (s : Session)
      → IsMessage m
      → s.buffer ≡ m ++ 0 ∷ rest
      → IsLeft p s
      → occurs (codes "209") m ≡ false
      → Handled e p [] (on_comment e s)
  unfolding on_comment
  on_comment-Handled p m rest s ok read left no_goodbye = (
    record s { line = (s.line + 1) % int_mod },
    quiet_print e.sockfd e.logfd _ _ (
        Emits-then e.sockfd (log_buffer e s) (λ _. goodbye s)
          (log_buffer-Emits m rest s ok.text read)
          (goodbye-Emits m rest s ok.text read no_goodbye)),
    record { size = left.size; esize_bound = left.esize_bound; holds = left.holds },
  )

  pub on_code-Handled :
      (a : Answers) (p : Option Bytes) (m path : Bytes) (s : Session)
      → e.srcpath ≡ path ++ 0 ∷ []
      → IsPath path
      → IsLeft p s
      → Handled e p ((path ++ codes "\n") ∷ []) (on_code e a m s)
  unfolding on_code
  on_code-Handled a p m path s src ok left =
      let send = getsrcfldr e.srcpath e.sockfd e.logfd a.sent in
      let lem : send ≡ reply (path ++ codes "\n") e.sockfd e.logfd a.sent =
        ap (λ x. getsrcfldr x e.sockfd e.logfd a.sent) src
        ∙ getsrcfldr_lem path e.sockfd e.logfd a.sent ok in
      let sent : Emits e.sockfd ((path ++ codes "\n") ∷ []) (code e log_apart a) send =
        rw lem (reply-Emits e log_apart a (path ++ codes "\n")) in
      (
        s,
        quiet_print e.sockfd e.logfd _ _ (
            quiet_write e.sockfd e.logfd m _ log_apart (
              Emits-then e.sockfd send (λ _. pure (again s)) sent (Emits-pure e.sockfd (again s)))),
        left,
      )

  -- The array after the memcpy of a continuation, in front of what stood behind it.
  record Joined (q m ebuffer : Bytes) (esize : ℕ) : Type 0 where
    rest : Bytes
    copied : memcpy_at esize m ebuffer ≡ some (q ++ (m ++ rest))
    size : length (q ++ (m ++ rest)) ≡ length ebuffer

  join-Joined :
      (q m ebuffer : Bytes) (esize : ℕ)
      → 2 * length m ≤ max_buffer
      → length ebuffer ≡ max_buffer + 1
      → Holds (some q) ebuffer esize
      → Joined q m ebuffer esize
  join-Joined q m ebuffer esize half room h =
      let tail = 0 ∷ h.4.0 in
      let total = length-append q tail in
      let held = ap length h.4.1 in
      let mid = take (length m) tail in
      let rest = drop (length m) tail in
      let fits : length m ≡ length mid = omega (arith, length-take (length m) tail, total, held) in
      let shape : ebuffer ≡ q ++ (mid ++ rest) =
        h.4.1 ∙ ap (◌++◌ q) (sym (take-append-drop (length m) tail)) in
      let copied : memcpy_at esize m ebuffer ≡ some (q ++ (m ++ rest)) =
        rw (h.0, shape) (memcpy_at-append q m mid rest fits) in
      record { rest = rest; copied = copied; size = length-memcpy_at esize m ebuffer copied }

  join_echo-Emits :
      (a : Answers) (q m : Bytes) (s : Session)
      → IsMessage m
      → IsText (q ++ m)
      → length s.ebuffer ≡ max_buffer + 1
      → Holds (some q) s.ebuffer s.esize
      → (j : Joined q m s.ebuffer s.esize)
      → Emits e.sockfd
          (map to_upper (q ++ m) ∷ [])
          (flushed e log_apart a (record s { ebuffer = q ++ (m ++ j.rest) }))
          (join_echo e a m s)
  unfolding join_echo
  join_echo-Emits a q m s ok text room h j =
      let s' = record s { ebuffer = q ++ (m ++ j.rest) } in
      let size : s.esize + length m ≡ length (q ++ m) = omega (arith, length-append q m, h.0) in
      let echo : echoer s'.ebuffer (s.esize + length m) e.sockfd e.logfd a.sent
          ≡ reply (map to_upper (q ++ m)) e.sockfd e.logfd a.sent =
        rw (size, ← append_assoc q m j.rest)
          (echoer_text (q ++ m) j.rest e.sockfd e.logfd a.sent text
            (omega (arith, h.0, h.2, ok.half))) in
      rw j.copied (flush-Emits e log_apart a (s.esize + length m) s' (map to_upper (q ++ m)) echo)

  pub on_other-Handled :
      (a : Answers) (p : Option Bytes) (m rest : Bytes) (s : Session)
      → IsMessage m
      → s.buffer ≡ m ++ 0 ∷ rest
      → IsLeft p s
      → Handled e none (joined p m) (on_other e a m s)
  unfolding on_other
  on_other-Handled a none m rest s ok read left = (
    s,
    rw (le→ltb 0 s.esize (omega (arith, left.holds))) (
        Emits-then e.sockfd (pure s) (log_other e) (Emits-pure e.sockfd s)
          (log_other-Emits m rest s ok.text read)),
    left,
  )
  on_other-Handled a (some q) m rest s ok read left =
      let h = left.holds in
      let j = join-Joined q m s.ebuffer s.esize ok.half left.esize_bound h in
      let s' = flushed e log_apart a (record s { ebuffer = q ++ (m ++ j.rest) }) in
      let text = All-append (λ c. c ≢ 0) q m h.3 ok.text in
      (
        s',
        rw (lt→ltb 0 s.esize (omega (arith, h.0, h.1))) (
            Emits-then e.sockfd (join_echo e a m s) (log_other e)
              (join_echo-Emits a q m s ok text left.esize_bound h j)
              (log_other-Emits m rest s' ok.text read)),
        record {
          size = left.size;
          esize_bound =
              length-clear (max_buffer + 1) (q ++ (m ++ j.rest)) ∙ j.size ∙ left.esize_bound;
          holds = refl;
        },
      )

  goodbye_found :
      (m rest : Bytes) (s : Session)
      → IsText m
      → s.buffer ≡ m ++ 0 ∷ rest
      → occurs (codes "209") m ≡ true
      → Emits e.sockfd [] (leave exit_success) (goodbye s)
  unfolding goodbye written
  goodbye_found m rest s text read found =
      let string : c_str s.buffer ≡ some m = ap c_str read ∙ c_str-append m rest text in
      rw (string, found) (refl, refl)

  pub on_comment_goodbye :
      (m rest : Bytes) (s : Session)
      → IsText m
      → s.buffer ≡ m ++ 0 ∷ rest
      → occurs (codes "209") m ≡ true
      → Emits e.sockfd [] (leave exit_success) (on_comment e s)
  unfolding on_comment
  on_comment_goodbye m rest s text read found = quiet_print e.sockfd e.logfd _ _ (
      Emits-then e.sockfd (log_buffer e s) (λ _. goodbye s) (log_buffer-Emits m rest s text read)
        (goodbye_found m rest s text read found))
