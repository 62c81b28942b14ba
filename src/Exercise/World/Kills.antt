-- ===== src/Exercise/World/Kills.antt =====
-- Which messages make `newConnection` send a signal to its parent.
use posix_network_programmin.Prelude.{
  ℕ, ◌≡◌, refl, ◌∙◌, Bool, true, false, List, [], ◌∷◌, ◌++◌, Option, arith, All, Bool-cases, inl,
  inr, ◌==◌, if◌then◌else◌, codes,
}
use posix_network_programmin.Cstring.{Bytes, overwrite, occurs}
use posix_network_programmin.Cstring.Laws.{IsText, c_str-append}
use posix_network_programmin.Posix.{Effect, kill_parent}
use posix_network_programmin.Exercise.Reply.{Answers}
use posix_network_programmin.Exercise.Connection.{
  Setup, Session, dispatch, handle, on_comment, goodbye, log_buffer, on_accept,
}
use posix_network_programmin.Exercise.Connection.Calls.{
  Allows, on_echo-Every, on_code-Every, on_file-Every, on_quit-Every, on_other-Every,
}
use posix_network_programmin.Exercise.Connection.Protocol.{
  Command, comment, goodbye_comment, accept, command,
}
use posix_network_programmin.Exercise.Connection.Invariant.{IsReady, IsMessage, message_terminated}
use posix_network_programmin.Posix.Forking.{kills}

abbrev NoKill : Effect → Type 0
NoKill (kill_parent sig) = ⊥
NoKill e = Unit

Every-kills : (es : List Effect) → All NoKill es → kills es ≡ false
unfolding kills
Every-kills [] h = refl
Every-kills (kill_parent sig ∷ es) h = absurd h.0
Every-kills (_ ∷ es) h = Every-kills es h.1

-- The commands after which the service is done with the program.
abbrev pub calls_off : Command → Bool
calls_off goodbye_comment = true
calls_off accept = true
calls_off _ = false

no_kill : (e : Setup) (a : Answers) → Allows NoKill e a
no_kill e a = record {
  shows = λ b. tt;
  complains = λ b. tt;
  reports = λ b. tt;
  answers = λ b. tt;
  logs = λ b. tt;
  sends = λ b. tt;
  connects = λ fd addr. tt;
  closes = λ fd. tt;
  shuts = λ fd how. tt;
}

pub on_comment-kills :
    (e : Setup) (m rest : Bytes) (s : Session)
    → IsText m
    → s.buffer ≡ m ++ 0 ∷ rest
    → kills (on_comment e s).0 ≡ occurs (codes "209") m
unfolding on_comment goodbye log_buffer kills
on_comment-kills e m rest s text read =
    rw (read, c_str-append m rest text)
      (elim (Bool-cases (occurs (codes "209") m)) [
        | inl bye ↦ rw bye refl
        | inr stay ↦ rw stay refl
      ])

dispatch-kills :
    (e : Setup) (a : Answers) (c : ℕ) (cs rest : Bytes) (s : Session)
    → IsText (c ∷ cs)
    → s.buffer ≡ (c ∷ cs) ++ 0 ∷ rest
    → kills (dispatch c e a (c ∷ cs) s).0 ≡ calls_off (command (c ∷ cs))
unfolding dispatch on_accept kills
dispatch-kills e a c cs rest s text read =
    let m = c ∷ cs in
    let none_sent = no_kill e a in
    elim (Bool-cases (c == b'E')) [
      | inl y ↦ rw y (Every-kills _ (on_echo-Every NoKill e a none_sent m s).all)
      | inr not_echo ↦ elim (Bool-cases (c == b'#')) [
        | inl y ↦ rw (not_echo, y) (on_comment-kills e m rest s text read ∙ by_209 m)
        | inr not_comment ↦ elim (Bool-cases (c == b'C')) [
          | inl y ↦
              rw (not_echo, not_comment, y)
                (Every-kills _ (on_code-Every NoKill e a none_sent m s).all)
          | inr not_code ↦ elim (Bool-cases (c == b'F')) [
            | inl y ↦
                rw (not_echo, not_comment, not_code, y)
                  (Every-kills _ (on_file-Every NoKill e a none_sent s).all)
            | inr not_file ↦ elim (Bool-cases (c == b'A')) [
              | inl y ↦ rw (not_echo, not_comment, not_code, not_file, y) refl
              | inr not_accept ↦ elim (Bool-cases (c == b'Q')) [
                | inl y ↦
                    rw (not_echo, not_comment, not_code, not_file, not_accept, y)
                      (Every-kills _ (on_quit-Every NoKill e a none_sent).all)
                | inr not_quit ↦
                    rw (not_echo, not_comment, not_code, not_file, not_accept, not_quit)
                      (Every-kills _ (on_other-Every NoKill e a none_sent m s).all)
              ]
            ]
          ]
        ]
      ]
    ]
  where
    by_209 :
        (m : Bytes)
        → occurs (codes "209") m
          ≡ calls_off (if occurs (codes "209") m then goodbye_comment else comment)
    by_209 m = ground arith

pub handle-kills :
    (e : Setup) (a : Answers) (p : Option Bytes) (c : ℕ) (cs : Bytes) (s : Session)
    → IsMessage (c ∷ cs)
    → IsReady p s
    → kills (handle e a c cs s).0 ≡ calls_off (command (c ∷ cs))
unfolding handle kills
handle-kills e a p c cs s ok ready =
    let m = c ∷ cs in
    let (rest, read) =
      message_terminated m s.buffer ready.clean (omega (arith, ok.half, ok.some_char)) in
    dispatch-kills e a c cs rest (record s { buffer = overwrite m s.buffer }) ok.text read
