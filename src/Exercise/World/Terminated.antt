-- ===== src/Exercise/World/Terminated.antt =====
-- Which connections end the parent of all.
use posix_network_programmin.Prelude.{
  ℕ, ◌≡◌, ◌≢◌, refl, sym, ap, ◌∙◌, Bool, false, ◌||◌, List, [], ◌∷◌, ◌++◌, map, Option, none, arith,
  All, Bool-cases, inl, inr, if◌then◌else◌,
}
use posix_network_programmin.Cstring.{Bytes}
use posix_network_programmin.Posix.{returned, Proc, ◌>>=◌, exit_success}
use posix_network_programmin.Exercise.Connection.{
  Setup, Session, Next, again, leave, handle, wipe, resume, serve,
}
use posix_network_programmin.Exercise.Connection.Invariant.{IsReady, wipe-IsReady}
use posix_network_programmin.Exercise.Connection.Others.{IsPath}
use posix_network_programmin.Exercise.Connection.Protocol.{Command, command, is_last, pending_after}
use posix_network_programmin.Exercise.Connection.Refines.{
  Job, turn, asked, IsServed, Does, handle-Does,
}
use posix_network_programmin.Exercise.Server.{Logs}
use posix_network_programmin.Posix.Forking.{accepting, terminated, broken, kills, World, Reach}
use posix_network_programmin.Posix.Forking.Follows.{Follows, Reach-Follows}
use posix_network_programmin.Posix.Forking.Kills.{kills-append, any_kills, Reach-server}
use posix_network_programmin.Exercise.World.{connection_service, Connection}
use posix_network_programmin.Exercise.World.Answers.{IsTame, jobs-trace}
use posix_network_programmin.Exercise.World.Kills.{calls_off, handle-kills}

-- Whether a goodbye or an A is among the messages, before a Q.
unfoldable pub stops : List (Bytes × Bytes) → Bool
stops [] = false
stops ((m, content) ∷ ms) =
    let more = stops ms in if is_last (command m) then calls_off (command m) else more

more-calls_off : (k : Command) → is_last k ≡ false → calls_off k ≡ false
more-calls_off k h = ground arith

-- A run that returns, and one behind it.
kills-bind :
    (r : Proc Next) (n : Next) (f : Next → Proc ℕ)
    → r.1 ≡ returned n
    → kills (r >>= f).0 ≡ (kills r.0 || kills (f n).0)
kills-bind (es, o) n f h = rw h (kills-append es (f n).0)

module _ (e : Setup) (path : Bytes) (log_apart : e.logfd ≢ e.sockfd)
    (resp_apart : e.respfd ≢ e.sockfd) (src : e.srcpath ≡ path ++ 0 ∷ [])
    (path_ok : IsPath path) where
  pub serve-kills :
      (ts : List Job) (p : Option Bytes) (s : Session)
      → All (IsServed e.sockfd) ts
      → IsReady p s
      → kills (serve e s (map turn ts)).0 ≡ stops (map asked ts)
  unfolding serve stops kills
  serve-kills [] p s ok ready = refl
  serve-kills (([], a, f) ∷ ts) p s ok ready = absurd (omega (arith, ok.0.0.some_char))
  serve-kills ((c ∷ cs, a, f) ∷ ts) p s ok ready =
      let m = c ∷ cs in
      let step =
        handle-Does e path log_apart resp_apart src path_ok a f p c cs s ok.0.0 ok.0.1 ready in
      let signal = handle-kills e a p c cs s ok.0.0 ready in
      let run = handle e a c cs s in
      let rest : Session → Proc ℕ = λ s'. serve e s' (map turn ts) in
      elim (Bool-cases (is_last (command m))) [
        | inl stop ↦
            let (sent, left) = rw (stop, Does) at step in
            let both = kills-bind run (leave exit_success) (resume rest) left in
            rw stop (ground (arith, both, signal))
        | inr more ↦
            let (s', sent, left) = rw (more, Does) at step in
            let both = kills-bind run (again s') (resume rest) sent.1 in
            let quiet = more-calls_off (command m) more in
            let later =
              serve-kills ts (pending_after p (command m) m) (wipe s') ok.1
                (wipe-IsReady s' left) in
            rw more (ground (arith, both, signal, quiet, later))
      ]

trace-kills :
    (c : Connection)
    → Follows connection_service c
    → (t : IsTame c) → kills c.trace ≡ stops (map asked t.jobs)
trace-kills c f t =
    ap kills (sym (jobs-trace c f t))
    ∙ serve-kills c.setup t.path t.apart.log t.resp_apart t.source t.path_ok t.jobs none c.locals
        t.served t.ready

-- Whether one of the connections was told to stop.
abbrev pub any_stops : (cs : List Connection) → All IsTame cs → Bool
any_stops [] tame = false
any_stops (c ∷ cs) tame = stops (map asked tame.0.jobs) || any_stops cs tame.1

any_kills-stops :
    (cs : List Connection)
    → All (Follows connection_service) cs
    → (tame : All IsTame cs) → any_kills connection_service cs ≡ any_stops cs tame
any_kills-stops [] f tame = refl
any_kills-stops (c ∷ cs) f tame =
    ground (arith, trace-kills c f.0 tame.0, any_kills-stops cs f.1 tame.1)

-- In every order of the turns of the parent and of the connections, if accept has met no error that is
-- not transient, and each connection started from cleared arrays and has read messages as in the theorem
-- on `newConnection`: the parent was ended by the signal if one of the connections has read a goodbye or
-- an A, before any Q; otherwise it goes on to accept.
pub Reach-terminated :
    {l : Logs} {w : World connection_service}
    → Reach connection_service l w
    → w.server ≢ broken
    → (tame : All IsTame w.processes)
    → w.server ≡ (if any_stops w.processes tame then terminated else accepting)
Reach-terminated {l} {w} reach whole tame = elim (Reach-server connection_service reach) [
  | inl no_server ↦ absurd (whole no_server)
  | inr server ↦
      let same = any_kills-stops w.processes (Reach-Follows connection_service reach) tame in
      rw (← same) server
]
