-- ===== src/Posix/Forking/Kills.antt =====
-- The parent, against the signals that the processes have sent to it.
use posix_network_programmin.Prelude.{
  ◌≡◌, refl, Bool, false, ◌||◌, List, [], ◌∷◌, ◌++◌, arith, inl, inr, ◌⊎◌, if◌then◌else◌,
}
use posix_network_programmin.Posix.{Effect, kill_parent}
use posix_network_programmin.Posix.Forking.{
  Service, Server, accepting, terminated, broken, kills, server_after, Worker, World, admitted,
  heard_by, admits, passes, breaks, hears, Reach, here, next,
}

pub kills-append : (es fs : List Effect) → kills (es ++ fs) ≡ (kills es || kills fs)
unfolding kills
kills-append [] fs = refl
kills-append (kill_parent sig ∷ es) fs = refl
kills-append (_ ∷ es) fs = kills-append es fs

abbrev pub server_of : Bool → Server
server_of killed = if killed then terminated else accepting

module _ (v : Service) where
  -- Whether one of the processes has sent the signal.
  abbrev pub any_kills : List (Worker v) → Bool
  any_kills [] = false
  any_kills (c ∷ cs) = kills c.trace || any_kills cs

  any_kills-append :
      (cs ds : List (Worker v)) → any_kills (cs ++ ds) ≡ (any_kills cs || any_kills ds)
  any_kills-append [] ds = refl
  any_kills-append (c ∷ cs) ds = ground (arith, any_kills-append cs ds)

  any_kills-hears :
      (l r : List (Worker v)) (c : Worker v) (s : v.Session) (t : v.Turn)
      → any_kills (l ++ heard_by v c s t ∷ r)
        ≡ (any_kills (l ++ c ∷ r) || kills (v.turn c.setup s t).0)
  unfolding heard_by
  any_kills-hears [] r c s t = ground (arith, kills-append c.trace (v.turn c.setup s t).0)
  any_kills-hears (b ∷ l) r c s t = ground (arith, any_kills-hears l r c s t)

  -- Unless an error of accept has ended it, the parent goes on exactly if no process has signalled it.
  pub Reach-server :
      {l : v.Params} {w : World v}
      → Reach v l w
      → (w.server ≡ broken) ⊎ (w.server ≡ server_of (any_kills w.processes))
  unfolding admitted server_after kills
  Reach-server here = inr refl
  Reach-server {l} (next before (admits cs accepted peer locals h)) = elim (Reach-server before) [
    | inl no_server ↦ inl no_server
    | inr server ↦
        inr (ground (arith, server, any_kills-append cs (admitted v l accepted peer locals ∷ [])))
  ]
  Reach-server (next before (passes cs)) = Reach-server before
  Reach-server (next before (breaks cs accepted h k)) = inl refl
  Reach-server (next before (hears server left right c s t h)) = elim (Reach-server before) [
    | inl no_server ↦ inl (ground (arith, no_server))
    | inr same ↦ inr (ground (arith, same, any_kills-hears left right c s t))
  ]
