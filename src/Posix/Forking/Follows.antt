-- ===== src/Posix/Forking/Follows.antt =====
-- What each process does beside the others, against its run alone.
use mathlib.Core.Path.{fun_ext, subst}
use posix_network_programmin.Prelude.{
  ℕ, ◌≡◌, refl, sym, ap, ◌∙◌, List, [], ◌∷◌, ◌++◌, All, All-append, All-at, All-replace,
  append_assoc, append-nil,
}
use posix_network_programmin.Posix.{Answer, Effect, Proc}
use posix_network_programmin.Posix.Forking.{
  Service, Life, alive, over, Goes, Worker, World, admitted, heard_by, admits, passes, breaks,
  hears, Reach, here, next,
}

module _ (v : Service) where
  -- The run of the process alone, on what it has read and any turns to come.
  abbrev pub Follows : Worker v → Type 0
  Follows c = Goes (v.loop c.setup) (λ ts. v.loop c.setup c.locals (c.heard ++ ts)) c.life c.trace

  -- One turn more.
  Goes-next :
      (e : v.Setup) (run : List v.Turn → Proc v.Result) (s : v.Session) (t : v.Turn)
      (life : Life v.Session) (es more : List Effect)
      → Goes (v.loop e) run (alive s) es
      → Goes (v.loop e) (λ ts. v.loop e s (t ∷ ts)) life more
      → Goes (v.loop e) (λ ts. run (t ∷ ts)) life (es ++ more)
  Goes-next e run s t (alive s') es more h k = λ ts.
      let one = h (t ∷ ts) in
      let two = k ts in rw (one, two, append_assoc es more (v.loop e s' ts).0) refl
  Goes-next e run s t over es more h k =
      λ ts. ap (λ r. r.0) (h (t ∷ ts)) ∙ ap (λ fs. es ++ fs) (k ts)

  heard_by-Follows :
      (c : Worker v) (s : v.Session) (t : v.Turn)
      → c.life ≡ alive s
      → Follows c
      → Follows (heard_by v c s t)
  unfolding heard_by
  heard_by-Follows c s t a h =
      let e = c.setup in
      let run : List v.Turn → Proc v.Result = λ ts. v.loop e c.locals (c.heard ++ ts) in
      let one : Goes (v.loop e) run (alive s) c.trace = rw a at h in
      let more =
        Goes-next e run s t (v.turn e s t).1 c.trace (v.turn e s t).0 one (v.turn-Goes e s t) in
      let same = fun_ext (λ ts. ap (v.loop e c.locals) (sym (append_assoc c.heard (t ∷ []) ts))) in
      subst (λ r. Goes (v.loop e) r (v.turn e s t).1 (c.trace ++ (v.turn e s t).0)) same more

  admitted-Follows :
      (l : v.Params) (accepted : Answer) (peer : ℕ) (locals : v.Session)
      → Follows (admitted v l accepted peer locals)
  unfolding admitted
  admitted-Follows l accepted peer locals ts = refl

  -- What holds of a process at its start and is kept by its turns holds of every process, in every order
  -- of the turns.
  pub Reach-All {ℓ} :
      (P : Worker v → Type ℓ)
      → ((l : v.Params) (accepted : Answer) (peer : ℕ) (locals : v.Session)
          → P (admitted v l accepted peer locals))
      → ((c : Worker v) (s : v.Session) (t : v.Turn)
          → c.life ≡ alive s
          → P c
          → P (heard_by v c s t))
      → {l : v.Params} {w : World v} → Reach v l w
      → All P w.processes
  Reach-All P starts keeps here = tt
  Reach-All P starts keeps {l} (next before (admits cs accepted peer locals h)) =
      All-append P cs (admitted v l accepted peer locals ∷ []) (Reach-All P starts keeps before)
        (starts l accepted peer locals, tt)
  Reach-All P starts keeps (next before (passes cs)) = Reach-All P starts keeps before
  Reach-All P starts keeps (next before (breaks cs accepted h k)) = Reach-All P starts keeps before
  Reach-All P starts keeps (next before (hears server left right c s t h)) =
      let all = Reach-All P starts keeps before in
      All-replace P left right c (heard_by v c s t) (keeps c s t h (All-at P left right c all)) all

  -- In every order of the turns of the parent and of the processes, each process has made the calls that
  -- it makes alone on what it has read, and goes on as it does alone.
  pub Reach-Follows : {l : v.Params} {w : World v} → Reach v l w → All Follows w.processes
  Reach-Follows reach = Reach-All Follows admitted-Follows heard_by-Follows reach

  Goes-trace :
      (e : v.Setup) (run : List v.Turn → Proc v.Result) (life : Life v.Session) (es : List Effect)
      → ((s : v.Session) → (v.loop e s []).0 ≡ [])
      → Goes (v.loop e) run life es
      → (run []).0 ≡ es
  Goes-trace e run (alive s) es quiet h =
      ap (λ r. r.0) (h []) ∙ ap (λ fs. es ++ fs) (quiet s) ∙ append-nil es
  Goes-trace e run over es quiet h = h []

  -- With a loop that makes no call in front of its first read.
  pub Follows-trace :
      (c : Worker v) (turns : List v.Turn)
      → ((s : v.Session) → (v.loop c.setup s []).0 ≡ [])
      → Follows c
      → c.heard ≡ turns
      → (v.loop c.setup c.locals turns).0 ≡ c.trace
  Follows-trace c turns quiet f heard =
      let run : List v.Turn → Proc v.Result = λ ts. v.loop c.setup c.locals (c.heard ++ ts) in
      ap (λ ts. (v.loop c.setup c.locals ts).0) (sym (append-nil c.heard ∙ heard))
      ∙ Goes-trace c.setup run c.life c.trace quiet f
