-- ===== src/ProdCons/Progress.antt =====
-- Where the threads of prodcons6.c come to rest, whatever their order.
use posix_network_programmin.Prelude.{
  ℕ, zero, suc, ◌<◌, ◌≤◌, ◌≡◌, refl, List, [], ◌∷◌, inl, inr, arith, All,
}
use posix_network_programmin.ProdCons.{
  Producer, ready, stored, returned, Consumer, begins, waits, woken, took, done, System, Reach,
  next, start,
}
use posix_network_programmin.ProdCons.Counting.{total}
use posix_network_programmin.ProdCons.Sound.{pending, taken, ProducerOk}
use posix_network_programmin.ProdCons.Invariant.{Reach-IsSound}
use posix_network_programmin.ProdCons.Stuck.{HasReturned, IsAtRest, IsStuck, at_rest}
use posix_network_programmin.ProdCons.Measure.{steps_left, Step-steps_left, Run, starts, moves}
use posix_network_programmin.ProdCons.Moves.{moves_or_rests}
use posix_network_programmin.ProdCons.Served.{active, count, Reach-IsServed}

pub returned-pending : (ps : List Producer) → All HasReturned ps → total pending ps ≡ 0
returned-pending [] a = refl
returned-pending (ready ∷ ps) a = absurd a.0
returned-pending (stored ∷ ps) a = absurd a.0
returned-pending (returned ∷ ps) a = omega (arith, returned-pending ps a.1)

returned-full :
    (nitems nput : ℕ) (ps : List Producer)
    → 0 < count ps
    → All HasReturned ps
    → All (ProducerOk nitems nput) ps
    → (nitems ≤ nput) × (total pending ps ≡ 0)
returned-full nitems nput [] h a ok = absurd (omega arith)
returned-full nitems nput (ready ∷ ps) h a ok = absurd a.0
returned-full nitems nput (stored ∷ ps) h a ok = absurd a.0
returned-full nitems nput (returned ∷ ps) h a ok = (ok.0, omega (arith, returned-pending ps a.1))

rest-active : (cs : List Consumer) → All IsAtRest cs → total active cs ≡ 0
rest-active [] a = refl
rest-active (begins i ∷ cs) a = absurd a.0
rest-active (waits i ∷ cs) a = omega (arith, rest-active cs a.1)
rest-active (woken i ∷ cs) a = absurd a.0
rest-active (took i ∷ cs) a = absurd a.0
rest-active (done i ∷ cs) a = omega (arith, rest-active cs a.1)

-- Every item is stored and taken, what the consumers took adds up to them, the producers have
-- returned, and each consumer waits or has returned.
pub record IsFinished (nitems : ℕ) (t : System) : Type 0 where
  pub all_stored : t.shared.nput ≡ nitems
  pub all_taken : t.shared.nget ≡ nitems
  pub shares : total taken t.consumers ≡ nitems
  pub producers : All HasReturned t.producers
  pub consumers : All IsAtRest t.consumers

module _ (nitems nthreads : ℕ) (some_thread : 0 < nthreads) where
  rests-IsFinished :
      {t : System}
      → Reach nitems (start nthreads) t
      → All HasReturned t.producers
      → All IsAtRest t.consumers
      → IsFinished nitems t
  rests-IsFinished {t} reach ps cs =
      let sound = Reach-IsSound nitems nthreads reach in
      let active_ones = Reach-IsServed nitems nthreads some_thread reach in
      let (full, none_left) =
        returned-full nitems t.shared.nput t.producers
          (omega (arith, some_thread, active_ones.all_producers)) ps sound.producers in
      let empty : t.shared.nready ≡ 0 = elim active_ones.served [
        | inl e ↦ e
        | inr h ↦ absurd (omega (arith, h, rest-active t.consumers cs))
      ] in
      record {
        all_stored = omega (arith, full, sound.shared.bound);
        all_taken = omega (arith, full, sound.shared.bound, sound.shared.balance, none_left, empty);
        shares = omega (
          arith, full, sound.shared.bound, sound.shared.balance, none_left, empty, sound.all_taken,
        );
        producers = ps;
        consumers = cs;
      }

  -- With a thread of each kind at least: in every reachable state in which no thread makes a step,
  -- every item is stored and taken, what the consumers took adds up to `nitems`, the producers have
  -- returned, and each consumer waits or has returned.
  pub IsStuck-IsFinished :
      {t : System} → Reach nitems (start nthreads) t → IsStuck nitems t → IsFinished nitems t
  IsStuck-IsFinished {t} reach stuck = elim (moves_or_rests nitems t) [
    | inl step ↦ absurd (stuck step)
    | inr rest ↦ rests-IsFinished reach rest.0 rest.1
  ]

  finishes :
      (fuel : ℕ) {t u : System} {steps : ℕ}
      → steps_left nitems u < fuel
      → Reach nitems (start nthreads) u
      → Run nitems t u steps 0
      → (v : System) × (n : ℕ) × Run nitems t v n 0 × IsStuck nitems v × IsFinished nitems v
  finishes zero h reach run = absurd (omega arith)
  finishes (suc fuel) {t} {u} h reach run = elim (moves_or_rests nitems u) [
    | inl step ↦
        let less = Step-steps_left step.1 in
        finishes fuel (omega (arith, h, less)) (next reach step.1) (moves run step.1)
    | inr rest ↦
        (u, _, run, λ step. at_rest step.1 rest.0 rest.1, rests-IsFinished reach rest.0 rest.1)
  ]

  -- With a thread of each kind at least: from every state that the threads reach, they can go on, with
  -- no return of a wait that was not signalled, to a state in which no thread makes a step, every
  -- item is stored and taken, the producers have returned, and each consumer waits or has returned.
  pub Reach-IsFinished :
      {t : System}
      → Reach nitems (start nthreads) t
      → (u : System) × (n : ℕ) × Run nitems t u n 0 × IsStuck nitems u × IsFinished nitems u
  Reach-IsFinished {t} reach = finishes (suc (steps_left nitems t)) (omega arith) reach starts
