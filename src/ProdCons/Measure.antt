-- ===== src/ProdCons/Measure.antt =====
-- How many steps the threads of prodcons6.c make at most.
use posix_network_programmin.Prelude.{
  ℕ, zero, suc, ◌+◌, ◌-◌, ◌*◌, ◌<◌, ◌≤◌, ◌≡◌, refl, List, arith, replicate,
}
use posix_network_programmin.ProdCons.{
  Producer, ready, stored, returned, ready_section, Consumer, begins, waits, woken, took, done,
  System, Signals, one, nobody, Enters, locks, wakes, Step, puts, is_full, announces,
  announces_first, falls_asleep, finds_none, gets, checks, ends, Spurious, wakes_up, start,
}
use posix_network_programmin.ProdCons.Counting.{total, total-replace}
use posix_network_programmin.ProdCons.Sound.{get_section-takes, put_section-some}

-- The steps that a thread makes before it stores or takes an item again, waits or returns, and one
-- for each thread that it wakes.
abbrev producer_steps : Producer → ℕ
producer_steps ready = 1
producer_steps stored = 3
producer_steps returned = 0

abbrev consumer_steps : Consumer → ℕ
consumer_steps (begins i) = 2
consumer_steps (waits i) = 1
consumer_steps (woken i) = 2
consumer_steps (took i) = 3
consumer_steps (done i) = 0

-- Three for each item that is not stored, two for each that is not taken, and those of the threads.
unfoldable pub steps_left : ℕ → System → ℕ
steps_left nitems t =
    3 * (nitems - t.shared.nput)
    + 2 * (nitems - t.shared.nget)
    + total producer_steps t.producers
    + total consumer_steps t.consumers

Signals-steps :
    {cs cs' : List Consumer}
    → Signals cs cs'
    → total consumer_steps cs' ≤ total consumer_steps cs + 1
Signals-steps (one l r i) = omega (arith, total-replace consumer_steps l r (waits i) (woken i))
Signals-steps (nobody cs h) = omega arith

Enters-steps : {nitems : ℕ} {c : Consumer} {i : ℕ} → Enters nitems c i → consumer_steps c ≡ 2
Enters-steps (locks i h) = refl
Enters-steps (wakes i) = refl

pub Step-steps_left :
    {nitems : ℕ} {t u : System} → Step nitems t u → steps_left nitems u < steps_left nitems t
unfolding steps_left ready_section
Step-steps_left {nitems} (puts s s' l r cs e) =
    let (room, eq) = put_section-some nitems s s' e in
    let more = total-replace producer_steps l r ready stored in rw eq (omega (arith, room, more))
Step-steps_left (is_full s l r cs e) =
    omega (arith, total-replace producer_steps l r ready returned)
Step-steps_left (announces s l r cs ne) =
    omega (arith, total-replace producer_steps l r stored ready)
Step-steps_left (announces_first s l r cs cs' e sig) =
    omega (arith, total-replace producer_steps l r stored ready, Signals-steps sig)
Step-steps_left (falls_asleep s ps l r c i en e) =
    omega (arith, total-replace consumer_steps l r c (waits i), Enters-steps en)
Step-steps_left (finds_none s ps l r cs' c i en e sig) =
    omega (arith, total-replace consumer_steps l r c (done i), Enters-steps en, Signals-steps sig)
Step-steps_left {nitems} (gets s s' ps l r c i en e) =
    let (pos, below, eq) = get_section-takes nitems s s' e in
    let more = total-replace consumer_steps l r c (took i) in
    let two = Enters-steps en in rw eq (omega (arith, below, more, two))
Step-steps_left (checks s ps l r i) =
    omega (arith, total-replace consumer_steps l r (took i) (begins (i + 1)))
Step-steps_left (ends s ps l r i h) =
    omega (arith, total-replace consumer_steps l r (begins i) (done i))

pub Spurious-steps_left :
    (nitems : ℕ) {t u : System} → Spurious t u → steps_left nitems u ≡ steps_left nitems t + 1
unfolding steps_left
Spurious-steps_left nitems (wakes_up s ps l r i) =
    omega (arith, total-replace consumer_steps l r (waits i) (woken i))

total-replicate_const :
    {A : Type 0} (f : A → ℕ) (n k : ℕ) (x : A) → f x ≡ k → total f (replicate n x) ≡ k * n
total-replicate_const f zero k x h = omega arith
total-replicate_const f (suc n) k x h = omega (arith, h, total-replicate_const f n k x h)

pub steps_left-start :
    (nitems nthreads : ℕ) → steps_left nitems (start nthreads) ≡ 5 * nitems + 3 * nthreads
unfolding steps_left start
steps_left-start nitems nthreads = omega (
  arith,
  total-replicate_const producer_steps nthreads 1 ready refl,
  total-replicate_const consumer_steps nthreads 2 (begins 0) refl,
)

-- A run of the threads that makes `steps` steps, with `early` returns of a wait with no signal between
-- them.
pub data Run (nitems : ℕ) (t : System) : System → ℕ → ℕ → Type 0 where
  starts : Run nitems t t 0 0
  moves :
      {u v : System} {steps early : ℕ}
      → Run nitems t u steps early
      → Step nitems u v
      → Run nitems t v (suc steps) early
  wakes_early :
      {u v : System} {steps early : ℕ}
      → Run nitems t u steps early
      → Spurious u v
      → Run nitems t v steps (suc early)

Run-steps_left :
    {nitems : ℕ} {t u : System} {steps early : ℕ}
    → Run nitems t u steps early
    → steps + steps_left nitems u ≤ steps_left nitems t + early
Run-steps_left starts = omega arith
Run-steps_left (moves r s) = omega (arith, Run-steps_left r, Step-steps_left s)
Run-steps_left {nitems} (wakes_early r s) =
    omega (arith, Run-steps_left r, Spurious-steps_left nitems s)

-- From the start, with `nitems` items and `nthreads` threads of each kind, the threads make at most
-- `5 * nitems + 3 * nthreads` steps, and one more for each time that a wait returns with no signal.
pub Run-bound :
    (nitems nthreads : ℕ) {t : System} {steps early : ℕ}
    → Run nitems (start nthreads) t steps early
    → steps ≤ 5 * nitems + 3 * nthreads + early
Run-bound nitems nthreads r = omega (arith, Run-steps_left r, steps_left-start nitems nthreads)
