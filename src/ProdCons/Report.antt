-- ===== src/ProdCons/Report.antt =====
-- The counters of prodcons6.c once no thread makes a step, where no two changes of one overlap.
use posix_network_programmin.Prelude.{
  ℕ, ◌+◌, ◌%◌, ◌<◌, ◌≤◌, ◌≡◌, refl, List, [], ◌∷◌, arith, leb, leb→le, Bool-cases, ◌⊎◌, inl, inr,
  dec_lt,
}
use posix_network_programmin.Cstring.{int_mod}
use posix_network_programmin.ProdCons.{
  Consumer, begins, waits, woken, took, done, System, Reach, here, next, wake, start,
}
use posix_network_programmin.ProdCons.Counting.{total}
use posix_network_programmin.ProdCons.Sound.{taken}
use posix_network_programmin.ProdCons.Stuck.{IsStuck}
use posix_network_programmin.ProdCons.Progress.{IsStuck-IsFinished, returned-pending}
use posix_network_programmin.ProdCons.Counts.{Tally, zeros, moved, woke}
use posix_network_programmin.ProdCons.Totals.{ended, Tally-Adds}

pub Tally-Reach :
    {nitems nthreads : ℕ} {t : System} {count : List ℕ}
    → Tally nitems nthreads t count
    → Reach nitems (start nthreads) t
Tally-Reach zeros = here
Tally-Reach (moved t s) = next (Tally-Reach t) s
Tally-Reach (woke t s) = wake (Tally-Reach t) s

-- A consumer whose loop ended took every item.
pub ended-taken :
    (nitems : ℕ) (c : Consumer) → (ended nitems c ≡ 0) ⊎ ((ended nitems c ≡ 1) × (nitems ≤ taken c))
ended-taken nitems (done i) = elim (Bool-cases (leb nitems i)) [
  | inl y ↦ inr (rw y refl, leb→le nitems i y)
  | inr n ↦ inl (rw n refl)
]
ended-taken nitems (begins i) = inl refl
ended-taken nitems (waits i) = inl refl
ended-taken nitems (woken i) = inl refl
ended-taken nitems (took i) = inl refl

pub some-ended :
    (nitems : ℕ) (cs : List Consumer) → 0 < total (ended nitems) cs → nitems ≤ total taken cs
some-ended nitems [] h = absurd (omega arith)
some-ended nitems (c ∷ cs) h = elim (ended-taken nitems c) [
  | inl none ↦ omega (arith, some-ended nitems cs (omega (arith, h, none)))
  | inr one ↦ omega (arith, one.1)
]

pub few-ended :
    (nitems : ℕ) (cs : List Consumer)
    → 0 < nitems
    → total taken cs ≤ nitems
    → total (ended nitems) cs ≤ 1
few-ended nitems [] pos h = omega arith
few-ended nitems (c ∷ cs) pos h = elim (ended-taken nitems c) [
  | inl none ↦ omega (arith, none, few-ended nitems cs pos (omega (arith, h)))
  | inr one ↦ elim (dec_lt 0 (total (ended nitems) cs)) [
    | yes more ↦ absurd (omega (arith, pos, h, one.1, some-ended nitems cs more))
    | no stop ↦ omega (arith, one.0, stop)
  ]
]

-- With an item and a thread of each kind at least: in every reachable state in which no thread makes a
-- step, the counters, as ints, add up to `nitems`, or to one less where a consumer took all the items
-- and ended its loop; no two consumers did that.
pub IsStuck-counts :
    (nitems nthreads : ℕ) {t : System} {count : List ℕ}
    → 0 < nitems
    → 0 < nthreads
    → Tally nitems nthreads t count
    → IsStuck nitems t
    → ((total (λ x. x) count + total (ended nitems) t.consumers) % int_mod ≡ nitems % int_mod)
      × (total (ended nitems) t.consumers ≤ 1)
IsStuck-counts nitems nthreads {t} some_item some_thread tally stuck =
    let f = IsStuck-IsFinished nitems nthreads some_thread (Tally-Reach tally) stuck in
    let a = Tally-Adds nitems nthreads tally in
    let announced = returned-pending t.producers f.producers in
    (
      omega (arith, a.sum, announced, f.all_stored),
      few-ended nitems t.consumers some_item (omega (arith, f.shares)),
    )
