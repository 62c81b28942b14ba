-- ===== src/ProdCons/Race/Outcome.antt =====
-- What the counters of prodcons6.c add up to, in every order of the loads and stores on them.
use posix_network_programmin.Prelude.{
  All-at, ℕ, ◌+◌, ◌%◌, ◌<◌, ◌≡◌, refl, sym, ◌∙◌, List, ◌∷◌, ◌++◌, arith, All, length, ◌⊎◌, inl, inr,
  dec_lt,
}
use posix_network_programmin.Cstring.{int_mod}
use posix_network_programmin.ProdCons.{
  Shared, Producer, stored, Consumer, begins, waits, woken, took, done, System, Step, puts, is_full,
  announces, announces_first, falls_asleep, finds_none, gets, checks, ends, wakes_up, start,
}
use posix_network_programmin.ProdCons.Counting.{total, total-at}
use posix_network_programmin.ProdCons.Sound.{pending, IsSound}
use posix_network_programmin.ProdCons.Invariant.{Reach-IsSound}
use posix_network_programmin.ProdCons.Stuck.{IsStuck}
use posix_network_programmin.ProdCons.Counts.{counts, Tally, zeros, moved, woke}
use posix_network_programmin.ProdCons.Totals.{InLoop, ended, Enters-lt, Enters-ended, Tally-Adds}
use posix_network_programmin.ProdCons.Report.{Tally-Reach, some-ended, IsStuck-counts}
use posix_network_programmin.ProdCons.Race.{
  Cell, value, IsIdle, owes, MayMove, Race, zeros, moved, woke, touched,
}
use posix_network_programmin.ProdCons.Race.Close.{
  Close, Close-zeros, Close-consumer, Close-Signals, Close-up, Close-down, Close-Touch,
}
use posix_network_programmin.ProdCons.Race.Lost.{Off, Off-add, Close-Off}

-- While an item is not announced no consumer's loop ended.
stored-none :
    (nitems : ℕ) (s : Shared) (l r : List Producer) (cs : List Consumer)
    → IsSound nitems (record { shared = s; producers = l ++ stored ∷ r; consumers = cs })
    → total (ended nitems) cs ≡ 0
stored-none nitems s l r cs sound = elim (dec_lt 0 (total (ended nitems) cs)) [
  | no none ↦ omega (arith, none)
  | yes more ↦ absurd (
      omega (
        arith,
        some-ended nitems cs more,
        sound.all_taken,
        sound.shared.bound,
        sound.shared.balance,
        total-at pending l r stored,
      ))
]

Step-Close :
    {nitems : ℕ} {t u : System} (s : Step nitems t u) (ns : List ℕ) (ds : List Cell)
    → IsSound nitems t
    → All (InLoop nitems) t.consumers
    → MayMove s ds
    → Close nitems t.consumers ns ds
    → Close nitems u.consumers (counts s ns) (owes s ds)
unfolding counts owes
Step-Close {nitems} (puts s s' l r cs e) ns ds sound inside may h = h
Step-Close {nitems} (is_full s l r cs e) ns ds sound inside may h = h
Step-Close {nitems} (announces s l r cs ne) ns ds sound inside may h =
    Close-up nitems (length l) cs ns ds (stored-none nitems s l r cs sound) may h
Step-Close {nitems} (announces_first s l r cs cs' e sig) ns ds sound inside may h =
    Close-Signals nitems _ _ sig
      (Close-up nitems (length l) cs ns ds (stored-none nitems s l r cs sound) may h)
Step-Close {nitems} (falls_asleep s ps l r c i en e) ns ds sound inside may h =
    Close-consumer nitems l r c (waits i) ns ds (sym (Enters-ended en)) h
Step-Close {nitems} (finds_none s ps l r cs' c i en e sig) ns ds sound inside may h =
    let early : i < nitems = Enters-lt en (All-at (InLoop nitems) l r c inside) in
    let cut : ended nitems (done i) ≡ 0 = ground arith in
    Close-Signals nitems ns ds sig
      (Close-consumer nitems l r c (done i) ns ds (cut ∙ sym (Enters-ended en)) h)
Step-Close {nitems} (gets s s' ps l r c i en e) ns ds sound inside may h =
    Close-consumer nitems l r c (took i) ns ds (sym (Enters-ended en)) h
Step-Close {nitems} (checks s ps l r i) ns ds sound inside may h =
    Close-consumer nitems l r (took i) (begins (i + 1)) ns ds refl h
Step-Close {nitems} (ends s ps l r i le) ns ds sound inside may h =
    Close-down nitems l r i ns ds le h

-- Every run has one with the same steps in which the changes do not overlap.
pub Race-Tally :
    (nitems nthreads : ℕ) {t : System} {cells : List Cell}
    → Race nitems nthreads t cells
    → (ns : List ℕ) × Tally nitems nthreads t ns × Close nitems t.consumers ns cells
unfolding start
Race-Tally nitems nthreads zeros = (_, zeros, Close-zeros nitems nthreads)
Race-Tally nitems nthreads (moved {cells = ds} race s may) =
    let (ns, tally, close) = Race-Tally nitems nthreads race in
    let sound = Reach-IsSound nitems nthreads (Tally-Reach tally) in
    let inside = (Tally-Adds nitems nthreads tally).in_loop in
    (counts s ns, moved tally s, Step-Close s ns ds sound inside may close)
Race-Tally nitems nthreads (woke {cells = ds} race (wakes_up s ps l r i)) =
    let (ns, tally, close) = Race-Tally nitems nthreads race in
    (
      ns,
      woke tally (wakes_up s ps l r i),
      Close-consumer nitems l r (waits i) (woken i) ns ds refl close,
    )
Race-Tally nitems nthreads (touched {t} l r race touch) =
    let (ns, tally, close) = Race-Tally nitems nthreads race in
    (ns, tally, Close-Touch nitems t.consumers ns l r touch close)

-- With an item and a thread of each kind at least, in every order of the loads and stores on the
-- counters: once no thread makes a step and no change of a counter is under way, the counters, as ints,
-- add up to `nitems` if no consumer took all the items and ended its loop. Otherwise one did, and they
-- add up to `nitems` less one, or to one more or one less than that.
pub IsStuck-sum :
    (nitems nthreads : ℕ) {t : System} {cells : List Cell}
    → 0 < nitems
    → 0 < nthreads
    → Race nitems nthreads t cells
    → IsStuck nitems t
    → All IsIdle cells
    → ((total (ended nitems) t.consumers ≡ 0) × (total value cells % int_mod ≡ nitems % int_mod))
      ⊎ ((total (ended nitems) t.consumers ≡ 1) × Off (total value cells + 1) nitems)
IsStuck-sum nitems nthreads {t} {cells} some_item some_thread race stuck rest =
    let (ns, tally, close) = Race-Tally nitems nthreads race in
    let (sum, few) = IsStuck-counts nitems nthreads some_item some_thread tally stuck in
    elim (Close-Off nitems t.consumers ns cells few rest close) [
      | inl same ↦ inl (same.0, omega (arith, same.0, same.1, sum))
      | inr off ↦ inr (
        off.0,
        Off-add (total value cells) (total (λ x. x) ns) 1 _ _ refl (omega (arith, sum, off.0))
            off.1,
      )
    ]
