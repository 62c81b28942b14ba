-- ===== src/ProdCons/Race/Close.antt =====
-- The counters of prodcons6.c, against what they are when the changes do not overlap.
use posix_network_programmin.Prelude.{
  ℕ, zero, suc, ◌≤◌, ◌≡◌, refl, List, [], ◌∷◌, ◌++◌, arith, length, replicate,
}
use posix_network_programmin.ProdCons.{Consumer, begins, waits, woken, done, Signals, one, nobody}
use posix_network_programmin.ProdCons.Counting.{total}
use posix_network_programmin.ProdCons.Counts.{at_index, count_up, count_down}
use posix_network_programmin.ProdCons.Totals.{ended}
use posix_network_programmin.ProdCons.Race.{idle, Cell, cell, owe_up, owe_down, IsFree, Touch}
use posix_network_programmin.ProdCons.Race.Near.{Near, Touch-Near, up-Near, down-Near}

-- One counter for each consumer.
abbrev pub Close : ℕ → List Consumer → List ℕ → List Cell → Type 0
Close nitems [] [] [] = Unit
Close nitems (c ∷ cs) (n ∷ ns) (d ∷ ds) = Near (ended nitems c) n d × Close nitems cs ns ds
Close nitems _ _ _ = ⊥

module _ (nitems : ℕ) where
  pub Close-zeros :
      (nthreads : ℕ)
      → Close nitems
          (replicate nthreads (begins 0))
          (replicate nthreads 0)
          (replicate nthreads (cell 0 idle idle))
  Close-zeros zero = tt
  Close-zeros (suc k) = ((omega arith, refl), Close-zeros k)

  -- A consumer goes on.
  pub Close-consumer :
      (l r : List Consumer) (c d : Consumer) (ns : List ℕ) (ds : List Cell)
      → ended nitems d ≡ ended nitems c
      → Close nitems (l ++ c ∷ r) ns ds
      → Close nitems (l ++ d ∷ r) ns ds
  Close-consumer [] r c d (n ∷ ns) (x ∷ ds) e h = rw e h
  Close-consumer (b ∷ l) r c d (n ∷ ns) (x ∷ ds) e h = (h.0, Close-consumer l r c d ns ds e h.1)
  Close-consumer [] r c d [] ds e h = absurd h
  Close-consumer [] r c d (n ∷ ns) [] e h = absurd h
  Close-consumer (b ∷ l) r c d [] ds e h = absurd h
  Close-consumer (b ∷ l) r c d (n ∷ ns) [] e h = absurd h

  pub Close-Signals :
      {cs cs' : List Consumer} (ns : List ℕ) (ds : List Cell)
      → Signals cs cs'
      → Close nitems cs ns ds
      → Close nitems cs' ns ds
  Close-Signals ns ds (one l r i) h = Close-consumer l r (waits i) (woken i) ns ds refl h
  Close-Signals ns ds (nobody cs a) h = h

  -- A producer is to count up, while no consumer's loop ended.
  pub Close-up :
      (i : ℕ) (cs : List Consumer) (ns : List ℕ) (ds : List Cell)
      → total (ended nitems) cs ≡ 0
      → IsFree i ds
      → Close nitems cs ns ds
      → Close nitems cs (at_index count_up i ns) (at_index owe_up i ds)
  Close-up i [] [] [] e f h = tt
  Close-up zero (c ∷ cs) (n ∷ ns) (cell v u d ∷ ds) e f h =
      let none : ended nitems c ≡ 0 = omega (arith, e) in
      let near : Near 0 n (cell v idle d) = rw (none, f) at h.0 in
      (rw none (up-Near n v d near), h.1)
  Close-up (suc i) (c ∷ cs) (n ∷ ns) (d ∷ ds) e f h =
      (h.0, Close-up i cs ns ds (omega (arith, e)) f h.1)
  Close-up i [] (n ∷ ns) ds e f h = absurd h
  Close-up i [] [] (d ∷ ds) e f h = absurd h
  Close-up i (c ∷ cs) [] ds e f h = absurd h
  Close-up i (c ∷ cs) (n ∷ ns) [] e f h = absurd h

  -- A consumer's loop ends, and it is to count down.
  pub Close-down :
      (l r : List Consumer) (i : ℕ) (ns : List ℕ) (ds : List Cell)
      → nitems ≤ i
      → Close nitems (l ++ begins i ∷ r) ns ds
      → Close nitems
          (l ++ done i ∷ r)
          (at_index count_down (length l) ns)
          (at_index owe_down (length l) ds)
  Close-down [] r i (n ∷ ns) (d ∷ ds) le h =
      let one_more : ended nitems (done i) ≡ 1 = ground arith in
      (rw one_more (down-Near n d h.0), h.1)
  Close-down (c ∷ l) r i (n ∷ ns) (d ∷ ds) le h = (h.0, Close-down l r i ns ds le h.1)
  Close-down [] r i [] ds le h = absurd h
  Close-down [] r i (n ∷ ns) [] le h = absurd h
  Close-down (c ∷ l) r i [] ds le h = absurd h
  Close-down (c ∷ l) r i (n ∷ ns) [] le h = absurd h

  pub Close-Touch :
      (cs : List Consumer) (ns : List ℕ) (l r : List Cell) {c d : Cell}
      → Touch c d
      → Close nitems cs ns (l ++ c ∷ r)
      → Close nitems cs ns (l ++ d ∷ r)
  Close-Touch (x ∷ cs) (n ∷ ns) [] r t h = (Touch-Near (ended nitems x) n t h.0, h.1)
  Close-Touch (x ∷ cs) (n ∷ ns) (b ∷ l) r t h = (h.0, Close-Touch cs ns l r t h.1)
  Close-Touch [] [] [] r t h = absurd h
  Close-Touch [] [] (b ∷ l) r t h = absurd h
  Close-Touch [] (n ∷ ns) l r t h = absurd h
  Close-Touch (x ∷ cs) [] l r t h = absurd h
