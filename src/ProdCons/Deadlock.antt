-- ===== src/ProdCons/Deadlock.antt =====
-- A consumer that leaves its loop with no signal, while another waits.
use posix_network_programmin.Prelude.{
  All-replicate, ℕ, zero, suc, ◌+◌, ◌-◌, ◌<◌, ◌≡◌, refl, ap, List, [], ◌∷◌, ◌++◌, none, some, false,
  leb, ◌==◌, arith, replicate, append_assoc,
}
use posix_network_programmin.ProdCons.{
  Shared, update, Producer, ready, stored, returned, put_section, ready_section, Consumer, begins,
  waits, woken, done, sleeps, takes, get_section, System, one, Enters, locks, wakes, Step, puts,
  is_full, announces, announces_first, falls_asleep, gets, checks, ends, Reach, here, next, start,
}
use posix_network_programmin.ProdCons.Stuck.{HasReturned, IsAtRest, IsStuck, at_rest}

abbrev filled : ℕ → ℕ → ℕ
filled zero = λ j. 0
filled (suc k) = update (filled k) k k

abbrev store_of : ℕ → ℕ → ℕ → Shared
store_of put get left = record {
  nput = put;
  nval = put;
  nget = get;
  nready = left;
  buff = filled put;
}

-- The first producer, and the others in front of their first lock.
abbrev filling : ℕ → Shared → Producer → List Consumer → System
filling more s p cs = record {
  shared = s;
  producers = p ∷ replicate (suc more) ready;
  consumers = cs;
}

-- The other consumers wait, and the first was woken, or is further on.
abbrev ahead : ℕ → Consumer → List Consumer
ahead more c = c ∷ replicate (suc more) (waits 0)

asleep : (nitems : ℕ) → 0 < nitems → get_section nitems (store_of 0 0 0) ≡ sleeps
unfolding get_section
asleep nitems h = ground arith

puts_next :
    (nitems k : ℕ) → k < nitems → put_section nitems (store_of k 0 k) ≡ some (store_of (suc k) 0 k)
unfolding put_section
puts_next nitems k h =
    let room : leb nitems k ≡ false = ground arith in
    let up : k + 1 ≡ suc k = omega arith in rw (room, up) refl

announced : (k : ℕ) → ready_section (store_of (suc k) 0 k) ≡ store_of (suc k) 0 (suc k)
unfolding ready_section
announced k = ap (λ n. store_of (suc k) 0 n) (omega arith)

gets_next :
    (nitems m left : ℕ)
    → m + suc left ≡ nitems
    → get_section nitems (store_of nitems m (suc left)) ≡ takes (store_of nitems (suc m) left)
unfolding get_section
gets_next nitems m left h =
    let some_left : (suc left == 0) ≡ false = ground arith in
    let more : leb nitems m ≡ false = ground arith in
    let up : m + 1 ≡ suc m = omega arith in
    let down : suc left - 1 ≡ left = omega arith in rw (some_left, more, up, down) refl

module _ (nitems : ℕ) (some_item : 0 < nitems) where
  -- Consumers that begin find nothing, one after the other.
  all_asleep :
      {t : System} (ps : List Producer) (n : ℕ) (l : List Consumer)
      → Reach nitems t (record {
        shared = store_of 0 0 0;
        producers = ps;
        consumers = l ++ replicate n (begins 0);
      })
      → Reach nitems t (record {
        shared = store_of 0 0 0;
        producers = ps;
        consumers = l ++ replicate n (waits 0);
      })
  all_asleep ps zero l h = h
  all_asleep ps (suc n) l h =
      let sleeper = waits 0 ∷ [] in
      let falls = next h (
        falls_asleep (store_of 0 0 0) ps l (replicate n (begins 0)) (begins 0) 0 (locks 0 some_item)
          (asleep nitems some_item)) in
      rw (append_assoc l sleeper (replicate n (waits 0))) at (
        all_asleep ps n (l ++ sleeper)
          (rw (← append_assoc l sleeper (replicate n (begins 0))) at falls))

module _ (nitems : ℕ) where
  -- Producers find the array full, one after the other.
  all_full :
      {t : System} (s : Shared) (cs : List Consumer) (n : ℕ) (l : List Producer)
      → put_section nitems s ≡ none
      → Reach nitems t (record { shared = s; producers = l ++ replicate n ready; consumers = cs })
      → Reach nitems t
          (record { shared = s; producers = l ++ replicate n returned; consumers = cs })
  all_full s cs zero l full h = h
  all_full s cs (suc n) l full h =
      let leaver = returned ∷ [] in
      let leaves = next h (is_full s l (replicate n ready) cs full) in
      rw (append_assoc l leaver (replicate n returned)) at (
        all_full s cs n (l ++ leaver) full
          (rw (← append_assoc l leaver (replicate n ready)) at leaves))

module _ (nitems : ℕ) (some_item : 0 < nitems) (more : ℕ) where
  abbrev nthreads : ℕ
  nthreads = suc (suc more)

  -- All consumers find nothing, and the first item wakes the first of them.
  Reach-first :
      Reach nitems (start nthreads) (filling more (store_of 1 0 1) ready (ahead more (woken 0)))
  unfolding start
  Reach-first =
      let wakes_first : Step nitems (filling more (store_of 1 0 0) stored (ahead more (waits 0)))
          (filling more (ready_section (store_of 1 0 0)) ready (ahead more (woken 0))) =
        announces_first (store_of 1 0 0) [] _ (ahead more (waits 0)) (ahead more (woken 0)) refl
          (one [] _ 0) in
      next
        (next (all_asleep nitems some_item (replicate nthreads ready) nthreads [] here)
          (puts (store_of 0 0 0) (store_of 1 0 0) [] _ _ (puts_next nitems 0 some_item)))
        (rw (announced 0) at wakes_first)

  Reach-filling :
      (k : ℕ)
      → k < nitems
      → Reach nitems
          (start nthreads)
          (filling more (store_of (suc k) 0 (suc k)) ready (ahead more (woken 0)))
  Reach-filling zero h = Reach-first
  Reach-filling (suc k) h =
      let s = store_of (suc (suc k)) 0 (suc k) in
      let adds : Step nitems (filling more s stored (ahead more (woken 0)))
          (filling more (ready_section s) ready (ahead more (woken 0))) =
        announces s [] _ (ahead more (woken 0)) (omega arith) in
      next
        (next (Reach-filling k (omega arith))
          (puts (store_of (suc k) 0 (suc k)) s [] _ _ (puts_next nitems (suc k) h)))
        (rw (announced (suc k)) at adds)

  abbrev emptying : ℕ → ℕ → Consumer → System
  emptying m left c = record {
    shared = store_of nitems m left;
    producers = replicate nthreads returned;
    consumers = ahead more c;
  }

  -- The producers find the array full.
  Reach-full : Reach nitems (start nthreads) (emptying 0 nitems (woken 0))
  unfolding put_section
  Reach-full =
      let s = store_of nitems 0 nitems in
      let full : put_section nitems s ≡ none = ground arith in
      let last : suc (nitems - 1) ≡ nitems = omega arith in
      let stored_all : Reach nitems (start nthreads) (filling more s ready (ahead more (woken 0))) =
        coe 0 1
          (i.
            Reach nitems (start nthreads)
              (filling more (store_of (last i) 0 (last i)) ready (ahead more (woken 0))))
          (Reach-filling (nitems - 1) (omega arith)) in
      all_full nitems s (ahead more (woken 0)) nthreads [] full stored_all

  -- One item, and the check behind it.
  takes_one :
      (m left : ℕ) (c : Consumer)
      → Enters nitems c m
      → m + suc left ≡ nitems
      → Reach nitems (start nthreads) (emptying m (suc left) c)
      → Reach nitems (start nthreads) (emptying (suc m) left (begins (suc m)))
  takes_one m left c en h before =
      let up : m + 1 ≡ suc m = omega arith in
      let s = store_of nitems (suc m) left in
      let ps = replicate nthreads returned in
      let has_taken = next before (
        gets (store_of nitems m (suc left)) s ps [] (replicate (suc more) (waits 0)) c m en
          (gets_next nitems m left h)) in
      coe 0 1 (i. Reach nitems (start nthreads) (emptying (suc m) left (begins (up i))))
        (next has_taken (checks s ps [] (replicate (suc more) (waits 0)) m))

  -- The first consumer takes the items one after the other.
  Reach-emptying :
      (m left : ℕ)
      → suc m + left ≡ nitems
      → Reach nitems (start nthreads) (emptying (suc m) left (begins (suc m)))
  Reach-emptying zero left h =
      let start_left : nitems ≡ suc left = omega arith in
      let woken_first : Reach nitems (start nthreads) (emptying 0 (suc left) (woken 0)) =
        coe 0 1 (i. Reach nitems (start nthreads) (emptying 0 (start_left i) (woken 0)))
          Reach-full in
      takes_one 0 left (woken 0) (wakes 0) (omega arith) woken_first
  Reach-emptying (suc m) left h =
      takes_one (suc m) left (begins (suc m)) (locks (suc m) (omega arith)) (omega arith)
        (Reach-emptying m (suc left) (omega arith))

  Reach-emptied : Reach nitems (start nthreads) (emptying nitems 0 (done nitems))
  Reach-emptied =
      let last : suc (nitems - 1) ≡ nitems = omega arith in
      let emptied =
        coe 0 1 (i. Reach nitems (start nthreads) (emptying (last i) 0 (begins (last i))))
          (Reach-emptying (nitems - 1) 0 (omega arith)) in
      next emptied (
        ends (store_of nitems nitems 0) (replicate nthreads returned) []
          (replicate (suc more) (waits 0)) nitems (omega arith))

  -- With two threads of each kind or more, and any number of items but 0: a state can be reached in
  -- which the producers have returned, one consumer has taken all the items and returned, and all the
  -- others wait; no thread makes a step from there, other than a wait that returns with no signal.
  pub Reach-IsStuck :
      (t : System) × Reach nitems (start (suc (suc more))) t
      × (t.producers ≡ replicate (suc (suc more)) returned)
      × (t.consumers ≡ done nitems ∷ replicate (suc more) (waits 0))
      × IsStuck nitems t
  Reach-IsStuck =
      let t = emptying nitems 0 (done nitems) in
      (
        t,
        Reach-emptied,
        refl,
        refl,
        λ step.
            at_rest step.1 (All-replicate HasReturned nthreads returned tt)
              (tt, All-replicate IsAtRest (suc more) (waits 0) tt),
      )
