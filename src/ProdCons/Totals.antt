-- ===== src/ProdCons/Totals.antt =====
-- What the counters of prodcons6.c add up to, where no two changes of one overlap.
use posix_network_programmin.Prelude.{
  All-at, All-replace, All-replicate, ℕ, ◌+◌, ◌*◌, ◌<◌, ◌≤◌, ◌≡◌, refl, sym, ◌∙◌, List, ◌∷◌, ◌++◌,
  arith, All, length, length-replicate, leb, if◌then◌else◌,
}
use posix_network_programmin.Cstring.{int_mod}
use posix_network_programmin.ProdCons.{
  Shared, Producer, ready, stored, returned, ready_section, Consumer, begins, waits, woken, took,
  done, System, Signals, one, nobody, Enters, locks, wakes, Step, puts, is_full, announces,
  announces_first, falls_asleep, finds_none, gets, checks, ends, wakes_up, start,
}
use posix_network_programmin.ProdCons.Counting.{total, total-replace, total-replicate}
use posix_network_programmin.ProdCons.Sound.{pending, get_section-takes, put_section-some}
use posix_network_programmin.ProdCons.Cells.{
  length-at_index, total-at_index, count_up-eq, count_down-eq, length-replace, length-lt,
}
use posix_network_programmin.ProdCons.Counts.{
  at_index, count_up, count_down, counts, Tally, zeros, moved, woke,
}

-- A consumer within its loop has an item to take.
abbrev pub InLoop : ℕ → Consumer → Type 0
InLoop nitems (waits i) = i < nitems
InLoop nitems (woken i) = i < nitems
InLoop nitems c = Unit

-- The consumers whose loop ended.
abbrev pub ended : ℕ → Consumer → ℕ
ended nitems (done i) = if leb nitems i then 1 else 0
ended nitems c = 0

pub Enters-lt :
    {nitems : ℕ} {c : Consumer} {i : ℕ} → Enters nitems c i → InLoop nitems c → i < nitems
Enters-lt (locks i h) l = h
Enters-lt (wakes i) l = l

pub Enters-ended : {nitems : ℕ} {c : Consumer} {i : ℕ} → Enters nitems c i → ended nitems c ≡ 0
Enters-ended (locks i h) = refl
Enters-ended (wakes i) = refl

Signals-InLoop :
    (nitems : ℕ) {cs cs' : List Consumer}
    → Signals cs cs'
    → All (InLoop nitems) cs
    → All (InLoop nitems) cs'
Signals-InLoop nitems (one l r i) h =
    All-replace (InLoop nitems) l r (waits i) (woken i) (All-at (InLoop nitems) l r (waits i) h) h
Signals-InLoop nitems (nobody cs a) h = h

Signals-ended :
    (nitems : ℕ) {cs cs' : List Consumer}
    → Signals cs cs'
    → total (ended nitems) cs' ≡ total (ended nitems) cs
Signals-ended nitems (one l r i) =
    omega (arith, total-replace (ended nitems) l r (waits i) (woken i))
Signals-ended nitems (nobody cs a) = refl

-- The sum of the counters, and the loops that ended, against the items announced.
pub record Adds (nitems : ℕ) (t : System) (count : List ℕ) : Type 0 where
  pub in_loop : All (InLoop nitems) t.consumers
  pub producers_count : length t.producers ≡ length count
  pub consumers_count : length t.consumers ≡ length count
  pub wraps : ℕ
  pub turns : ℕ
  pub sum :
      total (λ x. x) count
        + total (ended nitems) t.consumers
        + total pending t.producers
        + wraps * int_mod
      ≡ t.shared.nput + turns * int_mod

Signals-length : {cs cs' : List Consumer} → Signals cs cs' → length cs ≡ length cs'
Signals-length (one l r i) = length-replace l r (waits i) (woken i)
Signals-length (nobody cs a) = refl

Signals-Adds :
    (nitems : ℕ) (s : Shared) (ps : List Producer) {cs cs' : List Consumer} (count : List ℕ)
    → Signals cs cs'
    → Adds nitems (record { shared = s; producers = ps; consumers = cs }) count
    → Adds nitems (record { shared = s; producers = ps; consumers = cs' }) count
Signals-Adds nitems s ps count sig a = record {
  in_loop = Signals-InLoop nitems sig a.in_loop;
  producers_count = a.producers_count;
  consumers_count = omega (arith, a.consumers_count, Signals-length sig);
  wraps = a.wraps;
  turns = a.turns;
  sum = omega (arith, a.sum, Signals-ended nitems sig);
}

-- One more item is announced, and a counter is one more.
announced-Adds :
    (nitems : ℕ) (s s' : Shared) (l r : List Producer) (cs : List Consumer) (count : List ℕ)
    → s'.nput ≡ s.nput
    → Adds nitems (record { shared = s; producers = l ++ stored ∷ r; consumers = cs }) count
    → Adds nitems
        (record { shared = s'; producers = l ++ ready ∷ r; consumers = cs })
        (at_index count_up (length l) count)
announced-Adds nitems s s' l r cs count same a =
    let place : length l < length count = omega (arith, a.producers_count, length-lt l r stored) in
    let (q, e) = total-at_index count_up 0 1 count_up-eq (length l) count place in
    let size = length-at_index count_up (length l) count in
    record {
      in_loop = a.in_loop;
      producers_count = omega (arith, a.producers_count, length-replace l r stored ready, size);
      consumers_count = omega (arith, a.consumers_count, size);
      wraps = a.wraps + q;
      turns = a.turns;
      sum = omega (arith, e, a.sum, same, total-replace pending l r stored ready);
    }

-- A loop ends, and a counter is one less.
ended-Adds :
    (nitems : ℕ) (s : Shared) (ps : List Producer) (l r : List Consumer) (i : ℕ) (count : List ℕ)
    → nitems ≤ i
    → Adds nitems (record { shared = s; producers = ps; consumers = l ++ begins i ∷ r }) count
    → Adds nitems
        (record { shared = s; producers = ps; consumers = l ++ done i ∷ r })
        (at_index count_down (length l) count)
ended-Adds nitems s ps l r i count h a =
    let place : length l < length count =
      omega (arith, a.consumers_count, length-lt l r (begins i)) in
    let (q, e) = total-at_index count_down 1 int_mod count_down-eq (length l) count place in
    let size = length-at_index count_down (length l) count in
    let one_more : ended nitems (done i) ≡ 1 = ground arith in
    record {
      in_loop = All-replace (InLoop nitems) l r (begins i) (done i) tt a.in_loop;
      producers_count = omega (arith, a.producers_count, size);
      consumers_count =
          omega (arith, a.consumers_count, length-replace l r (begins i) (done i), size);
      wraps = a.wraps + q;
      turns = a.turns + 1;
      sum = omega (arith, e, a.sum, one_more, total-replace (ended nitems) l r (begins i) (done i));
    }

-- A consumer goes on, or leaves its loop where nothing is left.
consumer-Adds :
    (nitems : ℕ) (s s' : Shared) (ps : List Producer) (l r : List Consumer) (c d : Consumer)
    (count : List ℕ)
    → s'.nput ≡ s.nput
    → InLoop nitems d
    → ended nitems d ≡ ended nitems c
    → Adds nitems (record { shared = s; producers = ps; consumers = l ++ c ∷ r }) count
    → Adds nitems (record { shared = s'; producers = ps; consumers = l ++ d ∷ r }) count
consumer-Adds nitems s s' ps l r c d count same inside e a = record {
  in_loop = All-replace (InLoop nitems) l r c d inside a.in_loop;
  producers_count = a.producers_count;
  consumers_count = omega (arith, a.consumers_count, length-replace l r c d);
  wraps = a.wraps;
  turns = a.turns;
  sum = omega (arith, a.sum, same, e, total-replace (ended nitems) l r c d);
}

producer-Adds :
    (nitems : ℕ) (s s' : Shared) (l r : List Producer) (p q : Producer) (cs : List Consumer)
    (count : List ℕ)
    → s'.nput + pending p ≡ s.nput + pending q
    → Adds nitems (record { shared = s; producers = l ++ p ∷ r; consumers = cs }) count
    → Adds nitems (record { shared = s'; producers = l ++ q ∷ r; consumers = cs }) count
producer-Adds nitems s s' l r p q cs count e a = record {
  in_loop = a.in_loop;
  producers_count = omega (arith, a.producers_count, length-replace l r p q);
  consumers_count = a.consumers_count;
  wraps = a.wraps;
  turns = a.turns;
  sum = omega (arith, a.sum, e, total-replace pending l r p q);
}

Step-Adds :
    {nitems : ℕ} {t u : System} (s : Step nitems t u) (count : List ℕ)
    → Adds nitems t count
    → Adds nitems u (counts s count)
unfolding counts ready_section
Step-Adds {nitems} (puts s s' l r cs e) count a =
    let (room, eq) = put_section-some nitems s s' e in
    rw eq (producer-Adds nitems s _ l r ready stored cs count (omega arith) a)
Step-Adds {nitems} (is_full s l r cs e) count a =
    producer-Adds nitems s s l r ready returned cs count refl a
Step-Adds {nitems} (announces s l r cs ne) count a =
    announced-Adds nitems s (ready_section s) l r cs count refl a
Step-Adds {nitems} (announces_first s l r cs cs' e sig) count a =
    Signals-Adds nitems (ready_section s) (l ++ ready ∷ r) (at_index count_up (length l) count) sig
      (announced-Adds nitems s (ready_section s) l r cs count refl a)
Step-Adds {nitems} (falls_asleep s ps l r c i en e) count a =
    consumer-Adds nitems s s ps l r c (waits i) count refl
      (Enters-lt en (All-at (InLoop nitems) l r c a.in_loop)) (sym (Enters-ended en)) a
Step-Adds {nitems} (finds_none s ps l r cs' c i en e sig) count a =
    let inside : i < nitems = Enters-lt en (All-at (InLoop nitems) l r c a.in_loop) in
    let cut : ended nitems (done i) ≡ 0 = ground arith in
    Signals-Adds nitems s ps count sig
      (consumer-Adds nitems s s ps l r c (done i) count refl tt (cut ∙ sym (Enters-ended en)) a)
Step-Adds {nitems} (gets s s' ps l r c i en e) count a =
    let (pos, below, eq) = get_section-takes nitems s s' e in
    rw eq (consumer-Adds nitems s _ ps l r c (took i) count refl tt (sym (Enters-ended en)) a)
Step-Adds {nitems} (checks s ps l r i) count a =
    consumer-Adds nitems s s ps l r (took i) (begins (i + 1)) count refl tt refl a
Step-Adds {nitems} (ends s ps l r i h) count a = ended-Adds nitems s ps l r i count h a

pub Tally-Adds :
    (nitems nthreads : ℕ) {t : System} {count : List ℕ}
    → Tally nitems nthreads t count
    → Adds nitems t count
unfolding start
Tally-Adds nitems nthreads zeros = record {
  in_loop = All-replicate (InLoop nitems) nthreads (begins 0) tt;
  producers_count =
      omega (arith, length-replicate nthreads ready, length-replicate {A = ℕ} nthreads 0);
  consumers_count =
      omega (arith, length-replicate nthreads (begins 0), length-replicate {A = ℕ} nthreads 0);
  wraps = 0;
  turns = 0;
  sum = omega (
    arith,
    total-replicate (λ x. x) nthreads 0 refl,
    total-replicate (ended nitems) nthreads (begins 0) refl,
    total-replicate pending nthreads ready refl,
  );
}
Tally-Adds nitems nthreads (moved {count = count} t s) =
    Step-Adds s count (Tally-Adds nitems nthreads t)
Tally-Adds nitems nthreads (woke {count = count} t (wakes_up s ps l r i)) =
    let a = Tally-Adds nitems nthreads t in
    consumer-Adds nitems s s ps l r (waits i) (woken i) count refl
      (All-at (InLoop nitems) l r (waits i) a.in_loop) refl a
