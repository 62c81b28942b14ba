-- ===== src/ProdCons/Invariant.antt =====
-- What holds in every state that the threads can reach.
use posix_network_programmin.Prelude.{
  All-at, All-replace, All-replicate, All-weaken, ℕ, ◌+◌, ◌<◌, ◌≤◌, ◌≡◌, refl, ◌∙◌, sym, List, [],
  ◌∷◌, ◌++◌, arith, All,
}
use posix_network_programmin.ProdCons.{
  Shared, Producer, ready, stored, returned, ready_section, check_item, Consumer, begins, waits,
  woken, took, done, System, Step, puts, is_full, announces, announces_first, falls_asleep,
  finds_none, gets, checks, ends, Spurious, wakes_up, Reach, here, next, wake, start,
}
use posix_network_programmin.ProdCons.Counting.{total, total-at, total-replace, total-replicate}
use posix_network_programmin.ProdCons.Sound.{
  pending, taken, ProducerOk, ConsumerOk, SharedOk, IsSound, get_section-takes, get_section-leaves,
  put_section-none, put_section-some, puts-SharedOk, SharedOk-eq, announces-SharedOk, gets-SharedOk,
  Signals-total, Signals-All, Enters-taken, ProducerOk-suc, ConsumerOk-suc,
}

-- A producer made a step that leaves the consumers as they are.
producer_step :
    (nitems : ℕ) (s s' : Shared) (l r : List Producer) (p q : Producer) (cs : List Consumer)
    → (s'.nget ≡ s.nget)
    → SharedOk nitems s' (total pending (l ++ q ∷ r))
    → All (ProducerOk nitems s'.nput) (l ++ q ∷ r)
    → IsSound nitems (record { shared = s; producers = l ++ p ∷ r; consumers = cs })
    → IsSound nitems (record { shared = s'; producers = l ++ q ∷ r; consumers = cs })
producer_step nitems s s' l r p q cs same ok ps t = record {
  shared = ok;
  all_taken = t.all_taken ∙ sym same;
  producers = ps;
  consumers = rw same t.consumers;
}

-- Every step keeps the invariant.
Step-IsSound : {nitems : ℕ} {t u : System} → Step nitems t u → IsSound nitems t → IsSound nitems u
unfolding ready_section
Step-IsSound {nitems} (puts s s' l r cs e) t =
    let (room, eq) = put_section-some nitems s s' e in
    let more = total-replace pending l r ready stored in
    rw eq (
      producer_step nitems s _ l r ready stored cs refl
        (SharedOk-eq nitems _ (omega (arith, more))
          (puts-SharedOk nitems (total pending (l ++ ready ∷ r)) s room t.shared))
        (All-replace (ProducerOk nitems (s.nput + 1)) l r ready stored tt (
          All-weaken (ProducerOk nitems s.nput) (ProducerOk nitems (s.nput + 1))
            (ProducerOk-suc nitems s.nput) _ t.producers))
        t)
Step-IsSound {nitems} (is_full s l r cs e) t =
    producer_step nitems s s l r ready returned cs refl
      (SharedOk-eq nitems s (omega (arith, total-replace pending l r ready returned)) t.shared)
      (All-replace (ProducerOk nitems s.nput) l r ready returned (put_section-none nitems s e)
        t.producers)
      t
Step-IsSound {nitems} (announces s l r cs ne) t =
    producer_step nitems s (ready_section s) l r stored ready cs refl
      (announces-SharedOk nitems (total pending (l ++ ready ∷ r)) s
        (SharedOk-eq nitems s (omega (arith, total-replace pending l r stored ready)) t.shared))
      (All-replace (ProducerOk nitems s.nput) l r stored ready tt t.producers) t
Step-IsSound {nitems} (announces_first s l r cs cs' e sig) t =
    let quiet =
      producer_step nitems s (ready_section s) l r stored ready cs refl
        (announces-SharedOk nitems (total pending (l ++ ready ∷ r)) s
          (SharedOk-eq nitems s (omega (arith, total-replace pending l r stored ready)) t.shared))
        (All-replace (ProducerOk nitems s.nput) l r stored ready tt t.producers) t in
    record {
      shared = quiet.shared;
      all_taken = Signals-total sig ∙ quiet.all_taken;
      producers = quiet.producers;
      consumers = Signals-All nitems s.nget sig quiet.consumers;
    }
Step-IsSound {nitems} (falls_asleep s ps l r c i en e) t = record {
  shared = t.shared;
  all_taken = omega (arith, t.all_taken, Enters-taken en, total-replace taken l r c (waits i));
  producers = t.producers;
  consumers = All-replace (ConsumerOk nitems s.nget) l r c (waits i) tt t.consumers;
}
Step-IsSound {nitems} (finds_none s ps l r cs' c i en e sig) t = record {
  shared = t.shared;
  all_taken =
      omega (
        arith,
        t.all_taken,
        Signals-total sig,
        Enters-taken en,
        total-replace taken l r c (done i),
      );
  producers = t.producers;
  consumers = Signals-All nitems s.nget sig (
      All-replace (ConsumerOk nitems s.nget) l r c (done i) (get_section-leaves nitems s e)
        t.consumers);
}
Step-IsSound {nitems} (gets s s' ps l r c i en e) t =
    let (pos, below, eq) = get_section-takes nitems s s' e in
    rw eq (record {
      shared = gets-SharedOk nitems (total pending ps) s pos t.shared;
      all_taken = omega (arith, t.all_taken, Enters-taken en, total-replace taken l r c (took i));
      producers = t.producers;
      consumers = All-replace (ConsumerOk nitems (s.nget + 1)) l r c (took i) tt (
          All-weaken (ConsumerOk nitems s.nget) (ConsumerOk nitems (s.nget + 1))
            (ConsumerOk-suc nitems s.nget) _ t.consumers);
    })
Step-IsSound {nitems} (checks s ps l r i) t = record {
  shared = t.shared;
  all_taken = omega (arith, t.all_taken, total-replace taken l r (took i) (begins (i + 1)));
  producers = t.producers;
  consumers = All-replace (ConsumerOk nitems s.nget) l r (took i) (begins (i + 1)) tt t.consumers;
}
Step-IsSound {nitems} (ends s ps l r i h) t = record {
  shared = t.shared;
  all_taken = omega (arith, t.all_taken, total-replace taken l r (begins i) (done i));
  producers = t.producers;
  consumers =
      All-replace (ConsumerOk nitems s.nget) l r (begins i) (done i)
        (omega (arith, h, t.all_taken, total-at taken l r (begins i))) t.consumers;
}

Spurious-IsSound : {nitems : ℕ} {t u : System} → Spurious t u → IsSound nitems t → IsSound nitems u
Spurious-IsSound {nitems} (wakes_up s ps l r i) t = record {
  shared = t.shared;
  all_taken = omega (arith, t.all_taken, total-replace taken l r (waits i) (woken i));
  producers = t.producers;
  consumers = All-replace (ConsumerOk nitems s.nget) l r (waits i) (woken i) tt t.consumers;
}

start-IsSound : (nitems nthreads : ℕ) → IsSound nitems (start nthreads)
unfolding start
start-IsSound nitems nthreads = record {
  shared = record {
    values = refl;
    bound = omega arith;
    balance = omega (arith, total-replicate pending nthreads ready refl);
    contents = λ k h. absurd (omega arith);
  };
  all_taken = total-replicate taken nthreads (begins 0) refl;
  producers = All-replicate (ProducerOk nitems 0) nthreads ready tt;
  consumers = All-replicate (ConsumerOk nitems 0) nthreads (begins 0) tt;
}

-- In every state that the threads reach: `nval` is `nput`, which is at most `nitems`; the items taken,
-- ready and not yet announced are the items stored, and what each consumer took adds up to `nget`;
-- below `nput` each place holds its own number; a producer has returned only if the array is full, and
-- a consumer only if every item is taken. The waits may also return with no signal.
pub Reach-IsSound :
    (nitems nthreads : ℕ) {t : System} → Reach nitems (start nthreads) t → IsSound nitems t
Reach-IsSound nitems nthreads here = start-IsSound nitems nthreads
Reach-IsSound nitems nthreads (next r s) = Step-IsSound s (Reach-IsSound nitems nthreads r)
Reach-IsSound nitems nthreads (wake r s) = Spurious-IsSound s (Reach-IsSound nitems nthreads r)

-- In every state that the threads reach, a consumer that has unlocked the mutex finds its own number
-- at its place of the array, which is inside it, and its check prints nothing.
pub Reach-took :
    (nitems nthreads : ℕ) (s : Shared) (ps : List Producer) (l r : List Consumer) (i : ℕ)
    → Reach nitems
        (start nthreads)
        (record { shared = s; producers = ps; consumers = l ++ took i ∷ r })
    → (s.buff i ≡ i) × (i < nitems) × (check_item s i ≡ [])
unfolding check_item
Reach-took nitems nthreads s ps l r i reach =
    let t = Reach-IsSound nitems nthreads reach in
    let stored_here : i < s.nput =
      omega (arith, t.all_taken, total-at taken l r (took i), t.shared.balance) in
    let own = t.shared.contents i stored_here in
    (own, omega (arith, t.shared.bound), ground (arith, own))

-- In every reachable state in which some consumer has returned, all the items were stored and each was
-- taken once: what the consumers took adds up to `nitems`, and no item is left ready.
pub Reach-done :
    (nitems nthreads : ℕ) (s : Shared) (ps : List Producer) (l r : List Consumer) (i : ℕ)
    → Reach nitems
        (start nthreads)
        (record { shared = s; producers = ps; consumers = l ++ done i ∷ r })
    → (total taken (l ++ done i ∷ r) ≡ nitems) × (s.nput ≡ nitems) × (s.nready ≡ 0)
Reach-done nitems nthreads s ps l r i reach =
    let t = Reach-IsSound nitems nthreads reach in
    let all : nitems ≤ s.nget = All-at (ConsumerOk nitems s.nget) l r (done i) t.consumers in
    (
      omega (arith, t.all_taken, t.shared.balance, t.shared.bound),
      omega (arith, t.shared.balance, t.shared.bound),
      omega (arith, t.shared.balance, t.shared.bound),
    )
