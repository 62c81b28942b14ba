-- ===== src/ProdCons/Sound.antt =====
-- What holds of the counters, the array and the threads, and how the locked sections keep it.
use posix_network_programmin.Prelude.{
  All-replace, ℕ, suc, ◌+◌, ◌-◌, ◌<◌, ◌≤◌, ◌≡◌, refl, List, none, some, arith, All,
}
use posix_network_programmin.ProdCons.{
  Shared, update, Producer, ready, stored, returned, put_section, ready_section, Consumer, begins,
  waits, woken, took, done, leaves, takes, get_section, System, Signals, one, nobody, Enters, locks,
  wakes,
}
use posix_network_programmin.ProdCons.Counting.{total, total-replace}

-- The items stored that are not announced yet.
abbrev pub pending : Producer → ℕ
pending stored = 1
pending p = 0

-- The items that a consumer took.
abbrev pub taken : Consumer → ℕ
taken (begins i) = i
taken (waits i) = i
taken (woken i) = i
taken (took i) = suc i
taken (done i) = i

-- A producer returns when the array is full, a consumer when every item is taken.
abbrev pub ProducerOk : ℕ → ℕ → Producer → Type 0
ProducerOk nitems nput returned = nitems ≤ nput
ProducerOk nitems nput p = Unit

abbrev pub ConsumerOk : ℕ → ℕ → Consumer → Type 0
ConsumerOk nitems nget (done i) = nitems ≤ nget
ConsumerOk nitems nget c = Unit

pub record SharedOk (nitems : ℕ) (s : Shared) (unannounced : ℕ) : Type 0 where
  pub values : s.nval ≡ s.nput
  pub bound : s.nput ≤ nitems
  pub balance : s.nget + s.nready + unannounced ≡ s.nput
  pub contents : (k : ℕ) → k < s.nput → s.buff k ≡ k

pub record IsSound (nitems : ℕ) (t : System) : Type 0 where
  pub shared : SharedOk nitems t.shared (total pending t.producers)
  pub all_taken : total taken t.consumers ≡ t.shared.nget
  pub producers : All (ProducerOk nitems t.shared.nput) t.producers
  pub consumers : All (ConsumerOk nitems t.shared.nget) t.consumers

pub get_section-takes :
    (nitems : ℕ) (s s' : Shared)
    → get_section nitems s ≡ takes s'
    → (0 < s.nready)
      × (s.nget < nitems)
      × (s' ≡ record s { nready = s.nready - 1; nget = s.nget + 1 })
unfolding get_section
get_section-takes nitems s s' e = ground arith

pub get_section-leaves : (nitems : ℕ) (s : Shared) → get_section nitems s ≡ leaves → nitems ≤ s.nget
unfolding get_section
get_section-leaves nitems s e = ground arith

pub put_section-none : (nitems : ℕ) (s : Shared) → put_section nitems s ≡ none → nitems ≤ s.nput
unfolding put_section
put_section-none nitems s e = ground arith

pub put_section-some :
    (nitems : ℕ) (s s' : Shared)
    → put_section nitems s ≡ some s'
    → (s.nput < nitems)
      × (s' ≡ record s { buff = update s.buff s.nput s.nval; nput = s.nput + 1; nval = s.nval + 1 })
unfolding put_section
put_section-some nitems s s' e = ground arith

pub puts-SharedOk :
    (nitems u : ℕ) (s : Shared)
    → s.nput < nitems
    → SharedOk nitems s u
    → SharedOk nitems
        (record s { buff = update s.buff s.nput s.nval; nput = s.nput + 1; nval = s.nval + 1 })
        (u + 1)
puts-SharedOk nitems u s room ok = record {
  values = omega (arith, ok.values);
  bound = omega arith;
  balance = omega (arith, ok.balance);
  contents = λ k h. ground (arith, ok.contents k, ok.values);
}

pub SharedOk-eq :
    (nitems : ℕ) (s : Shared) {u v : ℕ} → u ≡ v → SharedOk nitems s u → SharedOk nitems s v
SharedOk-eq nitems s e ok = rw e at ok

pub announces-SharedOk :
    (nitems u : ℕ) (s : Shared) → SharedOk nitems s (u + 1) → SharedOk nitems (ready_section s) u
unfolding ready_section
announces-SharedOk nitems u s ok = record {
  values = ok.values;
  bound = ok.bound;
  balance = omega (arith, ok.balance);
  contents = ok.contents;
}

pub gets-SharedOk :
    (nitems u : ℕ) (s : Shared)
    → 0 < s.nready
    → SharedOk nitems s u
    → SharedOk nitems (record s { nready = s.nready - 1; nget = s.nget + 1 }) u
gets-SharedOk nitems u s pos ok = record {
  values = ok.values;
  bound = ok.bound;
  balance = omega (arith, ok.balance);
  contents = ok.contents;
}

pub Signals-total : {cs cs' : List Consumer} → Signals cs cs' → total taken cs' ≡ total taken cs
Signals-total (one l r i) = omega (arith, total-replace taken l r (waits i) (woken i))
Signals-total (nobody cs h) = refl

pub Signals-All :
    (nitems nget : ℕ) {cs cs' : List Consumer}
    → Signals cs cs'
    → All (ConsumerOk nitems nget) cs
    → All (ConsumerOk nitems nget) cs'
Signals-All nitems nget (one l r i) h =
    All-replace (ConsumerOk nitems nget) l r (waits i) (woken i) tt h
Signals-All nitems nget (nobody cs a) h = h

pub Enters-taken : {nitems : ℕ} {c : Consumer} {i : ℕ} → Enters nitems c i → taken c ≡ i
Enters-taken (locks i h) = refl
Enters-taken (wakes i) = refl

pub ProducerOk-suc :
    (nitems nput : ℕ) (p : Producer) → ProducerOk nitems nput p → ProducerOk nitems (nput + 1) p
ProducerOk-suc nitems nput ready h = tt
ProducerOk-suc nitems nput stored h = tt
ProducerOk-suc nitems nput returned h = omega arith

pub ConsumerOk-suc :
    (nitems nget : ℕ) (c : Consumer) → ConsumerOk nitems nget c → ConsumerOk nitems (nget + 1) c
ConsumerOk-suc nitems nget (begins i) h = tt
ConsumerOk-suc nitems nget (waits i) h = tt
ConsumerOk-suc nitems nget (woken i) h = tt
ConsumerOk-suc nitems nget (took i) h = tt
ConsumerOk-suc nitems nget (done i) h = omega arith
