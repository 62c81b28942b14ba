-- ===== src/ProdCons/Served.antt =====
-- The signals of prodcons6.c, and the consumers that wait for them.
use posix_network_programmin.Prelude.{
  ℕ, zero, suc, ◌+◌, ◌<◌, ◌≤◌, ◌≡◌, refl, List, [], ◌∷◌, ◌++◌, ◌⊎◌, inl, inr, arith, All, replicate,
}
use posix_network_programmin.ProdCons.{
  Shared, Producer, ready, stored, returned, ready_section, Consumer, begins, waits, woken, took,
  done, sleeps, get_section, System, IsAwake, Signals, one, nobody, Step, puts, is_full, announces,
  announces_first, falls_asleep, finds_none, gets, checks, ends, wakes_up, Reach, here, next, wake,
  start,
}
use posix_network_programmin.ProdCons.Counting.{total, total-at, total-replace}
use posix_network_programmin.ProdCons.Sound.{
  pending, taken, ConsumerOk, IsSound, get_section-leaves, put_section-some,
}
use posix_network_programmin.ProdCons.Invariant.{Reach-IsSound}

-- Whether a consumer goes on by itself.
abbrev pub active : Consumer → ℕ
active (begins i) = 1
active (waits i) = 0
active (woken i) = 1
active (took i) = 1
active (done i) = 0

abbrev pub count {ℓ} : {A : Type ℓ} → List A → ℕ
count xs = total (λ x. 1) xs

pub record IsServed (nthreads : ℕ) (t : System) : Type 0 where
  pub all_producers : count t.producers ≡ nthreads
  pub all_consumers : count t.consumers ≡ nthreads
  pub served : (t.shared.nready ≡ 0) ⊎ (0 < total active t.consumers)

count-replace {ℓ} : {A : Type ℓ} (l r : List A) (x y : A) → count (l ++ x ∷ r) ≡ count (l ++ y ∷ r)
count-replace l r x y = omega (arith, total-replace (λ z. 1) l r x y)

Signals-count : {cs cs' : List Consumer} → Signals cs cs' → count cs ≡ count cs'
Signals-count (one l r i) = count-replace l r (waits i) (woken i)
Signals-count (nobody cs h) = refl

get_section-sleeps : (nitems : ℕ) (s : Shared) → get_section nitems s ≡ sleeps → s.nready ≡ 0
unfolding get_section
get_section-sleeps nitems s e = ground arith

-- While an item is left, a thread that is awake has not returned.
awake-active :
    (nitems nget : ℕ) (cs : List Consumer)
    → nget < nitems
    → 0 < count cs
    → All IsAwake cs
    → All (ConsumerOk nitems nget) cs
    → 0 < total active cs
awake-active nitems nget [] h n a ok = absurd (omega arith)
awake-active nitems nget (begins i ∷ cs) h n a ok = omega arith
awake-active nitems nget (waits i ∷ cs) h n a ok = absurd a.0
awake-active nitems nget (woken i ∷ cs) h n a ok = omega arith
awake-active nitems nget (took i ∷ cs) h n a ok = omega arith
awake-active nitems nget (done i ∷ cs) h n a ok =
    let o : nitems ≤ nget = ok.0 in absurd (omega arith)

Signals-active :
    (nitems nget : ℕ) {cs cs' : List Consumer}
    → nget < nitems
    → 0 < count cs
    → All (ConsumerOk nitems nget) cs
    → Signals cs cs'
    → 0 < total active cs'
Signals-active nitems nget h n ok (one l r i) = omega (arith, total-at active l r (woken i))
Signals-active nitems nget h n ok (nobody cs a) = awake-active nitems nget cs h n a ok

consumer_goes_on :
    (nitems nthreads : ℕ) (s s' : Shared) (ps : List Producer) (l r : List Consumer)
    (c d : Consumer)
    → active d ≡ 1
    → IsServed nthreads (record { shared = s; producers = ps; consumers = l ++ c ∷ r })
    → IsServed nthreads (record { shared = s'; producers = ps; consumers = l ++ d ∷ r })
consumer_goes_on nitems nthreads s s' ps l r c d h t = record {
  all_producers = t.all_producers;
  all_consumers = omega (arith, t.all_consumers, count-replace l r c d);
  served = inr (omega (arith, h, total-at active l r d));
}

-- No item is left.
none_ready :
    (nitems nthreads : ℕ) (s : Shared) (ps : List Producer) (cs cs' : List Consumer)
    → nitems ≤ s.nget
    → count cs ≡ count cs'
    → IsSound nitems (record { shared = s; producers = ps; consumers = cs })
    → IsServed nthreads (record { shared = s; producers = ps; consumers = cs })
    → IsServed nthreads (record { shared = s; producers = ps; consumers = cs' })
none_ready nitems nthreads s ps cs cs' h e ok t = record {
  all_producers = t.all_producers;
  all_consumers = omega (arith, t.all_consumers, e);
  served = inl (omega (arith, ok.shared.balance, ok.shared.bound));
}

producer_goes_on :
    (nthreads : ℕ) (s s' : Shared) (l r : List Producer) (p q : Producer) (cs : List Consumer)
    → (s'.nready ≡ 0) ⊎ (0 < total active cs)
    → IsServed nthreads (record { shared = s; producers = l ++ p ∷ r; consumers = cs })
    → IsServed nthreads (record { shared = s'; producers = l ++ q ∷ r; consumers = cs })
producer_goes_on nthreads s s' l r p q cs h t = record {
  all_producers = omega (arith, t.all_producers, count-replace l r p q);
  all_consumers = t.all_consumers;
  served = h;
}

Step-IsServed :
    {nitems nthreads : ℕ} {t u : System}
    → 0 < nthreads
    → IsSound nitems t
    → Step nitems t u
    → IsServed nthreads t
    → IsServed nthreads u
Step-IsServed {nitems} {nthreads} h ok (puts s s' l r cs e) t =
    let (room, eq) = put_section-some nitems s s' e in
    rw eq (producer_goes_on nthreads s _ l r ready stored cs t.served t)
Step-IsServed {nitems} {nthreads} h ok (is_full s l r cs e) t =
    producer_goes_on nthreads s s l r ready returned cs t.served t
Step-IsServed {nitems} {nthreads} h ok (announces s l r cs ne) t =
    let busy : 0 < total active cs = elim t.served [ inl z ↦ absurd (ne z) | inr a ↦ a ] in
    producer_goes_on nthreads s (ready_section s) l r stored ready cs (inr busy) t
Step-IsServed {nitems} {nthreads} h ok (announces_first s l r cs cs' e sig) t =
    let left : s.nget < nitems =
      omega (arith, ok.shared.balance, ok.shared.bound, total-at pending l r stored) in
    record {
      all_producers = omega (arith, t.all_producers, count-replace l r stored ready);
      all_consumers = omega (arith, t.all_consumers, Signals-count sig);
      served =
          inr (
            Signals-active nitems s.nget left (omega (arith, h, t.all_consumers)) ok.consumers sig);
    }
Step-IsServed {nitems} {nthreads} h ok (falls_asleep s ps l r c i en e) t = record {
  all_producers = t.all_producers;
  all_consumers = omega (arith, t.all_consumers, count-replace l r c (waits i));
  served = inl (get_section-sleeps nitems s e);
}
Step-IsServed {nitems} {nthreads} h ok (finds_none s ps l r cs' c i en e sig) t =
    none_ready nitems nthreads s ps (l ++ c ∷ r) cs' (get_section-leaves nitems s e)
      (omega (arith, Signals-count sig, count-replace l r c (done i))) ok t
Step-IsServed {nitems} {nthreads} h ok (gets s s' ps l r c i en e) t =
    consumer_goes_on nitems nthreads s s' ps l r c (took i) refl t
Step-IsServed {nitems} {nthreads} h ok (checks s ps l r i) t =
    consumer_goes_on nitems nthreads s s ps l r (took i) (begins (i + 1)) refl t
Step-IsServed {nitems} {nthreads} h ok (ends s ps l r i le) t =
    none_ready nitems nthreads s ps (l ++ begins i ∷ r) (l ++ done i ∷ r)
      (omega (arith, le, ok.all_taken, total-at taken l r (begins i)))
      (count-replace l r (begins i) (done i)) ok t

count-replicate {ℓ} : {A : Type ℓ} (n : ℕ) (x : A) → count (replicate n x) ≡ n
count-replicate zero x = refl
count-replicate (suc n) x = omega (arith, count-replicate n x)

pub Reach-IsServed :
    (nitems nthreads : ℕ) {t : System}
    → 0 < nthreads
    → Reach nitems (start nthreads) t
    → IsServed nthreads t
unfolding start
Reach-IsServed nitems nthreads h here = record {
  all_producers = count-replicate nthreads ready;
  all_consumers = count-replicate nthreads (begins 0);
  served = inl refl;
}
Reach-IsServed nitems nthreads h (next r s) =
    Step-IsServed h (Reach-IsSound nitems nthreads r) s (Reach-IsServed nitems nthreads h r)
Reach-IsServed nitems nthreads h (wake r (wakes_up s ps l r' i)) =
    consumer_goes_on nitems nthreads s s ps l r' (waits i) (woken i) refl
      (Reach-IsServed nitems nthreads h r)
