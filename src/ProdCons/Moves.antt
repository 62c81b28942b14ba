-- ===== src/ProdCons/Moves.antt =====
-- Which steps the threads of prodcons6.c can make in a state.
use posix_network_programmin.Prelude.{
  ℕ, ◌≡◌, refl, List, [], ◌∷◌, ◌++◌, Option, none, some, ◌⊎◌, inl, inr, arith, All,
}
use posix_network_programmin.Prelude.{dec_lt}
use posix_network_programmin.ProdCons.{
  Shared, Producer, ready, stored, returned, put_section, Consumer, begins, waits, woken, took,
  done, Section, sleeps, leaves, takes, get_section, System, IsAwake, Signals, one, nobody, Enters,
  locks, wakes, Step, puts, is_full, announces, announces_first, falls_asleep, finds_none, gets,
  checks, ends,
}
use posix_network_programmin.ProdCons.Stuck.{HasReturned, IsAtRest}

-- An element that is not P, between the others.
data Found {A : Type 0} (P : A → Type 0) : List A → Type 0 where
  found : (l r : List A) (x : A) → (P x → ⊥) → Found P (l ++ x ∷ r)

extend :
    {A : Type 0} (P : A → Type 0) (x : A) (xs : List A)
    → P x
    → All P xs ⊎ Found P xs
    → All P (x ∷ xs) ⊎ Found P (x ∷ xs)
extend P x xs p (inl rest) = inl (p, rest)
extend P x xs p (inr (found l r y other)) = inr (found (x ∷ l) r y other)

find :
    {A : Type 0} (P : A → Type 0)
    → ((x : A) → P x ⊎ (P x → ⊥))
    → (xs : List A) → All P xs ⊎ Found P xs
find P test [] = inl tt
find P test (x ∷ xs) = elim (test x) [
  | inl yes_x ↦ extend P x xs yes_x (find P test xs)
  | inr no_x ↦ inr (found [] xs x no_x)
]

is_awake : (c : Consumer) → IsAwake c ⊎ (IsAwake c → ⊥)
is_awake (begins i) = inl tt
is_awake (waits i) = inr (λ h. h)
is_awake (woken i) = inl tt
is_awake (took i) = inl tt
is_awake (done i) = inl tt

has_returned : (p : Producer) → HasReturned p ⊎ (HasReturned p → ⊥)
has_returned ready = inr (λ h. h)
has_returned stored = inr (λ h. h)
has_returned returned = inl tt

is_at_rest : (c : Consumer) → IsAtRest c ⊎ (IsAtRest c → ⊥)
is_at_rest (begins i) = inr (λ h. h)
is_at_rest (waits i) = inl tt
is_at_rest (woken i) = inr (λ h. h)
is_at_rest (took i) = inr (λ h. h)
is_at_rest (done i) = inl tt

wakes_one : {cs : List Consumer} → Found IsAwake cs → (cs' : List Consumer) × Signals cs cs'
wakes_one (found l r (begins i) other) = absurd (other tt)
wakes_one (found l r (waits i) other) = (l ++ woken i ∷ r, one l r i)
wakes_one (found l r (woken i) other) = absurd (other tt)
wakes_one (found l r (took i) other) = absurd (other tt)
wakes_one (found l r (done i) other) = absurd (other tt)

signal : (cs : List Consumer) → (cs' : List Consumer) × Signals cs cs'
signal cs = elim (find IsAwake is_awake cs) [
  | inl all ↦ (cs, nobody cs all)
  | inr other ↦ wakes_one other
]

abbrev pub CanMove : ℕ → System → Type 0
CanMove nitems t = (u : System) × Step nitems t u

module _ (nitems : ℕ) (s : Shared) where
  puts_or_returns :
      (l r : List Producer) (cs : List Consumer) (o : Option Shared)
      → put_section nitems s ≡ o
      → CanMove nitems (record { shared = s; producers = l ++ ready ∷ r; consumers = cs })
  puts_or_returns l r cs none e = (_, is_full s l r cs e)
  puts_or_returns l r cs (some s') e = (_, puts s s' l r cs e)

  producer_moves :
      {ps : List Producer} (cs : List Consumer)
      → Found HasReturned ps
      → CanMove nitems (record { shared = s; producers = ps; consumers = cs })
  producer_moves cs (found l r ready other) = puts_or_returns l r cs (put_section nitems s) refl
  producer_moves cs (found l r stored other) = elim (dec_lt 0 s.nready) [
    | yes h ↦ (_, announces s l r cs (omega arith))
    | no h ↦ (_, announces_first s l r cs (signal cs).0 (omega arith) (signal cs).1)
  ]
  producer_moves cs (found l r returned other) = absurd (other tt)

  enters :
      (ps : List Producer) (l r : List Consumer) (c : Consumer) (i : ℕ) (x : Section)
      → Enters nitems c i
      → get_section nitems s ≡ x
      → CanMove nitems (record { shared = s; producers = ps; consumers = l ++ c ∷ r })
  enters ps l r c i sleeps en e = (_, falls_asleep s ps l r c i en e)
  enters ps l r c i leaves en e =
      let (cs', sig) = signal (l ++ done i ∷ r) in (_, finds_none s ps l r cs' c i en e sig)
  enters ps l r c i (takes s') en e = (_, gets s s' ps l r c i en e)

  consumer_moves :
      (ps : List Producer) {cs : List Consumer}
      → Found IsAtRest cs
      → CanMove nitems (record { shared = s; producers = ps; consumers = cs })
  consumer_moves ps (found l r (begins i) other) = elim (dec_lt i nitems) [
    | yes h ↦ enters ps l r (begins i) i _ (locks i h) refl
    | no h ↦ (_, ends s ps l r i (omega arith))
  ]
  consumer_moves ps (found l r (waits i) other) = absurd (other tt)
  consumer_moves ps (found l r (woken i) other) = enters ps l r (woken i) i _ (wakes i) refl
  consumer_moves ps (found l r (took i) other) = (_, checks s ps l r i)
  consumer_moves ps (found l r (done i) other) = absurd (other tt)

-- A thread makes a step, or all producers have returned, and each consumer waits or has returned.
pub moves_or_rests :
    (nitems : ℕ) (t : System)
    → CanMove nitems t ⊎ (All HasReturned t.producers × All IsAtRest t.consumers)
moves_or_rests nitems t = elim (find HasReturned has_returned t.producers) [
  | inr other ↦ inl (producer_moves nitems t.shared t.consumers other)
  | inl ps ↦ elim (find IsAtRest is_at_rest t.consumers) [
    | inr other ↦ inl (consumer_moves nitems t.shared t.producers other)
    | inl cs ↦ inr (ps, cs)
  ]
]
