-- ===== src/Posix/Emits.antt =====
-- What a run that returns has written to one descriptor, with a rule for each way to build a run.
use posix_network_programmin.Prelude.{
  ℕ, ◌≡◌, ◌≢◌, refl, ap, ap₂, ◌∙◌, List, [], ◌++◌, ne→==, append-nil,
}
use posix_network_programmin.Cstring.{Bytes}
use posix_network_programmin.Posix.{
  blocked, Effect, Outcome, Proc, returned, written, written-append, ◌>>=◌, ◌>>◌, call, pure, write,
  print,
}

-- The run returns `a`, having written `texts` to `fd`, one call after the other.
abbrev pub Emits {ℓ} : {A : Type ℓ} → ℕ → List Bytes → A → Proc A → Type ℓ
Emits fd texts a r = (written fd r.0 ≡ texts) × (r.1 ≡ returned a)

bind-eq {ℓ κ} :
    {A : Type ℓ} {B : Type κ} (es : List Effect) (o : Outcome A) (a : A) (f : A → Proc B)
    → o ≡ returned a
    → ((es, o) >>= f) ≡ (es ++ (f a).0, (f a).1)
bind-eq es o a f h = rw h

-- A run whose calls and result are known, followed by another.
pub bind-runs {ℓ κ} :
    {A : Type ℓ} {B : Type κ} (r : Proc A) (f : A → Proc B) {es fs : List Effect} {a : A}
    {o : Outcome B}
    → r ≡ (es, returned a)
    → f a ≡ (fs, o)
    → (r >>= f) ≡ (es ++ fs, o)
bind-runs r f h k = rw (h, k) refl

-- A run that returns, followed by any other.
pub Emits-continue {ℓ κ} :
    {A : Type ℓ} {B : Type κ} (fd : ℕ) {ts us : List Bytes} {a : A} {o : Outcome B} (r : Proc A)
    (f : A → Proc B)
    → Emits fd ts a r
    → (written fd (f a).0 ≡ us) × ((f a).1 ≡ o)
    → (written fd (r >>= f).0 ≡ ts ++ us) × ((r >>= f).1 ≡ o)
Emits-continue fd {ts} {us} {a} {o} (es, end) f h k =
    let e = bind-eq es end a f h.1 in
    (
      ap (λ r. written fd r.0) e ∙ written-append fd es (f a).0 ∙ ap₂ ◌++◌ h.0 k.0,
      ap (λ r. r.1) e ∙ k.1,
    )

pub Emits-bind {ℓ κ} :
    {A : Type ℓ} {B : Type κ} (fd : ℕ) {ts us : List Bytes} {a : A} {b : B} (r : Proc A)
    (f : A → Proc B)
    → Emits fd ts a r
    → Emits fd us b (f a)
    → Emits fd (ts ++ us) b (r >>= f)
Emits-bind fd r f h k = Emits-continue fd r f h k

-- A run followed by one that writes nothing to `fd`.
pub Emits-then {ℓ κ} :
    {A : Type ℓ} {B : Type κ} (fd : ℕ) {ts : List Bytes} {a : A} {b : B} (r : Proc A)
    (f : A → Proc B)
    → Emits fd ts a r
    → Emits fd [] b (f a)
    → Emits fd ts b (r >>= f)
Emits-then fd {ts} r f h k = rw append-nil at (Emits-bind fd r f h k)

pub Emits-pure {ℓ} : {A : Type ℓ} (fd : ℕ) (a : A) → Emits fd [] a (pure a)
unfolding written
Emits-pure fd a = (refl, refl)

-- A run that waits never comes to what follows it.
pub blocked-bind {ℓ κ} :
    {A : Type ℓ} {B : Type κ} (fd : ℕ) {ts : List Bytes} (r : Proc A) (f : A → Proc B)
    → (written fd r.0 ≡ ts) × (r.1 ≡ blocked)
    → (written fd (r >>= f).0 ≡ ts) × ((r >>= f).1 ≡ blocked)
blocked-bind fd (es, end) f h = rw h.1 (h.0, refl)

-- One more call in front of a run.
module _ {ℓ} {A : Type ℓ} {a : A} {ts : List Bytes} (fd f : ℕ) (b : Bytes) (k : Proc A) where
  pub quiet_print : Emits fd ts a k → Emits fd ts a (call (print f b) >> k)
  unfolding written
  quiet_print h = h

  pub quiet_write : f ≢ fd → Emits fd ts a k → Emits fd ts a (call (write f b) >> k)
  unfolding written
  quiet_write ne h = (rw (ne→== f fd ne) h.0, h.1)
