-- ===== src/Posix/Every.antt =====
-- A property of every call that a run makes, with a rule for each way to build a run.
use posix_network_programmin.Prelude.{
  ℕ, Bool, true, false, Option, none, some, All, All-append, if◌then◌else◌,
}
use posix_network_programmin.Posix.{
  Effect, returned, exited, faulted, blocked, Proc, Fault, fault, exit, pure, call, checked, ◌>>=◌,
  ◌>>◌,
}

pub record Every {ℓ} {A : Type ℓ} (P : Effect → Type 0) (r : Proc A) : Type 0 where
  pub all : All P r.0

module _ {ℓ} {A : Type ℓ} (P : Effect → Type 0) where
  pub Every-pure : (a : A) → Every P (pure a)
  Every-pure a = record { all = tt }

  pub Every-bind {κ} :
      {B : Type κ} (r : Proc A) (f : A → Proc B)
      → Every P r
      → ((a : A) → Every P (f a))
      → Every P (r >>= f)
  Every-bind (es, returned a) f h k = record { all = All-append P es (f a).0 h.all (k a).all }
  Every-bind (es, exited n) f h k = record { all = h.all }
  Every-bind (es, faulted x) f h k = record { all = h.all }
  Every-bind (es, blocked) f h k = record { all = h.all }

  pub Every-checked {κ} :
      {B : Type κ} (o : Option A) (f : A → Proc B)
      → ((a : A) → Every P (f a))
      → Every P (checked o >>= f)
  Every-checked none f k = record { all = tt }
  Every-checked (some a) f k = record { all = (k a).all }

  pub Every-if : (b : Bool) (r s : Proc A) → Every P r → Every P s → Every P (if b then r else s)
  Every-if true r s h k = h
  Every-if false r s h k = k

  pub Every-call : (e : Effect) (r : Proc A) → P e → Every P r → Every P (call e >> r)
  Every-call e r p h = record { all = (p, h.all) }

  pub Every-exit : (n : ℕ) → Every P (exit {A = A} n)
  Every-exit n = record { all = tt }

  pub Every-fault : (x : Fault) → Every P (fault {A = A} x)
  Every-fault x = record { all = tt }

pub ruleset every_rules =
    (Every-pure, Every-bind, Every-checked, Every-if, Every-call, Every-exit, Every-fault)
