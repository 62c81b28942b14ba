-- ===== src/ProdCons/Counting.antt =====
-- Sums over a list of threads of which one makes a step.
use posix_network_programmin.Prelude.{
  ℕ, zero, suc, ◌+◌, ◌≡◌, refl, List, [], ◌∷◌, ◌++◌, arith, replicate,
}

abbrev pub total {ℓ} : {A : Type ℓ} → (A → ℕ) → List A → ℕ
total f [] = 0
total f (x ∷ xs) = f x + total f xs

module _ {ℓ} {A : Type ℓ} where
  pub total-replace :
      (f : A → ℕ) (l r : List A) (x y : A) → total f (l ++ x ∷ r) + f y ≡ total f (l ++ y ∷ r) + f x
  total-replace f [] r x y = omega arith
  total-replace f (z ∷ l) r x y = omega (arith, total-replace f l r x y)

  pub total-replicate : (f : A → ℕ) (n : ℕ) (x : A) → f x ≡ 0 → total f (replicate n x) ≡ 0
  total-replicate f zero x h = refl
  total-replicate f (suc n) x h = omega (arith, h, total-replicate f n x h)

  pub total-at : (f : A → ℕ) (l r : List A) (x : A) → total f (l ++ x ∷ r) ≡ f x + total f (l ++ r)
  total-at f [] r x = refl
  total-at f (z ∷ l) r x = omega (arith, total-at f l r x)
