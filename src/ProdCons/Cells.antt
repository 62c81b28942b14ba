-- ===== src/ProdCons/Cells.antt =====
-- A list of counters of which one changes.
use posix_network_programmin.Prelude.{
  ℕ, zero, suc, ◌+◌, ◌-◌, ◌*◌, ◌/◌, ◌<◌, ◌≡◌, refl, List, [], ◌∷◌, ◌++◌, arith, length,
  length-append,
}
use posix_network_programmin.Cstring.{int_mod}
use posix_network_programmin.ProdCons.Counting.{total}
use posix_network_programmin.ProdCons.Counts.{at_index, count_up, count_down}

pub length-at_index : (f : ℕ → ℕ) (i : ℕ) (xs : List ℕ) → length (at_index f i xs) ≡ length xs
length-at_index f i [] = refl
length-at_index f zero (x ∷ xs) = refl
length-at_index f (suc i) (x ∷ xs) = omega (arith, length-at_index f i xs)

pub total-at_index :
    (f : ℕ → ℕ) (a b : ℕ)
    → ((x : ℕ) → (q : ℕ) × (f x + a + q * int_mod ≡ x + b))
    → (i : ℕ) (xs : List ℕ) → i < length xs
    → (q : ℕ) × (total (λ x. x) (at_index f i xs) + a + q * int_mod ≡ total (λ x. x) xs + b)
total-at_index f a b step i [] h = absurd (omega arith)
total-at_index f a b step zero (x ∷ xs) h = let (q, e) = step x in (q, omega (arith, e))
total-at_index f a b step (suc i) (x ∷ xs) h =
    let (q, e) = total-at_index f a b step i xs (omega arith) in (q, omega (arith, e))

pub count_up-eq : (x : ℕ) → (q : ℕ) × (count_up x + 0 + q * int_mod ≡ x + 1)
count_up-eq x = ((x + 1) / int_mod, omega arith)

pub count_down-eq : (x : ℕ) → (q : ℕ) × (count_down x + 1 + q * int_mod ≡ x + int_mod)
count_down-eq x = ((x + (int_mod - 1)) / int_mod, omega arith)

pub length-replace {ℓ} :
    {A : Type ℓ} (l r : List A) (x y : A) → length (l ++ x ∷ r) ≡ length (l ++ y ∷ r)
length-replace l r x y = omega (arith, length-append l (x ∷ r), length-append l (y ∷ r))

pub length-lt {ℓ} : {A : Type ℓ} (l r : List A) (x : A) → length l < length (l ++ x ∷ r)
length-lt l r x = omega (arith, length-append l (x ∷ r))
