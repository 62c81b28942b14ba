-- ===== src/ProdCons/Counts.antt =====
-- The counters of prodcons6.c. `main` gives the producer and the consumer with the same number the same
-- counter, &count[i]. Here the changes that the two make to it do not overlap; where they do is in Race.
use posix_network_programmin.Prelude.{
  ℕ, zero, suc, ◌+◌, ◌-◌, ◌%◌, List, [], ◌∷◌, ◌++◌, length, replicate, codes,
}
use posix_network_programmin.Cstring.{int_mod, print_int}
use posix_network_programmin.Posix.{Effect, print, stdout_fileno}
use posix_network_programmin.ProdCons.{
  System, Step, announces, announces_first, ends, Spurious, start,
}

abbrev pub at_index {ℓ} : {A : Type ℓ} → (A → A) → ℕ → List A → List A
at_index f i [] = []
at_index f zero (x ∷ xs) = f x ∷ xs
at_index f (suc i) (x ∷ xs) = x ∷ at_index f i xs

-- An int is its pattern.
abbrev pub count_up : ℕ → ℕ
count_up x = (x + 1) % int_mod

abbrev pub count_down : ℕ → ℕ
count_down x = (x + (int_mod - 1)) % int_mod

-- A producer counts up behind its second section, a consumer counts down where its loop ends.
unfoldable pub counts : {nitems : ℕ} {t u : System} → Step nitems t u → List ℕ → List ℕ
counts (announces s l r cs ne) count = at_index count_up (length l) count
counts (announces_first s l r cs cs' e sig) count = at_index count_up (length l) count
counts (ends s ps l r i h) count = at_index count_down (length l) count
counts _ count = count

-- The states that the threads reach, with the counters there, if no two changes of one overlap.
pub data Tally (nitems nthreads : ℕ) : System → List ℕ → Type 0 where
  zeros : Tally nitems nthreads (start nthreads) (replicate nthreads 0)
  moved :
      {t u : System} {count : List ℕ}
      → Tally nitems nthreads t count
      → (s : Step nitems t u) → Tally nitems nthreads u (counts s count)
  woke :
      {t u : System} {count : List ℕ}
      → Tally nitems nthreads t count
      → Spurious t u
      → Tally nitems nthreads u count

-- What `main` prints: the counter of each producer after the join of that, and `ccount`, which no thread
-- is given, after the join of the consumer. The list holds the counters as they are when they are read.
unfoldable pub report : ℕ → List ℕ → List Effect
report i [] = []
report i (count ∷ counts) =
    print stdout_fileno
      (codes "count[" ++ (print_int i ++ (codes "] = " ++ (print_int count ++ codes "\n"))))
    ∷ print stdout_fileno
        (codes "Ccount[" ++ (print_int i ++ (codes "] = " ++ (print_int 0 ++ codes "\n"))))
    ∷ report (i + 1) counts
