-- ===== src/ProdCons/Race.antt =====
-- The counters of prodcons6.c with the race on them: `*arg += 1` in a producer and `*arg -= 1` in a consumer
-- each load the counter and store it later, with no mutex, and the two threads have the same counter.
pub mod Near
pub mod Close
pub mod Lost
pub mod Outcome
use posix_network_programmin.Prelude.{ℕ, zero, suc, ◌≡◌, List, [], ◌∷◌, ◌++◌, length, replicate}
use posix_network_programmin.ProdCons.{
  System, Step, puts, is_full, announces, announces_first, ends, Spurious, start,
}
use posix_network_programmin.ProdCons.Counts.{at_index, count_up, count_down}

-- Where a thread is in its change of the counter: it makes none, it has not loaded the counter yet, or it
-- holds what it loaded.
pub data Access : Type 0 where
  idle due : Access
  holds : ℕ → Access

-- count[i], with the change of the producer and that of the consumer.
pub data Cell : Type 0 where
  cell : ℕ → Access → Access → Cell

abbrev pub value : Cell → ℕ
value (cell n u d) = n

abbrev pub IsIdle : Cell → Type 0
IsIdle (cell n idle idle) = Unit
IsIdle c = ⊥

abbrev pub owe_up : Cell → Cell
owe_up (cell n u d) = cell n due d

abbrev pub owe_down : Cell → Cell
owe_down (cell n u d) = cell n u due

-- A producer that announced an item is to count up, a consumer whose loop ended is to count down.
unfoldable pub owes : {nitems : ℕ} {t u : System} → Step nitems t u → List Cell → List Cell
owes (announces s l r cs ne) cells = at_index owe_up (length l) cells
owes (announces_first s l r cs cs' e sig) cells = at_index owe_up (length l) cells
owes (ends s ps l r i h) cells = at_index owe_down (length l) cells
owes _ cells = cells

-- A producer is not within its change of the counter.
abbrev pub IsFree : ℕ → List Cell → Type 0
IsFree i [] = Unit
IsFree zero (cell n u d ∷ cells) = u ≡ idle
IsFree (suc i) (c ∷ cells) = IsFree i cells

-- A producer makes no other step within it. A consumer has left its loop when it counts down.
abbrev pub MayMove : {nitems : ℕ} {t u : System} → Step nitems t u → List Cell → Type 0
MayMove (puts s s' l r cs e) cells = IsFree (length l) cells
MayMove (is_full s l r cs e) cells = IsFree (length l) cells
MayMove (announces s l r cs ne) cells = IsFree (length l) cells
MayMove (announces_first s l r cs cs' e sig) cells = IsFree (length l) cells
MayMove _ cells = Unit

-- One load or one store.
pub data Touch : Cell → Cell → Type 0 where
  loads_up : (n : ℕ) (d : Access) → Touch (cell n due d) (cell n (holds n) d)
  stores_up : (n x : ℕ) (d : Access) → Touch (cell n (holds x) d) (cell (count_up x) idle d)
  loads_down : (n : ℕ) (u : Access) → Touch (cell n u due) (cell n u (holds n))
  stores_down : (n x : ℕ) (u : Access) → Touch (cell n u (holds x)) (cell (count_down x) u idle)

-- The states that the threads reach, with the counters there, in every order of the loads and stores.
pub data Race (nitems nthreads : ℕ) : System → List Cell → Type 0 where
  zeros : Race nitems nthreads (start nthreads) (replicate nthreads (cell 0 idle idle))
  moved :
      {t u : System} {cells : List Cell}
      → Race nitems nthreads t cells
      → (s : Step nitems t u) → MayMove s cells
      → Race nitems nthreads u (owes s cells)
  woke :
      {t u : System} {cells : List Cell}
      → Race nitems nthreads t cells
      → Spurious t u
      → Race nitems nthreads u cells
  touched :
      {t : System} {c d : Cell} (l r : List Cell)
      → Race nitems nthreads t (l ++ c ∷ r)
      → Touch c d
      → Race nitems nthreads t (l ++ d ∷ r)
