-- ===== src/ProdCons/Race/Near.antt =====
-- One counter of prodcons6.c, against what it is when the changes do not overlap.
use posix_network_programmin.Prelude.{ℕ, zero, suc, ◌<◌, ◌≡◌, sym, ◌∙◌, ap, ◌⊎◌, inl, inr, arith}
use posix_network_programmin.Cstring.{int_mod}
use posix_network_programmin.ProdCons.Counts.{count_up, count_down}
use posix_network_programmin.ProdCons.Race.{
  Access, idle, due, holds, Cell, cell, owe_up, owe_down, Touch, loads_up, stores_up, loads_down,
  stores_down,
}

-- While only the producer counts nothing is lost.
abbrev pub Calm : ℕ → Cell → Type 0
Calm n (cell v idle idle) = v ≡ n
Calm n (cell v due idle) = v ≡ count_down n
Calm n (cell v (holds x) idle) = (v ≡ count_down n) × (x ≡ count_down n)
Calm n c = ⊥

-- Once the consumer is to count down, one of the two changes can be lost.
abbrev pub Busy : ℕ → Cell → Type 0
Busy n (cell v idle idle) = (v ≡ n) ⊎ ((v ≡ count_down n) ⊎ (v ≡ count_up n))
Busy n (cell v idle due) = v ≡ count_up n
Busy n (cell v idle (holds x)) = (x ≡ count_up n) ⊎ (x ≡ n)
Busy n (cell v due idle) = v ≡ count_down n
Busy n (cell v due due) = v ≡ n
Busy n (cell v due (holds x)) = (v ≡ n) × (x ≡ n)
Busy n (cell v (holds x) idle) = (x ≡ count_down n) ⊎ (x ≡ n)
Busy n (cell v (holds x) due) = (v ≡ n) × (x ≡ n)
Busy n (cell v (holds x) (holds y)) = (x ≡ n) × (y ≡ n)

-- With as many consumers that are to count down, or did.
abbrev pub Near : ℕ → ℕ → Cell → Type 0
Near zero n c = (n < int_mod) × Calm n c
Near (suc e) n c = (n < int_mod) × Busy n c

up-down : (n : ℕ) → n < int_mod → count_up (count_down n) ≡ n
up-down n h = omega arith

down-up : (n : ℕ) → n < int_mod → count_down (count_up n) ≡ n
down-up n h = omega arith

Touch-Calm : (n : ℕ) → n < int_mod → {c d : Cell} → Touch c d → Calm n c → Calm n d
Touch-Calm n h (loads_up v idle) e = (e, e)
Touch-Calm n h (loads_up v due) e = absurd e
Touch-Calm n h (loads_up v (holds y)) e = absurd e
Touch-Calm n h (stores_up v x idle) e = ap count_up e.1 ∙ up-down n h
Touch-Calm n h (stores_up v x due) e = absurd e
Touch-Calm n h (stores_up v x (holds y)) e = absurd e
Touch-Calm n h (loads_down v idle) e = absurd e
Touch-Calm n h (loads_down v due) e = absurd e
Touch-Calm n h (loads_down v (holds x)) e = absurd e
Touch-Calm n h (stores_down v x idle) e = absurd e
Touch-Calm n h (stores_down v x due) e = absurd e
Touch-Calm n h (stores_down v x (holds y)) e = absurd e

Touch-Busy : (n : ℕ) → n < int_mod → {c d : Cell} → Touch c d → Busy n c → Busy n d
Touch-Busy n h (loads_up v idle) e = inl e
Touch-Busy n h (loads_up v due) e = (e, e)
Touch-Busy n h (loads_up v (holds y)) e = e
Touch-Busy n h (stores_up v x idle) e = elim e [
  | inl seen ↦ inl (ap count_up seen ∙ up-down n h)
  | inr over ↦ inr (inr (ap count_up over))
]
Touch-Busy n h (stores_up v x due) e = ap count_up e.1
Touch-Busy n h (stores_up v x (holds y)) e = inr e.1
Touch-Busy n h (loads_down v idle) e = inl e
Touch-Busy n h (loads_down v due) e = (e, e)
Touch-Busy n h (loads_down v (holds x)) e = (e.1, e.0)
Touch-Busy n h (stores_down v x idle) e = elim e [
  | inl seen ↦ inl (ap count_down seen ∙ down-up n h)
  | inr over ↦ inr (inl (ap count_down over))
]
Touch-Busy n h (stores_down v x due) e = ap count_down e.1
Touch-Busy n h (stores_down v x (holds y)) e = inr e.0

pub Touch-Near : (k n : ℕ) {c d : Cell} → Touch c d → Near k n c → Near k n d
Touch-Near zero n t e = (e.0, Touch-Calm n e.0 t e.1)
Touch-Near (suc k) n t e = (e.0, Touch-Busy n e.0 t e.1)

pub up-Near :
    (n v : ℕ) (d : Access) → Near 0 n (cell v idle d) → Near 0 (count_up n) (owe_up (cell v idle d))
up-Near n v idle e = (omega arith, e.1 ∙ sym (down-up n e.0))
up-Near n v due e = absurd e.1
up-Near n v (holds x) e = absurd e.1

pub down-Near : (n : ℕ) (c : Cell) → Near 0 n c → Near 1 (count_down n) (owe_down c)
down-Near n (cell v idle idle) e = (omega arith, e.1 ∙ sym (up-down n e.0))
down-Near n (cell v due idle) e = (omega arith, e.1)
down-Near n (cell v (holds x) idle) e = (omega arith, e.1)
down-Near n (cell v idle due) e = absurd e.1
down-Near n (cell v due due) e = absurd e.1
down-Near n (cell v (holds x) due) e = absurd e.1
down-Near n (cell v idle (holds y)) e = absurd e.1
down-Near n (cell v due (holds y)) e = absurd e.1
down-Near n (cell v (holds x) (holds y)) e = absurd e.1
