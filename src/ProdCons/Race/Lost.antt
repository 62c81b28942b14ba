-- ===== src/ProdCons/Race/Lost.antt =====
-- How far the counters of prodcons6.c are off, once no change of them is under way.
use posix_network_programmin.Prelude.{
  ℕ, ◌+◌, ◌%◌, ◌≤◌, ◌≡◌, refl, List, [], ◌∷◌, arith, All, ◌⊎◌, inl, inr,
}
use posix_network_programmin.Cstring.{int_mod}
use posix_network_programmin.ProdCons.{Consumer}
use posix_network_programmin.ProdCons.Counting.{total}
use posix_network_programmin.ProdCons.Totals.{ended}
use posix_network_programmin.ProdCons.Report.{ended-taken}
use posix_network_programmin.ProdCons.Race.{idle, due, holds, Cell, cell, value, IsIdle}
use posix_network_programmin.ProdCons.Race.Near.{Near}
use posix_network_programmin.ProdCons.Race.Close.{Close}

-- As ints, the first is the second, or one less, or one more.
abbrev pub Off : ℕ → ℕ → Type 0
Off v n =
    (v % int_mod ≡ n % int_mod)
    ⊎ (((v + 1) % int_mod ≡ n % int_mod) ⊎ (v % int_mod ≡ (n + 1) % int_mod))

pub Off-add :
    (v n a x y : ℕ)
    → x % int_mod ≡ (v + a) % int_mod
    → y % int_mod ≡ (n + a) % int_mod
    → Off v n
    → Off x y
Off-add v n a x y ex ey h = elim h [
  | inl same ↦ inl (omega (arith, ex, ey, same))
  | inr other ↦ elim other [
    | inl less ↦ inr (inl (omega (arith, ex, ey, less)))
    | inr more ↦ inr (inr (omega (arith, ex, ey, more)))
  ]
]

Near-same : (n : ℕ) (c : Cell) → IsIdle c → Near 0 n c → value c ≡ n
Near-same n (cell v idle idle) rest h = h.1
Near-same n (cell v idle due) rest h = absurd rest
Near-same n (cell v idle (holds y)) rest h = absurd rest
Near-same n (cell v due d) rest h = absurd rest
Near-same n (cell v (holds x) d) rest h = absurd rest

Near-Off : (n : ℕ) (c : Cell) → IsIdle c → Near 1 n c → Off (value c) n
Near-Off n (cell v idle idle) rest h = elim h.1 [
  | inl same ↦ inl (omega (arith, same))
  | inr other ↦ elim other [
    | inl less ↦ inr (inl (omega (arith, less)))
    | inr more ↦ inr (inr (omega (arith, more)))
  ]
]
Near-Off n (cell v idle due) rest h = absurd rest
Near-Off n (cell v idle (holds y)) rest h = absurd rest
Near-Off n (cell v due d) rest h = absurd rest
Near-Off n (cell v (holds x) d) rest h = absurd rest

module _ (nitems : ℕ) where
  Close-same :
      (cs : List Consumer) (ns : List ℕ) (ds : List Cell)
      → total (ended nitems) cs ≡ 0
      → All IsIdle ds
      → Close nitems cs ns ds
      → total value ds ≡ total (λ x. x) ns
  Close-same [] [] [] e rest h = refl
  Close-same (c ∷ cs) (n ∷ ns) (d ∷ ds) e rest h =
      let none : ended nitems c ≡ 0 = omega (arith, e) in
      omega (
        arith,
        Near-same n d rest.0 (rw none at h.0),
        Close-same cs ns ds (omega (arith, e)) rest.1 h.1,
      )
  Close-same [] (n ∷ ns) ds e rest h = absurd h
  Close-same [] [] (d ∷ ds) e rest h = absurd h
  Close-same (c ∷ cs) [] ds e rest h = absurd h
  Close-same (c ∷ cs) (n ∷ ns) [] e rest h = absurd h

  -- Nothing is lost, or one consumer's loop ended and one change of one counter may be.
  pub Close-Off :
      (cs : List Consumer) (ns : List ℕ) (ds : List Cell)
      → total (ended nitems) cs ≤ 1
      → All IsIdle ds
      → Close nitems cs ns ds
      → ((total (ended nitems) cs ≡ 0) × (total value ds ≡ total (λ x. x) ns))
        ⊎ ((total (ended nitems) cs ≡ 1) × Off (total value ds) (total (λ x. x) ns))
  Close-Off [] [] [] e rest h = inl (refl, refl)
  Close-Off (c ∷ cs) (n ∷ ns) (d ∷ ds) e rest h = elim (ended-taken nitems c) [
    | inl none ↦
        (let near = Near-same n d rest.0 (rw none at h.0) in
          elim (Close-Off cs ns ds (omega (arith, e)) rest.1 h.1) [
            | inl same ↦ inl (omega (arith, none, same.0), omega (arith, near, same.1))
            | inr off ↦ inr (
              omega (arith, none, off.0),
              Off-add (total value ds) (total (λ x. x) ns) n _ _ (omega (arith, near)) (omega arith)
                  off.1,
            )
          ])
    | inr some_one ↦
        (let nobody : total (ended nitems) cs ≡ 0 = omega (arith, e, some_one.0) in
          let same = Close-same cs ns ds nobody rest.1 h.1 in
          inr (
            omega (arith, some_one.0, nobody),
            Off-add (value d) n (total (λ x. x) ns) _ _ (omega (arith, same)) refl
                (Near-Off n d rest.0 (rw (some_one.0) at h.0)),
          ))
  ]
  Close-Off [] (n ∷ ns) ds e rest h = absurd h
  Close-Off [] [] (d ∷ ds) e rest h = absurd h
  Close-Off (c ∷ cs) [] ds e rest h = absurd h
  Close-Off (c ∷ cs) (n ∷ ns) [] e rest h = absurd h
