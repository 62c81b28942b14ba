-- ===== src/Reports/Elapsed.antt =====
-- What week1/teht1.c prints for the time between two calls.
use posix_network_programmin.Prelude.{
  ℕ, ◌+◌, ◌-◌, ◌/◌, ◌%◌, ◌<◌, ◌≤◌, ◌≡◌, refl, ◌∷◌, true, false, ltb, leb, arith, Bool-cases, inl,
  inr, if◌then◌else◌, ltb→lt,
}
use posix_network_programmin.Cstring.{decimal}
use posix_network_programmin.Reports.{Timeval, usec_between}

-- The clock, `n` microseconds after its zero.
abbrev pub clock : ℕ → Timeval
clock n = record { sec = n / 1000000; usec = n % 1000000 }

-- Of two times that are `d` microseconds apart, less than a second, the number printed is `d` if they
-- lie in the same second of the clock; otherwise it is negative, by what `d` lacks of a second.
pub usec_between-clock :
    (n d : ℕ)
    → d < 1000000
    → usec_between (clock n) (clock (n + d))
      ≡ (if ltb (n % 1000000 + d) 1000000 then decimal d else b'-' ∷ decimal (1000000 - d))
unfolding usec_between
usec_between-clock n d h = elim (Bool-cases (ltb (n % 1000000 + d) 1000000)) [
  | inl same ↦
      let near : n % 1000000 + d < 1000000 = ltb→lt _ _ same in
      let later : (n + d) % 1000000 ≡ n % 1000000 + d = omega arith in
      let apart : n % 1000000 + d - n % 1000000 ≡ d = omega arith in
      let up : leb (n % 1000000) (n % 1000000 + d) ≡ true = ground arith in
      rw (same, later, up, apart) refl
  | inr next ↦
      let far : 1000000 ≤ n % 1000000 + d = ground arith in
      let later : (n + d) % 1000000 + 1000000 ≡ n % 1000000 + d = omega arith in
      let apart : n % 1000000 - (n + d) % 1000000 ≡ 1000000 - d = omega arith in
      let down : leb (n % 1000000) ((n + d) % 1000000) ≡ false = ground arith in
      rw (next, down, apart) refl
]
