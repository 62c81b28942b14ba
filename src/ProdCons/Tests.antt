-- ===== src/ProdCons/Tests.antt =====
-- Runs of the threads of prodcons6.c with one item.
use posix_network_programmin.Prelude.{
  ℕ, ◌+◌, ◌-◌, ◌*◌, ◌%◌, ◌≤◌, ◌≡◌, ◌<◌, refl, ◌⊎◌, [], ◌∷◌, arith,
}
use posix_network_programmin.ProdCons.{
  Enters, Shared, update, Producer, ready, returned, put_section, ready_section, Consumer, begins,
  woken, took, done, get_section, check_item, System, nobody, locks, wakes, waits, puts, is_full,
  announces_first, falls_asleep, wakes_up, gets, checks, ends, Reach, here, next, start,
}
use posix_network_programmin.ProdCons.Counting.{total}
use posix_network_programmin.ProdCons.Sound.{taken, IsSound}
use posix_network_programmin.ProdCons.Invariant.{Reach-IsSound, Reach-took, Reach-done}
use posix_network_programmin.ProdCons.Measure.{Run, starts, moves, wakes_early, Run-bound}
use posix_network_programmin.Cstring.{int_mod}
use posix_network_programmin.ProdCons.Race.{
  Race, zeros, moved, touched, cell, value, idle, due, holds, owes, loads_up, stores_up, loads_down,
  stores_down,
}
use posix_network_programmin.ProdCons.Race.Lost.{Off}
use posix_network_programmin.ProdCons.Race.Outcome.{IsStuck-sum}
use posix_network_programmin.ProdCons.Totals.{ended}
use posix_network_programmin.ProdCons.Progress.{IsFinished, IsStuck-IsFinished, Reach-IsFinished}
use posix_network_programmin.ProdCons.Stuck.{at_rest, IsStuck}
use posix_network_programmin.ProdCons.Deadlock.{Reach-IsStuck}

abbrev globals : ℕ → ℕ → ℕ → (ℕ → ℕ) → Shared
globals put get left buff = record {
  nput = put;
  nval = put;
  nget = get;
  nready = left;
  buff = buff;
}

abbrev state : Shared → Producer → Consumer → System
state s p c = record { shared = s; producers = p ∷ []; consumers = c ∷ [] }

abbrev one_item : ℕ → ℕ
one_item = update (λ k. 0) 0 0

Reach-took_0 : Reach 1 (start 1) (state (globals 1 1 0 one_item) ready (took 0))
unfolding start put_section ready_section get_section
Reach-took_0 =
    next
      (next
        (next here
          (puts (globals 0 0 0 (λ k. 0)) (globals 1 0 0 one_item) [] [] (begins 0 ∷ []) refl))
        (announces_first (globals 1 0 0 one_item) [] [] (begins 0 ∷ []) (begins 0 ∷ []) refl
          (nobody (begins 0 ∷ []) (tt, tt))))
      (gets (globals 1 0 1 one_item) (globals 1 1 0 one_item) (ready ∷ []) [] [] (begins 0) 0
        (locks 0 (omega arith)) refl)

Reach-done_1 : Reach 1 (start 1) (state (globals 1 1 0 one_item) ready (done 1))
Reach-done_1 =
    next (next Reach-took_0 (checks (globals 1 1 0 one_item) (ready ∷ []) [] [] 0))
      (ends (globals 1 1 0 one_item) (ready ∷ []) [] [] 1 (omega arith))

Reach-IsSound_example : IsSound 1 (state (globals 1 1 0 one_item) ready (took 0))
Reach-IsSound_example = Reach-IsSound 1 1 Reach-took_0

Reach-took_example : (one_item 0 ≡ 0) × (0 < 1) × (check_item (globals 1 1 0 one_item) 0 ≡ [])
Reach-took_example = Reach-took 1 1 (globals 1 1 0 one_item) (ready ∷ []) [] [] 0 Reach-took_0

Reach-done_example :
    (total taken (done 1 ∷ []) ≡ 1)
    × ((globals 1 1 0 one_item).nput ≡ 1)
    × ((globals 1 1 0 one_item).nready ≡ 0)
Reach-done_example = Reach-done 1 1 (globals 1 1 0 one_item) (ready ∷ []) [] [] 1 Reach-done_1

Reach-IsStuck_example :
    (t : System) × Reach 3 (start 3) t
    × (t.producers ≡ returned ∷ returned ∷ returned ∷ [])
    × (t.consumers ≡ done 3 ∷ waits 0 ∷ waits 0 ∷ [])
    × IsStuck 3 t
Reach-IsStuck_example = Reach-IsStuck 3 (omega arith) 1

-- The consumer falls asleep, wakes early, and falls asleep again.
Run-asleep : Run 1 (start 1) (state (globals 0 0 0 (λ k. 0)) ready (waits 0)) 2 1
unfolding start get_section
Run-asleep =
    let s = globals 0 0 0 (λ k. 0) in
    let ps = ready ∷ [] in
    moves
      (wakes_early
        (moves starts (falls_asleep s ps [] [] (begins 0) 0 (locks 0 (omega arith)) refl))
        (wakes_up s ps [] [] 0))
      (falls_asleep s ps [] [] (woken 0) 0 (wakes 0) refl)

Run-bound_example : 2 ≤ 5 * 1 + 3 * 1 + 1
Run-bound_example = Run-bound 1 1 Run-asleep

Reach-ended : Reach 1 (start 1) (state (globals 1 1 0 one_item) returned (done 1))
unfolding put_section
Reach-ended = next Reach-done_1 (is_full (globals 1 1 0 one_item) [] [] (done 1 ∷ []) refl)

ended-IsStuck : IsStuck 1 (state (globals 1 1 0 one_item) returned (done 1))
ended-IsStuck step = at_rest step.1 (tt, tt) (tt, tt)

IsStuck-IsFinished_example : IsFinished 1 (state (globals 1 1 0 one_item) returned (done 1))
IsStuck-IsFinished_example = IsStuck-IsFinished 1 1 (omega arith) Reach-ended ended-IsStuck

Reach-IsFinished_example :
    (u : System) × (n : ℕ) × Run 1 (state (globals 1 1 0 one_item) ready (took 0)) u n 0
    × IsStuck 1 u
    × IsFinished 1 u
Reach-IsFinished_example = Reach-IsFinished 1 1 (omega arith) Reach-took_0

begins-Enters : Enters 1 (begins 0) 0
begins-Enters = locks 0 (omega arith)

-- The consumer takes the item, and loads the counter before the producer stores it: that change is lost.
Race-lost :
    Race 1 1 (state (globals 1 1 0 one_item) returned (done 1)) (cell (int_mod - 1) idle idle ∷ [])
unfolding start put_section ready_section get_section owes
Race-lost =
    let all : 1 ≤ 1 = omega arith in
    let s = globals 1 1 0 one_item in
    let stores =
      puts (globals 0 0 0 (λ k. 0)) (globals 1 0 0 one_item) [] [] (begins 0 ∷ []) refl in
    let says =
      announces_first (globals 1 0 0 one_item) [] [] (begins 0 ∷ []) (begins 0 ∷ []) refl
        (nobody (begins 0 ∷ []) (tt, tt)) in
    let takes_it =
      gets (globals 1 0 1 one_item) s (ready ∷ []) [] [] (begins 0) 0 begins-Enters refl in
    let announced = moved (moved zeros stores refl) says refl in
    let taken_it = moved (moved announced takes_it tt) (checks s (ready ∷ []) [] [] 0) tt in
    let left = moved taken_it (ends s (ready ∷ []) [] [] 1 all) tt in
    let both = touched [] [] (touched [] [] left (loads_up 0 due)) (loads_down 0 (holds 0)) in
    let over =
      touched [] [] (touched [] [] both (stores_up 0 0 (holds 0))) (stores_down 1 0 idle) in
    moved over (is_full s [] [] (done 1 ∷ []) refl) refl

IsStuck-sum_example :
    ((total (ended 1) (done 1 ∷ []) ≡ 0)
      × (total value (cell (int_mod - 1) idle idle ∷ []) % int_mod ≡ 1 % int_mod))
    ⊎ ((total (ended 1) (done 1 ∷ []) ≡ 1)
        × Off (total value (cell (int_mod - 1) idle idle ∷ []) + 1) 1)
IsStuck-sum_example = IsStuck-sum 1 1 (omega arith) (omega arith) Race-lost ended-IsStuck (tt, tt)
