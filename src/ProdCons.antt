-- ===== src/ProdCons.antt =====
-- week6/unpv22e/mutex/prodcons6.c: threads that store numbers in an array, and threads that take them.
-- What a thread does between locking a mutex and unlocking it, or waiting, is one step.
pub mod Counting
pub mod Sound
pub mod Invariant
pub mod Stuck
pub mod Deadlock
pub mod Measure
pub mod Served
pub mod Moves
pub mod Progress
pub mod Counts
pub mod Cells
pub mod Totals
pub mod Report
pub mod Race
mod Tests
use posix_network_programmin.Prelude.{
  ℕ, suc, ◌+◌, ◌-◌, ◌<◌, ◌≤◌, ◌≡◌, ◌≢◌, Bool, ◌&&◌, List, [], ◌∷◌, ◌++◌, Option, none, some, ltb,
  leb, ◌==◌, codes, if◌then◌else◌, All, replicate,
}
use posix_network_programmin.Cstring.{print_int}
use posix_network_programmin.Posix.{Effect, print, stdout_fileno}
use Prim.Native.Nat.{min}

abbrev pub max_nitems : ℕ
max_nitems = 1000000

abbrev pub max_nthreads : ℕ
max_nthreads = 100

-- `put` and `nready`, less their mutexes and the condition, and `buff`
pub record Shared : Type 0 where
  pub nput : ℕ
  pub nval : ℕ
  pub nget : ℕ
  pub nready : ℕ
  pub buff : ℕ → ℕ

abbrev pub update : (ℕ → ℕ) → ℕ → ℕ → ℕ → ℕ
update f i v k = if k == i then v else f k

-- A producer is in front of its first lock, in front of its second, or has returned.
pub data Producer : Type 0 where
  ready stored returned : Producer

-- The first locked section of `produce`; `none` if the thread returns.
unfoldable pub put_section : ℕ → Shared → Option Shared
put_section nitems s =
    if leb nitems s.nput
    then none
    else some
        (record s { buff = update s.buff s.nput s.nval; nput = s.nput + 1; nval = s.nval + 1 })

-- The second one, less the signal.
unfoldable pub ready_section : Shared → Shared
ready_section s = record s { nready = s.nready + 1 }

-- A consumer with its `i`: in front of its lock, in the wait, behind a signal, behind its unlock, and
-- returned.
pub data Consumer : Type 0 where
  begins waits woken took : ℕ → Consumer
  done : ℕ → Consumer

-- The locked section of `consume`, also from where the wait returns: the thread waits, or signals and
-- returns, or takes an item.
pub data Section : Type 0 where
  sleeps : Section
  leaves : Section
  takes : Shared → Section

unfoldable pub get_section : ℕ → Shared → Section
get_section nitems s =
    if s.nready == 0 && ltb s.nget nitems
    then sleeps
    else if leb nitems s.nget
    then leaves
    else takes (record s { nready = s.nready - 1; nget = s.nget + 1 })

-- What a consumer does behind its unlock, with its `i`: an item that is not its own number is printed.
unfoldable pub check_item : Shared → ℕ → List Effect
check_item s i =
    if s.buff i == i
    then []
    else print stdout_fileno
        (codes "buff[" ++ (print_int i ++ (codes "] = " ++ (print_int (s.buff i) ++ codes "\n"))))
      ∷ []

pub record System : Type 0 where
  pub shared : Shared
  pub producers : List Producer
  pub consumers : List Consumer

abbrev pub IsAwake : Consumer → Type 0
IsAwake (waits i) = ⊥
IsAwake c = Unit

-- pthread_cond_signal: one of the waiting threads is woken, if there is one.
pub data Signals : List Consumer → List Consumer → Type 0 where
  one : (l r : List Consumer) (i : ℕ) → Signals (l ++ waits i ∷ r) (l ++ woken i ∷ r)
  nobody : (cs : List Consumer) → All IsAwake cs → Signals cs cs

-- Where a consumer enters its locked section with `i`.
pub data Enters (nitems : ℕ) : Consumer → ℕ → Type 0 where
  locks : (i : ℕ) → i < nitems → Enters nitems (begins i) i
  wakes : (i : ℕ) → Enters nitems (woken i) i

-- One thread of either kind makes a step.
pub data Step (nitems : ℕ) : System → System → Type 0 where
  puts :
      (s s' : Shared) (l r : List Producer) (cs : List Consumer)
      → put_section nitems s ≡ some s'
      → Step nitems
          (record { shared = s; producers = l ++ ready ∷ r; consumers = cs })
          (record { shared = s'; producers = l ++ stored ∷ r; consumers = cs })
  is_full :
      (s : Shared) (l r : List Producer) (cs : List Consumer)
      → put_section nitems s ≡ none
      → Step nitems
          (record { shared = s; producers = l ++ ready ∷ r; consumers = cs })
          (record { shared = s; producers = l ++ returned ∷ r; consumers = cs })
  announces :
      (s : Shared) (l r : List Producer) (cs : List Consumer)
      → s.nready ≢ 0
      → Step nitems
          (record { shared = s; producers = l ++ stored ∷ r; consumers = cs })
          (record { shared = ready_section s; producers = l ++ ready ∷ r; consumers = cs })
  announces_first :
      (s : Shared) (l r : List Producer) (cs cs' : List Consumer)
      → s.nready ≡ 0
      → Signals cs cs'
      → Step nitems
          (record { shared = s; producers = l ++ stored ∷ r; consumers = cs })
          (record { shared = ready_section s; producers = l ++ ready ∷ r; consumers = cs' })
  falls_asleep :
      (s : Shared) (ps : List Producer) (l r : List Consumer) (c : Consumer) (i : ℕ)
      → Enters nitems c i
      → get_section nitems s ≡ sleeps
      → Step nitems
          (record { shared = s; producers = ps; consumers = l ++ c ∷ r })
          (record { shared = s; producers = ps; consumers = l ++ waits i ∷ r })
  finds_none :
      (s : Shared) (ps : List Producer) (l r cs' : List Consumer) (c : Consumer) (i : ℕ)
      → Enters nitems c i
      → get_section nitems s ≡ leaves
      → Signals (l ++ done i ∷ r) cs'
      → Step nitems
          (record { shared = s; producers = ps; consumers = l ++ c ∷ r })
          (record { shared = s; producers = ps; consumers = cs' })
  gets :
      (s s' : Shared) (ps : List Producer) (l r : List Consumer) (c : Consumer) (i : ℕ)
      → Enters nitems c i
      → get_section nitems s ≡ takes s'
      → Step nitems
          (record { shared = s; producers = ps; consumers = l ++ c ∷ r })
          (record { shared = s'; producers = ps; consumers = l ++ took i ∷ r })
  -- it prints what `check_item` says
  checks :
      (s : Shared) (ps : List Producer) (l r : List Consumer) (i : ℕ)
      → Step nitems
          (record { shared = s; producers = ps; consumers = l ++ took i ∷ r })
          (record { shared = s; producers = ps; consumers = l ++ begins (i + 1) ∷ r })
  ends :
      (s : Shared) (ps : List Producer) (l r : List Consumer) (i : ℕ)
      → nitems ≤ i
      → Step nitems
          (record { shared = s; producers = ps; consumers = l ++ begins i ∷ r })
          (record { shared = s; producers = ps; consumers = l ++ done i ∷ r })

-- A wait may also return with no signal.
pub data Spurious : System → System → Type 0 where
  wakes_up :
      (s : Shared) (ps : List Producer) (l r : List Consumer) (i : ℕ)
      → Spurious
          (record { shared = s; producers = ps; consumers = l ++ waits i ∷ r })
          (record { shared = s; producers = ps; consumers = l ++ woken i ∷ r })

pub data Reach (nitems : ℕ) (t : System) : System → Type 0 where
  here : Reach nitems t t
  next : {u v : System} → Reach nitems t u → Step nitems u v → Reach nitems t v
  wake : {u v : System} → Reach nitems t u → Spurious u v → Reach nitems t v

-- `main`, after the threads are created; the globals are 0 at first.
unfoldable pub start : ℕ → System
start nthreads = record {
  shared = record { nput = 0; nval = 0; nget = 0; nready = 0; buff = λ k. 0 };
  producers = replicate nthreads ready;
  consumers = replicate nthreads (begins 0);
}

-- What `main` makes of the two numbers on its command line, which are not negative.
abbrev pub nitems_of : ℕ → ℕ
nitems_of items = min items max_nitems

unfoldable pub main_start : ℕ → System
unfolding start
main_start threads = start (min threads max_nthreads)
