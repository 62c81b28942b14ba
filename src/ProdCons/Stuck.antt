-- ===== src/ProdCons/Stuck.antt =====
-- States of prodcons6.c in which no thread makes a step.
use posix_network_programmin.Prelude.{All-at, ℕ, All}
use posix_network_programmin.ProdCons.{
  Producer, ready, stored, returned, Consumer, begins, waits, took, done, System, Enters, locks,
  wakes, Step, puts, is_full, announces, announces_first, falls_asleep, finds_none, gets, checks,
  ends,
}

-- A thread that makes no step of its own.
abbrev pub HasReturned : Producer → Type 0
HasReturned returned = Unit
HasReturned p = ⊥

abbrev pub IsAtRest : Consumer → Type 0
IsAtRest (done i) = Unit
IsAtRest (waits i) = Unit
IsAtRest c = ⊥

abbrev pub IsStuck : ℕ → System → Type 0
IsStuck nitems t = ¬ ((u : System) × Step nitems t u)

no_entry : {nitems : ℕ} {c : Consumer} {i : ℕ} → IsAtRest c → Enters nitems c i → ⊥
no_entry h (locks i l) = h
no_entry h (wakes i) = h

pub at_rest :
    {nitems : ℕ} {t u : System}
    → Step nitems t u
    → All HasReturned t.producers
    → All IsAtRest t.consumers
    → ⊥
at_rest (puts s s' l r cs e) ps cs' = All-at HasReturned l r ready ps
at_rest (is_full s l r cs e) ps cs' = All-at HasReturned l r ready ps
at_rest (announces s l r cs e) ps cs' = All-at HasReturned l r stored ps
at_rest (announces_first s l r cs cs'' e g) ps cs' = All-at HasReturned l r stored ps
at_rest (falls_asleep s ps l r c i en e) ps' cs = no_entry (All-at IsAtRest l r c cs) en
at_rest (finds_none s ps l r cs' c i en e g) ps' cs = no_entry (All-at IsAtRest l r c cs) en
at_rest (gets s s' ps l r c i en e) ps' cs = no_entry (All-at IsAtRest l r c cs) en
at_rest (checks s ps l r i) ps' cs = All-at IsAtRest l r (took i) cs
at_rest (ends s ps l r i h) ps' cs = All-at IsAtRest l r (begins i) cs
