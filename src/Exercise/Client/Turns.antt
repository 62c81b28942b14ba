-- ===== src/Exercise/Client/Turns.antt =====
-- The turns of the client, message by message, and what each writes to a descriptor.
use posix_network_programmin.Prelude.{
  ℕ, ◌+◌, ◌%◌, ◌<◌, ◌≡◌, ◌≢◌, refl, sym, ap, ◌∙◌, append_assoc, true, List, [], ◌∷◌, ◌++◌, arith,
  length, Bool-cases, inl, inr, ◌==◌, ==_iff, if◌then◌else◌, codes,
}
use posix_network_programmin.Cstring.{Bytes, overwrite, clear, int_mod}
use posix_network_programmin.Cstring.Laws.{IsText, c_str-append, length-overwrite}
use posix_network_programmin.Posix.{Proc, pure, ◌>>=◌, ReadResult, got, written, stdout_fileno}
use posix_network_programmin.Posix.Emits.{
  Emits, Emits-continue, Emits-then, Emits-pure, quiet_write,
}
use posix_network_programmin.Posix.Accept.{in_parent}
use posix_network_programmin.Exercise.Reply.{max_buffer}
use posix_network_programmin.Exercise.Connection.Invariant.{
  IsClean, clear-IsClean, message_terminated,
}
use posix_network_programmin.Exercise.Client.{
  Message, Client, say, greet, read_port, show, finish_turn, turn, on_input, after_read, dialog,
}
use posix_network_programmin.Exercise.Client.Port.{NamesPort, read_port-Emits}

-- What the client says in answer to message number `n`.
abbrev pub greeting : ℕ → List Bytes
greeting n = if n == 0 then codes "HELLO\n" ∷ [] else if n == 1 then codes "joonahal\n" ∷ [] else []

-- A message that the client can take as number `n`: the fifth, number 4, names a port.
pub record IsExpected (n : ℕ) (m : Message) : Type 0 where
  pub text : Bytes
  pub input : m.input ≡ got text
  pub some_char : 0 < length text
  pub short : length text < max_buffer
  pub proper : IsText text
  pub fifth :
      n ≡ 4
      → (port pid : ℕ) × NamesPort text port × (m.allocated ≡ true) × (m.forked ≡ in_parent pid)

on_input-got :
    (text : Bytes) (k : Bytes → Proc ℕ) → 0 < length text → on_input (got text) k ≡ k text
unfolding on_input
on_input-got [] k h = absurd (omega arith)
on_input-got (b ∷ bs) k h = refl

on_input-text :
    (r : ReadResult) (text : Bytes) (k : Bytes → Proc ℕ)
    → r ≡ got text
    → 0 < length text
    → on_input r k ≡ k text
on_input-text r text k e h = ap (λ r. on_input r k) e ∙ on_input-got text k h

-- The messages can be taken as numbers `n`, `n` + 1 and so on.
abbrev pub AreExpected : ℕ → List Message → Type 0
AreExpected n [] = Unit
AreExpected n (m ∷ ms) = IsExpected n m × AreExpected ((n + 1) % int_mod) ms

-- The number of the message behind them.
abbrev pub after : ℕ → List Message → ℕ
after n [] = n
after n (m ∷ ms) = after ((n + 1) % int_mod) ms

-- The turns behind one whose bytes are in the buffer.
abbrev pub loop : Client → ℕ → Bytes → List Message → Unit {0} → Proc ℕ
loop c n filled later _ = dialog c ((n + 1) % int_mod) (clear max_buffer filled) later

pub dialog-turn :
    (c : Client) (n : ℕ) (buffer : Bytes) (m : Message) (later : List Message) (text : Bytes)
    → m.input ≡ got text
    → 0 < length text
    → dialog c n buffer (m ∷ later)
      ≡ (turn c n (overwrite text buffer) m >>= loop c n (overwrite text buffer) later)
unfolding dialog after_read
dialog-turn c n buffer m later text input some_char =
    on_input-text m.input text
      (after_read c n buffer m (λ cleared. dialog c ((n + 1) % int_mod) cleared later)) input
      some_char

module _ (c : Client) (fd : ℕ) (apart : stdout_fileno ≢ fd) where
  -- What is written to `fd` in answer to message number `n`, and in all.
  abbrev pub answer : ℕ → List Bytes
  answer n = if c.sockfd == fd then greeting n else []

  abbrev pub heard : ℕ → List Message → List Bytes
  heard n [] = []
  heard n (m ∷ ms) = answer n ++ heard ((n + 1) % int_mod) ms

  greet-Emits : (n : ℕ) → Emits fd (answer n) tt (greet c.sockfd n)
  unfolding greet say written
  greet-Emits n = ground arith

  show-Emits : (text rest : Bytes) → IsText text → Emits fd [] tt (show (text ++ 0 ∷ rest))
  unfolding show
  show-Emits text rest t =
      rw (c_str-append text rest t)
        (quiet_write fd stdout_fileno text (pure tt) apart (Emits-pure fd tt))

  fifth-Emits :
      (n : ℕ) (m : Message) (rest : Bytes) (x : IsExpected n m)
      → Emits fd [] tt (if n == 4 then read_port c (x.text ++ 0 ∷ rest) m else pure tt)
  fifth-Emits n m rest x = elim (Bool-cases (n == 4)) [
    | inl y ↦
        let (port, pid, names, alloc, fork) = x.fifth ((==_iff n 4).0 y) in
        rw y (read_port-Emits c m x.text rest port fd pid alloc fork names)
    | inr other ↦ rw other (Emits-pure fd tt)
  ]

  turn-Emits :
      (n : ℕ) (m : Message) (rest : Bytes) (x : IsExpected n m)
      → Emits fd (answer n) tt (turn c n (x.text ++ 0 ∷ rest) m)
  unfolding turn finish_turn
  turn-Emits n m rest x =
      Emits-then fd (greet c.sockfd n) (λ _. finish_turn c n (x.text ++ 0 ∷ rest) m) (greet-Emits n)
        (Emits-then fd _ (λ _. show (x.text ++ 0 ∷ rest)) (fifth-Emits n m rest x)
          (show-Emits x.text rest x.proper))

  -- From any first value of `n`, each of the first messages is answered by its number; then the client
  -- is in front of the others, with a clean buffer.
  pub dialog-append :
      (ms later : List Message) (n : ℕ) (buffer : Bytes)
      → AreExpected n ms
      → IsClean buffer
      → (cleared : Bytes) × IsClean cleared
        × (written fd (dialog c n buffer (ms ++ later)).0
            ≡ heard n ms ++ written fd (dialog c (after n ms) cleared later).0)
        × ((dialog c n buffer (ms ++ later)).1 ≡ (dialog c (after n ms) cleared later).1)
  dialog-append [] later n buffer h clean = (buffer, clean, refl, refl)
  dialog-append (m ∷ ms) later n buffer h clean =
      let x = h.0 in
      let filled = overwrite x.text buffer in
      let (rest, read) = message_terminated x.text buffer clean x.short in
      let next = clear-IsClean filled (length-overwrite x.text buffer ∙ clean.size) in
      let sent : Emits fd (answer n) tt (turn c n filled m) = rw read (turn-Emits n m rest x) in
      let (cleared, ready, texts, end) =
        dialog-append ms later ((n + 1) % int_mod) (clear max_buffer filled) h.1 next in
      let both =
        Emits-continue fd (turn c n filled m) (loop c n filled (ms ++ later)) sent (texts, end) in
      (
        cleared,
        ready,
        rw (dialog-turn c n buffer m (ms ++ later) x.text x.input x.some_char)
            (both.0 ∙ sym (append_assoc (answer n) (heard ((n + 1) % int_mod) ms) _)),
        rw (dialog-turn c n buffer m (ms ++ later) x.text x.input x.some_char) both.1,
      )
