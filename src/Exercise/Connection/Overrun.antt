-- ===== src/Exercise/Connection/Overrun.antt =====
-- Messages that do not fit the array of the commands held back.
use posix_network_programmin.Prelude.{
  ℕ, suc, ◌+◌, ◌<◌, ◌≡◌, refl, ap, ◌∙◌, true, false, List, ◌∷◌, ◌++◌, none, some, arith, length,
  length-append, length-drop, drop, Option-cases, ◌⊎◌, inl, inr, lt→ltb, ◌==◌,
}
use posix_network_programmin.Cstring.{Bytes, fresh, overwrite, padded, strncpy, strcpy}
use posix_network_programmin.Cstring.Laws.{
  IsText, length-fresh, length-padded, memcpy_at-overrun, strcpy_text,
}
use posix_network_programmin.Posix.{Proc, Outcome, returned, faulted, out_of_bounds, got, ◌>>=◌}
use posix_network_programmin.Exercise.Reply.{max_buffer, Answers, echoer}
use posix_network_programmin.Exercise.Connection.{
  Setup, Session, Turn, again, wipe, handle, dispatch, on_echo, hold_back, on_other, join_echo,
  flush, serve,
}
use posix_network_programmin.Exercise.Connection.Invariant.{IsReady, IsClean, message_terminated}
use posix_network_programmin.Exercise.Connection.Protocol.{echo, other, command, command_of}

faulted-bind {ℓ κ} :
    {A : Type ℓ} {B : Type κ} (r : Proc A) (f : A → Proc B)
    → r.1 ≡ faulted out_of_bounds
    → (r >>= f).1 ≡ faulted out_of_bounds
faulted-bind (es, o) f h = rw h refl

returned-bind {ℓ κ} :
    {A : Type ℓ} {B : Type κ} (r : Proc A) (f : A → Proc B) {a : A} {o : Outcome B}
    → r.1 ≡ returned a
    → (f a).1 ≡ o
    → (r >>= f).1 ≡ o
returned-bind (es, o) f h k = rw h k

-- strncpy writes as many chars as it is told.
strncpy_overrun : (n : ℕ) (line dst : Bytes) → length dst < n → strncpy dst line n ≡ none
unfolding strncpy
strncpy_overrun n line dst h = elim (Option-cases (padded n line)) [
  | inl unended ↦ rw unended refl
  | inr (p, e) ↦ rw e (memcpy_at-overrun 0 p dst (omega (arith, length-padded n line e)))
]

-- The tests that lead to the last branch.
other-tests :
    (c : ℕ) (m : Bytes)
    → command_of c m ≡ other
    → ((c == b'E') ≡ false)
      × ((c == b'#') ≡ false)
      × ((c == b'C') ≡ false)
      × ((c == b'F') ≡ false)
      × ((c == b'A') ≡ false)
      × ((c == b'Q') ≡ false)
other-tests c m h = ground arith

echo-test : (c : ℕ) (m : Bytes) → command_of c m ≡ echo → (c == b'E') ≡ true
echo-test c m h = ground arith

module _ (e : Setup) (a : Answers) where
  echoer_overrun :
      (line : Bytes) (size : ℕ)
      → max_buffer + 1 < size
      → (echoer line size e.sockfd e.logfd a.sent).1 ≡ faulted out_of_bounds
  unfolding echoer
  echoer_overrun line size h =
      rw
        (strncpy_overrun size line (fresh (max_buffer + 1))
          (omega (arith, length-fresh (max_buffer + 1))))
        refl

  -- The message that is read behind a command held back, if both together are too long.
  later_overrun :
      (c : ℕ) (cs : Bytes) (s : Session)
      → (command (c ∷ cs) ≡ other) ⊎ (command (c ∷ cs) ≡ echo)
      → length s.ebuffer ≡ max_buffer + 1
      → 0 < s.esize
      → max_buffer + 1 < s.esize + length (c ∷ cs)
      → (handle e a c cs s).1 ≡ faulted out_of_bounds
  unfolding handle dispatch on_echo on_other join_echo flush
  later_overrun c cs s kind room held long =
      let m = c ∷ cs in
      let s' = record s { buffer = overwrite m s.buffer } in
      let some_held = lt→ltb 0 s.esize held in
      let size = s.esize + length m in
      elim kind [
        | inl last ↦
            let (t1, t2, t3, t4, t5, t6) = other-tests c m last in
            let no_room = memcpy_at-overrun s.esize m s.ebuffer (omega (arith, room, long)) in
            rw (t1, t2, t3, t4, t5, t6, some_held, no_room) refl
        | inr again_echo ↦
            let sent = echoer s.ebuffer size e.sockfd e.logfd a.sent in
            rw (echo-test c m again_echo, some_held)
              (faulted-bind (flush e a size s') (hold_back e m)
                (faulted-bind sent _ (echoer_overrun s.ebuffer size long)))
      ]

  held_lem :
      (cs : Bytes) (s : Session)
      → IsText (b'E' ∷ cs)
      → length (b'E' ∷ cs) < max_buffer
      → IsClean s.buffer
      → length s.ebuffer ≡ max_buffer + 1
      → s.esize ≡ 0
      → (s' : Session) × ((handle e a b'E' cs s).1 ≡ returned (again s'))
        × (length s'.ebuffer ≡ max_buffer + 1)
        × (s'.esize ≡ length (b'E' ∷ cs))
  unfolding handle dispatch on_echo hold_back
  held_lem cs s text short clean room none_held =
      let m = b'E' ∷ cs in
      let (rest, read) = message_terminated m s.buffer clean short in
      let copied : strcpy s.ebuffer (overwrite m s.buffer)
          ≡ some (m ++ 0 ∷ drop (suc (length m)) s.ebuffer) =
        ap (strcpy s.ebuffer) read
        ∙ strcpy_text s.ebuffer m rest text (omega (arith, room, short)) in
      (
        record s {
          buffer = overwrite m s.buffer;
          ebuffer = m ++ 0 ∷ drop (suc (length m)) s.ebuffer;
          esize = length m;
        },
        rw (none_held, copied) refl,
        omega (
          arith,
          length-append m (0 ∷ drop (suc (length m)) s.ebuffer),
          length-drop (suc (length m)) s.ebuffer,
          room,
          short,
        ),
        refl,
      )

-- Between two turns with no command held back: an E command of NUL-free chars, shorter than 2048, and
-- behind it an E command or a message that is no command and no comment, which together have more than
-- 2049 chars, make the process write outside an array, whatever follows, and whatever the kernel
-- answers.
pub serve_overrun :
    (e : Setup) (s : Session) (a b : Answers) (qs : Bytes) (c : ℕ) (cs : Bytes) (later : List Turn)
    → IsReady none s
    → IsText (b'E' ∷ qs)
    → length (b'E' ∷ qs) < max_buffer
    → (command (c ∷ cs) ≡ other) ⊎ (command (c ∷ cs) ≡ echo)
    → max_buffer + 1 < length (b'E' ∷ qs) + length (c ∷ cs)
    → (serve e s (
        record { input = got (b'E' ∷ qs); answers = a }
        ∷ record { input = got (c ∷ cs); answers = b }
        ∷ later)).1
      ≡ faulted out_of_bounds
unfolding serve
serve_overrun e s a b qs c cs later ready text short kind long =
    let (s', held, room, size) =
      held_lem e a qs s text short ready.clean ready.esize_bound ready.holds in
    returned-bind (handle e a b'E' qs s) _ held (
      faulted-bind (handle e b c cs (wipe s')) _ (
        later_overrun e b c cs (wipe s') kind room (omega (arith, size))
          (omega (arith, size, long))))
