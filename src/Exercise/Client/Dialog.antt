-- ===== src/Exercise/Client/Dialog.antt =====
-- What the client says to the service, message by message.
use posix_network_programmin.Prelude.{
  ℕ, ◌+◌, ◌%◌, ◌≤◌, ◌≡◌, ◌≢◌, refl, sym, ap, ◌∙◌, append-nil, true, List, [], ◌∷◌, ◌++◌, arith,
  length, take, take-nil, ◌==◌, codes,
}
use posix_network_programmin.Cstring.{Bytes, int_mod}
use posix_network_programmin.Posix.{blocked, written, stdout_fileno}
use posix_network_programmin.Exercise.Connection.Invariant.{IsClean}
use posix_network_programmin.Exercise.Client.{Message, Client, dialog}
use posix_network_programmin.Exercise.Client.Turns.{greeting, AreExpected, heard, dialog-append}

abbrev pub said : ℕ → List Message → List Bytes
said n [] = []
said n (m ∷ ms) = greeting n ++ said ((n + 1) % int_mod) ms

greeting-late : (n : ℕ) → 2 ≤ n → greeting n ≡ []
greeting-late n h = ground arith

said-late : (ms : List Message) (n : ℕ) → 2 ≤ n → n + length ms ≤ int_mod → said n ms ≡ []
said-late [] n h top = refl
said-late (m ∷ []) n h top = rw (greeting-late n h) refl
said-late (m ∷ m' ∷ ms) n h top =
    let next : (n + 1) % int_mod ≡ n + 1 = omega arith in
    rw (greeting-late n h, next) (said-late (m' ∷ ms) (n + 1) (omega arith) (omega arith))

said-zero :
    (ms : List Message)
    → length ms ≤ int_mod
    → said 0 ms ≡ take (length ms) (codes "HELLO\n" ∷ codes "joonahal\n" ∷ [])
said-zero [] h = refl
said-zero (m ∷ []) h = refl
said-zero (m ∷ m' ∷ ms) h =
    rw (said-late ms 2 (omega arith) (omega arith), take-nil (length ms)) refl

module _ (c : Client) (apart : stdout_fileno ≢ c.sockfd) where
  heard-said : (n : ℕ) (ms : List Message) → heard c c.sockfd apart n ms ≡ said n ms
  heard-said n [] = refl
  heard-said n (m ∷ ms) =
      let same : (c.sockfd == c.sockfd) ≡ true = ground arith in
      rw (same, heard-said ((n + 1) % int_mod) ms) refl

  -- From any first value of `n`, each message is answered by its number, and the client waits on.
  dialog-said :
      (ms : List Message) (n : ℕ) (buffer : Bytes)
      → AreExpected n ms
      → IsClean buffer
      → (written c.sockfd (dialog c n buffer ms).0 ≡ said n ms)
        × ((dialog c n buffer ms).1 ≡ blocked)
  unfolding dialog written
  dialog-said ms n buffer h clean =
      let (cleared, ready, texts, end) = dialog-append c c.sockfd apart ms [] n buffer h clean in
      (
        ap (λ l. written c.sockfd (dialog c n buffer l).0) (sym (append-nil ms))
            ∙ texts
            ∙ append-nil (heard c c.sockfd apart n ms)
            ∙ heard-said n ms,
        ap (λ l. (dialog c n buffer l).1) (sym (append-nil ms)) ∙ end,
      )

  -- On messages of NUL-free chars, not empty and shorter than 2048, of which the fifth names a port
  -- and gets a new process: a client whose counter starts at 0 answers the first with HELLO and the
  -- second with the login name, sends nothing more on its socket (which is not the standard output),
  -- and waits for the next message. The messages are 2^32 at most, and the buffer is set to 0.
  pub dialog-zero :
      (ms : List Message) (buffer : Bytes)
      → AreExpected 0 ms
      → length ms ≤ int_mod
      → IsClean buffer
      → (written c.sockfd (dialog c 0 buffer ms).0
          ≡ take (length ms) (codes "HELLO\n" ∷ codes "joonahal\n" ∷ []))
        × ((dialog c 0 buffer ms).1 ≡ blocked)
  dialog-zero ms buffer h few clean =
      let run = dialog-said ms 0 buffer h clean in (run.0 ∙ said-zero ms few, run.1)
