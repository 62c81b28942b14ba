-- ===== src/Exercise/Client/Signals.antt =====
-- What the handler of SIGINT and SIGPIPE does.
use posix_network_programmin.Prelude.{
  ℕ, ◌≡◌, refl, [], ◌∷◌, ◌++◌, Bool-cases, inl, inr, ==_iff, ◌==◌, if◌then◌else◌, codes,
}
use posix_network_programmin.Cstring.{Bytes, c_str, strcat, memcpy_at, overwrite, fresh}
use posix_network_programmin.Posix.{write, wait, exited, exit_success, stdout_fileno}
use posix_network_programmin.Exercise.Client.{handle_signals, add_name, sigint, sigpipe}

-- The name of a signal, where the handler knows it.
abbrev pub name_of : ℕ → Bytes
name_of sig =
    if sig == sigpipe then codes "SIGPIPE\n" else if sig == sigint then codes "SIGINT\n" else []

-- For every signal: the text with the name of SIGPIPE or SIGINT, if it is one of these, is written, which
-- stays within the array of 64 chars; the handler waits for a child, and exits with success.
pub handle_signals_lem :
    (sig : ℕ)
    → handle_signals sig ≡ (
      write stdout_fileno (codes "Caugh signal:" ++ name_of sig) ∷ wait ∷ [],
      exited exit_success,
    )
unfolding handle_signals add_name strcat memcpy_at overwrite fresh c_str
handle_signals_lem sig = elim (Bool-cases (sig == sigpipe)) [
  | inl pipe ↦ let e : sig ≡ sigpipe = (==_iff sig sigpipe).0 pipe in rw e refl
  | inr not_pipe ↦ elim (Bool-cases (sig == sigint)) [
    | inl int ↦ let e : sig ≡ sigint = (==_iff sig sigint).0 int in rw e refl
    | inr not_int ↦ rw (not_pipe, not_int) refl
  ]
]
