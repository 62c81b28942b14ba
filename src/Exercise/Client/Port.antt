-- ===== src/Exercise/Client/Port.antt =====
-- At which port the client starts its server.
use posix_network_programmin.Prelude.{
  ℕ, zero, suc, ◌^◌, ◌<◌, ◌≡◌, refl, ap, ◌∙◌, sym, true, List, [], ◌∷◌, ◌++◌, some, arith, All,
  length, get_elem?, codes, append-nil,
}
use posix_network_programmin.Cstring.{Bytes, atol_int, decimal, digits_value, print_int}
use posix_network_programmin.Posix.{
  exit, pure, call, ◌>>=◌, ◌>>◌, written, print, close, stdout_fileno, exit_success,
}
use posix_network_programmin.Posix.Emits.{Emits}
use posix_network_programmin.Posix.Accept.{in_child, in_parent}
use posix_network_programmin.Cstring.Decimal.{atol_int-decimal}
use posix_network_programmin.Exercise.Split.{line_size, split, entry}
use posix_network_programmin.Exercise.Split.Laws.{join, IsWord, split-join}
use posix_network_programmin.Exercise.Server.{child_server}
use posix_network_programmin.Exercise.Client.{Message, Client, start_server, read_port}

pub entry-get_elem? :
    (ts : List Bytes) (i : ℕ) {t : Bytes} → get_elem? ts i ≡ some t → entry (some ts) i ≡ pure t
unfolding entry
entry-get_elem? [] i h = cc
entry-get_elem? (x ∷ xs) zero h = ground arith
entry-get_elem? (x ∷ xs) (suc i) h = entry-get_elem? xs i h

-- A word that holds a port and nothing else.
atol_int-only : (port : ℕ) → port < 2 ^ 16 → atol_int (decimal port) ≡ port
unfolding digits_value
atol_int-only port h =
    ap atol_int (sym (append-nil (decimal port))) ∙ atol_int-decimal port [] (omega arith) refl

-- A message of words with single spaces between them, the twelfth of them the port in decimal.
pub record NamesPort (text : Bytes) (port : ℕ) : Type 0 where
  pub first : Bytes
  pub others : List Bytes
  pub shape : text ≡ join 0x20 (first ∷ others)
  pub proper : All (IsWord 0x20) (first ∷ others)
  pub short : length text < line_size
  pub twelfth : get_elem? (first ∷ others) 11 ≡ some (decimal port)
  pub range : port < 2 ^ 16

split-NamesPort :
    (text rest : Bytes) (port : ℕ) (p : NamesPort text port)
    → split true (text ++ 0 ∷ rest) 0x20 ≡ pure (some (p.first ∷ p.others))
split-NamesPort text rest port p =
    ap (λ x. split true (x ++ 0 ∷ rest) 0x20) p.shape
    ∙ split-join 0x20 p.first p.others rest (omega arith) p.proper (rw p.shape at p.short)

module _ (c : Client) (m : Message) (text rest : Bytes) (port : ℕ) where
  -- The port is read off the message, printed, and handed to the process that fork gives.
  pub read_port_lem :
      m.allocated ≡ true
      → NamesPort text port
      → read_port c (text ++ 0 ∷ rest) m ≡ (
          call (print stdout_fileno (codes "\n PORT: " ++ (print_int port ++ codes " \n")))
          >> start_server c port m m.forked)
  unfolding read_port
  read_port_lem alloc p =
      let line = text ++ 0 ∷ rest in
      let whole : split m.allocated line 0x20 ≡ pure (some (p.first ∷ p.others)) =
        ap (λ b. split b line 0x20) alloc ∙ split-NamesPort text rest port p in
      rw (whole, entry-get_elem? (p.first ∷ p.others) 11 p.twelfth, atol_int-only port p.range)

  -- On a message of fewer than 256 chars whose twelfth word is a port below 65536 in decimal, with
  -- malloc successful: in the new process the port is printed, the client's socket closed, and the
  -- server started at that port; when it returns the process ends with success.
  pub read_port-in_child :
      m.allocated ≡ true
      → m.forked ≡ in_child
      → NamesPort text port
      → read_port c (text ++ 0 ∷ rest) m ≡ (
          call (print stdout_fileno (codes "\n PORT: " ++ (print_int port ++ codes " \n")))
          >> (call (close c.sockfd)
              >> (child_server port c.logs m.socket m.bound m.arrivals >>= λ _. exit exit_success)))
  unfolding start_server
  read_port-in_child alloc fork p = read_port_lem alloc p ∙ rw fork

  pub read_port-Emits :
      (fd pid : ℕ)
      → m.allocated ≡ true
      → m.forked ≡ in_parent pid
      → NamesPort text port
      → Emits fd [] tt (read_port c (text ++ 0 ∷ rest) m)
  unfolding start_server written
  read_port-Emits fd pid alloc fork p = rw (read_port_lem alloc p, fork) (refl, refl)
