-- ===== src/Exercise/Reply/Transfer.antt =====
-- What `filetransfer` sends. Its copy loop compares a char with EOF.
use posix_network_programmin.Prelude.{
  ℕ, suc, ◌+◌, ◌<◌, ◌^◌, ◌≡◌, ◌≢◌, refl, ap, ◌∙◌, [], ◌∷◌, ◌++◌, none, some, true, arith,
  if◌then◌else◌, length, length-append, ne→==, append-nil, append_assoc, ◌==◌, codes, All,
}
use posix_network_programmin.Cstring.{Bytes, fresh, decimal, digits_value, print_int, atol_int}
use posix_network_programmin.Cstring.Laws.{length-fresh, strcpy_text, c_str-append}
use posix_network_programmin.Cstring.Decimal.{
  IsDigit, atol_int-decimal, decimal-IsDigit, decimal-ne-nil,
}
use posix_network_programmin.Posix.{
  returned, faulted, out_of_bounds, write, print, connect, close, is_error-some, descriptor-some,
  htons, af_inet, stdout_fileno, exit_success, pure,
}
use posix_network_programmin.Exercise.Split.{line_size, split}
use posix_network_programmin.Exercise.Split.Laws.{join, IsWord, IsWord-IsText, split-join}
use posix_network_programmin.Exercise.Reply.{
  max_buffer, eof_char, copy_loop, Answers, send_file, filetransfer,
}

-- The last char of a text, or `ch` for the empty text.
abbrev pub last_char : ℕ → Bytes → ℕ
last_char ch [] = ch
last_char ch (c ∷ cs) = last_char c cs

copy_loop-suc :
    (i filesize ch : ℕ) (file out : Bytes)
    → i + length file ≡ filesize
    → copy_loop (suc (length file)) filesize i ch file out
      ≡ (if last_char ch file == eof_char then none else some (out ++ file))
unfolding copy_loop
copy_loop-suc i filesize ch [] out h = rw append-nil (ground arith)
copy_loop-suc i filesize ch (c ∷ cs) out h = ground (
  arith,
  copy_loop-suc (i + 1) filesize c cs (out ++ c ∷ []) (omega arith),
  append_assoc out (c ∷ []) cs,
)

-- In an array of one cell more than the file has chars, the copy loop copies the whole file, or
-- writes outside the array if the last char of the file (`ch` itself for an empty file) is 0xff.
pub copy_loop_lem :
    (ch : ℕ) (file : Bytes)
    → copy_loop (length file + 1) (length file) 0 ch file []
      ≡ (if last_char ch file == eof_char then none else some file)
copy_loop_lem ch file =
    let e : length file + 1 ≡ suc (length file) = omega arith in
    rw e (copy_loop-suc 0 (length file) ch file [] (omega arith))

-- Every call of the library and the kernel succeeds, and the file is there.
pub record Succeeds (a : Answers) (path content : Bytes) (fd : ℕ) : Type 0 where
  pub allocated : a.allocated ≡ true
  pub sent : (n : ℕ) × (a.sent.value ≡ some n)
  pub socket : a.socket.value ≡ some fd
  pub connected : (n : ℕ) × (a.connected.value ≡ some n)
  pub file : a.file path ≡ some content

send_file_lem :
    (sockfd fd : ℕ) (content : Bytes) (a : Answers) (n : ℕ)
    → a.sent.value ≡ some n
    → last_char a.ch content ≢ eof_char
    → send_file sockfd fd content a ≡ (
      write sockfd (decimal (length content) ++ codes "\n")
          ∷ print stdout_fileno
              (codes "Filetransfer read " ++ (print_int (length content) ++ codes " bytes\n"))
          ∷ write fd content
          ∷ close fd
          ∷ [],
      returned exit_success,
    )
unfolding send_file
send_file_lem sockfd fd content a n e h =
    rw (
      copy_loop_lem a.ch content,
      ne→== (last_char a.ch content) eof_char h,
      is_error-some a.sent e,
    )

digits-IsWord :
    (s rest : Bytes)
    → All IsDigit s
    → All (λ c. (c ≢ 0) × (c ≢ 0x20)) rest
    → All (λ c. (c ≢ 0) × (c ≢ 0x20)) (s ++ rest)
digits-IsWord [] rest h r = r
digits-IsWord (c ∷ cs) rest h r = (omega arith, digits-IsWord cs rest h.1 r)

append-ne-nil : (s rest : Bytes) → s ≢ [] → s ++ rest ≢ []
append-ne-nil [] rest h e = absurd (h refl)
append-ne-nil (c ∷ cs) rest h e = cc

port-IsWord : (port : ℕ) → IsWord 0x20 (decimal port ++ codes "\n")
port-IsWord port = (
  append-ne-nil (decimal port) (codes "\n") (decimal-ne-nil port),
  digits-IsWord (decimal port) (codes "\n") (decimal-IsDigit port) (omega arith, tt),
)

atol_int-port : (port : ℕ) → port < 2 ^ 16 → atol_int (decimal port ++ codes "\n") ≡ port
unfolding digits_value
atol_int-port port h = atol_int-decimal port (codes "\n") (omega arith) refl

-- The command "F <path> <port>", as the service sends it.
abbrev pub command : Bytes → ℕ → Bytes
command path port = join 0x20 (codes "F" ∷ path ∷ (decimal port ++ codes "\n") ∷ [])

split-command :
    (a : Answers) (port : ℕ) (path rest : Bytes)
    → a.allocated ≡ true
    → IsWord 0x20 path
    → length (command path port) < line_size
    → split a.allocated (command path port ++ 0 ∷ rest) 0x20
      ≡ pure (some (codes "F" ∷ path ∷ (decimal port ++ codes "\n") ∷ []))
split-command a port path rest e w h =
    ap (λ b. split b (command path port ++ 0 ∷ rest) 0x20) e
    ∙ split-join 0x20 (codes "F") (path ∷ (decimal port ++ codes "\n") ∷ []) rest (omega arith)
        ((λ n. cc, (omega arith, tt)), (w, (port-IsWord port, tt))) h

filetransfer-send_file :
    (sockfd client_ip fd port : ℕ) (path content rest : Bytes) (a : Answers)
    → IsWord 0x20 path
    → port < 2 ^ 16
    → length (command path port) < line_size
    → Succeeds a path content fd
    → filetransfer sockfd (command path port ++ 0 ∷ rest) client_ip a ≡ (
      print stdout_fileno (codes "Filetransfer port :" ++ (print_int port ++ codes "\n"))
          ∷ connect fd (record { family = af_inet; port = htons port; addr = client_ip })
          ∷ (send_file sockfd fd content a).0,
      (send_file sockfd fd content a).1,
    )
unfolding filetransfer
filetransfer-send_file sockfd client_ip fd port path content rest a w p h s =
    let short = length-append path (0x20 ∷ decimal port ++ codes "\n") in
    let text = IsWord-IsText 0x20 path w.1 in
    rw (
      split-command a port path rest s.allocated w h,
      strcpy_text (fresh (max_buffer + 1)) path [] text
          (omega (arith, short, length-fresh (max_buffer + 1))),
      c_str-append path _ text,
      atol_int-port port p,
      is_error-some a.socket s.socket,
      is_error-some a.connected s.connected.1,
      descriptor-some a.socket s.socket,
      s.file,
    )

-- On the command "F <path> <port>" of fewer than 256 chars, with one word for a path, a port below
-- 65536, every call successful and a last char other than 0xff: the new connection to that port of the
-- peer's address is made first; then the reply is the size of the file, on the connection that asked;
-- the content goes over the new connection, which is closed. These and two reports on the standard output
-- are all the calls, and the result is success.
pub filetransfer_lem :
    (sockfd client_ip fd port : ℕ) (path content rest : Bytes) (a : Answers)
    → IsWord 0x20 path
    → port < 2 ^ 16
    → length (command path port) < line_size
    → Succeeds a path content fd
    → last_char a.ch content ≢ eof_char
    → filetransfer sockfd (command path port ++ 0 ∷ rest) client_ip a ≡ (
      print stdout_fileno (codes "Filetransfer port :" ++ (print_int port ++ codes "\n"))
          ∷ connect fd (record { family = af_inet; port = htons port; addr = client_ip })
          ∷ write sockfd (decimal (length content) ++ codes "\n")
          ∷ print stdout_fileno
              (codes "Filetransfer read " ++ (print_int (length content) ++ codes " bytes\n"))
          ∷ write fd content
          ∷ close fd
          ∷ [],
      returned exit_success,
    )
filetransfer_lem sockfd client_ip fd port path content rest a w p h s last = rw (
  filetransfer-send_file sockfd client_ip fd port path content rest a w p h s,
  send_file_lem sockfd fd content a s.sent.0 s.sent.1 last,
)

-- On the command "F <path> <port>" of fewer than 256 chars, with one word for a path, a port below
-- 65536, every call successful, but a file whose last char is 0xff: `filetransfer` announces the
-- size and then writes outside `filebuf`; nothing of the content is sent.
pub filetransfer_overrun :
    (sockfd client_ip fd port : ℕ) (path content rest : Bytes) (a : Answers)
    → IsWord 0x20 path
    → port < 2 ^ 16
    → length (command path port) < line_size
    → Succeeds a path content fd
    → last_char a.ch content ≡ eof_char
    → filetransfer sockfd (command path port ++ 0 ∷ rest) client_ip a ≡ (
      print stdout_fileno (codes "Filetransfer port :" ++ (print_int port ++ codes "\n"))
          ∷ connect fd (record { family = af_inet; port = htons port; addr = client_ip })
          ∷ write sockfd (decimal (length content) ++ codes "\n")
          ∷ [],
      faulted out_of_bounds,
    )
unfolding send_file
filetransfer_overrun sockfd client_ip fd port path content rest a w p h s last = rw (
  filetransfer-send_file sockfd client_ip fd port path content rest a w p h s,
  copy_loop_lem a.ch content,
  last,
  is_error-some a.sent s.sent.1,
)
