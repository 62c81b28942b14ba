-- ===== src/Posix.antt =====
-- What a program does to the world, as a trace of the calls it makes, and how a run of it ends.
-- The kernel is not modelled: what its calls return are arguments of the definitions.
pub mod Accept
pub mod Dotted
pub mod Emits
pub mod Every
pub mod Output
pub mod Fifo
pub mod Forking
pub mod Stream
pub mod ReadLoop
use posix_network_programmin.Prelude.{
  ℕ, ◌+◌, ◌*◌, ◌/◌, ◌%◌, Bool, true, false, ◌==◌, ◌≡◌, refl, arith, if◌then◌else◌, List, [], ◌∷◌,
  ◌++◌, Option, none, some,
}
use posix_network_programmin.Cstring.{Bytes}

-- struct sockaddr_in; port and address are in network byte order, as stored.
pub record SockAddr : Type 0 where
  pub family : ℕ
  pub port : ℕ
  pub addr : ℕ

-- One call that reaches outside the process, with its arguments.
pub data Effect : Type 0 where
  write : (fd : ℕ) → Bytes → Effect  -- write(2), send(2)
  print : (fd : ℕ) → Bytes → Effect  -- printf, fprintf, dprintf, fputs
  perror : Bytes → (errno : ℕ) → Effect
  connect : (fd : ℕ) → SockAddr → Effect
  bind : (fd : ℕ) → SockAddr → Effect
  listen : (fd : ℕ) → (backlog : ℕ) → Effect
  close : (fd : ℕ) → Effect
  shutdown : (fd : ℕ) → (how : ℕ) → Effect
  kill_parent : (sig : ℕ) → Effect
  wait : Effect
  exec : (path : Bytes) → List Bytes → Effect  -- execv, with the words up to the null pointer
  create : (path : Bytes) → Effect  -- open with O_CREAT | O_WRONLY
  open_read : (path : Bytes) → Effect
  open_write : (path : Bytes) → Effect
  mkfifo : (path : Bytes) → Effect
  unlink : (path : Bytes) → Effect
  on_signal : (sig : ℕ) → Effect  -- sigaction

-- Undefined behaviour that a run meets.
pub data Fault : Type 0 where
  out_of_bounds null_pointer failed_assert : Fault

-- How a run ends; `blocked` is one that waits for the next answer of the kernel.
pub data Outcome {ℓ} (A : Type ℓ) : Type ℓ where
  returned : A → Outcome A
  exited : ℕ → Outcome A
  faulted : Fault → Outcome A
  blocked : Outcome A

abbrev pub Proc {ℓ} : Type ℓ → Type ℓ
Proc A = List Effect × Outcome A

infixl 5 ◌>>=◌ ◌>>◌
abbrev pub ◌>>=◌ {ℓ κ} : {A : Type ℓ} {B : Type κ} → Proc A → (A → Proc B) → Proc B
(es, returned a) >>= f = let rest = f a in (es ++ rest.0, rest.1)
(es, exited n) >>= f = (es, exited n)
(es, faulted x) >>= f = (es, faulted x)
(es, blocked) >>= f = (es, blocked)

abbrev pub ◌>>◌ {ℓ} : {B : Type ℓ} → Proc (Unit {0}) → Proc B → Proc B
m >> k = m >>= λ _. k

abbrev pub pure {ℓ} : {A : Type ℓ} → A → Proc A
pure a = ([], returned a)

abbrev pub call : Effect → Proc (Unit {0})
call e = (e ∷ [], returned tt)

abbrev pub exit {ℓ} : {A : Type ℓ} → ℕ → Proc A
exit n = ([], exited n)

abbrev pub fault {ℓ} : {A : Type ℓ} → Fault → Proc A
fault x = ([], faulted x)

-- What a trace writes to one descriptor, call by call.
unfoldable pub written : ℕ → List Effect → List Bytes
written fd [] = []
written fd (write f b ∷ es) = if f == fd then b ∷ written fd es else written fd es
written fd (e ∷ es) = written fd es

pub written-append :
    (fd : ℕ) (es fs : List Effect) → written fd (es ++ fs) ≡ written fd es ++ written fd fs
unfolding written
written-append fd [] fs = refl
written-append fd (write f b ∷ es) fs = ground (arith, written-append fd es fs)
written-append fd (e ∷ es) fs = written-append fd es fs

-- An access that must stay within its array.
abbrev pub checked {ℓ} : {A : Type ℓ} → Option A → Proc A
checked none = fault Fault.out_of_bounds
checked (some a) = pure a

-- What read(2) returns: the bytes, none of them at the end of the input, or the errno.
pub data ReadResult : Type 0 where
  got : Bytes → ReadResult
  failed : (errno : ℕ) → ReadResult

-- What a call returns, `none` for -1, and the value of errno after it.
pub record Answer : Type 0 where
  pub value : Option ℕ
  pub errno : ℕ

-- The tests `< 0` and `<= 0` of a returned number.
abbrev pub is_error : Answer → Bool
is_error a = elim a.value [ none ↦ true | some n ↦ false ]

abbrev pub is_error_or_zero : Answer → Bool
is_error_or_zero a = elim a.value [ none ↦ true | some n ↦ n == 0 ]

pub is_error-some : (a : Answer) {n : ℕ} → a.value ≡ some n → is_error a ≡ false
is_error-some a h = ground arith

-- The descriptor that a successful call returned.
abbrev pub descriptor : Answer → ℕ
descriptor a = elim a.value [ none ↦ 0 | some n ↦ n ]

pub descriptor-some : (a : Answer) {n : ℕ} → a.value ≡ some n → descriptor a ≡ n
descriptor-some a h = ground arith

abbrev pub stdin_fileno : ℕ
stdin_fileno = 0

abbrev pub stdout_fileno : ℕ
stdout_fileno = 1

abbrev pub stderr_fileno : ℕ
stderr_fileno = 2

abbrev pub exit_success : ℕ
exit_success = 0

abbrev pub exit_failure : ℕ
exit_failure = 1

abbrev pub af_inet : ℕ
af_inet = 2

-- On a little-endian machine, such as the programs ran on, the two bytes change places.
unfoldable pub htons : ℕ → ℕ
htons port = port % 256 * 256 + port / 256 % 256
