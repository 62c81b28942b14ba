-- ===== src/Reports.antt =====
-- week1/teht1.c and teht3.c: programs that print what the kernel says of a process and of a file.
pub mod Elapsed
mod Tests
use posix_network_programmin.Prelude.{
  ℕ, zero, suc, ◌+◌, ◌-◌, ◌/◌, ◌%◌, List, [], ◌∷◌, ◌++◌, Option, none, some, ltb, leb,
  if◌then◌else◌, codes,
}
use posix_network_programmin.Cstring.{Bytes, decimal, print_int}
use posix_network_programmin.Posix.{
  Proc, pure, call, exit, fault, null_pointer, ◌>>=◌, ◌>>◌, print, stdout_fileno, exit_success,
  exit_failure,
}

-- struct timeval
pub record Timeval : Type 0 where
  pub sec : ℕ
  pub usec : ℕ

-- "%ld" of the difference of two microseconds, which is negative if the second is the smaller
unfoldable pub usec_between : Timeval → Timeval → Bytes
usec_between t0 t1 =
    if leb t0.usec t1.usec then decimal (t1.usec - t0.usec) else b'-' ∷ decimal (t0.usec - t1.usec)

unfoldable pub time_line : Timeval → Timeval → Bytes
unfolding usec_between
time_line t0 t1 = codes "Time: " ++ (usec_between t0 t1 ++ codes "ms \n\n")

-- sizeof (*envp) / sizeof (**envp): the sizes of a pointer and of a char
abbrev pub env_count : ℕ
env_count = 8 / 1

unfoldable pub print_env : List Bytes → Proc (Unit {0})
print_env [] = pure tt
print_env (variable ∷ envp) = do call (print stdout_fileno (variable ++ codes "\n")); print_env envp

-- What the kernel answers: the process, its parent, and the four times.
pub record Process : Type 0 where
  pub pid : ℕ
  pub parent_pid : ℕ
  pub before_ids : Timeval
  pub after_ids : Timeval
  pub before_env : Timeval
  pub after_env : Timeval

-- `main` of week1/teht1.c, with the variables up to the null pointer
unfoldable pub process_main : Process → List Bytes → Proc ℕ
unfolding time_line print_env
process_main p envp = do
  call (print stdout_fileno (codes "The process id is " ++ (print_int p.pid ++ codes "\n")))
  call (
      print stdout_fileno
        (codes "The parent process id is " ++ (print_int p.parent_pid ++ codes "\n")))
  call (print stdout_fileno (time_line p.before_ids p.after_ids))
  call (
      print stdout_fileno
        (codes "Count of enviroment  variables: " ++ (decimal env_count ++ codes "\n")))
  call (print stdout_fileno (codes "Enviroment variables:\n"))
  print_env envp
  call (print stdout_fileno (time_line p.before_env p.after_env))
  pure exit_success

-- struct stat, as far as it is printed
pub record FileInfo : Type 0 where
  pub st_mode : ℕ
  pub st_uid : ℕ
  pub st_blksize : ℕ

-- The octal digits of `n` in front of `acc`
unfoldable pub octal_onto : ℕ → ℕ → Bytes → Bytes
octal_onto zero n acc = acc
octal_onto (suc f) n acc =
    let more = octal_onto f (n / 8) ((b'0' + n % 8) ∷ acc) in
    if ltb n 8 then (b'0' + n) ∷ acc else more

-- "%o"
unfoldable pub octal : ℕ → Bytes
unfolding octal_onto
octal n = octal_onto (suc n) n []

unfoldable pub print_info : Option FileInfo → Proc ℕ
unfolding octal
print_info none = pure exit_failure
print_info (some i) = do
  call (print stdout_fileno (codes "File type: " ++ (octal i.st_mode ++ codes "\n")))
  call (print stdout_fileno (codes "Owner id: " ++ (print_int i.st_uid ++ codes "\n")))
  call (print stdout_fileno (codes "Block size: " ++ (decimal i.st_blksize ++ codes "\n")))
  pure exit_success

-- `main` of week1/teht3.c; `stat` answers for the path of a file, `none` for -1
unfoldable pub stat_main : (Bytes → Option FileInfo) → List Bytes → Proc ℕ
unfolding print_info
stat_main stat (program ∷ path ∷ []) = print_info (stat path)
stat_main stat (program ∷ rest) = do
  call (print stdout_fileno (codes "Usage: " ++ (program ++ codes " <pathname>\n")))
  exit exit_failure
stat_main stat [] = fault null_pointer
