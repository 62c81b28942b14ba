-- ===== src/Processes/Concat.antt =====
-- The word that week2/testPipe.c hands over, with the fixed string behind it.
use posix_network_programmin.Prelude.{
  ℕ, ◌+◌, ◌<◌, ◌≤◌, ◌≡◌, ◌≢◌, refl, sym, ap, ◌∙◌, [], ◌∷◌, ◌++◌, some, arith, All-append, length,
  length-append, length-take, length-drop, take, drop, take-append-drop, append_assoc, codes, leb,
  leb→le, if◌then◌else◌, Bool-cases, inl, inr,
}
use posix_network_programmin.Cstring.{Bytes, c_str, overwrite, memcpy_at}
use posix_network_programmin.Cstring.Laws.{
  IsText, c_str-append, overwrite-eq, memcpy_at-append, memcpy_at-overrun,
}
use posix_network_programmin.Posix.{
  exited, faulted, out_of_bounds, got, print, close, stdout_fileno, exit_success,
}
use posix_network_programmin.Processes.{filled_by, fixed_str, join_fixed}

-- The array of the new process after the word arrived.
arrived :
    (word buf : Bytes)
    → length word + 1 ≤ length buf
    → overwrite (word ++ 0 ∷ []) buf ≡ word ++ 0 ∷ drop (length (word ++ 0 ∷ [])) buf
arrived word buf h =
    overwrite-eq (word ++ 0 ∷ []) buf (omega (arith, length-append word (0 ∷ [])))
    ∙ append_assoc word (0 ∷ []) _

memcpy_at-tail :
    (front src rest : Bytes)
    → length src ≤ length rest
    → memcpy_at (length front) src (front ++ rest) ≡ some (front ++ (src ++ drop (length src) rest))
memcpy_at-tail front src rest h =
    ap (λ r. memcpy_at (length front) src (front ++ r)) (sym (take-append-drop (length src) rest))
    ∙ memcpy_at-append front src (take (length src) rest) (drop (length src) rest)
        (omega (arith, length-take (length src) rest))

-- What the read leaves behind the word, with the NUL.
abbrev behind : Bytes → Bytes → Bytes
behind word buf = 0 ∷ drop (length (word ++ 0 ∷ [])) buf

length-behind :
    (word buf : Bytes)
    → length word + 1 ≤ length buf
    → length (behind word buf) + length word ≡ length buf
length-behind word buf h =
    omega (arith, length-append word (0 ∷ []), length-drop (length (word ++ 0 ∷ [])) buf)

join_fixed-word :
    (fd0 fd1 : ℕ) (word buf : Bytes)
    → IsText word
    → length word ≤ 87
    → length buf ≡ 100
    → join_fixed fd0 fd1 (got (word ++ 0 ∷ [])) buf ≡ (
      close fd1
          ∷ close fd0
          ∷ print stdout_fileno
              (codes "Concatenated string " ++ ((word ++ fixed_str) ++ codes "\n"))
          ∷ [],
      exited exit_success,
    )
unfolding join_fixed
join_fixed-word fd0 fd1 word buf t short size =
    let rest = behind word buf in
    let src = fixed_str ++ 0 ∷ [] in
    let room = length-behind word buf (omega arith) in
    let left = drop (length src) rest in
    let joined : c_str (word ++ (src ++ left)) ≡ some (word ++ fixed_str) =
      ap c_str (sym (append_assoc word fixed_str (0 ∷ left)))
      ∙ c_str-append (word ++ fixed_str) left
          (All-append (λ c. c ≢ 0) word fixed_str t (omega arith)) in
    rw
      (
        filled_by,
        arrived word buf (omega arith),
        c_str-append word _ t,
        memcpy_at-tail word src rest (omega arith),
        joined,
      )
      refl

join_fixed-overrun :
    (fd0 fd1 : ℕ) (word buf : Bytes)
    → IsText word
    → 88 ≤ length word
    → length word ≤ 99
    → length buf ≡ 100
    → join_fixed fd0 fd1 (got (word ++ 0 ∷ [])) buf ≡ (close fd1 ∷ [], faulted out_of_bounds)
unfolding join_fixed
join_fixed-overrun fd0 fd1 word buf t long short size =
    let rest = behind word buf in
    rw
      (
        filled_by,
        arrived word buf (omega arith),
        c_str-append word _ t,
        memcpy_at-overrun (length word) (fixed_str ++ 0 ∷ []) (word ++ rest)
            (omega (arith, length-append word rest, length-behind word buf (omega arith))),
      )
      refl

-- A word of NUL-free chars, fewer than 100, arrives whole with its NUL in the array of 100 chars. If it
-- has 87 at most, the new process prints it with the fixed string behind it, and exits with success;
-- otherwise it writes outside the array.
pub join_fixed_lem :
    (fd0 fd1 : ℕ) (word buf : Bytes)
    → IsText word
    → length word < 100
    → length buf ≡ 100
    → join_fixed fd0 fd1 (got (word ++ 0 ∷ [])) buf ≡ (
        if leb (length word) 87
        then (
          close fd1
              ∷ close fd0
              ∷ print stdout_fileno
                  (codes "Concatenated string " ++ ((word ++ fixed_str) ++ codes "\n"))
              ∷ [],
          exited exit_success,
        )
        else (close fd1 ∷ [], faulted out_of_bounds))
join_fixed_lem fd0 fd1 word buf t short size = elim (Bool-cases (leb (length word) 87)) [
  | inl fits ↦ rw fits (join_fixed-word fd0 fd1 word buf t (leb→le (length word) 87 fits) size)
  | inr long ↦
      let over : 88 ≤ length word = ground arith in
      rw long (join_fixed-overrun fd0 fd1 word buf t over (omega arith) size)
]
