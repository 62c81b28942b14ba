-- ===== src/Cstring/Remains.antt =====
-- A text that is read over a longer one in the same array.
use posix_network_programmin.Prelude.{
  ℕ, zero, suc, ◌≤◌, ◌≡◌, refl, sym, ap, ◌∙◌, [], ◌∷◌, ◌++◌, arith, length, length-append, drop,
  append_assoc,
}
use posix_network_programmin.Cstring.Array.{Bytes, overwrite}
use posix_network_programmin.Cstring.Laws.{IsText, overwrite-eq}

pub drop-front : (k : ℕ) (s t : Bytes) → k ≤ length s → drop k (s ++ t) ≡ drop k s ++ t
drop-front zero s t h = refl
drop-front (suc k) [] t h = absurd (omega arith)
drop-front (suc k) (c ∷ cs) t h = drop-front k cs t (omega arith)

pub drop-IsText : (k : ℕ) (s : Bytes) → IsText s → IsText (drop k s)
drop-IsText zero s t = t
drop-IsText (suc k) [] t = tt
drop-IsText (suc k) (c ∷ cs) t = drop-IsText k cs t.1

pub overwrite-shorter :
    (old new tail : Bytes)
    → length new ≤ length old
    → overwrite new (old ++ 0 ∷ tail) ≡ (new ++ drop (length new) old) ++ 0 ∷ tail
overwrite-shorter old new tail h =
    overwrite-eq new (old ++ 0 ∷ tail) (omega (arith, length-append old (0 ∷ tail)))
    ∙ ap (λ t. new ++ t) (drop-front (length new) old (0 ∷ tail) h)
    ∙ sym (append_assoc new (drop (length new) old) (0 ∷ tail))
