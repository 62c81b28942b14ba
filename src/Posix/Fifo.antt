-- ===== src/Posix/Fifo.antt =====
-- A pipe as pipe(7) describes it, for writes that each go through at once: the bytes come out in the
-- order of the writes, and a read takes what there is, up to its size.
use posix_network_programmin.Prelude.{
  zero, suc, ◌≤◌, length-drop, ℕ, ◌<◌, ◌≡◌, ◌≢◌, refl, sym, ap, ap₂, ◌∙◌, List, [], ◌∷◌, ◌++◌,
  arith, All, length, length-append, take, drop, take-append, drop-append, All-append,
  take-append-drop, append-nil, append_assoc,
}
use posix_network_programmin.Cstring.{Bytes}

abbrev pub concat : List Bytes → Bytes
concat [] = []
concat (b ∷ bs) = b ++ concat bs

-- From the writes to come and the bytes in the pipe, the reads of at most `n` bytes that follow, in
-- one of the orders that the two processes can take turns in.
pub data Delivers (n : ℕ) : List Bytes → Bytes → List Bytes → Type 0 where
  idle : Delivers n [] [] []
  sent :
      (w : Bytes) (ws : List Bytes) (held : Bytes) (rs : List Bytes)
      → Delivers n ws (held ++ w) rs
      → Delivers n (w ∷ ws) held rs
  received :
      (ws : List Bytes) (held : Bytes) (rs : List Bytes)
      → held ≢ []
      → Delivers n ws (drop n held) rs
      → Delivers n ws held (take n held ∷ rs)

-- No byte is lost, added or moved, in any order of the turns.
pub Delivers-concat :
    (n : ℕ) {ws rs : List Bytes} {held : Bytes}
    → Delivers n ws held rs
    → concat rs ≡ held ++ concat ws
Delivers-concat n idle = refl
Delivers-concat n (sent w ws held rs d) = Delivers-concat n d ∙ append_assoc held w (concat ws)
Delivers-concat n (received ws held rs ne d) =
    ap (λ b. take n held ++ b) (Delivers-concat n d)
    ∙ sym (append_assoc (take n held) (drop n held) (concat ws))
    ∙ ap (λ b. b ++ concat ws) (take-append-drop n held)

abbrev pub HasLength : ℕ → Bytes → Type 0
HasLength n b = length b ≡ n

take-block : (n : ℕ) (b rest : Bytes) → HasLength n b → take n (b ++ rest) ≡ b
take-block n b rest h = ap (λ k. take k (b ++ rest)) (sym h) ∙ take-append b rest

drop-block : (n : ℕ) (b rest : Bytes) → HasLength n b → drop n (b ++ rest) ≡ rest
drop-block n b rest h = ap (λ k. drop k (b ++ rest)) (sym h) ∙ drop-append b rest

concat-snoc : (bs : List Bytes) (w : Bytes) → concat (bs ++ w ∷ []) ≡ concat bs ++ w
concat-snoc [] w = append-nil w
concat-snoc (b ∷ bs) w = ap (λ t. b ++ t) (concat-snoc bs w) ∙ sym (append_assoc b (concat bs) w)

-- The same with whole blocks in the pipe.
Delivers-held :
    (n : ℕ) {ws rs : List Bytes} {held : Bytes} (bs : List Bytes)
    → 0 < n
    → Delivers n ws held rs
    → held ≡ concat bs
    → All (HasLength n) bs
    → All (HasLength n) ws
    → rs ≡ bs ++ ws
Delivers-held n [] pos idle e hb hw = refl
Delivers-held n (b ∷ bs) pos idle e hb hw =
    absurd (omega (arith, hb.0, ap length e, length-append b (concat bs)))
Delivers-held n bs pos (sent w ws held rs d) e hb hw =
    Delivers-held n (bs ++ w ∷ []) pos d (ap (λ h. h ++ w) e ∙ sym (concat-snoc bs w))
      (All-append (HasLength n) bs (w ∷ []) hb (hw.0, tt)) hw.1
    ∙ append_assoc bs (w ∷ []) ws
Delivers-held n [] pos (received ws held rs ne d) e hb hw = absurd (ne e)
Delivers-held n (b ∷ bs) pos (received ws held rs ne d) e hb hw =
    ap₂ ◌∷◌ (ap (take n) e ∙ take-block n b (concat bs) hb.0)
      (Delivers-held n bs pos d (ap (drop n) e ∙ drop-block n b (concat bs) hb.0) hb.1 hw)

-- If every write has the size that the reader asks for, every read is one write, in any order of the
-- turns.
pub Delivers-blocks :
    (n : ℕ) {ws rs : List Bytes} → 0 < n → Delivers n ws [] rs → All (HasLength n) ws → rs ≡ ws
Delivers-blocks n pos d hw = Delivers-held n [] pos d refl tt hw

-- What holds of every char that is written holds of every char that is read.
module _ (P : ℕ → Type 0) where
  All-take : (n : ℕ) (b : Bytes) → All P b → All P (take n b)
  All-take zero b h = tt
  All-take (suc n) [] h = tt
  All-take (suc n) (c ∷ cs) h = (h.0, All-take n cs h.1)

  All-drop : (n : ℕ) (b : Bytes) → All P b → All P (drop n b)
  All-drop zero b h = h
  All-drop (suc n) [] h = tt
  All-drop (suc n) (c ∷ cs) h = All-drop n cs h.1

  pub Delivers-All :
      (n : ℕ) {ws rs : List Bytes} {held : Bytes}
      → Delivers n ws held rs
      → All P held
      → All (All P) ws
      → All (All P) rs
  Delivers-All n idle h a = tt
  Delivers-All n (sent w ws held rs d) h a = Delivers-All n d (All-append P held w h a.0) a.1
  Delivers-All n (received ws held rs ne d) h a =
      (All-take n held h, Delivers-All n d (All-drop n held h) a)

-- No read is empty.
pub Delivers-some :
    (n : ℕ) {ws rs : List Bytes} {held : Bytes}
    → 0 < n
    → Delivers n ws held rs
    → All (λ r. 0 < length r) rs
Delivers-some n pos idle = tt
Delivers-some n pos (sent w ws held rs d) = Delivers-some n pos d
Delivers-some zero pos (received ws held rs ne d) = absurd (omega arith)
Delivers-some (suc n) pos (received ws [] rs ne d) = absurd (ne refl)
Delivers-some (suc n) pos (received ws (c ∷ cs) rs ne d) =
    (omega arith, Delivers-some (suc n) pos d)

Delivers-drain :
    (n fuel : ℕ) (held : Bytes)
    → 0 < n
    → length held ≤ fuel
    → (reads : List Bytes) × Delivers n [] held reads
Delivers-drain n fuel [] pos h = ([], idle)
Delivers-drain n zero (c ∷ cs) pos h = absurd (omega arith)
Delivers-drain n (suc fuel) (c ∷ cs) pos h =
    let held = c ∷ cs in
    let (reads, d) = Delivers-drain n fuel (drop n held) pos (omega (arith, length-drop n held)) in
    (take n held ∷ reads, received [] held reads (λ e. cc) d)

-- Two writes before the first read: that takes what it can of both.
pub Delivers-joined :
    (n : ℕ) (a b : Bytes)
    → 0 < n
    → a ++ b ≢ []
    → (reads : List Bytes) × Delivers n (a ∷ b ∷ []) [] (take n (a ++ b) ∷ reads)
Delivers-joined n a b pos ne =
    let (reads, d) =
      Delivers-drain n (length (drop n (a ++ b))) (drop n (a ++ b)) pos (omega arith) in
    (reads, sent a (b ∷ []) [] _ (sent b [] a _ (received [] (a ++ b) reads ne d)))
