-- ===== src/Posix/Output.antt =====
-- What a run puts on one descriptor, by write and send and by the functions of printf alike.
use posix_network_programmin.Prelude.{
  ℕ, ◌≡◌, ◌≢◌, refl, List, [], ◌∷◌, ◌++◌, All, arith, if◌then◌else◌, ◌==◌, ne→==,
}
use posix_network_programmin.Cstring.{Bytes}
use posix_network_programmin.Posix.{Effect, write, print, written}

unfoldable pub output : ℕ → List Effect → List Bytes
output fd [] = []
output fd (write f b ∷ es) = if f == fd then b ∷ output fd es else output fd es
output fd (print f b ∷ es) = if f == fd then b ∷ output fd es else output fd es
output fd (e ∷ es) = output fd es

pub output-append :
    (fd : ℕ) (es fs : List Effect) → output fd (es ++ fs) ≡ output fd es ++ output fd fs
unfolding output
output-append fd [] fs = refl
output-append fd (write f b ∷ es) fs = ground (arith, output-append fd es fs)
output-append fd (print f b ∷ es) fs = ground (arith, output-append fd es fs)
output-append fd (e ∷ es) fs = output-append fd es fs

-- A call of a function of printf goes elsewhere.
abbrev pub PrintsElsewhere : ℕ → Effect → Type 0
PrintsElsewhere fd (print f b) = f ≢ fd
PrintsElsewhere fd e = Unit

-- A call puts nothing on the descriptor.
abbrev pub Elsewhere : ℕ → Effect → Type 0
Elsewhere fd (write f b) = f ≢ fd
Elsewhere fd (print f b) = f ≢ fd
Elsewhere fd e = Unit

pub output-written :
    (fd : ℕ) (es : List Effect) → All (PrintsElsewhere fd) es → output fd es ≡ written fd es
unfolding output written
output-written fd [] h = refl
output-written fd (write f b ∷ es) h = ground (arith, output-written fd es h.1)
output-written fd (print f b ∷ es) h = rw (ne→== f fd h.0) (output-written fd es h.1)
output-written fd (_ ∷ es) h = output-written fd es h.1

pub Elsewhere-output : (fd : ℕ) (es : List Effect) → All (Elsewhere fd) es → output fd es ≡ []
unfolding output
Elsewhere-output fd [] h = refl
Elsewhere-output fd (write f b ∷ es) h = rw (ne→== f fd h.0) (Elsewhere-output fd es h.1)
Elsewhere-output fd (print f b ∷ es) h = rw (ne→== f fd h.0) (Elsewhere-output fd es h.1)
Elsewhere-output fd (_ ∷ es) h = Elsewhere-output fd es h.1
