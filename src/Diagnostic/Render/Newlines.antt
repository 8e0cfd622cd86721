-- ===== src/Diagnostic/Render/Newlines.antt =====
-- What `lineStart` and `lineEnd` say of the bytes between them.
use nexc.Prelude.{
  ℕ, zero, suc, ◌+◌, ◌≤◌, ◌<◌, Option, none, some, [], ◌∷◌, ◌≡◌, ◌≢◌, ◌⊎◌, inl, refl, arith, length,
  get_or, Bytes,
}
use nexc.Diagnostic.Render.{find, rfind}

-- The place behind what was found, or the start.
abbrev pub behind : Option ℕ → ℕ
behind none = 0
behind (some j) = j + 1

-- The place that was found, or the end.
abbrev pub up_to : Bytes → Option ℕ → ℕ
up_to xs none = length xs
up_to xs (some j) = j

pub rfind-clear :
    (xs : Bytes) (p i : ℕ) → i ≤ p → behind (rfind b'\n' xs p) ≤ i → get_or xs i 0 ≢ b'\n'
unfolding rfind
rfind-clear [] p i h k = ground arith
rfind-clear (x ∷ xs) zero zero h k = ground arith
rfind-clear (x ∷ xs) zero (suc i) h k = absurd (omega arith)
rfind-clear (x ∷ xs) (suc p) zero h k = ground arith
rfind-clear (x ∷ xs) (suc p) (suc i) h k = ground (arith, rfind-clear xs p i)

pub rfind-before : (xs : Bytes) (p : ℕ) → get_or xs p 0 ≢ b'\n' → behind (rfind b'\n' xs p) ≤ p
unfolding rfind
rfind-before [] p h = omega arith
rfind-before (x ∷ xs) zero h = ground arith
rfind-before (x ∷ xs) (suc p) h = ground (arith, rfind-before xs p h)

pub find-clear :
    (xs : Bytes) (p i : ℕ) → p ≤ i → i < up_to xs (find b'\n' xs p) → get_or xs i 0 ≢ b'\n'
unfolding find
find-clear [] p i h k = ground arith
find-clear (x ∷ xs) zero zero h k = ground arith
find-clear (x ∷ xs) zero (suc i) h k = ground (arith, find-clear xs zero i)
find-clear (x ∷ xs) (suc p) zero h k = absurd (omega arith)
find-clear (x ∷ xs) (suc p) (suc i) h k = ground (arith, find-clear xs p i)

pub find-later : (xs : Bytes) (p : ℕ) → p ≤ length xs → p ≤ up_to xs (find b'\n' xs p)
unfolding find
find-later [] p h = omega arith
find-later (x ∷ xs) zero h = omega arith
find-later (x ∷ xs) (suc p) h = ground (arith, find-later xs p)

pub find-inside : (xs : Bytes) (p : ℕ) → up_to xs (find b'\n' xs p) ≤ length xs
unfolding find
find-inside [] p = omega arith
find-inside (x ∷ xs) zero = ground (arith, find-inside xs zero)
find-inside (x ∷ xs) (suc p) = ground (arith, find-inside xs p)

pub find-ends :
    (xs : Bytes) (p : ℕ)
    → (up_to xs (find b'\n' xs p) ≡ length xs) ⊎ (get_or xs (up_to xs (find b'\n' xs p)) 0 ≡ b'\n')
unfolding find
find-ends [] p = inl refl
find-ends (x ∷ xs) zero = ground (arith, find-ends xs zero)
find-ends (x ∷ xs) (suc p) = ground (arith, find-ends xs p)
