-- ===== src/Semantic/Offsets.antt =====
-- The flat offset of an element against its mathematical value.
use nexc.Prelude.{ℕ, ◌+◌, ◌*◌, ◌<◌, List, [], ◌∷◌}

-- The number of elements, as a natural number.
unfoldable pub volume : List ℕ → ℕ
volume [] = 1
volume (d ∷ ds) = d * volume ds

-- Row-major order: the place of an element.
flat : List ℕ → List ℕ → ℕ
flat (d ∷ dims) (i ∷ indices) = i * volume dims + flat dims indices
flat _ _ = 0

-- Each dimension has its index, which lies inside.
data Inside : List ℕ → List ℕ → Type 0 where
  all_inside : Inside [] []
  one_inside :
      {d i : ℕ} {dims indices : List ℕ}
      → i < d
      → Inside dims indices
      → Inside (d ∷ dims) (i ∷ indices)
