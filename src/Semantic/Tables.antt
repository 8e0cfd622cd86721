-- ===== src/Semantic/Tables.antt =====
-- `std::unordered_map` as an association list, and `std::unordered_set` as a list. The analyzer
-- never depends on the order in which it meets the entries.
use nexc.Prelude.{ℕ, Bool, true, false, Option, none, some, List, [], ◌∷◌, if◌then◌else◌, ◌==◌}

module _ {K V : Type 0} (same_key : K → K → Bool) where
  -- `find`, and `at` of what it finds.
  unfoldable pub find : K → List (K × V) → Option V
  find k [] = none
  find k ((key, v) ∷ rest) = if same_key key k then some v else find k rest

  unfoldable pub erase : K → List (K × V) → List (K × V)
  erase k [] = []
  erase k ((key, v) ∷ rest) =
      let others = erase k rest in if same_key key k then others else (key, v) ∷ others

  -- `insert_or_assign`
  unfoldable pub assign : K → V → List (K × V) → List (K × V)
  assign k v table = (k, v) ∷ erase k table

-- Sets of binding ids.
unfoldable pub contains : ℕ → List ℕ → Bool
contains i [] = false
contains i (x ∷ xs) = if x == i then true else contains i xs

unfoldable pub remove : ℕ → List ℕ → List ℕ
remove i [] = []
remove i (x ∷ xs) = let others = remove i xs in if x == i then others else x ∷ others

unfoldable pub insert : ℕ → List ℕ → List ℕ
insert i xs = if contains i xs then xs else i ∷ xs

-- `intersectDefAssign`
unfoldable pub intersect_def_assign : List ℕ → List ℕ → List ℕ
intersect_def_assign [] ys = []
intersect_def_assign (x ∷ xs) ys =
    let rest = intersect_def_assign xs ys in if contains x ys then x ∷ rest else rest
