-- ===== src/Semantic/Signatures/Entries.antt =====
-- Reading tables of names behind `insert_or_assign`.
use nexc.Prelude.{
  ◌≡◌, ◌≢◌, refl, sym, ap, ◌∙◌, true, false, none, some, List, [], ◌∷◌, Bytes, same, same_iff,
  Bool-cases, inl, inr, arith, if◌then◌else◌,
}
use nexc.Semantic.Tables.{find, erase, assign}

same_refl : (x : Bytes) → same x x ≡ true
same_refl x = (same_iff x x).1 refl

module _ {V : Type 0} where
  pub find-assign-here :
      (k : Bytes) (v : V) (t : List (Bytes × V)) → find same k (assign same k v t) ≡ some v
  unfolding find assign
  find-assign-here k v t = rw (same_refl k) refl

  find-erase :
      (k x : Bytes) (t : List (Bytes × V)) → x ≢ k → find same x (erase same k t) ≡ find same x t
  unfolding find erase
  find-erase k x [] h = refl
  find-erase k x ((key, v) ∷ t) h =
      let later = find-erase k x t h in
      elim (Bool-cases (same key k)) [
        | inl e ↦
            let is = (same_iff key k).0 e in
            let other : same key x ≡ false = ground (arith, same_iff key x) in rw e (rw other later)
        | inr e ↦ rw e (ap (λ o. if same key x then some v else o) later)
      ]

  pub find-assign-other :
      (k x : Bytes) (v : V) (t : List (Bytes × V))
      → x ≢ k
      → find same x (assign same k v t) ≡ find same x t
  unfolding find assign
  find-assign-other k x v t h =
      let other : same k x ≡ false = ground (arith, same_iff k x) in rw other (find-erase k x t h)

  -- A name that the new table does not hold.
  pub find-assign-none :
      (k x : Bytes) (v : V) (t : List (Bytes × V))
      → find same x (assign same k v t) ≡ none
      → (x ≢ k) × (find same x t ≡ none)
  find-assign-none k x v t h = (differs, sym (find-assign-other k x v t differs) ∙ h)
    where
      differs : x ≢ k
      differs e = let here = find-assign-here k v t in cc
