-- ===== src/Syntax/Dump/Fails.antt =====
-- Steps of a dump that have no outcome.
use nexc.Prelude.{◌≡◌, refl, ap, Bool, true, false, ◌&&◌, Option, none, some, ◌⊎◌, inl, inr}
use nexc.Syntax.Dump.{◌then◌}

-- A step that follows a null pointer, whatever its state.
pub record Fails {ℓ κ} {S : Type ℓ} {A : Type κ} (f : S → Option A) : Type (ℓ ⊔ κ) where
  pub fails : (s : S) → f s ≡ none

-- The second of two steps is not reached, or has no outcome.
pub stops {ℓ κ} :
    {A : Type ℓ} {B : Type κ} {o : Option A} (k : A → Option B)
    → o ≡ none
    → elim o [ none ↦ none | some a ↦ k a ] ≡ none
stops k e = ap (λ o. elim o [ none ↦ none | some a ↦ k a ]) e

pub reaches {ℓ κ} :
    {A : Type ℓ} {B : Type κ} {k : A → Option B} (o : Option A)
    → Fails k
    → elim o [ none ↦ none | some a ↦ k a ] ≡ none
reaches none h = refl
reaches (some a) h = h.fails a

pub first-Fails {ℓ} :
    {S : Type ℓ} {f : S → Option S} (k : S → Option S) → Fails f → Fails (f then k)
unfolding ◌then◌
first-Fails k h = record { fails = λ s. stops k (h.fails s) }

pub second-Fails {ℓ} :
    {S : Type ℓ} (f : S → Option S) {k : S → Option S} → Fails k → Fails (f then k)
unfolding ◌then◌
second-Fails f h = record { fails = λ s. reaches (f s) h }

pub &&-eq-false : (a b : Bool) → (a && b) ≡ false → (a ≡ false) ⊎ (b ≡ false)
&&-eq-false true b h = inr h
&&-eq-false false b h = inl refl
