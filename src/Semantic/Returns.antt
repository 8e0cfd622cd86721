-- ===== src/Semantic/Returns.antt =====
-- Reasoning about error-free runs outside of loops.
pub mod Statements
pub mod Items
use nexc.Prelude.{ℕ, ◌≡◌, refl, ◌∙◌, Bool, true, false, Option, none, some, List, Bytes, arith}
use nexc.Source.{SourceSpan}
use nexc.Semantic.State.{Analyzer, Analysis, ◌>>=◌, pure, modify, error, branch, done}
use nexc.Semantic.Frame.{Keeps}
use nexc.Diagnostic.{report_error, add}

-- An error stays on record.
abbrev pub Sticky {ℓ} : {A : Type ℓ} → Analysis A → Type 0
Sticky m = (s : Analyzer) → s.diagnostics.has_errors ≡ true → (m s).1.diagnostics.has_errors ≡ true

-- The depth of loops is the same behind a run.
abbrev pub Level {ℓ} : {A : Type ℓ} → Analysis A → Type 0
Level m = (s : Analyzer) → (m s).1.loop_depth ≡ s.loop_depth

-- An error stays on record, and what holds of the value of an error-free run outside of loops.
pub record Good {ℓ} {A : Type ℓ} (P : A → Type 0) (s : Analyzer) (r : A × Analyzer) : Type 0 where
  pub sticky : s.diagnostics.has_errors ≡ true → r.1.diagnostics.has_errors ≡ true
  pub value : s.loop_depth ≡ 0 → r.1.diagnostics.has_errors ≡ false → P r.0

abbrev pub Checked {ℓ} : {A : Type ℓ} → (A → Type 0) → Analysis A → Type 0
Checked P m = (s : Analyzer) → Good P s (m s)

module _ {ℓ} {A : Type ℓ} (m : Analysis A) where
  pub Keeps-Sticky : Keeps m → Sticky m
  Keeps-Sticky h s = (h s).grows.kept

  pub Keeps-Level : Keeps m → Level m
  Keeps-Level h s = (h s).depth

module _ {ℓ κ} {A : Type ℓ} {B : Type κ} where
  pub Sticky-bind :
      (m : Analysis A) (f : A → Analysis B) → Sticky m → ((a : A) → Sticky (f a)) → Sticky (m >>= f)
  unfolding ◌>>=◌
  Sticky-bind m f hm hf s e = hf (m s).0 (m s).1 (hm s e)

  pub Level-bind :
      (m : Analysis A) (f : A → Analysis B) → Level m → ((a : A) → Level (f a)) → Level (m >>= f)
  unfolding ◌>>=◌
  Level-bind m f hm hf s = hf (m s).0 (m s).1 ∙ hm s

  pub Checked-bind :
      {P : A → Type 0} {Q : B → Type 0} (m : Analysis A) (f : A → Analysis B)
      → Level m
      → Checked P m
      → ((a : A) → Checked (λ b. P a → Q b) (f a))
      → Checked Q (m >>= f)
  unfolding ◌>>=◌
  Checked-bind m f level hm hf s =
      let first = hm s in
      let second = hf (m s).0 (m s).1 in
      record {
        sticky = λ e. second.sticky (first.sticky e);
        value = λ outside e.
            let k = second.sticky in
            second.value (level s ∙ outside) e (first.value outside (ground arith));
      }

  -- Nothing is asked of the first value.
  pub Checked-then :
      {Q : B → Type 0} (m : Analysis A) (f : A → Analysis B)
      → Level m
      → Sticky m
      → ((a : A) → Checked Q (f a))
      → Checked Q (m >>= f)
  Checked-then m f level sticky h =
      Checked-bind {P = λ _. Unit {0}} m f level
        (λ s. record { sticky = sticky s; value = λ _ _. tt })
        λ a s.
          let r = h a s in record { sticky = r.sticky; value = λ outside e _. r.value outside e }

  pub Checked-after :
      {Q : B → Type 0} (m : Analysis A) (f : A → Analysis B)
      → Keeps m
      → ((a : A) → Checked Q (f a))
      → Checked Q (m >>= f)
  Checked-after m f keeps = Checked-then m f (Keeps-Level m keeps) (Keeps-Sticky m keeps)

module _ {ℓ} {A : Type ℓ} where
  pub Checked-pure : {P : A → Type 0} (a : A) → P a → Checked P (pure a)
  Checked-pure a h s = record { sticky = λ e. e; value = λ _ _. h }

  -- What every value satisfies, or no error-free run has.
  pub Checked-value :
      {P : A → Type 0} (m : Analysis A)
      → Sticky m
      → ((s : Analyzer) → s.loop_depth ≡ 0 → (m s).1.diagnostics.has_errors ≡ false → P (m s).0)
      → Checked P m
  Checked-value m sticky h s = record { sticky = sticky s; value = h s }

  pub Checked-weaken :
      {P Q : A → Type 0} (m : Analysis A) → ((a : A) → P a → Q a) → Checked P m → Checked Q m
  Checked-weaken m h x s = record {
    sticky = (x s).sticky;
    value = λ outside e. h (m s).0 ((x s).value outside e);
  }

-- A reported test holds behind an error-free run.
pub Checked-require :
    (b : Bool) (span : SourceSpan) (parts : List Bytes)
    → Checked (λ _. b ≡ true) (branch b done (error span parts))
unfolding branch error report_error add
Checked-require true span parts s = record { sticky = λ e. e; value = λ _ _. refl }
Checked-require false span parts s = record {
  sticky = λ _. refl;
  value = λ _ e. absurd (ground arith);
}
