-- ===== src/Semantic/Fitting.antt =====
-- The facts of an expression whose known value its type holds, and constant arithmetic on them.
pub mod Operators
pub mod Rules
pub mod Expressions
use nexc.Prelude.{
  ℕ, ◌≤◌, ◌≡◌, refl, sym, ap, ◌∙◌, Bool, true, false, some, List, [], ◌∷◌, arith, ==_iff, get_or,
}
use nexc.Source.{SourceSpan}
use nexc.Token.{TokenKind}
use nexc.Syntax.{
  BuiltinTypeKind, i8, i16, i32, i64, u8, u16, u32, u64, f32, f64, bool, str, void, invalid,
}
use nexc.Semantic.Types.{
  SemanticType, kind_ordinal, same_kind, is_integer, is_integer_kind, is_invalid, same_type,
  same_dimensions, max_integer_value,
}
use nexc.Semantic.State.{ExprInfo, pure, info}
use nexc.Semantic.Constants.{
  Folded, value, unknown, overflow, division_by_zero, remainder_by_zero, shift_too_far,
  report_folded, constant_operands, analyze_constant_arithmetic,
}
use nexc.Semantic.Folding.{fold_constant_iff}
use nexc.Semantic.Reports.{Sound, Sound-bind, Sound-then, Sound-pure, Sound-error, Sound-option}

-- A known value has a type, and an integer type holds it.
pub record Fits (i : ExprInfo) : Type 0 where
  pub known :
      (v : ℕ)
      → i.integer_value ≡ some v
      → (is_invalid i.type ≡ false) × (is_integer i.type ≡ true → v ≤ max_integer_value i.type)

pub Fits-unknown : (type : SemanticType) (is_constant : Bool) → Fits (info type is_constant)
Fits-unknown type is_constant = record { known = λ v e. absurd (cc) }

pub Sound-info :
    (type : SemanticType) (is_constant : Bool) → Sound Fits (pure (info type is_constant))
Sound-info type is_constant = Sound-pure _ (Fits-unknown type is_constant)

kind-not_invalid :
    (kind : BuiltinTypeKind) → is_integer_kind kind ≡ true → same_kind kind invalid ≡ false
unfolding is_integer_kind kind_ordinal
kind-not_invalid i8 h = refl
kind-not_invalid i16 h = refl
kind-not_invalid i32 h = refl
kind-not_invalid i64 h = refl
kind-not_invalid u8 h = refl
kind-not_invalid u16 h = refl
kind-not_invalid u32 h = refl
kind-not_invalid u64 h = refl
kind-not_invalid f32 h = absurd (cc)
kind-not_invalid f64 h = absurd (cc)
kind-not_invalid bool h = absurd (cc)
kind-not_invalid str h = absurd (cc)
kind-not_invalid void h = absurd (cc)
kind-not_invalid invalid h = absurd (cc)

pub integer-not_invalid : (t : SemanticType) → is_integer t ≡ true → is_invalid t ≡ false
unfolding is_integer is_invalid
integer-not_invalid t h = ground (arith, kind-not_invalid t.kind)

kind_at : ℕ → BuiltinTypeKind
kind_at n =
    get_or
      (i8 ∷ i16 ∷ i32 ∷ i64 ∷ u8 ∷ u16 ∷ u32 ∷ u64 ∷ f32 ∷ f64 ∷ bool ∷ str ∷ void ∷ invalid ∷ []) n
      invalid

kind_at-kind_ordinal : (kind : BuiltinTypeKind) → kind_at (kind_ordinal kind) ≡ kind
unfolding kind_at kind_ordinal
kind_at-kind_ordinal i8 = refl
kind_at-kind_ordinal i16 = refl
kind_at-kind_ordinal i32 = refl
kind_at-kind_ordinal i64 = refl
kind_at-kind_ordinal u8 = refl
kind_at-kind_ordinal u16 = refl
kind_at-kind_ordinal u32 = refl
kind_at-kind_ordinal u64 = refl
kind_at-kind_ordinal f32 = refl
kind_at-kind_ordinal f64 = refl
kind_at-kind_ordinal bool = refl
kind_at-kind_ordinal str = refl
kind_at-kind_ordinal void = refl
kind_at-kind_ordinal invalid = refl

pub same_kind-eq : (a b : BuiltinTypeKind) → same_kind a b ≡ true → a ≡ b
same_kind-eq a b h =
    let ordinals : kind_ordinal a ≡ kind_ordinal b = (==_iff _ _).0 h in
    sym (kind_at-kind_ordinal a) ∙ (ap kind_at ordinals ∙ kind_at-kind_ordinal b)

same_dimensions-eq : (a b : List ℕ) → same_dimensions a b ≡ true → a ≡ b
unfolding same_dimensions
same_dimensions-eq [] [] h = refl
same_dimensions-eq (d ∷ ds) (e ∷ es) h = ground (arith, same_dimensions-eq ds es)
same_dimensions-eq [] (e ∷ es) h = absurd (cc)
same_dimensions-eq (d ∷ ds) [] h = absurd (cc)

-- Valid types that agree are equal.
pub same_type-eq :
    (a b : SemanticType)
    → same_type a b ≡ true
    → is_invalid a ≡ false
    → is_invalid b ≡ false
    → a ≡ b
unfolding same_type
same_type-eq a b same ha hb =
    let kinds : a.kind ≡ b.kind = same_kind-eq a.kind b.kind (ground arith) in
    let dimensions : a.array_dimensions ≡ b.array_dimensions =
      same_dimensions-eq a.array_dimensions b.array_dimensions (ground arith) in
    let depths : a.pointer_depth ≡ b.pointer_depth = ground arith in
    λ i. record { kind = kinds i; array_dimensions = dimensions i; pointer_depth = depths i }

report_folded-Sound :
    (span right_span : SourceSpan) (type : SemanticType) (folded : Folded)
    → Sound
        (λ o. (v : ℕ) → o ≡ some v → folded ≡ value v)
        (report_folded span right_span type folded)
unfolding report_folded
report_folded-Sound span right_span type (value v) = Sound-pure _ λ w e. cc
report_folded-Sound span right_span type unknown = Sound-pure _ λ w e. absurd (cc)
report_folded-Sound span right_span type overflow =
    Sound-then _ _ (Sound-error _ _) λ _. Sound-pure _ λ w e. absurd (cc)
report_folded-Sound span right_span type division_by_zero =
    Sound-then _ _ (Sound-error _ _) λ _. Sound-pure _ λ w e. absurd (cc)
report_folded-Sound span right_span type remainder_by_zero =
    Sound-then _ _ (Sound-error _ _) λ _. Sound-pure _ λ w e. absurd (cc)
report_folded-Sound span right_span type shift_too_far =
    Sound-then _ _ (Sound-error _ _) λ _. Sound-pure _ λ w e. absurd (cc)

constant_operands-known :
    (left right : ExprInfo) (p : ℕ × ℕ)
    → constant_operands left right ≡ some p
    → (is_integer left.type ≡ true)
      × (left.integer_value ≡ some p.0)
      × (right.integer_value ≡ some p.1)
unfolding constant_operands
constant_operands-known left right p h = ground arith

-- Both values fit, so the value of the operation does.
pub analyze_constant_arithmetic-Sound :
    (op : TokenKind) (span right_span : SourceSpan) (left right : ExprInfo)
    → Sound
        (λ i. same_type left.type right.type ≡ true → Fits right → Fits left → Fits i)
        (analyze_constant_arithmetic op span right_span left right)
unfolding analyze_constant_arithmetic
analyze_constant_arithmetic-Sound op span right_span left right =
    Sound-option (constant_operands left right) _ _ (λ _. Sound-pure _ λ _ _ _. Fits-unknown _ _)
      λ p found.
        let (integer, l, r) = constant_operands-known left right p found in
        Sound-bind _ _ (report_folded-Sound span right_span left.type _) λ folded.
          Sound-pure _ λ reported same right_fits left_fits. record {
            known = λ v e.
                let (left_valid, left_small) = left_fits.known p.0 l in
                let (right_valid, right_small) = right_fits.known p.1 r in
                let types = same_type-eq left.type right.type same left_valid right_valid in
                let right_fit : p.1 ≤ max_integer_value left.type =
                  rw types (right_small (rw (sym types) integer)) in
                let calculated =
                  (fold_constant_iff op left.type p.0 p.1 v integer (left_small integer)
                      right_fit).0
                    (reported v e) in
                (left_valid, λ _. calculated.1);
          }
