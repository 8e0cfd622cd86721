-- ===== src/Semantic/Fitting/Operators.antt =====
-- The operators on operands whose known values fit.
use nexc.Prelude.{
  ℕ, ◌-◌, ◌^◌, ◌≤◌, Option-cases, inl, inr, ◌≡◌, refl, Bool, true, false, Option, none, some, arith,
}
use nexc.Source.{SourceSpan}
use nexc.Token.{TokenKind, minus, star, bang, tilde, amp, amp_amp, pipe_pipe}
use nexc.Syntax.{Expr, name, expr_span}
use nexc.Semantic.Types.{
  SemanticType, is_integer, max_integer_value, same_type, kind_ordinal, is_integer_kind,
  is_fixed_array, is_pointer, is_invalid,
}
use nexc.Semantic.State.{Analysis, ExprInfo}
use nexc.Semantic.Operators.{
  Operand, strip_parens, address_of, address_rule, complement_value, analyze_unary_expr,
  logical_info, analyze_logical, OperatorClass, arithmetic, bitwise, shift, comparison, equality,
  logical, other, operator_class, require_numbers, require_integers, operand_checks, binary_result,
  analyze_strict, analyze_binary_expr,
}
use nexc.Semantic.Bits.{bit_and-le}
use nexc.Semantic.Reports.{
  Sound, Always, Sound-bind, Sound-then, Sound-pure, Sound-gets, Sound-branch, Sound-done,
  Sound-error, Sound-require, Sound-option, Sound-weaken,
}
use nexc.Semantic.Reads.{Sound-check, require_readable_local-Sound}
use nexc.Semantic.Fitting.{
  Fits, Fits-unknown, Sound-info, integer-not_invalid, analyze_constant_arithmetic-Sound,
}

-- An operand whose analysis gives facts that fit, whatever type is expected of it.
abbrev pub FitOperand : Operand → Type 0
FitOperand analyze = (expected : Option SemanticType) → Sound Fits (analyze expected)

pub Sound-forget {ℓ} : {A : Type ℓ} {P : A → Type 0} (m : Analysis A) → Sound P m → Sound Always m
Sound-forget m h = Sound-weaken m (λ _ _. tt) h

complement_value-Fits :
    (o : ExprInfo) (v : ℕ)
    → complement_value o ≡ some v
    → (is_integer o.type ≡ true) × (v ≤ max_integer_value o.type)
complement_value-Fits o v e = elim (Option-cases o.integer_value) [
  | inl missing ↦ absurd (ground arith)
  | inr (n, found) ↦ ground (arith, bit_and-le (2 ^ 64 - 1 - n) (max_integer_value o.type))
]

complement-Fits :
    (o : ExprInfo)
    → Fits
        (record { type = o.type; is_constant = o.is_constant; integer_value = complement_value o })
complement-Fits o = record {
  known = λ v e.
      let (integer, small) = complement_value-Fits o v e in
      (integer-not_invalid o.type integer, λ _. small);
}

address_of-Sound : (span : SourceSpan) (text : _) → Sound Fits (address_of span text)
unfolding address_of
address_of-Sound span text = Sound-then _ _ (Sound-gets _) λ found.
    Sound-option found _ _ (λ _. Sound-then _ _ (Sound-error _ _) λ _. Sound-info _ _)
      λ symbol _. Sound-then _ _ (Sound-check _ _ _) λ _.
        Sound-then _ _ (require_readable_local-Sound symbol span text) λ _.
          Sound-branch _ _ _ (λ _. Sound-info _ _)
            (λ _. Sound-then _ _ (Sound-error _ _) λ _. Sound-info _ _)

module _ (operand : Expr) (analyze : Operand) (fit : FitOperand analyze) where
  address_rule-Sound : (e : Expr) → Sound Fits (address_rule operand analyze e)
  address_rule-Sound (name span text) = address_of-Sound span text
  address_rule-Sound _ =
      Sound-then _ _ (Sound-error _ _)
        λ _. Sound-then _ _ (Sound-forget _ (fit none)) λ _. Sound-info _ _

  pub analyze_unary_expr-Sound :
      (op : TokenKind) (expected : Option SemanticType)
      → Sound Fits (analyze_unary_expr op operand analyze expected)
  unfolding analyze_unary_expr
  analyze_unary_expr-Sound amp expected = address_rule-Sound (strip_parens operand)
  analyze_unary_expr-Sound star expected = Sound-then _ _ (Sound-forget _ (fit expected)) λ o.
      Sound-branch _ _ _ (λ _. Sound-info _ _)
        (λ _. Sound-then _ _ (Sound-error _ _) λ _. Sound-info _ _)
  analyze_unary_expr-Sound bang expected =
      Sound-then _ _ (Sound-forget _ (fit none))
        λ o. Sound-then _ _ (Sound-check _ _ _) λ _. Sound-info _ _
  analyze_unary_expr-Sound minus expected =
      Sound-then _ _ (Sound-forget _ (fit expected))
        λ o. Sound-then _ _ (Sound-check _ _ _) λ _. Sound-info _ _
  analyze_unary_expr-Sound tilde expected =
      Sound-then _ _ (Sound-forget _ (fit expected))
        λ o. Sound-then _ _ (Sound-check _ _ _) λ _. Sound-pure _ (complement-Fits o)
  analyze_unary_expr-Sound _ expected = Sound-info _ _

logical_info-Fits : (o : Option ℕ) → Fits (logical_info o)
unfolding logical_info is_invalid kind_ordinal is_integer is_integer_kind is_fixed_array is_pointer
logical_info-Fits none = Fits-unknown _ _
logical_info-Fits (some v) = record { known = λ w e. (refl, λ bad. absurd (cc)) }

operand_checks-Sound :
    (cls : OperatorClass) (op : TokenKind) (span : SourceSpan) (left right : Expr) (l r : ExprInfo)
    → Sound Always (operand_checks cls op span left right l r)
unfolding operand_checks require_numbers require_integers
operand_checks-Sound arithmetic op span left right l r =
    Sound-then _ _ (Sound-check _ _ _)
      λ _. Sound-then _ _ (Sound-check _ _ _) λ _. Sound-check _ _ _
operand_checks-Sound comparison op span left right l r =
    Sound-then _ _ (Sound-check _ _ _)
      λ _. Sound-then _ _ (Sound-check _ _ _) λ _. Sound-check _ _ _
operand_checks-Sound bitwise op span left right l r =
    Sound-then _ _ (Sound-check _ _ _) λ _. Sound-check _ _ _
operand_checks-Sound shift op span left right l r =
    Sound-then _ _ (Sound-check _ _ _) λ _. Sound-check _ _ _
operand_checks-Sound equality op span left right l r = Sound-done
operand_checks-Sound logical op span left right l r = Sound-done
operand_checks-Sound other op span left right l r = Sound-done

binary_result-Sound :
    (cls : OperatorClass) (op : TokenKind) (span right_span : SourceSpan) (l r : ExprInfo)
    → Sound
        (λ i. same_type l.type r.type ≡ true → Fits r → Fits l → Fits i)
        (binary_result cls op span right_span l r)
unfolding binary_result
binary_result-Sound arithmetic op span right_span l r =
    analyze_constant_arithmetic-Sound op span right_span l r
binary_result-Sound bitwise op span right_span l r =
    analyze_constant_arithmetic-Sound op span right_span l r
binary_result-Sound shift op span right_span l r =
    analyze_constant_arithmetic-Sound op span right_span l r
binary_result-Sound comparison op span right_span l r = Sound-pure _ λ _ _ _. Fits-unknown _ _
binary_result-Sound equality op span right_span l r = Sound-pure _ λ _ _ _. Fits-unknown _ _
binary_result-Sound logical op span right_span l r = Sound-pure _ λ _ _ _. Fits-unknown _ _
binary_result-Sound other op span right_span l r = Sound-pure _ λ _ _ _. Fits-unknown _ _

module _ (left right : Expr) (analyze_left analyze_right : Operand)
    (fit_left : FitOperand analyze_left) (fit_right : FitOperand analyze_right) where
  analyze_logical-Sound :
      (decides : Bool) → Sound Fits (analyze_logical decides left right analyze_left analyze_right)
  unfolding analyze_logical
  analyze_logical-Sound decides = Sound-then _ _ (Sound-forget _ (fit_left none)) λ l.
      Sound-then _ _ (Sound-check _ _ _) λ _.
        Sound-then _ _ (Sound-forget _ (fit_right none))
          λ r. Sound-then _ _ (Sound-check _ _ _) λ _. Sound-pure _ (logical_info-Fits _)

  analyze_strict-Sound :
      (op : TokenKind) (span : SourceSpan) (expected : Option SemanticType)
      → Sound Fits (analyze_strict op span left right analyze_left analyze_right expected)
  unfolding analyze_strict
  analyze_strict-Sound op span expected = Sound-bind _ _ (fit_left expected) λ l.
      Sound-bind _ _ (fit_right (some l.type)) λ r.
        Sound-then _ _ (operand_checks-Sound (operator_class op) op span left right l r) λ _.
          Sound-bind _ _ (Sound-require (same_type l.type r.type) _ _)
            λ _. binary_result-Sound (operator_class op) op span (expr_span right) l r

  pub analyze_binary_expr-Sound :
      (op : TokenKind) (span : SourceSpan) (expected : Option SemanticType)
      → Sound Fits (analyze_binary_expr op span left right analyze_left analyze_right expected)
  unfolding analyze_binary_expr
  analyze_binary_expr-Sound amp_amp span expected = analyze_logical-Sound false
  analyze_binary_expr-Sound pipe_pipe span expected = analyze_logical-Sound true
  analyze_binary_expr-Sound op span expected = analyze_strict-Sound op span expected
