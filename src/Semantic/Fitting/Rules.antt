-- ===== src/Semantic/Fitting/Rules.antt =====
-- The rules of `analyzeExpr` on parts whose known values fit.
use nexc.Prelude.{ℕ, ◌≤◌, ◌≡◌, refl, Bool, Option, some, List, Bytes, arith}
use nexc.Source.{SourceSpan}
use nexc.Syntax.{Expr, string_literal, name, Exprs, no_exprs, and_expr}
use nexc.StringLiteral.Format.{FormatHole}
use nexc.Semantic.Types.{
  SemanticType, is_integer, is_invalid, is_fixed_array, is_pointer, is_integer_kind, kind_ordinal,
  max_integer_value,
}
use nexc.Semantic.State.{Analysis, ExprInfo, ExprContext}
use nexc.Semantic.Constants.{parse_unsigned_integer, check_integer_literal_range}
use nexc.Semantic.Calls.{
  IndexedNameChain, undefined_value, analyze_name, inferred_array, FormatLiteral, placeholders,
  refused, read_format,
}
use nexc.Semantic.Expressions.{
  analyze_integer_literal, analyze_float_literal, bool_info, index_step, analyze_chain,
  analyze_indexed_value, call_rule, format_rule, typed_array,
}
use nexc.Semantic.Reports.{
  Sound, Always, Sound-bind, Sound-then, Sound-pure, Sound-gets, Sound-branch, Sound-done,
  Sound-error, Sound-option,
}
use nexc.Semantic.Reads.{
  Sound-check, require_readable_local-Sound, require_chain_readable-Sound, check_index-Sound,
  check_placeholder_count-Sound, check_argument_count-Sound,
}
use nexc.Semantic.Fitting.{Fits, Sound-info, integer-not_invalid}
use nexc.Semantic.Fitting.Operators.{Sound-forget}

pub undefined_value-Sound :
    (span : SourceSpan) (text : Bytes) → Sound Fits (undefined_value span text)
unfolding undefined_value
undefined_value-Sound span text = Sound-then _ _ (Sound-gets _) λ function.
    Sound-then _ _ (Sound-option function _ _ (λ _. Sound-error _ _) (λ _ _. Sound-error _ _))
      λ _. Sound-info _ _

pub analyze_name-Sound :
    (span : SourceSpan) (text : Bytes) (ctx : ExprContext) → Sound Fits (analyze_name span text ctx)
unfolding analyze_name
analyze_name-Sound span text ctx = Sound-then _ _ (Sound-gets _) λ found.
    Sound-option found _ _ (λ _. undefined_value-Sound span text)
      λ symbol _.
        Sound-then _ _
          (Sound-branch _ _ _ (λ _. Sound-done)
            (λ _. require_readable_local-Sound symbol span text))
          λ _. Sound-info _ _

check_integer_literal_range-Sound :
    (span : SourceSpan) (raw : Bytes) (type : SemanticType)
    → Sound
        (λ _. (v : ℕ) → parse_unsigned_integer raw ≡ some v → v ≤ max_integer_value type)
        (check_integer_literal_range span raw type)
unfolding check_integer_literal_range
check_integer_literal_range-Sound span raw type =
    Sound-option (parse_unsigned_integer raw) _ _ (λ missing. Sound-pure _ λ v e. absurd (cc))
      λ n found.
        Sound-branch _ _ _ (λ _. Sound-error _ _)
          (λ small. Sound-pure _ λ v e. let same : n ≡ v = cc in ground arith)

pub analyze_integer_literal-Sound :
    (span : SourceSpan) (raw : Bytes) (expected : Option SemanticType)
    → Sound Fits (analyze_integer_literal span raw expected)
unfolding analyze_integer_literal
analyze_integer_literal-Sound span raw expected =
    Sound-branch _ _ _
      (λ integer. Sound-bind _ _ (check_integer_literal_range-Sound span raw _) λ _.
        Sound-pure _
          λ small. record { known = λ v e. (integer-not_invalid _ integer, λ _. small v e) })
      (λ _. Sound-then _ _ (Sound-error _ _) λ _. Sound-info _ _)

pub analyze_float_literal-Sound :
    (span : SourceSpan) (raw : Bytes) (expected : Option SemanticType)
    → Sound Fits (analyze_float_literal span raw expected)
unfolding analyze_float_literal
analyze_float_literal-Sound span raw expected =
    Sound-branch _ _ _
      (λ _.
        Sound-then _ _ (Sound-gets _)
          λ fits. Sound-then _ _ (Sound-check _ _ _) λ _. Sound-info _ _)
      (λ _. Sound-then _ _ (Sound-error _ _) λ _. Sound-info _ _)

pub bool_info-Fits : (b : Bool) → Fits (bool_info b)
unfolding is_invalid kind_ordinal is_integer is_integer_kind is_fixed_array is_pointer
bool_info-Fits b = record { known = λ v e. (refl, λ bad. absurd (cc)) }

pub inferred_array-Sound :
    (span : SourceSpan) (count : ℕ) (first : SemanticType) (all_const : Bool)
    → Sound Fits (inferred_array span count first all_const)
unfolding inferred_array
inferred_array-Sound span count first all_const =
    Sound-branch _ _ _ (λ _. Sound-then _ _ (Sound-error _ _) λ _. Sound-info _ _)
      (λ _. Sound-branch _ _ _ (λ _. Sound-info _ _) (λ _. Sound-info _ _))

pub index_step-Sound :
    (root : SemanticType) (span : SourceSpan) (outer : Analysis (SemanticType × List ExprInfo))
    (analyze : Analysis ExprInfo)
    → Sound Always outer
    → Sound Always analyze
    → Sound Always (index_step root span outer analyze)
unfolding index_step
index_step-Sound root span outer analyze h k = Sound-then _ _ h λ walked.
    Sound-then _ _ k λ i. Sound-then _ _ (check_index-Sound root _ span i) λ _. Sound-pure _ tt

pub analyze_chain-Sound :
    (chain : IndexedNameChain) (span : SourceSpan)
    (walk : SemanticType → Analysis (SemanticType × List ExprInfo))
    → ((root : SemanticType) → Sound Always (walk root))
    → Sound Fits (analyze_chain chain span walk)
unfolding analyze_chain
analyze_chain-Sound chain span walk h = Sound-then _ _ (Sound-gets _) λ found.
    Sound-option found _ _ (λ _. undefined_value-Sound _ _)
      λ symbol _.
        Sound-branch _ _ _
          (λ _.
            Sound-branch _ _ _ (λ _. Sound-then _ _ (Sound-error _ _) λ _. Sound-info _ _)
              (λ _. Sound-then _ _ (h symbol.type) λ walked.
                Sound-then _ _ (require_chain_readable-Sound symbol chain walked.0 walked.1 span)
                  λ _. Sound-info _ _))
          (λ _. Sound-then _ _ (Sound-error _ _) λ _. Sound-info _ _)

pub analyze_indexed_value-Sound :
    (base i : Expr) (analyze_base analyze_i : Analysis ExprInfo)
    → Sound Always analyze_base
    → Sound Always analyze_i
    → Sound Fits (analyze_indexed_value base i analyze_base analyze_i)
unfolding analyze_indexed_value
analyze_indexed_value-Sound base i analyze_base analyze_i h k = Sound-then _ _ h λ b.
    Sound-then _ _ k λ at.
      Sound-branch _ _ _ (λ _. Sound-then _ _ (check_index-Sound _ _ _ at) λ _. Sound-info _ _)
        (λ _. Sound-then _ _ (Sound-error _ _) λ _. Sound-info _ _)

pub call_rule-Sound :
    (span : SourceSpan) (callee : Expr) (count : ℕ) (each : Analysis (Unit {0}))
    (typed : Bytes → List SemanticType → Analysis (Unit {0})) (format : Bytes → Analysis ExprInfo)
    → Sound Always each
    → ((text : Bytes) (types : List SemanticType) → Sound Always (typed text types))
    → ((text : Bytes) → Sound Fits (format text))
    → Sound Fits (call_rule span callee count each typed format)
unfolding call_rule
call_rule-Sound span (name callee_span text) count each typed format he ht hf =
    Sound-then _ _ (Sound-gets _) λ found.
      Sound-option found _ _
        (λ _. Sound-then _ _ (Sound-error _ _) λ _. Sound-then _ _ he λ _. Sound-info _ _)
        λ symbol _.
          Sound-branch _ _ _ (λ _. hf text)
            (λ _.
              Sound-then _ _ (check_argument_count-Sound _ _ _ _)
                λ _. Sound-then _ _ (ht text symbol.parameter_types) λ _. Sound-info _ _)
call_rule-Sound span _ count each typed format he ht hf =
    Sound-then _ _ (Sound-error _ _) λ _. Sound-then _ _ he λ _. Sound-info _ _

Sound-format {ℓ} :
    {A : Type ℓ} {Q : A → Type 0} (format : FormatLiteral) (x : Bytes → Analysis A)
    (y : List FormatHole → Analysis A)
    → ((message : Bytes) → Sound Q (x message))
    → ((holes : List FormatHole) → Sound Q (y holes))
    → Sound Q (elim format [ refused message ↦ x message | placeholders holes ↦ y holes ])
Sound-format (refused message) x y hx hy = hx message
Sound-format (placeholders holes) x y hx hy = hy holes

pub format_rule-Sound :
    (span : SourceSpan) (builtin : Bytes) (first : Expr) (rest : Exprs)
    (analyze_first : Analysis ExprInfo) (each : Analysis (Unit {0}))
    (typed : List FormatHole → Analysis (Unit {0}))
    → Sound Fits analyze_first
    → Sound Always each
    → ((holes : List FormatHole) → Sound Always (typed holes))
    → Sound Fits (format_rule span builtin first rest analyze_first each typed)
unfolding format_rule
format_rule-Sound span builtin (string_literal literal_span raw) rest analyze_first each typed hf he
      ht =
    Sound-format (read_format raw) _ _
      (λ message. Sound-then _ _ (Sound-error _ _) λ _. Sound-then _ _ he λ _. Sound-info _ _)
      (λ holes.
        Sound-then _ _ (check_placeholder_count-Sound _ _ _ _)
          λ _. Sound-then _ _ (ht holes) λ _. Sound-info _ _)
format_rule-Sound span builtin first no_exprs analyze_first each typed hf he ht =
    Sound-then _ _ (Sound-forget _ hf) λ arg. Sound-then _ _ (Sound-check _ _ _) λ _. Sound-info _ _
format_rule-Sound span builtin first (and_expr _ _) analyze_first each typed hf he ht =
    Sound-then _ _ (Sound-error _ _) λ _. Sound-then _ _ he λ _. Sound-info _ _

pub typed_array-Sound :
    (span : SourceSpan) (count : ℕ) (expected : SemanticType) (elements : Analysis Bool)
    → Sound Always elements
    → Sound Fits (typed_array span count expected elements)
unfolding typed_array
typed_array-Sound span count expected elements h =
    Sound-then _ _ (Sound-check _ _ _) λ _. Sound-then _ _ h λ all_const. Sound-info _ _
