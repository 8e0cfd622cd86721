-- ===== src/Semantic/Fitting/Expressions.antt =====
-- The whole of `analyzeExpr`: it only reports, and the known value of its facts fits their type.
use nexc.Prelude.{ℕ, ◌+◌, ◌∷◌, [], ◌≡◌, false, Option, none, some, List, Bytes}
use nexc.Source.{SourceSpan}
use nexc.Syntax.{
  Expr, integer_literal, float_literal, bool_literal, string_literal, name, call, unary, binary,
  paren, array_literal, index, Exprs, no_exprs, and_expr, i32, str,
}
use nexc.StringLiteral.Format.{FormatHole}
use nexc.Semantic.Types.{SemanticType, builtin_scalar, after_index}
use nexc.Semantic.State.{Analyzer, ExprInfo, ExprContext, normal, index_base}
use nexc.Semantic.Expressions.{
  chain_read, expected_array, analyze_expr, analyze_indices, analyze_each, analyze_arguments,
  analyze_format_print_call, analyze_format_arguments, analyze_elements, analyze_inferred_array,
}
use nexc.Semantic.Reports.{
  Quiet, Sound, Always, Sound-then, Sound-pure, Sound-done, Sound-error, Sound-option,
}
use nexc.Semantic.Reads.{Sound-check, check_format_argument-Sound, check_argument-Sound}
use nexc.Semantic.Fitting.{Fits, Sound-info}
use nexc.Semantic.Fitting.Operators.{
  Sound-forget, analyze_unary_expr-Sound, analyze_binary_expr-Sound,
}
use nexc.Semantic.Fitting.Rules.{
  analyze_name-Sound, analyze_integer_literal-Sound, analyze_float_literal-Sound, bool_info-Fits,
  inferred_array-Sound, index_step-Sound, analyze_chain-Sound, analyze_indexed_value-Sound,
  call_rule-Sound, format_rule-Sound, typed_array-Sound,
}

mutual
  unfolding analyze_expr

  pub expr-Sound :
      (e : Expr) (expected : Option SemanticType) (ctx : ExprContext)
      → Sound Fits (analyze_expr e expected ctx)
  expr-Sound (integer_literal span raw) expected ctx =
      analyze_integer_literal-Sound span raw expected
  expr-Sound (float_literal span raw) expected ctx = analyze_float_literal-Sound span raw expected
  expr-Sound (bool_literal span b) expected ctx = Sound-pure _ (bool_info-Fits b)
  expr-Sound (string_literal span raw) expected ctx = Sound-info _ _
  expr-Sound (name span text) expected ctx = analyze_name-Sound span text ctx
  expr-Sound (call span callee arguments) expected ctx =
      call_rule-Sound span callee _ _ _ _ (each-Sound arguments)
        (λ text types. arguments-Sound text 1 types arguments)
        (λ text. format_print-Sound span text arguments)
  expr-Sound (unary span op operand) expected ctx =
      analyze_unary_expr-Sound operand _ (λ t. expr-Sound operand t normal) op expected
  expr-Sound (binary span left op right) expected ctx =
      analyze_binary_expr-Sound left right _ _ (λ t. expr-Sound left t normal)
        (λ t. expr-Sound right t normal) op span expected
  expr-Sound (array_literal span elements) expected ctx =
      Sound-option (expected_array expected) _ _ (λ _. inferred-Sound span elements)
        λ array _. typed_array-Sound span _ array _ (elements-Sound (after_index array) _ elements)
  expr-Sound (index span base i) expected ctx =
      Sound-option (chain_read ctx (index span base i)) _ _
        (λ _.
          analyze_indexed_value-Sound base i _ _ (Sound-forget _ (expr-Sound base none index_base))
            (Sound-forget _ (expr-Sound i (some (builtin_scalar i32)) normal)))
        λ chain _. analyze_chain-Sound chain span _ λ root.
          index_step-Sound root _ _ _ (indices-Sound base root)
            (Sound-forget _ (expr-Sound i (some (builtin_scalar i32)) normal))
  expr-Sound (paren span inner) expected ctx = expr-Sound inner expected ctx

  pub indices-Sound : (e : Expr) (root : SemanticType) → Sound Always (analyze_indices e root)
  indices-Sound (paren _ inner) root = indices-Sound inner root
  indices-Sound (index _ base i) root =
      index_step-Sound root _ _ _ (indices-Sound base root)
        (Sound-forget _ (expr-Sound i (some (builtin_scalar i32)) normal))
  indices-Sound _ root = Sound-pure _ tt

  each-Sound : (es : Exprs) → Sound Always (analyze_each es)
  each-Sound no_exprs = Sound-done
  each-Sound (and_expr e es) =
      Sound-then _ _ (Sound-forget _ (expr-Sound e none normal)) λ _. each-Sound es

  arguments-Sound :
      (text : Bytes) (number : ℕ) (types : List SemanticType) (es : Exprs)
      → Sound Always (analyze_arguments text number types es)
  arguments-Sound text number types no_exprs = Sound-done
  arguments-Sound text number [] (and_expr e es) =
      Sound-then _ _ (Sound-forget _ (expr-Sound e none normal))
        λ _. arguments-Sound text (number + 1) [] es
  arguments-Sound text number (type ∷ types) (and_expr e es) =
      Sound-then _ _ (Sound-forget _ (expr-Sound e (some type) normal)) λ actual.
        Sound-then _ _ (Sound-forget _ (check_argument-Sound text number _ type actual))
          λ _. arguments-Sound text (number + 1) types es

  format_print-Sound :
      (span : SourceSpan) (builtin : Bytes) (es : Exprs)
      → Sound Fits (analyze_format_print_call span builtin es)
  format_print-Sound span builtin no_exprs = Sound-then _ _ (Sound-error _ _) λ _. Sound-info _ _
  format_print-Sound span builtin (and_expr first rest) =
      format_rule-Sound span builtin first rest _ _ _
        (expr-Sound first (some (builtin_scalar str)) normal) (each-Sound rest)
        (λ holes. format_arguments-Sound holes rest)

  format_arguments-Sound :
      (holes : List FormatHole) (es : Exprs) → Sound Always (analyze_format_arguments holes es)
  format_arguments-Sound holes no_exprs = Sound-done
  format_arguments-Sound [] (and_expr e es) =
      Sound-then _ _ (Sound-forget _ (expr-Sound e none normal)) λ _. format_arguments-Sound [] es
  format_arguments-Sound (hole ∷ holes) (and_expr e es) =
      Sound-then _ _ (Sound-forget _ (expr-Sound e none normal)) λ arg.
        Sound-then _ _ (check_format_argument-Sound hole _ arg) λ _. format_arguments-Sound holes es

  elements-Sound :
      (type : SemanticType) (message : ExprInfo → List Bytes) (es : Exprs)
      → Sound Always (analyze_elements type message es)
  elements-Sound type message no_exprs = Sound-pure _ tt
  elements-Sound type message (and_expr e es) =
      Sound-then _ _ (Sound-forget _ (expr-Sound e (some type) normal)) λ element.
        Sound-then _ _ (Sound-check _ _ _)
          λ _. Sound-then _ _ (elements-Sound type message es) λ others. Sound-pure _ tt

  inferred-Sound : (span : SourceSpan) (es : Exprs) → Sound Fits (analyze_inferred_array span es)
  inferred-Sound span no_exprs = Sound-then _ _ (Sound-error _ _) λ _. Sound-info _ _
  inferred-Sound span (and_expr e es) =
      Sound-then _ _ (Sound-forget _ (expr-Sound e none normal)) λ first.
        Sound-then _ _ (elements-Sound first.type _ es) λ others. inferred_array-Sound _ _ _ _

-- The analysis of an expression only reports: apart from the messages behind those on record the
-- state is as before, and an error on record stays there.
pub analyze_expr-Quiet :
    (e : Expr) (expected : Option SemanticType) (ctx : ExprContext) (s : Analyzer)
    → Quiet s (analyze_expr e expected ctx s).1
analyze_expr-Quiet e expected ctx s = (expr-Sound e expected ctx s).quiet

-- If no error is on record behind the analysis of an expression, then a value that it gives for a
-- constant of an integer type is one that the type holds, and what has a value has a type.
pub analyze_expr-Fits :
    (e : Expr) (expected : Option SemanticType) (ctx : ExprContext) (s : Analyzer)
    → (analyze_expr e expected ctx s).1.diagnostics.has_errors ≡ false
    → Fits (analyze_expr e expected ctx s).0
analyze_expr-Fits e expected ctx s = (expr-Sound e expected ctx s).holds
