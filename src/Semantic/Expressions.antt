-- ===== src/Semantic/Expressions.antt =====
-- `analyzeExpr` and the routines that it calls.
use nexc.Prelude.{
  ℕ, suc, ◌+◌, ◌==◌, Bool, true, false, ◌&&◌, Option, none, some, List, [], ◌∷◌, ◌++◌, Bytes, codes,
  ltb, length,
}
use nexc.Source.{SourceSpan}
use nexc.Diagnostic.Render.{decimal}
use nexc.Syntax.{
  Expr, integer_literal, float_literal, bool_literal, string_literal, name, call, unary, binary,
  paren, array_literal, index, Exprs, no_exprs, and_expr, expr_span, i32, f64, bool, str, void,
}
use nexc.StringLiteral.Format.{FormatHole}
use nexc.Semantic.Types.{
  SemanticType, builtin_scalar, no_type, is_integer, is_float, is_fixed_array, after_index,
  same_type, type_name,
}
use nexc.Semantic.State.{
  Analysis, ExprInfo, ExprContext, normal, index_base, ◌>>=◌, ◌>>◌, pure, done, gets, branch, error,
  info, no_info, lookup_value, lookup_function,
}
use nexc.Semantic.Constants.{
  parse_unsigned_integer, parse_finite_float_literal, check_integer_literal_range,
}
use nexc.Semantic.Operators.{require, analyze_unary_expr, analyze_binary_expr}
use nexc.Semantic.Calls.{
  length_exprs, IndexedNameChain, peel_indexed_name_chain, undefined_value, analyze_name,
  check_index, require_chain_readable, check_format_argument, placeholders, refused, read_format,
  check_placeholder_count, check_argument_count, check_argument, is_format_print, inferred_array,
}

abbrev or_default : SemanticType → Option SemanticType → SemanticType
or_default type none = type
or_default type (some expected) = expected

unfoldable pub analyze_integer_literal :
    SourceSpan → Bytes → Option SemanticType → Analysis ExprInfo
analyze_integer_literal span raw expected =
    let type = or_default (builtin_scalar i32) expected in
    branch (is_integer type)
      (do
        check_integer_literal_range span raw type
        pure (record {
          type = type;
          is_constant = true;
          integer_value = parse_unsigned_integer raw;
        }))
      (do
        error span (codes "integer literal cannot be used as `" ∷ type_name type ∷ codes "`" ∷ [])
        pure (info no_type true))

unfoldable pub analyze_float_literal : SourceSpan → Bytes → Option SemanticType → Analysis ExprInfo
analyze_float_literal span raw expected =
    let type = or_default (builtin_scalar f64) expected in
    branch (is_float type)
      (do
        fits ← gets λ s. parse_finite_float_literal s.floats raw type
        require fits span (
            codes "float literal `"
            ∷ raw
            ∷ codes "` does not fit in type `"
            ∷ type_name type
            ∷ codes "`"
            ∷ [])
        pure (info type true))
      (do
        error span (codes "float literal cannot be used as `" ∷ type_name type ∷ codes "`" ∷ [])
        pure (info no_type true))

abbrev pub bool_info : Bool → ExprInfo
bool_info b = record {
  type = builtin_scalar bool;
  is_constant = true;
  integer_value = elim b [ true ↦ some 1 | false ↦ some 0 ];
}

-- One index of a chain, behind those of the outer dimensions.
unfoldable pub index_step :
    SemanticType
    → SourceSpan
    → Analysis (SemanticType × List ExprInfo)
    → Analysis ExprInfo
    → Analysis (SemanticType × List ExprInfo)
index_step root span outer analyze = do
  walked ← outer
  i ← analyze
  check_index root walked.0 span i
  pure (after_index walked.0, walked.1 ++ i ∷ [])

-- The chain `name[…]…` where it is read.
unfoldable pub analyze_chain :
    IndexedNameChain
    → SourceSpan
    → (SemanticType → Analysis (SemanticType × List ExprInfo))
    → Analysis ExprInfo
analyze_chain chain span walk_indices = do
  found ← gets λ s. lookup_value s chain.root_name
  elim found [
    | none ↦ undefined_value chain.root_span chain.root_name
    | some symbol ↦
        branch (is_fixed_array symbol.type)
          (branch (ltb (length symbol.type.array_dimensions) (length chain.index_spans))
            (do
              error span (
                  codes "too many index operations for type `"
                  ∷ type_name symbol.type
                  ∷ codes "`"
                  ∷ [])
              pure no_info)
            (do
              walked ← walk_indices symbol.type
              require_chain_readable symbol chain walked.0 walked.1 span
              pure (info walked.0 false)))
          (do
            error chain.root_span (codes "indexed access requires an array value" ∷ [])
            pure no_info)
  ]

-- An index into any other expression.
unfoldable pub analyze_indexed_value :
    Expr → Expr → Analysis ExprInfo → Analysis ExprInfo → Analysis ExprInfo
analyze_indexed_value base i analyze_base analyze_i = do
  b ← analyze_base
  at ← analyze_i
  branch (is_fixed_array b.type)
      (do check_index b.type b.type (expr_span i) at; pure (info (after_index b.type) false))
      (do
        error (expr_span base) (codes "indexed access requires an array value" ∷ [])
        pure no_info)

abbrev pub chain_read : ExprContext → Expr → Option IndexedNameChain
chain_read normal e = peel_indexed_name_chain e
chain_read index_base e = none

unfoldable pub call_rule :
    SourceSpan
    → Expr
    → ℕ
    → Analysis (Unit {0})
    → (Bytes → List SemanticType → Analysis (Unit {0}))
    → (Bytes → Analysis ExprInfo)
    → Analysis ExprInfo
call_rule span (name callee_span text) count each typed format = do
  found ← gets λ s. lookup_function s text
  elim found [
    | none ↦ (do
      error callee_span (codes "undefined function `" ∷ text ∷ codes "`" ∷ [])
      each
      pure no_info)
    | some symbol ↦ branch (is_format_print symbol text) (format text) (do
      check_argument_count text span (length symbol.parameter_types) count
      typed text symbol.parameter_types
      pure (info symbol.return_type false))
  ]
call_rule span callee count each typed format = do
  error (expr_span callee) (codes "callee must be a function name" ∷ [])
  each
  pure no_info

abbrev void_info : ExprInfo
void_info = info (builtin_scalar void) false

-- `print` of a literal with its placeholders, or of one `str`.
unfoldable pub format_rule :
    SourceSpan
    → Bytes
    → Expr
    → Exprs
    → Analysis ExprInfo
    → Analysis (Unit {0})
    → (List FormatHole → Analysis (Unit {0}))
    → Analysis ExprInfo
format_rule span builtin (string_literal literal_span raw) rest analyze_first each typed =
    elim (read_format raw) [
      | refused message ↦ (do error literal_span (message ∷ []); each; pure void_info)
      | placeholders holes ↦ (do
        check_placeholder_count builtin span (length holes) (suc (length_exprs rest))
        typed holes
        pure void_info)
    ]
format_rule span builtin first no_exprs analyze_first each typed = do
  arg ← analyze_first
  require (same_type arg.type (builtin_scalar str)) (expr_span first) (
      codes "`"
      ∷ builtin
      ∷ codes "` expects either a format string literal or one `str` argument"
      ∷ [])
  pure void_info
format_rule span builtin first (and_expr _ _) analyze_first each typed = do
  error (expr_span first) (
      codes "`"
      ∷ builtin
      ∷ codes "` with multiple arguments requires a string literal format as the first argument"
      ∷ [])
  each
  pure void_info

abbrev element_message : SemanticType → ExprInfo → List Bytes
element_message expected e =
    codes "array element type `"
    ∷ type_name e.type
    ∷ codes "` does not match `"
    ∷ type_name expected
    ∷ codes "`"
    ∷ []

abbrev same_element_message : ExprInfo → List Bytes
same_element_message e = codes "array literal elements must have the same type" ∷ []

abbrev first_dimension : SemanticType → ℕ
first_dimension t = elim t.array_dimensions [ [] ↦ 0 | d ∷ ds ↦ d ]

-- An array literal where an array is expected.
unfoldable pub typed_array : SourceSpan → ℕ → SemanticType → Analysis Bool → Analysis ExprInfo
typed_array span count expected elements = do
  require (count == first_dimension expected) span (
      codes "array literal length "
      ∷ decimal count
      ∷ codes " does not match type `"
      ∷ type_name expected
      ∷ codes "`"
      ∷ [])
  all_const ← elements
  pure (info expected all_const)

abbrev pub expected_array : Option SemanticType → Option SemanticType
expected_array none = none
expected_array (some t) = elim (is_fixed_array t) [ true ↦ some t | false ↦ none ]

unfoldable mutual
  pub analyze_expr : Expr → Option SemanticType → ExprContext → Analysis ExprInfo
  analyze_expr (integer_literal span raw) expected ctx = analyze_integer_literal span raw expected
  analyze_expr (float_literal span raw) expected ctx = analyze_float_literal span raw expected
  analyze_expr (bool_literal span value) expected ctx = pure (bool_info value)
  analyze_expr (string_literal span raw) expected ctx = pure (info (builtin_scalar str) true)
  analyze_expr (name span text) expected ctx = analyze_name span text ctx
  analyze_expr (call span callee arguments) expected ctx =
      call_rule span callee (length_exprs arguments) (analyze_each arguments)
        (λ text types. analyze_arguments text 1 types arguments)
        (λ text. analyze_format_print_call span text arguments)
  analyze_expr (unary span op operand) expected ctx =
      analyze_unary_expr op operand (λ t. analyze_expr operand t normal) expected
  analyze_expr (binary span left op right) expected ctx =
      analyze_binary_expr op span left right (λ t. analyze_expr left t normal)
        (λ t. analyze_expr right t normal) expected
  analyze_expr (array_literal span elements) expected ctx = elim (expected_array expected) [
    | some array ↦
        typed_array span (length_exprs elements) array
          (analyze_elements (after_index array) (element_message (after_index array)) elements)
    | none ↦ analyze_inferred_array span elements
  ]
  analyze_expr (index span base i) expected ctx = elim (chain_read ctx (index span base i)) [
    | some chain ↦ analyze_chain chain span (λ root.
        index_step root (expr_span i) (analyze_indices base root)
          (analyze_expr i (some (builtin_scalar i32)) normal))
    | none ↦
        analyze_indexed_value base i (analyze_expr base none index_base)
          (analyze_expr i (some (builtin_scalar i32)) normal)
  ]
  analyze_expr (paren span inner) expected ctx = analyze_expr inner expected ctx

  -- The indices of a chain, from the outermost dimension on: what is left of the type, and the
  -- facts of each.
  pub analyze_indices : Expr → SemanticType → Analysis (SemanticType × List ExprInfo)
  analyze_indices (paren _ inner) root = analyze_indices inner root
  analyze_indices (index _ base i) root =
      index_step root (expr_span i) (analyze_indices base root)
        (analyze_expr i (some (builtin_scalar i32)) normal)
  analyze_indices _ root = pure (root, [])

  pub analyze_each : Exprs → Analysis (Unit {0})
  analyze_each no_exprs = done
  analyze_each (and_expr e es) = do analyze_expr e none normal; analyze_each es

  -- Arguments against the parameters, numbered from 1; those beyond are only looked at.
  pub analyze_arguments : Bytes → ℕ → List SemanticType → Exprs → Analysis (Unit {0})
  analyze_arguments text number types no_exprs = done
  analyze_arguments text number [] (and_expr e es) = do
    analyze_expr e none normal
    analyze_arguments text (number + 1) [] es
  analyze_arguments text number (type ∷ types) (and_expr e es) = do
    actual ← analyze_expr e (some type) normal
    check_argument text number (expr_span e) type actual
    analyze_arguments text (number + 1) types es

  pub analyze_format_print_call : SourceSpan → Bytes → Exprs → Analysis ExprInfo
  analyze_format_print_call span builtin no_exprs = do
    error span (codes "`" ∷ builtin ∷ codes "` requires at least a format string argument" ∷ [])
    pure void_info
  analyze_format_print_call span builtin (and_expr first rest) =
      format_rule span builtin first rest (analyze_expr first (some (builtin_scalar str)) normal)
        (analyze_each rest) (λ holes. analyze_format_arguments holes rest)

  pub analyze_format_arguments : List FormatHole → Exprs → Analysis (Unit {0})
  analyze_format_arguments holes no_exprs = done
  analyze_format_arguments [] (and_expr e es) = do
    analyze_expr e none normal
    analyze_format_arguments [] es
  analyze_format_arguments (hole ∷ holes) (and_expr e es) = do
    arg ← analyze_expr e none normal
    check_format_argument hole (expr_span e) arg
    analyze_format_arguments holes es

  -- Elements of one type: whether all of them are constants.
  pub analyze_elements : SemanticType → (ExprInfo → List Bytes) → Exprs → Analysis Bool
  analyze_elements type message no_exprs = pure true
  analyze_elements type message (and_expr e es) = do
    element ← analyze_expr e (some type) normal
    require (same_type type element.type) (expr_span e) (message element)
    others ← analyze_elements type message es
    pure (element.is_constant && others)

  pub analyze_inferred_array : SourceSpan → Exprs → Analysis ExprInfo
  analyze_inferred_array span no_exprs = do
    error span (codes "empty array literal requires a contextual `[T; N]` type" ∷ [])
    pure no_info
  analyze_inferred_array span (and_expr e es) = do
    first ← analyze_expr e none normal
    others ← analyze_elements first.type same_element_message es
    inferred_array span (suc (length_exprs es)) first.type (first.is_constant && others)

-- `analyzeCallExpr`, for an expression of the class `CallExpr`.
abbrev pub analyze_call_expr : Expr → Analysis ExprInfo
analyze_call_expr e = analyze_expr e none normal
