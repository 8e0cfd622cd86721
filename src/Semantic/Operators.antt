-- ===== src/Semantic/Operators.antt =====
-- The rules of the operators. The analysis of an operand is an argument, which a rule runs with the
-- type that it expects.
use nexc.Prelude.{
  ℕ, ◌-◌, ◌^◌, ◌==◌, Bool, true, false, not, ◌&&◌, ◌||◌, Option, none, some, List, [], ◌∷◌, Bytes,
  codes, if◌then◌else◌,
}
use Prim.Native.Nat.{bit_and}
use nexc.Source.{SourceSpan}
use nexc.Token.{
  TokenKind, is_kind, plus, minus, star, slash, percent, bang, tilde, amp, pipe, caret, amp_amp,
  pipe_pipe, less, less_equal, less_less, greater, greater_equal, greater_greater, equal_equal,
  bang_equal,
}
use nexc.Syntax.{Expr, name, paren, expr_span, bool}
use nexc.Semantic.Types.{
  SemanticType, builtin_scalar, is_integer, is_float, is_fixed_array, is_pointer, is_string,
  is_void, pointee_type, same_type, type_name, can_be_condition, max_integer_value,
}
use nexc.Semantic.State.{
  Analysis, ExprInfo, ◌>>=◌, ◌>>◌, pure, done, gets, branch, error, info, no_info, lookup_value,
}
use nexc.Semantic.Scopes.{require_readable_local}
use nexc.Semantic.Constants.{analyze_constant_arithmetic}

abbrev pub Operand : Type 0
Operand = Option SemanticType → Analysis ExprInfo

unfoldable pub strip_parens : Expr → Expr
strip_parens (paren _ inner) = strip_parens inner
strip_parens e = e

-- A report if a test fails.
abbrev pub require : Bool → SourceSpan → List Bytes → Analysis (Unit {0})
require test span message = branch test done (error span message)

abbrev is_addressable : SemanticType → Bool
is_addressable t = not (is_fixed_array t || is_pointer t || is_string t || is_void t)

-- `&` of a name.
unfoldable pub address_of : SourceSpan → Bytes → Analysis ExprInfo
address_of span text = do
  found ← gets λ s. lookup_value s text
  elim found [
    | none ↦ (do error span (codes "undefined local `" ∷ text ∷ codes "`" ∷ []); pure no_info)
    | some symbol ↦ (do
      require (not symbol.is_const && symbol.is_mutable) span
          (codes "`&` currently requires a mutable local binding" ∷ [])
      require_readable_local symbol span text
      branch (is_addressable symbol.type)
          (pure (info (record symbol.type { pointer_depth = 1 }) false))
          (do
            error span (codes "`&` currently supports scalar integer, float, or bool locals" ∷ [])
            pure no_info))
  ]

abbrev pub address_rule : Expr → Operand → Expr → Analysis ExprInfo
address_rule operand analyze (name span text) = address_of span text
address_rule operand analyze _ = do
  error (expr_span operand) (codes "`&` currently requires a mutable local name" ∷ [])
  analyze none
  pure no_info

-- `(~value) & max`
abbrev pub complement : SemanticType → ℕ → ℕ
complement type value = bit_and (2 ^ 64 - 1 - value) (max_integer_value type)

abbrev pub complement_value : ExprInfo → Option ℕ
complement_value operand =
    if operand.is_constant && is_integer operand.type
    then elim operand.integer_value [ none ↦ none | some v ↦ some (complement operand.type v) ]
    else none

unfoldable pub analyze_unary_expr :
    TokenKind → Expr → Operand → Option SemanticType → Analysis ExprInfo
analyze_unary_expr amp operand analyze expected =
    address_rule operand analyze (strip_parens operand)
analyze_unary_expr star operand analyze expected = do
  o ← analyze expected
  branch (is_pointer o.type) (pure (info (pointee_type o.type) false)) (do
    error (expr_span operand)
        (codes "`*` operand must be a pointer type, not `" ∷ type_name o.type ∷ codes "`" ∷ [])
    pure no_info)
analyze_unary_expr bang operand analyze expected = do
  o ← analyze none
  require (can_be_condition o.type) (expr_span operand)
      (codes "`!` operand must be `bool` or integer, not `" ∷ type_name o.type ∷ codes "`" ∷ [])
  pure (info (builtin_scalar bool) o.is_constant)
analyze_unary_expr minus operand analyze expected = do
  o ← analyze expected
  require (is_integer o.type || is_float o.type) (expr_span operand) (
      codes "`-` operand must be an integer or floating-point type, not `"
      ∷ type_name o.type
      ∷ codes "`"
      ∷ [])
  pure (info o.type o.is_constant)
analyze_unary_expr tilde operand analyze expected = do
  o ← analyze expected
  require (is_integer o.type) (expr_span operand)
      (codes "`~` operand must be an integer type, not `" ∷ type_name o.type ∷ codes "`" ∷ [])
  pure (record { type = o.type; is_constant = o.is_constant; integer_value = complement_value o })
analyze_unary_expr _ operand analyze expected = pure no_info

unfoldable pub truth : ExprInfo → Option Bool
truth e =
    if e.is_constant
    then elim e.integer_value [ none ↦ none | some v ↦ some (not (v == 0)) ]
    else none

abbrev bool_value : Bool → ℕ
bool_value b = if b then 1 else 0

-- The value that is known in spite of a right side that is not: `&&` of false, `||` of true. The
-- first argument is the value that decides.
unfoldable pub fold_logical : Bool → Option Bool → Option Bool → Option ℕ
fold_logical decides none right = none
fold_logical true (some true) right = some 1
fold_logical false (some false) right = some 0
fold_logical decides (some _) none = none
fold_logical decides (some _) (some right) = some (bool_value right)

unfoldable pub logical_info : Option ℕ → ExprInfo
logical_info none = info (builtin_scalar bool) false
logical_info (some v) = record {
  type = builtin_scalar bool;
  is_constant = true;
  integer_value = some v;
}

unfoldable pub analyze_logical : Bool → Expr → Expr → Operand → Operand → Analysis ExprInfo
analyze_logical decides left right analyze_left analyze_right = do
  l ← analyze_left none
  require (can_be_condition l.type) (expr_span left)
      (codes "left operand must be `bool` or integer" ∷ [])
  r ← analyze_right none
  require (can_be_condition r.type) (expr_span right)
      (codes "right operand must be `bool` or integer" ∷ [])
  pure (logical_info (fold_logical decides (truth l) (truth r)))

pub data OperatorClass : Type 0 where
  arithmetic bitwise shift comparison equality logical other : OperatorClass

unfoldable pub operator_class : TokenKind → OperatorClass
operator_class plus = arithmetic
operator_class minus = arithmetic
operator_class star = arithmetic
operator_class slash = arithmetic
operator_class percent = arithmetic
operator_class amp = bitwise
operator_class pipe = bitwise
operator_class caret = bitwise
operator_class less_less = shift
operator_class greater_greater = shift
operator_class less = comparison
operator_class less_equal = comparison
operator_class greater = comparison
operator_class greater_equal = comparison
operator_class equal_equal = equality
operator_class bang_equal = equality
operator_class amp_amp = logical
operator_class pipe_pipe = logical
operator_class _ = other

abbrev is_number : SemanticType → Bool
is_number t = is_integer t || is_float t

unfoldable pub require_numbers :
    TokenKind → SourceSpan → Expr → Expr → ExprInfo → ExprInfo → Analysis (Unit {0})
require_numbers op span left right l r = do
  require (is_number l.type) (expr_span left)
      (codes "left operand must be an integer or floating-point type" ∷ [])
  require (is_number r.type) (expr_span right)
      (codes "right operand must be an integer or floating-point type" ∷ [])
  require (not (is_kind op percent && (is_float l.type || is_float r.type))) span
      (codes "`%` operands must be integer types" ∷ [])

unfoldable pub require_integers : Expr → Expr → ExprInfo → ExprInfo → Analysis (Unit {0})
require_integers left right l r = do
  require (is_integer l.type) (expr_span left) (codes "left operand must be an integer type" ∷ [])
  require (is_integer r.type) (expr_span right) (codes "right operand must be an integer type" ∷ [])

unfoldable pub operand_checks :
    OperatorClass → TokenKind → SourceSpan → Expr → Expr → ExprInfo → ExprInfo → Analysis (Unit {0})
operand_checks arithmetic op span left right l r = require_numbers op span left right l r
operand_checks comparison op span left right l r = require_numbers op span left right l r
operand_checks bitwise op span left right l r = require_integers left right l r
operand_checks shift op span left right l r = require_integers left right l r
operand_checks _ op span left right l r = done

unfoldable pub binary_result :
    OperatorClass → TokenKind → SourceSpan → SourceSpan → ExprInfo → ExprInfo → Analysis ExprInfo
binary_result arithmetic op span right_span l r = analyze_constant_arithmetic op span right_span l r
binary_result bitwise op span right_span l r = analyze_constant_arithmetic op span right_span l r
binary_result shift op span right_span l r = analyze_constant_arithmetic op span right_span l r
binary_result comparison op span right_span l r =
    pure (info (builtin_scalar bool) (l.is_constant && r.is_constant))
binary_result equality op span right_span l r =
    pure (info (builtin_scalar bool) (l.is_constant && r.is_constant))
binary_result _ op span right_span l r = pure no_info

-- The operators but `&&` and `||`: the left side gives the type that is expected of the right.
unfoldable pub analyze_strict :
    TokenKind
    → SourceSpan
    → Expr
    → Expr
    → Operand
    → Operand
    → Option SemanticType
    → Analysis ExprInfo
analyze_strict op span left right analyze_left analyze_right expected = do
  l ← analyze_left expected
  r ← analyze_right (some l.type)
  operand_checks (operator_class op) op span left right l r
  require (same_type l.type r.type) span (
      codes "binary operands must have the same type, got `"
      ∷ type_name l.type
      ∷ codes "` and `"
      ∷ type_name r.type
      ∷ codes "`"
      ∷ [])
  binary_result (operator_class op) op span (expr_span right) l r

unfoldable pub analyze_binary_expr :
    TokenKind
    → SourceSpan
    → Expr
    → Expr
    → Operand
    → Operand
    → Option SemanticType
    → Analysis ExprInfo
analyze_binary_expr amp_amp span left right analyze_left analyze_right expected =
    analyze_logical false left right analyze_left analyze_right
analyze_binary_expr pipe_pipe span left right analyze_left analyze_right expected =
    analyze_logical true left right analyze_left analyze_right
analyze_binary_expr op span left right analyze_left analyze_right expected =
    analyze_strict op span left right analyze_left analyze_right expected
