-- ===== src/Semantic/Calls.antt =====
-- The parts of the rules for arrays, indices and calls that look at no subexpression.
use nexc.Prelude.{
  ℕ, suc, ◌+◌, ◌==◌, Bool, true, false, not, ◌&&◌, ◌||◌, Option, none, some, List, [], ◌∷◌, ◌++◌,
  Bytes, codes, same, if◌then◌else◌, leb, length,
}
use nexc.Source.{SourceSpan}
use nexc.Diagnostic.Render.{decimal}
use nexc.Syntax.{Expr, Exprs, no_exprs, and_expr, name, paren, index, expr_span}
use nexc.StringLiteral.Decode.{decode_string_literal_content, decoded, malformed}
use nexc.StringLiteral.Format.{
  HoleKind, float_fixed, hex_lower, hex_upper, binary, FormatHole, parse_format_string, parsed,
  invalid,
}
use nexc.Semantic.Types.{
  SemanticType, is_integer, is_float, is_bool, is_string, is_void, is_invalid, is_fixed_array,
  same_type, type_name,
}
use nexc.Semantic.State.{
  Analysis, ExprInfo, ExprContext, normal, index_base, ValueSymbol, FunctionSymbol, ◌>>=◌, ◌>>◌,
  pure, done, gets, branch, when, error, info, no_info, lookup_value, lookup_function,
}
use nexc.Semantic.Scopes.{require_readable_local}
use nexc.Semantic.Elements.{require_indexed_scalar_readable, require_sub_array_slice_readable}
use nexc.Semantic.Operators.{require}

unfoldable pub length_exprs : Exprs → ℕ
length_exprs no_exprs = 0
length_exprs (and_expr e es) = suc (length_exprs es)

-- `name[…][…]`: the root, and the spans of the indices, the outermost dimension first.
pub record IndexedNameChain : Type 0 where
  pub root_span : SourceSpan
  pub root_name : Bytes
  pub index_spans : List SourceSpan

unfoldable pub peel_indexed_name_chain : Expr → Option IndexedNameChain
peel_indexed_name_chain (paren _ inner) = peel_indexed_name_chain inner
peel_indexed_name_chain (name span text) =
    some (record { root_span = span; root_name = text; index_spans = [] })
peel_indexed_name_chain (index _ base i) = elim (peel_indexed_name_chain base) [
  | none ↦ none
  | some chain ↦ some (record chain { index_spans = chain.index_spans ++ expr_span i ∷ [] })
]
peel_indexed_name_chain _ = none

unfoldable pub undefined_value : SourceSpan → Bytes → Analysis ExprInfo
undefined_value span text = do
  function ← gets λ s. lookup_function s text
  elim function [
    | some _ ↦ error span (codes "function `" ∷ text ∷ codes "` cannot be used as a value" ∷ [])
    | none ↦ error span (codes "undefined name `" ∷ text ∷ codes "`" ∷ [])
  ]
  pure no_info

abbrev skips_read : ExprContext → ValueSymbol → Bool
skips_read index_base symbol = is_fixed_array symbol.type
skips_read normal symbol = false

unfoldable pub analyze_name : SourceSpan → Bytes → ExprContext → Analysis ExprInfo
analyze_name span text ctx = do
  found ← gets λ s. lookup_value s text
  elim found [
    | none ↦ undefined_value span text
    | some symbol ↦ (do
      branch (skips_read ctx symbol) done (require_readable_local symbol span text)
      pure (info symbol.type symbol.is_const))
  ]

-- Whether a known index lies outside the first dimension.
abbrev is_out_of_bounds : List ℕ → ExprInfo → Bool
is_out_of_bounds dims i =
    if i.is_constant
    then elim i.integer_value [ none ↦ false | some v ↦ elim dims [ [] ↦ true | d ∷ ds ↦ leb d v ] ]
    else false

-- What an index must satisfy in the part `walk` of a type.
unfoldable pub check_index :
    SemanticType → SemanticType → SourceSpan → ExprInfo → Analysis (Unit {0})
check_index root_type walk span i = do
  require (is_integer i.type) span (codes "array index must be an integer type" ∷ [])
  when (is_out_of_bounds walk.array_dimensions i)
      (error span (codes "array index out of bounds for `" ∷ type_name root_type ∷ codes "`" ∷ []))

-- A read of a chain, behind its indices.
unfoldable pub require_chain_readable :
    ValueSymbol → IndexedNameChain → SemanticType → List ExprInfo → SourceSpan → Analysis (Unit {0})
require_chain_readable symbol chain walk indices span =
    when (not symbol.is_const && is_fixed_array symbol.type) (
      branch (is_fixed_array walk)
        (require_sub_array_slice_readable symbol (length chain.index_spans) indices span
          chain.root_name)
        (require_indexed_scalar_readable symbol symbol.type indices span chain.root_name))

abbrev is_format_substitution_type : SemanticType → Bool
is_format_substitution_type t = is_integer t || is_float t || is_bool t || is_string t

abbrev is_base : HoleKind → Bool
is_base hex_lower = true
is_base hex_upper = true
is_base binary = true
is_base _ = false

abbrev is_precision : HoleKind → Bool
is_precision float_fixed = true
is_precision _ = false

unfoldable pub check_format_argument : FormatHole → SourceSpan → ExprInfo → Analysis (Unit {0})
check_format_argument hole span arg = do
  when (not (is_invalid arg.type) && not (is_format_substitution_type arg.type)) (
      error span (
        codes "format argument has type `"
        ∷ type_name arg.type
        ∷ codes "`; supported types are integers, floats, bool, and str"
        ∷ []))
  when (is_precision hole.kind && not (is_float arg.type) && not (is_invalid arg.type))
      (error span (codes "format precision is only supported for floating-point arguments" ∷ []))
  when (is_base hole.kind && not (is_integer arg.type) && not (is_invalid arg.type))
      (error span (codes "integer base formatting is only supported for integer arguments" ∷ []))

-- The placeholders of a format literal, or the message of the step that refuses it.
pub data FormatLiteral : Type 0 where
  placeholders : List FormatHole → FormatLiteral
  refused : Bytes → FormatLiteral

unfoldable pub read_format : Bytes → FormatLiteral
read_format raw = elim (decode_string_literal_content raw) [
  | malformed message _ ↦ refused (codes message)
  | decoded content ↦ elim (parse_format_string content) [
    | invalid message ↦ refused (codes message)
    | parsed parts ↦ placeholders parts.holes
  ]
]

unfoldable pub check_placeholder_count : Bytes → SourceSpan → ℕ → ℕ → Analysis (Unit {0})
check_placeholder_count builtin span holes arguments = require (arguments == 1 + holes) span (
    codes "`"
    ∷ builtin
    ∷ codes "` format string has "
    ∷ decimal holes
    ∷ codes " `{}` placeholder(s), but callsite has "
    ∷ decimal arguments
    ∷ codes " argument(s) (expected "
    ∷ decimal (1 + holes)
    ∷ codes ")"
    ∷ [])

unfoldable pub check_argument_count : Bytes → SourceSpan → ℕ → ℕ → Analysis (Unit {0})
check_argument_count callee span expected got = require (got == expected) span (
    codes "function `"
    ∷ callee
    ∷ codes "` expects "
    ∷ decimal expected
    ∷ codes " argument(s), got "
    ∷ decimal got
    ∷ [])

unfoldable pub check_argument :
    Bytes → ℕ → SourceSpan → SemanticType → ExprInfo → Analysis (Unit {0})
check_argument callee number span expected actual = require (same_type expected actual.type) span (
    codes "argument "
    ∷ decimal number
    ∷ codes " to `"
    ∷ callee
    ∷ codes "` has type `"
    ∷ type_name actual.type
    ∷ codes "`, expected `"
    ∷ type_name expected
    ∷ codes "`"
    ∷ [])

abbrev pub is_format_print : FunctionSymbol → Bytes → Bool
is_format_print symbol text =
    symbol.is_builtin && (same text (codes "print") || same text (codes "println"))

-- The type of an array literal whose elements have the type of the first one.
unfoldable pub inferred_array : SourceSpan → ℕ → SemanticType → Bool → Analysis ExprInfo
inferred_array span count first all_const =
    branch (is_void first || is_string first || is_invalid first)
      (do error span (codes "cannot infer array type from these element types" ∷ []); pure no_info)
      (branch (is_fixed_array first)
        (pure (info (record first { array_dimensions = count ∷ first.array_dimensions }) all_const))
        (pure (
          info (record { kind = first.kind; array_dimensions = count ∷ []; pointer_depth = 0 })
            all_const)))
