-- ===== src/Semantic/Constants.antt =====
-- Literals and constant arithmetic.
use nexc.Prelude.{
  ℕ, ◌+◌, ◌-◌, ◌*◌, ◌/◌, ◌%◌, ◌^◌, Bool, not, ◌&&◌, ◌||◌, Option, none, some, [], ◌∷◌, Bytes, codes,
  if◌then◌else◌, ◌==◌, ltb, leb, length, get_or, drop,
}
use Prim.Native.Nat.{bit_and, bit_or, bit_xor}
use nexc.Source.{SourceSpan}
use nexc.Token.{
  TokenKind, plus, minus, star, slash, percent, amp, pipe, caret, less_less, greater_greater,
}
use nexc.Parser.Types.{numeral}
use nexc.Syntax.{f32}
use nexc.Semantic.Types.{
  SemanticType, type_name, bit_width, is_signed, max_integer_value, is_integer, same_kind,
}
use nexc.Semantic.State.{
  Analysis, ExprInfo, FloatLibrary, FloatResult, ◌>>=◌, ◌>>◌, pure, done, when, error, info,
}

abbrev pub is_hexadecimal : Bytes → Bool
is_hexadecimal raw =
    leb 2 (length raw)
    && get_or raw 0 0 == b'0'
    && (get_or raw 1 0 == b'x' || get_or raw 1 0 == b'X')

-- `std::from_chars` over the whole text: no numeral, a value that does not fit, and a rest are
-- refused.
abbrev pub whole_numeral : ℕ → Bytes → Option ℕ
whole_numeral base digits =
    let (value, count) = numeral base 0 0 digits in
    if count == 0 || not (count == length digits) || not (ltb value (2 ^ 64))
    then none
    else some value

unfoldable pub parse_unsigned_integer : Bytes → Option ℕ
parse_unsigned_integer raw =
    if is_hexadecimal raw then whole_numeral 16 (drop 2 raw) else whole_numeral 10 raw

abbrev is_whole_and_finite : Bytes → FloatResult → Bool
is_whole_and_finite raw r = r.consumed == length raw && not (r.range_error && not r.is_finite)

unfoldable pub parse_finite_float_literal : FloatLibrary → Bytes → SemanticType → Bool
parse_finite_float_literal floats raw type =
    if same_kind type.kind f32
    then is_whole_and_finite raw (floats.strtof raw)
    else is_whole_and_finite raw (floats.strtod raw)

-- A literal that is no numeral of 64 bits is passed over.
unfoldable pub check_integer_literal_range : SourceSpan → Bytes → SemanticType → Analysis (Unit {0})
check_integer_literal_range span raw type = elim (parse_unsigned_integer raw) [
  | none ↦ done
  | some value ↦ when (ltb (max_integer_value type) value) (
      error span (
        codes "integer literal `"
        ∷ raw
        ∷ codes "` does not fit in type `"
        ∷ type_name type
        ∷ codes "`"
        ∷ []))
]

-- What constant arithmetic says of an operation on two values.
pub data Folded : Type 0 where
  value : ℕ → Folded
  unknown overflow division_by_zero remainder_by_zero shift_too_far : Folded

-- The arithmetic of `unsigned long long`, between the checks of the code.
unfoldable pub fold_constant : TokenKind → SemanticType → ℕ → ℕ → Folded
fold_constant plus type lhs rhs =
    let max = max_integer_value type in
    if ltb max rhs || ltb (max - rhs) lhs then overflow else value ((lhs + rhs) % 2 ^ 64)
fold_constant minus type lhs rhs =
    if ltb lhs rhs then (if is_signed type then unknown else overflow) else value (lhs - rhs)
fold_constant star type lhs rhs =
    if not (rhs == 0) && ltb (max_integer_value type / rhs) lhs
    then overflow
    else value (lhs * rhs % 2 ^ 64)
fold_constant slash type lhs rhs = if rhs == 0 then division_by_zero else value (lhs / rhs)
fold_constant percent type lhs rhs = if rhs == 0 then remainder_by_zero else value (lhs % rhs)
fold_constant amp type lhs rhs = value (bit_and lhs rhs)
fold_constant pipe type lhs rhs = value (bit_or lhs rhs)
fold_constant caret type lhs rhs = value (bit_xor lhs rhs)
fold_constant less_less type lhs rhs =
    let max = max_integer_value type in
    if leb (bit_width type) rhs
    then shift_too_far
    else if ltb (max / 2 ^ rhs) lhs
    then overflow
    else value (bit_and (lhs * 2 ^ rhs % 2 ^ 64) max)
fold_constant greater_greater type lhs rhs =
    if leb (bit_width type) rhs then shift_too_far else value (lhs / 2 ^ rhs)
fold_constant _ type lhs rhs = unknown

-- The report of the failed operation, and the value.
unfoldable pub report_folded : SourceSpan → SourceSpan → SemanticType → Folded → Analysis (Option ℕ)
report_folded span right_span type (value v) = pure (some v)
report_folded span right_span type unknown = pure none
report_folded span right_span type overflow = do
  error span (codes "constant expression overflows type `" ∷ type_name type ∷ codes "`" ∷ [])
  pure none
report_folded span right_span type division_by_zero = do
  error right_span (codes "division by zero in constant expression" ∷ [])
  pure none
report_folded span right_span type remainder_by_zero = do
  error right_span (codes "remainder by zero in constant expression" ∷ [])
  pure none
report_folded span right_span type shift_too_far = do
  error right_span (
      codes "shift count is greater than or equal to the bit width of `"
      ∷ type_name type
      ∷ codes "`"
      ∷ [])
  pure none

-- The values of both sides, if both are constants of an integer type with a known value.
unfoldable pub constant_operands : ExprInfo → ExprInfo → Option (ℕ × ℕ)
constant_operands left right =
    if left.is_constant && right.is_constant && is_integer left.type
    then elim left.integer_value [
      | none ↦ none
      | some lhs ↦ elim right.integer_value [ none ↦ none | some rhs ↦ some (lhs, rhs) ]
    ]
    else none

unfoldable pub analyze_constant_arithmetic :
    TokenKind → SourceSpan → SourceSpan → ExprInfo → ExprInfo → Analysis ExprInfo
analyze_constant_arithmetic op span right_span left right =
    let result = info left.type (left.is_constant && right.is_constant) in
    elim (constant_operands left right) [
      | none ↦ pure result
      | some (lhs, rhs) ↦ (do
        folded ← report_folded span right_span left.type (fold_constant op left.type lhs rhs)
        pure (record result { integer_value = folded }))
    ]
