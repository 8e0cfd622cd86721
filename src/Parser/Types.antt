-- ===== src/Parser/Types.antt =====
-- `Parser::parseType` and `Parser::builtinTypeKind` of src/frontend/parser.cpp.
use nexc.Prelude.{
  ℕ, zero, suc, ◌+◌, ◌*◌, ◌^◌, ◌-◌, Bool, true, false, not, ◌&&◌, ◌||◌, [], ◌∷◌, length, get_or,
  drop, Bytes, codes, same, ltb, leb, ◌==◌, if◌then◌else◌,
}
use nexc.Token.{
  Token, is_kind, star, left_bracket, right_bracket, semicolon, integer_literal, kw_bool, kw_void,
  identifier,
}
use nexc.Syntax.{
  BuiltinTypeKind, i8, i16, i32, i64, u8, u16, u32, u64, f32, f64, bool, str, void, invalid,
  TypeSyntax,
}
use nexc.Parser.Cursor.{
  Parser, Routine, thrown, out_of_fuel, span_of, previous, ◌>>=◌, ◌>>◌, pure, no_value, ask, branch,
  if_check, advance, error_at, expect, token_text,
}

unfoldable pub builtin_type_kind : Parser → Token → BuiltinTypeKind
builtin_type_kind p token =
    let text = token_text p token in
    if is_kind token.kind kw_bool
    then bool
    else if is_kind token.kind kw_void
    then void
    else if not (is_kind token.kind identifier)
    then invalid
    else if same text (codes "i8")
    then i8
    else if same text (codes "i16")
    then i16
    else if same text (codes "i32")
    then i32
    else if same text (codes "i64")
    then i64
    else if same text (codes "u8")
    then u8
    else if same text (codes "u16")
    then u16
    else if same text (codes "u32")
    then u32
    else if same text (codes "u64")
    then u64
    else if same text (codes "f32")
    then f32
    else if same text (codes "f64")
    then f64
    else if same text (codes "str")
    then str
    else invalid

-- `std::stoull(text, &consumed, 0)`: the value of the longest numeral in front and its length, or
-- `std::invalid_argument` where there is none, or `std::out_of_range`. The text is that of a token,
-- so it has no blank in front, and no digit behind a sign.
pub data Stoull : Type 0 where
  converted : ℕ → ℕ → Stoull
  invalid_argument out_of_range : Stoull

abbrev pub digit_value : ℕ → ℕ
digit_value c =
    if leb b'0' c && leb c b'9'
    then c - b'0'
    else if leb b'a' c && leb c b'f'
    then c - b'a' + 10
    else if leb b'A' c && leb c b'F'
    then c - b'A' + 10
    else 16

-- Digits of the base in front of the text: their value and their number, behind `acc` and `n`.
unfoldable pub numeral : ℕ → ℕ → ℕ → Bytes → ℕ × ℕ
numeral base acc n [] = (acc, n)
numeral base acc n (c ∷ cs) =
    let more = numeral base (acc * base + digit_value c) (n + 1) cs in
    if ltb (digit_value c) base then more else (acc, n)

abbrev pub in_range : ℕ → ℕ × ℕ → Stoull
in_range prefix (value, n) =
    if n == 0
    then invalid_argument
    else if ltb value (2 ^ 64)
    then converted value (prefix + n)
    else out_of_range

unfoldable pub stoull : Bytes → Stoull
unfolding numeral
stoull text =
    if get_or text 0 0 == b'0'
      && (get_or text 1 0 == b'x' || get_or text 1 0 == b'X')
      && ltb (digit_value (get_or text 2 0)) 16
    then in_range 2 (numeral 16 0 0 (drop 2 text))
    else if get_or text 0 0 == b'0'
    then in_range 0 (numeral 8 0 0 text)
    else in_range 0 (numeral 10 0 0 text)

-- The length of an array, from the conversion of its token's spelling; a length that is no
-- positive integer literal is reported.
unfoldable pub checked_length : Token → Stoull → Routine ℕ
checked_length token (converted value consumed) p =
    branch (not (consumed == length (token_text p token)) || value == 0)
      (do error_at token.span "array length must be a positive integer literal"; pure value)
      (pure value) p
checked_length token invalid_argument p = thrown
checked_length token out_of_range p = thrown

unfoldable pub array_length : Token → Routine ℕ
unfolding stoull
array_length token p = checked_length token (stoull (token_text p token)) p

abbrev pub is_no_element : BuiltinTypeKind → Bool
is_no_element invalid = true
is_no_element void = true
is_no_element str = true
is_no_element _ = false

abbrev pub is_invalid : BuiltinTypeKind → Bool
is_invalid invalid = true
is_invalid _ = false

unfoldable pub parse_type : ℕ → Routine TypeSyntax
parse_type zero p = out_of_fuel
parse_type (suc fuel) p =
    if_check star
      (do
        star_token ← advance
        inner ← parse_type fuel
        pure (record inner {
          pointer_depth = inner.pointer_depth + 1;
          span = span_of star_token.span.start inner.span.end;
        }))
      (if_check left_bracket
        (do
          bracket ← advance
          inner ← parse_type fuel
          expect semicolon "expected `;` in `[T; N]`"
          token ← expect integer_literal "expected compile-time array length"
          expect right_bracket "expected `]` after array length"
          value ← array_length token
          branch (is_no_element inner.kind)
              (error_at inner.span "array element type cannot be `void`, `str`, or invalid")
              (no_value)
          end ← ask (λ q. (previous q).span.end)
          pure (record {
            kind = inner.kind;
            array_dimensions = value ∷ inner.array_dimensions;
            pointer_depth = inner.pointer_depth;
            span = span_of bracket.span.start end;
          }))
        (do
          token ← advance
          kind ← ask (λ q. builtin_type_kind q token)
          branch (is_invalid kind) (error_at token.span "expected scalar type") (no_value)
          pure (record {
            kind = kind;
            array_dimensions = [];
            pointer_depth = 0;
            span = token.span;
          })))
      p
