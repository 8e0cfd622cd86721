-- ===== src/Lexer/Literals.antt =====
-- `Lexer::lexIdentifierOrKeyword`, `lexIntegerLiteral` and `lexStringLiteral`. Each is entered with
-- the first byte of the token read, and returns the token and the lexer behind it.
use nexc.Prelude.{ℕ, zero, suc, ◌-◌, Bool, true, false, ◌&&◌, ◌||◌, ◌==◌, if◌then◌else◌}
use nexc.Source.{slice}
use nexc.Token.{Token, keyword_kind, integer_literal, float_literal, string_literal}
use nexc.Lexer.Cursor.{
  Lexer, is_identifier_continue, is_hex_digit, is_decimal_digit, is_at_end, peek, byte_at, advance,
  skip, single, span_from, error_from, remaining, advance_while, advance_over,
}

unfoldable pub lex_identifier_or_keyword : Lexer → Token × Lexer
unfolding advance_while is_identifier_continue slice keyword_kind
lex_identifier_or_keyword l =
    let start = l.current - 1 in
    let l' = advance_over is_identifier_continue l in
    let span = span_from l' start in
    (record { kind = keyword_kind (slice l'.source span); span = span }, l')

unfoldable pub lex_hex_literal : ℕ → Lexer → Token × Lexer
unfolding advance_while is_hex_digit
lex_hex_literal start l =
    let first = skip l in
    let l' = advance_over is_hex_digit first in
    (
      single l' integer_literal start,
      if l'.current == first.current
          then error_from l' start "expected at least one hexadecimal digit after '0x'"
          else l',
    )

-- `.` and digits: whether they are there, and the lexer behind them.
unfoldable pub lex_fraction : Lexer → Bool × Lexer
unfolding advance_while is_decimal_digit
lex_fraction l =
    if peek l 0 == b'.' && is_decimal_digit (peek l 1)
    then (true, advance_over is_decimal_digit (skip l))
    else (false, l)

abbrev pub skip_sign : Lexer → Lexer
skip_sign l = if peek l 0 == b'+' || peek l 0 == b'-' then skip l else l

-- The exponent of a literal that began at `start`.
unfoldable pub lex_exponent : ℕ → Lexer → Bool × Lexer
unfolding advance_while is_decimal_digit
lex_exponent start l =
    let first = skip_sign (skip l) in
    let l' = advance_over is_decimal_digit first in
    if peek l 0 == b'e' || peek l 0 == b'E'
    then (
      true,
      if l'.current == first.current
          then error_from l' start "expected at least one exponent digit in float literal"
          else l',
    )
    else (false, l)

unfoldable pub lex_decimal_literal : ℕ → Lexer → Token × Lexer
lex_decimal_literal start l =
    let (has_fraction, l₁) = lex_fraction (advance_over is_decimal_digit l) in
    let (has_exponent, l₂) = lex_exponent start l₁ in
    (single l₂ (if has_fraction || has_exponent then float_literal else integer_literal) start, l₂)

unfoldable pub lex_integer_literal : Lexer → Token × Lexer
lex_integer_literal l =
    let start = l.current - 1 in
    if byte_at l start == b'0' && (peek l 0 == b'x' || peek l 0 == b'X')
    then lex_hex_literal start l
    else lex_decimal_literal start l

abbrev pub is_escape : ℕ → Bool
is_escape c = c == b'"' || c == b'\\' || c == b'n' || c == b't' || c == b'r'

abbrev pub unterminated : ℕ → Lexer → Token × Lexer
unterminated start l =
    (single l string_literal start, error_from l start "unterminated string literal")

-- Behind a backslash with a byte to read: that byte is read too.
unfoldable pub skip_escape : Lexer → Lexer
skip_escape l =
    let (escaped, l') = advance l in
    if is_escape escaped
    then l'
    else error_from l' (l'.current - 2) "unsupported string escape sequence"

-- The loop over the body; it reads a byte in each round, and `break` leads to `unterminated`.
unfoldable pub string_loop : ℕ → ℕ → Lexer → Token × Lexer
unfolding skip_escape
string_loop zero start l = unterminated start l
string_loop (suc fuel) start l =
    let (c, l') = advance l in
    let more = string_loop fuel start l' in
    let escaped = string_loop fuel start (skip_escape l') in
    if is_at_end l
    then unterminated start l
    else if c == b'"'
    then (single l' string_literal start, l')
    else if c == b'\n' || c == b'\r'
    then unterminated start l'
    else if c == b'\\'
    then (if is_at_end l' then unterminated start l' else escaped)
    else more

unfoldable pub lex_string_literal : ℕ → Lexer → Token × Lexer
unfolding string_loop
lex_string_literal start l = string_loop (remaining l) start l
