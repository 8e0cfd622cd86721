-- ===== src/Lexer/Scan.antt =====
-- `Lexer::lexToken` and `Lexer::tokenize`.
use nexc.Prelude.{ℕ, zero, suc, ◌+◌, Option, none, some, List, [], ◌∷◌, ◌==◌, if◌then◌else◌}
use nexc.Source.{SourceFile, size}
use nexc.Diagnostic.{DiagnosticBag}
use nexc.Token.{
  TokenKind, Token, end_of_file, plus, minus, star, slash, percent, bang, tilde, equal, equal_equal,
  bang_equal, less, less_equal, less_less, greater, greater_equal, greater_greater, amp, amp_amp,
  pipe, pipe_pipe, caret, arrow, left_paren, right_paren, left_bracket, right_bracket, left_brace,
  right_brace, comma, semicolon, colon,
}
use nexc.Lexer.Cursor.{
  Lexer, is_identifier_start, is_decimal_digit, is_non_ascii, lexer, is_at_end, advance, match_byte,
  error_from, single,
}
use nexc.Lexer.Trivia.{skip_whitespace_and_comments}
use nexc.Lexer.Literals.{lex_identifier_or_keyword, lex_integer_literal, lex_string_literal}

-- `match(second) ? single(both, start) : otherwise`
abbrev pub pick : Lexer → ℕ → ℕ → TokenKind → (Lexer → Token × Lexer) → Token × Lexer
pick l start second both otherwise =
    let (matched, l') = match_byte l second in
    if matched then (single l' both start, l') else otherwise l'

abbrev pub one : ℕ → TokenKind → Lexer → Token × Lexer
one start kind l = (single l kind start, l)

-- The default of the switch: an error, and a placeholder token of kind `EndOfFile`.
abbrev pub unsupported : ℕ → ℕ → Lexer → Token × Lexer
unsupported c start l = (
  single l end_of_file start,
  error_from l start (
      if is_non_ascii c
      then "unsupported non-ASCII character in nex syntax"
      else "unsupported character"),
)

-- The switch on the byte `c` read at `start`, for operators and punctuation.
unfoldable pub lex_symbol : ℕ → ℕ → Lexer → Token × Lexer
unfolding is_non_ascii
lex_symbol c start l =
    if c == b'+'
    then one start plus l
    else if c == b'-'
    then pick l start b'>' arrow (one start minus)
    else if c == b'*'
    then one start star l
    else if c == b'/'
    then one start slash l
    else if c == b'%'
    then one start percent l
    else if c == b'!'
    then pick l start b'=' bang_equal (one start bang)
    else if c == b'~'
    then one start tilde l
    else if c == b'='
    then pick l start b'=' equal_equal (one start equal)
    else if c == b'<'
    then pick l start b'=' less_equal (λ l'. pick l' start b'<' less_less (one start less))
    else if c == b'>'
    then pick l start b'=' greater_equal
        (λ l'. pick l' start b'>' greater_greater (one start greater))
    else if c == b'&'
    then pick l start b'&' amp_amp (one start amp)
    else if c == b'|'
    then pick l start b'|' pipe_pipe (one start pipe)
    else if c == b'^'
    then one start caret l
    else if c == b'('
    then one start left_paren l
    else if c == b')'
    then one start right_paren l
    else if c == b'['
    then one start left_bracket l
    else if c == b']'
    then one start right_bracket l
    else if c == b'{'
    then one start left_brace l
    else if c == b'}'
    then one start right_brace l
    else if c == b','
    then one start comma l
    else if c == b';'
    then one start semicolon l
    else if c == b':'
    then one start colon l
    else unsupported c start l

unfoldable pub lex_token : Lexer → Token × Lexer
lex_token l =
    let start = l.current in
    let (c, l') = advance l in
    if is_identifier_start c
    then lex_identifier_or_keyword l'
    else if is_decimal_digit c
    then lex_integer_literal l'
    else if c == b'"'
    then lex_string_literal start l'
    else lex_symbol c start l'

abbrev pub push_front : Token → Option (List Token × Lexer) → Option (List Token × Lexer)
push_front token none = none
push_front token (some (tokens, l)) = some (token ∷ tokens, l)

-- The `while (true)` of `tokenize`; `none` means that the fuel ran out.
unfoldable pub tokenize_loop : ℕ → Lexer → Option (List Token × Lexer)
tokenize_loop zero l = none
tokenize_loop (suc fuel) l =
    let l₁ = skip_whitespace_and_comments l in
    let (token, l₂) = lex_token l₁ in
    let rest = push_front token (tokenize_loop fuel l₂) in
    if is_at_end l₁ then some (single l₁ end_of_file l₁.current ∷ [], l₁) else rest

-- Every round but the last reads a token, and a token has a byte.
unfoldable pub tokenize : SourceFile → DiagnosticBag → Option (List Token × Lexer)
tokenize source diagnostics = tokenize_loop (size source + 1) (lexer source diagnostics)
