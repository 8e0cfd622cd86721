-- ===== src/Lexer/Grammar.antt =====
-- The lexical structure of a text by positions, with no lexer state: what may stand between two
-- tokens, what a token is, and how a text splits into tokens.
use nexc.Prelude.{
  ℕ, ◌+◌, ◌-◌, ◌≤◌, ◌<◌, Bool, true, false, ◌&&◌, ◌||◌, Option, none, some, List, [], ◌∷◌, ◌≡◌, ◌≢◌,
  ◌⊎◌, length, get_or, Bytes, ◌==◌, if◌then◌else◌,
}
use nexc.Source.{substr}
use nexc.Token.{
  TokenKind, Token, end_of_file, plus, minus, star, slash, percent, bang, tilde, equal, equal_equal,
  bang_equal, less, less_equal, less_less, greater, greater_equal, greater_greater, amp, amp_amp,
  pipe, pipe_pipe, caret, arrow, left_paren, right_paren, left_bracket, right_bracket, left_brace,
  right_brace, comma, semicolon, colon, integer_literal, float_literal, string_literal,
  keyword_kind,
}
use nexc.Lexer.Cursor.{is_identifier_start, is_identifier_continue, is_hex_digit, is_decimal_digit}
use nexc.Lexer.Trivia.{is_blank, not_newline}
use nexc.Lexer.Literals.{is_escape}

abbrev pub byte : Bytes → ℕ → ℕ
byte t i = get_or t i 0

-- The bytes from `a` up to `b` pass the test, and it goes no further: the text ends at `b`, or the
-- byte there fails.
pub record MaximalRun (p : ℕ → Bool) (t : Bytes) (a b : ℕ) : Type 0 where
  pub from : a ≤ b
  pub inside : b ≤ length t
  pub passed : (i : ℕ) → a ≤ i → i < b → p (byte t i) ≡ true
  pub stopped : (b ≡ length t) ⊎ (p (byte t b) ≡ false)

abbrev pub closes : Bytes → ℕ → Bool
closes t i = byte t i == b'*' && byte t (i + 1) == b'/'

-- `t` holds only blanks and comments from `a` up to `b`.
pub data Trivia (t : Bytes) : ℕ → ℕ → Type 0 where
  nothing : {a b : ℕ} → a ≡ b → Trivia t a b
  blank : {a b : ℕ} → a < length t → is_blank (byte t a) ≡ true → Trivia t (a + 1) b → Trivia t a b
  line_comment :
      {a b : ℕ} (m : ℕ)
      → byte t a ≡ b'/'
      → byte t (a + 1) ≡ b'/'
      → MaximalRun not_newline t a m
      → Trivia t m b
      → Trivia t a b
  -- The first `*/` behind the opening ends the comment: comments do not nest.
  block_comment :
      {a b : ℕ} (m : ℕ)
      → byte t a ≡ b'/'
      → byte t (a + 1) ≡ b'*'
      → a + 2 ≤ m
      → closes t m ≡ true
      → ((i : ℕ) → a + 2 ≤ i → i < m → closes t i ≡ false)
      → Trivia t (m + 2) b
      → Trivia t a b

-- A blank or a comment begins at `a`.
abbrev pub starts_trivia : Bytes → ℕ → Bool
starts_trivia t a =
    is_blank (byte t a) || byte t a == b'/' && (byte t (a + 1) == b'/' || byte t (a + 1) == b'*')

-- The two-byte operators; the longer one is read where both fit.
unfoldable pub two_byte : ℕ → ℕ → Option TokenKind
two_byte c d =
    if c == b'-' && d == b'>'
    then some arrow
    else if c == b'!' && d == b'='
    then some bang_equal
    else if c == b'=' && d == b'='
    then some equal_equal
    else if c == b'<' && d == b'='
    then some less_equal
    else if c == b'<' && d == b'<'
    then some less_less
    else if c == b'>' && d == b'='
    then some greater_equal
    else if c == b'>' && d == b'>'
    then some greater_greater
    else if c == b'&' && d == b'&'
    then some amp_amp
    else if c == b'|' && d == b'|'
    then some pipe_pipe
    else none

unfoldable pub one_byte : ℕ → Option TokenKind
one_byte c =
    if c == b'+'
    then some plus
    else if c == b'-'
    then some minus
    else if c == b'*'
    then some star
    else if c == b'/'
    then some slash
    else if c == b'%'
    then some percent
    else if c == b'!'
    then some bang
    else if c == b'~'
    then some tilde
    else if c == b'='
    then some equal
    else if c == b'<'
    then some less
    else if c == b'>'
    then some greater
    else if c == b'&'
    then some amp
    else if c == b'|'
    then some pipe
    else if c == b'^'
    then some caret
    else if c == b'('
    then some left_paren
    else if c == b')'
    then some right_paren
    else if c == b'['
    then some left_bracket
    else if c == b']'
    then some right_bracket
    else if c == b'{'
    then some left_brace
    else if c == b'}'
    then some right_brace
    else if c == b','
    then some comma
    else if c == b';'
    then some semicolon
    else if c == b':'
    then some colon
    else none

-- The kind and the length of the operator that begins with `c` and `d`.
unfoldable pub symbol : ℕ → ℕ → Option (TokenKind × ℕ)
unfolding two_byte one_byte
symbol c d = elim (two_byte c d) [
  | some k ↦ some (k, 2)
  | none ↦ elim (one_byte c) [ some k ↦ some (k, 1) | none ↦ none ]
]

abbrev pub has_hex_prefix : Bytes → ℕ → Bool
has_hex_prefix t s = byte t s == b'0' && (byte t (s + 1) == b'x' || byte t (s + 1) == b'X')

abbrev pub has_fraction : Bytes → ℕ → Bool
has_fraction t m = byte t m == b'.' && is_decimal_digit (byte t (m + 1))

abbrev pub has_exponent : Bytes → ℕ → Bool
has_exponent t m = byte t m == b'e' || byte t m == b'E'

abbrev pub has_sign : Bytes → ℕ → Bool
has_sign t m = byte t m == b'+' || byte t m == b'-'

-- From `a` to `b` stands the optional fraction of a literal; `Exponent` likewise.
abbrev pub Fraction : Bytes → ℕ → ℕ → Type 0
Fraction t a b = if has_fraction t a then MaximalRun is_decimal_digit t (a + 1) b else (b ≡ a)

-- Where an exponent's digits begin.
abbrev pub exponent_digits : Bytes → ℕ → ℕ
exponent_digits t a = if has_sign t (a + 1) then a + 2 else a + 1

abbrev pub Exponent : Bytes → ℕ → ℕ → Type 0
Exponent t a b =
    if has_exponent t a
    then MaximalRun is_decimal_digit t (exponent_digits t a) b × (exponent_digits t a < b)
    else (b ≡ a)

-- The rest of a string literal from `a` up to `b`, its closing quote included.
pub data StringRest (t : Bytes) : ℕ → ℕ → Type 0 where
  quote : {a b : ℕ} → a < length t → byte t a ≡ b'"' → b ≡ a + 1 → StringRest t a b
  escape :
      {a b : ℕ}
      → a + 1 < length t
      → byte t a ≡ b'\\'
      → is_escape (byte t (a + 1)) ≡ true
      → StringRest t (a + 2) b
      → StringRest t a b
  plain :
      {a b : ℕ}
      → a < length t
      → byte t a ≢ b'"'
      → byte t a ≢ b'\\'
      → byte t a ≢ b'\n'
      → byte t a ≢ b'\r'
      → StringRest t (a + 1) b
      → StringRest t a b

-- `t` has a token of this kind from `s` up to `e`.
pub data Lexeme (t : Bytes) (s e : ℕ) : TokenKind → Type 0 where
  word :
      {k : TokenKind}
      → is_identifier_start (byte t s) ≡ true
      → MaximalRun is_identifier_continue t (s + 1) e
      → k ≡ keyword_kind (substr t s (e - s))
      → Lexeme t s e k
  hex :
      {k : TokenKind}
      → has_hex_prefix t s ≡ true
      → MaximalRun is_hex_digit t (s + 2) e
      → s + 2 < e
      → k ≡ integer_literal
      → Lexeme t s e k
  decimal :
      {k : TokenKind} (m n : ℕ)
      → is_decimal_digit (byte t s) ≡ true
      → has_hex_prefix t s ≡ false
      → MaximalRun is_decimal_digit t (s + 1) m
      → Fraction t m n
      → Exponent t n e
      → k ≡ (if has_fraction t m || has_exponent t n then float_literal else integer_literal)
      → Lexeme t s e k
  text :
      {k : TokenKind}
      → byte t s ≡ b'"'
      → StringRest t (s + 1) e
      → k ≡ string_literal
      → Lexeme t s e k
  operator :
      {k : TokenKind} (n : ℕ)
      → symbol (byte t s) (byte t (s + 1)) ≡ some (k, n)
      → e ≡ s + n
      → Lexeme t s e k

-- `t` from `a` on is trivia and the tokens of the list in turn, each where no more trivia begins,
-- and then trivia up to its end, where the list's last token stands, an empty `EndOfFile`.
pub data Splits (t : Bytes) : ℕ → List Token → Type 0 where
  last :
      {a b : ℕ} {rest : List Token}
      → Trivia t a b
      → b ≡ length t
      → rest ≡ record { kind = end_of_file; span = record { start = b; end = b } } ∷ []
      → Splits t a rest
  next :
      {a s : ℕ} (e : ℕ) (k : TokenKind) {tokens rest : List Token}
      → Trivia t a s
      → starts_trivia t s ≡ false
      → s < e
      → e ≤ length t
      → Lexeme t s e k
      → Splits t e rest
      → tokens ≡ record { kind = k; span = record { start = s; end = e } } ∷ rest
      → Splits t a tokens
