-- ===== src/Lexer/Cursor.antt =====
-- The lexer's state, its byte tests and its cursor.
use nexc.Prelude.{
  codes, ℕ, zero, suc, ◌+◌, ◌-◌, Bool, true, false, not, ◌&&◌, ◌||◌, String, get_or, leb, ◌==◌,
  if◌then◌else◌,
}
use nexc.Source.{SourceSpan, SourceFile, size}
use nexc.Diagnostic.{DiagnosticBag, report_error}
use nexc.Token.{TokenKind, Token}

pub record Lexer : Type 0 where
  pub source : SourceFile
  pub current : ℕ
  pub diagnostics : DiagnosticBag

unfoldable pub is_ascii_alpha : ℕ → Bool
is_ascii_alpha c = leb b'a' c && leb c b'z' || leb b'A' c && leb c b'Z'

unfoldable pub is_identifier_start : ℕ → Bool
unfolding is_ascii_alpha
is_identifier_start c = is_ascii_alpha c || c == b'_'

unfoldable pub is_identifier_continue : ℕ → Bool
unfolding is_identifier_start
is_identifier_continue c = is_identifier_start c || leb b'0' c && leb c b'9'

unfoldable pub is_hex_digit : ℕ → Bool
is_hex_digit c = leb b'0' c && leb c b'9' || leb b'a' c && leb c b'f' || leb b'A' c && leb c b'F'

unfoldable pub is_decimal_digit : ℕ → Bool
is_decimal_digit c = leb b'0' c && leb c b'9'

unfoldable pub is_non_ascii : ℕ → Bool
is_non_ascii c = leb 0x80 c

-- A lexer at the start of a file, with the bag that the run reports to.
abbrev pub lexer : SourceFile → DiagnosticBag → Lexer
lexer source diagnostics = record { source = source; current = 0; diagnostics = diagnostics }

abbrev pub is_at_end : Lexer → Bool
is_at_end l = leb (size l.source) l.current

-- `source_.text()[index]`; past the end it is `\0`, as `peek` says.
abbrev pub byte_at : Lexer → ℕ → ℕ
byte_at l index = get_or l.source.text index 0

abbrev pub peek : Lexer → ℕ → ℕ
peek l offset = byte_at l (l.current + offset)

abbrev pub advance : Lexer → ℕ × Lexer
advance l = (byte_at l l.current, record l { current = l.current + 1 })

-- `advance()` where its result is not used.
abbrev pub skip : Lexer → Lexer
skip l = (advance l).1

abbrev pub match_byte : Lexer → ℕ → Bool × Lexer
match_byte l expected =
    if is_at_end l || not (peek l 0 == expected) then (false, l) else (true, skip l)

abbrev pub span_from : Lexer → ℕ → SourceSpan
span_from l start = record { start = start; end = l.current }

abbrev pub error_from : Lexer → ℕ → String → Lexer
error_from l start message = record l {
  diagnostics = report_error l.diagnostics (span_from l start) (codes message);
}

abbrev pub single : Lexer → TokenKind → ℕ → Token
single l kind start = record { kind = kind; span = span_from l start }

-- What is left to read: fuel for the loops, each round of which reads a byte.
abbrev pub remaining : Lexer → ℕ
remaining l = size l.source - l.current

-- `while (!isAtEnd() && test) advance();`
unfoldable pub advance_while : (Lexer → Bool) → ℕ → Lexer → Lexer
advance_while test zero l = l
advance_while test (suc fuel) l =
    let rest = advance_while test fuel (skip l) in if not (is_at_end l) && test l then rest else l

-- The loop with a test on the byte at the cursor.
abbrev pub advance_over : (ℕ → Bool) → Lexer → Lexer
advance_over p l = advance_while (λ s. p (peek s 0)) (remaining l) l
