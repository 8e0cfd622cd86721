-- ===== src/Tests/Lexing.antt =====
-- The lexer on small files, and its theorems there.
use nexc.Prelude.{ℕ, Option, none, some, List, [], ◌∷◌, ◌++◌, ◌≡◌, ◌↔◌, refl, String, Bytes, codes}
use nexc.Source.{SourceFile, size, source_file}
use nexc.Diagnostic.{DiagnosticSeverity, Diagnostic, empty, report_error}
use nexc.Token.{
  TokenKind, Token, keyword_kind, dump_token, identifier, string_literal, end_of_file, kw_let,
  kw_while, equal, semicolon, plus,
}
use nexc.Token.Keywords.{spelling, keyword_kind_iff}
use nexc.Token.Names.{token_kind_name-injective}
use nexc.Lexer.Cursor.{
  Lexer, is_identifier_start, is_identifier_continue, is_hex_digit, is_decimal_digit, is_non_ascii,
  advance_while,
}
use nexc.Lexer.Trivia.{skip_block_comment, trivia_round, trivia_loop, skip_whitespace_and_comments}
use nexc.Lexer.Literals.{
  lex_identifier_or_keyword, lex_hex_literal, lex_fraction, lex_exponent, lex_decimal_literal,
  lex_integer_literal, skip_escape, string_loop, lex_string_literal,
}
use nexc.Lexer.Scan.{lex_symbol, lex_token, tokenize_loop, tokenize}
use nexc.Lexer.Grammar.{Splits}
use nexc.Lexer.Sound.{InOrder, tokenize-InOrder, tokenize-Splits}
use nexc.StringLiteral.Lexed.{StringsDecode, tokenize-StringsDecode}

abbrev file : String → SourceFile
file text = source_file (codes "t.nexs") (codes text)

-- The whole lexer, open.
run : String → Option (List Token × Lexer)
unfolding tokenize tokenize_loop lex_token lex_symbol lex_string_literal string_loop skip_escape
    lex_integer_literal lex_decimal_literal lex_exponent lex_fraction lex_hex_literal
    lex_identifier_or_keyword skip_whitespace_and_comments trivia_loop trivia_round
    skip_block_comment advance_while is_identifier_start is_identifier_continue is_hex_digit
    is_decimal_digit is_non_ascii source_file keyword_kind report_error
run text = tokenize (file text) empty

dump_all : SourceFile → List Token → Bytes
unfolding dump_token
dump_all source [] = []
dump_all source (token ∷ tokens) = dump_token source token ++ dump_all source tokens

dump : String → Bytes
unfolding run dump_all
dump text = elim (run text) [ none ↦ [] | some (tokens, l) ↦ dump_all (file text) tokens ]

-- tests/golden/dump_tokens/minimal.tokens.txt
minimal_tokens :
    dump "fn main() -> void {\n    return;\n}\n"
    ≡ codes
        "KwFn [0, 2)\nIdentifier [3, 7) `main`\nLeftParen [7, 8)\nRightParen [8, 9)\nArrow [10, 12)\nKwVoid [13, 17)\nLeftBrace [18, 19)\nKwReturn [24, 30)\nSemicolon [30, 31)\nRightBrace [32, 33)\nEndOfFile [34, 34)\n"
unfolding dump
minimal_tokens = refl

abbrev errors_of : Option (List Token × Lexer) → List Diagnostic
errors_of none = []
errors_of (some (tokens, l)) = l.diagnostics.diagnostics

abbrev an_error : String → ℕ → ℕ → Diagnostic
an_error message a b = record {
  severity = DiagnosticSeverity.error;
  message = codes message;
  span = record { start = a; end = b };
}

bad_numbers :
    errors_of (run "0x 1e+ 2.5")
    ≡ an_error "expected at least one hexadecimal digit after '0x'" 0 2
      ∷ an_error "expected at least one exponent digit in float literal" 3 6
      ∷ []
unfolding run
bad_numbers = refl

open_comment : errors_of (run "a /* b") ≡ an_error "unterminated block comment" 2 6 ∷ []
unfolding run
open_comment = refl

bad_strings :
    errors_of (run "\"\\q\" \"ab\n")
    ≡ an_error "unsupported string escape sequence" 1 3
      ∷ an_error "unterminated string literal" 5 9
      ∷ []
unfolding run
bad_strings = refl

abbrev sample : String
sample = "let s = \"a\\n\"; // end"

abbrev token_at : TokenKind → ℕ → ℕ → Token
token_at k a b = record { kind = k; span = record { start = a; end = b } }

abbrev sample_tokens : List Token
sample_tokens =
    token_at kw_let 0 3
    ∷ token_at identifier 4 5
    ∷ token_at equal 6 7
    ∷ token_at string_literal 8 13
    ∷ token_at semicolon 13 14
    ∷ token_at end_of_file 21 21
    ∷ []

abbrev after_sample : Lexer
after_sample = record { source = file sample; current = 21; diagnostics = empty }

tokenize-sample : tokenize (file sample) empty ≡ some (sample_tokens, after_sample)
unfolding run
tokenize-sample = refl

tokenize-InOrder_example :
    (tokens : List Token) × (l : Lexer) × (tokenize (file sample) empty ≡ some (tokens, l))
    × InOrder (size (file sample)) 0 tokens
tokenize-InOrder_example = tokenize-InOrder (file sample) empty

tokenize-Splits_example :
    (after_sample.diagnostics ≡ empty) × Splits (file sample).text 0 sample_tokens
tokenize-Splits_example = tokenize-Splits (file sample) empty tokenize-sample refl

tokenize-StringsDecode_example : StringsDecode (file sample) sample_tokens
tokenize-StringsDecode_example = tokenize-StringsDecode (file sample) empty tokenize-sample refl

keyword_kind_iff_example :
    (keyword_kind (codes "while") ≡ kw_while) ↔ (spelling kw_while ≡ some (codes "while"))
keyword_kind_iff_example = keyword_kind_iff (codes "while") kw_while (cc)

token_kind_name-injective_example : plus ≡ plus
token_kind_name-injective_example = token_kind_name-injective plus plus refl
