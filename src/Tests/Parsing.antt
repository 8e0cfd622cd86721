-- ===== src/Tests/Parsing.antt =====
-- The parser on small inputs, and its theorems there.
use nexc.Prelude.{
  ℕ, ◌+◌, ◌*◌, ◌≤◌, ◌<◌, some, List, [], ◌∷◌, ◌≡◌, refl, String, codes, arith, length, false, same,
}
use nexc.Source.{SourceFile, SourceSpan, source_file, slice}
use nexc.Diagnostic.{empty}
use nexc.Token.{
  TokenKind, Token, ordinal, identifier, end_of_file, minus, star, left_paren, right_paren,
  left_bracket, right_bracket, semicolon, kw_fn, arrow, kw_void, left_brace, right_brace, kw_return,
}
use nexc.Lexer.Cursor.{Lexer}
use nexc.Lexer.Scan.{tokenize}
use nexc.Syntax.{Expr, no_exprs, and_expr, call, name, binary, expr_span}
use nexc.Parser.Cursor.{
  Parser, returned, thrown, back, peek, ◌>>=◌, branch, advance, match_kind, error_at, expect,
}
use nexc.Parser.Types.{builtin_type_kind, stoull, numeral, checked_length, array_length, parse_type}
use nexc.Parser.Expressions.{
  binary_precedence, next_kind, unexpected, parse_expr, binary_loop, parse_unary_expr,
  parse_postfix_expr, postfix_loop, parse_primary_expr, parse_array_literal, array_elements,
  parse_paren, parse_argument_list, arguments_loop,
}
use nexc.Parser.ExpressionsEnd.{parse_expr-returns}
use nexc.Parser.Progress.{Ready, Ends, progress}
use nexc.Parser.Grouping.{Grouped, level, parse_expr-Grouped}
use nexc.Parser.Items.{parse_translation_unit, parser}
use nexc.Parser.Termination.{Finishes, parse_translation_unit-Finishes, frontend-Finishes}

abbrev file : String → SourceFile
file text = source_file (codes "t.nexs") (codes text)

abbrev token_at : TokenKind → ℕ → ℕ → Token
token_at k a b = record { kind = k; span = record { start = a; end = b } }

abbrev span_at : ℕ → ℕ → SourceSpan
span_at a b = record { start = a; end = b }

-- `a - b * f(c) - d`
abbrev terms : Parser
terms = record {
  source = file "a - b * f(c) - d";
  tokens =
      token_at identifier 0 1
      ∷ token_at minus 2 3
      ∷ token_at identifier 4 5
      ∷ token_at star 6 7
      ∷ token_at identifier 8 9
      ∷ token_at left_paren 9 10
      ∷ token_at identifier 10 11
      ∷ token_at right_paren 11 12
      ∷ token_at minus 13 14
      ∷ token_at identifier 15 16
      ∷ token_at end_of_file 16 16
      ∷ [];
  current = 0;
  diagnostics = empty;
}

abbrev terms_tree : Expr
terms_tree =
    binary (span_at 0 16)
      (binary (span_at 0 12) (name (span_at 0 1) (codes "a")) minus (
        binary (span_at 4 12) (name (span_at 4 5) (codes "b")) star (
          call (span_at 8 12) (name (span_at 8 9) (codes "f"))
            (and_expr (name (span_at 10 11) (codes "c")) no_exprs))))
      minus (name (span_at 15 16) (codes "d"))

parse_expr-terms : parse_expr 100 1 terms ≡ returned terms_tree (record terms { current = 10 })
unfolding parse_expr binary_loop parse_unary_expr parse_postfix_expr postfix_loop parse_primary_expr
    parse_array_literal array_elements parse_paren parse_argument_list arguments_loop unexpected
    binary_precedence ◌>>=◌ branch advance match_kind error_at expect peek back expr_span
    source_file ordinal slice
parse_expr-terms = refl

parse_expr-Grouped_example :
    Grouped terms_tree
    × (1 ≤ level terms_tree)
    × (binary_precedence (next_kind (record terms { current = 10 })) < 1)
parse_expr-Grouped_example =
    parse_expr-Grouped 100 1 terms (omega arith) (omega arith) parse_expr-terms

terms-Ready : Ready terms
unfolding back
terms-Ready = record { within = omega arith; closed = refl }

parse_expr-returns_example : Ends false (progress terms) terms (parse_expr 100 1 terms)
parse_expr-returns_example = parse_expr-returns 100 1 (omega arith) terms-Ready (omega arith)

-- An array length that is no number: the exception of `std::stoull` leaves the parser.
abbrev bad_length : Parser
bad_length = record {
  source = file "[i32; x]";
  tokens =
      token_at left_bracket 0 1
      ∷ token_at identifier 1 4
      ∷ token_at semicolon 4 5
      ∷ token_at identifier 6 7
      ∷ token_at right_bracket 7 8
      ∷ token_at end_of_file 8 8
      ∷ [];
  current = 0;
  diagnostics = empty;
}

parse_type-bad_length : parse_type 10 bad_length ≡ thrown
unfolding parse_type array_length checked_length stoull numeral builtin_type_kind ◌>>=◌ branch
    advance match_kind error_at expect peek back source_file ordinal same slice
parse_type-bad_length = refl

-- `fn f() -> void { return; }`, by its tokens.
abbrev small_tokens : List Token
small_tokens =
    token_at kw_fn 0 2
    ∷ token_at identifier 3 4
    ∷ token_at left_paren 4 5
    ∷ token_at right_paren 5 6
    ∷ token_at arrow 7 9
    ∷ token_at kw_void 10 14
    ∷ token_at left_brace 15 16
    ∷ token_at kw_return 17 23
    ∷ token_at semicolon 23 24
    ∷ token_at right_brace 25 26
    ∷ token_at end_of_file 26 26
    ∷ []

abbrev small : SourceFile
small = file "fn f() -> void { return; }"

small-closed : (back small_tokens).kind ≡ end_of_file
unfolding back
small-closed = refl

parse_translation_unit-Finishes_example :
    Finishes
      (parser small small_tokens empty)
      (parse_translation_unit 96 (parser small small_tokens empty))
parse_translation_unit-Finishes_example =
    parse_translation_unit-Finishes small small_tokens empty 96 small-closed (omega arith)
      (omega arith)

frontend-Finishes_example :
    (tokens : List Token) × (l : Lexer) × (tokenize small empty ≡ some (tokens, l))
    × Finishes
        (parser small tokens l.diagnostics)
        (parse_translation_unit (8 * length tokens + 8) (parser small tokens l.diagnostics))
frontend-Finishes_example = frontend-Finishes small empty
