-- ===== src/Parser/Items.antt =====
-- Declarations and the whole file.
use nexc.Prelude.{ℕ, zero, suc, Option, none, some, List, [], ◌∷◌}
use nexc.Source.{SourceFile}
use nexc.Diagnostic.{DiagnosticBag}
use nexc.Token.{
  Token, identifier, kw_const, kw_fn, equal, arrow, left_paren, right_paren, comma, semicolon,
  colon,
}
use nexc.Syntax.{stmt_span, ParameterSyntax, Item, function_decl, const_decl, TranslationUnit}
use nexc.Parser.Cursor.{
  Parser, Routine, out_of_fuel, span_of, ◌>>=◌, ◌>>◌, pure, ask, if_check, if_at_end, if_match,
  here, advance, error_at, expect, token_text,
}
use nexc.Parser.Types.{parse_type}
use nexc.Parser.Expressions.{parse_expr}
use nexc.Parser.Statements.{parse_block_stmt}

unfoldable pub parse_parameter : ℕ → Routine ParameterSyntax
parse_parameter fuel = do
  name_token ← expect identifier "expected parameter name"
  expect colon "expected `:` after parameter name"
  type ← parse_type fuel
  text ← ask (λ p. token_text p name_token)
  pure (record {
    name = text;
    name_span = name_token.span;
    type = type;
    span = span_of name_token.span.start type.span.end;
  })

unfoldable pub parameters_loop : ℕ → Routine (List ParameterSyntax)
parameters_loop zero p = out_of_fuel
parameters_loop (suc fuel) p =
    if_at_end (pure [])
      (do
        parameter ← parse_parameter fuel
        if_match comma
            (if_check right_paren
              (do
                span ← ask here
                error_at span "trailing commas are not allowed in parameter lists"
                pure (parameter ∷ []))
              (do parameters ← parameters_loop fuel; pure (parameter ∷ parameters)))
            (pure (parameter ∷ [])))
      p

unfoldable pub parse_parameter_list : ℕ → Routine (List ParameterSyntax)
parse_parameter_list fuel = if_check right_paren (pure []) (parameters_loop fuel)

unfoldable pub parse_function_decl : ℕ → Routine Item
parse_function_decl fuel = do
  keyword ← expect kw_fn "expected `fn`"
  name_token ← expect identifier "expected function name"
  expect left_paren "expected `(` after function name"
  parameters ← parse_parameter_list fuel
  expect right_paren "expected `)` after parameter list"
  expect arrow "expected `->` before function return type"
  return_type ← parse_type fuel
  body ← parse_block_stmt fuel
  text ← ask (λ p. token_text p name_token)
  pure (
      function_decl (span_of keyword.span.start (stmt_span body).end) text name_token.span
        parameters return_type body)

unfoldable pub parse_const_decl : ℕ → Routine Item
parse_const_decl fuel = do
  keyword ← expect kw_const "expected `const`"
  name_token ← expect identifier "expected constant name"
  expect colon "expected `:` after constant name"
  type ← parse_type fuel
  expect equal "expected `=` in constant declaration"
  init ← parse_expr fuel 1
  close ← expect semicolon "expected `;` after constant declaration"
  text ← ask (λ p. token_text p name_token)
  pure (const_decl (span_of keyword.span.start close.span.end) text name_token.span type init)

unfoldable pub parse_item : ℕ → Routine (Option Item)
parse_item fuel = if_check kw_fn (parse_function_decl fuel >>= λ item. pure (some item)) (
    if_check kw_const (parse_const_decl fuel >>= λ item. pure (some item)) (do
      span ← ask here
      error_at span "expected top-level declaration (`fn` or `const`)"
      pure none))

-- A parsed item is kept in front of the others; in place of a failed one a token is skipped.
unfoldable pub collect_item : Option Item → Routine (List Item) → Routine (List Item)
collect_item (some item) rest = do items ← rest; pure (item ∷ items)
collect_item none rest = advance >> rest

unfoldable pub items_loop : ℕ → Routine (List Item)
items_loop zero p = out_of_fuel
items_loop (suc fuel) p =
    if_at_end (pure []) (parse_item fuel >>= λ parsed. collect_item parsed (items_loop fuel)) p

unfoldable pub parse_translation_unit : ℕ → Routine TranslationUnit
parse_translation_unit fuel = items_loop fuel >>= λ items. pure (record { items = items })

-- The parser at the start of the tokens.
unfoldable pub parser : SourceFile → List Token → DiagnosticBag → Parser
parser source tokens diagnostics = record {
  source = source;
  tokens = tokens;
  current = 0;
  diagnostics = diagnostics;
}
