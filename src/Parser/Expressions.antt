-- ===== src/Parser/Expressions.antt =====
-- The expression routines: precedence climbing over unary, postfix and primary forms.
--
-- Each routine takes fuel for the depth of its calls and the number of turns of its loops.
use nexc.Prelude.{ℕ, zero, suc, ◌+◌, Bool, true, false, ◌||◌, List, codes, ltb}
use nexc.Source.{SourceSpan}
use nexc.Token.{
  TokenKind, identifier, integer_literal, float_literal, string_literal, kw_false, kw_true, plus,
  minus, star, slash, percent, bang, tilde, equal_equal, bang_equal, less, less_equal, less_less,
  greater, greater_equal, greater_greater, amp, amp_amp, pipe, pipe_pipe, caret, left_paren,
  right_paren, left_bracket, right_bracket, comma,
}
use nexc.Syntax.{
  Expr, Exprs, no_exprs, and_expr, bool_literal, name, call, unary, binary, paren, array_literal,
  index, expr_span,
}
use nexc.Parser.Cursor.{
  Parser, Routine, out_of_fuel, span_of, peek, previous, check, ◌>>=◌, ◌>>◌, pure, ask, branch,
  if_check, if_at_end, if_match, here, advance, error_at, expect, token_text,
}

unfoldable pub binary_precedence : TokenKind → ℕ
binary_precedence pipe_pipe = 1
binary_precedence amp_amp = 2
binary_precedence pipe = 3
binary_precedence caret = 4
binary_precedence amp = 5
binary_precedence equal_equal = 6
binary_precedence bang_equal = 6
binary_precedence less = 7
binary_precedence less_equal = 7
binary_precedence greater = 7
binary_precedence greater_equal = 7
binary_precedence less_less = 8
binary_precedence greater_greater = 8
binary_precedence plus = 9
binary_precedence minus = 9
binary_precedence star = 10
binary_precedence slash = 10
binary_precedence percent = 10
binary_precedence _ = 0

abbrev pub is_prefix : Parser → Bool
is_prefix p = check p minus || check p bang || check p tilde || check p amp || check p star

-- The kind of the token that follows.
abbrev pub next_kind : Parser → TokenKind
next_kind p = (peek p 0).kind

-- A leaf, from the spelling of the token just read.
abbrev pub literal : (SourceSpan → List ℕ → Expr) → Routine Expr
literal node = do
  token ← ask previous
  text ← ask (λ p. token_text p token)
  pure (node token.span text)

unfoldable pub unexpected : Routine Expr
unexpected p =
    (do
      span ← ask here
      error_at span "expected expression"
      token ← advance
      pure (name token.span (codes "<error>")))
      p

unfoldable mutual
  pub parse_expr : ℕ → ℕ → Routine Expr
  parse_expr zero min_precedence p = out_of_fuel
  parse_expr (suc fuel) min_precedence p =
      (do left ← parse_unary_expr fuel; binary_loop fuel min_precedence left) p

  pub binary_loop : ℕ → ℕ → Expr → Routine Expr
  binary_loop zero min_precedence left p = out_of_fuel
  binary_loop (suc fuel) min_precedence left p =
      branch (ltb (binary_precedence (next_kind p)) min_precedence) (pure left)
        (do
          precedence ← ask (λ q. binary_precedence (next_kind q))
          op ← advance
          right ← parse_expr fuel (precedence + 1)
          binary_loop fuel min_precedence
              (binary (span_of (expr_span left).start (expr_span right).end) left op.kind right))
        p

  pub parse_unary_expr : ℕ → Routine Expr
  parse_unary_expr zero p = out_of_fuel
  parse_unary_expr (suc fuel) p =
      branch (is_prefix p)
        (do
          op ← advance
          operand ← parse_unary_expr fuel
          pure (unary (span_of op.span.start (expr_span operand).end) op.kind operand))
        (parse_postfix_expr fuel) p

  pub parse_postfix_expr : ℕ → Routine Expr
  parse_postfix_expr zero p = out_of_fuel
  parse_postfix_expr (suc fuel) p = (do expr ← parse_primary_expr fuel; postfix_loop fuel expr) p

  pub postfix_loop : ℕ → Expr → Routine Expr
  postfix_loop zero expr p = out_of_fuel
  postfix_loop (suc fuel) expr p =
      if_match left_paren
        (do
          arguments ← parse_argument_list fuel
          close ← expect right_paren "expected `)` after argument list"
          postfix_loop fuel (call (span_of (expr_span expr).start close.span.end) expr arguments))
        (if_match left_bracket
          (do
            inner ← parse_expr fuel 1
            close ← expect right_bracket "expected `]` after index expression"
            postfix_loop fuel (index (span_of (expr_span expr).start close.span.end) expr inner))
          (pure expr))
        p

  pub parse_primary_expr : ℕ → Routine Expr
  parse_primary_expr zero p = out_of_fuel
  parse_primary_expr (suc fuel) p =
      if_match integer_literal (literal Expr.integer_literal)
        (if_match float_literal (literal Expr.float_literal) (
          if_match string_literal (literal Expr.string_literal) (
            if_match kw_true (ask previous >>= λ token. pure (bool_literal token.span true)) (
              if_match kw_false (ask previous >>= λ token. pure (bool_literal token.span false)) (
                if_match identifier (literal name) (
                  if_match left_bracket (parse_array_literal fuel)
                    (if_match left_paren (parse_paren fuel) unexpected)))))))
        p

  pub parse_array_literal : ℕ → Routine Expr
  parse_array_literal zero p = out_of_fuel
  parse_array_literal (suc fuel) p =
      (do
        open_token ← ask previous
        elements ← if_check right_bracket (pure no_exprs) (array_elements fuel)
        close ← expect right_bracket "expected `]` to close array literal"
        pure (array_literal (span_of open_token.span.start close.span.end) elements))
        p

  pub array_elements : ℕ → Routine Exprs
  array_elements zero p = out_of_fuel
  array_elements (suc fuel) p =
      (do
        element ← parse_expr fuel 1
        if_match comma
            (if_check right_bracket
              (do
                span ← ask here
                error_at span "trailing commas are not allowed in array literals"
                pure (and_expr element no_exprs))
              (do elements ← array_elements fuel; pure (and_expr element elements)))
            (pure (and_expr element no_exprs)))
        p

  pub parse_paren : ℕ → Routine Expr
  parse_paren zero p = out_of_fuel
  parse_paren (suc fuel) p =
      (do
        open_token ← ask previous
        inner ← parse_expr fuel 1
        close ← expect right_paren "expected `)` after parenthesized expression"
        pure (paren (span_of open_token.span.start close.span.end) inner))
        p

  pub parse_argument_list : ℕ → Routine Exprs
  parse_argument_list zero p = out_of_fuel
  parse_argument_list (suc fuel) p = if_check right_paren (pure no_exprs) (arguments_loop fuel) p

  pub arguments_loop : ℕ → Routine Exprs
  arguments_loop zero p = out_of_fuel
  arguments_loop (suc fuel) p =
      if_at_end (pure no_exprs)
        (do
          argument ← parse_expr fuel 1
          if_match comma
              (if_check right_paren
                (do
                  span ← ask here
                  error_at span "trailing commas are not allowed in call arguments"
                  pure (and_expr argument no_exprs))
                (do arguments ← arguments_loop fuel; pure (and_expr argument arguments)))
              (pure (and_expr argument no_exprs)))
        p
