-- ===== src/Parser/Statements.antt =====
-- The statement routines. Blocks, `if`, `while` and `for` call each other; the rest stand alone.
use nexc.Prelude.{ℕ, zero, suc, Bool, true, false, not, ◌&&◌, ◌||◌, Option, none, some, [], String}
use nexc.Source.{SourceSpan}
use nexc.Token.{
  TokenKind, Token, is_kind, identifier, integer_literal, float_literal, string_literal, kw_break,
  kw_const, kw_continue, kw_else, kw_false, kw_for, kw_if, kw_let, kw_mut, kw_return, kw_true,
  kw_while, minus, star, bang, tilde, equal, left_paren, right_paren, left_bracket, left_brace,
  right_brace, semicolon, colon,
}
use nexc.Syntax.{
  Expr, name, call, index, unary, expr_span, Stmt, block, let_stmt, assign, return_stmt, if_stmt,
  while_stmt, for_stmt, call_stmt, break_stmt, continue_stmt, Stmts, no_stmts, and_stmt, MaybeStmt,
  null, present, stmt_span, invalid,
}
use nexc.Parser.Cursor.{
  Parser, Routine, out_of_fuel, span_of, previous, check, is_at_end, ◌>>=◌, ◌>>◌, pure, no_value,
  ask, branch, if_check, if_match, here, advance, match_kind, error_at, expect, token_text,
}
use nexc.Parser.Types.{parse_type}
use nexc.Parser.Expressions.{parse_expr, parse_unary_expr}

unfoldable pub parse_let_stmt : ℕ → Routine Stmt
parse_let_stmt fuel = do
  keyword ← expect kw_let "expected `let`"
  is_mutable ← match_kind kw_mut
  name_token ← expect identifier "expected local name"
  type ← if_match colon (parse_type fuel) (
      pure (record {
        kind = invalid;
        array_dimensions = [];
        pointer_depth = 0;
        span = name_token.span;
      }))
  init ← if_match equal (parse_expr fuel 1 >>= λ value. pure (some value)) (
      branch is_mutable (pure none) (do
        span ← ask here
        error_at span
            "`let` requires an initializer expression after `=`; use `let mut` to declare mutable storage without an initializer"
        pure none))
  close ← expect semicolon "expected `;` after local declaration"
  text ← ask (λ p. token_text p name_token)
  pure (
      let_stmt (span_of keyword.span.start close.span.end) is_mutable text name_token.span type
        init)

unfoldable pub parse_return_stmt : ℕ → Routine Stmt
parse_return_stmt fuel = do
  keyword ← expect kw_return "expected `return`"
  if_match semicolon
      (do last ← ask previous; pure (return_stmt (span_of keyword.span.start last.span.end) none))
      (do
        value ← parse_expr fuel 1
        close ← expect semicolon "expected `;` after return statement"
        pure (return_stmt (span_of keyword.span.start close.span.end) (some value)))

-- What an assignment may have on its left: a `NameExpr`, an `IndexExpr`, or a dereference.
abbrev pub is_place : Expr → Bool
is_place (name _ _) = true
is_place (index _ _ _) = true
is_place (unary _ op _) = is_kind op star
is_place _ = false

abbrev pub is_call : Expr → Bool
is_call (call _ _ _) = true
is_call _ = false

-- `if (!check(RightParen)) expect(RightParen, ...); else advance();`
abbrev pub close_step : Routine Token
close_step = if_check right_paren advance (expect right_paren "expected `)` after for step")

unfoldable pub parse_for_step_clause : ℕ → Routine MaybeStmt
parse_for_step_clause fuel = if_check right_paren (pure null) do
  start ← ask (λ p. (here p).start)
  lhs ← parse_unary_expr fuel
  if_match equal
      (branch (not (is_place lhs))
        (do
          error_at (expr_span lhs)
              "for step assignment target must be a local name or indexed/dereferenced place"
          parse_expr fuel 1
          close_step
          pure null)
        (do
          rhs ← parse_expr fuel 1
          close ← expect right_paren "expected `)` after for step"
          pure (present (assign (span_of start close.span.end) lhs rhs))))
      (branch (not (is_call lhs))
        (do
          error_at (expr_span lhs) "for step must be an assignment or a void call expression"
          close_step
          pure null)
        (do
          close ← expect right_paren "expected `)` after for step"
          pure (present (call_stmt (span_of start close.span.end) lhs))))

unfoldable pub parse_assignment_or_call_stmt : ℕ → Routine MaybeStmt
parse_assignment_or_call_stmt fuel = do
  start ← ask (λ p. (here p).start)
  lhs ← parse_unary_expr fuel
  if_match equal
      (branch (not (is_place lhs))
        (do
          error_at (expr_span lhs)
              "assignment target must be a local name, indexed place, or dereferenced pointer"
          parse_expr fuel 1
          expect semicolon "expected `;` after assignment"
          pure null)
        (do
          rhs ← parse_expr fuel 1
          close ← expect semicolon "expected `;` after assignment"
          pure (present (assign (span_of start close.span.end) lhs rhs))))
      (do
        close ← expect semicolon "expected `;` after expression statement"
        branch (not (is_call lhs))
            (do
              error_at (expr_span lhs) "only call expressions may be used as expression statements"
              pure null)
            (pure (present (call_stmt (span_of start close.span.end) lhs))))

-- The loop of `parseForStmt` that looks for the end of a failed first clause.
unfoldable pub skip_to_semicolon : ℕ → Routine (Unit {0})
skip_to_semicolon zero p = out_of_fuel
skip_to_semicolon (suc fuel) p =
    branch (not (is_at_end p) && not (check p semicolon)) (advance >> skip_to_semicolon fuel)
      no_value p

-- A failed first clause is skipped with its semicolon.
unfoldable pub recover_init : ℕ → MaybeStmt → Routine MaybeStmt
recover_init fuel (present stmt) = pure (present stmt)
recover_init fuel null = do
  skip_to_semicolon fuel
  if_check semicolon (advance >> pure null) (pure null)

unfoldable pub parse_for_init : ℕ → Routine MaybeStmt
parse_for_init fuel = if_check semicolon (advance >> pure null) (
    if_check kw_let (parse_let_stmt fuel >>= λ stmt. pure (present stmt))
      (parse_assignment_or_call_stmt fuel >>= recover_init fuel))

unfoldable pub parse_for_condition : ℕ → Routine (Option Expr)
parse_for_condition fuel = if_check semicolon (advance >> pure none) do
  condition ← parse_expr fuel 1
  expect semicolon "expected `;` after for condition"
  pure (some condition)

unfoldable pub parse_jump : TokenKind → (SourceSpan → Stmt) → Routine MaybeStmt
parse_jump kind node = do
  keyword ← expect kind (elim kind [ kw_break ↦ "expected `break`" | _ ↦ "expected `continue`" ])
  close ←
      expect semicolon (elim kind [
        | kw_break ↦ "expected `;` after `break`"
        | _ ↦ "expected `;` after `continue`"
      ])
  pure (present (node (span_of keyword.span.start close.span.end)))

abbrev pub starts_expression : Parser → Bool
starts_expression p =
    check p identifier
    || check p integer_literal
    || check p float_literal
    || check p string_literal
    || check p kw_true
    || check p kw_false
    || check p left_paren
    || check p left_bracket
    || check p minus
    || check p tilde
    || check p bang
    || check p star

abbrev pub refuse : String → Routine MaybeStmt
refuse message = do span ← ask here; error_at span message; pure null

-- The end of the body, or of the keyword where there is none.
abbrev end_or : ℕ → MaybeStmt → ℕ
end_or end null = end
end_or end (present stmt) = (stmt_span stmt).end

abbrev pub statement : Stmt → Routine MaybeStmt
statement stmt = pure (present stmt)

-- A parsed statement is kept in front of the rest of its block; in place of a failed one a token is
-- skipped, unless the block ends.
unfoldable pub collect : MaybeStmt → Routine Stmts → Routine Stmts
collect (present stmt) rest = do statements ← rest; pure (and_stmt stmt statements)
collect null rest = do if_check right_brace no_value (advance >> no_value); rest

-- Where there is no step, the parenthesis is still to be read.
unfoldable pub close_clauses : MaybeStmt → Routine (Unit {0})
close_clauses (present _) = no_value
close_clauses null = expect right_paren "expected `)` after for clauses" >> no_value

unfoldable mutual
  pub parse_block_stmt : ℕ → Routine Stmt
  parse_block_stmt zero p = out_of_fuel
  parse_block_stmt (suc fuel) p =
      (do
        open_token ← expect left_brace "expected `{`"
        statements ← block_loop fuel
        close ← expect right_brace "expected `}`"
        pure (block (span_of open_token.span.start close.span.end) statements))
        p

  pub block_loop : ℕ → Routine Stmts
  block_loop zero p = out_of_fuel
  block_loop (suc fuel) p =
      branch (not (is_at_end p) && not (check p right_brace))
        (parse_stmt fuel >>= λ parsed. collect parsed (block_loop fuel)) (pure no_stmts) p

  pub parse_stmt : ℕ → Routine MaybeStmt
  parse_stmt zero p = out_of_fuel
  parse_stmt (suc fuel) p =
      if_check left_brace (parse_block_stmt fuel >>= statement)
        (if_check kw_let (parse_let_stmt fuel >>= statement) (
          if_check kw_return (parse_return_stmt fuel >>= statement) (
            if_check kw_break (parse_jump kw_break break_stmt) (
              if_check kw_continue (parse_jump kw_continue continue_stmt) (
                if_check kw_if (parse_if_stmt fuel >>= statement) (
                  if_check kw_while (parse_while_stmt fuel >>= statement) (
                    if_check kw_for (parse_for_stmt fuel >>= statement) (
                      if_check kw_const (refuse "inner `const` declarations are not supported yet")
                        (λ q.
                          branch (starts_expression q) (parse_assignment_or_call_stmt fuel)
                            (refuse "expected statement") q)))))))))
        p

  pub parse_if_stmt : ℕ → Routine Stmt
  parse_if_stmt zero p = out_of_fuel
  parse_if_stmt (suc fuel) p =
      (do
        keyword ← expect kw_if "expected `if`"
        expect left_paren "expected `(` after `if`"
        condition ← parse_expr fuel 1
        expect right_paren "expected `)` after if condition"
        then_branch ← parse_stmt fuel
        else_branch ← if_match kw_else (parse_stmt fuel) (pure null)
        pure (
            if_stmt
              (span_of keyword.span.start
                (end_or (end_or keyword.span.end then_branch) else_branch))
              condition then_branch else_branch))
        p

  pub parse_while_stmt : ℕ → Routine Stmt
  parse_while_stmt zero p = out_of_fuel
  parse_while_stmt (suc fuel) p =
      (do
        keyword ← expect kw_while "expected `while`"
        expect left_paren "expected `(` after `while`"
        condition ← parse_expr fuel 1
        expect right_paren "expected `)` after while condition"
        body ← parse_stmt fuel
        pure
            (while_stmt (span_of keyword.span.start (end_or keyword.span.end body)) condition body))
        p

  pub parse_for_stmt : ℕ → Routine Stmt
  parse_for_stmt zero p = out_of_fuel
  parse_for_stmt (suc fuel) p =
      (do
        keyword ← expect kw_for "expected `for`"
        expect left_paren "expected `(` after `for`"
        init ← parse_for_init fuel
        condition ← parse_for_condition fuel
        step ← parse_for_step_clause fuel
        close_clauses step
        body ← parse_stmt fuel
        pure (
            for_stmt (span_of keyword.span.start (end_or keyword.span.end body)) init condition step
              body))
        p
