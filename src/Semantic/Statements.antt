-- ===== src/Semantic/Statements.antt =====
-- `analyzeStmt`: its result says whether a statement returns on all paths.
use nexc.Prelude.{
  ℕ, ◌+◌, ◌-◌, ◌==◌, Bool, true, false, not, ◌&&◌, ◌||◌, Option, none, some, List, [], ◌∷◌, codes,
}
use nexc.Source.{SourceSpan}
use nexc.Syntax.{
  Expr, Stmt, block, let_stmt, assign, return_stmt, if_stmt, while_stmt, for_stmt, call_stmt,
  break_stmt, continue_stmt, Stmts, no_stmts, and_stmt, MaybeStmt, null, present,
}
use nexc.Semantic.Types.{is_void, is_invalid, type_name}
use nexc.Semantic.State.{
  Analysis, Analyzer, DefAssignReason, ◌>>=◌, ◌>>◌, pure, done, gets, modify, branch, when, error,
  push_scope,
}
use nexc.Semantic.Scopes.{pop_scope}
use nexc.Semantic.Merge.{
  Arms, Assigned, merge_definite_assign_after_if, note_if_def_assign_losses,
  note_loop_def_assign_losses, merge_array_elem_assign_after_if,
}
use nexc.Semantic.Expressions.{analyze_call_expr}
use nexc.Semantic.Locals.{analyze_condition, analyze_return, analyze_let}
use nexc.Semantic.Stores.{analyze_assign}

-- What is known of assignments at one point, as the code saves it.
pub record Flow : Type 0 where
  pub assigned : Assigned
  pub reasons : List (ℕ × DefAssignReason)

abbrev pub flow_of : Analyzer → Flow
flow_of s = record {
  assigned = record { definite = s.definite_assign; elements = s.array_elem_assign };
  reasons = s.def_assign_reasons;
}

unfoldable pub restore_flow : Flow → Analysis (Unit {0})
restore_flow flow = modify λ s. record s {
  definite_assign = flow.assigned.definite;
  array_elem_assign = flow.assigned.elements;
  def_assign_reasons = flow.reasons;
}

abbrev reasons_after_if : Flow → Flow → Flow → Arms → List (ℕ × DefAssignReason)
reasons_after_if before after_then after_else arms =
    elim (arms.has_else && arms.then_returns && not arms.else_returns) [
      | true ↦ after_else.reasons
      | false ↦ elim (arms.has_else && not arms.then_returns && arms.else_returns) [
        | true ↦ after_then.reasons
        | false ↦ before.reasons
      ]
    ]

-- The state behind an `if`, from those behind its arms.
unfoldable pub join_arms : SourceSpan → Flow → Flow → Flow → Arms → Analysis (Unit {0})
join_arms span before after_then after_else arms = do
  modify λ s. record s {
    def_assign_reasons = reasons_after_if before after_then after_else arms;
    definite_assign =
        merge_definite_assign_after_if before.assigned.definite after_then.assigned.definite
          after_else.assigned.definite arms;
  }
  note_if_def_assign_losses span before.assigned.definite after_then.assigned.definite
      after_else.assigned.definite arms
  merge_array_elem_assign_after_if before.assigned after_then.assigned after_else.assigned arms

-- Both arms from the same state.
unfoldable pub if_rule : SourceSpan → Bool → Analysis Bool → Analysis Bool → Analysis Bool
if_rule span has_else then_arm else_arm = do
  before ← gets flow_of
  then_returns ← then_arm
  after_then ← gets flow_of
  restore_flow before
  else_returns ← else_arm
  after_else ← gets flow_of
  join_arms span before after_then after_else
      (record { has_else = has_else; then_returns = then_returns; else_returns = else_returns })
  pure (has_else && then_returns && else_returns)

-- The body may run no time: what it assigns is forgotten.
unfoldable pub leave_loop : SourceSpan → Flow → Analysis (Unit {0})
leave_loop span before = do
  after_body ← gets λ s. s.definite_assign
  restore_flow before
  note_loop_def_assign_losses span before.assigned.definite after_body

abbrev enter_body : Analysis (Unit {0})
enter_body = modify λ s. record s { loop_depth = s.loop_depth + 1 }

abbrev leave_body : Analysis (Unit {0})
leave_body = modify λ s. record s { loop_depth = s.loop_depth - 1 }

abbrev pub set_step_clause : Bool → Analysis (Unit {0})
set_step_clause b = modify λ s. record s { in_for_step_clause = b }

unfoldable pub analyze_break : SourceSpan → Analysis (Unit {0})
analyze_break span s =
    when (s.loop_depth == 0)
      (error span (codes "`break` is only valid inside `while` or `for`" ∷ [])) s

unfoldable pub analyze_continue : SourceSpan → Analysis (Unit {0})
analyze_continue span s =
    branch (s.loop_depth == 0)
      (error span (codes "`continue` is only valid inside `while` or `for`" ∷ []))
      (when s.in_for_step_clause
        (error span (codes "`continue` cannot appear in a `for` update clause" ∷ [])))
      s

unfoldable pub analyze_call_stmt : SourceSpan → Expr → Analysis (Unit {0})
analyze_call_stmt span discarded = do
  i ← analyze_call_expr discarded
  when (not (is_void i.type) && not (is_invalid i.type)) (
      error span (
        codes "cannot discard value of type `"
        ∷ type_name i.type
        ∷ codes "`; only `void` calls may be statements"
        ∷ []))

unfoldable pub while_rule : SourceSpan → Expr → Analysis Bool → Analysis Bool
while_rule span condition body = do
  before ← gets flow_of
  analyze_condition condition (codes "`while` condition")
  enter_body
  body
  leave_body
  leave_loop span before
  pure false

abbrev pub for_condition : Option Expr → Analysis (Unit {0})
for_condition none = done
for_condition (some condition) = analyze_condition condition (codes "`for` condition")

unfoldable pub for_rule :
    SourceSpan → Analysis Bool → Option Expr → Analysis Bool → Analysis Bool → Analysis Bool
for_rule span init condition step body = do
  modify push_scope
  init
  after_init ← gets flow_of
  for_condition condition
  enter_body
  body
  step
  leave_body
  leave_loop span after_init
  modify pop_scope
  pure false

unfoldable pub block_rule : Analysis Bool → Analysis Bool
block_rule statements = do modify push_scope; returns ← statements; modify pop_scope; pure returns

abbrev no_return : Analysis (Unit {0}) → Analysis Bool
no_return m = m >> pure false

abbrev has_stmt : MaybeStmt → Bool
has_stmt null = false
has_stmt (present _) = true

unfoldable mutual
  pub analyze_stmt : Stmt → Analysis Bool
  analyze_stmt (block span statements) = block_rule (analyze_stmts statements)
  analyze_stmt (let_stmt span is_mutable text name_span type init) =
      no_return (analyze_let span is_mutable text name_span type init)
  analyze_stmt (assign span target value) = no_return (analyze_assign target value)
  analyze_stmt (return_stmt span value) = analyze_return span value >> pure true
  analyze_stmt (if_stmt span condition then_branch else_branch) =
      analyze_condition condition (codes "`if` condition")
      >> if_rule span (has_stmt else_branch) (analyze_branch then_branch)
          (analyze_branch else_branch)
  analyze_stmt (while_stmt span condition body) = while_rule span condition (analyze_branch body)
  analyze_stmt (for_stmt span init condition step body) =
      for_rule span (analyze_branch init) condition (analyze_step step) (analyze_branch body)
  analyze_stmt (call_stmt span discarded) = no_return (analyze_call_stmt span discarded)
  analyze_stmt (break_stmt span) = no_return (analyze_break span)
  analyze_stmt (continue_stmt span) = no_return (analyze_continue span)

  -- The children of a block, which returns if one of them does.
  pub analyze_stmts : Stmts → Analysis Bool
  analyze_stmts no_stmts = pure false
  analyze_stmts (and_stmt stmt rest) = do
    child_returns ← analyze_stmt stmt
    others ← analyze_stmts rest
    pure (child_returns || others)

  -- A part that may be missing. The body of a loop and the first arm of an `if` are missing only
  -- where the parser has reported an error, and the analyzer is then not run.
  pub analyze_branch : MaybeStmt → Analysis Bool
  analyze_branch null = pure false
  analyze_branch (present stmt) = analyze_stmt stmt

  pub analyze_step : MaybeStmt → Analysis Bool
  analyze_step null = pure false
  analyze_step (present stmt) = do
    set_step_clause true
    returns ← analyze_stmt stmt
    set_step_clause false
    pure returns
