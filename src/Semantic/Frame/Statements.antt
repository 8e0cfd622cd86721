-- ===== src/Semantic/Frame/Statements.antt =====
-- The analysis of a statement keeps the frame.
use nexc.Prelude.{◌≡◌, refl, Bool, true, false, Option, none, some, arith}
use nexc.Source.{SourceSpan}
use nexc.Syntax.{
  Expr, Stmt, block, let_stmt, assign, return_stmt, if_stmt, while_stmt, for_stmt, call_stmt,
  break_stmt, continue_stmt, Stmts, no_stmts, and_stmt, MaybeStmt, null, present,
}
use nexc.Semantic.State.{Analyzer, Analysis, normal, ◌>>=◌, ◌>>◌, pure, push_scope}
use nexc.Semantic.Scopes.{pop_scope}
use nexc.Semantic.Merge.{Arms}
use nexc.Semantic.Statements.{
  Flow, restore_flow, join_arms, if_rule, leave_loop, analyze_break, analyze_continue,
  analyze_call_stmt, while_rule, for_rule, block_rule, analyze_stmt, analyze_stmts, analyze_branch,
  analyze_step, for_condition, set_step_clause,
}
use nexc.Semantic.Reports.{Grows-refl}
use nexc.Semantic.Frame.{
  Frame, Frame-refl, Frame-tables, Keeps, Keeps-bind, Keeps-ask, Keeps-branch, Keeps-when,
  Keeps-open, From-bind, From-modify, From-Keeps, deeper, shallower, Frame-deeper, Frame-shallower,
  Frame-pop,
}
use nexc.Semantic.Frame.Parts.{
  Keeps-error, note_if_losses-Keeps, note_loop_losses-Keeps, merge_elements-Keeps,
}
use nexc.Semantic.Frame.Lets.{expr-Keeps, condition-Keeps, return-Keeps, let-Keeps, assign-Keeps}

pub restore-Keeps : (flow : Flow) → Keeps (restore_flow flow)
unfolding restore_flow
restore-Keeps flow s = Frame-tables s _ _ _ _

pub join_arms-Keeps :
    (span : SourceSpan) (before after_then after_else : Flow) (arms : Arms)
    → Keeps (join_arms span before after_then after_else arms)
unfolding join_arms
join_arms-Keeps span before after_then after_else arms =
    Keeps-bind _ _ (λ s. Frame-tables s _ _ _ _)
      λ _.
        Keeps-bind _ _ (note_if_losses-Keeps span _ _ _ arms) λ _. merge_elements-Keeps _ _ _ arms

pub leave_loop-Keeps : (span : SourceSpan) (before : Flow) → Keeps (leave_loop span before)
unfolding leave_loop
leave_loop-Keeps span before = Keeps-ask _ _ λ after_body.
    Keeps-bind _ _ (restore-Keeps before) λ _. note_loop_losses-Keeps span _ after_body

pub break-Keeps : (span : SourceSpan) → Keeps (analyze_break span)
unfolding analyze_break
break-Keeps span s = Keeps-when _ _ (Keeps-error _ _) s

pub continue-Keeps : (span : SourceSpan) → Keeps (analyze_continue span)
unfolding analyze_continue
continue-Keeps span s = Keeps-branch _ _ _ (Keeps-error _ _) (Keeps-when _ _ (Keeps-error _ _)) s

pub call_stmt-Keeps : (span : SourceSpan) (e : Expr) → Keeps (analyze_call_stmt span e)
unfolding analyze_call_stmt
call_stmt-Keeps span e =
    Keeps-bind _ _ (expr-Keeps e none normal) λ i. Keeps-when _ _ (Keeps-error _ _)

pub for_condition-Keeps : (condition : Option Expr) → Keeps (for_condition condition)
for_condition-Keeps none = Frame-refl
for_condition-Keeps (some e) = condition-Keeps e _

if_rule-Keeps :
    (span : SourceSpan) (has_else : Bool) (then_arm else_arm : Analysis Bool)
    → Keeps then_arm
    → Keeps else_arm
    → Keeps (if_rule span has_else then_arm else_arm)
unfolding if_rule
if_rule-Keeps span has_else then_arm else_arm ht he = Keeps-ask _ _ λ before.
    Keeps-bind _ _ ht λ then_returns. Keeps-ask _ _ λ after_then.
      Keeps-bind _ _ (restore-Keeps before) λ _. Keeps-bind _ _ he λ else_returns.
        Keeps-ask _ _ λ after_else.
          Keeps-bind _ _ (join_arms-Keeps span before after_then after_else _) λ _. Frame-refl

pub while_rule-Keeps :
    (span : SourceSpan) (condition : Expr) (body : Analysis Bool)
    → Keeps body
    → Keeps (while_rule span condition body)
unfolding while_rule
while_rule-Keeps span condition body h = Keeps-ask _ _ λ before.
    Keeps-bind _ _ (condition-Keeps condition _) λ _. Keeps-open deeper _ (
      From-bind deeper _ _ h λ _.
        From-modify deeper (λ s. s) shallower _ (λ s t. Frame-shallower)
          (From-Keeps (leave_loop span before >> pure false)
            (Keeps-bind _ _ (leave_loop-Keeps span before) λ _. Frame-refl)))

for_rule-Keeps :
    (span : SourceSpan) (init : Analysis Bool) (condition : Option Expr) (step body : Analysis Bool)
    → Keeps init
    → Keeps step
    → Keeps body
    → Keeps (for_rule span init condition step body)
unfolding for_rule
for_rule-Keeps span init condition step body hi hs hb = Keeps-open push_scope _ (
    From-bind push_scope _ _ hi λ _.
      From-bind push_scope _ _ (λ s. Frame-refl s)
        λ after_init. From-bind push_scope _ _ (for_condition-Keeps condition) λ _.
          From-modify push_scope (λ s. deeper (push_scope s)) deeper _ (λ s t. Frame-deeper)
            (From-bind _ _ _ hb λ _. From-bind _ _ _ hs λ _.
              From-modify _ push_scope shallower _ (λ s t. Frame-shallower)
                (From-bind push_scope _ _ (leave_loop-Keeps span after_init) λ _.
                  From-modify push_scope (λ s. s) pop_scope _ (λ s t x. (Frame-pop x).0)
                    (From-Keeps (pure false) Frame-refl))))

block_rule-Keeps : (statements : Analysis Bool) → Keeps statements → Keeps (block_rule statements)
unfolding block_rule
block_rule-Keeps statements h = Keeps-open push_scope _ (
    From-bind push_scope _ _ h λ returns.
      From-modify push_scope (λ s. s) pop_scope _ (λ s t x. (Frame-pop x).0)
        (From-Keeps (pure returns) Frame-refl))

step_clause-Keeps : (b : Bool) → Keeps (set_step_clause b)
step_clause-Keeps b s = record {
  grows = Grows-refl s.diagnostics;
  depth = refl;
  return_type = refl;
  functions = refl;
  globals = refl;
  outer_scopes = refl;
  outer_ids = refl;
  newer = omega arith;
}

no_return-Keeps : (m : Analysis (Unit {0})) → Keeps m → Keeps (m >> pure false)
no_return-Keeps m h = Keeps-bind _ _ h λ _. Frame-refl

mutual
  unfolding analyze_stmt

  pub stmt-Keeps : (stmt : Stmt) → Keeps (analyze_stmt stmt)
  stmt-Keeps (block span statements) = block_rule-Keeps _ (stmts-Keeps statements)
  stmt-Keeps (let_stmt span is_mutable text name_span type init) =
      no_return-Keeps _ (let-Keeps span is_mutable text name_span type init)
  stmt-Keeps (assign span target value) = no_return-Keeps _ (assign-Keeps target value)
  stmt-Keeps (return_stmt span value) = Keeps-bind _ _ (return-Keeps span value) λ _. Frame-refl
  stmt-Keeps (if_stmt span condition then_branch else_branch) =
      Keeps-bind _ _ (condition-Keeps condition _)
        λ _. if_rule-Keeps span _ _ _ (branch-Keeps then_branch) (branch-Keeps else_branch)
  stmt-Keeps (while_stmt span condition body) =
      while_rule-Keeps span condition _ (branch-Keeps body)
  stmt-Keeps (for_stmt span init condition step body) =
      for_rule-Keeps span _ condition _ _ (branch-Keeps init) (step-Keeps step) (branch-Keeps body)
  stmt-Keeps (call_stmt span discarded) = no_return-Keeps _ (call_stmt-Keeps span discarded)
  stmt-Keeps (break_stmt span) = no_return-Keeps _ (break-Keeps span)
  stmt-Keeps (continue_stmt span) = no_return-Keeps _ (continue-Keeps span)

  pub stmts-Keeps : (statements : Stmts) → Keeps (analyze_stmts statements)
  stmts-Keeps no_stmts = Frame-refl
  stmts-Keeps (and_stmt stmt rest) =
      Keeps-bind _ _ (stmt-Keeps stmt)
        λ child_returns. Keeps-bind _ _ (stmts-Keeps rest) λ others. Frame-refl

  pub branch-Keeps : (part : MaybeStmt) → Keeps (analyze_branch part)
  branch-Keeps null = Frame-refl
  branch-Keeps (present stmt) = stmt-Keeps stmt

  pub step-Keeps : (part : MaybeStmt) → Keeps (analyze_step part)
  step-Keeps null = Frame-refl
  step-Keeps (present stmt) = Keeps-bind _ _ (step_clause-Keeps true) λ _.
      Keeps-bind _ _ (stmt-Keeps stmt)
        λ returns. Keeps-bind _ _ (step_clause-Keeps false) λ _. Frame-refl

-- The analysis of a statement keeps the frame: messages are only added and an error stays, the
-- tables of the module, the return type, the depth of loops and the scopes around the innermost one
-- are as before, and the next id is no smaller.
pub analyze_stmt-Frame : (stmt : Stmt) (s : Analyzer) → Frame s (analyze_stmt stmt s).1
analyze_stmt-Frame = stmt-Keeps

-- A block leaves exactly the scopes, and the ids of each, that it was entered with.
pub block-scopes :
    (span : SourceSpan) (statements : Stmts) (s : Analyzer)
    → ((analyze_stmt (block span statements) s).1.scopes ≡ s.scopes)
      × ((analyze_stmt (block span statements) s).1.scope_binding_ids ≡ s.scope_binding_ids)
unfolding analyze_stmt block_rule ◌>>=◌
block-scopes span statements s =
    let closed = Frame-pop (stmts-Keeps statements (push_scope s)) in (closed.1, closed.2)
