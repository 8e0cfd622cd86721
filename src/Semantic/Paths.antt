-- ===== src/Semantic/Paths.antt =====
-- How a run of a statement can end, whatever its conditions say. This is independent of the
-- analyzer.
use nexc.Prelude.{Option, Bool, Bytes, ◌≢◌}
use nexc.Source.{SourceSpan}
use nexc.Syntax.{
  Expr, Stmt, block, let_stmt, assign, return_stmt, if_stmt, while_stmt, for_stmt, call_stmt,
  break_stmt, continue_stmt, Stmts, no_stmts, and_stmt, MaybeStmt, null, present, TypeSyntax,
}

pub data Ending : Type 0 where
  falls breaks continues returns : Ending

-- A loop is left at its condition or by a `break` in it, or a `return` in it ends it.
mutual
  pub data Ends : Stmt → Ending → Type 0 where
    in_block :
        {span : SourceSpan} {statements : Stmts} {e : Ending}
        → EndsAll statements e
        → Ends (block span statements) e
    at_let :
        {span : SourceSpan} {m : Bool} {text : Bytes} {at : SourceSpan} {type : TypeSyntax}
        {init : Option Expr}
        → Ends (let_stmt span m text at type init) falls
    at_assign : {span : SourceSpan} {target v : Expr} → Ends (assign span target v) falls
    at_call : {span : SourceSpan} {c : Expr} → Ends (call_stmt span c) falls
    at_return : {span : SourceSpan} {v : Option Expr} → Ends (return_stmt span v) returns
    at_break : {span : SourceSpan} → Ends (break_stmt span) breaks
    at_continue : {span : SourceSpan} → Ends (continue_stmt span) continues
    in_then :
        {span : SourceSpan} {c : Expr} {first second : MaybeStmt} {e : Ending}
        → EndsPart first e
        → Ends (if_stmt span c first second) e
    in_else :
        {span : SourceSpan} {c : Expr} {first second : MaybeStmt} {e : Ending}
        → EndsPart second e
        → Ends (if_stmt span c first second) e
    while_left :
        {span : SourceSpan} {c : Expr} {body : MaybeStmt} → Ends (while_stmt span c body) falls
    while_returned :
        {span : SourceSpan} {c : Expr} {body : MaybeStmt}
        → EndsPart body returns
        → Ends (while_stmt span c body) returns
    for_left :
        {span : SourceSpan} {init : MaybeStmt} {c : Option Expr} {step body : MaybeStmt}
        → Ends (for_stmt span init c step body) falls
    in_init :
        {span : SourceSpan} {init : MaybeStmt} {c : Option Expr} {step body : MaybeStmt}
        {e : Ending}
        → EndsPart init e
        → e ≢ falls
        → Ends (for_stmt span init c step body) e
    step_returned :
        {span : SourceSpan} {init : MaybeStmt} {c : Option Expr} {step body : MaybeStmt}
        → EndsPart step returns
        → Ends (for_stmt span init c step body) returns
    body_returned :
        {span : SourceSpan} {init : MaybeStmt} {c : Option Expr} {step body : MaybeStmt}
        → EndsPart body returns
        → Ends (for_stmt span init c step body) returns

  -- One statement behind the other, up to one that does not fall through.
  pub data EndsAll : Stmts → Ending → Type 0 where
    all_done : EndsAll no_stmts falls
    stopped :
        {stmt : Stmt} {rest : Stmts} {e : Ending}
        → Ends stmt e
        → e ≢ falls
        → EndsAll (and_stmt stmt rest) e
    went_on :
        {stmt : Stmt} {rest : Stmts} {e : Ending}
        → Ends stmt falls
        → EndsAll rest e
        → EndsAll (and_stmt stmt rest) e

  pub data EndsPart : MaybeStmt → Ending → Type 0 where
    skipped : EndsPart null falls
    taken : {stmt : Stmt} {e : Ending} → Ends stmt e → EndsPart (present stmt) e
