-- ===== src/Semantic/Returns/Statements.antt =====
-- A statement that is taken to return does not fall through, and jumps stay inside of loops.
use nexc.Prelude.{
  ◌⊎◌, ◌≡◌, refl, ap, Bool, true, false, ◌||◌, Option, Bytes, Bool-cases, inl, inr, arith,
}
use nexc.Source.{SourceSpan}
use nexc.Syntax.{
  Expr, Stmt, block, let_stmt, assign, return_stmt, if_stmt, while_stmt, for_stmt, call_stmt,
  break_stmt, continue_stmt, Stmts, no_stmts, and_stmt, MaybeStmt, null, present, TypeSyntax,
}
use nexc.Diagnostic.{report_error, add}
use nexc.Semantic.State.{Analyzer, Analysis, ◌>>=◌, ◌>>◌, pure, modify, branch, error, push_scope}
use nexc.Semantic.Scopes.{pop_scope, head_or_empty}
use nexc.Semantic.Locals.{analyze_condition}
use nexc.Semantic.Statements.{
  if_rule, analyze_break, analyze_continue, while_rule, for_rule, block_rule, analyze_stmt,
  analyze_stmts, analyze_branch, leave_loop,
}
use nexc.Semantic.Frame.{Keeps, Frame-refl, forget_ids-kept}
use nexc.Semantic.Frame.Lets.{condition-Keeps, let-Keeps, assign-Keeps, return-Keeps}
use nexc.Semantic.Frame.Statements.{
  restore-Keeps, join_arms-Keeps, leave_loop-Keeps, for_condition-Keeps, break-Keeps,
  continue-Keeps, call_stmt-Keeps, while_rule-Keeps, stmt-Keeps, stmts-Keeps, branch-Keeps,
  step-Keeps,
}
use nexc.Semantic.Paths.{
  Ending, falls, returns, Ends, EndsAll, EndsPart, in_block, at_let, at_assign, at_call, at_return,
  in_then, in_else, while_left, while_returned, for_left, in_init, step_returned, body_returned,
  all_done, stopped, went_on, skipped, taken,
}
use nexc.Semantic.Returns.{
  Sticky, Level, Checked, Keeps-Sticky, Keeps-Level, Sticky-bind, Checked-bind, Checked-then,
  Checked-after, Checked-pure, Checked-value, Checked-weaken,
}

-- An ending that is no jump out of a loop.
pub data Proper : Ending → Type 0 where
  by_falling : Proper falls
  by_returning : Proper returns

-- What an error-free analysis with the result `r` says of the runs of a part of the program.
pub record Leaves (R : Ending → Type 0) (r : Bool) : Type 0 where
  pub proper : (e : Ending) → R e → Proper e
  pub final : r ≡ true → R falls → ⊥

Leaves-falls : {R : Ending → Type 0} → ((e : Ending) → R e → Proper e) → Leaves R false
Leaves-falls h = record { proper = h; final = λ bad _. absurd (cc) }

jump-Checked :
    (m : Analysis (Unit {0}))
    → Sticky m
    → ((s : Analyzer) → s.loop_depth ≡ 0 → (m s).1.diagnostics.has_errors ≡ true)
    → Checked (λ _. ⊥) m
jump-Checked m sticky h =
    Checked-value m sticky λ s outside e. let bad = h s outside in absurd (ground arith)

break-Checked : (span : SourceSpan) → Checked (λ _. ⊥) (analyze_break span)
unfolding analyze_break branch error report_error add
break-Checked span =
    jump-Checked _ (Keeps-Sticky (analyze_break span) (break-Keeps span))
      λ s outside. rw outside refl

continue-Checked : (span : SourceSpan) → Checked (λ _. ⊥) (analyze_continue span)
unfolding analyze_continue branch error report_error add
continue-Checked span =
    jump-Checked _ (Keeps-Sticky (analyze_continue span) (continue-Keeps span))
      λ s outside. rw outside refl

if_rule-Checked :
    {T E : Ending → Type 0} (span : SourceSpan) (has_else : Bool)
    (then_arm else_arm : Analysis Bool)
    → Keeps then_arm
    → Keeps else_arm
    → Checked (Leaves T) then_arm
    → Checked (Leaves E) else_arm
    → Checked (Leaves (λ e. T e ⊎ E e)) (if_rule span has_else then_arm else_arm)
unfolding if_rule
if_rule-Checked span has_else then_arm else_arm then_keeps else_keeps then_checked else_checked =
    Checked-after _ _ Frame-refl λ before.
      Checked-bind _ _ (Keeps-Level then_arm then_keeps) then_checked λ then_returns.
        Checked-after _ _ Frame-refl λ after_then. Checked-after _ _ (restore-Keeps before) λ _.
          Checked-bind _ _ (Keeps-Level else_arm else_keeps) else_checked λ else_returns.
            Checked-after _ _ Frame-refl λ after_else.
              Checked-after _ _ (join_arms-Keeps span before after_then after_else _) λ _.
                Checked-pure _ λ e t. record {
                  proper =
                      λ ending r. elim r [ inl x ↦ t.proper ending x | inr x ↦ e.proper ending x ];
                  final = λ both r. elim r [
                    | inl x ↦ t.final (ground arith) x
                    | inr x ↦ e.final (ground arith) x
                  ];
                }

pub pop-Sticky : Sticky (modify pop_scope)
unfolding pop_scope
pop-Sticky s e = rw (forget_ids-kept (head_or_empty s.scope_binding_ids) s) e

pub pop-Level : Level (modify pop_scope)
unfolding pop_scope
pop-Level s =
    ap (λ (w : Analyzer). w.loop_depth) (forget_ids-kept (head_or_empty s.scope_binding_ids) s)

block_rule-Checked :
    {R : Ending → Type 0} (statements : Analysis Bool)
    → Keeps statements
    → Checked (Leaves R) statements
    → Checked (Leaves R) (block_rule statements)
unfolding block_rule push_scope
block_rule-Checked statements keeps h =
    Checked-then _ _ (λ _. refl) (λ _ e. e)
      λ _.
        Checked-bind _ _ (Keeps-Level statements keeps) h
          λ returns. Checked-then _ _ pop-Level pop-Sticky λ _. Checked-pure _ λ x. x

-- The value of a sequence is that of its last part.
value_behind {ℓ} :
    {A : Type ℓ} (m : Analysis A) (f : A → Analysis Bool)
    → ((a : A) (s : Analyzer) → (f a s).0 ≡ false)
    → (s : Analyzer) → ((m >>= f) s).0 ≡ false
unfolding ◌>>=◌
value_behind m f h s = h (m s).0 (m s).1

for_rule-Checked :
    {R : Ending → Type 0} (span : SourceSpan) (init : Analysis Bool) (condition : Option Expr)
    (step body : Analysis Bool)
    → Keeps init
    → Keeps step
    → Keeps body
    → Checked (Leaves R) init
    → Checked
        (λ r. (r ≡ false) × ((e : Ending) → R e → Proper e))
        (for_rule span init condition step body)
unfolding for_rule push_scope
for_rule-Checked span init condition step body init_keeps step_keeps body_keeps h =
    Checked-then _ _ (λ _. refl) (λ _ e. e)
      λ _. Checked-bind _ _ (Keeps-Level init init_keeps) h λ _.
        Checked-after _ _ Frame-refl λ after_init.
          Checked-after _ _ (for_condition-Keeps condition) λ _.
            Checked-value _
              (Sticky-bind _ _ (λ _ e. e)
                λ _. Sticky-bind _ _ (Keeps-Sticky body body_keeps) λ _.
                  Sticky-bind _ _ (Keeps-Sticky step step_keeps) λ _.
                    Sticky-bind _ _ (λ _ e. e)
                      λ _.
                        Sticky-bind _ _
                          (Keeps-Sticky (leave_loop span after_init)
                            (leave_loop-Keeps span after_init))
                          λ _. Sticky-bind _ _ pop-Sticky λ _ _ e. e)
              (λ s outside e x.
                let fell =
                  value_behind _ _
                    (λ _. value_behind body _ (λ _. value_behind step _ (λ _. value_behind _ _ (λ _.
                      value_behind (leave_loop span after_init) _
                        (λ _. value_behind _ _ (λ _ _. refl))))))
                    s in
                (fell, x.proper))

while_value :
    (span : SourceSpan) (condition : Expr) (body : Analysis Bool) (s : Analyzer)
    → (while_rule span condition body s).0 ≡ false
unfolding while_rule
while_value span condition body = value_behind _ _ λ before.
    value_behind (analyze_condition condition _) _ λ _. value_behind _ _ λ _.
      value_behind body _
        λ _. value_behind _ _ λ _. value_behind (leave_loop span before) _ (λ _ _. refl)

while_rule-Checked :
    {R : Ending → Type 0} (span : SourceSpan) (condition : Expr) (body : Analysis Bool)
    → Keeps body
    → ((e : Ending) → R e → Proper e)
    → Checked (Leaves R) (while_rule span condition body)
while_rule-Checked span condition body keeps h =
    Checked-value (while_rule span condition body)
      (Keeps-Sticky (while_rule span condition body) (while_rule-Keeps span condition body keeps))
      λ s outside e. rw (while_value span condition body s) (Leaves-falls h)

-- A statement without parts.
simple-Checked :
    {R : Ending → Type 0} (m : Analysis (Unit {0}))
    → Keeps m
    → ((e : Ending) → R e → Proper e)
    → Checked (Leaves R) (m >> pure false)
simple-Checked m keeps h = Checked-after _ _ keeps λ _. Checked-pure _ (Leaves-falls h)

jumped :
    {R : Ending → Type 0} (m : Analysis (Unit {0}))
    → Keeps m
    → Checked (λ _. ⊥) m
    → Checked (Leaves R) (m >> pure false)
jumped m keeps h = Checked-bind _ _ (Keeps-Level m keeps) h λ _. Checked-pure _ λ bad. absurd bad

let-Ends :
    {span : SourceSpan} {m : Bool} {text : Bytes} {at : SourceSpan} {type : TypeSyntax}
    {init : Option Expr} (e : Ending)
    → Ends (let_stmt span m text at type init) e
    → Proper e
let-Ends _ at_let = by_falling

assign-Ends :
    {span : SourceSpan} {target v : Expr} (e : Ending) → Ends (assign span target v) e → Proper e
assign-Ends _ at_assign = by_falling

call-Ends : {span : SourceSpan} {c : Expr} (e : Ending) → Ends (call_stmt span c) e → Proper e
call-Ends _ at_call = by_falling

while-Ends :
    {span : SourceSpan} {c : Expr} {body : MaybeStmt} (e : Ending)
    → Ends (while_stmt span c body) e
    → Proper e
while-Ends _ while_left = by_falling
while-Ends _ (while_returned _) = by_returning

for-Ends :
    {span : SourceSpan} {init : MaybeStmt} {c : Option Expr} {step body : MaybeStmt}
    → ((e : Ending) → EndsPart init e → Proper e)
    → (e : Ending) → Ends (for_stmt span init c step body) e
    → Proper e
for-Ends h _ for_left = by_falling
for-Ends h e (in_init x _) = h e x
for-Ends h _ (step_returned _) = by_returning
for-Ends h _ (body_returned _) = by_returning

return-Ends :
    {span : SourceSpan} {v : Option Expr} (e : Ending) → Ends (return_stmt span v) e → Proper e
return-Ends _ at_return = by_returning

return-Leaves : {span : SourceSpan} {v : Option Expr} → Leaves (Ends (return_stmt span v)) true
return-Leaves = record { proper = return-Ends; final = λ _ x. elim x [ ] }

block_inner :
    {span : SourceSpan} {statements : Stmts} (e : Ending)
    → Ends (block span statements) e
    → EndsAll statements e
block_inner _ (in_block x) = x

if_inner :
    {span : SourceSpan} {c : Expr} {first second : MaybeStmt} (e : Ending)
    → Ends (if_stmt span c first second) e
    → EndsPart first e ⊎ EndsPart second e
if_inner _ (in_then x) = inl x
if_inner _ (in_else x) = inr x

Leaves-map :
    {R S : Ending → Type 0} (r : Bool) → ((e : Ending) → S e → R e) → Leaves R r → Leaves S r
Leaves-map r h x = record {
  proper = λ e y. x.proper e (h e y);
  final = λ t y. x.final t (h falls y);
}

-- A sequence falls through if all of it does.
sequence-Leaves :
    {stmt : Stmt} {rest : Stmts} (first later : Bool)
    → Leaves (Ends stmt) first
    → Leaves (EndsAll rest) later
    → Leaves (EndsAll (and_stmt stmt rest)) (first || later)
sequence-Leaves {stmt} {rest} first later x y = record { proper = ends; final = falling }
  where
    ends : (e : Ending) → EndsAll (and_stmt stmt rest) e → Proper e
    ends e (stopped z _) = x.proper e z
    ends e (went_on _ z) = y.proper e z

    falling : (first || later) ≡ true → EndsAll (and_stmt stmt rest) falls → ⊥
    falling h (stopped z bad) = bad refl
    falling h (went_on z w) = elim (Bool-cases first) [
      | inl t ↦ x.final t z
      | inr f ↦ y.final (ground arith) w
    ]

empty-Leaves : Leaves (EndsAll no_stmts) false
empty-Leaves = Leaves-falls all_ends
  where
    all_ends : (e : Ending) → EndsAll no_stmts e → Proper e
    all_ends _ all_done = by_falling

null-Leaves : Leaves (EndsPart null) false
null-Leaves = Leaves-falls part_ends
  where
    part_ends : (e : Ending) → EndsPart null e → Proper e
    part_ends _ skipped = by_falling

part_inner : {stmt : Stmt} (e : Ending) → EndsPart (present stmt) e → Ends stmt e
part_inner _ (taken x) = x

mutual
  unfolding analyze_stmt

  pub stmt-Checked : (stmt : Stmt) → Checked (Leaves (Ends stmt)) (analyze_stmt stmt)
  stmt-Checked (block span statements) =
      Checked-weaken _ (λ r. Leaves-map r block_inner)
        (block_rule-Checked _ (stmts-Keeps statements) (stmts-Checked statements))
  stmt-Checked (let_stmt span is_mutable text name_span type init) =
      simple-Checked _ (let-Keeps span is_mutable text name_span type init) let-Ends
  stmt-Checked (assign span target value) = simple-Checked _ (assign-Keeps target value) assign-Ends
  stmt-Checked (return_stmt span value) =
      Checked-after _ _ (return-Keeps span value) λ _. Checked-pure _ return-Leaves
  stmt-Checked (if_stmt span condition then_branch else_branch) =
      Checked-after _ _ (condition-Keeps condition _) λ _.
        Checked-weaken _ (λ r. Leaves-map r if_inner)
          (if_rule-Checked span _ _ _ (branch-Keeps then_branch) (branch-Keeps else_branch)
            (branch-Checked then_branch) (branch-Checked else_branch))
  stmt-Checked (while_stmt span condition body) =
      while_rule-Checked span condition _ (branch-Keeps body) while-Ends
  stmt-Checked (for_stmt span init condition step body) =
      Checked-weaken _ (λ r x. rw x.0 (Leaves-falls (for-Ends x.1)))
        (for_rule-Checked span _ condition _ _ (branch-Keeps init) (step-Keeps step)
          (branch-Keeps body) (branch-Checked init))
  stmt-Checked (call_stmt span discarded) =
      simple-Checked _ (call_stmt-Keeps span discarded) call-Ends
  stmt-Checked (break_stmt span) = jumped _ (break-Keeps span) (break-Checked span)
  stmt-Checked (continue_stmt span) = jumped _ (continue-Keeps span) (continue-Checked span)

  stmts-Checked :
      (statements : Stmts) → Checked (Leaves (EndsAll statements)) (analyze_stmts statements)
  stmts-Checked no_stmts = Checked-pure _ empty-Leaves
  stmts-Checked (and_stmt stmt rest) =
      Checked-bind _ _ (Keeps-Level (analyze_stmt stmt) (stmt-Keeps stmt)) (stmt-Checked stmt)
        λ child_returns.
          Checked-bind _ _ (Keeps-Level (analyze_stmts rest) (stmts-Keeps rest))
            (stmts-Checked rest)
            λ others. Checked-pure _ λ later first. sequence-Leaves child_returns others first later

  branch-Checked : (part : MaybeStmt) → Checked (Leaves (EndsPart part)) (analyze_branch part)
  branch-Checked null = Checked-pure _ null-Leaves
  branch-Checked (present stmt) =
      Checked-weaken _ (λ r. Leaves-map r part_inner) (stmt-Checked stmt)
