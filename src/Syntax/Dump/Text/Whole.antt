-- ===== src/Syntax/Dump/Text/Whole.antt =====
-- The whole text view: of each statement without a missing part, and of the file.
use nexc.Prelude.{
  ◌-◌, ◌≡◌, ap, true, false, Option, none, some, List, [], ◌∷◌, String, codes, &&-eq-true,
}
use nexc.Syntax.{
  Expr, integer_literal, float_literal, bool_literal, string_literal, name, call, unary, binary,
  paren, array_literal, index, Exprs, no_exprs, and_expr, Stmt, block, let_stmt, assign,
  return_stmt, if_stmt, while_stmt, for_stmt, call_stmt, break_stmt, continue_stmt, Stmts, no_stmts,
  and_stmt, MaybeStmt, null, present, ParameterSyntax, Item, function_decl, const_decl,
  TranslationUnit,
}
use nexc.Syntax.Dump.{
  is_whole, are_whole, is_there, is_whole_or_null, is_whole_item, are_whole_items,
}
use nexc.Syntax.Dump.Text.{
  AstDumper, TextLine, print_expr, print_exprs, print_init, print_value, print_condition,
  print_stmt, print_stmts, print_part, print_clause, print_parameters, print_item, print_items,
  print_unit, header, line, indented,
}
use nexc.Syntax.Dump.{◌then◌}
use nexc.Syntax.Dump.Text.Outline.{
  Outline, Printed, printed, Prints, line-Prints, nothing-Prints, indented-Prints, then-Prints,
  titled-Prints, header-Prints,
}

mutual
  unfolding print_expr

  expr-Prints : (e : Expr) → Prints 0 (print_expr e)
  expr-Prints (integer_literal _ _) = line-Prints _
  expr-Prints (float_literal _ _) = line-Prints _
  expr-Prints (bool_literal _ true) = line-Prints _
  expr-Prints (bool_literal _ false) = line-Prints _
  expr-Prints (string_literal _ _) = line-Prints _
  expr-Prints (name _ _) = line-Prints _
  expr-Prints (call _ callee arguments) = header-Prints _ (
      then-Prints (header-Prints _ (expr-Prints callee)) (header-Prints _ (exprs-Prints arguments)))
  expr-Prints (unary _ _ operand) = titled-Prints _ (indented-Prints (expr-Prints operand))
  expr-Prints (binary _ left _ right) =
      titled-Prints _ (indented-Prints (then-Prints (expr-Prints left) (expr-Prints right)))
  expr-Prints (paren _ inner) = header-Prints _ (expr-Prints inner)
  expr-Prints (array_literal _ elements) = header-Prints _ (exprs-Prints elements)
  expr-Prints (index _ base at) =
      header-Prints _
        (then-Prints (header-Prints _ (expr-Prints base)) (header-Prints _ (expr-Prints at)))

  exprs-Prints : (es : Exprs) → Prints 0 (print_exprs es)
  exprs-Prints no_exprs = nothing-Prints 0
  exprs-Prints (and_expr e rest) = then-Prints (expr-Prints e) (exprs-Prints rest)

init-Prints : (e : Option Expr) → Prints 2 (print_init e)
unfolding print_init
init-Prints none = indented-Prints (line-Prints _)
init-Prints (some e) = indented-Prints (expr-Prints e)

value-Prints : (e : Option Expr) → Prints 2 (print_value e)
unfolding print_value
value-Prints none = nothing-Prints 2
value-Prints (some e) = indented-Prints (expr-Prints e)

condition-Prints : (e : Option Expr) → Prints 0 (print_condition e)
unfolding print_condition
condition-Prints none = nothing-Prints 0
condition-Prints (some e) = header-Prints _ (expr-Prints e)

mutual
  unfolding print_stmt is_whole

  stmt-Prints : (s : Stmt) → is_whole s ≡ true → Prints 0 (print_stmt s)
  stmt-Prints (block _ statements) h = header-Prints _ (stmts-Prints statements h)
  stmt-Prints (let_stmt _ _ _ _ _ init) h = titled-Prints _ (init-Prints init)
  stmt-Prints (assign _ target value) h =
      header-Prints _
        (then-Prints (header-Prints _ (expr-Prints target)) (header-Prints _ (expr-Prints value)))
  stmt-Prints (return_stmt _ value) h = titled-Prints _ (value-Prints value)
  stmt-Prints (if_stmt _ condition first second) h =
      let (one, two) = &&-eq-true (is_there first) (is_whole_or_null second) h in
      header-Prints _ (
        then-Prints (header-Prints _ (expr-Prints condition))
          (then-Prints (header-Prints _ (part-Prints first one)) (clause-Prints _ second two)))
  stmt-Prints (while_stmt _ condition body) h =
      header-Prints _ (
        then-Prints (header-Prints _ (expr-Prints condition))
          (header-Prints _ (part-Prints body h)))
  stmt-Prints (for_stmt _ init condition step body) h =
      let (one, others) = &&-eq-true (is_whole_or_null init) _ h in
      let (two, three) = &&-eq-true (is_whole_or_null step) (is_there body) others in
      header-Prints _ (
        then-Prints (clause-Prints _ init one) (
          then-Prints (condition-Prints condition)
            (then-Prints (clause-Prints _ step two) (header-Prints _ (part-Prints body three)))))
  stmt-Prints (call_stmt _ called) h = header-Prints _ (expr-Prints called)
  stmt-Prints (break_stmt _) h = line-Prints _
  stmt-Prints (continue_stmt _) h = line-Prints _

  stmts-Prints : (ss : Stmts) → are_whole ss ≡ true → Prints 0 (print_stmts ss)
  stmts-Prints no_stmts h = nothing-Prints 0
  stmts-Prints (and_stmt s rest) h =
      let (one, others) = &&-eq-true (is_whole s) (are_whole rest) h in
      then-Prints (stmt-Prints s one) (stmts-Prints rest others)

  part-Prints : (part : MaybeStmt) → is_there part ≡ true → Prints 0 (print_part part)
  part-Prints null h = absurd (cc)
  part-Prints (present s) h = stmt-Prints s h

  clause-Prints :
      (title : String) (part : MaybeStmt)
      → is_whole_or_null part ≡ true
      → Prints 0 (print_clause title part)
  clause-Prints title null h = nothing-Prints 0
  clause-Prints title (present s) h = header-Prints title (stmt-Prints s h)

parameters-Prints : (ps : List ParameterSyntax) → Prints 0 (print_parameters ps)
unfolding print_parameters
parameters-Prints [] = nothing-Prints 0
parameters-Prints (p ∷ ps) = then-Prints (line-Prints _) (parameters-Prints ps)

item-Prints : (item : Item) → is_whole_item item ≡ true → Prints 0 (print_item item)
unfolding print_item is_whole_item
item-Prints (function_decl _ _ _ parameters _ body) h = titled-Prints _ (
    indented-Prints (
      then-Prints (header-Prints _ (parameters-Prints parameters))
        (then-Prints (line-Prints _) (stmt-Prints body h))))
item-Prints (const_decl _ _ _ _ init) h = titled-Prints _ (indented-Prints (expr-Prints init))

items-Prints : (items : List Item) → are_whole_items items ≡ true → Prints 0 (print_items items)
unfolding print_items are_whole_items
items-Prints [] h = nothing-Prints 0
items-Prints (item ∷ items) h =
    let (one, others) = &&-eq-true (is_whole_item item) (are_whole_items items) h in
    then-Prints (item-Prints item one) (items-Prints items others)

abbrev pub start : AstDumper
start = record { out = []; indent = 0 }

abbrev pub root : TextLine
root = record { indent = 0; text = codes "TranslationUnit" }

-- The dumper behind the root and `ls`.
abbrev pub finished : List TextLine → AstDumper
finished ls = record { out = root ∷ ls; indent = 0 }

-- The end of the block that was printed deeper.
abbrev dedent : AstDumper → AstDumper
dedent d = record { out = d.out; indent = d.indent - 2 }

under_root :
    {o : Option AstDumper}
    → Printed 0 (record { out = root ∷ []; indent = 2 }) o
    → (ls : List TextLine) × ((elim o [ none ↦ none | some d ↦ some (dedent d) ])
        ≡ some (finished ls))
      × Outline 2 2 ls
under_root (printed {d'} ls same back outline) =
    (ls, (λ i. some (record { out = same i; indent = ap (λ n. n - 2) back i })), outline)

-- The text view of a file of which no part is missing is printed and ends at the indentation 0.
-- Its first line is the root, all others are deeper, and each is at most one level deeper than the
-- line before it.
pub print_unit-Outline :
    (unit : TranslationUnit)
    → are_whole_items unit.items ≡ true
    → (ls : List TextLine) × (print_unit unit start ≡ some (finished ls)) × Outline 2 2 ls
unfolding print_unit header ◌then◌ line indented
print_unit-Outline unit h = under_root ((items-Prints unit.items h).prints _)
