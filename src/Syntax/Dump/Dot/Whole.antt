-- ===== src/Syntax/Dump/Dot/Whole.antt =====
-- The whole DOT view: of each statement without a missing part, and of the file.
use nexc.Prelude.{
  codes, ℕ, ◌≡◌, refl, true, false, Option, none, some, List, [], ◌∷◌, Bytes, &&-eq-true, arith,
}
use nexc.Syntax.{
  Expr, integer_literal, float_literal, bool_literal, string_literal, name, call, unary, binary,
  paren, array_literal, index, Exprs, no_exprs, and_expr, Stmt, block, let_stmt, assign,
  return_stmt, if_stmt, while_stmt, for_stmt, call_stmt, break_stmt, continue_stmt, Stmts, no_stmts,
  and_stmt, MaybeStmt, null, present, ParameterSyntax, Item, function_decl, const_decl,
  TranslationUnit,
}
use nexc.Syntax.Dump.{
  is_whole, are_whole, is_there, is_whole_or_null, is_whole_item, are_whole_items,
}
use nexc.Syntax.Dump.Dot.{
  Graph, empty_graph, dump_expr, dump_exprs, dump_optional, dump_stmt, dump_stmts, dump_part,
  dump_if_present, dump_parameters, parameters_below, node, edge, dump_item, dump_items, dump_unit,
}
use nexc.Syntax.Dump.Dot.Tree.{
  declared, entered, Downward, no_line, within, Rooted, rooted, Draws, Hangs, leaf-Draws,
  parent-Draws, child-Hangs, edge-node-Below, nothing-Hangs, then-Hangs,
}

mutual
  unfolding dump_expr

  expr-Draws : (e : Expr) → Draws (dump_expr e)
  expr-Draws (integer_literal _ _) = leaf-Draws _
  expr-Draws (float_literal _ _) = leaf-Draws _
  expr-Draws (bool_literal _ true) = leaf-Draws _
  expr-Draws (bool_literal _ false) = leaf-Draws _
  expr-Draws (string_literal _ _) = leaf-Draws _
  expr-Draws (name _ _) = leaf-Draws _
  expr-Draws (call _ callee arguments) =
      parent-Draws _
        (λ id. then-Hangs (child-Hangs id _ (expr-Draws callee)) (exprs-Hangs id _ arguments))
  expr-Draws (unary _ _ operand) = parent-Draws _ (λ id. child-Hangs id _ (expr-Draws operand))
  expr-Draws (binary _ left _ right) =
      parent-Draws _ (λ id.
        then-Hangs (child-Hangs id _ (expr-Draws left)) (child-Hangs id _ (expr-Draws right)))
  expr-Draws (paren _ inner) = parent-Draws _ (λ id. child-Hangs id _ (expr-Draws inner))
  expr-Draws (array_literal _ elements) = parent-Draws _ (λ id. exprs-Hangs id _ elements)
  expr-Draws (index _ base at) =
      parent-Draws _
        (λ id. then-Hangs (child-Hangs id _ (expr-Draws base)) (child-Hangs id _ (expr-Draws at)))

  exprs-Hangs : (id : ℕ) (role : Bytes) (es : Exprs) → Hangs id (dump_exprs id role es)
  exprs-Hangs id role no_exprs = nothing-Hangs id
  exprs-Hangs id role (and_expr e rest) =
      then-Hangs (child-Hangs id role (expr-Draws e)) (exprs-Hangs id role rest)

optional-Hangs : (id : ℕ) (role : Bytes) (e : Option Expr) → Hangs id (dump_optional id role e)
unfolding dump_optional
optional-Hangs id role none = nothing-Hangs id
optional-Hangs id role (some e) = child-Hangs id role (expr-Draws e)

mutual
  unfolding dump_stmt is_whole

  stmt-Draws : (s : Stmt) → is_whole s ≡ true → Draws (dump_stmt s)
  stmt-Draws (block _ statements) h = parent-Draws _ (λ id. stmts-Hangs id statements h)
  stmt-Draws (let_stmt _ _ _ _ _ init) h = parent-Draws _ (λ id. optional-Hangs id _ init)
  stmt-Draws (assign _ target value) h = parent-Draws _ (λ id.
      then-Hangs (child-Hangs id _ (expr-Draws target)) (child-Hangs id _ (expr-Draws value)))
  stmt-Draws (return_stmt _ value) h = parent-Draws _ (λ id. optional-Hangs id _ value)
  stmt-Draws (if_stmt _ condition first second) h =
      let (one, two) = &&-eq-true (is_there first) (is_whole_or_null second) h in
      parent-Draws _ (λ id.
        then-Hangs (child-Hangs id _ (expr-Draws condition))
          (then-Hangs (part-Hangs id _ first one) (branch-Hangs id _ second two)))
  stmt-Draws (while_stmt _ condition body) h =
      parent-Draws _
        (λ id. then-Hangs (child-Hangs id _ (expr-Draws condition)) (part-Hangs id _ body h))
  stmt-Draws (for_stmt _ init condition step body) h =
      let (one, others) = &&-eq-true (is_whole_or_null init) _ h in
      let (two, three) = &&-eq-true (is_whole_or_null step) (is_there body) others in
      parent-Draws _ (λ id. then-Hangs (branch-Hangs id _ init one) (
        then-Hangs (optional-Hangs id _ condition)
          (then-Hangs (branch-Hangs id _ step two) (part-Hangs id _ body three))))
  stmt-Draws (call_stmt _ called) h = parent-Draws _ (λ id. child-Hangs id _ (expr-Draws called))
  stmt-Draws (break_stmt _) h = leaf-Draws _
  stmt-Draws (continue_stmt _) h = leaf-Draws _

  stmts-Hangs : (id : ℕ) (ss : Stmts) → are_whole ss ≡ true → Hangs id (dump_stmts id ss)
  stmts-Hangs id no_stmts h = nothing-Hangs id
  stmts-Hangs id (and_stmt s rest) h =
      let (one, others) = &&-eq-true (is_whole s) (are_whole rest) h in
      then-Hangs (child-Hangs id _ (stmt-Draws s one)) (stmts-Hangs id rest others)

  part-Hangs :
      (id : ℕ) (role : Bytes) (part : MaybeStmt)
      → is_there part ≡ true
      → Hangs id (dump_part id role part)
  part-Hangs id role null h = absurd (cc)
  part-Hangs id role (present s) h = child-Hangs id role (stmt-Draws s h)

  branch-Hangs :
      (id : ℕ) (role : Bytes) (part : MaybeStmt)
      → is_whole_or_null part ≡ true
      → Hangs id (dump_if_present id role part)
  branch-Hangs id role null h = nothing-Hangs id
  branch-Hangs id role (present s) h = child-Hangs id role (stmt-Draws s h)

parameters-Hangs : (id : ℕ) (ps : List ParameterSyntax) → Hangs id (dump_parameters id ps)
unfolding dump_parameters
parameters-Hangs id [] = nothing-Hangs id
parameters-Hangs id (p ∷ ps) = then-Hangs (child-Hangs id _ (leaf-Draws _)) (parameters-Hangs id ps)

parameters_below-Hangs : (id : ℕ) (ps : List ParameterSyntax) → Hangs id (parameters_below id ps)
unfolding parameters_below node edge
parameters_below-Hangs id ps = record {
  hangs = λ g known.
      edge-node-Below id [] (codes "Parameters") g known
        ((parameters-Hangs g.next_id ps).hangs _ (omega arith));
}

item-Draws : (item : Item) → is_whole_item item ≡ true → Draws (dump_item item)
unfolding dump_item is_whole_item
item-Draws (function_decl _ _ _ parameters _ body) h = parent-Draws _ (λ id.
    then-Hangs (parameters_below-Hangs id parameters)
      (then-Hangs (child-Hangs id _ (leaf-Draws _)) (child-Hangs id _ (stmt-Draws body h))))
item-Draws (const_decl _ _ _ _ init) h = parent-Draws _ (λ id. child-Hangs id _ (expr-Draws init))

items-Hangs :
    (id : ℕ) (items : List Item) → are_whole_items items ≡ true → Hangs id (dump_items id items)
unfolding dump_items are_whole_items
items-Hangs id [] h = nothing-Hangs id
items-Hangs id (item ∷ items) h =
    let (one, others) = &&-eq-true (is_whole_item item) (are_whole_items items) h in
    then-Hangs (child-Hangs id _ (item-Draws item one)) (items-Hangs id items others)

-- The nodes are declared once and are numbered from 0, each but the root 0 has one edge into it,
-- the root has none, and an edge leads to a node with a greater number.
pub record IsTree (g : Graph) : Type 0 where
  pub nodes : (i : ℕ) → declared i g.lines ≡ within 0 g.next_id i
  pub edges : (i : ℕ) → entered i g.lines ≡ within 1 g.next_id i
  pub down : Downward g.lines

Rooted-IsTree :
    {o : Option (ℕ × Graph)} → Rooted empty_graph o → (g : Graph) × (o ≡ some (0, g)) × IsTree g
unfolding declared entered
Rooted-IsTree (rooted {g'} more a) = (
  g',
  refl,
  record {
    nodes = λ i. (let e = a.declares i in ground arith);
    edges = λ i. (let e = a.enters i in ground arith);
    down = a.down no_line;
  },
)

-- The DOT view of a file of which no part is missing is drawn, and it is a tree whose root is the
-- node 0: the nodes are numbered from 0 and declared once, an edge leads to a node with a greater
-- number than that it comes from, and each node but the root has exactly one edge into it.
pub dump_unit-IsTree :
    (unit : TranslationUnit)
    → are_whole_items unit.items ≡ true
    → (g : Graph) × (dump_unit unit ≡ some (0, g)) × IsTree g
unfolding dump_unit
dump_unit-IsTree unit h =
    Rooted-IsTree ((parent-Draws _ (λ root. items-Hangs root unit.items h)).draws empty_graph)
