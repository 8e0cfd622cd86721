-- ===== src/Syntax/Dump/Dot.antt =====
-- src/frontend/ast.cpp: the tree as a Graphviz graph, `AstDotDumper`. The output is the list of the
-- lines of nodes and edges, in order, and is printed behind. The counter of nodes is not bounded,
-- since a tree of 2 ^ 64 nodes cannot be stored.
pub mod Tree
pub mod Escape
pub mod Whole
pub mod Missing
use nexc.Prelude.{
  ℕ, ◌+◌, Bool, true, false, Option, none, some, List, [], ◌∷◌, ◌++◌, Bytes, codes, ◌==◌,
  if◌then◌else◌,
}
use nexc.Token.{token_kind_name}
use nexc.Syntax.{
  Expr, integer_literal, float_literal, bool_literal, string_literal, name, call, unary, binary,
  paren, array_literal, index, Exprs, no_exprs, and_expr, Stmt, block, let_stmt, assign,
  return_stmt, if_stmt, while_stmt, for_stmt, call_stmt, break_stmt, continue_stmt, Stmts, no_stmts,
  and_stmt, MaybeStmt, null, present, TypeSyntax, ParameterSyntax, Item, function_decl, const_decl,
  TranslationUnit,
}
use nexc.Diagnostic.Render.{decimal}
use nexc.Semantic.Types.{join, has_explicit_type_syntax}
use nexc.Syntax.Dump.{format_type_syntax, ◌then◌, nothing}

unfoldable pub escape_char : ℕ → Bytes
escape_char c =
    if c == b'\\'
    then codes "\\\\"
    else if c == b'"'
    then codes "\\\""
    else if c == b'\n'
    then codes "\\n"
    else c ∷ []

unfoldable pub dot_escape : Bytes → Bytes
dot_escape [] = []
dot_escape (c ∷ text) = escape_char c ++ dot_escape text

pub data DotLine : Type 0 where
  node_line : ℕ → Bytes → DotLine
  edge_line : ℕ → ℕ → Bytes → DotLine

unfoldable pub edge_label : Bytes → Bytes
edge_label [] = []
edge_label (c ∷ label) = join (codes " [label=\"" ∷ dot_escape (c ∷ label) ∷ codes "\"]" ∷ [])

unfoldable pub dot_line : DotLine → Bytes
dot_line (node_line id label) =
    join (codes "  n" ∷ decimal id ∷ codes " [label=\"" ∷ dot_escape label ∷ codes "\"];\n" ∷ [])
dot_line (edge_line from to label) =
    join (
      codes "  n" ∷ decimal from ∷ codes " -> n" ∷ decimal to ∷ edge_label label ∷ codes ";\n" ∷ [])

pub record Graph : Type 0 where
  pub lines : List DotLine
  pub next_id : ℕ

abbrev pub Drawing : Type 0
Drawing = Graph → Option (ℕ × Graph)

unfoldable pub node : Bytes → Graph → ℕ × Graph
node label g = (
  g.next_id,
  record { lines = g.lines ++ (node_line g.next_id label ∷ []); next_id = g.next_id + 1 },
)

unfoldable pub edge : ℕ → ℕ → Bytes → Graph → Graph
edge from to label g = record {
  lines = g.lines ++ (edge_line from to label ∷ []);
  next_id = g.next_id;
}

-- A node without children.
unfoldable pub leaf : Bytes → Drawing
leaf label g = some (node label g)

-- A node, and what is drawn below it.
unfoldable pub parent : Bytes → (ℕ → Graph → Option Graph) → Drawing
parent label children g =
    let (id, g') = node label g in elim (children id g') [ none ↦ none | some g'' ↦ some (id, g'') ]

-- `edge(id, dump...(...), role)`.
unfoldable pub child : ℕ → Bytes → Drawing → Graph → Option Graph
child id role drawing g = elim (drawing g) [
  | none ↦ none
  | some below ↦ some (edge id (below.0) role (below.1))
]

unfoldable mutual
  pub dump_expr : Expr → Drawing
  dump_expr (integer_literal _ raw) = leaf (codes "IntegerLiteral\n" ++ raw)
  dump_expr (float_literal _ raw) = leaf (codes "FloatLiteral\n" ++ raw)
  dump_expr (bool_literal _ true) = leaf (codes "BoolLiteral\ntrue")
  dump_expr (bool_literal _ false) = leaf (codes "BoolLiteral\nfalse")
  dump_expr (string_literal _ raw) = leaf (codes "StringLiteral\n" ++ raw)
  dump_expr (name _ text) = leaf (codes "NameExpr\n" ++ text)
  dump_expr (call _ callee arguments) = parent (codes "CallExpr") (λ id.
      child id (codes "callee") (dump_expr callee) then dump_exprs id (codes "arg") arguments)
  dump_expr (unary _ op operand) =
      parent (codes "UnaryExpr\n" ++ codes (token_kind_name op))
        (λ id. child id (codes "operand") (dump_expr operand))
  dump_expr (binary _ left op right) =
      parent (codes "BinaryExpr\n" ++ codes (token_kind_name op)) (λ id.
        child id (codes "left") (dump_expr left) then child id (codes "right") (dump_expr right))
  dump_expr (paren _ inner) =
      parent (codes "ParenExpr") (λ id. child id (codes "inner") (dump_expr inner))
  dump_expr (array_literal _ elements) =
      parent (codes "ArrayLiteralExpr") (λ id. dump_exprs id (codes "elem") elements)
  dump_expr (index _ base at) =
      parent (codes "IndexExpr") (λ id.
        child id (codes "base") (dump_expr base) then child id (codes "index") (dump_expr at))

  pub dump_exprs : ℕ → Bytes → Exprs → Graph → Option Graph
  dump_exprs id role no_exprs = nothing
  dump_exprs id role (and_expr e rest) = child id role (dump_expr e) then dump_exprs id role rest

unfoldable pub dump_optional : ℕ → Bytes → Option Expr → Graph → Option Graph
dump_optional id role none = nothing
dump_optional id role (some e) = child id role (dump_expr e)

unfoldable pub let_label : Bool → Bytes → TypeSyntax → Bytes
let_label is_mutable text type =
    (if is_mutable then codes "LetStmt mut\n" else codes "LetStmt\n")
    ++ (text
        ++ (if has_explicit_type_syntax type
            then codes ": " ++ format_type_syntax type
            else codes ": <inferred>"))

unfoldable mutual
  pub dump_stmt : Stmt → Drawing
  dump_stmt (block _ statements) = parent (codes "BlockStmt") (λ id. dump_stmts id statements)
  dump_stmt (let_stmt _ is_mutable text _ type init) =
      parent (let_label is_mutable text type) (λ id. dump_optional id (codes "init") init)
  dump_stmt (assign _ target value) = parent (codes "AssignStmt") (λ id.
      child id (codes "target") (dump_expr target) then child id (codes "value") (dump_expr value))
  dump_stmt (return_stmt _ value) =
      parent (codes "ReturnStmt") (λ id. dump_optional id (codes "value") value)
  dump_stmt (if_stmt _ condition then_branch else_branch) = parent (codes "IfStmt") (λ id.
      child id (codes "condition") (dump_expr condition)
      then dump_part id (codes "then") then_branch
      then dump_if_present id (codes "else") else_branch)
  dump_stmt (while_stmt _ condition body) = parent (codes "WhileStmt") (λ id.
      child id (codes "condition") (dump_expr condition) then dump_part id (codes "body") body)
  dump_stmt (for_stmt _ init condition step body) = parent (codes "ForStmt") (λ id.
      dump_if_present id (codes "init") init
      then dump_optional id (codes "condition") condition
      then dump_if_present id (codes "step") step
      then dump_part id (codes "body") body)
  dump_stmt (call_stmt _ called) = parent (codes "CallStmt") (λ id. child id [] (dump_expr called))
  dump_stmt (break_stmt _) = leaf (codes "BreakStmt")
  dump_stmt (continue_stmt _) = leaf (codes "ContinueStmt")

  pub dump_stmts : ℕ → Stmts → Graph → Option Graph
  dump_stmts id no_stmts = nothing
  dump_stmts id (and_stmt s rest) = child id [] (dump_stmt s) then dump_stmts id rest

  -- `dumpStmt(*part)`, without a test of `part`.
  pub dump_part : ℕ → Bytes → MaybeStmt → Graph → Option Graph
  dump_part id role null g = none
  dump_part id role (present s) g = child id role (dump_stmt s) g

  pub dump_if_present : ℕ → Bytes → MaybeStmt → Graph → Option Graph
  dump_if_present id role null = nothing
  dump_if_present id role (present s) = child id role (dump_stmt s)

unfoldable pub dump_parameters : ℕ → List ParameterSyntax → Graph → Option Graph
dump_parameters id [] = nothing
dump_parameters id (p ∷ ps) =
    child id []
      (leaf (join (codes "Parameter\n" ∷ p.name ∷ codes ": " ∷ format_type_syntax p.type ∷ [])))
    then dump_parameters id ps

-- The node of the parameters is joined to the function before what hangs on it is drawn.
unfoldable pub parameters_below : ℕ → List ParameterSyntax → Graph → Option Graph
parameters_below id parameters g =
    let (params, g') = node (codes "Parameters") g in
    dump_parameters params parameters (edge id params [] g')

unfoldable pub dump_item : Item → Drawing
dump_item (function_decl _ text _ parameters return_type body) =
    parent (codes "FunctionDecl\n" ++ text) (λ id.
      parameters_below id parameters
      then child id [] (leaf (codes "ReturnType\n" ++ format_type_syntax return_type))
      then child id (codes "body") (dump_stmt body))
dump_item (const_decl _ text _ type init) =
    parent (join (codes "ConstDecl\n" ∷ text ∷ codes ": " ∷ format_type_syntax type ∷ []))
      (λ id. child id (codes "init") (dump_expr init))

unfoldable pub dump_items : ℕ → List Item → Graph → Option Graph
dump_items id [] = nothing
dump_items id (item ∷ items) = child id [] (dump_item item) then dump_items id items

abbrev pub empty_graph : Graph
empty_graph = record { lines = []; next_id = 0 }

-- The graph between the first lines and the last.
unfoldable pub dump_unit : TranslationUnit → Option (ℕ × Graph)
dump_unit unit = parent (codes "TranslationUnit") (λ root. dump_items root unit.items) empty_graph

unfoldable pub dot_lines : List DotLine → Bytes
dot_lines [] = []
dot_lines (l ∷ ls) = dot_line l ++ dot_lines ls

unfoldable pub dump_ast_dot : TranslationUnit → Option Bytes
dump_ast_dot unit = elim (dump_unit unit) [
  | none ↦ none
  | some drawn ↦ some (
      join (
        codes "digraph NEX_AST {\n"
        ∷ codes "  graph [rankdir=TB];\n"
        ∷ codes "  node [shape=box, fontname=\"monospace\"];\n"
        ∷ codes "  edge [fontname=\"monospace\"];\n"
        ∷ dot_lines (drawn.1.lines)
        ∷ codes "}\n"
        ∷ []))
]
