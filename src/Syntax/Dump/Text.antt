-- ===== src/Syntax/Dump/Text.antt =====
-- src/frontend/ast.cpp: the tree as indented lines, `AstDumper`.
pub mod Outline
pub mod Whole
pub mod Missing
use nexc.Prelude.{
  ℕ, zero, suc, ◌+◌, ◌-◌, Bool, true, false, Option, none, some, List, [], ◌∷◌, ◌++◌, Bytes, codes,
  if◌then◌else◌, String,
}
use nexc.Token.{token_kind_name}
use nexc.Syntax.{
  Expr, integer_literal, float_literal, bool_literal, string_literal, name, call, unary, binary,
  paren, array_literal, index, Exprs, no_exprs, and_expr, Stmt, block, let_stmt, assign,
  return_stmt, if_stmt, while_stmt, for_stmt, call_stmt, break_stmt, continue_stmt, Stmts, no_stmts,
  and_stmt, MaybeStmt, null, present, TypeSyntax, ParameterSyntax, Item, function_decl, const_decl,
  TranslationUnit,
}
use nexc.Semantic.Types.{join, has_explicit_type_syntax}
use nexc.Syntax.Dump.{format_type_syntax, ◌then◌, nothing}

pub record TextLine : Type 0 where
  pub indent : ℕ
  pub text : Bytes

pub record AstDumper : Type 0 where
  pub out : List TextLine
  pub indent : ℕ

abbrev pub Printing : Type 0
Printing = AstDumper → Option AstDumper

unfoldable pub line : Bytes → Printing
line text d =
    some (record {
      out = d.out ++ (record { indent = d.indent; text = text } ∷ []);
      indent = d.indent;
    })

-- `indent_ += 2; ...; indent_ -= 2;`
unfoldable pub indented : Printing → Printing
indented p d = elim (p (record { out = d.out; indent = d.indent + 2 })) [
  | none ↦ none
  | some d' ↦ some (record { out = d'.out; indent = d'.indent - 2 })
]

-- A line, and what is printed deeper behind it.
unfoldable pub header : String → Printing → Printing
header text below = line (codes text) then indented below

unfoldable mutual
  pub print_expr : Expr → Printing
  print_expr (integer_literal _ raw) = line (codes "IntegerLiteral " ++ raw)
  print_expr (float_literal _ raw) = line (codes "FloatLiteral " ++ raw)
  print_expr (bool_literal _ true) = line (codes "BoolLiteral true")
  print_expr (bool_literal _ false) = line (codes "BoolLiteral false")
  print_expr (string_literal _ raw) = line (codes "StringLiteral " ++ raw)
  print_expr (name _ text) = line (codes "NameExpr " ++ text)
  print_expr (call _ callee arguments) =
      header "CallExpr"
        (header "Callee" (print_expr callee) then header "Arguments" (print_exprs arguments))
  print_expr (unary _ op operand) =
      line (codes "UnaryExpr " ++ codes (token_kind_name op)) then indented (print_expr operand)
  print_expr (binary _ left op right) =
      line (codes "BinaryExpr " ++ codes (token_kind_name op))
      then indented (print_expr left then print_expr right)
  print_expr (paren _ inner) = header "ParenExpr" (print_expr inner)
  print_expr (array_literal _ elements) = header "ArrayLiteralExpr" (print_exprs elements)
  print_expr (index _ base at) =
      header "IndexExpr" (header "Base" (print_expr base) then header "Index" (print_expr at))

  pub print_exprs : Exprs → Printing
  print_exprs no_exprs = nothing
  print_exprs (and_expr e rest) = print_expr e then print_exprs rest

unfoldable pub let_header : Bool → Bytes → TypeSyntax → Bytes
let_header is_mutable text type =
    (if is_mutable then codes "LetStmt mut " else codes "LetStmt ")
    ++ (text
        ++ (if has_explicit_type_syntax type
            then codes ": " ++ format_type_syntax type
            else codes ": <inferred>"))

unfoldable pub print_init : Option Expr → Printing
print_init none = indented (line (codes "(uninitialized)"))
print_init (some e) = indented (print_expr e)

unfoldable pub print_value : Option Expr → Printing
print_value none = nothing
print_value (some e) = indented (print_expr e)

unfoldable pub print_condition : Option Expr → Printing
print_condition none = nothing
print_condition (some e) = header "Condition" (print_expr e)

unfoldable mutual
  pub print_stmt : Stmt → Printing
  print_stmt (block _ statements) = header "BlockStmt" (print_stmts statements)
  print_stmt (let_stmt _ is_mutable text _ type init) =
      line (let_header is_mutable text type) then print_init init
  print_stmt (assign _ target value) =
      header "AssignStmt"
        (header "Target" (print_expr target) then header "Value" (print_expr value))
  print_stmt (return_stmt _ value) = line (codes "ReturnStmt") then print_value value
  print_stmt (if_stmt _ condition then_branch else_branch) = header "IfStmt" (
      header "Condition" (print_expr condition)
      then header "Then" (print_part then_branch)
      then print_clause "Else" else_branch)
  print_stmt (while_stmt _ condition body) =
      header "WhileStmt"
        (header "Condition" (print_expr condition) then header "Body" (print_part body))
  print_stmt (for_stmt _ init condition step body) = header "ForStmt" (
      print_clause "Init" init
      then print_condition condition
      then print_clause "Step" step
      then header "Body" (print_part body))
  print_stmt (break_stmt _) = line (codes "BreakStmt")
  print_stmt (continue_stmt _) = line (codes "ContinueStmt")
  print_stmt (call_stmt _ called) = header "CallStmt" (print_expr called)

  pub print_stmts : Stmts → Printing
  print_stmts no_stmts = nothing
  print_stmts (and_stmt s rest) = print_stmt s then print_stmts rest

  -- `dumpStmt(*part)`, without a test of `part`.
  pub print_part : MaybeStmt → Printing
  print_part null d = none
  print_part (present s) d = print_stmt s d

  pub print_clause : String → MaybeStmt → Printing
  print_clause title null = nothing
  print_clause title (present s) = header title (print_stmt s)

unfoldable pub print_parameters : List ParameterSyntax → Printing
print_parameters [] = nothing
print_parameters (p ∷ ps) =
    line (join (codes "Parameter " ∷ p.name ∷ codes ": " ∷ format_type_syntax p.type ∷ []))
    then print_parameters ps

unfoldable pub print_item : Item → Printing
print_item (function_decl _ text _ parameters return_type body) =
    line (codes "FunctionDecl " ++ text)
    then indented (
        header "Parameters" (print_parameters parameters)
        then line (codes "ReturnType " ++ format_type_syntax return_type)
        then print_stmt body)
print_item (const_decl _ text _ type init) =
    line (join (codes "ConstDecl " ∷ text ∷ codes ": " ∷ format_type_syntax type ∷ []))
    then indented (print_expr init)

unfoldable pub print_items : List Item → Printing
print_items [] = nothing
print_items (item ∷ items) = print_item item then print_items items

unfoldable pub print_unit : TranslationUnit → Printing
print_unit unit = header "TranslationUnit" (print_items unit.items)

unfoldable pub spaces : ℕ → Bytes
spaces zero = []
spaces (suc n) = b' ' ∷ spaces n

unfoldable pub text_lines : List TextLine → Bytes
text_lines [] = []
text_lines (l ∷ ls) = join (spaces l.indent ∷ l.text ∷ codes "\n" ∷ text_lines ls ∷ [])

unfoldable pub dump_ast : TranslationUnit → Option Bytes
dump_ast unit = elim (print_unit unit (record { out = []; indent = 0 })) [
  | none ↦ none
  | some d ↦ some (text_lines d.out)
]
