-- ===== src/Tests/Dumping/Golden.antt =====
-- Both views of examples/add.nexs, against tests/golden/dump_ast/add.ast.txt and
-- tests/golden/dump_ast_dot/add.dot.
use nexc.Prelude.{◌≡◌, refl, some, [], ◌∷◌, Bytes, codes}
use nexc.Diagnostic.Render.{decimal_onto}
use nexc.Token.{plus, token_kind_name}
use nexc.Syntax.{
  Expr, name, binary, integer_literal, call, no_exprs, and_expr, Stmt, block, return_stmt, no_stmts,
  and_stmt, TypeSyntax, ParameterSyntax, i32, function_decl, const_decl, TranslationUnit,
}
use nexc.Semantic.Types.{join, builtin_type_name, bracketed, starred}
use nexc.Syntax.Dump.{format_type_syntax, ◌then◌, nothing}
use nexc.Syntax.Dump.Dot.{
  escape_char, dot_escape, edge_label, dot_line, node, edge, leaf, parent, child, dump_expr,
  dump_optional, dump_stmt, dump_parameters, parameters_below, dump_item, dump_items, dump_unit,
  dot_lines, dump_ast_dot,
}
use nexc.Syntax.Dump.Text.{
  line, indented, header, print_expr, print_value, print_stmt, print_parameters, print_item,
  print_items, print_unit, spaces, text_lines, dump_ast,
}
use nexc.Tests.Checking.Runs.{nowhere}

abbrev int : TypeSyntax
int = record { kind = i32; array_dimensions = []; pointer_depth = 0; span = nowhere }

abbrev parameter : Bytes → ParameterSyntax
parameter text = record { name = text; name_span = nowhere; type = int; span = nowhere }

abbrev variable : Bytes → Expr
variable text = name nowhere text

abbrev number : Bytes → Expr
number raw = integer_literal nowhere raw

abbrev return_of : Expr → Stmt
return_of e = block nowhere (and_stmt (return_stmt nowhere (some e)) no_stmts)

abbrev add_program : TranslationUnit
add_program = record {
  items =
      const_decl nowhere (codes "N") nowhere int (number (codes "4"))
      ∷ function_decl nowhere (codes "add") nowhere
          (parameter (codes "a") ∷ parameter (codes "b") ∷ []) int
          (return_of (binary nowhere (variable (codes "a")) plus (variable (codes "b"))))
      ∷ function_decl nowhere (codes "main") nowhere [] int (
          return_of (
            call nowhere (variable (codes "add"))
              (and_expr (variable (codes "N")) (and_expr (number (codes "38")) no_exprs))))
      ∷ [];
}

dump_ast-add :
    dump_ast add_program
    ≡ some (
        join (
          codes "TranslationUnit\n"
          ∷ codes "  ConstDecl N: i32\n"
          ∷ codes "    IntegerLiteral 4\n"
          ∷ codes "  FunctionDecl add\n"
          ∷ codes "    Parameters\n"
          ∷ codes "      Parameter a: i32\n"
          ∷ codes "      Parameter b: i32\n"
          ∷ codes "    ReturnType i32\n"
          ∷ codes "    BlockStmt\n"
          ∷ codes "      ReturnStmt\n"
          ∷ codes "        BinaryExpr Plus\n"
          ∷ codes "          NameExpr a\n"
          ∷ codes "          NameExpr b\n"
          ∷ codes "  FunctionDecl main\n"
          ∷ codes "    Parameters\n"
          ∷ codes "    ReturnType i32\n"
          ∷ codes "    BlockStmt\n"
          ∷ codes "      ReturnStmt\n"
          ∷ codes "        CallExpr\n"
          ∷ codes "          Callee\n"
          ∷ codes "            NameExpr add\n"
          ∷ codes "          Arguments\n"
          ∷ codes "            NameExpr N\n"
          ∷ codes "            IntegerLiteral 38\n"
          ∷ []))
unfolding dump_ast text_lines spaces print_unit print_items print_item print_parameters print_stmt
    print_value print_expr header indented line ◌then◌ nothing format_type_syntax starred bracketed
    builtin_type_name join token_kind_name
dump_ast-add = refl

dump_ast_dot-add :
    dump_ast_dot add_program
    ≡ some (
        join (
          codes "digraph NEX_AST {\n"
          ∷ codes "  graph [rankdir=TB];\n"
          ∷ codes "  node [shape=box, fontname=\"monospace\"];\n"
          ∷ codes "  edge [fontname=\"monospace\"];\n"
          ∷ codes "  n0 [label=\"TranslationUnit\"];\n"
          ∷ codes "  n1 [label=\"ConstDecl\\nN: i32\"];\n"
          ∷ codes "  n2 [label=\"IntegerLiteral\\n4\"];\n"
          ∷ codes "  n1 -> n2 [label=\"init\"];\n"
          ∷ codes "  n0 -> n1;\n"
          ∷ codes "  n3 [label=\"FunctionDecl\\nadd\"];\n"
          ∷ codes "  n4 [label=\"Parameters\"];\n"
          ∷ codes "  n3 -> n4;\n"
          ∷ codes "  n5 [label=\"Parameter\\na: i32\"];\n"
          ∷ codes "  n4 -> n5;\n"
          ∷ codes "  n6 [label=\"Parameter\\nb: i32\"];\n"
          ∷ codes "  n4 -> n6;\n"
          ∷ codes "  n7 [label=\"ReturnType\\ni32\"];\n"
          ∷ codes "  n3 -> n7;\n"
          ∷ codes "  n8 [label=\"BlockStmt\"];\n"
          ∷ codes "  n9 [label=\"ReturnStmt\"];\n"
          ∷ codes "  n10 [label=\"BinaryExpr\\nPlus\"];\n"
          ∷ codes "  n11 [label=\"NameExpr\\na\"];\n"
          ∷ codes "  n10 -> n11 [label=\"left\"];\n"
          ∷ codes "  n12 [label=\"NameExpr\\nb\"];\n"
          ∷ codes "  n10 -> n12 [label=\"right\"];\n"
          ∷ codes "  n9 -> n10 [label=\"value\"];\n"
          ∷ codes "  n8 -> n9;\n"
          ∷ codes "  n3 -> n8 [label=\"body\"];\n"
          ∷ codes "  n0 -> n3;\n"
          ∷ codes "  n13 [label=\"FunctionDecl\\nmain\"];\n"
          ∷ codes "  n14 [label=\"Parameters\"];\n"
          ∷ codes "  n13 -> n14;\n"
          ∷ codes "  n15 [label=\"ReturnType\\ni32\"];\n"
          ∷ codes "  n13 -> n15;\n"
          ∷ codes "  n16 [label=\"BlockStmt\"];\n"
          ∷ codes "  n17 [label=\"ReturnStmt\"];\n"
          ∷ codes "  n18 [label=\"CallExpr\"];\n"
          ∷ codes "  n19 [label=\"NameExpr\\nadd\"];\n"
          ∷ codes "  n18 -> n19 [label=\"callee\"];\n"
          ∷ codes "  n20 [label=\"NameExpr\\nN\"];\n"
          ∷ codes "  n18 -> n20 [label=\"arg\"];\n"
          ∷ codes "  n21 [label=\"IntegerLiteral\\n38\"];\n"
          ∷ codes "  n18 -> n21 [label=\"arg\"];\n"
          ∷ codes "  n17 -> n18 [label=\"value\"];\n"
          ∷ codes "  n16 -> n17;\n"
          ∷ codes "  n13 -> n16 [label=\"body\"];\n"
          ∷ codes "  n0 -> n13;\n"
          ∷ codes "}\n"
          ∷ []))
unfolding dump_ast_dot dot_lines dot_line dot_escape escape_char edge_label dump_unit dump_items
    dump_item dump_parameters parameters_below dump_stmt dump_optional dump_expr parent child node
    edge leaf ◌then◌ nothing format_type_syntax starred bracketed builtin_type_name join
    token_kind_name decimal_onto
dump_ast_dot-add = refl
