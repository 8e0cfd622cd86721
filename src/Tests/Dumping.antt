-- ===== src/Tests/Dumping.antt =====
-- The views of a small tree.
mod Golden
use nexc.Prelude.{◌≡◌, refl, none, some, List, [], ◌∷◌, ◌++◌, codes, true, false}
use nexc.Diagnostic.Render.{decimal_onto}
use nexc.Token.{star, token_kind_name}
use nexc.Syntax.{
  name, binary, block, if_stmt, no_stmts, and_stmt, null, TypeSyntax, i32, void, function_decl,
  const_decl, TranslationUnit,
}
use nexc.Semantic.Types.{join, builtin_type_name, bracketed, starred}
use nexc.Syntax.Dump.{format_type_syntax, ◌then◌, nothing, are_whole_items, is_whole, is_whole_item}
use nexc.Syntax.Dump.Missing.{dumps-missing}
use nexc.Syntax.Dump.Dot.{
  Graph, escape_char, dot_escape, edge_label, dot_line, node, edge, leaf, parent, child, dump_expr,
  dump_item, dump_items, dump_unit, dot_lines, dump_ast_dot,
}
use nexc.Syntax.Dump.Dot.Whole.{IsTree, dump_unit-IsTree}
use nexc.Syntax.Dump.Dot.Escape.{read_quoted, read_quoted-dot_escape}
use nexc.Syntax.Dump.Text.{
  TextLine, line, indented, header, print_expr, print_item, print_items, print_unit, spaces,
  text_lines, dump_ast,
}
use nexc.Syntax.Dump.Text.Outline.{Outline}
use nexc.Syntax.Dump.Text.Whole.{start, finished, print_unit-Outline}
use nexc.Tests.Checking.Runs.{nowhere, choice}

abbrev int : TypeSyntax
int = record { kind = i32; array_dimensions = 2 ∷ []; pointer_depth = 1; span = nowhere }

-- `const k: *[i32; 2] = a * b;`
abbrev table : TranslationUnit
table = record {
  items =
      const_decl nowhere (codes "k") nowhere int
        (binary nowhere (name nowhere (codes "a")) star (name nowhere (codes "b")))
      ∷ [];
}

-- What the parser makes of `fn f() -> void { if (a) ; }`.
abbrev missing : TranslationUnit
missing = record {
  items =
      function_decl nowhere (codes "f") nowhere []
        (record { kind = void; array_dimensions = []; pointer_depth = 0; span = nowhere })
        (block nowhere (and_stmt (if_stmt nowhere (name nowhere (codes "a")) null null) no_stmts))
      ∷ [];
}

dump_ast-table :
    dump_ast table
    ≡ some (
        codes
          "TranslationUnit\n  ConstDecl k: *[i32; 2]\n    BinaryExpr Star\n      NameExpr a\n      NameExpr b\n")
unfolding dump_ast text_lines spaces print_unit print_items print_item print_expr header indented
    line ◌then◌ nothing format_type_syntax starred bracketed builtin_type_name join token_kind_name
    decimal_onto
dump_ast-table = refl

missing_part : are_whole_items missing.items ≡ false
unfolding are_whole_items is_whole_item is_whole
missing_part = refl

dumps-missing_example : (dump_ast missing ≡ none) × (dump_ast_dot missing ≡ none)
dumps-missing_example = dumps-missing missing missing_part

dump_unit-table :
    dump_ast_dot table
    ≡ some (
        codes
          "digraph NEX_AST {\n  graph [rankdir=TB];\n  node [shape=box, fontname=\"monospace\"];\n  edge [fontname=\"monospace\"];\n  n0 [label=\"TranslationUnit\"];\n  n1 [label=\"ConstDecl\\nk: *[i32; 2]\"];\n  n2 [label=\"BinaryExpr\\nStar\"];\n  n3 [label=\"NameExpr\\na\"];\n  n2 -> n3 [label=\"left\"];\n  n4 [label=\"NameExpr\\nb\"];\n  n2 -> n4 [label=\"right\"];\n  n1 -> n2 [label=\"init\"];\n  n0 -> n1;\n}\n")
unfolding dump_ast_dot dot_lines dot_line dot_escape escape_char edge_label dump_unit dump_items
    dump_item dump_expr parent child node edge leaf ◌then◌ nothing format_type_syntax starred
    bracketed builtin_type_name join token_kind_name decimal_onto
dump_unit-table = refl

choice_whole : are_whole_items choice.items ≡ true
unfolding are_whole_items is_whole_item is_whole
choice_whole = refl

dump_unit-IsTree_example : (g : Graph) × (dump_unit choice ≡ some (0, g)) × IsTree g
dump_unit-IsTree_example = dump_unit-IsTree choice choice_whole

print_unit-Outline_example :
    (ls : List TextLine) × (print_unit choice start ≡ some (finished ls)) × Outline 2 2 ls
print_unit-Outline_example = print_unit-Outline choice choice_whole

read_quoted-dot_escape_example :
    read_quoted (dot_escape (codes "a\"b\\c\n") ++ (34 ∷ codes "];"))
    ≡ some (codes "a\"b\\c\n", codes "];")
read_quoted-dot_escape_example = read_quoted-dot_escape (codes "a\"b\\c\n") (codes "];")
