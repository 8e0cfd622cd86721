-- ===== src/Syntax/Dump/Text/Missing.antt =====
-- The text view of a tree of which a part is missing.
use nexc.Prelude.{◌≡◌, refl, false, List, [], ◌∷◌, String, inl, inr}
use nexc.Syntax.{
  Stmt, block, if_stmt, while_stmt, for_stmt, Stmts, no_stmts, and_stmt, MaybeStmt, null, present,
  Item, function_decl, const_decl,
}
use nexc.Syntax.Dump.{
  is_whole, are_whole, is_there, is_whole_or_null, is_whole_item, are_whole_items,
}
use nexc.Syntax.Dump.Fails.{Fails, stops, first-Fails, second-Fails, &&-eq-false}
use nexc.Syntax.Dump.Text.{
  Printing, indented, header, print_stmt, print_stmts, print_part, print_clause, print_item,
  print_items,
}

indented-Fails : {p : Printing} → Fails p → Fails (indented p)
unfolding indented
indented-Fails h = record { fails = λ d. stops _ (h.fails _) }

pub header-Fails : (text : String) {p : Printing} → Fails p → Fails (header text p)
unfolding header
header-Fails text h = second-Fails _ (indented-Fails h)

mutual
  unfolding is_whole print_stmt

  stmt-Fails : (s : Stmt) → is_whole s ≡ false → Fails (print_stmt s)
  stmt-Fails (block _ statements) h = header-Fails _ (stmts-Fails statements h)
  stmt-Fails (if_stmt _ condition first second) h =
      elim (&&-eq-false (is_there first) (is_whole_or_null second) h) [
        | inl e ↦
            header-Fails _ (second-Fails _ (first-Fails _ (header-Fails _ (part-Fails first e))))
        | inr e ↦ header-Fails _ (second-Fails _ (second-Fails _ (clause-Fails _ second e)))
      ]
  stmt-Fails (while_stmt _ condition body) h =
      header-Fails _ (second-Fails _ (header-Fails _ (part-Fails body h)))
  stmt-Fails (for_stmt _ init condition step body) h =
      elim (&&-eq-false (is_whole_or_null init) _ h) [
        | inl e ↦ header-Fails _ (first-Fails _ (clause-Fails _ init e))
        | inr others ↦ elim (&&-eq-false (is_whole_or_null step) (is_there body) others) [
          | inl e ↦
              header-Fails _
                (second-Fails _ (second-Fails _ (first-Fails _ (clause-Fails _ step e))))
          | inr e ↦ header-Fails _ (
              second-Fails _ (second-Fails _ (second-Fails _ (header-Fails _ (part-Fails body e)))))
        ]
      ]
  stmt-Fails _ h = absurd (cc)

  stmts-Fails : (ss : Stmts) → are_whole ss ≡ false → Fails (print_stmts ss)
  stmts-Fails no_stmts h = absurd (cc)
  stmts-Fails (and_stmt s rest) h = elim (&&-eq-false (is_whole s) (are_whole rest) h) [
    | inl e ↦ first-Fails _ (stmt-Fails s e)
    | inr e ↦ second-Fails _ (stmts-Fails rest e)
  ]

  part-Fails : (part : MaybeStmt) → is_there part ≡ false → Fails (print_part part)
  part-Fails null h = record { fails = λ d. refl }
  part-Fails (present s) h = record { fails = (stmt-Fails s h).fails }

  clause-Fails :
      (title : String) (part : MaybeStmt)
      → is_whole_or_null part ≡ false
      → Fails (print_clause title part)
  clause-Fails title null h = absurd (cc)
  clause-Fails title (present s) h = header-Fails title (stmt-Fails s h)

item-Fails : (item : Item) → is_whole_item item ≡ false → Fails (print_item item)
unfolding is_whole_item print_item
item-Fails (function_decl _ _ _ parameters _ body) h =
    second-Fails _ (indented-Fails (second-Fails _ (second-Fails _ (stmt-Fails body h))))
item-Fails (const_decl _ _ _ _ _) h = absurd (cc)

pub items-Fails : (items : List Item) → are_whole_items items ≡ false → Fails (print_items items)
unfolding are_whole_items print_items
items-Fails [] h = absurd (cc)
items-Fails (item ∷ items) h = elim (&&-eq-false (is_whole_item item) (are_whole_items items) h) [
  | inl e ↦ first-Fails _ (item-Fails item e)
  | inr e ↦ second-Fails _ (items-Fails items e)
]
