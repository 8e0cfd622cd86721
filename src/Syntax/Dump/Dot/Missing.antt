-- ===== src/Syntax/Dump/Dot/Missing.antt =====
-- The DOT view of a tree of which a part is missing.
use nexc.Prelude.{ℕ, ◌≡◌, refl, false, Option, List, [], ◌∷◌, Bytes, inl, inr}
use nexc.Syntax.{
  Stmt, block, if_stmt, while_stmt, for_stmt, Stmts, no_stmts, and_stmt, MaybeStmt, null, present,
  Item, function_decl, const_decl,
}
use nexc.Syntax.Dump.{
  is_whole, are_whole, is_there, is_whole_or_null, is_whole_item, are_whole_items,
}
use nexc.Syntax.Dump.Fails.{Fails, stops, first-Fails, second-Fails, &&-eq-false}
use nexc.Syntax.Dump.Dot.{
  Graph, Drawing, node, parent, child, dump_stmt, dump_stmts, dump_part, dump_if_present, dump_item,
  dump_items,
}

child-Fails : (id : ℕ) (role : Bytes) {d : Drawing} → Fails d → Fails (child id role d)
unfolding child
child-Fails id role h = record { fails = λ g. stops _ (h.fails g) }

pub parent-Fails :
    (label : Bytes) {c : ℕ → Graph → Option Graph}
    → ((id : ℕ) → Fails (c id))
    → Fails (parent label c)
unfolding parent
parent-Fails label h = record { fails = λ g. stops _ ((h (node label g).0).fails (node label g).1) }

mutual
  unfolding is_whole dump_stmt

  stmt-Fails : (s : Stmt) → is_whole s ≡ false → Fails (dump_stmt s)
  stmt-Fails (block _ statements) h = parent-Fails _ (λ id. stmts-Fails id statements h)
  stmt-Fails (if_stmt _ condition first second) h =
      elim (&&-eq-false (is_there first) (is_whole_or_null second) h) [
        | inl e ↦ parent-Fails _ (λ id. second-Fails _ (first-Fails _ (part-Fails id _ first e)))
        | inr e ↦
            parent-Fails _ (λ id. second-Fails _ (second-Fails _ (branch-Fails id _ second e)))
      ]
  stmt-Fails (while_stmt _ condition body) h =
      parent-Fails _ (λ id. second-Fails _ (part-Fails id _ body h))
  stmt-Fails (for_stmt _ init condition step body) h =
      elim (&&-eq-false (is_whole_or_null init) _ h) [
        | inl e ↦ parent-Fails _ (λ id. first-Fails _ (branch-Fails id _ init e))
        | inr others ↦ elim (&&-eq-false (is_whole_or_null step) (is_there body) others) [
          | inl e ↦
              parent-Fails _
                (λ id. second-Fails _ (second-Fails _ (first-Fails _ (branch-Fails id _ step e))))
          | inr e ↦
              parent-Fails _
                (λ id. second-Fails _ (second-Fails _ (second-Fails _ (part-Fails id _ body e))))
        ]
      ]
  stmt-Fails _ h = absurd (cc)

  stmts-Fails : (id : ℕ) (ss : Stmts) → are_whole ss ≡ false → Fails (dump_stmts id ss)
  stmts-Fails id no_stmts h = absurd (cc)
  stmts-Fails id (and_stmt s rest) h = elim (&&-eq-false (is_whole s) (are_whole rest) h) [
    | inl e ↦ first-Fails _ (child-Fails id _ (stmt-Fails s e))
    | inr e ↦ second-Fails _ (stmts-Fails id rest e)
  ]

  part-Fails :
      (id : ℕ) (role : Bytes) (part : MaybeStmt)
      → is_there part ≡ false
      → Fails (dump_part id role part)
  part-Fails id role null h = record { fails = λ d. refl }
  part-Fails id role (present s) h = record { fails = (child-Fails id role (stmt-Fails s h)).fails }

  branch-Fails :
      (id : ℕ) (role : Bytes) (part : MaybeStmt)
      → is_whole_or_null part ≡ false
      → Fails (dump_if_present id role part)
  branch-Fails id role null h = absurd (cc)
  branch-Fails id role (present s) h = child-Fails id role (stmt-Fails s h)

item-Fails : (item : Item) → is_whole_item item ≡ false → Fails (dump_item item)
unfolding is_whole_item dump_item
item-Fails (function_decl _ _ _ parameters _ body) h =
    parent-Fails _ (λ id. second-Fails _ (second-Fails _ (child-Fails id _ (stmt-Fails body h))))
item-Fails (const_decl _ _ _ _ _) h = absurd (cc)

pub items-Fails :
    (id : ℕ) (items : List Item) → are_whole_items items ≡ false → Fails (dump_items id items)
unfolding are_whole_items dump_items
items-Fails id [] h = absurd (cc)
items-Fails id (item ∷ items) h =
    elim (&&-eq-false (is_whole_item item) (are_whole_items items) h) [
      | inl e ↦ first-Fails _ (child-Fails id _ (item-Fails item e))
      | inr e ↦ second-Fails _ (items-Fails id items e)
    ]
