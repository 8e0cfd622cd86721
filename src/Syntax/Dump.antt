-- ===== src/Syntax/Dump.antt =====
-- src/frontend/ast.cpp: the views of a syntax tree. A dump follows the `unique_ptr`s of the tree,
-- and one that is null has no outcome. The parser leaves the first arm of an `if` or the body of a
-- loop null where it reports an error, and `main` dumps such a tree too.
pub mod Text
pub mod Dot
pub mod Fails
pub mod Missing
use nexc.Prelude.{Option, none, some, List, [], ◌∷◌, Bytes, Bool, true, false, ◌&&◌}
use nexc.Syntax.{
  Stmt, block, let_stmt, assign, return_stmt, if_stmt, while_stmt, for_stmt, call_stmt, break_stmt,
  continue_stmt, Stmts, no_stmts, and_stmt, MaybeStmt, null, present, TypeSyntax, Item,
  function_decl, const_decl,
}
use nexc.Semantic.Types.{starred, bracketed, builtin_type_name}

unfoldable pub format_type_syntax : TypeSyntax → Bytes
format_type_syntax syntax =
    starred syntax.pointer_depth (bracketed (builtin_type_name syntax.kind) syntax.array_dimensions)

infixr 20 ◌then◌
-- Two statements of the source in a row, on the state of a dump.
unfoldable pub ◌then◌ {ℓ} : {S : Type ℓ} → (S → Option S) → (S → Option S) → S → Option S
(f then g) s = elim (f s) [ none ↦ none | some s' ↦ g s' ]

unfoldable pub nothing {ℓ} : {S : Type ℓ} → S → Option S
nothing s = some s

-- No part of the statement that a dump follows is null.
unfoldable mutual
  pub is_whole : Stmt → Bool
  is_whole (block _ statements) = are_whole statements
  is_whole (let_stmt _ _ _ _ _ _) = true
  is_whole (assign _ _ _) = true
  is_whole (return_stmt _ _) = true
  is_whole (if_stmt _ _ first second) = is_there first && is_whole_or_null second
  is_whole (while_stmt _ _ body) = is_there body
  is_whole (for_stmt _ init _ step body) =
      is_whole_or_null init && (is_whole_or_null step && is_there body)
  is_whole (call_stmt _ _) = true
  is_whole (break_stmt _) = true
  is_whole (continue_stmt _) = true

  pub are_whole : Stmts → Bool
  are_whole no_stmts = true
  are_whole (and_stmt s rest) = is_whole s && are_whole rest

  pub is_there : MaybeStmt → Bool
  is_there null = false
  is_there (present s) = is_whole s

  pub is_whole_or_null : MaybeStmt → Bool
  is_whole_or_null null = true
  is_whole_or_null (present s) = is_whole s

unfoldable pub is_whole_item : Item → Bool
is_whole_item (function_decl _ _ _ _ _ body) = is_whole body
is_whole_item (const_decl _ _ _ _ _) = true

unfoldable pub are_whole_items : List Item → Bool
are_whole_items [] = true
are_whole_items (item ∷ items) = is_whole_item item && are_whole_items items
