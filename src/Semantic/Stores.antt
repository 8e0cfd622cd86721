-- ===== src/Semantic/Stores.antt =====
-- Assignments.
use nexc.Prelude.{◌==◌, length, not, none, some, List, [], ◌∷◌, Bytes, codes}
use nexc.Source.{SourceSpan}
use nexc.Token.{star}
use nexc.Syntax.{Expr, name, index, unary, expr_span}
use nexc.Semantic.Types.{is_fixed_array, is_pointer, pointee_type, same_type, type_name}
use nexc.Semantic.State.{
  Analysis, normal, ValueSymbol, ◌>>=◌, ◌>>◌, done, gets, branch, when, error, lookup_value,
}
use nexc.Semantic.Scopes.{mark_definite_assigned}
use nexc.Semantic.Elements.{note_indexed_store_to_local}
use nexc.Semantic.Operators.{require}
use nexc.Semantic.Calls.{IndexedNameChain, peel_indexed_name_chain}
use nexc.Semantic.Expressions.{analyze_expr, analyze_indices}

-- The target is refused; the value is looked at all the same.
abbrev pub refuse_target : SourceSpan → List Bytes → Expr → Analysis (Unit {0})
refuse_target span message value = do error span message; analyze_expr value none normal; done

unfoldable pub assign_name : SourceSpan → Bytes → Expr → Analysis (Unit {0})
assign_name span text value = do
  found ← gets λ s. lookup_value s text
  elim found [
    | none ↦ refuse_target span (codes "undefined local `" ∷ text ∷ codes "`" ∷ []) value
    | some symbol ↦ (do
      require symbol.is_mutable span
          (codes "cannot assign to immutable binding `" ∷ text ∷ codes "`" ∷ [])
      v ← analyze_expr value (some symbol.type) normal
      require (same_type symbol.type v.type) (expr_span value) (
          codes "cannot assign value of type `"
          ∷ type_name v.type
          ∷ codes "` to `"
          ∷ text
          ∷ codes "` of type `"
          ∷ type_name symbol.type
          ∷ codes "`"
          ∷ [])
      mark_definite_assigned symbol.binding_id)
  ]

-- A store to an element, behind the checks of its target.
unfoldable pub assign_element : ValueSymbol → IndexedNameChain → Expr → Expr → Analysis (Unit {0})
assign_element symbol chain target value = do
  walked ← analyze_indices target symbol.type
  v ← analyze_expr value (some walked.0) normal
  require (same_type walked.0 v.type) (expr_span value) (
      codes "cannot assign value of type `"
      ∷ type_name v.type
      ∷ codes "` to element type `"
      ∷ type_name walked.0
      ∷ codes "`"
      ∷ [])
  when (not symbol.is_const)
      (note_indexed_store_to_local symbol.binding_id symbol.type walked.1 chain.index_spans)

unfoldable pub assign_indexed : IndexedNameChain → Expr → Expr → Analysis (Unit {0})
assign_indexed chain target value = do
  found ← gets λ s. lookup_value s chain.root_name
  elim found [
    | none ↦
        refuse_target chain.root_span (codes "undefined local `" ∷ chain.root_name ∷ codes "`" ∷ [])
          value
    | some symbol ↦
        branch (not symbol.is_mutable)
          (refuse_target chain.root_span
            (codes "cannot assign through immutable array binding `"
              ∷ chain.root_name
              ∷ codes "`"
              ∷ [])
            value)
          (branch (not (is_fixed_array symbol.type))
            (refuse_target chain.root_span (codes "indexed assignment requires an array local" ∷ [])
              value)
            (branch (length chain.index_spans == length symbol.type.array_dimensions)
              (assign_element symbol chain target value)
              (refuse_target (expr_span target)
                (codes "indexed assignment must store through a scalar element of `"
                  ∷ type_name symbol.type
                  ∷ codes "`"
                  ∷ [])
                value)))
  ]

unfoldable pub assign_dereferenced : Expr → Expr → Analysis (Unit {0})
assign_dereferenced operand value = do
  pointer ← analyze_expr operand none normal
  branch (is_pointer pointer.type)
      (do
        v ← analyze_expr value (some (pointee_type pointer.type)) normal
        require (same_type (pointee_type pointer.type) v.type) (expr_span value) (
            codes "cannot assign value of type `"
            ∷ type_name v.type
            ∷ codes "` through pointer to `"
            ∷ type_name (pointee_type pointer.type)
            ∷ codes "`"
            ∷ []))
      (refuse_target (expr_span operand)
        (codes "dereferenced assignment target must have pointer type" ∷ []) value)

abbrev pub no_place : Expr → Expr → Analysis (Unit {0})
no_place target value =
    refuse_target (expr_span target)
      (codes "assignment target must be a local name, indexed place, or dereferenced pointer" ∷ [])
      value

unfoldable pub analyze_assign : Expr → Expr → Analysis (Unit {0})
analyze_assign (name span text) value = assign_name span text value
analyze_assign (index span base i) value = elim (peel_indexed_name_chain (index span base i)) [
  | some chain ↦ assign_indexed chain (index span base i) value
  | none ↦
      refuse_target span
        (codes "indexed assignment requires a local array name with a constant index chain" ∷ [])
        value
]
analyze_assign (unary span star operand) value = assign_dereferenced operand value
analyze_assign target value = no_place target value
