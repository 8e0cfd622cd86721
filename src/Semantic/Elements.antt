-- ===== src/Semantic/Elements.antt =====
-- Definite assignment of the elements of fixed arrays.
use nexc.Prelude.{
  ℕ, zero, suc, ◌+◌, ◌*◌, ◌^◌, ◌%◌, Bool, true, false, not, ◌&&◌, ◌||◌, Option, none, some, List,
  [], ◌∷◌, Bytes, codes, if◌then◌else◌, ◌==◌, ltb, leb, length, get_or, take, drop,
}
use nexc.Source.{SourceSpan}
use nexc.Semantic.Types.{
  SemanticType, is_fixed_array, is_integer, flat_element_count_ranked, product_from, is_empty,
}
use nexc.Semantic.Tables.{erase, contains, remove}
use nexc.Semantic.State.{
  Analyzer, Analysis, ValueSymbol, ExprInfo, ◌>>=◌, ◌>>◌, done, gets, modify, branch, when, error,
  same_id,
}
use nexc.Semantic.Scopes.{
  remember_def_assign_reason, mark_definite_assigned, note_def_assign_reason, vector_all_ones,
  mask_of, require_readable_local, repeat, is_tracked, set_mask,
}

-- Whether each index lies inside its dimension; the shorter list ends the comparison.
unfoldable pub indices_inside : List ℕ → List ℕ → Bool
indices_inside (d ∷ dims) (i ∷ indices) = ltb i d && indices_inside dims indices
indices_inside _ _ = true

-- The sum of the indices, each times the product of the dimensions behind its own.
unfoldable pub offset_from : ℕ → List ℕ → List ℕ → ℕ
offset_from offset (d ∷ dims) (i ∷ indices) =
    offset_from ((offset + i * product_from 1 dims % 2 ^ 64) % 2 ^ 64) dims indices
offset_from offset _ _ = offset

unfoldable pub const_indices_to_flat_offset : SemanticType → List ℕ → Option ℕ
const_indices_to_flat_offset t indices =
    if is_fixed_array t
      && length indices == length t.array_dimensions
      && indices_inside t.array_dimensions indices
    then some (offset_from 0 t.array_dimensions indices)
    else none

unfoldable pub flat_offset_for_prefix_indices : SemanticType → List ℕ → Option ℕ
flat_offset_for_prefix_indices t indices =
    if is_fixed_array t
      && not (is_empty indices)
      && leb (length indices) (length t.array_dimensions)
      && indices_inside t.array_dimensions indices
    then some (offset_from 0 t.array_dimensions indices)
    else none

-- The value of an index that is known, `ii.type.isInteger() && ii.isConstant && ii.integerValue`.
unfoldable pub known_index : ExprInfo → Option ℕ
known_index i = if is_integer i.type && i.is_constant then i.integer_value else none

-- All values, or none; the search stops at the first that is not known.
unfoldable pub known_indices : List ExprInfo → Option (List ℕ)
known_indices [] = some []
known_indices (i ∷ is) = elim (known_index i) [
  | none ↦ none
  | some v ↦ elim (known_indices is) [ none ↦ none | some vs ↦ some (v ∷ vs) ]
]

-- The span of the first index that is not known.
unfoldable pub unknown_span : List ExprInfo → List SourceSpan → SourceSpan
unknown_span (i ∷ is) (span ∷ spans) = elim (known_index i) [
  | none ↦ span
  | some _ ↦ unknown_span is spans
]
unknown_span _ _ = record { start = 0; end = 0 }

unfoldable pub set_true : ℕ → List Bool → List Bool
set_true i [] = []
set_true zero (b ∷ bs) = true ∷ bs
set_true (suc i) (b ∷ bs) = b ∷ set_true i bs

abbrev mask_or_empty : Analyzer → ℕ → ℕ → List Bool
mask_or_empty s id n = elim (mask_of s id) [ some mask ↦ mask | none ↦ repeat n false ]

-- An element is marked; a mask that is full becomes an assignment of the whole array.
unfoldable pub mark_element : ℕ → ℕ → ℕ → Analysis (Unit {0})
mark_element id n offset = do
  mask ← gets λ s. mask_or_empty s id n
  let marked = set_true offset mask
  set_mask id marked
  when (ltb offset (length mask) && vector_all_ones marked) (do
    mark_definite_assigned id
    modify λ s. record s { array_elem_assign = erase same_id id s.array_elem_assign })

-- `note_indexed_store_to_local` where every index is known.
unfoldable pub note_known_store : ℕ → SemanticType → ℕ → List ℕ → Analysis (Unit {0})
note_known_store id array_type n values = elim (const_indices_to_flat_offset array_type values) [
  | none ↦ done
  | some offset ↦ mark_element id n offset
]

unfoldable pub note_indexed_store_to_local :
    ℕ → SemanticType → List ExprInfo → List SourceSpan → Analysis (Unit {0})
note_indexed_store_to_local id array_type indices spans =
    let n = flat_element_count_ranked array_type in
    when (is_fixed_array array_type && is_tracked n) (elim (known_indices indices) [
      | some values ↦ note_known_store id array_type n values
      | none ↦ (do
        set_mask id (repeat n false)
        modify λ s. record s { definite_assign = remove id s.definite_assign }
        remember_def_assign_reason id (unknown_span indices spans)
            (codes "non-constant index here prevents proving which array element was assigned"))
    ])

-- Whether the mask of the binding has a mark at each of the `count` places from `start` on.
unfoldable pub marked_from : List Bool → ℕ → ℕ → Bool
marked_from mask start zero = true
marked_from mask start (suc count) = get_or mask start false && marked_from mask (start + 1) count

abbrev has_marks : Analyzer → ℕ → ℕ → ℕ → Bool
has_marks s id start count = elim (mask_of s id) [
  | some mask ↦ marked_from mask start count
  | none ↦ false
]

abbrev uninitialized : ValueSymbol → SourceSpan → List Bytes → Analysis (Unit {0})
uninitialized symbol use_span message = do error use_span message; note_def_assign_reason symbol

abbrev is_assigned : Analyzer → ValueSymbol → Bool
is_assigned s symbol = symbol.is_const || contains symbol.binding_id s.definite_assign

-- An element that is read through known indices.
unfoldable pub require_element :
    ValueSymbol → SemanticType → List ℕ → SourceSpan → Bytes → Analysis (Unit {0})
require_element symbol root_type values use_span name =
    elim (const_indices_to_flat_offset root_type values) [
      | none ↦ done
      | some offset ↦ (do
        marked ← gets λ s. has_marks s symbol.binding_id offset 1
        when (not marked) (
            uninitialized symbol use_span (
              codes "indexed read may access an uninitialized element of `"
              ∷ name
              ∷ codes "`"
              ∷ [])))
    ]

unfoldable pub require_indexed_scalar_readable :
    ValueSymbol → SemanticType → List ExprInfo → SourceSpan → Bytes → Analysis (Unit {0})
require_indexed_scalar_readable symbol root_type indices use_span name = do
  assigned ← gets λ s. is_assigned s symbol
  when (not assigned) (elim (known_indices indices) [
    | none ↦ require_readable_local symbol use_span name
    | some values ↦
        branch (length values == length root_type.array_dimensions)
          (require_element symbol root_type values use_span name)
          (require_readable_local symbol use_span name)
  ])

-- A slice that is read through known indices of the outer dimensions.
unfoldable pub require_slice : ValueSymbol → List ℕ → SourceSpan → Bytes → Analysis (Unit {0})
require_slice symbol values use_span name =
    let slice_type = record symbol.type {
      array_dimensions = drop (length values) symbol.type.array_dimensions;
    } in
    let span_elems = flat_element_count_ranked slice_type in
    when (indices_inside symbol.type.array_dimensions values) (
      branch (is_tracked span_elems)
        (elim (flat_offset_for_prefix_indices symbol.type values) [
          | none ↦ done
          | some start ↦ (do
            marked ← gets λ s. has_marks s symbol.binding_id start span_elems
            when (not marked) (
                uninitialized symbol use_span (
                  codes "indexed access may read uninitialized elements of `"
                  ∷ name
                  ∷ codes "`"
                  ∷ [])))
        ])
        (require_readable_local symbol use_span name))

unfoldable pub require_sub_array_slice_readable :
    ValueSymbol → ℕ → List ExprInfo → SourceSpan → Bytes → Analysis (Unit {0})
require_sub_array_slice_readable symbol prefix_len indices use_span name = do
  assigned ← gets λ s. is_assigned s symbol
  when (not assigned && not (prefix_len == 0)) (elim (known_indices (take prefix_len indices)) [
    | none ↦ require_readable_local symbol use_span name
    | some values ↦ require_slice symbol values use_span name
  ])
