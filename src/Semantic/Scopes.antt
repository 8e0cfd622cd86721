-- ===== src/Semantic/Scopes.antt =====
-- Local scopes, and what is known of a local's assignment.
use nexc.Prelude.{
  ℕ, zero, suc, ◌+◌, Bool, true, false, not, ◌&&◌, ◌||◌, Option, none, some, List, [], ◌∷◌, Bytes,
  codes, same, ◌==◌, leb,
}
use nexc.Source.{SourceSpan}
use nexc.Diagnostic.Render.{decimal}
use nexc.Semantic.Types.{SemanticType, is_fixed_array, flat_element_count_ranked}
use nexc.Semantic.Tables.{find, assign, erase, contains, insert, remove}
use nexc.Semantic.State.{
  Analyzer, Analysis, ValueSymbol, ◌>>=◌, ◌>>◌, pure, done, gets, modify, branch, when, error, note,
  same_id,
}

abbrev pub head_or_empty {ℓ} : {A : Type ℓ} → List (List A) → List A
head_or_empty [] = []
head_or_empty (x ∷ xs) = x

abbrev pub rest_of {ℓ} : {A : Type ℓ} → List A → List A
rest_of [] = []
rest_of (x ∷ xs) = xs

-- The ids of a scope leave the three tables.
unfoldable pub forget_ids : List ℕ → Analyzer → Analyzer
forget_ids [] s = s
forget_ids (id ∷ ids) s = forget_ids ids (record s {
  definite_assign = remove id s.definite_assign;
  array_elem_assign = erase same_id id s.array_elem_assign;
  def_assign_reasons = erase same_id id s.def_assign_reasons;
})

unfoldable pub pop_scope : Analyzer → Analyzer
pop_scope s =
    let t = forget_ids (head_or_empty s.scope_binding_ids) s in
    record t { scopes = rest_of t.scopes; scope_binding_ids = rest_of t.scope_binding_ids }

-- The new local stands in front of the others of its scope.
abbrev pub add_local : Bytes → ValueSymbol → Analyzer → Analyzer
add_local name symbol s = record s {
  scopes = assign same name symbol (head_or_empty s.scopes) ∷ rest_of s.scopes;
  scope_binding_ids =
      (symbol.binding_id ∷ head_or_empty s.scope_binding_ids) ∷ rest_of s.scope_binding_ids;
  next_binding_id = symbol.binding_id + 1;
}

-- The id of the new local, or 0 where the scope has the name already.
unfoldable pub declare_local : Bytes → SourceSpan → SemanticType → Bool → Analysis ℕ
declare_local name span type is_mutable s = elim (find same name (head_or_empty s.scopes)) [
  | some previous ↦
      (do
        error span (codes "duplicate local name `" ∷ name ∷ codes "`" ∷ [])
        note previous.name_span (codes "previous declaration of `" ∷ name ∷ codes "` is here" ∷ [])
        pure 0)
        s
  | none ↦ (
    s.next_binding_id,
    add_local name
        (record {
          type = type;
          is_mutable = is_mutable;
          is_const = false;
          name_span = span;
          binding_id = s.next_binding_id;
        })
        s,
  )
]

unfoldable pub remember_def_assign_reason : ℕ → SourceSpan → Bytes → Analysis (Unit {0})
remember_def_assign_reason id span message = when (not (id == 0)) (
    modify λ s. record s {
      def_assign_reasons =
          assign same_id id (record { span = span; message = message }) s.def_assign_reasons;
    })

unfoldable pub mark_definite_assigned : ℕ → Analysis (Unit {0})
mark_definite_assigned id = modify λ s. record s {
  definite_assign = insert id s.definite_assign;
  def_assign_reasons = erase same_id id s.def_assign_reasons;
}

unfoldable pub note_def_assign_reason : ValueSymbol → Analysis (Unit {0})
note_def_assign_reason symbol = do
  found ← gets λ s. find same_id symbol.binding_id s.def_assign_reasons
  elim found [
    | some reason ↦ note reason.span (reason.message ∷ [])
    | none ↦
        note symbol.name_span
          (codes "binding declared here; it must be assigned on every path before use" ∷ [])
  ]

unfoldable pub vector_all_ones : List Bool → Bool
vector_all_ones [] = true
vector_all_ones (b ∷ bs) = b && vector_all_ones bs

-- A table entry, or nothing where there is no entry.
abbrev pub mask_of : Analyzer → ℕ → Option (List Bool)
mask_of s id = find same_id id s.array_elem_assign

abbrev all_elements : Analyzer → ℕ → Bool
all_elements s id = elim (mask_of s id) [ some mask ↦ vector_all_ones mask | none ↦ false ]

unfoldable pub require_readable_local : ValueSymbol → SourceSpan → Bytes → Analysis (Unit {0})
require_readable_local symbol use_span name = do
  assigned ← gets λ s. contains symbol.binding_id s.definite_assign
  elements ← gets λ s. all_elements s symbol.binding_id
  branch (symbol.is_const || assigned || (is_fixed_array symbol.type && elements)) done (do
    error use_span (codes "local `" ∷ name ∷ codes "` may be read before assignment" ∷ [])
    note_def_assign_reason symbol)

-- `std::vector<std::uint8_t>(n, b)`
unfoldable pub repeat : ℕ → Bool → List Bool
repeat zero b = []
repeat (suc n) b = b ∷ repeat n b

abbrev pub max_array_elems_for_da : ℕ
max_array_elems_for_da = 65536

-- Whether a table of this many elements is kept.
abbrev pub is_tracked : ℕ → Bool
is_tracked n = not (n == 0) && leb n max_array_elems_for_da

unfoldable pub set_mask : ℕ → List Bool → Analysis (Unit {0})
set_mask id mask =
    modify λ s. record s { array_elem_assign = assign same_id id mask s.array_elem_assign }

unfoldable pub init_array_elem_tracking : ℕ → SemanticType → SourceSpan → Analysis (Unit {0})
init_array_elem_tracking id declared span =
    let n = flat_element_count_ranked declared in
    when (is_fixed_array declared) (
      branch (is_tracked n) (set_mask id (repeat n false)) (
        error span (
          codes
            "fixed array is too large for per-element definite assignment tracking in this compiler version ("
          ∷ decimal n
          ∷ codes " elements; limit is "
          ∷ decimal max_array_elems_for_da
          ∷ codes ")"
          ∷ [])))

unfoldable pub mark_array_fully_assigned : ℕ → Analysis (Unit {0})
mark_array_fully_assigned id = do
  modify λ s. record s { array_elem_assign = erase same_id id s.array_elem_assign }
  mark_definite_assigned id
