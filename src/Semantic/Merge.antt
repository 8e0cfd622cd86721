-- ===== src/Semantic/Merge.antt =====
-- Where two paths meet: what is assigned on both of them.
use nexc.Prelude.{
  ℕ, Bool, true, false, not, ◌&&◌, ◌||◌, Option, none, some, List, [], ◌∷◌, Bytes, codes,
  if◌then◌else◌, ◌==◌,
}
use nexc.Source.{SourceSpan}
use nexc.Semantic.Types.{SemanticType, is_fixed_array, flat_element_count_ranked}
use nexc.Semantic.Tables.{find, contains, insert, intersect_def_assign}
use nexc.Semantic.State.{
  Analyzer, Analysis, ValueSymbol, ◌>>=◌, ◌>>◌, done, gets, modify, branch, when, same_id,
}
use nexc.Semantic.Scopes.{remember_def_assign_reason, vector_all_ones, repeat, is_tracked}

unfoldable pub band_masks : List Bool → List Bool → List Bool
band_masks (a ∷ as') (b ∷ bs) = (a && b) ∷ band_masks as' bs
band_masks _ _ = []

unfoldable pub mask_or_full : List ℕ → List (ℕ × List Bool) → ℕ → ℕ → List Bool
mask_or_full assigned masks id n =
    if contains id assigned
    then repeat n true
    else elim (find same_id id masks) [ some mask ↦ mask | none ↦ repeat n false ]

-- How the two arms of an `if` end.
pub record Arms : Type 0 where
  pub has_else : Bool
  pub then_returns : Bool
  pub else_returns : Bool

-- What is assigned at one point.
pub record Assigned : Type 0 where
  pub definite : List ℕ
  pub elements : List (ℕ × List Bool)

unfoldable pub merge_definite_assign_after_if : List ℕ → List ℕ → List ℕ → Arms → List ℕ
merge_definite_assign_after_if before after_then after_else arms =
    if not arms.has_else
    then (if arms.then_returns then before else intersect_def_assign before after_then)
    else if arms.then_returns && not arms.else_returns
    then after_else
    else if not arms.then_returns && arms.else_returns
    then after_then
    else if arms.then_returns && arms.else_returns
    then before
    else intersect_def_assign after_then after_else

abbrev is_loss : List ℕ → List ℕ → Arms → ℕ → Bool
is_loss after_then after_else arms id =
    if not arms.has_else
    then contains id after_then
    else not arms.then_returns && not (contains id after_then)
      || not arms.else_returns && not (contains id after_else)

abbrev loss_message : Arms → Bytes
loss_message arms =
    if arms.has_else
    then codes "assignment is not guaranteed on every branch of this `if`"
    else codes "assignment may be skipped because this `if` has no `else`"

-- The reasons for the given candidates.
unfoldable pub note_losses :
    SourceSpan → List ℕ → List ℕ → List ℕ → Arms → List ℕ → Analysis (Unit {0})
note_losses span before after_then after_else arms [] = done
note_losses span before after_then after_else arms (id ∷ ids) = do
  kept ← gets λ s. contains id s.definite_assign || contains id before
  when (not kept && is_loss after_then after_else arms id)
      (remember_def_assign_reason id span (loss_message arms))
  note_losses span before after_then after_else arms ids

unfoldable pub union_ids : List ℕ → List ℕ → List ℕ
union_ids [] ys = ys
union_ids (x ∷ xs) ys = insert x (union_ids xs ys)

unfoldable pub note_if_def_assign_losses :
    SourceSpan → List ℕ → List ℕ → List ℕ → Arms → Analysis (Unit {0})
note_if_def_assign_losses span before after_then after_else arms =
    note_losses span before after_then after_else arms (union_ids after_else after_then)

unfoldable pub note_loop_def_assign_losses : SourceSpan → List ℕ → List ℕ → Analysis (Unit {0})
note_loop_def_assign_losses span before [] = done
note_loop_def_assign_losses span before (id ∷ ids) = do
  when (not (contains id before)) (
      remember_def_assign_reason id span
        (codes "assignment inside a loop is not guaranteed because the loop may run zero times"))
  note_loop_def_assign_losses span before ids

unfoldable pub type_in_scope : ℕ → List (Bytes × ValueSymbol) → Option SemanticType
type_in_scope id [] = none
type_in_scope id ((name, symbol) ∷ rest) =
    if not symbol.is_const && symbol.binding_id == id
    then some symbol.type
    else type_in_scope id rest

unfoldable pub lookup_local_type_by_binding_id :
    ℕ → List (List (Bytes × ValueSymbol)) → Option SemanticType
lookup_local_type_by_binding_id id [] = none
lookup_local_type_by_binding_id id (scope ∷ scopes) =
    let outer = lookup_local_type_by_binding_id id scopes in
    elim (type_in_scope id scope) [ some type ↦ some type | none ↦ outer ]

-- The type of a binding, if it is that of a fixed array.
unfoldable pub array_type_of : Analyzer → ℕ → Option SemanticType
array_type_of s id = elim (lookup_local_type_by_binding_id id s.scopes) [
  | some type ↦ if is_fixed_array type then some type else none
  | none ↦ none
]

-- The masks that are full become assignments.
unfoldable pub promote_full_masks : List (ℕ × List Bool) → List ℕ → Assigned
promote_full_masks [] definite = record { definite = definite; elements = [] }
promote_full_masks ((id, mask) ∷ rest) definite =
    let all = promote_full_masks rest definite in
    if vector_all_ones mask
    then record all { definite = insert id all.definite }
    else record all { elements = (id, mask) ∷ all.elements }

unfoldable pub not_definite : List ℕ → List (ℕ × List Bool) → List (ℕ × List Bool)
not_definite definite [] = []
not_definite definite ((id, mask) ∷ rest) =
    let others = not_definite definite rest in
    if contains id definite then others else (id, mask) ∷ others

abbrev set_assigned : Assigned → Analysis (Unit {0})
set_assigned a =
    modify λ s. record s { definite_assign = a.definite; array_elem_assign = a.elements }

unfoldable pub assign_array_map : List (ℕ × List Bool) → Analysis (Unit {0})
assign_array_map masks s =
    set_assigned (promote_full_masks (not_definite s.definite_assign masks) s.definite_assign) s

unfoldable pub keys : List (ℕ × List Bool) → List ℕ
keys [] = []
keys ((id, mask) ∷ rest) = insert id (keys rest)

-- The ids of fixed arrays among the given ones.
unfoldable pub array_ids : Analyzer → List ℕ → List ℕ
array_ids s [] = []
array_ids s (id ∷ ids) =
    let others = array_ids s ids in
    elim (array_type_of s id) [ some type ↦ insert id others | none ↦ others ]

unfoldable pub collect_array_candidates : Analyzer → Assigned → Assigned → List ℕ
collect_array_candidates s a b =
    union_ids (keys a.elements)
      (union_ids (keys b.elements) (union_ids (array_ids s a.definite) (array_ids s b.definite)))

unfoldable pub any_one : List Bool → Bool
any_one [] = false
any_one (b ∷ bs) = b || any_one bs

-- One candidate: its masks on the two paths, where they agree.
abbrev merge_mask : Assigned → Assigned → ℕ → ℕ → Assigned → Assigned
merge_mask a b id n out =
    let merged =
      band_masks (mask_or_full a.definite a.elements id n)
        (mask_or_full b.definite b.elements id n) in
    if vector_all_ones merged
    then record out { definite = insert id out.definite }
    else if any_one merged
    then record out { elements = (id, merged) ∷ out.elements }
    else out

unfoldable pub merge_candidate : Analyzer → Assigned → Assigned → ℕ → Assigned → Assigned
merge_candidate s a b id out = if contains id out.definite then out else elim (array_type_of s id) [
  | none ↦ out
  | some type ↦
      (let n = flat_element_count_ranked type in
        if is_tracked n then merge_mask a b id n out else out)
]

unfoldable pub merge_candidates : Analyzer → Assigned → Assigned → List ℕ → Assigned → Assigned
merge_candidates s a b [] out = out
merge_candidates s a b (id ∷ ids) out = merge_candidates s a b ids (merge_candidate s a b id out)

unfoldable pub merge_two_way_maps : Assigned → Assigned → Analysis (Unit {0})
merge_two_way_maps a b s =
    let merged =
      merge_candidates s a b (collect_array_candidates s a b)
        (record { definite = s.definite_assign; elements = [] }) in
    set_assigned (promote_full_masks merged.elements merged.definite) s

unfoldable pub merge_array_elem_assign_after_if :
    Assigned → Assigned → Assigned → Arms → Analysis (Unit {0})
merge_array_elem_assign_after_if before after_then after_else arms =
    branch (not arms.has_else)
      (branch arms.then_returns (assign_array_map before.elements)
        (merge_two_way_maps before after_then))
      (branch (arms.then_returns && not arms.else_returns) (assign_array_map after_else.elements) (
        branch (not arms.then_returns && arms.else_returns) (assign_array_map after_then.elements) (
          branch (arms.then_returns && arms.else_returns) (assign_array_map before.elements)
            (merge_two_way_maps after_then after_else))))
