-- ===== src/Semantic/Frame/Parts.antt =====
-- The routines that record assignments keep the frame.
use nexc.Prelude.{ℕ, Bool, List, [], ◌∷◌, Bytes}
use nexc.Source.{SourceSpan}
use nexc.Semantic.Types.{SemanticType}
use nexc.Semantic.State.{ExprInfo, error}
use nexc.Semantic.Scopes.{
  remember_def_assign_reason, mark_definite_assigned, set_mask, init_array_elem_tracking,
  mark_array_fully_assigned,
}
use nexc.Semantic.Elements.{
  const_indices_to_flat_offset, known_indices, mark_element, note_known_store,
  note_indexed_store_to_local,
}
use nexc.Semantic.Merge.{
  Arms, Assigned, note_losses, note_if_def_assign_losses, note_loop_def_assign_losses,
  assign_array_map, merge_two_way_maps, merge_array_elem_assign_after_if,
}
use nexc.Semantic.Reports.{Sound-error}
use nexc.Semantic.Frame.{
  Keeps, Keeps-bind, Keeps-ask, Keeps-branch, Keeps-quiet, Keeps-when, Keeps-option, Frame-tables,
  Frame-refl,
}

pub Keeps-error : (span : SourceSpan) (parts : List Bytes) → Keeps (error span parts)
Keeps-error span parts = Keeps-quiet _ (Sound-error {P = λ _. Unit {0}} span parts)

pub remember-Keeps :
    (id : ℕ) (span : SourceSpan) (message : Bytes)
    → Keeps (remember_def_assign_reason id span message)
unfolding remember_def_assign_reason
remember-Keeps id span message = Keeps-when _ _ (λ s. Frame-tables s _ _ _ _)

pub mark_definite-Keeps : (id : ℕ) → Keeps (mark_definite_assigned id)
unfolding mark_definite_assigned
mark_definite-Keeps id s = Frame-tables s _ _ _ _

pub set_mask-Keeps : (id : ℕ) (mask : List Bool) → Keeps (set_mask id mask)
unfolding set_mask
set_mask-Keeps id mask s = Frame-tables s _ _ _ _

pub init_tracking-Keeps :
    (id : ℕ) (declared : SemanticType) (span : SourceSpan)
    → Keeps (init_array_elem_tracking id declared span)
unfolding init_array_elem_tracking
init_tracking-Keeps id declared span =
    Keeps-when _ _ (Keeps-branch _ _ _ (set_mask-Keeps id _) (Keeps-error _ _))

pub mark_array-Keeps : (id : ℕ) → Keeps (mark_array_fully_assigned id)
unfolding mark_array_fully_assigned
mark_array-Keeps id = Keeps-bind _ _ (λ s. Frame-tables s _ _ _ _) λ _. mark_definite-Keeps id

mark_element-Keeps : (id n offset : ℕ) → Keeps (mark_element id n offset)
unfolding mark_element
mark_element-Keeps id n offset = Keeps-ask _ _ λ mask.
    Keeps-bind _ _ (set_mask-Keeps id _)
      λ _. Keeps-when _ _ (Keeps-bind _ _ (mark_definite-Keeps id) λ _ s. Frame-tables s _ _ _ _)

note_known_store-Keeps :
    (id : ℕ) (array_type : SemanticType) (n : ℕ) (values : List ℕ)
    → Keeps (note_known_store id array_type n values)
unfolding note_known_store
note_known_store-Keeps id array_type n values =
    Keeps-option (const_indices_to_flat_offset array_type values) _ _ Frame-refl
      (λ offset. mark_element-Keeps id n offset)

pub note_store-Keeps :
    (id : ℕ) (array_type : SemanticType) (indices : List ExprInfo) (spans : List SourceSpan)
    → Keeps (note_indexed_store_to_local id array_type indices spans)
unfolding note_indexed_store_to_local
note_store-Keeps id array_type indices spans = Keeps-when _ _ (
    Keeps-option (known_indices indices) _ _
      (Keeps-bind _ _ (set_mask-Keeps id _)
        λ _. Keeps-bind _ _ (λ s. Frame-tables s _ _ _ _) λ _. remember-Keeps id _ _)
      (λ values. note_known_store-Keeps id array_type _ values))

note_losses-Keeps :
    (span : SourceSpan) (before after_then after_else : List ℕ) (arms : Arms) (ids : List ℕ)
    → Keeps (note_losses span before after_then after_else arms ids)
unfolding note_losses
note_losses-Keeps span before after_then after_else arms [] = Frame-refl
note_losses-Keeps span before after_then after_else arms (id ∷ ids) = Keeps-ask _ _ λ kept.
    Keeps-bind _ _ (Keeps-when _ _ (remember-Keeps id _ _))
      λ _. note_losses-Keeps span before after_then after_else arms ids

pub note_if_losses-Keeps :
    (span : SourceSpan) (before after_then after_else : List ℕ) (arms : Arms)
    → Keeps (note_if_def_assign_losses span before after_then after_else arms)
unfolding note_if_def_assign_losses
note_if_losses-Keeps span before after_then after_else arms =
    note_losses-Keeps span before after_then after_else arms _

pub note_loop_losses-Keeps :
    (span : SourceSpan) (before ids : List ℕ) → Keeps (note_loop_def_assign_losses span before ids)
unfolding note_loop_def_assign_losses
note_loop_losses-Keeps span before [] = Frame-refl
note_loop_losses-Keeps span before (id ∷ ids) =
    Keeps-bind _ _ (Keeps-when _ _ (remember-Keeps id _ _))
      λ _. note_loop_losses-Keeps span before ids

assign_array_map-Keeps : (masks : List (ℕ × List Bool)) → Keeps (assign_array_map masks)
unfolding assign_array_map
assign_array_map-Keeps masks s = Frame-tables s _ _ _ _

merge_two_way-Keeps : (a b : Assigned) → Keeps (merge_two_way_maps a b)
unfolding merge_two_way_maps
merge_two_way-Keeps a b s = Frame-tables s _ _ _ _

pub merge_elements-Keeps :
    (before after_then after_else : Assigned) (arms : Arms)
    → Keeps (merge_array_elem_assign_after_if before after_then after_else arms)
unfolding merge_array_elem_assign_after_if
merge_elements-Keeps before after_then after_else arms =
    Keeps-branch _ _ _ (Keeps-branch _ _ _ (assign_array_map-Keeps _) (merge_two_way-Keeps _ _)) (
      Keeps-branch _ _ _ (assign_array_map-Keeps _) (
        Keeps-branch _ _ _ (assign_array_map-Keeps _)
          (Keeps-branch _ _ _ (assign_array_map-Keeps _) (merge_two_way-Keeps _ _))))
