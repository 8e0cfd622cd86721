-- ===== src/Semantic/Reads.antt =====
-- The checks of a read, of indices and of arguments do no more than report.
use nexc.Prelude.{ℕ, ◌≡◌, Bool, true, List, take, Bytes}
use nexc.Source.{SourceSpan}
use nexc.StringLiteral.Format.{FormatHole}
use nexc.Semantic.Types.{SemanticType, same_type}
use nexc.Semantic.State.{◌>>◌, ExprInfo, ValueSymbol, done, branch, error}
use nexc.Semantic.Scopes.{note_def_assign_reason, require_readable_local}
use nexc.Semantic.Elements.{
  known_indices, const_indices_to_flat_offset, flat_offset_for_prefix_indices, require_element,
  require_indexed_scalar_readable, require_slice, require_sub_array_slice_readable,
}
use nexc.Semantic.Calls.{
  IndexedNameChain, check_index, require_chain_readable, check_format_argument,
  check_placeholder_count, check_argument_count, check_argument,
}
use nexc.Semantic.Reports.{
  Sound, Always, Sound-then, Sound-gets, Sound-branch, Sound-done, Sound-error, Sound-note,
  Sound-when, Sound-require, Sound-option,
}

-- A test that is reported: nothing is kept of it.
pub Sound-check :
    (b : Bool) (span : SourceSpan) (parts : List Bytes)
    → Sound Always (branch b done (error span parts))
Sound-check b span parts = Sound-branch b _ _ (λ _. Sound-done) (λ _. Sound-error span parts)

note_def_assign_reason-Sound : (symbol : ValueSymbol) → Sound Always (note_def_assign_reason symbol)
unfolding note_def_assign_reason
note_def_assign_reason-Sound symbol =
    Sound-then _ _ (Sound-gets _)
      λ found. Sound-option found _ _ (λ _. Sound-note _ _) (λ reason _. Sound-note _ _)

pub require_readable_local-Sound :
    (symbol : ValueSymbol) (span : SourceSpan) (text : Bytes)
    → Sound Always (require_readable_local symbol span text)
unfolding require_readable_local
require_readable_local-Sound symbol span text = Sound-then _ _ (Sound-gets _) λ assigned.
    Sound-then _ _ (Sound-gets _) λ elements.
      Sound-branch _ _ _ (λ _. Sound-done)
        λ _. Sound-then _ _ (Sound-error _ _) λ _. note_def_assign_reason-Sound symbol

uninitialized-Sound :
    (symbol : ValueSymbol) (span : SourceSpan) (parts : List Bytes)
    → Sound Always (error span parts >> note_def_assign_reason symbol)
uninitialized-Sound symbol span parts =
    Sound-then _ _ (Sound-error _ _) λ _. note_def_assign_reason-Sound symbol

require_element-Sound :
    (symbol : ValueSymbol) (root_type : SemanticType) (values : List ℕ) (span : SourceSpan)
    (text : Bytes)
    → Sound Always (require_element symbol root_type values span text)
unfolding require_element
require_element-Sound symbol root_type values span text =
    Sound-option (const_indices_to_flat_offset root_type values) _ _ (λ _. Sound-done)
      λ offset _.
        Sound-then _ _ (Sound-gets _) λ marked. Sound-when _ _ (uninitialized-Sound symbol _ _)

require_indexed_scalar_readable-Sound :
    (symbol : ValueSymbol) (root_type : SemanticType) (indices : List ExprInfo) (span : SourceSpan)
    (text : Bytes)
    → Sound Always (require_indexed_scalar_readable symbol root_type indices span text)
unfolding require_indexed_scalar_readable
require_indexed_scalar_readable-Sound symbol root_type indices span text =
    Sound-then _ _ (Sound-gets _) λ assigned. Sound-when _ _ (
      Sound-option (known_indices indices) _ _ (λ _. require_readable_local-Sound symbol span text)
        λ values _.
          Sound-branch _ _ _ (λ _. require_element-Sound symbol root_type values span text)
            (λ _. require_readable_local-Sound symbol span text))

require_slice-Sound :
    (symbol : ValueSymbol) (values : List ℕ) (span : SourceSpan) (text : Bytes)
    → Sound Always (require_slice symbol values span text)
unfolding require_slice
require_slice-Sound symbol values span text = Sound-when _ _ (
    Sound-branch _ _ _
      (λ _.
        Sound-option (flat_offset_for_prefix_indices symbol.type values) _ _ (λ _. Sound-done)
          λ start _.
            Sound-then _ _ (Sound-gets _) λ marked. Sound-when _ _ (uninitialized-Sound symbol _ _))
      (λ _. require_readable_local-Sound symbol span text))

require_sub_array_slice_readable-Sound :
    (symbol : ValueSymbol) (prefix : ℕ) (indices : List ExprInfo) (span : SourceSpan) (text : Bytes)
    → Sound Always (require_sub_array_slice_readable symbol prefix indices span text)
unfolding require_sub_array_slice_readable
require_sub_array_slice_readable-Sound symbol prefix indices span text =
    Sound-then _ _ (Sound-gets _) λ assigned. Sound-when _ _ (
      Sound-option (known_indices (take prefix indices)) _ _
        (λ _. require_readable_local-Sound symbol span text)
        (λ values _. require_slice-Sound symbol values span text))

pub require_chain_readable-Sound :
    (symbol : ValueSymbol) (chain : IndexedNameChain) (walk : SemanticType)
    (indices : List ExprInfo) (span : SourceSpan)
    → Sound Always (require_chain_readable symbol chain walk indices span)
unfolding require_chain_readable
require_chain_readable-Sound symbol chain walk indices span = Sound-when _ _ (
    Sound-branch _ _ _ (λ _. require_sub_array_slice_readable-Sound symbol _ indices span _)
      (λ _. require_indexed_scalar_readable-Sound symbol _ indices span _))

pub check_index-Sound :
    (root walk : SemanticType) (span : SourceSpan) (i : ExprInfo)
    → Sound Always (check_index root walk span i)
unfolding check_index
check_index-Sound root walk span i =
    Sound-then _ _ (Sound-check _ _ _) λ _. Sound-when _ _ (Sound-error _ _)

pub check_format_argument-Sound :
    (hole : FormatHole) (span : SourceSpan) (i : ExprInfo)
    → Sound Always (check_format_argument hole span i)
unfolding check_format_argument
check_format_argument-Sound hole span i =
    Sound-then _ _ (Sound-when _ _ (Sound-error _ _))
      λ _. Sound-then _ _ (Sound-when _ _ (Sound-error _ _)) λ _. Sound-when _ _ (Sound-error _ _)

pub check_placeholder_count-Sound :
    (builtin : Bytes) (span : SourceSpan) (holes arguments : ℕ)
    → Sound Always (check_placeholder_count builtin span holes arguments)
unfolding check_placeholder_count
check_placeholder_count-Sound builtin span holes arguments = Sound-check _ _ _

pub check_argument_count-Sound :
    (callee : Bytes) (span : SourceSpan) (expected got : ℕ)
    → Sound Always (check_argument_count callee span expected got)
unfolding check_argument_count
check_argument_count-Sound callee span expected got = Sound-check _ _ _

-- An argument that is taken without an error has the type of its parameter.
pub check_argument-Sound :
    (callee : Bytes) (number : ℕ) (span : SourceSpan) (expected : SemanticType) (i : ExprInfo)
    → Sound (λ _. same_type expected i.type ≡ true) (check_argument callee number span expected i)
unfolding check_argument
check_argument-Sound callee number span expected i = Sound-require _ _ _
