-- ===== src/Semantic/Locals.antt =====
-- Declarations of locals, returns and conditions: the statements that hold no other.
use nexc.Prelude.{
  ℕ, ◌==◌, Bool, true, false, not, ◌&&◌, ◌||◌, Option, none, some, List, [], ◌∷◌, Bytes, codes,
  if◌then◌else◌,
}
use nexc.Source.{SourceSpan}
use nexc.Syntax.{Expr, expr_span, TypeSyntax, BuiltinTypeKind, str, void, invalid}
use nexc.Semantic.Types.{
  SemanticType, no_type, is_void, is_invalid, is_fixed_array, is_pointer, is_empty, same_type,
  type_name, type_from_syntax, has_explicit_type_syntax, can_be_condition,
}
use nexc.Semantic.State.{Analysis, normal, ◌>>=◌, ◌>>◌, done, gets, modify, branch, when, error}
use nexc.Semantic.Scopes.{
  declare_local, remember_def_assign_reason, mark_definite_assigned, init_array_elem_tracking,
  mark_array_fully_assigned,
}
use nexc.Semantic.Operators.{require}
use nexc.Semantic.Expressions.{analyze_expr}

abbrev has_zero : List ℕ → Bool
has_zero [] = false
has_zero (d ∷ ds) = d == 0 || has_zero ds

-- `void`, `str` and the invalid type.
abbrev is_no_element : BuiltinTypeKind → Bool
is_no_element void = true
is_no_element str = true
is_no_element invalid = true
is_no_element _ = false

unfoldable pub validate_fixed_array_decl : SemanticType → SourceSpan → Analysis (Unit {0})
validate_fixed_array_decl type span = when (is_fixed_array type) (
    branch (has_zero type.array_dimensions)
      (error span (codes "fixed array length must be greater than zero" ∷ []))
      (require (not (is_no_element type.kind)) span
        (codes "fixed array element cannot be `void`, `str`, or invalid" ∷ [])))

unfoldable pub validate_pointer_decl : SemanticType → SourceSpan → Analysis (Unit {0})
validate_pointer_decl type span =
    when
      (is_pointer type
        && (not (type.pointer_depth == 1)
            || not (is_empty type.array_dimensions)
            || is_no_element type.kind))
      (error span (
        codes
          "this pointer slice only supports `*T` where `T` is a scalar integer, float, or bool type"
        ∷ []))

unfoldable pub analyze_condition : Expr → Bytes → Analysis (Unit {0})
analyze_condition condition label = do
  i ← analyze_expr condition none normal
  require (can_be_condition i.type) (expr_span condition) (
      label ∷ codes " must be `bool` or an integer type, not `" ∷ type_name i.type ∷ codes "`" ∷ [])

unfoldable pub analyze_return : SourceSpan → Option Expr → Analysis (Unit {0})
analyze_return span none = do
  type ← gets λ s. s.current_return_type
  require (is_void type) span
      (codes "non-void function must return a value of type `" ∷ type_name type ∷ codes "`" ∷ [])
analyze_return span (some value) = do
  type ← gets λ s. s.current_return_type
  branch (is_void type)
      (do
        error (expr_span value) (codes "`void` function cannot return a value" ∷ [])
        analyze_expr value none normal
        done)
      (do
        modify λ s. record s { saw_return_value = true }
        i ← analyze_expr value (some type) normal
        require (same_type type i.type) (expr_span value) (
            codes "cannot return value of type `"
            ∷ type_name i.type
            ∷ codes "` from function returning `"
            ∷ type_name type
            ∷ codes "`"
            ∷ []))

-- A `let` with no initializer; only `let mut` with a type may have none.
unfoldable pub analyze_uninitialized_let :
    SourceSpan → Bool → Bytes → SourceSpan → TypeSyntax → SemanticType → Analysis (Unit {0})
analyze_uninitialized_let span is_mutable text name_span type declared =
    branch (not is_mutable)
      (error span (codes "`let` requires an initializer; only `let mut` may omit `=`" ∷ []))
      (branch (not (has_explicit_type_syntax type))
        (error span (codes "uninitialized `let mut` requires an explicit type annotation" ∷ []))
        (do
          id ← declare_local text name_span declared true
          when (is_fixed_array declared && not (id == 0))
              (init_array_elem_tracking id declared type.span)
          remember_def_assign_reason id name_span
              (codes "binding declared here without an initializer")))

-- The type of a local that is written without one.
unfoldable pub check_inferred :
    Bool → Bytes → SourceSpan → Expr → SemanticType → Analysis (Unit {0})
check_inferred is_mutable text name_span init declared = do
  when (is_void declared || is_invalid declared) (
      error (expr_span init) (
        codes "cannot infer type for local `"
        ∷ text
        ∷ codes "`; add an explicit type annotation"
        ∷ []))
  validate_fixed_array_decl declared (expr_span init)
  validate_pointer_decl declared (expr_span init)
  when (is_pointer declared && is_mutable)
      (error name_span (codes "mutable pointer variables are not implemented yet" ∷ []))

unfoldable pub declare_initialized : Bool → Bytes → SourceSpan → SemanticType → Analysis (Unit {0})
declare_initialized is_mutable text name_span declared = do
  id ← declare_local text name_span declared is_mutable
  when (not (id == 0))
      (do mark_definite_assigned id; when (is_fixed_array declared) (mark_array_fully_assigned id))

unfoldable pub analyze_initialized_let :
    Bool → Bytes → SourceSpan → TypeSyntax → SemanticType → Expr → Analysis (Unit {0})
analyze_initialized_let is_mutable text name_span type declared init =
    branch (has_explicit_type_syntax type)
      (do
        i ← analyze_expr init (some declared) normal
        require (same_type declared i.type) (expr_span init) (
            codes "cannot initialize local `"
            ∷ text
            ∷ codes "` of type `"
            ∷ type_name declared
            ∷ codes "` with value of type `"
            ∷ type_name i.type
            ∷ codes "`"
            ∷ [])
        declare_initialized is_mutable text name_span declared)
      (do
        i ← analyze_expr init none normal
        check_inferred is_mutable text name_span init i.type
        declare_initialized is_mutable text name_span i.type)

unfoldable pub analyze_let :
    SourceSpan → Bool → Bytes → SourceSpan → TypeSyntax → Option Expr → Analysis (Unit {0})
analyze_let span is_mutable text name_span type init = do
  let has_explicit_type = has_explicit_type_syntax type
  let declared = if has_explicit_type then type_from_syntax type else no_type
  when has_explicit_type (do
    validate_fixed_array_decl declared type.span
    validate_pointer_decl declared type.span
    when (is_pointer declared && is_mutable)
        (error type.span (codes "mutable pointer variables are not implemented yet" ∷ [])))
  elim init [
    | none ↦ analyze_uninitialized_let span is_mutable text name_span type declared
    | some e ↦ analyze_initialized_let is_mutable text name_span type declared e
  ]
