-- ===== src/Semantic/Frame/Lets.antt =====
-- The statements that hold no other keep the frame.
use nexc.Prelude.{
  ◌+◌, ◌≤◌, refl, Bool, true, Option, none, some, List, Bytes, Option-cases, inl, inr, same, arith,
}
use nexc.Source.{SourceSpan}
use nexc.Token.{TokenKind, star}
use nexc.Syntax.{Expr, name, index, unary, TypeSyntax}
use nexc.Semantic.Types.{SemanticType}
use nexc.Semantic.State.{Analyzer, ExprContext, normal, ValueSymbol, done, branch, error}
use nexc.Semantic.Tables.{find}
use nexc.Semantic.Scopes.{add_local, head_or_empty, declare_local}
use nexc.Semantic.Calls.{IndexedNameChain, peel_indexed_name_chain}
use nexc.Semantic.Expressions.{analyze_expr}
use nexc.Semantic.Locals.{
  validate_fixed_array_decl, validate_pointer_decl, analyze_condition, analyze_return,
  analyze_uninitialized_let, check_inferred, declare_initialized, analyze_initialized_let,
  analyze_let,
}
use nexc.Semantic.Stores.{
  refuse_target, assign_name, assign_element, assign_indexed, assign_dereferenced, analyze_assign,
}
use nexc.Semantic.Reports.{
  Sound, Always, Sound-then, Sound-error, Sound-note, Sound-when, Sound-branch, Grows-refl,
}
use nexc.Semantic.Reads.{Sound-check}
use nexc.Semantic.Fitting.Expressions.{expr-Sound, indices-Sound}
use nexc.Semantic.Frame.{
  Frame, Frame-refl, Frame-tables, Keeps, Keeps-bind, Keeps-ask, Keeps-branch, Keeps-when,
  Keeps-option, Keeps-quiet,
}
use nexc.Semantic.Frame.Parts.{
  Keeps-error, remember-Keeps, mark_definite-Keeps, init_tracking-Keeps, mark_array-Keeps,
  note_store-Keeps,
}

pub expr-Keeps :
    (e : Expr) (expected : Option SemanticType) (ctx : ExprContext)
    → Keeps (analyze_expr e expected ctx)
expr-Keeps e expected ctx = Keeps-quiet _ (expr-Sound e expected ctx)

pub Keeps-check :
    (b : Bool) (span : SourceSpan) (parts : List Bytes) → Keeps (branch b done (error span parts))
Keeps-check b span parts = Keeps-quiet _ (Sound-check b span parts)

add_local-Frame :
    (text : Bytes) (symbol : ValueSymbol) (s : Analyzer)
    → s.next_binding_id ≤ symbol.binding_id + 1
    → Frame s (add_local text symbol s)
add_local-Frame text symbol s h = record {
  grows = Grows-refl s.diagnostics;
  depth = refl;
  return_type = refl;
  functions = refl;
  globals = refl;
  outer_scopes = refl;
  outer_ids = refl;
  newer = h;
}

pub declare_local-Keeps :
    (text : Bytes) (span : SourceSpan) (type : SemanticType) (is_mutable : Bool)
    → Keeps (declare_local text span type is_mutable)
unfolding declare_local
declare_local-Keeps text span type is_mutable s =
    elim (Option-cases (find same text (head_or_empty s.scopes))) [
      | inl fresh ↦ rw (fresh, declare_local) (add_local-Frame text _ s (omega arith))
      | inr (previous, taken) ↦
          rw (taken, declare_local)
            (Keeps-bind _ _ (Keeps-error _ _)
              (λ _. Keeps-bind _ _ (Keeps-quiet _ (Sound-note _ _)) λ _. Frame-refl) s)
    ]

pub validate_array-Sound :
    (type : SemanticType) (span : SourceSpan) → Sound Always (validate_fixed_array_decl type span)
unfolding validate_fixed_array_decl
validate_array-Sound type span =
    Sound-when _ _ (Sound-branch _ _ _ (λ _. Sound-error _ _) (λ _. Sound-check _ _ _))

pub validate_pointer-Sound :
    (type : SemanticType) (span : SourceSpan) → Sound Always (validate_pointer_decl type span)
unfolding validate_pointer_decl
validate_pointer-Sound type span = Sound-when _ _ (Sound-error _ _)

pub condition-Keeps : (condition : Expr) (label : Bytes) → Keeps (analyze_condition condition label)
unfolding analyze_condition
condition-Keeps condition label =
    Keeps-bind _ _ (expr-Keeps condition none normal) λ i. Keeps-check _ _ _

pub return-Keeps : (span : SourceSpan) (value : Option Expr) → Keeps (analyze_return span value)
unfolding analyze_return
return-Keeps span none = Keeps-ask _ _ λ type. Keeps-check _ _ _
return-Keeps span (some e) = Keeps-ask _ _ λ type.
    Keeps-branch _ _ _
      (Keeps-bind _ _ (Keeps-error _ _)
        λ _. Keeps-bind _ _ (expr-Keeps e none normal) λ _. Frame-refl)
      (Keeps-bind _ _ (λ s. Frame-tables s _ _ _ _)
        λ _. Keeps-bind _ _ (expr-Keeps e (some type) normal) λ i. Keeps-check _ _ _)

uninitialized_let-Keeps :
    (span : SourceSpan) (is_mutable : Bool) (text : Bytes) (name_span : SourceSpan)
    (type : TypeSyntax) (declared : SemanticType)
    → Keeps (analyze_uninitialized_let span is_mutable text name_span type declared)
unfolding analyze_uninitialized_let
uninitialized_let-Keeps span is_mutable text name_span type declared =
    Keeps-branch _ _ _ (Keeps-error _ _) (
      Keeps-branch _ _ _ (Keeps-error _ _) (
        Keeps-bind _ _ (declare_local-Keeps text name_span declared true) λ id.
          Keeps-bind _ _ (Keeps-when _ _ (init_tracking-Keeps id declared _))
            λ _. remember-Keeps id _ _))

declare_initialized-Keeps :
    (is_mutable : Bool) (text : Bytes) (name_span : SourceSpan) (declared : SemanticType)
    → Keeps (declare_initialized is_mutable text name_span declared)
unfolding declare_initialized
declare_initialized-Keeps is_mutable text name_span declared =
    Keeps-bind _ _ (declare_local-Keeps text name_span declared is_mutable) λ id.
      Keeps-when _ _
        (Keeps-bind _ _ (mark_definite-Keeps id) λ _. Keeps-when _ _ (mark_array-Keeps id))

check_inferred-Keeps :
    (is_mutable : Bool) (text : Bytes) (name_span : SourceSpan) (init : Expr)
    (declared : SemanticType)
    → Keeps (check_inferred is_mutable text name_span init declared)
unfolding check_inferred
check_inferred-Keeps is_mutable text name_span init declared = Keeps-quiet _ (
    Sound-then _ _ (Sound-when _ _ (Sound-error _ _)) λ _.
      Sound-then _ _ (validate_array-Sound declared _) λ _.
        Sound-then _ _ (validate_pointer-Sound declared _) λ _. Sound-when _ _ (Sound-error _ _))

initialized_let-Keeps :
    (is_mutable : Bool) (text : Bytes) (name_span : SourceSpan) (type : TypeSyntax)
    (declared : SemanticType) (init : Expr)
    → Keeps (analyze_initialized_let is_mutable text name_span type declared init)
unfolding analyze_initialized_let
initialized_let-Keeps is_mutable text name_span type declared init =
    Keeps-branch _ _ _
      (Keeps-bind _ _ (expr-Keeps init (some declared) normal) λ i.
        Keeps-bind _ _ (Keeps-check _ _ _)
          λ _. declare_initialized-Keeps is_mutable text name_span declared)
      (Keeps-bind _ _ (expr-Keeps init none normal) λ i.
        Keeps-bind _ _ (check_inferred-Keeps is_mutable text name_span init i.type)
          λ _. declare_initialized-Keeps is_mutable text name_span i.type)

pub let-Keeps :
    (span : SourceSpan) (is_mutable : Bool) (text : Bytes) (name_span : SourceSpan)
    (type : TypeSyntax) (init : Option Expr)
    → Keeps (analyze_let span is_mutable text name_span type init)
unfolding analyze_let
let-Keeps span is_mutable text name_span type init =
    Keeps-bind _ _
      (Keeps-when _ _ (
        Keeps-quiet _ (
          Sound-then _ _ (validate_array-Sound _ _) λ _.
            Sound-then _ _ (validate_pointer-Sound _ _) λ _. Sound-when _ _ (Sound-error _ _))))
      λ _.
        Keeps-option init _ _ (uninitialized_let-Keeps span is_mutable text name_span type _)
          (λ e. initialized_let-Keeps is_mutable text name_span type _ e)

refuse_target-Keeps :
    (span : SourceSpan) (parts : List Bytes) (value : Expr) → Keeps (refuse_target span parts value)
refuse_target-Keeps span parts value =
    Keeps-bind _ _ (Keeps-error _ _)
      λ _. Keeps-bind _ _ (expr-Keeps value none normal) λ _. Frame-refl

assign_name-Keeps :
    (span : SourceSpan) (text : Bytes) (value : Expr) → Keeps (assign_name span text value)
unfolding assign_name
assign_name-Keeps span text value = Keeps-ask _ _ λ found.
    Keeps-option found _ _ (refuse_target-Keeps _ _ value) λ symbol.
      Keeps-bind _ _ (Keeps-check _ _ _) λ _.
        Keeps-bind _ _ (expr-Keeps value (some symbol.type) normal)
          λ v. Keeps-bind _ _ (Keeps-check _ _ _) λ _. mark_definite-Keeps symbol.binding_id

assign_element-Keeps :
    (symbol : ValueSymbol) (chain : IndexedNameChain) (target value : Expr)
    → Keeps (assign_element symbol chain target value)
unfolding assign_element
assign_element-Keeps symbol chain target value =
    Keeps-bind _ _ (Keeps-quiet _ (indices-Sound target symbol.type)) λ walked.
      Keeps-bind _ _ (expr-Keeps value (some walked.0) normal) λ v.
        Keeps-bind _ _ (Keeps-check _ _ _) λ _.
          Keeps-when _ _ (note_store-Keeps symbol.binding_id symbol.type walked.1 chain.index_spans)

assign_indexed-Keeps :
    (chain : IndexedNameChain) (target value : Expr) → Keeps (assign_indexed chain target value)
unfolding assign_indexed
assign_indexed-Keeps chain target value = Keeps-ask _ _ λ found.
    Keeps-option found _ _ (refuse_target-Keeps _ _ value) λ symbol.
      Keeps-branch _ _ _ (refuse_target-Keeps _ _ value) (
        Keeps-branch _ _ _ (refuse_target-Keeps _ _ value) (
          Keeps-branch _ _ _ (assign_element-Keeps symbol chain target value)
            (refuse_target-Keeps _ _ value)))

assign_dereferenced-Keeps : (operand value : Expr) → Keeps (assign_dereferenced operand value)
unfolding assign_dereferenced
assign_dereferenced-Keeps operand value = Keeps-bind _ _ (expr-Keeps operand none normal) λ pointer.
    Keeps-branch _ _ _ (Keeps-bind _ _ (expr-Keeps value _ normal) λ v. Keeps-check _ _ _)
      (refuse_target-Keeps _ _ value)

unary_target-Keeps :
    (span : SourceSpan) (op : TokenKind) (operand value : Expr)
    → Keeps (analyze_assign (unary span op operand) value)
unfolding analyze_assign
unary_target-Keeps span star operand value = assign_dereferenced-Keeps operand value
unary_target-Keeps span _ operand value = refuse_target-Keeps _ _ value

pub assign-Keeps : (target value : Expr) → Keeps (analyze_assign target value)
unfolding analyze_assign
assign-Keeps (name span text) value = assign_name-Keeps span text value
assign-Keeps (index span base i) value =
    Keeps-option (peel_indexed_name_chain (index span base i)) _ _ (refuse_target-Keeps _ _ value)
      (λ chain. assign_indexed-Keeps chain (index span base i) value)
assign-Keeps (unary span op operand) value = unary_target-Keeps span op operand value
assign-Keeps _ value = refuse_target-Keeps _ _ value
