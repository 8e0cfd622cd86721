-- ===== src/Semantic/State.antt =====
-- The state of `AnalyzerImpl`, the monad of its routines, and its reports.
use nexc.Prelude.{
  ℕ, Bool, false, Option, none, some, List, [], ◌∷◌, Bytes, same, if◌then◌else◌, ◌==◌,
}
use nexc.Source.{SourceSpan}
use nexc.Diagnostic.{DiagnosticBag, report_error, report_note}
use nexc.Semantic.Types.{SemanticType, no_type, join}
use nexc.Semantic.Tables.{find}

pub record FunctionSymbol : Type 0 where
  pub name_span : SourceSpan
  pub parameter_types : List SemanticType
  pub return_type : SemanticType
  pub is_builtin : Bool

pub record ValueSymbol : Type 0 where
  pub type : SemanticType
  pub is_mutable : Bool
  pub is_const : Bool
  pub name_span : SourceSpan
  pub binding_id : ℕ

pub record ExprInfo : Type 0 where
  pub type : SemanticType
  pub is_constant : Bool
  pub integer_value : Option ℕ

pub data ExprContext : Type 0 where
  normal index_base : ExprContext

pub record DefAssignReason : Type 0 where
  pub span : SourceSpan
  pub message : Bytes

-- What `strtof` and `strtod` say of a text: how much of it they read, whether they set `ERANGE`,
-- and whether the value is finite.
pub record FloatResult : Type 0 where
  pub consumed : ℕ
  pub range_error : Bool
  pub is_finite : Bool

-- The conversions of the C library.
pub record FloatLibrary : Type 0 where
  pub strtof : Bytes → FloatResult
  pub strtod : Bytes → FloatResult

-- The innermost scope comes first, where the code has it at the back.
pub record Analyzer : Type 0 where
  pub floats : FloatLibrary
  pub diagnostics : DiagnosticBag
  pub loop_depth : ℕ
  pub in_for_step_clause : Bool
  pub top_level_names : List (Bytes × SourceSpan)
  pub functions : List (Bytes × FunctionSymbol)
  pub globals : List (Bytes × ValueSymbol)
  pub scopes : List (List (Bytes × ValueSymbol))
  pub definite_assign : List ℕ
  pub def_assign_reasons : List (ℕ × DefAssignReason)
  pub array_elem_assign : List (ℕ × List Bool)
  pub scope_binding_ids : List (List ℕ)
  pub next_binding_id : ℕ
  pub current_return_type : SemanticType
  pub saw_return_value : Bool

-- A routine returns a value and the analyzer behind it.
abbrev pub Analysis {ℓ} : Type ℓ → Type ℓ
Analysis A = Analyzer → A × Analyzer

infixl 5 ◌>>=◌ ◌>>◌
unfoldable pub ◌>>=◌ {ℓ κ} : {A : Type ℓ} {B : Type κ} → Analysis A → (A → Analysis B) → Analysis B
(m >>= f) s = let (a, s') = m s in f a s'

abbrev pub ◌>>◌ {ℓ κ} : {A : Type ℓ} {B : Type κ} → Analysis A → Analysis B → Analysis B
m >> n = m >>= λ _. n

abbrev pub pure {ℓ} : {A : Type ℓ} → A → Analysis A
pure a s = (a, s)

abbrev pub done : Analysis (Unit {0})
done = pure tt

abbrev pub gets {ℓ} : {A : Type ℓ} → (Analyzer → A) → Analysis A
gets f s = (f s, s)

abbrev pub modify : (Analyzer → Analyzer) → Analysis (Unit {0})
modify f s = (tt, f s)

-- The case that is not taken waits.
unfoldable pub branch {ℓ} : {A : Type ℓ} → Bool → Analysis A → Analysis A → Analysis A
branch b yes_case no_case s = (if b then yes_case else no_case) s

abbrev pub when : Bool → Analysis (Unit {0}) → Analysis (Unit {0})
when b m = branch b m done

unfoldable pub error : SourceSpan → List Bytes → Analysis (Unit {0})
error span parts =
    modify λ s. record s { diagnostics = report_error s.diagnostics span (join parts) }

unfoldable pub note : SourceSpan → List Bytes → Analysis (Unit {0})
note span parts = modify λ s. record s { diagnostics = report_note s.diagnostics span (join parts) }

-- `{.type = type, .isConstant = is_constant}`
abbrev pub info : SemanticType → Bool → ExprInfo
info type is_constant = record { type = type; is_constant = is_constant; integer_value = none }

abbrev pub no_info : ExprInfo
no_info = info no_type false

abbrev pub same_id : ℕ → ℕ → Bool
same_id a b = a == b

-- The scopes from the inside out, then the module's constants.
unfoldable pub lookup_in : List (List (Bytes × ValueSymbol)) → Bytes → Option ValueSymbol
lookup_in [] name = none
lookup_in (scope ∷ scopes) name =
    let outer = lookup_in scopes name in
    elim (find same name scope) [ some symbol ↦ some symbol | none ↦ outer ]

unfoldable pub lookup_value : Analyzer → Bytes → Option ValueSymbol
lookup_value s name = elim (lookup_in s.scopes name) [
  | some symbol ↦ some symbol
  | none ↦ find same name s.globals
]

unfoldable pub lookup_function : Analyzer → Bytes → Option FunctionSymbol
lookup_function s name = find same name s.functions

unfoldable pub push_scope : Analyzer → Analyzer
push_scope s = record s { scopes = [] ∷ s.scopes; scope_binding_ids = [] ∷ s.scope_binding_ids }
