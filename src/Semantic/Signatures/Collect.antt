-- ===== src/Semantic/Signatures/Collect.antt =====
-- What `collectItems` has done with one item, if no error is on record behind it.
use nexc.Prelude.{
  ◌≡◌, ◌≢◌, refl, sym, ap, subst, ◌∙◌, Bool, true, false, Option, none, some, List, [], ◌∷◌, Bytes,
  same, codes,
}
use nexc.Source.{SourceSpan}
use nexc.Syntax.{Item, Stmt, function_decl, const_decl, ParameterSyntax, TypeSyntax}
use nexc.Semantic.Types.{SemanticType, is_pointer, type_from_syntax}
use nexc.Semantic.Tables.{find, assign}
use nexc.Semantic.State.{
  Analyzer, Analysis, FunctionSymbol, ◌>>=◌, ◌>>◌, done, modify, branch, error, note,
  lookup_function,
}
use nexc.Semantic.Items.{
  declare_top_level, validate_decl, collect_parameters, collect_item, is_builtin_name, add_function,
}
use nexc.Semantic.Reports.{
  Quiet-trans, Sound-refuse, no_error_before, Quiet, Sound, Sound-bind, Sound-then, Sound-branch,
  Sound-pure, Sound-error, Sound-note,
}
use nexc.Semantic.Frame.Lets.{validate_array-Sound, validate_pointer-Sound}
use nexc.Semantic.Signatures.Entries.{find-assign-here, find-assign-other, find-assign-none}

-- A declared type comes out as it is written, and is no pointer.
validate_decl-Sound :
    (syntax : TypeSyntax) (message : Bytes)
    → Sound
        (λ t. (t ≡ type_from_syntax syntax) × (is_pointer t ≡ false))
        (validate_decl syntax message)
unfolding validate_decl
validate_decl-Sound syntax message = Sound-then _ _ (validate_array-Sound _ _) λ _.
    Sound-then _ _ (validate_pointer-Sound _ _) λ _.
      Sound-bind {P = λ _. is_pointer (type_from_syntax syntax) ≡ false} _ _
        (Sound-branch (is_pointer (type_from_syntax syntax)) _ done (λ _. Sound-error _ _)
          (λ e. Sound-pure tt e))
        λ _. Sound-pure _ (λ e. (refl, e))

abbrev pub types_of : List ParameterSyntax → List SemanticType
types_of [] = []
types_of (p ∷ ps) = type_from_syntax p.type ∷ types_of ps

unfoldable pub NoPointers : List SemanticType → Type 0
NoPointers [] = Unit {0}
NoPointers (t ∷ ts) = (is_pointer t ≡ false) × NoPointers ts

collect_parameters-Sound :
    (ps : List ParameterSyntax)
    → Sound (λ ts. (ts ≡ types_of ps) × NoPointers ts) (collect_parameters ps)
unfolding collect_parameters NoPointers
collect_parameters-Sound [] = Sound-pure [] (refl, tt)
collect_parameters-Sound (p ∷ ps) = Sound-bind _ _ (validate_decl-Sound _ _) λ t.
    Sound-bind _ _ (collect_parameters-Sound ps)
      λ ts. Sound-pure (t ∷ ts) λ rest first. (cc, (first.1, rest.1))

-- A declared name is new and stands in the table behind it; nothing else changes.
record Declares (text : Bytes) (span : SourceSpan) (s t : Analyzer) : Type 0 where
  fresh : find same text s.top_level_names ≡ none
  now : t ≡ record s { top_level_names = assign same text span s.top_level_names }

-- The two cases of `declareTopLevel`.
abbrev on_declared : Bytes → SourceSpan → Option SourceSpan → Analysis (Unit {0})
on_declared text span o = elim o [
  | some previous ↦ (do
    error span (codes "duplicate top-level name `" ∷ text ∷ codes "`" ∷ [])
    note previous (codes "previous declaration of `" ∷ text ∷ codes "` is here" ∷ []))
  | none ↦ modify λ s. record s { top_level_names = assign same text span s.top_level_names }
]

on_declared-Declares :
    (text : Bytes) (span : SourceSpan) (s : Analyzer) (o : Option SourceSpan)
    → find same text s.top_level_names ≡ o
    → (on_declared text span o s).1.diagnostics.has_errors ≡ false
    → Declares text span s (on_declared text span o s).1
on_declared-Declares text span s none e h = record { fresh = e; now = refl }
on_declared-Declares text span s (some previous) e h =
    absurd ((Sound-refuse {Q = λ _. ⊥} span _ (note previous _) (Sound-note previous _) s).holds h)

declare_top_level-Declares :
    (text : Bytes) (span : SourceSpan) (s : Analyzer)
    → (declare_top_level text span s).1.diagnostics.has_errors ≡ false
    → Declares text span s (declare_top_level text span s).1
unfolding declare_top_level ◌>>=◌
declare_top_level-Declares text span s h =
    on_declared-Declares text span s (find same text s.top_level_names) refl h

-- What is known of the symbol of a function.
pub record Entered (text : Bytes) (ps : List ParameterSyntax) (result : TypeSyntax) (t : Analyzer)
    : Type 0 where
  pub symbol : FunctionSymbol
  pub found : find same text t.functions ≡ some symbol
  pub parameters : symbol.parameter_types ≡ types_of ps
  pub returned : symbol.return_type ≡ type_from_syntax result

-- What the rest of a declaration does behind `declareTopLevel`.
record Signed (text : Bytes) (ps : List ParameterSyntax) (result : TypeSyntax) (s t : Analyzer)
    : Type 0 where
  no_error : s.diagnostics.has_errors ≡ false
  names : t.top_level_names ≡ s.top_level_names
  user : is_builtin_name s text ≡ false
  plain : NoPointers (types_of ps) × (is_pointer (type_from_syntax result) ≡ false)
  entered : Entered text ps result t
  others : (x : Bytes) → x ≢ text → find same x t.functions ≡ find same x s.functions

abbrev function_rest : Bytes → SourceSpan → List ParameterSyntax → TypeSyntax → Analysis (Unit {0})
function_rest text name_span parameters return_type = do
  types ← collect_parameters parameters
  result ← validate_decl return_type (codes "pointer return types are not implemented yet")
  modify (
      add_function text (record {
        name_span = name_span;
        parameter_types = types;
        return_type = result;
        is_builtin = false;
      }))

function_rest-Signed :
    (text : Bytes) (span : SourceSpan) (ps : List ParameterSyntax) (result : TypeSyntax)
    (s : Analyzer)
    → is_builtin_name s text ≡ false
    → (function_rest text span ps result s).1.diagnostics.has_errors ≡ false
    → Signed text ps result s (function_rest text span ps result s).1
unfolding ◌>>=◌
function_rest-Signed text span ps result s user h =
    let message = codes "pointer return types are not implemented yet" in
    let first = collect_parameters-Sound ps s in
    let s1 = (collect_parameters ps s).1 in
    let second = validate_decl-Sound result message s1 in
    let s2 = (validate_decl result message s1).1 in
    let quiet : Quiet s s2 = Quiet-trans first.quiet second.quiet in
    let types = first.holds (no_error_before second.quiet h) in
    let returns = second.holds h in
    let functions : s2.functions ≡ s.functions = ap (λ (w : Analyzer). w.functions) quiet.same in
    record {
      no_error = no_error_before quiet h;
      names = ap (λ (w : Analyzer). w.top_level_names) quiet.same;
      user = user;
      plain =
          (subst NoPointers types.0 types.1, subst (λ t. is_pointer t ≡ false) returns.0 returns.1);
      entered = record {
        symbol = _;
        found = find-assign-here text _ s2.functions;
        parameters = types.0;
        returned = returns.0;
      };
      others =
          λ x differs. find-assign-other text x _ s2.functions differs ∙ ap (find same x) functions;
    }

unfoldable pub name_of : Item → Bytes
name_of (function_decl _ text _ _ _ _) = text
name_of (const_decl _ text _ _ _) = text

-- What a signature is held to, and where it stands.
unfoldable pub Accepted : Item → Analyzer → Analyzer → Type 0
Accepted (function_decl _ text _ ps result _) s t =
    (is_builtin_name s text ≡ false)
    × NoPointers (types_of ps)
    × (is_pointer (type_from_syntax result) ≡ false)
    × Entered text ps result t
Accepted (const_decl _ _ _ type _) s t = is_pointer (type_from_syntax type) ≡ false

pub record Collected (item : Item) (s t : Analyzer) : Type 0 where
  pub fresh : find same (name_of item) s.top_level_names ≡ none
  pub names :
      (x : Bytes)
      → find same x t.top_level_names ≡ none
      → (x ≢ name_of item) × (find same x s.top_level_names ≡ none)
  pub others : (x : Bytes) → x ≢ name_of item → find same x t.functions ≡ find same x s.functions
  pub builtins : (x : Bytes) → is_builtin_name s x ≡ true → is_builtin_name t x ≡ true
  pub accepted : Accepted item s t

is_builtin_name-same :
    (s t : Analyzer) (x : Bytes)
    → find same x t.functions ≡ find same x s.functions
    → is_builtin_name t x ≡ is_builtin_name s x
unfolding lookup_function
is_builtin_name-same s t x e = ap (λ o. elim o [ none ↦ false | some symbol ↦ symbol.is_builtin ]) e

Declares-names :
    {text : Bytes} {span : SourceSpan} {s t : Analyzer} (u : Analyzer)
    → Declares text span s t
    → u.top_level_names ≡ t.top_level_names
    → (x : Bytes) → find same x u.top_level_names ≡ none
    → (x ≢ text) × (find same x s.top_level_names ≡ none)
Declares-names {text} {span} {s} u d e x h =
    let table = e ∙ ap (λ (w : Analyzer). w.top_level_names) d.now in
    find-assign-none text x span s.top_level_names (sym (ap (find same x) table) ∙ h)

-- The function is entered behind its name.
Signed-Collected :
    (at : SourceSpan) (text : Bytes) (span : SourceSpan) (ps : List ParameterSyntax)
    (result : TypeSyntax) (body : Stmt) {s t u : Analyzer}
    → Declares text span s t
    → Signed text ps result t u
    → Collected (function_decl at text span ps result body) s u
unfolding name_of Accepted
Signed-Collected at text span ps result body {s} {t} {u} d signed =
    let functions : t.functions ≡ s.functions = ap (λ (w : Analyzer). w.functions) d.now in
    let user = sym (is_builtin_name-same s t text (ap (find same text) functions)) ∙ signed.user in
    let others : (x : Bytes) → x ≢ text → find same x u.functions ≡ find same x s.functions =
      λ x h. signed.others x h ∙ ap (find same x) functions in
    record {
      fresh = d.fresh;
      names = Declares-names u d signed.names;
      others = others;
      builtins = λ x b. is_builtin_name-same s u x (others x (λ e. cc)) ∙ b;
      accepted = (user, signed.plain.0, signed.plain.1, signed.entered);
    }

function_end-Signed :
    (text : Bytes) (span : SourceSpan) (parts : List Bytes) (ps : List ParameterSyntax)
    (result : TypeSyntax) (t : Analyzer) (b : Bool)
    → is_builtin_name t text ≡ b
    → (branch b (error span parts) (function_rest text span ps result) t).1.diagnostics.has_errors
      ≡ false
    → Signed text ps result t (branch b (error span parts) (function_rest text span ps result) t).1
unfolding branch
function_end-Signed text span parts ps result t true e h =
    absurd ((Sound-error {P = λ _. ⊥} span parts t).holds h)
function_end-Signed text span parts ps result t false e h =
    function_rest-Signed text span ps result t e h

pub collect_item-Collected :
    (item : Item) (s : Analyzer)
    → (collect_item item s).1.diagnostics.has_errors ≡ false
    → Collected item s (collect_item item s).1
unfolding collect_item ◌>>=◌ name_of Accepted lookup_function
collect_item-Collected (function_decl at text span ps result body) s h =
    let t = (declare_top_level text span s).1 in
    let signed = function_end-Signed text span _ ps result t (is_builtin_name t text) refl h in
    Signed-Collected at text span ps result body
      (declare_top_level-Declares text span s signed.no_error) signed
collect_item-Collected (const_decl at text span type init) s h =
    let t = (declare_top_level text span s).1 in
    let run = validate_decl-Sound type (codes "module const pointers are not implemented yet") t in
    let u = (validate_decl type (codes "module const pointers are not implemented yet") t).1 in
    let d = declare_top_level-Declares text span s (no_error_before run.quiet h) in
    let functions =
      ap (λ (w : Analyzer). w.functions) run.quiet.same
      ∙ ap (λ (w : Analyzer). w.functions) d.now in
    let valid = run.holds h in
    record {
      fresh = d.fresh;
      names = Declares-names u d (ap (λ (w : Analyzer). w.top_level_names) run.quiet.same);
      others = λ x _. ap (find same x) functions;
      builtins = λ x b. is_builtin_name-same s u x (ap (find same x) functions) ∙ b;
      accepted = subst (λ t. is_pointer t ≡ false) valid.0 valid.1;
    }
