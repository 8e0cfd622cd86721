-- ===== src/Semantic/Frame/Items.antt =====
-- The routines for the items of a module, of which some leave the frame.
use nexc.Prelude.{◌≡◌, ◌∙◌, ap, refl, Bool, true, false, Option, none, some, List, [], ◌∷◌, Bytes}
use nexc.Source.{SourceSpan}
use nexc.Syntax.{Expr, Item, function_decl, const_decl, ParameterSyntax, TypeSyntax}
use nexc.Semantic.Types.{SemanticType}
use nexc.Semantic.State.{
  Analyzer, Analysis, normal, ◌>>=◌, done, gets, modify, branch, error, note, push_scope,
}
use nexc.Semantic.Statements.{analyze_stmt}
use nexc.Semantic.Items.{
  declare_top_level, validate_decl, collect_parameters, collect_item, collect_items,
  validate_main_if_present, analyze_const_decl, enter_function, declare_parameters,
  analyze_function, analyze_item, analyze_items,
}
use nexc.Semantic.Reports.{
  Grows, Grows-refl, Grows-trans, Sound-then, Sound-pure, Sound-error, Sound-note, Sound-when,
}
use nexc.Semantic.Frame.{forget_ids-kept, Keeps, Keeps-bind, Keeps-quiet, Frame-refl}
use nexc.Semantic.Frame.Parts.{Keeps-error, mark_definite-Keeps}
use nexc.Semantic.Frame.Lets.{
  expr-Keeps, Keeps-check, declare_local-Keeps, validate_array-Sound, validate_pointer-Sound,
}
use nexc.Semantic.Frame.Statements.{stmt-Keeps}
use nexc.Semantic.Scopes.{pop_scope, head_or_empty}

pub declare_parameters-Keeps :
    (parameters : List ParameterSyntax) → Keeps (declare_parameters parameters)
unfolding declare_parameters
declare_parameters-Keeps [] = Frame-refl
declare_parameters-Keeps (parameter ∷ parameters) =
    Keeps-bind _ _ (declare_local-Keeps _ _ _ _)
      λ id. Keeps-bind _ _ (mark_definite-Keeps id) λ _. declare_parameters-Keeps parameters

pub const-Keeps :
    (text : Bytes) (syntax : TypeSyntax) (init : Expr) → Keeps (analyze_const_decl text syntax init)
unfolding analyze_const_decl
const-Keeps text syntax init =
    Keeps-bind _ _ (expr-Keeps init _ normal)
      λ i. Keeps-bind _ _ (Keeps-check _ _ _) λ _. Keeps-check _ _ _

-- Messages are only added, and the depth of loops is the same.
pub record Plain {ℓ} {A : Type ℓ} (m : Analysis A) : Type 0 where
  pub level : (s : Analyzer) → (m s).1.loop_depth ≡ s.loop_depth
  pub adds : (s : Analyzer) → Grows s.diagnostics (m s).1.diagnostics

Plain-bind {ℓ κ} :
    {A : Type ℓ} {B : Type κ} (m : Analysis A) (f : A → Analysis B)
    → Plain m
    → ((a : A) → Plain (f a))
    → Plain (m >>= f)
unfolding ◌>>=◌
Plain-bind m f hm hf = record {
  level = λ s. (hf (m s).0).level (m s).1 ∙ hm.level s;
  adds = λ s. Grows-trans (hm.adds s) ((hf (m s).0).adds (m s).1);
}

Plain-Keeps {ℓ} : {A : Type ℓ} (m : Analysis A) → Keeps m → Plain m
Plain-Keeps m h = record { level = λ s. (h s).depth; adds = λ s. (h s).grows }

Plain-branch {ℓ} :
    {A : Type ℓ} (b : Bool) (x y : Analysis A) → Plain x → Plain y → Plain (branch b x y)
unfolding branch
Plain-branch true x y hx hy = hx
Plain-branch false x y hx hy = hy

Plain-option {ℓ κ} :
    {A : Type ℓ} {B : Type κ} (o : Option A) (x : Analysis B) (f : A → Analysis B)
    → Plain x
    → ((a : A) → Plain (f a))
    → Plain (elim o [ none ↦ x | some a ↦ f a ])
Plain-option none x f hx hf = hx
Plain-option (some a) x f hx hf = hf a

declare_top_level-Plain : (text : Bytes) (span : SourceSpan) → Plain (declare_top_level text span)
unfolding declare_top_level
declare_top_level-Plain text span = Plain-bind _ _ (Plain-Keeps (gets _) Frame-refl) λ declared.
    Plain-option declared _ _ (record { level = λ s. refl; adds = λ s. Grows-refl s.diagnostics })
      λ previous.
        Plain-bind _ _ (Plain-Keeps (error _ _) (Keeps-error _ _))
          λ _. Plain-Keeps (note _ _) (Keeps-quiet _ (Sound-note _ _))

validate_decl-Keeps : (syntax : TypeSyntax) (message : Bytes) → Keeps (validate_decl syntax message)
unfolding validate_decl
validate_decl-Keeps syntax message = Keeps-quiet {P = λ _. Unit {0}} _ (
    Sound-then _ _ (validate_array-Sound _ _) λ _.
      Sound-then _ _ (validate_pointer-Sound _ _)
        λ _. Sound-then _ _ (Sound-when _ _ (Sound-error _ _)) λ _. Sound-pure _ tt)

collect_parameters-Keeps :
    (parameters : List ParameterSyntax) → Keeps (collect_parameters parameters)
unfolding collect_parameters
collect_parameters-Keeps [] = Frame-refl
collect_parameters-Keeps (parameter ∷ parameters) =
    Keeps-bind _ _ (validate_decl-Keeps _ _)
      λ type. Keeps-bind _ _ (collect_parameters-Keeps parameters) λ types. Frame-refl

collect_item-Plain : (item : Item) → Plain (collect_item item)
unfolding collect_item
collect_item-Plain (function_decl span text name_span parameters return_type body) =
    Plain-bind _ _ (declare_top_level-Plain text name_span) λ _.
      Plain-bind _ _ (Plain-Keeps (gets _) Frame-refl) λ taken.
        Plain-branch _ _ _ (Plain-Keeps (error _ _) (Keeps-error _ _)) (
          Plain-bind _ _
            (Plain-Keeps (collect_parameters parameters) (collect_parameters-Keeps parameters))
            λ types.
              Plain-bind _ _ (Plain-Keeps (validate_decl _ _) (validate_decl-Keeps _ _))
                λ result. record { level = λ s. refl; adds = λ s. Grows-refl s.diagnostics })
collect_item-Plain (const_decl span text name_span type init) =
    Plain-bind _ _ (declare_top_level-Plain text name_span) λ _.
      Plain-bind _ _ (Plain-Keeps (validate_decl _ _) (validate_decl-Keeps _ _))
        λ const_type. record { level = λ s. refl; adds = λ s. Grows-refl s.diagnostics }

pub collect_items-Plain : (items : List Item) → Plain (collect_items items)
unfolding collect_items
collect_items-Plain [] = Plain-Keeps done Frame-refl
collect_items-Plain (item ∷ items) =
    Plain-bind _ _ (collect_item-Plain item) λ _. collect_items-Plain items

pub validate_main-Plain : Plain validate_main_if_present
unfolding validate_main_if_present
validate_main-Plain = Plain-bind _ _ (Plain-Keeps (gets _) Frame-refl) λ found.
    Plain-option found _ _ (Plain-Keeps done Frame-refl) λ main.
      Plain-bind _ _ (Plain-Keeps (branch _ done (error _ _)) (Keeps-check _ _ _))
        λ _. Plain-Keeps (branch _ done (error _ _)) (Keeps-check _ _ _)

pub pop-Plain : Plain (modify pop_scope)
unfolding pop_scope
pop-Plain = record {
  level = λ s.
      ap (λ (w : Analyzer). w.loop_depth) (forget_ids-kept (head_or_empty s.scope_binding_ids) s);
  adds = λ s. rw (forget_ids-kept (head_or_empty s.scope_binding_ids) s) (Grows-refl s.diagnostics);
}

pub enter-Plain : (return_type : SemanticType) → Plain (modify (enter_function return_type))
unfolding enter_function push_scope
enter-Plain return_type = record { level = λ s. refl; adds = λ s. Grows-refl s.diagnostics }

pub item-Plain : (item : Item) → Plain (analyze_item item)
unfolding analyze_item analyze_function
item-Plain (const_decl span text name_span type init) = Plain-Keeps _ (const-Keeps text type init)
item-Plain (function_decl span text name_span parameters return_type body) =
    Plain-bind _ _ (enter-Plain _) λ _.
      Plain-bind _ _
        (Plain-Keeps (declare_parameters parameters) (declare_parameters-Keeps parameters))
        λ _. Plain-bind _ _ (Plain-Keeps (analyze_stmt body) (stmt-Keeps body)) λ r.
          Plain-bind _ _ (Plain-Keeps (branch _ done (error _ _)) (Keeps-check _ _ _))
            λ _. pop-Plain

pub items-Plain : (items : List Item) → Plain (analyze_items items)
unfolding analyze_items
items-Plain [] = Plain-Keeps done Frame-refl
items-Plain (item ∷ items) = Plain-bind _ _ (item-Plain item) λ _. items-Plain items
