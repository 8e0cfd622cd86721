-- ===== src/Semantic/Returns/Items.antt =====
-- The functions of a module that is accepted.
use nexc.Prelude.{◌≡◌, refl, Bool, true, false, ◌||◌, List, [], ◌∷◌, Bytes, arith}
use nexc.Source.{SourceSpan}
use nexc.Syntax.{
  Stmt, Item, function_decl, const_decl, ParameterSyntax, TypeSyntax, TranslationUnit,
}
use nexc.Diagnostic.{DiagnosticBag}
use nexc.Semantic.Types.{SemanticType, is_void, type_from_syntax}
use nexc.Semantic.State.{FloatLibrary, ◌>>◌, done, branch, error}
use nexc.Semantic.Statements.{analyze_stmt}
use nexc.Semantic.Items.{
  collect_items, validate_main_if_present, analyze_const_decl, analyze_function, analyze_item,
  analyze_items, install_builtins, start, analyze,
}
use nexc.Semantic.Frame.Lets.{Keeps-check}
use nexc.Semantic.Frame.Statements.{stmt-Keeps}
use nexc.Semantic.Frame.Items.{
  declare_parameters-Keeps, const-Keeps, collect_items-Plain, validate_main-Plain, enter-Plain,
  item-Plain,
}
use nexc.Semantic.Paths.{Ending, returns, Ends}
use nexc.Semantic.Returns.{
  Checked, Keeps-Sticky, Keeps-Level, Checked-bind, Checked-then, Checked-after, Checked-pure,
  Checked-value, Checked-weaken, Checked-require,
}
use nexc.Semantic.Returns.Statements.{
  Proper, by_falling, by_returning, Leaves, stmt-Checked, pop-Sticky,
}

-- How the runs of an accepted item end: a body falls through or returns, and returns if the
-- function has a result.
pub Settled : Item → Type 0
Settled (function_decl span text name_span parameters return_type body) =
    (e : Ending)
    → Ends body e
    → Proper e × (is_void (type_from_syntax return_type) ≡ false → e ≡ returns)
Settled (const_decl span text name_span type init) = Unit {0}

pub AllSettled : List Item → Type 0
AllSettled [] = Unit {0}
AllSettled (item ∷ items) = Settled item × AllSettled items

-- The endings of a body, from what its analysis says.
settled :
    (stmt : Stmt) (type : SemanticType) (r : Bool)
    → Leaves (Ends stmt) r
    → (is_void type || r) ≡ true
    → (e : Ending) → Ends stmt e
    → Proper e × (is_void type ≡ false → e ≡ returns)
settled stmt type r leaves checked e x =
    (leaves.proper e x, λ wanted. returned e (leaves.proper e x) x wanted)
  where
    returned : (e : Ending) → Proper e → Ends stmt e → is_void type ≡ false → e ≡ returns
    returned _ by_returning x wanted = refl
    returned _ by_falling x wanted = absurd (leaves.final (ground arith) x)

function-Checked :
    (text : Bytes) (name_span : SourceSpan) (parameters : List ParameterSyntax)
    (syntax : TypeSyntax) (body : Stmt)
    → Checked
        (λ _.
          (e : Ending)
          → Ends body e
          → Proper e × (is_void (type_from_syntax syntax) ≡ false → e ≡ returns))
        (analyze_function text name_span parameters syntax body)
unfolding analyze_function
function-Checked text name_span parameters syntax body =
    Checked-then _ _ (enter-Plain _).level (λ s. ((enter-Plain _).adds s).kept)
      λ _. Checked-after _ _ (declare_parameters-Keeps parameters) λ _.
        Checked-bind _ _ (Keeps-Level (analyze_stmt body) (stmt-Keeps body)) (stmt-Checked body)
          λ r.
            Checked-bind _ _ (Keeps-Level (branch _ done (error _ _)) (Keeps-check _ _ _))
              (Checked-require _ _ _)
              λ _.
                Checked-value _ pop-Sticky
                  λ s outside e required leaves. settled body _ r leaves required

item-Checked : (item : Item) → Checked (λ _. Settled item) (analyze_item item)
unfolding analyze_item Settled
item-Checked (const_decl span text name_span type init) =
    Checked-value (analyze_const_decl text type init)
      (Keeps-Sticky (analyze_const_decl text type init) (const-Keeps text type init)) λ _ _ _. tt
item-Checked (function_decl span text name_span parameters return_type body) =
    function-Checked text name_span parameters return_type body

items-Checked : (items : List Item) → Checked (λ _. AllSettled items) (analyze_items items)
unfolding analyze_items AllSettled
items-Checked [] = Checked-pure tt tt
items-Checked (item ∷ items) =
    Checked-bind _ _ (item-Plain item).level (item-Checked item)
      λ _. Checked-weaken _ (λ _ others first. (first, others)) (items-Checked items)

-- If no error is on record behind the analysis of a module, then every way in which the body of one
-- of its functions can end is to fall through or to return, so no `break` or `continue` leaves it;
-- and if the function has a result it ends at a `return`.
pub analyze-AllSettled :
    (floats : FloatLibrary) (unit : TranslationUnit) (bag : DiagnosticBag)
    → (analyze floats unit bag).has_errors ≡ false
    → AllSettled unit.items
unfolding analyze install_builtins
analyze-AllSettled floats unit bag e = (checked (install_builtins (start floats bag))).value refl e
  where
    checked :
        Checked
          (λ _. AllSettled unit.items)
          (collect_items unit.items >> (validate_main_if_present >> analyze_items unit.items))
    checked =
        Checked-then _ _ (collect_items-Plain unit.items).level
          (λ s. ((collect_items-Plain unit.items).adds s).kept)
          λ _.
            Checked-then _ _ validate_main-Plain.level (λ s. (validate_main-Plain.adds s).kept)
              λ _. items-Checked unit.items
