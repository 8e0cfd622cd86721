-- ===== src/Semantic/Signatures/Module.antt =====
-- The names and signatures of a module that is accepted.
use nexc.Prelude.{
  ◌≡◌, refl, subst, true, false, some, List, [], ◌∷◌, Bytes, same, same_iff, Bool-cases, ◌⊎◌, inl,
  inr, arith, codes,
}
use nexc.Syntax.{Item, function_decl, const_decl, ParameterSyntax, TranslationUnit, i32}
use nexc.Diagnostic.{DiagnosticBag}
use nexc.Semantic.Types.{
  SemanticType, is_pointer, is_void, is_fixed_array, type_from_syntax, is_empty,
}
use nexc.Semantic.Tables.{find, erase, assign}
use nexc.Semantic.State.{Analyzer, FloatLibrary, ◌>>=◌, lookup_function}
use nexc.Semantic.Items.{
  collect_items, is_builtin_name, validate_main_if_present, is_main_type, install_builtins, start,
  analyze,
}
use nexc.Semantic.Fitting.{same_kind-eq}
use nexc.Semantic.Frame.Items.{validate_main-Plain, items-Plain}
use nexc.Semantic.Signatures.{
  listed, Distinct, names_of, AllAccepted, collect_items-CollectedAll, validate_main-checks,
}
use nexc.Semantic.Signatures.Collect.{NoPointers, types_of, Accepted}

pub builtin_names : List Bytes
builtin_names =
    codes "input_ok"
    ∷ codes "parse_bool"
    ∷ codes "parse_u64"
    ∷ codes "parse_i32"
    ∷ codes "readln"
    ∷ codes "println"
    ∷ codes "print"
    ∷ []

pub MainType : SemanticType → Type 0
MainType t = (is_void t ≡ true) ⊎ ((is_fixed_array t ≡ false) × (t.kind ≡ i32))

-- What the declaration of an item has been held to.
pub Declared : Item → Type 0
unfolding NoPointers
Declared (function_decl _ text _ ps result _) =
    (listed text builtin_names ≡ false)
    × NoPointers (types_of ps)
    × (is_pointer (type_from_syntax result) ≡ false)
    × (text ≡ codes "main" → (ps ≡ []) × MainType (type_from_syntax result))
Declared (const_decl _ _ _ type _) = is_pointer (type_from_syntax type) ≡ false

pub AllDeclared : List Item → Type 0
AllDeclared [] = Unit {0}
AllDeclared (item ∷ items) = Declared item × AllDeclared items

AllBuiltin : Analyzer → List Bytes → Type 0
AllBuiltin s [] = Unit {0}
AllBuiltin s (x ∷ xs) = (is_builtin_name s x ≡ true) × AllBuiltin s xs

AllBuiltin-listed :
    (s : Analyzer) (x : Bytes) (names : List Bytes)
    → AllBuiltin s names
    → listed x names ≡ true
    → is_builtin_name s x ≡ true
unfolding AllBuiltin listed
AllBuiltin-listed s x [] all h = absurd cc
AllBuiltin-listed s x (y ∷ names) (first, others) h = elim (Bool-cases (same y x)) [
  | inl e ↦ subst (λ k. is_builtin_name s k ≡ true) ((same_iff y x).0 e) first
  | inr e ↦ AllBuiltin-listed s x names others (ground arith)
]

installed :
    (floats : FloatLibrary) (bag : DiagnosticBag)
    → AllBuiltin (install_builtins (start floats bag)) builtin_names
unfolding AllBuiltin builtin_names install_builtins lookup_function find erase assign same
installed floats bag = (refl, (refl, (refl, (refl, (refl, (refl, (refl, tt)))))))

MainType-checked : (t : SemanticType) → is_main_type t ≡ true → MainType t
unfolding MainType
MainType-checked t h = elim (Bool-cases (is_void t)) [
  | inl e ↦ inl e
  | inr e ↦ inr (ground arith, same_kind-eq t.kind i32 (ground arith))
]

no_parameters : (ps : List ParameterSyntax) → is_empty (types_of ps) ≡ true → ps ≡ []
no_parameters [] h = refl
no_parameters (p ∷ ps) h = absurd cc

-- What is known behind `collectItems` and `validateMainIfPresent`.
module _ (s t : Analyzer)
    (builtins : (x : Bytes) → listed x builtin_names ≡ true → is_builtin_name s x ≡ true)
    (main_checked : (validate_main_if_present t).1.diagnostics.has_errors ≡ false) where
  Accepted-Declared : (item : Item) → Accepted item s t → Declared item
  unfolding Accepted Declared
  Accepted-Declared (function_decl _ text _ ps result _) (user, plain, returned, entered) = (
    elim (Bool-cases (listed text builtin_names)) [
      | inl e ↦ absurd (let clash = builtins text e in cc)
      | inr e ↦ e
    ],
    plain,
    returned,
    λ is.
        (let checks =
            validate_main-checks entered.symbol t
              (subst (λ k. find same k t.functions ≡ some entered.symbol) is entered.found)
              main_checked in
          (
            no_parameters ps (subst (λ ts. is_empty ts ≡ true) entered.parameters checks.0),
            MainType-checked (type_from_syntax result)
                (subst (λ r. is_main_type r ≡ true) entered.returned checks.1),
          )),
  )
  Accepted-Declared (const_decl _ _ _ _ _) h = h

  AllAccepted-Declared : (items : List Item) → AllAccepted items s t → AllDeclared items
  unfolding AllAccepted AllDeclared
  AllAccepted-Declared [] h = tt
  AllAccepted-Declared (item ∷ items) (h, hs) =
      (Accepted-Declared item h, AllAccepted-Declared items hs)

-- If no error is on record behind the analysis of a module, then no two of its items have one name,
-- none of its functions has the name of a built-in one, no declared parameter, result or constant
-- is a pointer, and a function `main` has no parameters and the result `void` or `i32`.
pub analyze-Declared :
    (floats : FloatLibrary) (unit : TranslationUnit) (bag : DiagnosticBag)
    → (analyze floats unit bag).has_errors ≡ false
    → Distinct (names_of unit.items) × AllDeclared unit.items
unfolding analyze ◌>>=◌
analyze-Declared floats unit bag h =
    let s = install_builtins (start floats bag) in
    let t = (collect_items unit.items s).1 in
    let u = (validate_main_if_present t).1 in
    let later = ((items-Plain unit.items).adds u).kept in
    let checked : u.diagnostics.has_errors ≡ false = ground arith in
    let middle = (validate_main-Plain.adds t).kept in
    let all = collect_items-CollectedAll unit.items s (ground arith) in
    (
      all.distinct,
      AllAccepted-Declared s t (λ x. AllBuiltin-listed s x builtin_names (installed floats bag))
          checked unit.items all.accepted,
    )
