-- ===== src/Semantic/Signatures.antt =====
-- The names and signatures of the items of a module that is accepted.
pub mod Entries
pub mod Collect
pub mod Module
use nexc.Prelude.{
  ◌≡◌, ◌≢◌, refl, sym, ap, subst, ◌∙◌, Bool, true, false, ◌||◌, Option, none, some, List, [], ◌∷◌,
  Bytes, same, same_iff, Bool-cases, ◌⊎◌, inl, inr, arith, codes,
}
use nexc.Syntax.{Item, function_decl, const_decl, ParameterSyntax, TypeSyntax, TranslationUnit, i32}
use nexc.Diagnostic.{DiagnosticBag}
use nexc.Semantic.Types.{
  SemanticType, is_pointer, is_void, is_fixed_array, type_from_syntax, is_empty,
}
use nexc.Semantic.Tables.{find}
use nexc.Semantic.State.{
  Analyzer, Analysis, FunctionSymbol, FloatLibrary, done, ◌>>=◌, ◌>>◌, lookup_function,
}
use nexc.Semantic.Operators.{require}
use nexc.Semantic.Items.{
  collect_item, collect_items, is_builtin_name, validate_main_if_present, is_main_type,
  analyze_items, install_builtins, start, analyze,
}
use nexc.Semantic.Reports.{Grows, Sound, Sound-bind, Sound-weaken, Sound-require}
use nexc.Semantic.Frame.Items.{collect_items-Plain}
use nexc.Semantic.Signatures.Entries.{find-assign-none}
use nexc.Semantic.Signatures.Collect.{
  NoPointers, types_of, Entered, name_of, Accepted, Collected, collect_item-Collected,
}

unfoldable pub listed : Bytes → List Bytes → Bool
listed x [] = false
listed x (y ∷ ys) = same y x || listed x ys

unfoldable pub Distinct : List Bytes → Type 0
Distinct [] = Unit {0}
Distinct (x ∷ xs) = (listed x xs ≡ false) × Distinct xs

unfoldable pub names_of : List Item → List Bytes
unfolding name_of
names_of [] = []
names_of (item ∷ items) = name_of item ∷ names_of items

unfoldable pub AllAccepted : List Item → Analyzer → Analyzer → Type 0
unfolding Accepted
AllAccepted [] s t = Unit {0}
AllAccepted (item ∷ items) s t = Accepted item s t × AllAccepted items s t

pub record CollectedAll (items : List Item) (s t : Analyzer) : Type 0 where
  pub distinct : Distinct (names_of items)
  fresh : (x : Bytes) → listed x (names_of items) ≡ true → find same x s.top_level_names ≡ none
  others :
      (x : Bytes)
      → listed x (names_of items) ≡ false
      → find same x t.functions ≡ find same x s.functions
  pub accepted : AllAccepted items s t

-- A signature, once it is entered, stands there as long as its name is not entered again.
Accepted-later :
    (item : Item) (s t u : Analyzer)
    → find same (name_of item) u.functions ≡ find same (name_of item) t.functions
    → Accepted item s t
    → Accepted item s u
unfolding Accepted name_of
Accepted-later (function_decl _ text _ ps result _) s t u e (user, plain, returned, entered) = (
  user,
  plain,
  returned,
  record {
    symbol = entered.symbol;
    found = e ∙ entered.found;
    parameters = entered.parameters;
    returned = entered.returned;
  },
)
Accepted-later (const_decl _ _ _ _ _) s t u e h = h

module _ (s t u : Analyzer)
    (builtins : (x : Bytes) → is_builtin_name s x ≡ true → is_builtin_name t x ≡ true) where
  Accepted-earlier : (item : Item) → Accepted item t u → Accepted item s u
  unfolding Accepted
  Accepted-earlier (function_decl _ text _ ps result _) (user, plain, returned, entered) = (
    elim (Bool-cases (is_builtin_name s text)) [
      | inl e ↦ absurd (let later = builtins text e in cc)
      | inr e ↦ e
    ],
    plain,
    returned,
    entered,
  )
  Accepted-earlier (const_decl _ _ _ _ _) h = h

  AllAccepted-earlier : (items : List Item) → AllAccepted items t u → AllAccepted items s u
  unfolding AllAccepted
  AllAccepted-earlier [] h = tt
  AllAccepted-earlier (item ∷ items) (h, hs) =
      (Accepted-earlier item h, AllAccepted-earlier items hs)

pub collect_items-CollectedAll :
    (items : List Item) (s : Analyzer)
    → (collect_items items s).1.diagnostics.has_errors ≡ false
    → CollectedAll items s (collect_items items s).1
unfolding collect_items ◌>>=◌ names_of AllAccepted Distinct listed
collect_items-CollectedAll [] s h = record {
  distinct = tt;
  fresh = λ x e. absurd cc;
  others = λ x e. refl;
  accepted = tt;
}
collect_items-CollectedAll (item ∷ items) s h =
    let t = (collect_item item s).1 in
    let grows = (collect_items-Plain items).adds t in
    let kept = grows.kept in
    let one = collect_item-Collected item s (ground arith) in
    let rest = collect_items-CollectedAll items t h in
    let once : listed (name_of item) (names_of items) ≡ false =
      elim (Bool-cases (listed (name_of item) (names_of items))) [
        | inl e ↦ absurd ((one.names (name_of item) (rest.fresh (name_of item) e)).0 refl)
        | inr e ↦ e
      ] in
    record {
      distinct = (once, rest.distinct);
      fresh = λ x e. elim (Bool-cases (same (name_of item) x)) [
        | inl p ↦
            let is = (same_iff (name_of item) x).0 p in
            subst (λ k. find same k s.top_level_names ≡ none) is one.fresh
        | inr p ↦ (one.names x (rest.fresh x (ground arith))).1
      ];
      others = λ x e.
          rest.others x (ground arith)
          ∙ one.others x (λ is. let p = (same_iff (name_of item) x).1 (sym is) in ground arith);
      accepted = (
        Accepted-later item s t _ (rest.others (name_of item) once) one.accepted,
        AllAccepted-earlier s t _ one.builtins items rest.accepted,
      );
    }

abbrev main_case : FunctionSymbol → Analysis (Unit {0})
main_case main = do
  require (is_empty main.parameter_types) main.name_span
      (codes "`main` must not have parameters" ∷ [])
  require (is_main_type main.return_type) main.name_span
      (codes "`main` must return `void` or `i32`" ∷ [])

abbrev on_main : Option FunctionSymbol → Analysis (Unit {0})
on_main o = elim o [ none ↦ done | some main ↦ main_case main ]

-- `main`, where it is found, has been checked.
main_case-Sound :
    (main : FunctionSymbol)
    → Sound
        (λ _. (is_empty main.parameter_types ≡ true) × (is_main_type main.return_type ≡ true))
        (main_case main)
main_case-Sound main =
    Sound-bind _ _ (Sound-require (is_empty main.parameter_types) _ _)
      λ _. Sound-weaken _ (λ _ second first. (first, second)) (Sound-require _ _ _)

found_main :
    (o : Option FunctionSymbol) (main : FunctionSymbol) (t : Analyzer)
    → o ≡ some main
    → (on_main o t).1.diagnostics.has_errors ≡ false
    → (is_empty main.parameter_types ≡ true) × (is_main_type main.return_type ≡ true)
found_main none main t e h = absurd cc
found_main (some m) main t e h =
    let is : m ≡ main = cc in
    subst
      (λ (k : FunctionSymbol).
        (is_empty k.parameter_types ≡ true) × (is_main_type k.return_type ≡ true))
      is ((main_case-Sound m t).holds h)

pub validate_main-checks :
    (main : FunctionSymbol) (t : Analyzer)
    → find same (codes "main") t.functions ≡ some main
    → (validate_main_if_present t).1.diagnostics.has_errors ≡ false
    → (is_empty main.parameter_types ≡ true) × (is_main_type main.return_type ≡ true)
unfolding validate_main_if_present ◌>>=◌ lookup_function
validate_main-checks main t e h = found_main (find same (codes "main") t.functions) main t e h
