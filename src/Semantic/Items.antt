-- ===== src/Semantic/Items.antt =====
-- The pass over a file: builtins, signatures, constants and functions.
use nexc.Prelude.{Bool, true, false, not, ◌||◌, none, some, List, [], ◌∷◌, Bytes, codes, same}
use nexc.Source.{SourceSpan}
use nexc.Diagnostic.{DiagnosticBag}
use nexc.Syntax.{
  Expr, expr_span, Stmt, ParameterSyntax, TypeSyntax, Item, function_decl, const_decl,
  TranslationUnit, i32, u64, bool, str, void,
}
use nexc.Semantic.Types.{
  SemanticType, builtin_scalar, no_type, is_void, is_pointer, is_fixed_array, same_kind, same_type,
  type_name, type_from_syntax, is_empty,
}
use nexc.Semantic.Tables.{find, assign}
use nexc.Semantic.State.{
  Analysis, Analyzer, FloatLibrary, FunctionSymbol, normal, ◌>>=◌, ◌>>◌, pure, done, gets, modify,
  branch, when, error, note, push_scope, lookup_function,
}
use nexc.Semantic.Scopes.{pop_scope, declare_local, mark_definite_assigned}
use nexc.Semantic.Operators.{require}
use nexc.Semantic.Expressions.{analyze_expr}
use nexc.Semantic.Locals.{validate_fixed_array_decl, validate_pointer_decl}
use nexc.Semantic.Statements.{analyze_stmt}

abbrev pub builtin : List SemanticType → SemanticType → FunctionSymbol
builtin parameters return_type = record {
  name_span = record { start = 0; end = 0 };
  parameter_types = parameters;
  return_type = return_type;
  is_builtin = true;
}

abbrev str_type : SemanticType
str_type = builtin_scalar str

abbrev pub add_function : Bytes → FunctionSymbol → Analyzer → Analyzer
add_function text symbol s = record s { functions = assign same text symbol s.functions }

unfoldable pub install_builtins : Analyzer → Analyzer
install_builtins s = add_function (codes "input_ok") (builtin [] (builtin_scalar bool)) (
    add_function (codes "parse_bool") (builtin (str_type ∷ []) (builtin_scalar bool)) (
      add_function (codes "parse_u64") (builtin (str_type ∷ []) (builtin_scalar u64)) (
        add_function (codes "parse_i32") (builtin (str_type ∷ []) (builtin_scalar i32)) (
          add_function (codes "readln") (builtin [] str_type) (
            add_function (codes "println") (builtin [] (builtin_scalar void))
              (add_function (codes "print") (builtin [] (builtin_scalar void)) s))))))

unfoldable pub declare_top_level : Bytes → SourceSpan → Analysis (Unit {0})
declare_top_level text span = do
  declared ← gets λ s. find same text s.top_level_names
  elim declared [
    | some previous ↦ (do
      error span (codes "duplicate top-level name `" ∷ text ∷ codes "`" ∷ [])
      note previous (codes "previous declaration of `" ∷ text ∷ codes "` is here" ∷ []))
    | none ↦ modify λ s. record s { top_level_names = assign same text span s.top_level_names }
  ]

-- The checks of a type in a signature.
unfoldable pub validate_decl : TypeSyntax → Bytes → Analysis SemanticType
validate_decl syntax message = do
  let type = type_from_syntax syntax
  validate_fixed_array_decl type syntax.span
  validate_pointer_decl type syntax.span
  when (is_pointer type) (error syntax.span (message ∷ []))
  pure type

unfoldable pub collect_parameters : List ParameterSyntax → Analysis (List SemanticType)
collect_parameters [] = pure []
collect_parameters (parameter ∷ parameters) = do
  type ← validate_decl parameter.type (codes "pointer parameters are not implemented yet")
  types ← collect_parameters parameters
  pure (type ∷ types)

abbrev pub is_builtin_name : Analyzer → Bytes → Bool
is_builtin_name s text = elim (lookup_function s text) [
  | none ↦ false
  | some symbol ↦ symbol.is_builtin
]

unfoldable pub collect_item : Item → Analysis (Unit {0})
collect_item (function_decl span text name_span parameters return_type body) = do
  declare_top_level text name_span
  taken ← gets λ s. is_builtin_name s text
  branch taken
      (error name_span (codes "cannot redefine built-in function `" ∷ text ∷ codes "`" ∷ []))
      (do
        types ← collect_parameters parameters
        result ← validate_decl return_type (codes "pointer return types are not implemented yet")
        modify (
            add_function text (record {
              name_span = name_span;
              parameter_types = types;
              return_type = result;
              is_builtin = false;
            })))
collect_item (const_decl span text name_span type init) = do
  declare_top_level text name_span
  const_type ← validate_decl type (codes "module const pointers are not implemented yet")
  modify λ s. record s {
    globals =
        assign same text
          (record {
            type = const_type;
            is_mutable = false;
            is_const = true;
            name_span = name_span;
            binding_id = 0;
          })
          s.globals;
  }

unfoldable pub collect_items : List Item → Analysis (Unit {0})
collect_items [] = done
collect_items (item ∷ items) = do collect_item item; collect_items items

abbrev pub is_main_type : SemanticType → Bool
is_main_type t = is_void t || not (is_fixed_array t || not (same_kind t.kind i32))

unfoldable pub validate_main_if_present : Analysis (Unit {0})
validate_main_if_present = do
  found ← gets λ s. lookup_function s (codes "main")
  elim found [
    | none ↦ done
    | some main ↦ (do
      require (is_empty main.parameter_types) main.name_span
          (codes "`main` must not have parameters" ∷ [])
      require (is_main_type main.return_type) main.name_span
          (codes "`main` must return `void` or `i32`" ∷ []))
  ]

unfoldable pub analyze_const_decl : Bytes → TypeSyntax → Expr → Analysis (Unit {0})
analyze_const_decl text syntax init = do
  let type = type_from_syntax syntax
  i ← analyze_expr init (some type) normal
  require (same_type type i.type) (expr_span init) (
      codes "cannot initialize constant `"
      ∷ text
      ∷ codes "` of type `"
      ∷ type_name type
      ∷ codes "` with value of type `"
      ∷ type_name i.type
      ∷ codes "`"
      ∷ [])
  require i.is_constant (expr_span init)
      (codes "constant initializer for `" ∷ text ∷ codes "` must be compile-time evaluable" ∷ [])

-- The state of a function starts anew; `arrayElemAssign_` is left as it is.
unfoldable pub enter_function : SemanticType → Analyzer → Analyzer
enter_function return_type s = push_scope (record s {
  current_return_type = return_type;
  saw_return_value = false;
  scopes = [];
  definite_assign = [];
  def_assign_reasons = [];
  scope_binding_ids = [];
  next_binding_id = 1;
})

unfoldable pub declare_parameters : List ParameterSyntax → Analysis (Unit {0})
declare_parameters [] = done
declare_parameters (parameter ∷ parameters) = do
  id ← declare_local parameter.name parameter.name_span (type_from_syntax parameter.type) false
  mark_definite_assigned id
  declare_parameters parameters

unfoldable pub analyze_function :
    Bytes → SourceSpan → List ParameterSyntax → TypeSyntax → Stmt → Analysis (Unit {0})
analyze_function text name_span parameters syntax body = do
  let return_type = type_from_syntax syntax
  modify (enter_function return_type)
  declare_parameters parameters
  all_paths_return ← analyze_stmt body
  require (is_void return_type || all_paths_return) name_span (
      codes "not all paths in function `"
      ∷ text
      ∷ codes "` return a value of type `"
      ∷ type_name return_type
      ∷ codes "`"
      ∷ [])
  modify pop_scope

unfoldable pub analyze_item : Item → Analysis (Unit {0})
analyze_item (const_decl span text name_span type init) = analyze_const_decl text type init
analyze_item (function_decl span text name_span parameters return_type body) =
    analyze_function text name_span parameters return_type body

unfoldable pub analyze_items : List Item → Analysis (Unit {0})
analyze_items [] = done
analyze_items (item ∷ items) = do analyze_item item; analyze_items items

abbrev pub start : FloatLibrary → DiagnosticBag → Analyzer
start floats bag = record {
  floats = floats;
  diagnostics = bag;
  loop_depth = 0;
  in_for_step_clause = false;
  top_level_names = [];
  functions = [];
  globals = [];
  scopes = [];
  definite_assign = [];
  def_assign_reasons = [];
  array_elem_assign = [];
  scope_binding_ids = [];
  next_binding_id = 1;
  current_return_type = no_type;
  saw_return_value = false;
}

-- `SemanticAnalyzer::analyze`: the bag with the messages of the run.
unfoldable pub analyze : FloatLibrary → TranslationUnit → DiagnosticBag → DiagnosticBag
analyze floats unit bag =
    let run = (do collect_items unit.items; validate_main_if_present; analyze_items unit.items) in
    (run (install_builtins (start floats bag))).1.diagnostics
