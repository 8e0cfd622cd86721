-- ===== src/Tests/Checking/Runs.antt =====
-- Small modules, and what the analyzer makes of them.
use nexc.Prelude.{◌<◌, ◌^◌, none, arith, ◌≡◌, refl, Bool, true, false, some, [], ◌∷◌, codes, same}
use nexc.Source.{SourceSpan}
use nexc.Diagnostic.{empty, report_error, report_note, add}
use nexc.Token.{plus, ordinal}
use nexc.Syntax.{
  Expr, integer_literal, bool_literal, binary, expr_span, Stmt, Stmts, no_stmts, and_stmt, present,
  block, let_stmt, return_stmt, if_stmt, while_stmt, stmt_span, function_decl, TypeSyntax,
  TranslationUnit, BuiltinTypeKind, u8, invalid,
}
use nexc.Parser.Types.{numeral}
use nexc.Semantic.Types.{
  join, builtin_type_name, kind_ordinal, is_invalid, is_void, is_bool, is_string, is_fixed_array,
  is_pointer, pointee_type, after_index, element_scalar_type, is_integer_kind, is_integer, is_float,
  same_dimensions, same_type, bracketed, starred, type_name, type_from_syntax,
  has_explicit_type_syntax, can_be_condition, width_of_kind, bit_width, is_signed_kind, is_signed,
  max_integer_value, product_from, flat_element_count_ranked, SemanticType, builtin_scalar,
}
use nexc.Semantic.Tables.{find, erase, assign, contains, remove, insert, intersect_def_assign}
use nexc.Semantic.State.{
  ◌>>=◌, branch, error, note, lookup_in, lookup_value, lookup_function, push_scope, Analyzer,
  FloatLibrary, normal,
}
use nexc.Semantic.Scopes.{
  forget_ids, pop_scope, declare_local, remember_def_assign_reason, mark_definite_assigned,
  note_def_assign_reason, vector_all_ones, require_readable_local, repeat, set_mask,
  init_array_elem_tracking, mark_array_fully_assigned,
}
use nexc.Semantic.Elements.{
  indices_inside, offset_from, const_indices_to_flat_offset, flat_offset_for_prefix_indices,
  known_index, known_indices, unknown_span, set_true, mark_element, note_known_store,
  note_indexed_store_to_local, marked_from, require_element, require_indexed_scalar_readable,
  require_slice, require_sub_array_slice_readable,
}
use nexc.Semantic.Merge.{
  band_masks, mask_or_full, merge_definite_assign_after_if, note_losses, union_ids,
  note_if_def_assign_losses, note_loop_def_assign_losses, type_in_scope,
  lookup_local_type_by_binding_id, array_type_of, promote_full_masks, not_definite,
  assign_array_map, keys, array_ids, collect_array_candidates, any_one, merge_candidate,
  merge_candidates, merge_two_way_maps, merge_array_elem_assign_after_if,
}
use nexc.Semantic.Constants.{
  parse_unsigned_integer, parse_finite_float_literal, check_integer_literal_range, fold_constant,
  report_folded, constant_operands, analyze_constant_arithmetic,
}
use nexc.Semantic.Operators.{
  strip_parens, address_of, analyze_unary_expr, truth, fold_logical, logical_info, analyze_logical,
  operator_class, require_numbers, require_integers, operand_checks, binary_result, analyze_strict,
  analyze_binary_expr,
}
use nexc.Semantic.Calls.{
  length_exprs, peel_indexed_name_chain, undefined_value, analyze_name, check_index,
  require_chain_readable, check_format_argument, read_format, check_placeholder_count,
  check_argument_count, check_argument, inferred_array,
}
use nexc.Semantic.Expressions.{
  analyze_integer_literal, analyze_float_literal, index_step, analyze_chain, analyze_indexed_value,
  call_rule, format_rule, typed_array, analyze_expr, analyze_indices, analyze_each,
  analyze_arguments, analyze_format_print_call, analyze_format_arguments, analyze_elements,
  analyze_inferred_array,
}
use nexc.Semantic.Locals.{
  validate_fixed_array_decl, validate_pointer_decl, analyze_condition, analyze_return,
  analyze_uninitialized_let, check_inferred, declare_initialized, analyze_initialized_let,
  analyze_let,
}
use nexc.Semantic.Stores.{
  assign_name, assign_element, assign_indexed, assign_dereferenced, analyze_assign,
}
use nexc.Semantic.Statements.{
  restore_flow, join_arms, if_rule, leave_loop, analyze_break, analyze_continue, analyze_call_stmt,
  while_rule, for_rule, block_rule, analyze_stmt, analyze_stmts, analyze_branch, analyze_step,
}
use nexc.Semantic.Items.{
  install_builtins, declare_top_level, validate_decl, collect_parameters, collect_item,
  collect_items, validate_main_if_present, analyze_const_decl, enter_function, declare_parameters,
  analyze_function, analyze_item, analyze_items, analyze, start,
}
use nexc.Semantic.Offsets.{volume}

abbrev pub nowhere : SourceSpan
nowhere = record { start = 0; end = 0 }

-- No test has a floating-point literal.
abbrev pub floats : FloatLibrary
floats = record {
  strtof = λ text. record { consumed = 0; range_error = false; is_finite = true };
  strtod = λ text. record { consumed = 0; range_error = false; is_finite = true };
}

abbrev pub before : Analyzer
before = start floats empty

abbrev pub byte : SemanticType
byte = builtin_scalar u8

-- `200 + 55`
abbrev pub sum : Expr
sum =
    binary nowhere (integer_literal nowhere (codes "200")) plus
      (integer_literal nowhere (codes "55"))

-- `200 + x`
abbrev pub unknown_sum : Expr
unknown_sum =
    binary nowhere (integer_literal nowhere (codes "200")) plus (Expr.name nowhere (codes "x"))

abbrev written : BuiltinTypeKind → TypeSyntax
written kind = record { kind = kind; array_dimensions = []; pointer_depth = 0; span = nowhere }

-- `let x = 1;`
abbrev pub inner_block : Stmts
inner_block =
    and_stmt
      (let_stmt nowhere false (codes "x") nowhere (written invalid)
        (some (integer_literal nowhere (codes "1"))))
      no_stmts

abbrev return_of : Expr → Stmt
return_of e = block nowhere (and_stmt (return_stmt nowhere (some e)) no_stmts)

-- `fn f() -> u8 { if true { return 1; } else { return 200 + 55; } }`
abbrev pub choice : TranslationUnit
choice = record {
  items =
      function_decl nowhere (codes "f") nowhere [] (written u8) (
        block nowhere (
          and_stmt
            (if_stmt nowhere (bool_literal nowhere true)
              (present (return_of (integer_literal nowhere (codes "1")))) (present (return_of sum)))
            no_stmts))
      ∷ [];
}

-- `fn f() -> u8 { while true { return 1; } }`
abbrev loop_only : TranslationUnit
loop_only = record {
  items =
      function_decl nowhere (codes "f") nowhere [] (written u8) (
        block nowhere (
          and_stmt
            (while_stmt nowhere (bool_literal nowhere true)
              (present (return_of (integer_literal nowhere (codes "1")))))
            no_stmts))
      ∷ [];
}

-- Whether the analysis of a module reports an error; the line lists what the analyzer calls.
has_errors : TranslationUnit → Bool
unfolding join builtin_type_name kind_ordinal is_invalid is_void is_bool is_string is_fixed_array
    is_pointer pointee_type after_index element_scalar_type is_integer_kind is_integer is_float
    same_dimensions same_type bracketed starred type_name type_from_syntax has_explicit_type_syntax
    can_be_condition width_of_kind bit_width is_signed_kind is_signed max_integer_value product_from
    flat_element_count_ranked find erase assign contains remove insert intersect_def_assign ◌>>=◌
    branch error note lookup_in lookup_value lookup_function push_scope forget_ids pop_scope
    declare_local remember_def_assign_reason mark_definite_assigned note_def_assign_reason
    vector_all_ones require_readable_local repeat set_mask init_array_elem_tracking
    mark_array_fully_assigned indices_inside offset_from const_indices_to_flat_offset
    flat_offset_for_prefix_indices known_index known_indices unknown_span set_true mark_element
    note_known_store note_indexed_store_to_local marked_from require_element
    require_indexed_scalar_readable require_slice require_sub_array_slice_readable band_masks
    mask_or_full merge_definite_assign_after_if note_losses union_ids note_if_def_assign_losses
    note_loop_def_assign_losses type_in_scope lookup_local_type_by_binding_id array_type_of
    promote_full_masks not_definite assign_array_map keys array_ids collect_array_candidates any_one
    merge_candidate merge_candidates merge_two_way_maps merge_array_elem_assign_after_if
    parse_unsigned_integer parse_finite_float_literal check_integer_literal_range fold_constant
    report_folded constant_operands analyze_constant_arithmetic strip_parens address_of
    analyze_unary_expr truth fold_logical logical_info analyze_logical operator_class
    require_numbers require_integers operand_checks binary_result analyze_strict analyze_binary_expr
    length_exprs peel_indexed_name_chain undefined_value analyze_name check_index
    require_chain_readable check_format_argument read_format check_placeholder_count
    check_argument_count check_argument inferred_array analyze_integer_literal analyze_float_literal
    index_step analyze_chain analyze_indexed_value call_rule format_rule typed_array analyze_expr
    analyze_indices analyze_each analyze_arguments analyze_format_print_call
    analyze_format_arguments analyze_elements analyze_inferred_array validate_fixed_array_decl
    validate_pointer_decl analyze_condition analyze_return analyze_uninitialized_let check_inferred
    declare_initialized analyze_initialized_let analyze_let assign_name assign_element
    assign_indexed assign_dereferenced analyze_assign restore_flow join_arms if_rule leave_loop
    analyze_break analyze_continue analyze_call_stmt while_rule for_rule block_rule analyze_stmt
    analyze_stmts analyze_branch analyze_step install_builtins declare_top_level validate_decl
    collect_parameters collect_item collect_items validate_main_if_present analyze_const_decl
    enter_function declare_parameters analyze_function analyze_item analyze_items analyze
    report_error report_note add expr_span stmt_span same ordinal numeral
has_errors unit = (analyze floats unit empty).has_errors

pub integer_byte : is_integer byte ≡ true
unfolding is_integer is_integer_kind is_fixed_array is_pointer
integer_byte = refl

pub byte_max : max_integer_value byte ≡ 255
unfolding max_integer_value bit_width is_signed is_fixed_array width_of_kind is_signed_kind
    element_scalar_type
byte_max = refl

pub sum_accepted : (analyze_expr sum (some byte) normal before).1.diagnostics.has_errors ≡ false
unfolding has_errors
sum_accepted = refl

pub choice_accepted : (analyze floats choice empty).has_errors ≡ false
unfolding has_errors
choice_accepted = refl

-- The conditions are not looked at: a loop may run no time.
loop_refused : (analyze floats loop_only empty).has_errors ≡ true
unfolding has_errors
loop_refused = refl

-- A literal above the range of 64 bits passes the range check.
huge_literal :
    (analyze_expr
      (integer_literal nowhere (codes "99999999999999999999"))
      (some byte)
      normal
      before).1.diagnostics.has_errors
    ≡ false
unfolding has_errors
huge_literal = refl

-- `[[u8; 3]; 2]`
abbrev pub grid : SemanticType
grid = record { kind = u8; array_dimensions = 2 ∷ 3 ∷ []; pointer_depth = 0 }

pub grid_volume : volume grid.array_dimensions < 2 ^ 64
unfolding volume
grid_volume = omega arith

pub last_element : const_indices_to_flat_offset grid (1 ∷ 2 ∷ []) ≡ some 5
unfolding has_errors
last_element = refl

pub fourth_element : const_indices_to_flat_offset grid (1 ∷ 0 ∷ []) ≡ some 3
unfolding has_errors
fourth_element = refl

outside : const_indices_to_flat_offset grid (1 ∷ 3 ∷ []) ≡ none
unfolding has_errors
outside = refl
