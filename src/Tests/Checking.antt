-- ===== src/Tests/Checking.antt =====
-- The semantic analysis on small modules, and its theorems there.
pub mod Runs
use nexc.Prelude.{◌≤◌, ◌≡◌, ◌↔◌, refl, Bool, true, false, Option, none, some, codes, arith}
use nexc.Source.{SourceSpan}
use nexc.Diagnostic.{DiagnosticBag, empty}
use nexc.Token.{TokenKind, plus}
use nexc.Syntax.{
  Expr, integer_literal, bool_literal, name, binary, Stmt, Stmts, no_stmts, and_stmt, present, null,
  block, let_stmt, return_stmt, if_stmt, while_stmt, break_stmt, Item, function_decl, TypeSyntax,
  TranslationUnit, u8, i32, invalid, void,
}
use nexc.Semantic.Types.{SemanticType, builtin_scalar, is_integer, max_integer_value, bit_width}
use nexc.Semantic.State.{Analyzer, FloatLibrary, normal}
use nexc.Semantic.Constants.{value, fold_constant}
use nexc.Semantic.Expressions.{analyze_expr}
use nexc.Semantic.Statements.{analyze_stmt}
use nexc.Semantic.Items.{start, analyze}
use nexc.Semantic.Folding.{Calculates, fold_constant_iff}
use nexc.Semantic.Reports.{Quiet}
use nexc.Semantic.Fitting.{Fits}
use nexc.Semantic.Fitting.Expressions.{analyze_expr-Quiet, analyze_expr-Fits}
use nexc.Semantic.Frame.{Frame}
use nexc.Semantic.Frame.Statements.{analyze_stmt-Frame, block-scopes}
use nexc.Semantic.Returns.Items.{AllSettled, analyze-AllSettled}
use nexc.Diagnostic.Render.{decimal}
use nexc.Semantic.Constants.{parse_unsigned_integer}
use nexc.Semantic.Signatures.{Distinct, names_of}
use nexc.Semantic.Signatures.Module.{AllDeclared, analyze-Declared}
use nexc.Semantic.Numerals.{parse_unsigned_integer-decimal}
use nexc.Tests.Checking.Runs.{
  nowhere, floats, before, byte, sum, unknown_sum, inner_block, choice, integer_byte, byte_max,
  sum_accepted, choice_accepted,
}

fold_constant_iff_example :
    (fold_constant plus byte 200 55 ≡ value 255)
    ↔ (Calculates (bit_width byte) plus 200 55 255 × 255 ≤ max_integer_value byte)
fold_constant_iff_example =
    fold_constant_iff plus byte 200 55 255 integer_byte (omega (arith, byte_max))
      (omega (arith, byte_max))

analyze_expr-Quiet_example : Quiet before (analyze_expr unknown_sum none normal before).1
analyze_expr-Quiet_example = analyze_expr-Quiet unknown_sum none normal before

analyze_expr-Fits_example : Fits (analyze_expr sum (some byte) normal before).0
analyze_expr-Fits_example = analyze_expr-Fits sum (some byte) normal before sum_accepted

analyze_stmt-Frame_example : Frame before (analyze_stmt (block nowhere inner_block) before).1
analyze_stmt-Frame_example = analyze_stmt-Frame (block nowhere inner_block) before

block-scopes_example :
    ((analyze_stmt (block nowhere inner_block) before).1.scopes ≡ before.scopes)
    × ((analyze_stmt (block nowhere inner_block) before).1.scope_binding_ids
        ≡ before.scope_binding_ids)
block-scopes_example = block-scopes nowhere inner_block before

analyze-AllSettled_example : AllSettled choice.items
analyze-AllSettled_example = analyze-AllSettled floats choice empty choice_accepted

analyze-Declared_example : Distinct (names_of choice.items) × AllDeclared choice.items
analyze-Declared_example = analyze-Declared floats choice empty choice_accepted

parse_unsigned_integer-decimal_example : parse_unsigned_integer (decimal 65536) ≡ some 65536
parse_unsigned_integer-decimal_example = parse_unsigned_integer-decimal 65536 (omega arith)
