-- ===== src/Tests/Texts.antt =====
-- Source positions, diagnostics and string literals on small texts, and the theorems there.
use nexc.Prelude.{
  ◌+◌, ◌-◌, min, Bool, true, false, none, some, List, [], ◌∷◌, ◌++◌, ◌≡◌, refl, arith, Bytes, codes,
  length, take, drop,
}
use nexc.Source.{SourceSpan, source_file, slice, line_column}
use nexc.Source.Lines.{walk, line_column-walk}
use nexc.Source.Slices.{slice_inside, length-slice}
use nexc.Diagnostic.{Diagnostic, DiagnosticSeverity, empty, report_error}
use nexc.Diagnostic.Bag.{Report, report_all, recorded, any_error, report_all-empty}
use nexc.Diagnostic.Render.{
  find, rfind, line_start, line_end, print_diagnostics, print_diagnostic, decimal, severity_name,
}
use nexc.Diagnostic.Render.Caret.{Points, print_diagnostic-Points}
use nexc.StringLiteral.Decode.{
  decoded, malformed, unescape, decode_loop, decode_string_literal_content,
}
use nexc.StringLiteral.RoundTrip.{quoted, decode-quoted}
use nexc.StringLiteral.Format.{
  FormatParts, float_fixed, hex_lower, parsed, invalid, skip_digits, from_chars, precision_hole,
  digits_end, brace_cursor, try_precision, base_kind, try_base, attempt_at, format_loop,
  parse_format_string,
}
use nexc.StringLiteral.FormatShape.{AllHoles, parse_format_string-IsShaped}

abbrev text : Bytes
text = codes "ab\n\tcd\ne"

line_column_runs : line_column (source_file [] text) 5 ≡ record { line = 2; column = 3 }
unfolding line_column source_file
line_column_runs = refl

-- tests/golden/diagnostics/semantic_break_outside.stderr.txt
break_outside :
    let source =
      source_file
        (codes "tests/semantic_break_outside.nexs")
        (codes "fn main() -> void {\n    break;\n}\n") in
    print_diagnostics source (
      report_error empty
        (record { start = 24; end = 30 })
        (codes "`break` is only valid inside `while` or `for`"))
    ≡ codes
        "tests/semantic_break_outside.nexs:2:5: error: `break` is only valid inside `while` or `for`\n  |     break;\n  |     ^~~~~~\n"
unfolding print_diagnostics line_column source_file report_error line_start line_end find rfind
break_outside = refl

decode_runs :
    (decode_string_literal_content (codes "\"a\\tb\"") ≡ decoded (codes "a\tb"))
    × (decode_string_literal_content (codes "\"a\\\"")
        ≡ malformed "string literal ended inside an escape sequence" (codes "a"))
unfolding decode_string_literal_content decode_loop unescape
decode_runs = (refl, refl)

abbrev two_holes : FormatParts
two_holes = record {
  literals = codes "x=" ∷ codes ", " ∷ [] ∷ [];
  holes =
      record { kind = float_fixed; precision = some 2 }
      ∷ record { kind = hex_lower; precision = none }
      ∷ [];
}

-- The whole format parser, open.
format_parser : Bytes → Bool
unfolding parse_format_string format_loop attempt_at try_base base_kind try_precision precision_hole
    from_chars digits_end brace_cursor skip_digits
format_parser t = elim (parse_format_string t) [ parsed parts ↦ true | invalid message ↦ false ]

parse_format_string-two_holes : parse_format_string (codes "x={:.2f}, {:x}") ≡ parsed two_holes
unfolding format_parser
parse_format_string-two_holes = refl

precision_too_large : format_parser (codes "{:.19}") ≡ false
unfolding format_parser
precision_too_large = refl

line_column-walk_example : line_column (source_file [] text) 5 ≡ walk (min 5 (length text)) 1 1 text
line_column-walk_example = line_column-walk [] text 5

slice_inside_example :
    take 3 text ++ (slice (source_file [] text) (record { start = 3; end = 6 }) ++ drop 6 text)
    ≡ text
slice_inside_example = slice_inside [] text 3 6 (omega arith) (omega arith)

length-slice_example :
    length (slice (source_file [] text) (record { start = 3; end = 60 })) ≡ min 60 (length text) - 3
length-slice_example = length-slice [] text 3 60

abbrev reports : List Report
reports =
    record {
      severity = DiagnosticSeverity.note;
      span = record { start = 0; end = 1 };
      message = codes "n";
    }
    ∷ record {
      severity = DiagnosticSeverity.error;
      span = record { start = 1; end = 2 };
      message = codes "e";
    }
    ∷ []

report_all-empty_example :
    ((report_all empty reports).diagnostics ≡ recorded reports)
    × ((report_all empty reports).has_errors ≡ any_error (recorded reports))
report_all-empty_example = report_all-empty reports

abbrev span : SourceSpan
span = record { start = 5; end = 6 }

abbrev a_report : Diagnostic
a_report = record { severity = DiagnosticSeverity.error; span = span; message = codes "m" }

print_diagnostic-Points_example :
    let f = source_file [] text in
    let at = line_column f 5 in
    (printed : Bytes) × (print_diagnostic f a_report
      ≡ []
        ++ (codes ":"
            ++ (decimal at.line
                ++ (codes ":"
                    ++ (decimal at.column
                        ++ (codes ": "
                            ++ (codes (severity_name DiagnosticSeverity.error)
                                ++ (codes ": " ++ (codes "m" ++ (codes "\n" ++ printed))))))))))
    × Points text 5 6 at.column printed
print_diagnostic-Points_example =
    print_diagnostic-Points [] text a_report (omega arith) (omega arith)

decode-quoted_example :
    decode_string_literal_content (quoted (codes "a\"\n")) ≡ decoded (codes "a\"\n")
decode-quoted_example = decode-quoted (codes "a\"\n")

parse_format_string-IsShaped_example :
    (length two_holes.literals ≡ length two_holes.holes + 1) × AllHoles two_holes.holes
parse_format_string-IsShaped_example =
    parse_format_string-IsShaped (codes "x={:.2f}, {:x}") parse_format_string-two_holes
