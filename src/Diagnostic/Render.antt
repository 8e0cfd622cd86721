-- ===== src/Diagnostic/Render.antt =====
-- How a diagnostic is printed: the source line that holds its span, and a caret under the first
-- byte of the span. Offsets are `std::size_t`, so a difference wraps round at 2 ^ 64.
pub mod Position
pub mod Newlines
pub mod Caret
use nexc.Prelude.{
  ℕ, zero, suc, ◌+◌, ◌-◌, ◌/◌, ◌%◌, ◌^◌, min, max, Bool, Option, none, some, List, [], ◌∷◌, ◌++◌,
  String, length, get_or, Bytes, codes, ltb, ◌==◌, if◌then◌else◌,
}
use nexc.Source.{SourceSpan, SourceFile, LineColumn, size, substr, line_column}
use nexc.Diagnostic.{DiagnosticSeverity, Diagnostic, DiagnosticBag}

unfoldable pub severity_name : DiagnosticSeverity → String
severity_name DiagnosticSeverity.error = "error"
severity_name DiagnosticSeverity.warning = "warning"
severity_name DiagnosticSeverity.note = "note"

abbrev pub shift : Option ℕ → Option ℕ
shift none = none
shift (some j) = some (suc j)

-- `std::string_view::find`: the first place at or behind `pos` that holds `c`.
unfoldable pub find : ℕ → Bytes → ℕ → Option ℕ
find c [] pos = none
find c (x ∷ xs) zero = let later = shift (find c xs zero) in if x == c then some 0 else later
find c (x ∷ xs) (suc pos) = shift (find c xs pos)

-- `std::string_view::rfind`: the last place at or before `pos` that holds `c`.
unfoldable pub rfind : ℕ → Bytes → ℕ → Option ℕ
rfind c [] pos = none
rfind c (x ∷ xs) zero = if x == c then some 0 else none
rfind c (x ∷ xs) (suc pos) = elim (rfind c xs pos) [
  | some j ↦ some (suc j)
  | none ↦ if x == c then some 0 else none
]

unfoldable pub line_start : Bytes → ℕ → ℕ
line_start text offset = elim (rfind b'\n' text (min offset (length text))) [
  | none ↦ 0
  | some newline ↦ newline + 1
]

unfoldable pub line_end : Bytes → ℕ → ℕ
line_end text offset = elim (find b'\n' text (min offset (length text))) [
  | none ↦ length text
  | some newline ↦ newline
]

-- `a - b` of two `std::size_t`.
abbrev pub size_sub : ℕ → ℕ → ℕ
size_sub a b = (a + 2 ^ 64 - b) % 2 ^ 64

-- The locals of `printSourceLine` that its output is made of.
pub record SourceLine : Type 0 where
  pub line : Bytes
  pub caret_column : ℕ
  pub underline_width : ℕ

unfoldable pub source_line : SourceFile → SourceSpan → SourceLine
source_line f span =
    let start = min span.start (size f) in
    let line_start_offset = line_start f.text start in
    let line_end_offset = line_end f.text start in
    let raw_end = min span.end line_end_offset in
    record {
      line = substr f.text line_start_offset (size_sub line_end_offset line_start_offset);
      caret_column = size_sub start line_start_offset;
      underline_width = max 1 (if ltb start raw_end then raw_end - start else 1);
    }

-- The loop over the bytes in front of the caret: tabs stay tabs, all else becomes a space.
unfoldable pub padding : Bytes → ℕ → ℕ → Bytes
padding line i zero = []
padding line i (suc n) = (if get_or line i 0 == b'\t' then b'\t' else b' ') ∷ padding line (i + 1) n

unfoldable pub tildes : ℕ → Bytes
tildes zero = []
tildes (suc n) = b'~' ∷ tildes n

unfoldable pub print_source_line : SourceFile → SourceSpan → Bytes
unfolding source_line padding tildes
print_source_line f span =
    let at = source_line f span in
    codes "  | "
    ++ (at.line
        ++ (codes "\n  | "
            ++ (padding at.line 0 at.caret_column
                ++ (codes "^" ++ (tildes (at.underline_width - 1) ++ codes "\n")))))

-- `<<` of a number in decimal: `fuel` bounds the number of digits, in front of `rest`.
unfoldable pub decimal_onto : ℕ → ℕ → Bytes → Bytes
decimal_onto zero n rest = rest
decimal_onto (suc fuel) n rest =
    let digits = (b'0' + n % 10) ∷ rest in
    let more = decimal_onto fuel (n / 10) digits in if ltb n 10 then digits else more

abbrev pub decimal : ℕ → Bytes
decimal n = decimal_onto 20 n []

unfoldable pub print_diagnostic : SourceFile → Diagnostic → Bytes
unfolding print_source_line severity_name decimal_onto
print_diagnostic f d =
    let location = line_column f d.span.start in
    f.path
    ++ (codes ":"
        ++ (decimal location.line
            ++ (codes ":"
                ++ (decimal location.column
                    ++ (codes ": "
                        ++ (codes (severity_name d.severity)
                            ++ (codes ": "
                                ++ (d.message ++ (codes "\n" ++ print_source_line f d.span)))))))))

unfoldable pub print_each : SourceFile → List Diagnostic → Bytes
unfolding print_diagnostic
print_each f [] = []
print_each f (d ∷ ds) = print_diagnostic f d ++ print_each f ds

unfoldable pub print_diagnostics : SourceFile → DiagnosticBag → Bytes
unfolding print_each
print_diagnostics f bag = print_each f bag.diagnostics
