-- ===== src/Diagnostic.antt =====
-- include/nexc/frontend/diagnostic.h and src/frontend/diagnostic.cpp: the bag of messages that a
-- compiler run collects. How it is printed is in Diagnostic/Render.antt.
pub mod Bag
pub mod Render
use nexc.Prelude.{Bool, true, false, ◌||◌, List, [], ◌∷◌, ◌++◌, Bytes}
use nexc.Source.{SourceSpan}

pub data DiagnosticSeverity : Type 0 where
  error warning note : DiagnosticSeverity

pub record Diagnostic : Type 0 where
  pub severity : DiagnosticSeverity
  pub message : Bytes
  pub span : SourceSpan

pub record DiagnosticBag : Type 0 where
  pub has_errors : Bool
  pub diagnostics : List Diagnostic

-- `severity == DiagnosticSeverity::Error`
abbrev pub is_error : DiagnosticSeverity → Bool
is_error DiagnosticSeverity.error = true
is_error _ = false

-- A new bag.
abbrev pub empty : DiagnosticBag
empty = record { has_errors = false; diagnostics = [] }

unfoldable pub add : DiagnosticBag → DiagnosticSeverity → SourceSpan → Bytes → DiagnosticBag
add bag severity span message = record {
  has_errors = is_error severity || bag.has_errors;
  diagnostics =
      bag.diagnostics ++ record { severity = severity; message = message; span = span } ∷ [];
}

unfoldable pub report_error : DiagnosticBag → SourceSpan → Bytes → DiagnosticBag
unfolding add
report_error bag span message = add bag DiagnosticSeverity.error span message

unfoldable pub report_warning : DiagnosticBag → SourceSpan → Bytes → DiagnosticBag
unfolding add
report_warning bag span message = add bag DiagnosticSeverity.warning span message

unfoldable pub report_note : DiagnosticBag → SourceSpan → Bytes → DiagnosticBag
unfolding add
report_note bag span message = add bag DiagnosticSeverity.note span message
