-- ===== src/Diagnostic/Bag.antt =====
-- The cached flag of `DiagnosticBag` against the messages that the bag holds.
use nexc.Prelude.{
  Bytes, Bool, false, ◌||◌, List, [], ◌∷◌, ◌++◌, Bytes, ◌≡◌, refl, sym, ◌∙◌, append-nil,
  append_assoc, arith,
}
use nexc.Source.{SourceSpan}
use nexc.Diagnostic.{
  DiagnosticSeverity, Diagnostic, DiagnosticBag, is_error, empty, add, report_error, report_warning,
  report_note,
}

abbrev pub any_error : List Diagnostic → Bool
any_error [] = false
any_error (d ∷ ds) = is_error d.severity || any_error ds

-- One call of `error`, `warning` or `note`.
pub record Report : Type 0 where
  pub severity : DiagnosticSeverity
  pub span : SourceSpan
  pub message : Bytes

pub report : DiagnosticSeverity → DiagnosticBag → SourceSpan → Bytes → DiagnosticBag
unfolding report_error report_warning report_note
report DiagnosticSeverity.error = report_error
report DiagnosticSeverity.warning = report_warning
report DiagnosticSeverity.note = report_note

report-eq-add :
    (s : DiagnosticSeverity) (bag : DiagnosticBag) (span : SourceSpan) (m : Bytes)
    → report s bag span m ≡ add bag s span m
unfolding report report_error
report-eq-add DiagnosticSeverity.error bag span m = refl
report-eq-add DiagnosticSeverity.warning bag span m = refl
report-eq-add DiagnosticSeverity.note bag span m = refl

pub report_all : DiagnosticBag → List Report → DiagnosticBag
unfolding report
report_all bag [] = bag
report_all bag (r ∷ rs) = report_all (report r.severity bag r.span r.message) rs

abbrev pub recorded : List Report → List Diagnostic
recorded [] = []
recorded (r ∷ rs) =
    record { severity = r.severity; message = r.message; span = r.span } ∷ recorded rs

any_error-append : (ds es : List Diagnostic) → any_error (ds ++ es) ≡ (any_error ds || any_error es)
any_error-append [] es = refl
any_error-append (d ∷ ds) es = ground (arith, any_error-append ds es)

pub add-any_error :
    (bag : DiagnosticBag) (s : DiagnosticSeverity) (span : SourceSpan) (m : Bytes)
    → bag.has_errors ≡ any_error bag.diagnostics
    → (add bag s span m).has_errors ≡ any_error (add bag s span m).diagnostics
unfolding add
add-any_error bag s span m h =
    let d : Diagnostic = record { severity = s; message = m; span = span } in
    ground (arith, any_error-append bag.diagnostics (d ∷ []))

report_all_lem :
    (rs : List Report) (bag : DiagnosticBag)
    → bag.has_errors ≡ any_error bag.diagnostics
    → ((report_all bag rs).diagnostics ≡ bag.diagnostics ++ recorded rs)
      × ((report_all bag rs).has_errors ≡ any_error (report_all bag rs).diagnostics)
unfolding report_all report_error report_warning report_note
report_all_lem [] bag h = (sym (append-nil bag.diagnostics), h)
report_all_lem (r ∷ rs) bag h =
    rw (report-eq-add r.severity bag r.span r.message, report_all)
      (let next = add bag r.severity r.span r.message in
        let (all, flag) =
          report_all_lem rs next (add-any_error bag r.severity r.span r.message h) in
        (all ∙ unfold add in append_assoc bag.diagnostics _ (recorded rs), flag))

-- A run that starts with an empty bag keeps every message, in the order of the calls, and its flag
-- is set exactly when one of them is an error.
pub report_all-empty :
    (rs : List Report)
    → ((report_all empty rs).diagnostics ≡ recorded rs)
      × ((report_all empty rs).has_errors ≡ any_error (recorded rs))
report_all-empty rs = let (all, flag) = report_all_lem rs empty refl in (all, rw all at flag)
