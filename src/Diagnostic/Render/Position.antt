-- ===== src/Diagnostic/Render/Position.antt =====
-- Where the caret of `printSourceLine` stands, against `SourceFile::lineColumn`.
use nexc.Prelude.{
  ℕ, zero, suc, ◌+◌, ◌^◌, ◌≤◌, ◌<◌, min, Option, none, some, [], ◌∷◌, ◌≡◌, ◌≢◌, refl, arith, length,
  get_or, Bytes, ◌==◌, Bool-cases, inl, inr,
}
use nexc.Source.{SourceSpan, line_starts_from, source_file, upper_bound, line_column}
use nexc.Source.Lines.{upper_bound-line_starts_from, get_or-upper_bound-le}
use nexc.Diagnostic.Render.{rfind, line_start, source_line}

abbrev start_after : ℕ → Option ℕ → ℕ → ℕ
start_after i none s = s
start_after i (some j) s = i + j + 1

-- Searching back for a newline finds the line start that the table holds.
rfind-upper_bound :
    (p i s x : ℕ) (cs : Bytes)
    → x ≡ i + p
    → p ≤ length cs
    → get_or cs p 0 ≢ b'\n'
    → get_or (s ∷ line_starts_from i cs) (upper_bound (line_starts_from i cs) x) 0
      ≡ start_after i (rfind b'\n' cs p) s
unfolding upper_bound line_starts_from rfind
rfind-upper_bound p i s x [] e l h = refl
rfind-upper_bound zero i s x (c ∷ cs) e l h =
    ground (arith, upper_bound-line_starts_from cs (suc i) x)
rfind-upper_bound (suc p) i s x (c ∷ cs) e l h = elim (Bool-cases (c == b'\n')) [
  | inl newline ↦
      ground (arith, rfind-upper_bound p (suc i) (suc i) x cs (omega arith) (omega arith) h)
  | inr other ↦ ground (arith, rfind-upper_bound p (suc i) s x cs (omega arith) (omega arith) h)
]

-- Under a byte that is no newline the caret stands in the column that the message's header names,
-- counted from 0 on the printed line.
pub caret_column-line_column :
    (path text : Bytes) (span : SourceSpan)
    → length text < 2 ^ 64
    → get_or text (min span.start (length text)) 0 ≢ b'\n'
    → let f = source_file path text in
      (source_line f span).caret_column + 1 ≡ (line_column f span.start).column
unfolding source_line source_file line_column line_start upper_bound
caret_column-line_column path text span l h =
    let x = min span.start (length text) in
    let starts = line_starts_from 0 text in
    let same_column : min x (length text) ≡ x = omega arith in
    ground (
      arith,
      rfind-upper_bound x 0 0 x text (omega arith) (omega arith) h,
      get_or-upper_bound-le starts 0 x,
    )
