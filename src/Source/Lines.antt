-- ===== src/Source/Lines.antt =====
-- `SourceFile::lineColumn` against a walk over the bytes before the offset.
use nexc.Prelude.{
  ℕ, zero, suc, ◌+◌, ◌-◌, ◌≤◌, min, [], ◌∷◌, ◌≡◌, refl, inl, inr, arith, List, length, get_or,
  Bytes, ◌==◌, ltb, if◌then◌else◌, Bool-cases,
}
use nexc.Source.{LineColumn, line_starts_from, source_file, upper_bound, line_column}

-- Reading `k` bytes from a line and a column: a newline starts the next line.
abbrev pub walk : ℕ → ℕ → ℕ → Bytes → LineColumn
walk zero line column cs = record { line = line; column = column }
walk (suc k) line column [] = record { line = line; column = column }
walk (suc k) line column (c ∷ cs) =
    if c == b'\n' then walk k (line + 1) 1 cs else walk k line (column + 1) cs

-- All the line starts behind offset `i` lie above it.
pub upper_bound-line_starts_from :
    (cs : Bytes) (i x : ℕ) → x ≤ i → upper_bound (line_starts_from i cs) x ≡ 0
unfolding upper_bound line_starts_from
upper_bound-line_starts_from [] i x h = refl
upper_bound-line_starts_from (c ∷ cs) i x h =
    ground (arith, upper_bound-line_starts_from cs (suc i) x)

-- `s` is the start of the line at `i`, and `x` the offset that the walk reaches.
walk_lem :
    (k i s x line column : ℕ) (cs : Bytes)
    → s ≤ i
    → k ≤ length cs
    → x ≡ i + k
    → column ≡ i - s + 1
    → walk k line column cs ≡ record {
      line = line + upper_bound (line_starts_from i cs) x;
      column = x - get_or (s ∷ line_starts_from i cs) (upper_bound (line_starts_from i cs) x) 0 + 1;
    }
unfolding upper_bound line_starts_from
walk_lem zero i s x line column cs h l e f = ground (arith, upper_bound-line_starts_from cs i x)
walk_lem (suc k) i s x line column [] h l e f = absurd (omega arith)
walk_lem (suc k) i s x line column (c ∷ cs) h l e f = elim (Bool-cases (c == b'\n')) [
  | inl newline ↦ rw newline (ground (arith, walk_lem k (suc i) (suc i) x (line + 1) 1 cs))
  | inr other ↦ rw other (
      walk_lem k (suc i) s x line (column + 1) cs (omega arith) (omega arith) (omega arith)
        (omega arith))
]

-- The line and column of an offset are those that a walk over the bytes before it reaches, from
-- line 1 and column 1; an offset behind the end counts as the end.
pub line_column-walk :
    (path text : Bytes) (offset : ℕ)
    → line_column (source_file path text) offset ≡ walk (min offset (length text)) 1 1 text
unfolding line_column source_file upper_bound
line_column-walk path text offset =
    ground (arith, walk_lem (min offset (length text)) 0 0 (min offset (length text)) 1 1 text)

pub get_or-upper_bound-le :
    (starts : List ℕ) (s x : ℕ) → s ≤ x → get_or (s ∷ starts) (upper_bound starts x) 0 ≤ x
unfolding upper_bound
get_or-upper_bound-le [] s x h = h
get_or-upper_bound-le (t ∷ starts) s x h = elim (Bool-cases (ltb x t)) [
  | inl above ↦ rw above h
  | inr below ↦ rw below (get_or-upper_bound-le starts t x (ground arith))
]
