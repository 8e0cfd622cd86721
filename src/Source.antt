-- ===== src/Source.antt =====
-- include/nexc/frontend/source.h and src/frontend/source.cpp: an input file, byte ranges into it,
-- and the line and column of an offset.
pub mod Lines
pub mod Slices
use nexc.Prelude.{
  ℕ, suc, ◌+◌, ◌-◌, min, ◌||◌, List, [], ◌∷◌, length, get_or, take, drop, Bytes, ltb, ◌==◌,
  if◌then◌else◌,
}

-- A half-open byte range, [start, end).
pub record SourceSpan : Type 0 where
  pub start : ℕ
  pub end : ℕ

pub record LineColumn : Type 0 where
  pub line : ℕ
  pub column : ℕ

pub record SourceFile : Type 0 where
  pub path : Bytes
  pub text : Bytes
  pub line_starts : List ℕ

abbrev pub size : SourceFile → ℕ
size f = length f.text

-- The constructor's loop from offset `i` on: one entry behind each newline byte.
unfoldable pub line_starts_from : ℕ → Bytes → List ℕ
line_starts_from i [] = []
line_starts_from i (c ∷ cs) =
    if c == b'\n' then suc i ∷ line_starts_from (suc i) cs else line_starts_from (suc i) cs

unfoldable pub source_file : Bytes → Bytes → SourceFile
unfolding line_starts_from
source_file path text = record {
  path = path;
  text = text;
  line_starts = 0 ∷ line_starts_from 0 text;
}

-- `substr(pos, count)`.
abbrev pub substr : Bytes → ℕ → ℕ → Bytes
substr text pos count = take count (drop pos text)

unfoldable pub slice : SourceFile → SourceSpan → Bytes
slice f span =
    if ltb (size f) span.start || ltb span.end span.start
    then []
    else substr f.text span.start (min span.end (size f) - span.start)

-- `std::upper_bound`: the index of the first entry above `x` in a sorted list.
unfoldable pub upper_bound : List ℕ → ℕ → ℕ
upper_bound [] x = 0
upper_bound (s ∷ starts) x = let rest = upper_bound starts x in if ltb x s then 0 else suc rest

unfoldable pub line_index : SourceFile → ℕ → ℕ
unfolding upper_bound
line_index f offset =
    let it = upper_bound f.line_starts (min offset (size f)) in if it == 0 then 0 else it - 1

unfoldable pub line_column : SourceFile → ℕ → LineColumn
unfolding line_index
line_column f offset = record {
  line = line_index f offset + 1;
  column = min offset (size f) - get_or f.line_starts (line_index f offset) 0 + 1;
}
