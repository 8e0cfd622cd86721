-- ===== src/Diagnostic/Render/Caret.antt =====
-- The lines that `printDiagnostics` writes for a diagnostic.
use nexc.Prelude.{
  ℕ, zero, suc, ◌+◌, ◌-◌, ◌≤◌, ◌<◌, ◌^◌, min, max, [], ◌∷◌, ◌++◌, ◌≡◌, ◌≢◌, ◌⊎◌, inl, inr, refl,
  sym, ap, ◌∙◌, arith, length, get_or, take, drop, length-take, length-drop, get_or-drop,
  get_or-take, drop-step, Bytes, codes, ltb, ◌==◌, if◌then◌else◌,
}
use nexc.Source.{SourceSpan, source_file, line_column}
use nexc.Diagnostic.{Diagnostic}
use nexc.Diagnostic.Render.{
  size_sub, find, rfind, line_start, line_end, source_line, padding, tildes, print_source_line,
  severity_name, decimal, print_diagnostic,
}
use nexc.Diagnostic.Render.Newlines.{
  behind, up_to, rfind-clear, rfind-before, find-clear, find-later, find-inside, find-ends,
}
use nexc.Diagnostic.Render.Position.{caret_column-line_column}

-- A tab for a tab, and a space for each other byte.
abbrev pub blanks_for : Bytes → Bytes
blanks_for [] = []
blanks_for (c ∷ cs) = (if c == b'\t' then b'\t' else b' ') ∷ blanks_for cs

length-blanks_for : (cs : Bytes) → length (blanks_for cs) ≡ length cs
length-blanks_for [] = refl
length-blanks_for (c ∷ cs) = ap suc (length-blanks_for cs)

padding-blanks_for :
    (line : Bytes) (i n : ℕ)
    → i + n ≤ length line
    → padding line i n ≡ blanks_for (take n (drop i line))
unfolding padding
padding-blanks_for line i zero h = refl
padding-blanks_for line i (suc n) h =
    let step = drop-step i line 0 (omega arith) in
    let next : i + 1 ≡ suc i = omega arith in
    let rest = padding-blanks_for line (suc i) n (omega arith) in rw step (rw next (rw rest refl))

length-tildes : (n : ℕ) → length (tildes n) ≡ n
unfolding tildes
length-tildes zero = refl
length-tildes (suc n) = ap suc (length-tildes n)

-- The line around an offset that is no newline, from `low` to before `high`.
record Around (text : Bytes) (x low high : ℕ) : Type 0 where
  before : low ≤ x
  after : x ≤ high
  inside : high ≤ length text
  clear : (i : ℕ) → low ≤ i → i < high → get_or text i 0 ≢ b'\n'
  ends : (high ≡ length text) ⊎ (get_or text high 0 ≡ b'\n')

lines-Around :
    (text : Bytes) (x : ℕ)
    → x ≤ length text
    → get_or text x 0 ≢ b'\n'
    → Around text x (behind (rfind b'\n' text x)) (up_to text (find b'\n' text x))
lines-Around text x h k = record {
  before = rfind-before text x k;
  after = find-later text x h;
  inside = find-inside text x;
  clear = λ i low high. elim (side i x) [
    | inl e ↦ rfind-clear text x i e low
    | inr e ↦ find-clear text x i e high
  ];
  ends = find-ends text x;
}
  where
    side : (a b : ℕ) → (a ≤ b) ⊎ (b ≤ a)
    side a b = ground arith

line_start-behind :
    (text : Bytes) (x : ℕ) → x ≤ length text → line_start text x ≡ behind (rfind b'\n' text x)
unfolding line_start
line_start-behind text x h = ground arith

line_end-up_to :
    (text : Bytes) (x : ℕ) → x ≤ length text → line_end text x ≡ up_to text (find b'\n' text x)
unfolding line_end
line_end-up_to text x h = ground arith

line-Around :
    (text : Bytes) (x : ℕ)
    → x ≤ length text
    → get_or text x 0 ≢ b'\n'
    → Around text x (line_start text x) (line_end text x)
line-Around text x h k =
    rw (line_start-behind text x h) (rw (line_end-up_to text x h) (lines-Around text x h k))

size_sub-le : (a b : ℕ) → b ≤ a → a < 2 ^ 64 → size_sub a b ≡ a - b
size_sub-le a b h k = omega arith

-- What is printed behind the message for a span from `x` to `end`: the line of the file that holds
-- `x`, and under it the caret below the byte in `column`, with the rest of the span on this line
-- underlined. Where the line shows tabs in front of the caret there are tabs.
pub record Points (text : Bytes) (x end column : ℕ) (printed : Bytes) : Type 0 where
  pub shown : Bytes
  pub more : ℕ
  pub lines :
      printed
      ≡ codes "  | "
        ++ (shown
            ++ (codes "\n  | "
                ++ (blanks_for (take (column - 1) shown)
                    ++ (codes "^" ++ (tildes more ++ codes "\n")))))
  pub reached : column ≤ length shown + 1
  pub excerpt :
      (i : ℕ)
      → i < length shown
      → (get_or shown i 0 ≡ get_or text (x + 1 + i - column) 0) × (get_or shown i 0 ≢ b'\n')
  pub ended :
      (x + 1 + length shown ≡ length text + column)
      ⊎ (get_or text (x + 1 + length shown - column) 0 ≡ b'\n')
  pub underlined : column + more ≡ max column (min (end + column - (x + 1)) (length shown))

-- The bytes of the line, by their places in the text.
shown-excerpt :
    (text : Bytes) (x low high column n i : ℕ)
    → Around text x low high
    → n ≡ high - low
    → column ≡ x - low + 1
    → i < n
    → let shown = take n (drop low text) in
      (get_or shown i 0 ≡ get_or text (x + 1 + i - column) 0) × (get_or shown i 0 ≢ b'\n')
shown-excerpt text x low high column n i around size at inside =
    let before = around.before in
    let place : x + 1 + i - column ≡ low + i = omega arith in
    let same = get_or-take n i (drop low text) 0 inside ∙ get_or-drop low i text 0 in
    (rw place same, rw same (around.clear (low + i) (omega arith) (omega arith)))

Around-Points :
    (text : Bytes) (x end low high column n k : ℕ)
    → Around text x low high
    → n ≡ high - low
    → k ≡ x - low
    → column ≡ k + 1
    → let shown = take n (drop low text) in
      Points text x end column (
        codes "  | "
        ++ (shown
            ++ (codes "\n  | "
                ++ (padding shown 0 k
                    ++ (codes "^"
                        ++ (tildes
                              (max 1 (if ltb x (min end high) then min end high - x else 1) - 1)
                            ++ codes "\n"))))))
Around-Points text x end low high column n k around size caret at =
    let before = around.before in
    let after = around.after in
    let inside = around.inside in
    let shown = take n (drop low text) in
    let taken = length-take n (drop low text) in
    let left = length-drop low text in
    let width : length shown ≡ n = omega arith in
    let blanks = padding-blanks_for shown 0 k (omega arith) in
    let k_column : column - 1 ≡ k = omega arith in
    record {
      shown = shown;
      more = max 1 (if ltb x (min end high) then min end high - x else 1) - 1;
      lines = rw k_column (rw blanks refl);
      reached = omega arith;
      excerpt =
          λ i e. shown-excerpt text x low high column n i around size (omega arith) (omega arith);
      ended = elim around.ends [
        | inl e ↦ inl (omega arith)
        | inr e ↦ inr (let place : x + 1 + length shown - column ≡ high = omega arith in rw place e)
      ];
      underlined = ground arith;
    }

print_source_line-Points :
    (path text : Bytes) (span : SourceSpan)
    → length text < 2 ^ 64
    → get_or text (min span.start (length text)) 0 ≢ b'\n'
    → let f = source_file path text in
      Points text
        (min span.start (length text))
        span.end
        (line_column f span.start).column
        (print_source_line f span)
unfolding print_source_line source_line source_file
print_source_line-Points path text span l h =
    let x = min span.start (length text) in
    let low = line_start text x in
    let high = line_end text x in
    let around : Around text x low high = line-Around text x (omega arith) h in
    let before = around.before in
    let after = around.after in
    let inside = around.inside in
    Around-Points text x span.end low high _ _ _ around
      (size_sub-le high low (omega arith) (omega arith)) (size_sub-le x low before (omega arith))
      (sym (caret_column-line_column path text span l h))

-- A diagnostic of a file of fewer than 2 ^ 64 bytes whose span does not start at a newline byte is
-- printed as a header, which names the path, the line and the column, and two lines behind it: the
-- line of the file that holds the start of the span, whole, and a line with a caret in the column
-- that the header names. In front of the caret stand a tab for each tab of the line above and else
-- spaces, and tildes behind it reach to the end of the span or of the line.
pub print_diagnostic-Points :
    (path text : Bytes) (d : Diagnostic)
    → length text < 2 ^ 64
    → get_or text (min d.span.start (length text)) 0 ≢ b'\n'
    → let f = source_file path text in
      let at = line_column f d.span.start in
      (printed : Bytes) × (print_diagnostic f d
        ≡ path
          ++ (codes ":"
              ++ (decimal at.line
                  ++ (codes ":"
                      ++ (decimal at.column
                          ++ (codes ": "
                              ++ (codes (severity_name d.severity)
                                  ++ (codes ": " ++ (d.message ++ (codes "\n" ++ printed))))))))))
      × Points text (min d.span.start (length text)) d.span.end at.column printed
unfolding print_diagnostic source_file
print_diagnostic-Points path text d l h = (
  print_source_line (source_file path text) d.span,
  refl,
  print_source_line-Points path text d.span l h,
)
