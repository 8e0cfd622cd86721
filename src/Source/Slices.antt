-- ===== src/Source/Slices.antt =====
-- `SourceFile::slice`.
use nexc.Prelude.{
  ℕ, ◌-◌, ◌≤◌, min, ◌++◌, ◌≡◌, arith, length, take, drop, Bytes, take-append-drop, drop-drop,
  length-take, length-drop,
}
use nexc.Source.{slice, source_file}

-- The slice of a span inside the file is the text between its ends: what stands before it, the
-- slice and what stands behind it make up the file.
pub slice_inside :
    (path text : Bytes) (a b : ℕ)
    → a ≤ b
    → b ≤ length text
    → let cut = slice (source_file path text) (record { start = a; end = b }) in
      take a text ++ (cut ++ drop b text) ≡ text
unfolding slice source_file
slice_inside path text a b h l =
    let n = b - a in
    let tail : drop b text ≡ drop n (drop a text) = ground (arith, drop-drop a n text) in
    ground (arith, take-append-drop a text, take-append-drop n (drop a text))

-- A span gives the bytes that it covers inside the file, and a reversed one gives none.
pub length-slice :
    (path text : Bytes) (a b : ℕ)
    → length (slice (source_file path text) (record { start = a; end = b }))
      ≡ min b (length text) - a
unfolding slice source_file
length-slice path text a b =
    let n = min b (length text) - a in
    ground (arith, length-take n (drop a text), length-drop a text)
