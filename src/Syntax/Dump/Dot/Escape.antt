-- ===== src/Syntax/Dump/Dot/Escape.antt =====
-- The labels of the DOT view can be read back.
use nexc.Prelude.{
  ℕ, ◌≡◌, ◌≢◌, refl, false, Option, none, some, [], ◌∷◌, ◌++◌, Bytes, ◌==◌, if◌then◌else◌,
  append_assoc, ap, ◌∙◌, if_both, arith,
}
use nexc.Syntax.Dump.Dot.{escape_char, dot_escape}

-- A character of a text in front of what is read behind it.
abbrev pub onto : ℕ → Option (Bytes × Bytes) → Option (Bytes × Bytes)
onto c none = none
onto c (some (text, rest)) = some (c ∷ text, rest)

-- The character that stands behind a backslash in a quoted string.
abbrev pub escaped : ℕ → ℕ
escaped c = if c == b'n' then b'\n' else c

-- The text of a quoted string from behind its opening quote, and what follows its closing quote.
-- This is independent of the dump.
unfoldable pub read_quoted : Bytes → Option (Bytes × Bytes)
read_quoted [] = none
read_quoted (c ∷ []) = if c == b'"' then some ([], []) else none
read_quoted (c ∷ d ∷ rest) =
    let plain = onto c (read_quoted (d ∷ rest)) in
    let pair = onto (escaped d) (read_quoted rest) in
    if c == b'"' then some ([], d ∷ rest) else if c == b'\\' then pair else plain

read_quoted-pair :
    (c d : ℕ) (rest : Bytes)
    → escaped d ≡ c
    → read_quoted (b'\\' ∷ d ∷ rest) ≡ onto c (read_quoted rest)
unfolding read_quoted
read_quoted-pair c d rest e = ap (λ x. onto x (read_quoted rest)) e

read_quoted-plain :
    (c : ℕ) (rest : Bytes)
    → c ≢ b'"'
    → c ≢ b'\\'
    → read_quoted (c ∷ rest) ≡ onto c (read_quoted rest)
unfolding read_quoted
read_quoted-plain c [] h k = ground arith
read_quoted-plain c (d ∷ rest) h k =
    let no_quote : (c == b'"') ≡ false = ground arith in
    let no_backslash : (c == b'\\') ≡ false = ground arith in rw no_quote (rw no_backslash refl)

read_quoted-escape_char :
    (c : ℕ) (rest : Bytes) → read_quoted (escape_char c ++ rest) ≡ onto c (read_quoted rest)
unfolding escape_char
read_quoted-escape_char c rest =
    let P : Bytes → Type 0 = λ e. read_quoted (e ++ rest) ≡ onto c (read_quoted rest) in
    if_both P (c == b'\\') (λ h. read_quoted-pair c b'\\' rest (ground arith))
      (λ h.
        if_both P (c == b'"') (λ k. read_quoted-pair c b'"' rest (ground arith))
          (λ k.
            if_both P (c == b'\n') (λ l. read_quoted-pair c b'n' rest (ground arith))
              (λ l. read_quoted-plain c rest (ground arith) (ground arith))))

-- A label is read back from its quoted form: the string ends at the quote that the dump writes
-- behind the label, and at no byte of the label.
pub read_quoted-dot_escape :
    (text rest : Bytes) → read_quoted (dot_escape text ++ (b'"' ∷ rest)) ≡ some (text, rest)
unfolding dot_escape read_quoted
read_quoted-dot_escape [] [] = refl
read_quoted-dot_escape [] (c ∷ rest) = refl
read_quoted-dot_escape (c ∷ text) rest =
    let step = read_quoted-escape_char c (dot_escape text ++ (b'"' ∷ rest)) in
    let whole = ap read_quoted (append_assoc (escape_char c) (dot_escape text) (b'"' ∷ rest)) in
    let later = read_quoted-dot_escape text rest in whole ∙ step ∙ ap (onto c) later
