-- ===== src/StringLiteral/RoundTrip.antt =====
-- Writing a literal for some bytes, and decoding it.
use nexc.Prelude.{
  ℕ, zero, suc, ◌+◌, ◌-◌, ◌≤◌, ◌<◌, Option, none, some, [], ◌∷◌, ◌++◌, ◌≡◌, ◌≢◌, ◌⊎◌, inl, inr,
  refl, length, get_or, drop, Bytes, ◌==◌, if◌then◌else◌, arith, append_assoc, append-nil,
  drop-eq-cons, length-drop, ap, Option-cases,
}
use nexc.StringLiteral.Decode.{decoded, unescape, decode_loop, decode_string_literal_content}

-- The letter behind the backslash in the escape for `c`, if `c` wants one.
pub escape_letter : ℕ → Option ℕ
escape_letter c =
    if c == b'"'
    then some b'"'
    else if c == b'\\'
    then some b'\\'
    else if c == b'\n'
    then some b'n'
    else if c == b'\t'
    then some b't'
    else if c == b'\r'
    then some b'r'
    else none

-- The body of a literal for these bytes, in front of `rest`.
abbrev pub escape_onto : Bytes → Bytes → Bytes
escape_onto [] rest = rest
escape_onto (c ∷ cs) rest = elim (escape_letter c) [
  | some letter ↦ b'\\' ∷ letter ∷ escape_onto cs rest
  | none ↦ c ∷ escape_onto cs rest
]

abbrev pub quoted : Bytes → Bytes
quoted s = b'"' ∷ escape_onto s (b'"' ∷ [])

escape_letter-cases :
    (c : ℕ)
    → ((letter : ℕ) × (escape_letter c ≡ some letter) × (unescape letter ≡ some c))
      ⊎ ((escape_letter c ≡ none) × (c ≢ b'\\'))
unfolding escape_letter unescape
escape_letter-cases c = elim (Option-cases (escape_letter c)) [
  | inl plain ↦ inr (plain, ground arith)
  | inr (letter, e) ↦ inl (letter, e, ground arith)
]

escape_onto_pos : (s : Bytes) → 0 < length (escape_onto s (b'"' ∷ []))
escape_onto_pos [] = omega arith
escape_onto_pos (c ∷ s) = elim (escape_letter-cases c) [
  | inl (letter, e, _) ↦ rw (e, escape_onto) (omega arith)
  | inr (e, _) ↦ rw (e, escape_onto) (omega arith)
]

decode_loop-escape_onto :
    (s : Bytes) (fuel : ℕ) (raw : Bytes) (i : ℕ) (out : Bytes)
    → drop i raw ≡ escape_onto s (b'"' ∷ [])
    → length raw ≤ fuel + i
    → decode_loop fuel raw i out ≡ decoded (out ++ s)
unfolding decode_loop
decode_loop-escape_onto s zero raw i out e f =
    let n = length-drop i raw in absurd (omega (arith, escape_onto_pos s, ap length e))
decode_loop-escape_onto [] (suc fuel) raw i out e f =
    let (here, tails, size) = drop-eq-cons raw i 0 e in ground (arith, append-nil out)
decode_loop-escape_onto (c ∷ s) (suc fuel) raw i out e f = elim (escape_letter-cases c) [
  | inl (letter, is_letter, back) ↦
      let e' : drop i raw ≡ b'\\' ∷ letter ∷ escape_onto s (b'"' ∷ []) =
        rw (is_letter, escape_onto) at e in
      let (here, tails, size) = drop-eq-cons raw i 0 e' in
      let (here', tails', size') = drop-eq-cons raw (i + 1) 0 tails in
      let two : i + 1 + 1 ≡ i + 2 = omega arith in
      let rest =
        decode_loop-escape_onto s fuel raw (i + 2) (out ++ c ∷ []) (rw two at tails')
          (omega arith) in
      ground (arith, escape_onto_pos s, append_assoc out (c ∷ []) s)
  | inr (plain, no_backslash) ↦
      let e' : drop i raw ≡ c ∷ escape_onto s (b'"' ∷ []) = rw (plain, escape_onto) at e in
      let (here, tails, size) = drop-eq-cons raw i 0 e' in
      let rest = decode_loop-escape_onto s fuel raw (i + 1) (out ++ c ∷ []) tails (omega arith) in
      ground (arith, escape_onto_pos s, append_assoc out (c ∷ []) s)
]

last-escape_onto :
    (s : Bytes) (x : ℕ)
    → let body = escape_onto s (b'"' ∷ []) in get_or (x ∷ body) (length body) 0 ≡ b'"'
last-escape_onto [] x = refl
last-escape_onto (c ∷ s) x = elim (escape_letter-cases c) [
  | inl (letter, e, _) ↦ rw (e, escape_onto) (last-escape_onto s letter)
  | inr (e, _) ↦ rw (e, escape_onto) (last-escape_onto s c)
]

-- Whatever the bytes are, the literal that is written for them decodes to them.
pub decode-quoted : (s : Bytes) → decode_string_literal_content (quoted s) ≡ decoded s
unfolding decode_string_literal_content
decode-quoted s =
    let raw = quoted s in
    let pos = escape_onto_pos s in
    let end : length raw - 1 ≡ length (escape_onto s (b'"' ∷ [])) = omega arith in
    let loop = decode_loop-escape_onto s (length raw) raw 1 [] refl (omega arith) in
    ground (arith, last-escape_onto s b'"')
