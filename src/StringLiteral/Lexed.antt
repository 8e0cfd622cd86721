-- ===== src/StringLiteral/Lexed.antt =====
-- The string literals of the lexer, and the decoder.
use nexc.Prelude.{
  ℕ, zero, suc, ◌+◌, ◌-◌, ◌≤◌, ◌<◌, true, false, some, List, [], ◌∷◌, ◌++◌, ◌≡◌, ◌≢◌, inl, inr,
  refl, ◌∙◌, sym, length, get_or, drop, Bytes, arith, get_or-take, get_or-drop, length-take,
  length-drop, Option-cases,
}
use nexc.Source.{SourceFile, substr, slice}
use nexc.Diagnostic.{DiagnosticBag}
use nexc.Token.{TokenKind, Token, string_literal}
use nexc.Token.Keywords.{keyword_kind_iff}
use nexc.Lexer.Cursor.{Lexer}
use nexc.Lexer.Scan.{tokenize}
use nexc.Lexer.Sound.{tokenize-Splits}
use nexc.Lexer.LiteralSound.{slice-substr}
use nexc.Lexer.Literals.{is_escape}
use nexc.Lexer.Grammar.{
  byte, StringRest, quote, escape, plain, symbol, Lexeme, word, hex, decimal, text, operator,
  Splits, last, next,
}
use nexc.StringLiteral.Decode.{decoded, unescape, decode_loop, decode_string_literal_content}

StringRest-lt : {t : Bytes} {a b : ℕ} → StringRest t a b → (a < b) × (b ≤ length t)
StringRest-lt (quote h _ e) = (omega arith, omega arith)
StringRest-lt (escape h _ _ rest) = (omega (arith, (StringRest-lt rest).0), (StringRest-lt rest).1)
StringRest-lt (plain h _ _ _ _ rest) =
    (omega (arith, (StringRest-lt rest).0), (StringRest-lt rest).1)

StringRest-end : {t : Bytes} {a b : ℕ} → StringRest t a b → byte t (b - 1) ≡ b'"'
StringRest-end (quote {a} {b} h q e) = let back : b - 1 ≡ a = omega arith in rw back q
StringRest-end (escape h _ _ rest) = StringRest-end rest
StringRest-end (plain h _ _ _ _ rest) = StringRest-end rest

unescape-is_escape : (c : ℕ) → is_escape c ≡ true → (b : ℕ) × (unescape c ≡ some b)
unfolding unescape
unescape-is_escape c h = elim (Option-cases (unescape c)) [
  | inl missing ↦ absurd (ground arith)
  | inr found ↦ found
]

module _ (t : Bytes) (s n : ℕ) (h : s + n ≤ length t) where
  abbrev raw : Bytes
  raw = substr t s n

  length-raw : length raw ≡ n
  length-raw = omega (arith, length-take n (drop s t), length-drop s t)

  get_or-raw : (a j : ℕ) → a ≡ s + j → j < n → get_or raw j 0 ≡ byte t a
  get_or-raw a j at below = rw at (get_or-take n j (drop s t) 0 below ∙ get_or-drop s j t 0)

  decode_loop-StringRest :
      (fuel j : ℕ) (out : Bytes) {a e : ℕ}
      → StringRest t a e
      → a ≡ s + j
      → e ≡ s + n
      → n ≤ fuel + j
      → (value : Bytes) × (decode_loop fuel raw j out ≡ decoded value)
  unfolding decode_loop
  decode_loop-StringRest zero j out r at end f = absurd (omega (arith, (StringRest-lt r).0))
  decode_loop-StringRest (suc fuel) j out (quote i q e) at end f = (out, ground (arith, length-raw))
  decode_loop-StringRest (suc fuel) j out (escape {a} i back known rest) at end f =
      let (after, inside) = StringRest-lt rest in
      let size = length-raw in
      let here = get_or-raw a j at (omega arith) in
      let next = get_or-raw (a + 1) (j + 1) (omega arith) (omega arith) in
      let (b, letter) = unescape-is_escape (byte t (a + 1)) known in
      let (value, e) =
        decode_loop-StringRest fuel (j + 2) (out ++ b ∷ []) rest (omega arith) end (omega arith) in
      (value, ground arith)
  decode_loop-StringRest (suc fuel) j out (plain {a} i q back nl cr rest) at end f =
      let (after, inside) = StringRest-lt rest in
      let size = length-raw in
      let here = get_or-raw a j at (omega arith) in
      let (value, e) =
        decode_loop-StringRest fuel (j + 1) (out ++ byte t a ∷ []) rest (omega arith) end
          (omega arith) in
      (value, ground arith)

-- A string token that the grammar allows, so any that the lexer reads with no error, decodes.
pub decode-StringRest :
    (t : Bytes) (s e : ℕ)
    → byte t s ≡ b'"'
    → StringRest t (s + 1) e
    → (value : Bytes) × (decode_string_literal_content (substr t s (e - s)) ≡ decoded value)
unfolding decode_string_literal_content
decode-StringRest t s e open_quote r =
    let (after, inside) = StringRest-lt r in
    let n = e - s in
    let h : s + n ≤ length t = omega arith in
    let size = length-raw t s n h in
    let first = get_or-raw t s n h s 0 (omega arith) (omega arith) in
    let final = get_or-raw t s n h (e - 1) (n - 1) (omega arith) (omega arith) in
    let closing = StringRest-end r in
    let (value, loop) =
      decode_loop-StringRest t s n h (length (raw t s n h)) 1 [] r refl (omega arith)
        (omega arith) in
    (value, ground arith)

symbol-ne-string_literal : (c d n : ℕ) → symbol c d ≢ some (string_literal, n)
unfolding symbol
symbol-ne-string_literal c d n e = ground arith

Lexeme-string_literal :
    {t : Bytes} {s e : ℕ} {k : TokenKind}
    → Lexeme t s e k
    → k ≡ string_literal
    → (byte t s ≡ b'"') × StringRest t (s + 1) e
Lexeme-string_literal {t} {s} {e} (word first run is) k =
    absurd (cc ((keyword_kind_iff (substr t s (e - s)) string_literal (cc)).0 (sym is ∙ k)))
Lexeme-string_literal (hex _ _ _ is) k = absurd (cc)
Lexeme-string_literal {t} (decimal m n _ _ _ _ _ is) k = absurd (ground arith)
Lexeme-string_literal (text open_quote rest is) k = (open_quote, rest)
Lexeme-string_literal {t} {s} (operator n in_table end) k =
    absurd (symbol-ne-string_literal (byte t s) (byte t (s + 1)) n (cc))

-- Each string token's spelling decodes.
abbrev pub StringsDecode : SourceFile → List Token → Type 0
StringsDecode f [] = Unit
StringsDecode f (token ∷ tokens) =
    (token.kind ≡ string_literal
      → (value : Bytes) × (decode_string_literal_content (slice f token.span) ≡ decoded value))
    × StringsDecode f tokens

Splits-StringsDecode :
    (f : SourceFile) {a : ℕ} {tokens : List Token} → Splits f.text a tokens → StringsDecode f tokens
Splits-StringsDecode f (last _ _ e) = rw e (λ k. cc, tt)
Splits-StringsDecode f (next {s = s} e k trivia stop from inside lexeme rest is) = rw is (
  (λ string.
      let (open_quote, body) = Lexeme-string_literal lexeme string in
      rw (slice-substr f (record { start = s; end = e }) (omega arith) inside)
        (decode-StringRest f.text s e open_quote body)),
  Splits-StringsDecode f rest,
)

-- If lexing a file leaves no error on record, the decoder accepts the spelling of each of its
-- string tokens: the two agree on quotes and escapes.
pub tokenize-StringsDecode :
    (source : SourceFile) (bag : DiagnosticBag) {tokens : List Token} {l : Lexer}
    → tokenize source bag ≡ some (tokens, l)
    → l.diagnostics.has_errors ≡ false
    → StringsDecode source tokens
tokenize-StringsDecode source bag e clean =
    Splits-StringsDecode source (tokenize-Splits source bag e clean).1
