-- ===== src/Lexer/Sound.antt =====
-- `tokenize` against the lexical grammar.
use nexc.Prelude.{
  ℕ, zero, suc, ◌+◌, ◌≤◌, ◌<◌, true, false, ◌≡◌, refl, ◌∙◌, subst, ap, inl, inr, Option, none, some,
  List, [], ◌∷◌, arith, length, ◌==◌, ==_iff, if_both,
}
use native.Mathlib.Nat.{add-zero}
use nexc.Source.{SourceFile, size}
use nexc.Diagnostic.{DiagnosticBag, report_error}
use nexc.Token.{Token, end_of_file}
use nexc.Lexer.Cursor.{
  Lexer, is_identifier_start, is_decimal_digit, lexer, is_at_end, byte_at, skip, single, remaining,
}
use nexc.Lexer.Trivia.{skip_whitespace_and_comments}
use nexc.Lexer.Scan.{unsupported, lex_symbol, lex_token, push_front, tokenize_loop, tokenize}
use nexc.Lexer.Grammar.{starts_trivia, Lexeme, Splits, last, next}
use nexc.Lexer.TriviaSound.{Skipped, skip_whitespace_and_comments-Skipped}
use nexc.Lexer.SymbolSound.{lex_symbol-reads}
use nexc.Lexer.LiteralSound.{Lexed, lex_identifier_or_keyword-Lexed, lex_integer_literal-Lexed}
use nexc.Lexer.StringSound.{lex_string_literal-Lexed}

unsupported-Lexed :
    (l : Lexer) (c start : ℕ)
    → start < l.current
    → l.current ≤ size l.source
    → Lexed l start (unsupported c start l)
unfolding report_error
unsupported-Lexed l c start from h = record {
  same_source = refl;
  span_is = refl;
  from = from;
  inside = h;
  lexeme = λ clean. cc;
}

lex_symbol-Lexed :
    (l : Lexer)
    → l.current < size l.source
    → Lexed (skip l) l.current (lex_symbol (byte_at l l.current) l.current (skip l))
lex_symbol-Lexed l h =
    elim (lex_symbol-reads (skip l) l.current refl (omega arith) (byte_at l l.current)) [
      | inl s ↦ rw s.result (record {
        same_source = refl;
        span_is = refl;
        from = omega (arith, s.end_is, s.width_pos);
        inside = s.inside;
        lexeme = λ clean. (refl, Lexeme.operator s.width (rw add-zero at s.in_table) s.end_is);
      })
      | inr (no_symbol, e) ↦
          rw e
            (unsupported-Lexed (skip l) (byte_at l l.current) l.current (omega arith) (omega arith))
    ]

pub lex_token-Lexed :
    (l : Lexer) → l.current < size l.source → Lexed (skip l) l.current (lex_token l)
unfolding lex_token
lex_token-Lexed l below =
    let h : l.current + 1 ≤ size l.source = omega arith in
    if_both (Lexed (skip l) l.current) (is_identifier_start (byte_at l l.current))
      (lex_identifier_or_keyword-Lexed (skip l) l.current refl h)
      λ no_word.
        if_both (Lexed (skip l) l.current) (is_decimal_digit (byte_at l l.current))
          (lex_integer_literal-Lexed (skip l) l.current refl h)
          λ no_digit.
            if_both (Lexed (skip l) l.current) (byte_at l l.current == b'"')
              (λ e. lex_string_literal-Lexed (skip l) l.current refl h ((==_iff _ _).0 e))
              λ no_quote. lex_symbol-Lexed l below

-- The tokens' spans lie one behind the other, from `a` on, and are not empty, up to an empty
-- `EndOfFile` at `n`.
pub data InOrder (n : ℕ) : ℕ → List Token → Type 0 where
  end :
      {a : ℕ} {tokens : List Token}
      → a ≤ n
      → tokens ≡ record { kind = end_of_file; span = record { start = n; end = n } } ∷ []
      → InOrder n a tokens
  before :
      {a : ℕ} {tokens : List Token} (token : Token) (rest : List Token)
      → tokens ≡ token ∷ rest
      → a ≤ token.span.start
      → token.span.start < token.span.end
      → InOrder n token.span.end rest
      → InOrder n a tokens

-- What the rest of a run returns.
pub record Tokenized (l : Lexer) (tokens : List Token) (l' : Lexer) : Type 0 where
  pub in_order : InOrder (size l.source) l.current tokens
  pub splits :
      l'.diagnostics.has_errors ≡ false
      → (l'.diagnostics ≡ l.diagnostics) × Splits l.source.text l.current tokens

abbrev Returns : Lexer → Option (List Token × Lexer) → Type 0
Returns l none = ⊥
Returns l (some (tokens, l')) = Tokenized l tokens l'

-- At the end of the file.
Tokenized-end :
    {l l₁ : Lexer}
    → Skipped l l₁
    → is_at_end l₁ ≡ true
    → Tokenized l (single l₁ end_of_file l₁.current ∷ []) l₁
Tokenized-end {l} {l₁} s e =
    let same_size : size l₁.source ≡ size l.source = rw s.same_source in
    let at_end : l₁.current ≡ size l.source = ground (arith, s.inside) in
    record {
      in_order = InOrder.end (omega (arith, s.from)) (rw at_end);
      splits = λ clean. ((s.trivia clean).0, last (s.trivia clean).1 at_end refl);
    }

-- A token in front of what the rest of the run returns.
Returns-push_front :
    {l l₁ l₂ : Lexer} {token : Token} (o : Option (List Token × Lexer))
    → Skipped l l₁
    → l₁.current < size l.source
    → Lexed (skip l₁) l₁.current (token, l₂)
    → Returns l₂ o
    → Returns l (push_front token o)
Returns-push_front none s below x r = r
Returns-push_front {l} {l₁} {l₂} {token} (some (tokens, l')) s below x r =
    let same = x.same_source ∙ s.same_source in
    let this : token
        ≡ record { kind = token.kind; span = record { start = l₁.current; end = l₂.current } } =
      λ i. record { kind = token.kind; span = x.span_is i } in
    record {
      in_order =
          InOrder.before token tokens refl (rw x.span_is s.from) (rw x.span_is x.from)
            (rw (x.span_is, ← same) r.in_order);
      splits = λ clean.
          let (kept, rest) = r.splits clean in
          let (kept₂, lexeme) = x.lexeme (rw kept at clean) in
          let (kept₁, trivia) = s.trivia (rw kept₂ at (rw kept at clean)) in
          let t = l.source.text in
          let stop : starts_trivia t l₁.current ≡ false = elim s.stopped [
            | inl ended ↦ absurd (omega arith)
            | inr no_trivia ↦ no_trivia
          ] in
          let inside : l₂.current ≤ length t = rw s.same_source at x.inside in
          let lexeme' : Lexeme t l₁.current l₂.current token.kind = rw s.same_source at lexeme in
          let rest' : Splits t l₂.current tokens = rw same at rest in
          (
            kept ∙ (kept₂ ∙ kept₁),
            next l₂.current token.kind trivia stop x.from inside lexeme' rest'
                (ap (λ t. t ∷ tokens) this),
          );
    }

tokenize_loop-Returns :
    (fuel : ℕ) (l : Lexer)
    → l.current ≤ size l.source
    → remaining l < fuel
    → Returns l (tokenize_loop fuel l)
unfolding tokenize_loop
tokenize_loop-Returns zero l h f = absurd (omega arith)
tokenize_loop-Returns (suc fuel) l h f =
    let s = skip_whitespace_and_comments-Skipped l h in
    let l₁ = skip_whitespace_and_comments l in
    let l₂ = (lex_token l₁).1 in
    let same_size : size l₁.source ≡ size l.source = rw s.same_source in
    if_both (Returns l) (is_at_end l₁) (Tokenized-end s) λ goes.
      let below : l₁.current < size l₁.source = ground arith in
      let x = lex_token-Lexed l₁ below in
      let same_size₂ : size l₂.source ≡ size l₁.source = rw x.same_source in
      Returns-push_front (tokenize_loop fuel l₂) s (omega arith) x
        (tokenize_loop-Returns fuel l₂ (omega (arith, x.inside)) (omega (arith, x.from, s.from)))

Returns-some :
    {l : Lexer} (o : Option (List Token × Lexer))
    → Returns l o
    → (tokens : List Token) × (l' : Lexer) × (o ≡ some (tokens, l')) × Tokenized l tokens l'
Returns-some none r = absurd r
Returns-some (some (tokens, l')) r = (tokens, l', refl, r)

tokenize-Returns :
    (source : SourceFile) (bag : DiagnosticBag) → Returns (lexer source bag) (tokenize source bag)
unfolding tokenize
tokenize-Returns source bag =
    tokenize_loop-Returns (size source + 1) (lexer source bag) (omega arith) (omega arith)

-- `tokenize` returns for every file, with any bag: the fuel is enough. The spans of its tokens lie
-- in order inside the file and are not empty, up to an empty `EndOfFile` at the file's end.
pub tokenize-InOrder :
    (source : SourceFile) (bag : DiagnosticBag)
    → (tokens : List Token) × (l : Lexer) × (tokenize source bag ≡ some (tokens, l))
      × InOrder (size source) 0 tokens
tokenize-InOrder source bag =
    let (tokens, l, e, t) = Returns-some (tokenize source bag) (tokenize-Returns source bag) in
    (tokens, l, e, t.in_order)

-- If the run leaves no error on record, it reported nothing, and the tokens are those into which
-- the grammar splits the file.
pub tokenize-Splits :
    (source : SourceFile) (bag : DiagnosticBag) {tokens : List Token} {l : Lexer}
    → tokenize source bag ≡ some (tokens, l)
    → l.diagnostics.has_errors ≡ false
    → (l.diagnostics ≡ bag) × Splits source.text 0 tokens
tokenize-Splits source bag e clean =
    let t : Tokenized (lexer source bag) _ _ =
      subst (Returns (lexer source bag)) e (tokenize-Returns source bag) in
    t.splits clean
