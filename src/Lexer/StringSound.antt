-- ===== src/Lexer/StringSound.antt =====
-- String literals: what `lexStringLiteral` reads.
use nexc.Prelude.{
  ℕ, zero, suc, ◌+◌, ◌≤◌, ◌<◌, true, false, ◌||◌, ◌≡◌, refl, ◌∙◌, subst, ap, arith, ◌==◌, if_both,
}
use nexc.Source.{size}
use nexc.Diagnostic.{report_error}
use nexc.Token.{Token, string_literal}
use nexc.Lexer.Cursor.{Lexer, is_at_end, byte_at, skip, single, remaining}
use nexc.Lexer.Literals.{is_escape, unterminated, skip_escape, string_loop, lex_string_literal}
use nexc.Lexer.Grammar.{byte, StringRest, quote, escape, plain, Lexeme}
use nexc.Lexer.LiteralSound.{Lexed}

-- What the loop returns when it is entered at the cursor of `l`.
record ReadsString (l : Lexer) (start : ℕ) (r : Token × Lexer) : Type 0 where
  same_source : r.1.source ≡ l.source
  token_is : r.0 ≡ single r.1 string_literal start
  from : l.current ≤ r.1.current
  inside : r.1.current ≤ size l.source
  rest :
      r.1.diagnostics.has_errors ≡ false
      → (r.1.diagnostics ≡ l.diagnostics) × StringRest l.source.text l.current r.1.current

unterminated-reads :
    (l l' : Lexer) (start : ℕ)
    → l'.source ≡ l.source
    → l.current ≤ l'.current
    → l'.current ≤ size l.source
    → ReadsString l start (unterminated start l')
unfolding report_error
unterminated-reads l l' start same from inside = record {
  same_source = same;
  token_is = refl;
  from = from;
  inside = inside;
  rest = λ clean. cc;
}

-- From the rest of the body to the body: with `l'` the lexer behind the first character of it.
ReadsString-after :
    {l l' : Lexer} {start : ℕ} {r : Token × Lexer}
    → l'.source ≡ l.source
    → l.current ≤ l'.current
    → (l'.diagnostics.has_errors ≡ false
        → (l'.diagnostics ≡ l.diagnostics)
          × (StringRest l.source.text l'.current r.1.current
              → StringRest l.source.text l.current r.1.current))
    → ReadsString l' start r
    → ReadsString l start r
ReadsString-after {l} {l'} {start} {r} same from joins s = record {
  same_source = s.same_source ∙ same;
  token_is = s.token_is;
  from = omega (arith, s.from);
  inside = rw same at s.inside;
  rest = λ clean.
      let (kept, body) = s.rest clean in
      let (kept', join) = joins (rw kept at clean) in (kept ∙ kept', join (rw same at body));
}

-- `l` stands at the backslash.
record SkipsEscape (l l' : Lexer) : Type 0 where
  same_source : l'.source ≡ l.source
  two_bytes : l'.current ≡ l.current + 2
  known :
      l'.diagnostics.has_errors ≡ false
      → (l'.diagnostics ≡ l.diagnostics) × (is_escape (byte l.source.text (l.current + 1)) ≡ true)

skip_escape-skip : (l : Lexer) → SkipsEscape l (skip_escape (skip l))
unfolding skip_escape report_error
skip_escape-skip l =
    if_both (SkipsEscape l) (is_escape (byte l.source.text (l.current + 1)))
      (λ known. record {
        same_source = refl;
        two_bytes = omega arith;
        known = λ clean. (refl, known);
      })
      λ unknown. record { same_source = refl; two_bytes = omega arith; known = λ clean. cc }

string_loop-reads :
    (fuel : ℕ) (l : Lexer) (start : ℕ)
    → l.current ≤ size l.source
    → remaining l ≤ fuel
    → ReadsString l start (string_loop fuel start l)
unfolding string_loop
string_loop-reads zero l start h f = unterminated-reads l l start refl (omega arith) h
string_loop-reads (suc fuel) l start h f =
    if_both (ReadsString l start) (is_at_end l)
      (λ end. unterminated-reads l l start refl (omega arith) h)
      λ goes.
        let inside : l.current < size l.source = ground arith in
        if_both (ReadsString l start) (byte_at l l.current == b'"')
          (λ e. record {
            same_source = refl;
            token_is = refl;
            from = omega arith;
            inside = omega arith;
            rest = λ clean. (refl, quote inside (ground arith) refl);
          })
          λ no_quote.
            if_both (ReadsString l start)
              (byte_at l l.current == b'\n' || byte_at l l.current == b'\r')
              (λ e. unterminated-reads l (skip l) start refl (omega arith) (omega arith))
              λ no_newline.
                if_both (ReadsString l start) (byte_at l l.current == b'\\')
                  (λ e.
                    if_both (ReadsString l start) (is_at_end (skip l))
                      (λ end. unterminated-reads l (skip l) start refl (omega arith) (omega arith))
                      λ more.
                        let s = skip_escape-skip l in
                        let l' = skip_escape (skip l) in
                        let inside' : l.current + 1 < size l.source = ground arith in
                        let same_size : size l'.source ≡ size l.source = rw s.same_source in
                        ReadsString-after s.same_source (omega (arith, s.two_bytes))
                          (λ clean. (
                            (s.known clean).0,
                            λ body.
                                escape inside' (ground arith) (s.known clean).1
                                  (rw s.two_bytes at body),
                          ))
                          (string_loop-reads fuel l' start (omega (arith, s.two_bytes))
                            (omega (arith, s.two_bytes))))
                  λ no_escape.
                    ReadsString-after refl (omega arith)
                      (λ clean. (
                        refl,
                        plain inside (ground arith) (ground arith) (ground arith) (ground arith),
                      ))
                      (string_loop-reads fuel (skip l) start (omega arith) (omega arith))

pub lex_string_literal-Lexed :
    (l : Lexer) (start : ℕ)
    → l.current ≡ start + 1
    → l.current ≤ size l.source
    → byte l.source.text start ≡ b'"'
    → Lexed l start (lex_string_literal start l)
unfolding lex_string_literal
lex_string_literal-Lexed l start at h open_quote =
    let s = string_loop-reads (remaining l) l start h (omega arith) in
    record {
      same_source = s.same_source;
      span_is = ap (λ t. t.span) s.token_is;
      from = omega (arith, s.from);
      inside = s.inside;
      lexeme = λ clean.
          let (kept, body) = s.rest clean in
          let body' =
            subst (λ i. StringRest l.source.text i (lex_string_literal start l).1.current) at
              body in
          (kept, Lexeme.text open_quote body' (ap (λ t. t.kind) s.token_is));
    }
