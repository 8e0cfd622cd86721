-- ===== src/Lexer/LiteralSound.antt =====
-- Identifiers, keywords and numbers: what `lexIdentifierOrKeyword` and `lexIntegerLiteral` read.
use native.Mathlib.Nat.{add-zero}
use nexc.Prelude.{
  ℕ, ◌+◌, ◌-◌, ◌≤◌, ◌<◌, min, Bool, true, false, ◌≡◌, refl, sym, ap, inl, inr, arith, ◌==◌,
  Bool-cases, if_both, get_or-inside,
}
use nexc.Source.{SourceFile, SourceSpan, size, slice, substr}
use nexc.Diagnostic.{report_error}
use nexc.Token.{Token, keyword_kind, integer_literal}
use nexc.Lexer.Cursor.{
  Lexer, is_identifier_start, is_identifier_continue, is_hex_digit, is_decimal_digit, skip, single,
}
use nexc.Lexer.Literals.{
  lex_identifier_or_keyword, lex_hex_literal, lex_fraction, lex_exponent, lex_decimal_literal,
  lex_integer_literal, skip_sign,
}
use nexc.Lexer.Grammar.{
  byte, has_hex_prefix, has_fraction, has_exponent, has_sign, Fraction, Exponent, exponent_digits,
  Lexeme,
}
use nexc.Lexer.Loops.{moved, advance_over_lem}

-- A token read from `start` by a lexer whose first byte stands there: its span runs up to the new
-- cursor, and if no error is on record, none was reported and the token is one of the grammar.
pub record Lexed (l : Lexer) (start : ℕ) (r : Token × Lexer) : Type 0 where
  pub same_source : r.1.source ≡ l.source
  pub span_is : r.0.span ≡ record { start = start; end = r.1.current }
  pub from : start < r.1.current
  pub inside : r.1.current ≤ size l.source
  pub lexeme :
      r.1.diagnostics.has_errors ≡ false
      → (r.1.diagnostics ≡ l.diagnostics) × Lexeme l.source.text start r.1.current r.0.kind

pub slice-substr :
    (f : SourceFile) (span : SourceSpan)
    → span.start ≤ span.end
    → span.end ≤ size f
    → slice f span ≡ substr f.text span.start (span.end - span.start)
unfolding slice
slice-substr f span h l =
    let whole : min span.end (size f) ≡ span.end = omega arith in rw whole (ground arith)

-- `start` is where the first byte was read.
module _ (l : Lexer) (start : ℕ) (at : l.current ≡ start + 1) (h : l.current ≤ size l.source) where
  pub lex_identifier_or_keyword-Lexed :
      is_identifier_start (byte l.source.text start) ≡ true
      → Lexed l start (lex_identifier_or_keyword l)
  unfolding lex_identifier_or_keyword
  lex_identifier_or_keyword-Lexed first =
      let (n, e, run) = advance_over_lem is_identifier_continue l h in
      let back : l.current - 1 ≡ start = omega arith in
      let cut =
        slice-substr l.source (record { start = start; end = n }) (omega (arith, run.from))
          run.inside in
      rw e (
        rw back (record {
          same_source = refl;
          span_is = refl;
          from = omega (arith, run.from);
          inside = run.inside;
          lexeme = λ clean. (refl, Lexeme.word first (rw at at run) (ap keyword_kind cut));
        }))

  lex_hex_literal-Lexed :
      has_hex_prefix l.source.text start ≡ true → Lexed l start (lex_hex_literal start l)
  unfolding lex_hex_literal report_error
  lex_hex_literal-Lexed prefix =
      let x_inside = get_or-inside l.source.text (start + 1) 0 (ground arith) in
      let (n, e, run) = advance_over_lem is_hex_digit (skip l) (omega arith) in
      let two : l.current + 1 ≡ start + 2 = omega arith in
      rw e (
        if_both (λ l'. Lexed l start (single (moved l n) integer_literal start, l'))
          (n == l.current + 1)
          (λ no_digit. record {
            same_source = refl;
            span_is = refl;
            from = omega (arith, run.from);
            inside = run.inside;
            lexeme = λ clean. cc;
          })
          λ digits. record {
            same_source = refl;
            span_is = refl;
            from = omega (arith, run.from);
            inside = run.inside;
            lexeme =
                λ clean. (refl, Lexeme.hex prefix (rw two at run) (ground (arith, run.from)) refl);
          })

-- The fraction and the exponent begin at the cursor.
record ReadsFraction (l : Lexer) (r : Bool × Lexer) : Type 0 where
  end : ℕ
  result : r ≡ (has_fraction l.source.text l.current, moved l end)
  fraction : Fraction l.source.text l.current end
  from : l.current ≤ end
  inside : end ≤ size l.source

lex_fraction-reads : (l : Lexer) → l.current ≤ size l.source → ReadsFraction l (lex_fraction l)
unfolding lex_fraction
lex_fraction-reads l h = elim (Bool-cases (has_fraction l.source.text l.current)) [
  | inl found ↦
      let inside = get_or-inside l.source.text l.current 0 (ground arith) in
      let (n, e, run) = advance_over_lem is_decimal_digit (skip l) (omega arith) in
      rw (add-zero, found)
        (record {
          end = n;
          result = rw (e, found);
          fraction = rw found run;
          from = omega (arith, run.from);
          inside = run.inside;
        })
  | inr missing ↦
      rw (add-zero, missing)
        (record {
          end = l.current;
          result = rw missing;
          fraction = rw missing refl;
          from = omega arith;
          inside = h;
        })
]

record ReadsExponent (l : Lexer) (r : Bool × Lexer) : Type 0 where
  found_is : r.0 ≡ has_exponent l.source.text l.current
  same_source : r.1.source ≡ l.source
  from : l.current ≤ r.1.current
  inside : r.1.current ≤ size l.source
  exponent :
      r.1.diagnostics.has_errors ≡ false
      → (r.1.diagnostics ≡ l.diagnostics) × Exponent l.source.text l.current r.1.current

skip_sign-skip :
    (l : Lexer) → skip_sign (skip l) ≡ moved l (exponent_digits l.source.text l.current)
skip_sign-skip l = elim (Bool-cases (has_sign l.source.text (l.current + 1))) [
  | inl sign ↦ let two : l.current + 1 + 1 ≡ l.current + 2 = omega arith in rw (add-zero, sign, two)
  | inr plain ↦ rw (add-zero, plain)
]

-- Behind the letter stand the digits, or the text ends.
exponent_digits_bounds :
    (l : Lexer)
    → has_exponent l.source.text l.current ≡ true
    → (l.current < exponent_digits l.source.text l.current)
      × (exponent_digits l.source.text l.current ≤ size l.source)
exponent_digits_bounds l found =
    let letter = get_or-inside l.source.text l.current 0 (ground arith) in
    elim (Bool-cases (has_sign l.source.text (l.current + 1))) [
      | inl sign ↦
          let inside = get_or-inside l.source.text (l.current + 1) 0 (ground arith) in
          rw sign (omega arith, omega arith)
      | inr plain ↦ rw plain (omega arith, omega arith)
    ]

lex_exponent-reads :
    (l : Lexer) (start : ℕ) → l.current ≤ size l.source → ReadsExponent l (lex_exponent start l)
unfolding lex_exponent report_error
lex_exponent-reads l start h = elim (Bool-cases (has_exponent l.source.text l.current)) [
  | inl found ↦
      let a = exponent_digits l.source.text l.current in
      let (after, inside) = exponent_digits_bounds l found in
      let (n, e, run) = advance_over_lem is_decimal_digit (moved l a) inside in
      rw (add-zero, found, skip_sign-skip l, e)
        (if_both (λ l'. ReadsExponent l (true, l')) (n == a)
          (λ no_digit. record {
            found_is = sym found;
            same_source = refl;
            from = omega (arith, run.from);
            inside = run.inside;
            exponent = λ clean. cc;
          })
          λ digits. record {
            found_is = sym found;
            same_source = refl;
            from = omega (arith, run.from);
            inside = run.inside;
            exponent = λ clean. (refl, rw found (run, ground (arith, run.from)));
          })
  | inr missing ↦
      rw (add-zero, missing)
        (record {
          found_is = sym missing;
          same_source = refl;
          from = omega arith;
          inside = h;
          exponent = λ clean. (refl, rw missing refl);
        })
]

module _ (l : Lexer) (start : ℕ) (at : l.current ≡ start + 1) (h : l.current ≤ size l.source) where
  lex_decimal_literal-Lexed :
      is_decimal_digit (byte l.source.text start) ≡ true
      → has_hex_prefix l.source.text start ≡ false
      → Lexed l start (lex_decimal_literal start l)
  unfolding lex_decimal_literal
  lex_decimal_literal-Lexed first no_hex =
      let (m, e, run) = advance_over_lem is_decimal_digit l h in
      let f = lex_fraction-reads (moved l m) run.inside in
      let x = lex_exponent-reads (moved l f.end) start f.inside in
      rw (e, f.result)
        (record {
          same_source = x.same_source;
          span_is = refl;
          from = omega (arith, run.from, f.from, x.from);
          inside = x.inside;
          lexeme = λ clean. (
            (x.exponent clean).0,
            Lexeme.decimal m f.end first no_hex (rw at at run) f.fraction (x.exponent clean).1
                (rw x.found_is),
          );
        })

  pub lex_integer_literal-Lexed :
      is_decimal_digit (byte l.source.text start) ≡ true → Lexed l start (lex_integer_literal l)
  unfolding lex_integer_literal
  lex_integer_literal-Lexed first =
      let back : l.current - 1 ≡ start = omega arith in
      let next : l.current + 0 ≡ start + 1 = omega arith in
      rw (back, next)
        (if_both (Lexed l start) (has_hex_prefix l.source.text start)
          (lex_hex_literal-Lexed l start at h) (lex_decimal_literal-Lexed first))
