-- ===== src/Lexer/TriviaSound.antt =====
-- `skipWhitespaceAndComments` against the description of trivia.
use nexc.Prelude.{
  ℕ, zero, suc, ◌+◌, ◌≤◌, ◌<◌, true, false, ◌&&◌, ◌≡◌, refl, ◌∙◌, inl, inr, ◌⊎◌, arith, if_both,
  ◌==◌,
}
use native.Mathlib.Decide.{dec_lt}
use native.Mathlib.Nat.{add-zero}
use nexc.Prelude.{get_or-inside}
use nexc.Source.{size}
use nexc.Diagnostic.{report_error}
use nexc.Lexer.Cursor.{Lexer, is_at_end, peek, skip, remaining, error_from, advance_over}
use nexc.Lexer.Trivia.{
  Round, again, finished, is_blank, not_newline, not_closing, skip_block_comment, trivia_round,
  trivia_loop, skip_whitespace_and_comments,
}
use nexc.Lexer.Grammar.{
  MaximalRun, Trivia, nothing, blank, line_comment, block_comment, byte, closes, starts_trivia,
}
use nexc.Lexer.Loops.{moved, Reaches, advance_while_lem, advance_over_lem}

pub record Skipped (l l' : Lexer) : Type 0 where
  pub same_source : l'.source ≡ l.source
  pub from : l.current ≤ l'.current
  pub inside : l'.current ≤ size l.source
  pub stopped : (l'.current ≡ size l.source) ⊎ (starts_trivia l.source.text l'.current ≡ false)
  pub trivia :
      l'.diagnostics.has_errors ≡ false
      → (l'.diagnostics ≡ l.diagnostics) × Trivia l.source.text l.current l'.current

-- A round that goes on has read trivia, which may stand in front of more.
record WentOn (l l' : Lexer) : Type 0 where
  same_source : l'.source ≡ l.source
  same_diagnostics : l'.diagnostics ≡ l.diagnostics
  from : l.current < l'.current
  inside : l'.current ≤ size l.source
  joins : (b : ℕ) → Trivia l.source.text l'.current b → Trivia l.source.text l.current b

abbrev RoundReads : Lexer → Round → Type 0
RoundReads l (again l') = WentOn l l'
RoundReads l (finished l') = Skipped l l'

module _ (l : Lexer) (h : l.current ≤ size l.source) where
  stays :
      (l.current ≡ size l.source) ⊎ (starts_trivia l.source.text l.current ≡ false) → Skipped l l
  stays s = record {
    same_source = refl;
    from = omega arith;
    inside = h;
    stopped = s;
    trivia = λ e. (refl, nothing refl);
  }

  opens_comment :
      (d : ℕ)
      → (peek l 0 == b'/' && peek l 1 == d) ≡ true
      → (byte l.source.text l.current ≡ b'/') × (byte l.source.text (l.current + 1) ≡ d)
  opens_comment d e = let same = rw add-zero at e in (ground arith, ground arith)

  line_comment_reads :
      is_at_end l ≡ false
      → (peek l 0 == b'/' && peek l 1 == b'/') ≡ true
      → WentOn l (advance_over not_newline l)
  line_comment_reads more opens =
      let (n, e, run) = advance_over_lem not_newline l h in
      let (slash, both) = opens_comment b'/' opens in
      rw e (record {
        same_source = refl;
        same_diagnostics = refl;
        from = past n run slash;
        inside = run.inside;
        joins = λ b rest. line_comment n slash both run rest;
      })
    where
      past :
          (n : ℕ)
          → MaximalRun not_newline l.source.text l.current n
          → byte l.source.text l.current ≡ b'/'
          → l.current < n
      past n run slash = elim (dec_lt l.current n) [
        | yes later ↦ later
        | no early ↦
            let same : n ≡ l.current = omega (arith, run.from) in
            absurd (ground (arith, rw same at run.stopped))
      ]

  unclosed :
      (n : ℕ)
      → l.current ≤ n
      → n ≤ size l.source
      → n ≡ size l.source
      → Skipped l (error_from (moved l n) l.current "unterminated block comment")
  unfolding report_error
  unclosed n from inside end = record {
    same_source = refl;
    from = from;
    inside = inside;
    stopped = inl end;
    trivia = λ e. cc;
  }

  closed :
      (n : ℕ)
      → byte l.source.text l.current ≡ b'/'
      → byte l.source.text (l.current + 1) ≡ b'*'
      → Reaches not_closing (skip (skip l)) n
      → not_closing (moved l n) ≡ false
      → WentOn l (skip (skip (moved l n)))
  closed n slash star r ends =
      let t = l.source.text in
      let closing : closes t n ≡ true = let e = rw add-zero at ends in ground arith in
      let inside : n + 1 < size l.source = get_or-inside t (n + 1) 0 (ground arith) in
      let two : n + 1 + 1 ≡ n + 2 = omega arith in
      record {
        same_source = refl;
        same_diagnostics = refl;
        from = omega (arith, r.from);
        inside = omega arith;
        joins = λ b rest.
            block_comment n slash star (omega (arith, r.from)) closing
              (λ i a before.
                let e = rw add-zero at (r.passed i (omega arith) before) in ground arith)
              (rw two at rest);
      }

  block_comment_reads :
      is_at_end l ≡ false
      → (peek l 0 == b'/' && peek l 1 == b'*') ≡ true
      → RoundReads l (skip_block_comment l)
  unfolding skip_block_comment
  block_comment_reads more opens =
      let (slash, star) = opens_comment b'*' opens in
      let two_bytes : l.current + 1 < size l.source =
        get_or-inside l.source.text (l.current + 1) 0 (ground arith) in
      let opened = skip (skip l) in
      let (n, e, r) =
        advance_while_lem not_closing (remaining opened) opened (omega arith) (omega arith) in
      rw e (
        if_both (RoundReads l) (is_at_end (moved l n))
          (λ end. unclosed n (omega (arith, r.from)) r.inside (ground arith))
          λ goes. closed n slash star r (ground (arith, r.stopped)))

  trivia_round-reads : RoundReads l (trivia_round l)
  unfolding trivia_round
  trivia_round-reads =
      if_both (RoundReads l) (is_at_end l) (λ e. stays (inl (ground arith)))
        λ more.
          if_both (RoundReads l) (is_blank (peek l 0))
            (λ e. record {
              same_source = refl;
              same_diagnostics = refl;
              from = omega arith;
              inside = ground arith;
              joins = λ b rest. blank (ground arith) (rw add-zero at e) rest;
            })
            λ not_blank.
              if_both (RoundReads l) (peek l 0 == b'/' && peek l 1 == b'/')
                (line_comment_reads more)
                λ no_line.
                  if_both (RoundReads l) (peek l 0 == b'/' && peek l 1 == b'*')
                    (block_comment_reads more)
                    λ no_block. stays (
                      inr (
                        let e₀ = rw add-zero at not_blank in
                        let e₁ = rw add-zero at no_line in
                        let e₂ = rw add-zero at no_block in ground arith))

Skipped-after : {l l' l'' : Lexer} → WentOn l l' → Skipped l' l'' → Skipped l l''
Skipped-after {l} {l'} {l''} w s =
    let trivia_after : l''.diagnostics.has_errors ≡ false
        → (l''.diagnostics ≡ l'.diagnostics) × Trivia l.source.text l'.current l''.current =
      rw w.same_source at s.trivia in
    record {
      same_source = s.same_source ∙ w.same_source;
      from = omega (arith, w.from, s.from);
      inside = rw w.same_source at s.inside;
      stopped = rw w.same_source at s.stopped;
      trivia =
          λ e. ((trivia_after e).0 ∙ w.same_diagnostics, w.joins l''.current (trivia_after e).1);
    }

Round-Skipped :
    (l : Lexer) (after : Lexer → Lexer) (r : Round)
    → RoundReads l r
    → ((l' : Lexer) → WentOn l l' → Skipped l' (after l'))
    → Skipped l (elim r [ again l' ↦ after l' | finished l' ↦ l' ])
Round-Skipped l after (again l') w rest = Skipped-after w (rest l' w)
Round-Skipped l after (finished l') s rest = s

trivia_loop-Skipped :
    (fuel : ℕ) (l : Lexer)
    → l.current ≤ size l.source
    → remaining l ≤ fuel
    → Skipped l (trivia_loop fuel l)
unfolding trivia_loop
trivia_loop-Skipped zero l h f = stays l h (inl (omega arith))
trivia_loop-Skipped (suc fuel) l h f =
    Round-Skipped l (trivia_loop fuel) (trivia_round l) (trivia_round-reads l h) λ l' w.
      let inside : l'.current ≤ size l'.source = rw (← w.same_source) at w.inside in
      let same_size : size l'.source ≡ size l.source = rw w.same_source in
      trivia_loop-Skipped fuel l' inside (omega (arith, w.from))

pub skip_whitespace_and_comments-Skipped :
    (l : Lexer) → l.current ≤ size l.source → Skipped l (skip_whitespace_and_comments l)
unfolding skip_whitespace_and_comments
skip_whitespace_and_comments-Skipped l h = trivia_loop-Skipped (remaining l) l h (omega arith)
