-- ===== src/Lexer/Loops.antt =====
-- Where `advance_while` stops.
use nexc.Prelude.{
  ℕ, zero, suc, ◌+◌, ◌≤◌, ◌<◌, Bool, true, false, not, ◌&&◌, ◌≡◌, refl, sym, subst, inl, inr, ◌⊎◌,
  arith, Bool-cases,
}
use native.Mathlib.Decide.{ℕ_discrete}
use native.Mathlib.Nat.{add-zero}
use nexc.Source.{size}
use nexc.Lexer.Cursor.{Lexer, is_at_end, peek, skip, remaining, advance_while, advance_over}
use nexc.Lexer.Grammar.{MaximalRun}

-- The lexer with its cursor at `n`.
abbrev pub moved : Lexer → ℕ → Lexer
moved l n = record l { current = n }

pub record Reaches (test : Lexer → Bool) (l : Lexer) (n : ℕ) : Type 0 where
  pub from : l.current ≤ n
  pub inside : n ≤ size l.source
  pub passed : (i : ℕ) → l.current ≤ i → i < n → test (moved l i) ≡ true
  pub stopped : (n ≡ size l.source) ⊎ (test (moved l n) ≡ false)

passed_first :
    (test : Lexer → Bool) (l : Lexer) (n i : ℕ)
    → test l ≡ true
    → ((j : ℕ) → l.current + 1 ≤ j → j < n → test (moved l j) ≡ true)
    → l.current ≤ i
    → i < n
    → test (moved l i) ≡ true
passed_first test l n i first later from before = elim (ℕ_discrete i l.current) [
  | yes same ↦ subst (λ k. test (moved l k) ≡ true) (sym same) first
  | no other ↦ later i (omega arith) before
]

pub advance_while_lem :
    (test : Lexer → Bool) (fuel : ℕ) (l : Lexer)
    → l.current ≤ size l.source
    → remaining l ≤ fuel
    → (n : ℕ) × (advance_while test fuel l ≡ moved l n) × Reaches test l n
unfolding advance_while
advance_while_lem test zero l h f = (
  l.current,
  refl,
  record {
    from = omega arith;
    inside = h;
    passed = λ i a b. absurd (omega arith);
    stopped = inl (omega arith);
  },
)
advance_while_lem test (suc fuel) l h f = elim (Bool-cases (not (is_at_end l) && test l)) [
  | inl goes ↦
      let inside : l.current < size l.source = ground arith in
      let first : test l ≡ true = ground arith in
      let (n, e, r) = advance_while_lem test fuel (skip l) (omega arith) (omega arith) in
      (
        n,
        rw goes e,
        record {
          from = omega (arith, r.from);
          inside = r.inside;
          passed = λ i. passed_first test l n i first r.passed;
          stopped = r.stopped;
        },
      )
  | inr stops ↦ (
    l.current,
    rw stops,
    record {
      from = omega arith;
      inside = h;
      passed = λ i a b. absurd (omega arith);
      stopped = ground arith;
    },
  )
]

-- For a test on the byte at the cursor the loop reads a maximal run of such bytes.
pub advance_over_lem :
    (p : ℕ → Bool) (l : Lexer)
    → l.current ≤ size l.source
    → (n : ℕ) × (advance_over p l ≡ moved l n) × MaximalRun p l.source.text l.current n
advance_over_lem p l h =
    let (n, e, r) = advance_while_lem (λ s. p (peek s 0)) (remaining l) l h (omega arith) in
    (
      n,
      e,
      record {
        from = r.from;
        inside = r.inside;
        passed = λ i a b. rw add-zero at (r.passed i a b);
        stopped = elim r.stopped [ inl end ↦ inl end | inr fails ↦ inr (rw add-zero at fails) ];
      },
    )
