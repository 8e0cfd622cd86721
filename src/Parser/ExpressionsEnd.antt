-- ===== src/Parser/ExpressionsEnd.antt =====
-- The depth of the expression routines: eight for each token left, and a few more for the routines
-- that call each other on the same token.
use nexc.Prelude.{ℕ, zero, suc, ◌+◌, ◌*◌, ◌≤◌, ◌≡◌, refl, Bool, false, List, arith, ltb}
use nexc.Source.{SourceSpan}
use nexc.Token.{
  TokenKind, is_kind, ordinal, end_of_file, identifier, integer_literal, float_literal,
  string_literal, kw_false, kw_true, left_paren, right_paren, left_bracket, right_bracket, comma,
}
use nexc.Syntax.{Expr}
use nexc.Parser.Cursor.{Parser, previous, here}
use nexc.Parser.Expressions.{
  binary_precedence, next_kind, is_prefix, literal, unexpected, parse_expr, binary_loop,
  parse_unary_expr, parse_postfix_expr, postfix_loop, parse_primary_expr, parse_array_literal,
  array_elements, parse_paren, parse_argument_list, arguments_loop,
}
use nexc.Parser.Progress.{
  Ready, Ends, left, left-After, Ends-pure, Ends-branch, progress, progress-le, advance-Ends,
  Ends-check, Ends-at_end, Ends-ask, Ends-error, Ends-first, Ends-both, Ends-match, error_at-Ends,
  expect-Ends,
}

-- The end of the file is no operator: a token that binds tightly enough is read past.
operator_further :
    (k : TokenKind) (min_precedence : ℕ)
    → 1 ≤ min_precedence
    → ltb (binary_precedence k) min_precedence ≡ false
    → is_kind k end_of_file ≡ false
unfolding binary_precedence ordinal
operator_further end_of_file m h e = ground arith
operator_further _ m h e = refl

unexpected-Ends : {t : Bool} {p : Parser} → Ready p → Ends t (progress p) p (unexpected p)
unfolding unexpected
unexpected-Ends {p} r = Ends-ask here _ (
    Ends-error _ _ _ r λ q ready same _.
      let same_progress : progress p ≡ progress q = rw same refl in
      rw same_progress (Ends-first _ _ (advance-Ends ready) λ token q' a. Ends-pure a.ready))

literal-Ends :
    {t : Bool} (node : SourceSpan → List ℕ → Expr) {p : Parser}
    → Ready p
    → Ends t 0 p (literal node p)
literal-Ends node r = Ends-ask previous _ (Ends-ask _ _ (Ends-pure r))

mutual
  unfolding parse_expr binary_loop parse_unary_expr parse_postfix_expr postfix_loop
      parse_primary_expr parse_array_literal array_elements parse_paren parse_argument_list
      arguments_loop

  pub parse_expr-Ends :
      (fuel min_precedence : ℕ) {t : Bool} {p : Parser}
      → 1 ≤ min_precedence
      → Ready p
      → 8 * left p + 4 ≤ fuel
      → Ends t (progress p) p (parse_expr fuel min_precedence p)
  parse_expr-Ends zero m h r enough = ground arith
  parse_expr-Ends (suc fuel) m {p} h r enough =
      Ends-first _ _ (parse_unary_expr-Ends fuel r (omega arith))
        λ expr q a. let now = left-After a in binary_loop-Ends fuel m expr h a.ready (omega arith)

  binary_loop-Ends :
      (fuel min_precedence : ℕ) (expr : Expr) {t : Bool} {p : Parser}
      → 1 ≤ min_precedence
      → Ready p
      → 8 * left p + 1 ≤ fuel
      → Ends t 0 p (binary_loop fuel min_precedence expr p)
  binary_loop-Ends zero m expr h r enough = ground arith
  binary_loop-Ends (suc fuel) m expr {p} h r enough =
      Ends-branch (ltb (binary_precedence (next_kind p)) m) _ _ (λ _. Ends-pure r)
        λ e.
          let further : progress p ≡ 1 =
            (let kept = operator_further (next_kind p) m h e in ground arith) in
          Ends-ask _ _ (
            Ends-both _ _ (advance-Ends r) λ op q a.
              let now = left-After a in
              Ends-both _ _ (parse_expr-Ends fuel _ (omega arith) a.ready (omega arith))
                λ right q' a'.
                  let later = left-After a' in binary_loop-Ends fuel m _ h a'.ready (omega arith))

  pub parse_unary_expr-Ends :
      (fuel : ℕ) {t : Bool} {p : Parser}
      → Ready p
      → 8 * left p + 3 ≤ fuel
      → Ends t (progress p) p (parse_unary_expr fuel p)
  parse_unary_expr-Ends zero r enough = ground arith
  parse_unary_expr-Ends (suc fuel) {p} r enough =
      Ends-branch (is_prefix p) _ _
        (λ prefix. Ends-first _ _ (advance-Ends r) λ op q a.
          let now = left-After a in
          let further : progress p ≡ 1 = ground arith in
          Ends-first _ _ (parse_unary_expr-Ends fuel a.ready (omega arith))
            λ operand q' a'. Ends-pure a'.ready)
        (λ _. parse_postfix_expr-Ends fuel r (omega arith))

  parse_postfix_expr-Ends :
      (fuel : ℕ) {t : Bool} {p : Parser}
      → Ready p
      → 8 * left p + 2 ≤ fuel
      → Ends t (progress p) p (parse_postfix_expr fuel p)
  parse_postfix_expr-Ends zero r enough = ground arith
  parse_postfix_expr-Ends (suc fuel) {p} r enough =
      Ends-first _ _ (parse_primary_expr-Ends fuel r (omega arith))
        λ expr q a. let now = left-After a in postfix_loop-Ends fuel expr a.ready (omega arith)

  postfix_loop-Ends :
      (fuel : ℕ) (expr : Expr) {t : Bool} {p : Parser}
      → Ready p
      → 8 * left p + 1 ≤ fuel
      → Ends t 0 p (postfix_loop fuel expr p)
  postfix_loop-Ends zero expr r enough = ground arith
  postfix_loop-Ends (suc fuel) expr {p} r enough =
      Ends-match left_paren _ _ r (omega arith)
        (λ q a.
          let now = left-After a in
          Ends-both _ _ (parse_argument_list-Ends fuel a.ready (omega arith)) λ arguments q' a'.
            let later = left-After a' in
            Ends-both _ _ (expect-Ends right_paren _ a'.ready) λ close q'' a''.
              let last = left-After a'' in postfix_loop-Ends fuel _ a''.ready (omega arith))
        (λ _.
          Ends-match left_bracket _ _ r (omega arith)
            (λ q a.
              let now = left-After a in
              Ends-both _ _ (parse_expr-Ends fuel 1 (omega arith) a.ready (omega arith))
                λ inner q' a'.
                  let later = left-After a' in
                  Ends-both _ _ (expect-Ends right_bracket _ a'.ready) λ close q'' a''.
                    let last = left-After a'' in postfix_loop-Ends fuel _ a''.ready (omega arith))
            (λ _. Ends-pure r))

  parse_primary_expr-Ends :
      (fuel : ℕ) {t : Bool} {p : Parser}
      → Ready p
      → 8 * left p + 1 ≤ fuel
      → Ends t (progress p) p (parse_primary_expr fuel p)
  parse_primary_expr-Ends zero r enough = ground arith
  parse_primary_expr-Ends (suc fuel) {p} r enough =
      let one = progress-le p in
      Ends-match integer_literal _ _ r one (λ q a. literal-Ends _ a.ready)
        λ _.
          Ends-match float_literal _ _ r one (λ q a. literal-Ends _ a.ready)
            λ _.
              Ends-match string_literal _ _ r one (λ q a. literal-Ends _ a.ready)
                λ _.
                  Ends-match kw_true _ _ r one (λ q a. Ends-ask _ _ (Ends-pure a.ready))
                    λ _.
                      Ends-match kw_false _ _ r one (λ q a. Ends-ask _ _ (Ends-pure a.ready))
                        λ _.
                          Ends-match identifier _ _ r one (λ q a. literal-Ends _ a.ready)
                            λ _.
                              Ends-match left_bracket _ _ r one
                                (λ q a.
                                  let now = left-After a in
                                  parse_array_literal-Ends fuel a.ready (omega arith))
                                λ _.
                                  Ends-match left_paren _ _ r one
                                    (λ q a.
                                      let now = left-After a in
                                      parse_paren-Ends fuel a.ready (omega arith))
                                    (λ _. unexpected-Ends r)

  parse_array_literal-Ends :
      (fuel : ℕ) {t : Bool} {p : Parser}
      → Ready p
      → 8 * left p + 6 ≤ fuel
      → Ends t 0 p (parse_array_literal fuel p)
  parse_array_literal-Ends zero r enough = ground arith
  parse_array_literal-Ends (suc fuel) {p} r enough = Ends-ask previous _ (
      Ends-both _ _
        (Ends-check right_bracket _ _ (λ _. Ends-pure r)
          (λ _. array_elements-Ends fuel r (omega arith)))
        λ elements q a.
          Ends-first _ _ (expect-Ends right_bracket _ a.ready) λ close q' a'. Ends-pure a'.ready)

  array_elements-Ends :
      (fuel : ℕ) {t : Bool} {p : Parser}
      → Ready p
      → 8 * left p + 5 ≤ fuel
      → Ends t 0 p (array_elements fuel p)
  array_elements-Ends zero r enough = ground arith
  array_elements-Ends (suc fuel) {p} r enough =
      Ends-both _ _ (parse_expr-Ends fuel 1 (omega arith) r (omega arith)) λ element q a.
        let now = left-After a in
        Ends-match comma _ _ a.ready (omega arith)
          (λ q' a'.
            let later = left-After a' in
            Ends-check right_bracket _ _
              (λ _.
                Ends-ask here _
                  (Ends-first _ _ (error_at-Ends _ _ a'.ready) λ _ q'' a''. Ends-pure a''.ready))
              (λ _.
                Ends-first _ _ (array_elements-Ends fuel a'.ready (omega arith))
                  λ rest q'' a''. Ends-pure a''.ready))
          (λ _. Ends-pure a.ready)

  parse_paren-Ends :
      (fuel : ℕ) {t : Bool} {p : Parser}
      → Ready p
      → 8 * left p + 5 ≤ fuel
      → Ends t 0 p (parse_paren fuel p)
  parse_paren-Ends zero r enough = ground arith
  parse_paren-Ends (suc fuel) {p} r enough = Ends-ask previous _ (
      Ends-both _ _ (parse_expr-Ends fuel 1 (omega arith) r (omega arith)) λ inner q a.
        Ends-first _ _ (expect-Ends right_paren _ a.ready) λ close q' a'. Ends-pure a'.ready)

  parse_argument_list-Ends :
      (fuel : ℕ) {t : Bool} {p : Parser}
      → Ready p
      → 8 * left p + 6 ≤ fuel
      → Ends t 0 p (parse_argument_list fuel p)
  parse_argument_list-Ends zero r enough = ground arith
  parse_argument_list-Ends (suc fuel) {p} r enough =
      Ends-check right_paren _ _ (λ _. Ends-pure r) (λ _. arguments_loop-Ends fuel r (omega arith))

  arguments_loop-Ends :
      (fuel : ℕ) {t : Bool} {p : Parser}
      → Ready p
      → 8 * left p + 5 ≤ fuel
      → Ends t 0 p (arguments_loop fuel p)
  arguments_loop-Ends zero r enough = ground arith
  arguments_loop-Ends (suc fuel) {p} r enough =
      Ends-at_end _ _ (λ _. Ends-pure r)
        λ _. Ends-both _ _ (parse_expr-Ends fuel 1 (omega arith) r (omega arith)) λ element q a.
          let now = left-After a in
          Ends-match comma _ _ a.ready (omega arith)
            (λ q' a'.
              let later = left-After a' in
              Ends-check right_paren _ _
                (λ _.
                  Ends-ask here _
                    (Ends-first _ _ (error_at-Ends _ _ a'.ready) λ _ q'' a''. Ends-pure a''.ready))
                (λ _.
                  Ends-first _ _ (arguments_loop-Ends fuel a'.ready (omega arith))
                    λ rest q'' a''. Ends-pure a''.ready))
            (λ _. Ends-pure a.ready)

-- With its cursor on one of tokens that end with an `EndOfFile`, and fuel of eight for each token
-- left and four more, `parseExpr` returns for a minimal precedence of at least 1, and never throws.
-- It leaves the source and the tokens as they are and
-- the cursor on one of them, and it reads at least one token unless it stands at the end of the
-- file.
pub parse_expr-returns :
    (fuel min_precedence : ℕ) {p : Parser}
    → 1 ≤ min_precedence
    → Ready p
    → 8 * left p + 4 ≤ fuel
    → Ends false (progress p) p (parse_expr fuel min_precedence p)
parse_expr-returns fuel m low r enough = parse_expr-Ends fuel m low r enough
