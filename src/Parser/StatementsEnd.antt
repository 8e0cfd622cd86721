-- ===== src/Parser/StatementsEnd.antt =====
-- The depth of the statement routines, on the same measure as the expression routines.
use nexc.Prelude.{ℕ, zero, suc, ◌+◌, ◌*◌, ◌≤◌, ◌≡◌, true, not, ◌&&◌, arith}
use nexc.Source.{SourceSpan}
use nexc.Token.{
  TokenKind, identifier, kw_let, kw_mut, kw_return, equal, right_paren, semicolon, colon,
}
use nexc.Syntax.{Stmt, MaybeStmt, null, present}
use nexc.Parser.Cursor.{Parser, check, is_at_end, ◌>>◌, pure, if_check, here, advance}
use nexc.Parser.Statements.{
  parse_let_stmt, parse_return_stmt, is_place, is_call, close_step, parse_for_step_clause,
  parse_assignment_or_call_stmt, skip_to_semicolon, parse_for_init, recover_init, close_clauses,
  parse_for_condition, parse_jump,
}
use nexc.Parser.Progress.{
  Ready, Ends, left, left-After, Ends-weaken, Ends-pure, Ends-branch, progress, taken, advance-Ends,
  match_kind-Ends, expect-Ends, error_at-Ends, Ends-check, Ends-match, Ends-ask, Ends-first,
  Ends-both,
}
use nexc.Parser.TypesEnd.{parse_type-Ends}
use nexc.Parser.ExpressionsEnd.{parse_expr-Ends, parse_unary_expr-Ends}

pub parse_let_stmt-Ends :
    (fuel : ℕ) {p : Parser}
    → Ready p
    → 8 * left p + 4 ≤ fuel
    → Ends true (taken p kw_let) p (parse_let_stmt fuel p)
unfolding parse_let_stmt
parse_let_stmt-Ends fuel r enough = Ends-first _ _ (expect-Ends kw_let _ r) λ _ q a.
    let now = left-After a in
    Ends-first _ _ (match_kind-Ends kw_mut a.ready) λ _ q1 a1.
      let now1 = left-After a1 in
      Ends-first _ _ (expect-Ends identifier _ a1.ready) λ _ q2 a2.
        let now2 = left-After a2 in
        Ends-first _ _
          (Ends-match colon _ _ a2.ready (omega arith)
            (λ q' a'.
              let later = left-After a' in
              Ends-weaken (omega arith) (parse_type-Ends fuel a'.ready (omega arith)))
            (λ _. Ends-pure a2.ready))
          λ _ q3 a3.
            let now3 = left-After a3 in
            Ends-first _ _
              (Ends-match equal _ _ a3.ready (omega arith)
                (λ q' a'.
                  let later = left-After a' in
                  Ends-both _ _ (parse_expr-Ends fuel 1 (omega arith) a'.ready (omega arith))
                    λ _ q'' a''. Ends-pure a''.ready)
                (λ _.
                  Ends-branch _ _ _ (λ _. Ends-pure a3.ready)
                    λ _.
                      Ends-ask here _ (
                        Ends-first _ _ (error_at-Ends _ _ a3.ready) λ _ q' a'. Ends-pure a'.ready)))
              λ _ q4 a4.
                Ends-first _ _ (expect-Ends semicolon _ a4.ready)
                  λ _ q5 a5. Ends-ask _ _ (Ends-pure a5.ready)

pub parse_return_stmt-Ends :
    (fuel : ℕ) {p : Parser}
    → Ready p
    → 8 * left p + 4 ≤ fuel
    → Ends true (taken p kw_return) p (parse_return_stmt fuel p)
unfolding parse_return_stmt
parse_return_stmt-Ends fuel r enough = Ends-first _ _ (expect-Ends kw_return _ r) λ _ q a.
    let now = left-After a in
    Ends-match semicolon _ _ a.ready (omega arith) (λ q' a'. Ends-ask _ _ (Ends-pure a'.ready))
      (λ _. Ends-both _ _ (parse_expr-Ends fuel 1 (omega arith) a.ready (omega arith)) λ _ q' a'.
        Ends-first _ _ (expect-Ends semicolon _ a'.ready) λ _ q'' a''. Ends-pure a''.ready)

close_step-Ends : {p : Parser} → Ready p → Ends true 0 p (close_step p)
close_step-Ends r =
    Ends-check right_paren _ _ (λ _. Ends-weaken (omega arith) (advance-Ends r))
      (λ _. Ends-weaken (omega arith) (expect-Ends right_paren _ r))

pub parse_for_step_clause-Ends :
    (fuel : ℕ) {p : Parser}
    → Ready p
    → 8 * left p + 4 ≤ fuel
    → Ends true 0 p (parse_for_step_clause fuel p)
unfolding parse_for_step_clause
parse_for_step_clause-Ends fuel r enough =
    Ends-check right_paren _ _ (λ _. Ends-pure r)
      λ _. Ends-ask _ _ (
        Ends-both _ _ (parse_unary_expr-Ends fuel r (omega arith)) λ lhs q a.
          let now = left-After a in
          Ends-match equal _ _ a.ready (omega arith)
            (λ q1 a1.
              let now1 = left-After a1 in
              Ends-branch (not (is_place lhs)) _ _
                (λ _. Ends-first _ _ (error_at-Ends _ _ a1.ready) λ _ q2 a2.
                  let now2 = left-After a2 in
                  Ends-both _ _ (parse_expr-Ends fuel 1 (omega arith) a2.ready (omega arith))
                    λ _ q3 a3.
                      Ends-first _ _ (close_step-Ends a3.ready) λ _ q4 a4. Ends-pure a4.ready)
                (λ _.
                  Ends-both _ _ (parse_expr-Ends fuel 1 (omega arith) a1.ready (omega arith))
                    λ _ q2 a2.
                      Ends-first _ _ (expect-Ends right_paren _ a2.ready)
                        λ _ q3 a3. Ends-pure a3.ready))
            (λ _.
              Ends-branch (not (is_call lhs)) _ _
                (λ _. Ends-first _ _ (error_at-Ends _ _ a.ready) λ _ q1 a1.
                  Ends-first _ _ (close_step-Ends a1.ready) λ _ q2 a2. Ends-pure a2.ready)
                (λ _.
                  Ends-both _ _ (expect-Ends right_paren _ a.ready) λ _ q1 a1. Ends-pure a1.ready)))

pub parse_assignment_or_call_stmt-Ends :
    (fuel : ℕ) {p : Parser}
    → Ready p
    → 8 * left p + 4 ≤ fuel
    → Ends true (progress p) p (parse_assignment_or_call_stmt fuel p)
unfolding parse_assignment_or_call_stmt
parse_assignment_or_call_stmt-Ends fuel r enough = Ends-ask _ _ (
    Ends-first _ _ (parse_unary_expr-Ends fuel r (omega arith)) λ lhs q a.
      let now = left-After a in
      Ends-match equal _ _ a.ready (omega arith)
        (λ q1 a1.
          let now1 = left-After a1 in
          Ends-branch (not (is_place lhs)) _ _
            (λ _. Ends-first _ _ (error_at-Ends _ _ a1.ready) λ _ q2 a2.
              let now2 = left-After a2 in
              Ends-both _ _ (parse_expr-Ends fuel 1 (omega arith) a2.ready (omega arith)) λ _ q3 a3.
                Ends-first _ _ (expect-Ends semicolon _ a3.ready) λ _ q4 a4. Ends-pure a4.ready)
            (λ _.
              Ends-both _ _ (parse_expr-Ends fuel 1 (omega arith) a1.ready (omega arith)) λ _ q2 a2.
                Ends-first _ _ (expect-Ends semicolon _ a2.ready) λ _ q3 a3. Ends-pure a3.ready))
        (λ _. Ends-both _ _ (expect-Ends semicolon _ a.ready) λ _ q1 a1.
          Ends-branch (not (is_call lhs)) _ _
            (λ _. Ends-first _ _ (error_at-Ends _ _ a1.ready) λ _ q2 a2. Ends-pure a2.ready)
            (λ _. Ends-pure a1.ready)))

skip_to_semicolon-Ends :
    (fuel : ℕ) {p : Parser} → Ready p → left p ≤ fuel → Ends true 0 p (skip_to_semicolon fuel p)
unfolding skip_to_semicolon
skip_to_semicolon-Ends zero r enough = let w = r.within in ground arith
skip_to_semicolon-Ends (suc fuel) {p} r enough =
    Ends-branch (not (is_at_end p) && not (check p semicolon)) _ _
      (λ e.
        let further : progress p ≡ 1 = ground arith in
        Ends-both _ _ (advance-Ends r)
          λ _ q a. let now = left-After a in skip_to_semicolon-Ends fuel a.ready (omega arith))
      (λ _. Ends-pure r)

read_or_skip :
    {p : Parser} (kind : TokenKind)
    → Ready p
    → Ends true 0 p (if_check kind (advance >> pure null) (pure null) p)
read_or_skip kind r =
    Ends-check kind _ _ (λ _. Ends-both _ _ (advance-Ends r) λ _ q a. Ends-pure a.ready)
      (λ _. Ends-pure r)

recover_init-Ends :
    (fuel : ℕ) (init : MaybeStmt) {p : Parser}
    → Ready p
    → left p ≤ fuel
    → Ends true 0 p (recover_init fuel init p)
unfolding recover_init
recover_init-Ends fuel (present stmt) r enough = Ends-pure r
recover_init-Ends fuel null r enough =
    Ends-first _ _ (skip_to_semicolon-Ends fuel r enough) λ _ q a. read_or_skip semicolon a.ready

pub parse_for_init-Ends :
    (fuel : ℕ) {p : Parser}
    → Ready p
    → 8 * left p + 4 ≤ fuel
    → Ends true 0 p (parse_for_init fuel p)
unfolding parse_for_init
parse_for_init-Ends fuel r enough =
    Ends-check semicolon _ _ (λ _. Ends-both _ _ (advance-Ends r) λ _ q a. Ends-pure a.ready)
      (λ _.
        Ends-check kw_let _ _
          (λ _. Ends-both _ _ (parse_let_stmt-Ends fuel r enough) λ _ q a. Ends-pure a.ready)
          (λ _. Ends-both _ _ (parse_assignment_or_call_stmt-Ends fuel r enough) λ init q a.
            let now = left-After a in recover_init-Ends fuel init a.ready (omega arith)))

pub parse_for_condition-Ends :
    (fuel : ℕ) {p : Parser}
    → Ready p
    → 8 * left p + 4 ≤ fuel
    → Ends true 0 p (parse_for_condition fuel p)
unfolding parse_for_condition
parse_for_condition-Ends fuel r enough =
    Ends-check semicolon _ _ (λ _. Ends-both _ _ (advance-Ends r) λ _ q a. Ends-pure a.ready)
      (λ _.
        Ends-both _ _ (parse_expr-Ends fuel 1 (omega arith) r enough)
          λ _ q a. Ends-first _ _ (expect-Ends semicolon _ a.ready) λ _ q' a'. Ends-pure a'.ready)

pub parse_jump-Ends :
    (kind : TokenKind) (node : SourceSpan → Stmt) {p : Parser}
    → Ready p
    → Ends true (taken p kind) p (parse_jump kind node p)
unfolding parse_jump
parse_jump-Ends kind node r =
    Ends-first _ _ (expect-Ends kind _ r)
      λ _ q a. Ends-first _ _ (expect-Ends semicolon _ a.ready) λ _ q' a'. Ends-pure a'.ready

pub close_clauses-Ends :
    (step : MaybeStmt) {p : Parser} → Ready p → Ends true 0 p (close_clauses step p)
unfolding close_clauses
close_clauses-Ends (present stmt) r = Ends-pure r
close_clauses-Ends null r = Ends-both _ _ (expect-Ends right_paren _ r) λ _ q a. Ends-pure a.ready
