-- ===== src/Parser/BlocksEnd.antt =====
-- Blocks, and the statements with statements in them.
use nexc.Prelude.{
  codes, ℕ, zero, suc, ◌+◌, ◌*◌, ◌≤◌, ◌≡◌, refl, Bool, true, false, not, ◌&&◌, String, arith,
}
use nexc.Diagnostic.{report_error}
use nexc.Token.{
  kw_break, kw_const, kw_continue, kw_else, kw_for, kw_if, kw_let, kw_return, kw_while, left_paren,
  right_paren, left_brace, right_brace,
}
use nexc.Syntax.{Stmt, Stmts, MaybeStmt, null, present}
use nexc.Parser.Cursor.{
  Parser, Routine, Outcome, returned, thrown, peek, check, is_at_end, ◌>>=◌, branch, here, error_at,
}
use nexc.Parser.Statements.{
  collect, starts_expression, refuse, statement, parse_block_stmt, block_loop, parse_stmt,
  parse_if_stmt, parse_while_stmt, parse_for_stmt,
}
use nexc.Parser.Progress.{
  Ready, After, Ends, ended, threw, left, left-After, Ends-weaken, Ends-After, Ends-pure,
  Ends-branch, progress, taken, advance-Ends, expect-Ends, Ends-check, Ends-match, Ends-first,
  Ends-both,
}
use nexc.Parser.ExpressionsEnd.{parse_expr-Ends}
use nexc.Parser.StatementsEnd.{
  parse_let_stmt-Ends, parse_return_stmt-Ends, parse_for_step_clause-Ends,
  parse_assignment_or_call_stmt-Ends, parse_for_init-Ends, parse_for_condition-Ends,
  parse_jump-Ends, close_clauses-Ends,
}

-- `parseStmt` reads a token, or refuses the token at the cursor and stays there.
data StmtRead (p : Parser) : Outcome MaybeStmt → Type 0 where
  parsed : (stmt : MaybeStmt) {q : Parser} → After 1 p q → StmtRead p (returned stmt q)
  refused :
      {q : Parser} → After 0 p q → (peek q 0).kind ≡ (peek p 0).kind → StmtRead p (returned null q)
  gave_up : StmtRead p thrown

Ends-StmtRead : {p : Parser} {o : Outcome MaybeStmt} → Ends true 1 p o → StmtRead p o
Ends-StmtRead (ended stmt a) = parsed stmt a
Ends-StmtRead (threw _) = gave_up

StmtRead-Ends : {p : Parser} {o : Outcome MaybeStmt} → StmtRead p o → Ends true 0 p o
StmtRead-Ends (parsed stmt a) = Ends-weaken (omega arith) (ended stmt a)
StmtRead-Ends (refused a _) = ended null a
StmtRead-Ends gave_up = threw refl

StmtRead-branch :
    {p : Parser} (b : Bool) (x y : Routine MaybeStmt)
    → (b ≡ true → StmtRead p (x p))
    → (b ≡ false → StmtRead p (y p))
    → StmtRead p (branch b x y p)
unfolding branch
StmtRead-branch true x y hx hy = hx refl
StmtRead-branch false x y hx hy = hy refl

refuse-StmtRead : (message : String) {p : Parser} → Ready p → StmtRead p (refuse message p)
unfolding ◌>>=◌ error_at peek
refuse-StmtRead message {p} r =
    let q : Parser = record p {
      diagnostics = report_error p.diagnostics (here p) (codes message);
    } in
    refused {q = q}
      (record {
        ready = record { within = r.within; closed = r.closed };
        source = refl;
        tokens = refl;
        gained = omega arith;
      })
      refl

-- A statement that is some routine's whole result.
statement-StmtRead :
    {p : Parser} (m : Routine Stmt) → Ends true 1 p (m p) → StmtRead p ((m >>= statement) p)
statement-StmtRead m e = Ends-StmtRead (Ends-first _ _ e λ _ q a. Ends-pure a.ready)

-- The rest of a block is read behind a further token.
module _ (p : Parser) (rest : Routine Stmts)
    (rest_ends : (q : Parser) → Ready q → left q + 1 ≤ left p → Ends true 0 q (rest q)) where
  collect-Ends : (stmt : MaybeStmt) {q : Parser} → After 1 p q → Ends true 0 q (collect stmt rest q)
  unfolding collect
  collect-Ends (present stmt) a =
      let now = left-After a in
      Ends-first _ _ (rest_ends _ a.ready now) λ _ q1 a1. Ends-pure a1.ready
  collect-Ends null a =
      let now = left-After a in
      Ends-both _ _
        (Ends-check right_brace _ _ (λ _. Ends-pure a.ready)
          (λ _. Ends-both _ _ (advance-Ends a.ready) λ _ q1 a1. Ends-pure a1.ready))
        λ _ q2 a2. let later = left-After a2 in rest_ends _ a2.ready (omega arith)

  collect_refused-Ends :
      {q : Parser}
      → After 0 p q
      → is_at_end q ≡ false
      → check q right_brace ≡ false
      → Ends true 0 q (collect null rest q)
  unfolding collect
  collect_refused-Ends {q} a further inside =
      let now = left-After a in
      let one : 1 ≤ progress q = ground arith in
      Ends-both _ _
        (Ends-check {k = 1} right_brace _ _ (λ e. ground arith)
          (λ _.
            Ends-first _ _ (Ends-weaken one (advance-Ends a.ready)) λ _ q1 a1. Ends-pure a1.ready))
        λ _ q2 a2. let later = left-After a2 in rest_ends _ a2.ready (omega arith)

  collect_outcome :
      (o : Outcome MaybeStmt)
      → is_at_end p ≡ false
      → check p right_brace ≡ false
      → StmtRead p o
      → Ends true 0 p (((λ _. o) >>= λ stmt. collect stmt rest) p)
  unfolding ◌>>=◌
  collect_outcome o further inside (parsed stmt a) =
      Ends-weaken (omega arith) (Ends-After a (collect-Ends stmt a))
  collect_outcome o further inside (refused {q} a same) =
      let open_q : is_at_end q ≡ false = rw same further in
      let inside_q : check q right_brace ≡ false = rw same inside in
      Ends-weaken (omega arith) (Ends-After a (collect_refused-Ends a open_q inside_q))
  collect_outcome o further inside gave_up = threw refl

  collect-StmtRead :
      (m : Routine MaybeStmt)
      → is_at_end p ≡ false
      → check p right_brace ≡ false
      → StmtRead p (m p)
      → Ends true 0 p ((m >>= λ stmt. collect stmt rest) p)
  unfolding ◌>>=◌
  collect-StmtRead m further inside x = collect_outcome (m p) further inside x

mutual
  unfolding parse_block_stmt block_loop parse_stmt parse_if_stmt parse_while_stmt parse_for_stmt

  pub parse_block_stmt-Ends :
      (fuel : ℕ) {p : Parser}
      → Ready p
      → 8 * left p + 7 ≤ fuel + 8 * taken p left_brace
      → Ends true (taken p left_brace) p (parse_block_stmt fuel p)
  parse_block_stmt-Ends zero r enough = let w = r.within in ground arith
  parse_block_stmt-Ends (suc fuel) r enough = Ends-first _ _ (expect-Ends left_brace _ r) λ _ q a.
      let now = left-After a in
      Ends-first _ _ (block_loop-Ends fuel a.ready (omega arith))
        λ _ q1 a1. Ends-first _ _ (expect-Ends right_brace _ a1.ready) λ _ q2 a2. Ends-pure a2.ready

  block_loop-Ends :
      (fuel : ℕ) {p : Parser} → Ready p → 8 * left p + 6 ≤ fuel → Ends true 0 p (block_loop fuel p)
  block_loop-Ends zero r enough = ground arith
  block_loop-Ends (suc fuel) {p} r enough =
      Ends-branch (not (is_at_end p) && not (check p right_brace)) _ _
        (λ e.
          collect-StmtRead p (block_loop fuel)
            (λ q ready less. block_loop-Ends fuel ready (omega arith)) (parse_stmt fuel)
            (ground arith) (ground arith) (parse_stmt-StmtRead fuel r (omega arith)))
        (λ _. Ends-pure r)

  parse_stmt-StmtRead :
      (fuel : ℕ) {p : Parser} → Ready p → 8 * left p + 5 ≤ fuel → StmtRead p (parse_stmt fuel p)
  parse_stmt-StmtRead zero r enough = ground arith
  parse_stmt-StmtRead (suc fuel) {p} r enough =
      StmtRead-branch (check p left_brace) _ _
        (λ e.
          statement-StmtRead _
            (Ends-weaken (ground arith) (parse_block_stmt-Ends fuel r (ground arith))))
        λ _.
          StmtRead-branch (check p kw_let) _ _
            (λ e.
              statement-StmtRead _
                (Ends-weaken (ground arith) (parse_let_stmt-Ends fuel r (omega arith))))
            λ _.
              StmtRead-branch (check p kw_return) _ _
                (λ e.
                  statement-StmtRead _
                    (Ends-weaken (ground arith) (parse_return_stmt-Ends fuel r (omega arith))))
                λ _.
                  StmtRead-branch (check p kw_break) _ _
                    (λ e. Ends-StmtRead (Ends-weaken (ground arith) (parse_jump-Ends kw_break _ r)))
                    λ _.
                      StmtRead-branch (check p kw_continue) _ _
                        (λ e.
                          Ends-StmtRead
                            (Ends-weaken (ground arith) (parse_jump-Ends kw_continue _ r)))
                        λ _.
                          StmtRead-branch (check p kw_if) _ _
                            (λ e. statement-StmtRead _ (parse_if_stmt-Ends fuel r e (omega arith)))
                            λ _.
                              StmtRead-branch (check p kw_while) _ _
                                (λ e.
                                  statement-StmtRead _
                                    (parse_while_stmt-Ends fuel r e (omega arith)))
                                λ _.
                                  StmtRead-branch (check p kw_for) _ _
                                    (λ e.
                                      statement-StmtRead _
                                        (parse_for_stmt-Ends fuel r e (omega arith)))
                                    λ _.
                                      StmtRead-branch (check p kw_const) _ _
                                        (λ _. refuse-StmtRead _ r)
                                        λ _.
                                          StmtRead-branch (starts_expression p) _ _
                                            (λ e.
                                              let further : 1 ≤ progress p = ground arith in
                                              Ends-StmtRead (
                                                Ends-weaken further (
                                                  parse_assignment_or_call_stmt-Ends fuel r
                                                    (omega arith))))
                                            (λ _. refuse-StmtRead _ r)

  parse_if_stmt-Ends :
      (fuel : ℕ) {p : Parser}
      → Ready p
      → check p kw_if ≡ true
      → 8 * left p + 4 ≤ fuel
      → Ends true 1 p (parse_if_stmt fuel p)
  parse_if_stmt-Ends zero r e enough = ground arith
  parse_if_stmt-Ends (suc fuel) {p} r e enough =
      let one : 1 ≤ taken p kw_if = ground arith in
      Ends-first _ _ (Ends-weaken one (expect-Ends kw_if _ r)) λ _ q a.
        let now = left-After a in
        Ends-first _ _ (expect-Ends left_paren _ a.ready) λ _ q1 a1.
          let now1 = left-After a1 in
          Ends-first _ _ (parse_expr-Ends fuel 1 (omega arith) a1.ready (omega arith)) λ _ q2 a2.
            let now2 = left-After a2 in
            Ends-first _ _ (expect-Ends right_paren _ a2.ready) λ _ q3 a3.
              let now3 = left-After a3 in
              Ends-first _ _ (StmtRead-Ends (parse_stmt-StmtRead fuel a3.ready (omega arith)))
                λ _ q4 a4.
                  let now4 = left-After a4 in
                  Ends-first _ _
                    (Ends-match kw_else _ _ a4.ready (omega arith)
                      (λ q' a'.
                        let later = left-After a' in
                        StmtRead-Ends (parse_stmt-StmtRead fuel a'.ready (omega arith)))
                      (λ _. Ends-pure a4.ready))
                    λ _ q5 a5. Ends-pure a5.ready

  parse_while_stmt-Ends :
      (fuel : ℕ) {p : Parser}
      → Ready p
      → check p kw_while ≡ true
      → 8 * left p + 4 ≤ fuel
      → Ends true 1 p (parse_while_stmt fuel p)
  parse_while_stmt-Ends zero r e enough = ground arith
  parse_while_stmt-Ends (suc fuel) {p} r e enough =
      let one : 1 ≤ taken p kw_while = ground arith in
      Ends-first _ _ (Ends-weaken one (expect-Ends kw_while _ r)) λ _ q a.
        let now = left-After a in
        Ends-first _ _ (expect-Ends left_paren _ a.ready) λ _ q1 a1.
          let now1 = left-After a1 in
          Ends-first _ _ (parse_expr-Ends fuel 1 (omega arith) a1.ready (omega arith)) λ _ q2 a2.
            let now2 = left-After a2 in
            Ends-first _ _ (expect-Ends right_paren _ a2.ready) λ _ q3 a3.
              let now3 = left-After a3 in
              Ends-first _ _ (StmtRead-Ends (parse_stmt-StmtRead fuel a3.ready (omega arith)))
                λ _ q4 a4. Ends-pure a4.ready

  parse_for_stmt-Ends :
      (fuel : ℕ) {p : Parser}
      → Ready p
      → check p kw_for ≡ true
      → 8 * left p + 4 ≤ fuel
      → Ends true 1 p (parse_for_stmt fuel p)
  parse_for_stmt-Ends zero r e enough = ground arith
  parse_for_stmt-Ends (suc fuel) {p} r e enough =
      let one : 1 ≤ taken p kw_for = ground arith in
      Ends-first _ _ (Ends-weaken one (expect-Ends kw_for _ r)) λ _ q a.
        let now = left-After a in
        Ends-first _ _ (expect-Ends left_paren _ a.ready) λ _ q1 a1.
          let now1 = left-After a1 in
          Ends-first _ _ (parse_for_init-Ends fuel a1.ready (omega arith)) λ _ q2 a2.
            let now2 = left-After a2 in
            Ends-first _ _ (parse_for_condition-Ends fuel a2.ready (omega arith)) λ _ q3 a3.
              let now3 = left-After a3 in
              Ends-first _ _ (parse_for_step_clause-Ends fuel a3.ready (omega arith)) λ step q4 a4.
                let now4 = left-After a4 in
                Ends-first _ _ (close_clauses-Ends step a4.ready) λ _ q5 a5.
                  let now5 = left-After a5 in
                  Ends-first _ _ (StmtRead-Ends (parse_stmt-StmtRead fuel a5.ready (omega arith)))
                    λ _ q6 a6. Ends-pure a6.ready
