-- ===== src/Parser/Grouping.antt =====
-- How expressions are grouped: what precedence climbing may put below an operator.
use nexc.Prelude.{
  ℕ, zero, suc, ◌+◌, ◌-◌, ◌≤◌, ◌<◌, ◌≡◌, refl, ap, subst, Bool, true, false, List, ltb, arith,
}
use nexc.Source.{SourceSpan}
use nexc.Token.{
  TokenKind, Token, is_kind, ordinal, end_of_file, identifier, integer_literal, float_literal,
  string_literal, kw_false, kw_true, left_paren, right_paren, left_bracket, right_bracket, comma,
}
use nexc.Syntax.{
  Expr, Exprs, no_exprs, and_expr, bool_literal, name, call, unary, binary, paren, array_literal,
  index,
}
use nexc.Parser.Cursor.{
  Parser, Routine, Outcome, returned, thrown, out_of_fuel, peek, previous, is_at_end, check, ◌>>=◌,
  pure, ask, branch, if_match, here, advance, match_kind,
}
use nexc.Parser.Expressions.{
  binary_precedence, next_kind, is_prefix, literal, unexpected, parse_expr, binary_loop,
  parse_unary_expr, parse_postfix_expr, postfix_loop, parse_primary_expr, parse_array_literal,
  array_elements, parse_paren, parse_argument_list, arguments_loop,
}

-- How tightly the outermost form of an expression binds.
unfoldable pub level : Expr → ℕ
level (binary _ _ op _) = binary_precedence op
level (unary _ _ _) = 11
level _ = 12

-- Below a binary operator stand, to the left, no looser operator, and to the right only tighter
-- ones; below a prefix no binary operator; and no operator at all before arguments or an index,
-- unless in parentheses.
unfoldable mutual
  pub Grouped : Expr → Type 0
  Grouped (Expr.integer_literal _ _) = Unit
  Grouped (Expr.float_literal _ _) = Unit
  Grouped (bool_literal _ _) = Unit
  Grouped (Expr.string_literal _ _) = Unit
  Grouped (name _ _) = Unit
  Grouped (call _ callee arguments) = (12 ≤ level callee) × Grouped callee × AllGrouped arguments
  Grouped (unary _ _ operand) = (11 ≤ level operand) × Grouped operand
  Grouped (binary _ left op right) =
      (1 ≤ binary_precedence op)
      × (binary_precedence op ≤ level left)
      × (binary_precedence op < level right)
      × Grouped left
      × Grouped right
  Grouped (paren _ inner) = Grouped inner
  Grouped (array_literal _ elements) = AllGrouped elements
  Grouped (index _ base inner) = (12 ≤ level base) × Grouped base × Grouped inner

  pub AllGrouped : Exprs → Type 0
  AllGrouped no_exprs = Unit
  AllGrouped (and_expr e es) = Grouped e × AllGrouped es

-- What holds of the value and the parser, if a routine returns.
pub data Yields {ℓ} {A : Type ℓ} (P : A → Parser → Type 0) : Outcome A → Type ℓ where
  yields : (a : A) {q : Parser} → P a q → Yields P (returned a q)
  throws : Yields P thrown
  runs_out : Yields P out_of_fuel

abbrev Anything {ℓ} : {A : Type ℓ} → A → Parser → Type 0
Anything a q = Unit {0}

anything {ℓ} : {A : Type ℓ} (o : Outcome A) → Yields Anything o
anything (returned a q) = yields a tt
anything thrown = throws
anything out_of_fuel = runs_out

Yields-bind {ℓ κ} :
    {A : Type ℓ} {B : Type κ} {P : A → Parser → Type 0} {Q : B → Parser → Type 0} {p : Parser}
    (m : Routine A) (f : A → Routine B)
    → Yields P (m p)
    → ((a : A) (q : Parser) → P a q → Yields Q (f a q))
    → Yields Q ((m >>= f) p)
unfolding ◌>>=◌
Yields-bind {A = A} {P} {Q} {p} m f h k = go (m p) h
  where
    go : (o : Outcome A) → Yields P o → Yields Q (((λ _. o) >>= f) p)
    go o (yields a {q} x) = k a q x
    go o throws = throws
    go o runs_out = runs_out

-- The first of two routines may return anything.
Yields-then {ℓ κ} :
    {A : Type ℓ} {B : Type κ} {Q : B → Parser → Type 0} (p : Parser) (m : Routine A)
    (f : A → Routine B)
    → ((a : A) (q : Parser) → Yields Q (f a q))
    → Yields Q ((m >>= f) p)
Yields-then p m f k = Yields-bind m f (anything (m p)) (λ a q _. k a q)

Yields-ask {ℓ κ} :
    {A : Type ℓ} {B : Type κ} {Q : B → Parser → Type 0} {p : Parser} (g : Parser → A)
    (f : A → Routine B)
    → Yields Q (f (g p) p)
    → Yields Q ((ask g >>= f) p)
unfolding ◌>>=◌
Yields-ask g f h = h

Yields-branch {ℓ} :
    {A : Type ℓ} {P : A → Parser → Type 0} {p : Parser} (b : Bool) (x y : Routine A)
    → (b ≡ true → Yields P (x p))
    → (b ≡ false → Yields P (y p))
    → Yields P (branch b x y p)
unfolding branch
Yields-branch true x y hx hy = hx refl
Yields-branch false x y hx hy = hy refl

Yields-match {ℓ} :
    {A : Type ℓ} {P : A → Parser → Type 0} (p : Parser) (kind : TokenKind) (x y : Routine A)
    → ((q : Parser) → Yields P (x q))
    → ((q : Parser) → Yields P (y q))
    → Yields P (if_match kind x y p)
Yields-match p kind x y hx hy =
    Yields-then p (match_kind kind) _ λ matched q. Yields-branch matched x y (λ _. hx q) (λ _. hy q)

precedence-le : (k : TokenKind) → binary_precedence k ≤ 10
unfolding binary_precedence
precedence-le k = ground arith

-- Short of the end of the file, `advance` returns the token that `peek` shows.
advance-peek : (p : Parser) → is_at_end p ≡ false → Yields (λ token q. token ≡ peek p 0) (advance p)
unfolding advance peek
advance-peek p h =
    let here_is : p.current + 1 - 1 ≡ p.current + 0 = omega arith in
    let q : Parser = record p { current = p.current + 1 } in
    rw h (yields (previous q) {q = q} (rw here_is refl))

-- An operator is not the end of the file.
operator_further : (k : TokenKind) → 1 ≤ binary_precedence k → is_kind k end_of_file ≡ false
unfolding binary_precedence ordinal
operator_further end_of_file h = ground arith
operator_further _ h = refl

-- An expression at a precedence, and what follows it is no operator of that precedence.
record ExprAt (m : ℕ) (e : Expr) (q : Parser) : Type 0 where
  binds : m ≤ level e
  grouped : Grouped e
  stops : binary_precedence (next_kind q) < m

-- An expression at a level, whatever follows.
record Tight (n : ℕ) (e : Expr) (q : Parser) : Type 0 where
  binds : n ≤ level e
  grouped : Grouped e

abbrev AllAt : Exprs → Parser → Type 0
AllAt es q = AllGrouped es

leaf : {p : Parser} (e : Expr) → Grouped e → level e ≡ 12 → Yields (Tight 12) (pure e p)
leaf e g h = yields e (record { binds = omega (arith, h); grouped = g })

unexpected-Tight : (p : Parser) → Yields (Tight 12) (unexpected p)
unfolding unexpected level Grouped
unexpected-Tight p =
    Yields-ask here _ (Yields-then _ _ _ λ _ q. Yields-then _ _ _ λ token q'. leaf _ tt refl)

literal-Tight :
    (node : SourceSpan → List ℕ → Expr)
    → ((s : SourceSpan) (t : List ℕ) → Grouped (node s t) × (level (node s t) ≡ 12))
    → (p : Parser) → Yields (Tight 12) (literal node p)
literal-Tight node h p = Yields-ask previous _ (Yields-ask _ _ (let (g, e) = h _ _ in leaf _ g e))

loosen : (o : Outcome Expr) → Yields (Tight 12) o → Yields (Tight 11) o
loosen o (yields e x) =
    yields e (record { binds = (let b = x.binds in omega arith); grouped = x.grouped })
loosen o throws = throws
loosen o runs_out = runs_out

mutual
  unfolding level Grouped parse_expr binary_loop parse_unary_expr parse_postfix_expr postfix_loop
      parse_primary_expr parse_array_literal array_elements parse_paren parse_argument_list
      arguments_loop

  parse_expr-ExprAt :
      (fuel m : ℕ) (p : Parser) → 1 ≤ m → m ≤ 11 → Yields (ExprAt m) (parse_expr fuel m p)
  parse_expr-ExprAt zero m p low high = runs_out
  parse_expr-ExprAt (suc fuel) m p low high =
      Yields-bind _ _ (parse_unary_expr-Tight fuel p) λ expr q x.
        let bound = precedence-le (next_kind q) in
        let b = x.binds in
        binary_loop-ExprAt fuel m expr q low high x.grouped (omega arith) (omega arith)

  binary_loop-ExprAt :
      (fuel m : ℕ) (expr : Expr) (p : Parser)
      → 1 ≤ m
      → m ≤ 11
      → Grouped expr
      → m ≤ level expr
      → binary_precedence (next_kind p) ≤ level expr
      → Yields (ExprAt m) (binary_loop fuel m expr p)
  binary_loop-ExprAt zero m expr p low high g at next = runs_out
  binary_loop-ExprAt (suc fuel) m expr p low high g at next =
      Yields-branch (ltb (binary_precedence (next_kind p)) m) _ _
        (λ e. yields expr (record { binds = at; grouped = g; stops = ground arith }))
        (λ e.
          let some_operator : m ≤ binary_precedence (next_kind p) = ground arith in
          let further = operator_further (next_kind p) (omega arith) in
          let bound = precedence-le (next_kind p) in
          Yields-ask _ _ (
            Yields-bind _ _ (advance-peek p further) λ op q is_next.
              let same : binary_precedence op.kind ≡ binary_precedence (next_kind p) =
                ap (λ (t : Token). binary_precedence t.kind) is_next in
              Yields-bind _ _ (parse_expr-ExprAt fuel _ q (omega arith) (omega arith)) λ right q' x.
                let b = x.binds in
                let stop = x.stops in
                binary_loop-ExprAt fuel m _ q' low high
                  (omega arith, omega arith, omega arith, g, x.grouped) (omega arith)
                  (omega arith)))

  parse_unary_expr-Tight : (fuel : ℕ) (p : Parser) → Yields (Tight 11) (parse_unary_expr fuel p)
  parse_unary_expr-Tight zero p = runs_out
  parse_unary_expr-Tight (suc fuel) p =
      Yields-branch (is_prefix p) _ _
        (λ _. Yields-then _ _ _ λ op q.
          Yields-bind _ _ (parse_unary_expr-Tight fuel q) λ operand q' x.
            yields _ (record { binds = omega arith; grouped = (x.binds, x.grouped) }))
        (λ _. loosen _ (parse_postfix_expr-Tight fuel p))

  parse_postfix_expr-Tight : (fuel : ℕ) (p : Parser) → Yields (Tight 12) (parse_postfix_expr fuel p)
  parse_postfix_expr-Tight zero p = runs_out
  parse_postfix_expr-Tight (suc fuel) p =
      Yields-bind _ _ (parse_primary_expr-Tight fuel p)
        λ expr q x. postfix_loop-Tight fuel expr q x.binds x.grouped

  postfix_loop-Tight :
      (fuel : ℕ) (expr : Expr) (p : Parser)
      → 12 ≤ level expr
      → Grouped expr
      → Yields (Tight 12) (postfix_loop fuel expr p)
  postfix_loop-Tight zero expr p b g = runs_out
  postfix_loop-Tight (suc fuel) expr p b g =
      Yields-match _ left_paren _ _
        (λ q. Yields-bind _ _ (parse_argument_list-AllAt fuel q) λ arguments q1 x.
          Yields-then _ _ _ λ close q2. postfix_loop-Tight fuel _ q2 (omega arith) (b, g, x))
        (λ q.
          Yields-match _ left_bracket _ _
            (λ q'.
              Yields-bind _ _ (parse_expr-ExprAt fuel 1 q' (omega arith) (omega arith))
                λ inner q1 x.
                  Yields-then _ _ _
                    λ close q2. postfix_loop-Tight fuel _ q2 (omega arith) (b, g, x.grouped))
            (λ q'. yields expr (record { binds = b; grouped = g })))

  parse_primary_expr-Tight : (fuel : ℕ) (p : Parser) → Yields (Tight 12) (parse_primary_expr fuel p)
  parse_primary_expr-Tight zero p = runs_out
  parse_primary_expr-Tight (suc fuel) p =
      Yields-match _ integer_literal _ _ (literal-Tight _ λ _ _. (tt, refl)) λ _.
        Yields-match _ float_literal _ _ (literal-Tight _ λ _ _. (tt, refl)) λ _.
          Yields-match _ string_literal _ _ (literal-Tight _ λ _ _. (tt, refl)) λ _.
            Yields-match _ kw_true _ _ (λ q. Yields-ask _ _ (leaf _ tt refl))
              λ _.
                Yields-match _ kw_false _ _ (λ q. Yields-ask _ _ (leaf _ tt refl))
                  λ _. Yields-match _ identifier _ _ (literal-Tight _ λ _ _. (tt, refl)) λ _.
                    Yields-match _ left_bracket _ _ (parse_array_literal-Tight fuel)
                      λ _. Yields-match _ left_paren _ _ (parse_paren-Tight fuel) unexpected-Tight

  parse_array_literal-Tight :
      (fuel : ℕ) (p : Parser) → Yields (Tight 12) (parse_array_literal fuel p)
  parse_array_literal-Tight zero p = runs_out
  parse_array_literal-Tight (suc fuel) p = Yields-ask previous _ (
      Yields-bind {P = AllAt} _ _
        (Yields-branch (check p right_bracket) _ _ (λ _. yields no_exprs tt)
          (λ _. array_elements-AllAt fuel p))
        λ elements q x. Yields-then _ _ _ λ close q'. leaf _ x refl)

  array_elements-AllAt : (fuel : ℕ) (p : Parser) → Yields AllAt (array_elements fuel p)
  array_elements-AllAt zero p = runs_out
  array_elements-AllAt (suc fuel) p =
      Yields-bind _ _ (parse_expr-ExprAt fuel 1 p (omega arith) (omega arith)) λ element q x.
        Yields-match _ comma _ _
          (λ q1.
            Yields-branch (check q1 right_bracket) _ _
              (λ _. Yields-ask here _ (Yields-then _ _ _ λ _ q2. yields _ (x.grouped, tt)))
              (λ _.
                Yields-bind _ _ (array_elements-AllAt fuel q1)
                  λ rest q2 xs. yields _ (x.grouped, xs)))
          (λ q1. yields _ (x.grouped, tt))

  parse_paren-Tight : (fuel : ℕ) (p : Parser) → Yields (Tight 12) (parse_paren fuel p)
  parse_paren-Tight zero p = runs_out
  parse_paren-Tight (suc fuel) p = Yields-ask previous _ (
      Yields-bind _ _ (parse_expr-ExprAt fuel 1 p (omega arith) (omega arith))
        λ inner q x. Yields-then _ _ _ λ close q'. leaf _ x.grouped refl)

  parse_argument_list-AllAt : (fuel : ℕ) (p : Parser) → Yields AllAt (parse_argument_list fuel p)
  parse_argument_list-AllAt zero p = runs_out
  parse_argument_list-AllAt (suc fuel) p =
      Yields-branch (check p right_paren) _ _ (λ _. yields no_exprs tt)
        (λ _. arguments_loop-AllAt fuel p)

  arguments_loop-AllAt : (fuel : ℕ) (p : Parser) → Yields AllAt (arguments_loop fuel p)
  arguments_loop-AllAt zero p = runs_out
  arguments_loop-AllAt (suc fuel) p =
      Yields-branch (is_at_end p) _ _ (λ _. yields no_exprs tt)
        λ _. Yields-bind _ _ (parse_expr-ExprAt fuel 1 p (omega arith) (omega arith)) λ element q x.
          Yields-match _ comma _ _
            (λ q1.
              Yields-branch (check q1 right_paren) _ _
                (λ _. Yields-ask here _ (Yields-then _ _ _ λ _ q2. yields _ (x.grouped, tt)))
                (λ _.
                  Yields-bind _ _ (arguments_loop-AllAt fuel q1)
                    λ rest q2 xs. yields _ (x.grouped, xs)))
            (λ q1. yields _ (x.grouped, tt))

-- An expression that `parseExpr` returns for a minimal precedence from 1 to 11 is grouped by the
-- precedence table, to the left among operators of one precedence, its own operator is no looser
-- than the minimum, and no operator follows that is as tight.
pub parse_expr-Grouped :
    (fuel min_precedence : ℕ) (p : Parser) {e : Expr} {q : Parser}
    → 1 ≤ min_precedence
    → min_precedence ≤ 11
    → parse_expr fuel min_precedence p ≡ returned e q
    → Grouped e × (min_precedence ≤ level e) × (binary_precedence (next_kind q) < min_precedence)
parse_expr-Grouped fuel m p low high e =
    read (subst (Yields (ExprAt m)) e (parse_expr-ExprAt fuel m p low high))
  where
    read :
        {x : Expr} {q : Parser}
        → Yields (ExprAt m) (returned x q)
        → Grouped x × (m ≤ level x) × (binary_precedence (next_kind q) < m)
    read (yields x a) = (a.grouped, a.binds, a.stops)
