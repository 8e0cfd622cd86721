-- ===== src/Parser/Termination.antt =====
-- The parser of a whole file, with fuel of eight for each token.
use nexc.Prelude.{
  codes, ℕ, zero, suc, ◌+◌, ◌*◌, ◌≤◌, ◌≡◌, refl, ◌∙◌, ap, Bool, true, false, List, [], ◌∷◌, String,
  length, Option, none, some, arith, Bool-cases, inl, inr,
}
use nexc.Source.{SourceFile}
use nexc.Diagnostic.{DiagnosticBag, report_error}
use nexc.Token.{
  Token, end_of_file, identifier, kw_fn, kw_const, equal, arrow, left_paren, right_paren, comma,
  semicolon, colon,
}
use nexc.Lexer.Cursor.{Lexer}
use nexc.Lexer.Scan.{tokenize}
use nexc.Lexer.Sound.{InOrder, end, before, tokenize-InOrder}
use nexc.Syntax.{Item}
use nexc.Parser.Cursor.{
  Parser, Routine, Outcome, returned, thrown, back, peek, is_at_end, check, ◌>>=◌, ◌>>◌, pure, ask,
  branch, here, advance, error_at,
}
use nexc.Parser.Items.{
  parse_parameter, parameters_loop, parse_parameter_list, parse_function_decl, parse_const_decl,
  parse_item, collect_item, items_loop, parse_translation_unit, parser,
}
use nexc.Parser.Progress.{
  Ready, After, Ends, ended, threw, left, left-After, After-refl, After-trans, After-weaken,
  Ends-weaken, Ends-pure, progress, taken, advance-Ends, expect-Ends, error_at-Ends, Ends-check,
  Ends-at_end, Ends-match, Ends-ask, Ends-first, Ends-both,
}
use nexc.Parser.TypesEnd.{parse_type-Ends}
use nexc.Parser.ExpressionsEnd.{parse_expr-Ends}
use nexc.Parser.BlocksEnd.{parse_block_stmt-Ends}

parse_parameter-Ends :
    (fuel : ℕ) {p : Parser} → Ready p → left p ≤ fuel → Ends true 0 p (parse_parameter fuel p)
unfolding parse_parameter
parse_parameter-Ends fuel r enough = Ends-both _ _ (expect-Ends identifier _ r) λ _ q a.
    let now = left-After a in
    Ends-first _ _ (expect-Ends colon _ a.ready) λ _ q1 a1.
      let now1 = left-After a1 in
      Ends-first _ _ (parse_type-Ends fuel a1.ready (omega arith))
        λ _ q2 a2. Ends-ask _ _ (Ends-pure a2.ready)

parameters_loop-Ends :
    (fuel : ℕ) {p : Parser} → Ready p → left p + 1 ≤ fuel → Ends true 0 p (parameters_loop fuel p)
unfolding parameters_loop
parameters_loop-Ends zero r enough = ground arith
parameters_loop-Ends (suc fuel) r enough =
    Ends-at_end _ _ (λ _. Ends-pure r)
      λ _. Ends-first _ _ (parse_parameter-Ends fuel r (omega arith)) λ _ q a.
        let now = left-After a in
        Ends-match comma _ _ a.ready (omega arith)
          (λ q1 a1.
            let now1 = left-After a1 in
            Ends-check right_paren _ _
              (λ _.
                Ends-ask here _
                  (Ends-first _ _ (error_at-Ends _ _ a1.ready) λ _ q2 a2. Ends-pure a2.ready))
              (λ _.
                Ends-first _ _ (parameters_loop-Ends fuel a1.ready (omega arith))
                  λ _ q2 a2. Ends-pure a2.ready))
          (λ _. Ends-pure a.ready)

parse_parameter_list-Ends :
    (fuel : ℕ) {p : Parser}
    → Ready p
    → left p + 1 ≤ fuel
    → Ends true 0 p (parse_parameter_list fuel p)
unfolding parse_parameter_list
parse_parameter_list-Ends fuel r enough =
    Ends-check right_paren _ _ (λ _. Ends-pure r) (λ _. parameters_loop-Ends fuel r enough)

parse_function_decl-Ends :
    (fuel : ℕ) {p : Parser}
    → Ready p
    → 8 * left p + 7 ≤ fuel
    → Ends true (taken p kw_fn) p (parse_function_decl fuel p)
unfolding parse_function_decl
parse_function_decl-Ends fuel r enough = Ends-first _ _ (expect-Ends kw_fn _ r) λ _ q a.
    let now = left-After a in
    Ends-first _ _ (expect-Ends identifier _ a.ready) λ _ q1 a1.
      let now1 = left-After a1 in
      Ends-first _ _ (expect-Ends left_paren _ a1.ready) λ _ q2 a2.
        let now2 = left-After a2 in
        Ends-first _ _ (parse_parameter_list-Ends fuel a2.ready (omega arith)) λ _ q3 a3.
          let now3 = left-After a3 in
          Ends-first _ _ (expect-Ends right_paren _ a3.ready) λ _ q4 a4.
            let now4 = left-After a4 in
            Ends-first _ _ (expect-Ends arrow _ a4.ready) λ _ q5 a5.
              let now5 = left-After a5 in
              Ends-first _ _ (parse_type-Ends fuel a5.ready (omega arith)) λ _ q6 a6.
                let now6 = left-After a6 in
                Ends-first _ _ (parse_block_stmt-Ends fuel a6.ready (omega arith))
                  λ _ q7 a7. Ends-ask _ _ (Ends-pure a7.ready)

parse_const_decl-Ends :
    (fuel : ℕ) {p : Parser}
    → Ready p
    → 8 * left p + 7 ≤ fuel
    → Ends true (taken p kw_const) p (parse_const_decl fuel p)
unfolding parse_const_decl
parse_const_decl-Ends fuel r enough = Ends-first _ _ (expect-Ends kw_const _ r) λ _ q a.
    let now = left-After a in
    Ends-first _ _ (expect-Ends identifier _ a.ready) λ _ q1 a1.
      let now1 = left-After a1 in
      Ends-first _ _ (expect-Ends colon _ a1.ready) λ _ q2 a2.
        let now2 = left-After a2 in
        Ends-first _ _ (parse_type-Ends fuel a2.ready (omega arith)) λ _ q3 a3.
          let now3 = left-After a3 in
          Ends-first _ _ (expect-Ends equal _ a3.ready) λ _ q4 a4.
            let now4 = left-After a4 in
            Ends-first _ _ (parse_expr-Ends fuel 1 (omega arith) a4.ready (omega arith)) λ _ q5 a5.
              Ends-first _ _ (expect-Ends semicolon _ a5.ready)
                λ _ q6 a6. Ends-ask _ _ (Ends-pure a6.ready)

-- `parseItem` reads a token, or refuses the one at the cursor and stays there.
data ItemRead (p : Parser) : Outcome (Option Item) → Type 0 where
  read : (item : Option Item) {q : Parser} → After 1 p q → ItemRead p (returned item q)
  refused : {q : Parser} → After 0 p q → is_at_end q ≡ is_at_end p → ItemRead p (returned none q)
  gave_up : ItemRead p thrown

Ends-ItemRead : {p : Parser} {o : Outcome (Option Item)} → Ends true 1 p o → ItemRead p o
Ends-ItemRead (ended item a) = read item a
Ends-ItemRead (threw _) = gave_up

ItemRead-branch :
    {p : Parser} (b : Bool) (x y : Routine (Option Item))
    → (b ≡ true → ItemRead p (x p))
    → (b ≡ false → ItemRead p (y p))
    → ItemRead p (branch b x y p)
unfolding branch
ItemRead-branch true x y hx hy = hx refl
ItemRead-branch false x y hx hy = hy refl

refuse_item :
    {p : Parser} (message : String)
    → Ready p
    → ItemRead p ((ask here >>= λ span. error_at span message >> pure none) p)
unfolding ◌>>=◌ error_at peek
refuse_item {p} message r =
    let q : Parser = record p {
      diagnostics = report_error p.diagnostics (here p) (codes message);
    } in
    refused {q = q}
      (record {
        ready = record { within = r.within; closed = r.closed };
        source = refl;
        tokens = refl;
        gained = omega arith;
      })
      refl

parse_item-ItemRead :
    (fuel : ℕ) {p : Parser} → Ready p → 8 * left p + 7 ≤ fuel → ItemRead p (parse_item fuel p)
unfolding parse_item
parse_item-ItemRead fuel {p} r enough =
    ItemRead-branch (check p kw_fn) _ _
      (λ e.
        let one : 1 ≤ taken p kw_fn = ground arith in
        Ends-ItemRead (
          Ends-first _ _ (Ends-weaken one (parse_function_decl-Ends fuel r enough))
            λ _ q a. Ends-pure a.ready))
      (λ _.
        ItemRead-branch (check p kw_const) _ _
          (λ e.
            let one : 1 ≤ taken p kw_const = ground arith in
            Ends-ItemRead (
              Ends-first _ _ (Ends-weaken one (parse_const_decl-Ends fuel r enough))
                λ _ q a. Ends-pure a.ready))
          (λ _. refuse_item _ r))

-- The whole input is read: the cursor stands on the end of the file.
pub data Finishes {ℓ} {A : Type ℓ} (p : Parser) : Outcome A → Type ℓ where
  finished : (a : A) {q : Parser} → After 0 p q → is_at_end q ≡ true → Finishes p (returned a q)
  gave_up : Finishes p thrown

Finishes-After {ℓ} :
    {A : Type ℓ} {k : ℕ} {p q : Parser} {o : Outcome A} → After k p q → Finishes q o → Finishes p o
Finishes-After a (finished x b e) = finished x (After-weaken (omega arith) (After-trans a b)) e
Finishes-After a gave_up = gave_up

Finishes-pure {ℓ κ} :
    {A : Type ℓ} {B : Type κ} {p : Parser} (m : Routine A) (f : A → B)
    → Finishes p (m p)
    → Finishes p ((m >>= λ a. pure (f a)) p)
unfolding ◌>>=◌
Finishes-pure {A = A} {B = B} {p} m f h = go (m p) h
  where
    go : (o : Outcome A) → Finishes p o → Finishes p (((λ _. o) >>= λ a. pure (f a)) p)
    go o (finished a x e) = finished (f a) x e
    go o gave_up = gave_up

Finishes-next {ℓ κ} :
    {A : Type ℓ} {B : Type κ} {k : ℕ} {p : Parser} (m : Routine A) (rest : Routine B)
    → Ends true k p (m p)
    → ((q : Parser) → After k p q → Finishes q (rest q))
    → Finishes p ((m >> rest) p)
unfolding ◌>>=◌
Finishes-next {A = A} {k} {p} m rest e h = go (m p) e
  where
    go : (o : Outcome A) → Ends true k p o → Finishes p (((λ _. o) >> rest) p)
    go o (ended a {q} x) = Finishes-After x (h q x)
    go o (threw _) = gave_up

-- The items behind one that was read or refused.
module _ (p : Parser) (rest : Routine (List Item))
    (rest_finishes : (q : Parser) → Ready q → left q + 1 ≤ left p → Finishes q (rest q)) where
  collect_item-Finishes :
      (item : Option Item) {q : Parser} → After 1 p q → Finishes q (collect_item item rest q)
  unfolding collect_item
  collect_item-Finishes (some item) {q} a =
      Finishes-pure rest (λ items. item ∷ items) (rest_finishes q a.ready (left-After a))
  collect_item-Finishes none {q} a =
      let now = left-After a in
      Finishes-next advance rest (advance-Ends a.ready)
        λ q1 a1. let later = left-After a1 in rest_finishes q1 a1.ready (omega arith)

  collect_outcome :
      (o : Outcome (Option Item))
      → is_at_end p ≡ false
      → ItemRead p o
      → Finishes p (((λ _. o) >>= λ item. collect_item item rest) p)
  unfolding ◌>>=◌ collect_item
  collect_outcome o further (read item {q} a) = Finishes-After a (collect_item-Finishes item a)
  collect_outcome o further (refused {q} a same) =
      let one : 1 ≤ progress q =
        (let open_q : is_at_end q ≡ false = rw same further in ground arith) in
      let now = left-After a in
      Finishes-After a (
        Finishes-next advance rest (Ends-weaken one (advance-Ends a.ready))
          λ q1 a1. let later = left-After a1 in rest_finishes q1 a1.ready (omega arith))
  collect_outcome o further gave_up = gave_up

  collect_item-ItemRead :
      (m : Routine (Option Item))
      → is_at_end p ≡ false
      → ItemRead p (m p)
      → Finishes p ((m >>= λ item. collect_item item rest) p)
  unfolding ◌>>=◌
  collect_item-ItemRead m further x = collect_outcome (m p) further x

items_loop-Finishes :
    (fuel : ℕ) {p : Parser} → Ready p → 8 * left p + 8 ≤ fuel → Finishes p (items_loop fuel p)
unfolding items_loop branch
items_loop-Finishes zero r enough = ground arith
items_loop-Finishes (suc fuel) {p} r enough = elim (Bool-cases (is_at_end p)) [
  | inl e ↦ rw e (finished [] (After-refl r) e)
  | inr e ↦ rw e (
      collect_item-ItemRead p (items_loop fuel)
        (λ q ready less. items_loop-Finishes fuel ready (omega arith)) (parse_item fuel) e
        (parse_item-ItemRead fuel r (omega arith)))
]

-- On any tokens that end with an `EndOfFile`, `parseTranslationUnit` returns with its cursor on an
-- `EndOfFile`, or throws, whatever fuel of at least eight for each token and eight more it is given:
-- no loop of the parser runs on.
pub parse_translation_unit-Finishes :
    (source : SourceFile) (tokens : List Token) (bag : DiagnosticBag) (fuel : ℕ)
    → (back tokens).kind ≡ end_of_file
    → 1 ≤ length tokens
    → 8 * length tokens + 8 ≤ fuel
    → Finishes (parser source tokens bag) (parse_translation_unit fuel (parser source tokens bag))
unfolding parse_translation_unit parser
parse_translation_unit-Finishes source tokens bag fuel closed some_token enough =
    let r : Ready (parser source tokens bag) = record { within = omega arith; closed = closed } in
    Finishes-pure (items_loop fuel) _ (items_loop-Finishes fuel r (omega arith))

back-cons : (t : Token) (ts : List Token) → 1 ≤ length ts → back (t ∷ ts) ≡ back ts
unfolding back
back-cons t [] h = ground arith
back-cons t (u ∷ us) h = refl

-- The tokens of the lexer end as the parser wants.
InOrder-back :
    {n i : ℕ} {tokens : List Token}
    → InOrder n i tokens
    → (1 ≤ length tokens) × ((back tokens).kind ≡ end_of_file)
unfolding back
InOrder-back (end _ e) = rw e (omega arith, refl)
InOrder-back (before token rest e _ _ order) =
    let (some_token, closed) = InOrder-back order in
    rw e (omega arith, ap (λ (t : Token). t.kind) (back-cons token rest some_token) ∙ closed)

-- Every file is lexed, and its tokens are parsed to the last or the parser throws, whatever is on
-- record.
pub frontend-Finishes :
    (source : SourceFile) (bag : DiagnosticBag)
    → (tokens : List Token) × (l : Lexer) × (tokenize source bag ≡ some (tokens, l))
      × Finishes
          (parser source tokens l.diagnostics)
          (parse_translation_unit (8 * length tokens + 8) (parser source tokens l.diagnostics))
frontend-Finishes source bag =
    let (tokens, l, e, order) = tokenize-InOrder source bag in
    let (some_token, closed) = InOrder-back order in
    (
      tokens,
      l,
      e,
      parse_translation_unit-Finishes source tokens l.diagnostics _ closed some_token (omega arith),
    )
