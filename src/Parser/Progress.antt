-- ===== src/Parser/Progress.antt =====
-- How a routine may leave the parser: its cursor on the tokens, at or behind where it was.
use nexc.Prelude.{
  codes, ℕ, suc, ◌+◌, ◌-◌, ◌≤◌, ◌<◌, ◌≡◌, refl, ap, Bool, true, false, List, [], ◌∷◌, String,
  length, get_or, if◌then◌else◌, arith, if_both, ◌∙◌,
}
use nexc.Source.{SourceSpan}
use nexc.Token.{TokenKind, Token, is_kind, ordinal, end_of_file}
use nexc.Diagnostic.{report_error}
use nexc.Parser.Cursor.{
  Parser, Routine, Outcome, returned, thrown, out_of_fuel, back, peek, is_at_end, check, ◌>>=◌,
  ◌>>◌, pure, ask, branch, if_check, if_at_end, if_match, previous, advance, match_kind, error_at,
  expect,
}

-- The tokens end with that of the end of the file, and the cursor is on one of them.
pub record Ready (p : Parser) : Type 0 where
  pub within : p.current < length p.tokens
  pub closed : (back p.tokens).kind ≡ end_of_file

-- The parser `q` has read at least `k` more of the same tokens than `p`.
pub record After (k : ℕ) (p q : Parser) : Type 0 where
  pub ready : Ready q
  pub source : q.source ≡ p.source
  pub tokens : q.tokens ≡ p.tokens
  pub gained : p.current + k ≤ q.current

-- A routine ends: it returns, behind `p`, or throws where that is allowed.
pub data Ends {ℓ} {A : Type ℓ} (may_throw : Bool) (k : ℕ) (p : Parser) : Outcome A → Type ℓ where
  ended : (a : A) {q : Parser} → After k p q → Ends may_throw k p (returned a q)
  threw : may_throw ≡ true → Ends may_throw k p thrown

-- The number of tokens from the cursor on.
abbrev pub left : Parser → ℕ
left p = length p.tokens - p.current

pub After-refl : {p : Parser} → Ready p → After 0 p p
After-refl {p} r = record { ready = r; source = refl; tokens = refl; gained = omega arith }

pub After-trans : {k j : ℕ} {p q r : Parser} → After k p q → After j q r → After (k + j) p r
After-trans {k} {j} {p} {q} {r} a b = record {
  ready = b.ready;
  source = b.source ∙ a.source;
  tokens = b.tokens ∙ a.tokens;
  gained = let x = a.gained in let y = b.gained in omega arith;
}

pub After-weaken : {k j : ℕ} {p q : Parser} → j ≤ k → After k p q → After j p q
After-weaken {k} {j} {p} {q} h a = record {
  ready = a.ready;
  source = a.source;
  tokens = a.tokens;
  gained = let x = a.gained in omega arith;
}

pub left-After : {k : ℕ} {p q : Parser} → After k p q → left q + k ≤ left p
left-After {k} {p} {q} a =
    let same_length : length q.tokens ≡ length p.tokens = ap length a.tokens in
    let w = a.ready.within in let g = a.gained in omega arith

pub Ends-weaken {ℓ} :
    {A : Type ℓ} {t : Bool} {k j : ℕ} {p : Parser} {o : Outcome A}
    → j ≤ k
    → Ends t k p o
    → Ends t j p o
Ends-weaken h (ended a x) = ended a (After-weaken h x)
Ends-weaken h (threw e) = threw e

-- What ends behind `q`, behind `p`.
pub Ends-After {ℓ} :
    {A : Type ℓ} {t : Bool} {k j : ℕ} {p q : Parser} {o : Outcome A}
    → After k p q
    → Ends t j q o
    → Ends t (k + j) p o
Ends-After x (ended a y) = ended a (After-trans x y)
Ends-After x (threw e) = threw e

pub Ends-bind {ℓ κ} :
    {A : Type ℓ} {B : Type κ} {t : Bool} {k j : ℕ} {p : Parser} (m : Routine A) (f : A → Routine B)
    → Ends t k p (m p)
    → ((a : A) (q : Parser) → After k p q → Ends t j q (f a q))
    → Ends t (k + j) p ((m >>= f) p)
unfolding ◌>>=◌
Ends-bind {A = A} {B = B} {t} {k} {j} {p} m f em ef = go (m p) em
  where
    go :
        (o : Outcome A)
        → Ends t k p o
        → Ends t
            (k + j)
            p
            (elim o [ returned a q ↦ f a q | thrown ↦ thrown | out_of_fuel ↦ out_of_fuel ])
    go o (ended a {q} x) = Ends-After x (ef a q x)
    go o (threw e) = threw e

pub Ends-pure {ℓ} : {A : Type ℓ} {t : Bool} {a : A} {p : Parser} → Ready p → Ends t 0 p (pure a p)
Ends-pure {a} r = ended a (After-refl r)

pub Ends-branch {ℓ} :
    {A : Type ℓ} {t : Bool} {k : ℕ} {p : Parser} (b : Bool) (x y : Routine A)
    → (b ≡ true → Ends t k p (x p))
    → (b ≡ false → Ends t k p (y p))
    → Ends t k p (branch b x y p)
unfolding branch
Ends-branch true x y hx hy = hx refl
Ends-branch false x y hx hy = hy refl

back-get_or : (d : Token) (ts : List Token) → 0 < length ts → get_or ts (length ts - 1) d ≡ back ts
unfolding back
back-get_or d [] h = ground arith
back-get_or d (t ∷ []) h = refl
back-get_or d (t ∷ u ∷ ts) h =
    let e : suc (suc (length ts)) - 1 ≡ suc (suc (length ts) - 1) = omega arith in
    rw e (back-get_or d (u ∷ ts) (omega arith))

-- Short of the end of the file there is a further token.
not_at_end-lt : {p : Parser} → Ready p → is_at_end p ≡ false → p.current + 1 < length p.tokens
unfolding peek ordinal
not_at_end-lt {p} r h =
    let w = r.within in
    let last : p.current ≡ length p.tokens - 1 → is_at_end p ≡ true = λ e.
      let at : (peek p 0).kind ≡ end_of_file =
        ap (λ (t : Token). t.kind)
          (ap (λ i. get_or p.tokens i (back p.tokens)) (omega (arith, e))
            ∙ back-get_or (back p.tokens) p.tokens (omega arith))
        ∙ r.closed in
      ap (λ k. is_kind k end_of_file) at in
    ground arith

-- A step of the cursor, where there is one.
abbrev pub progress : Parser → ℕ
progress p = if is_at_end p then 0 else 1

pub progress-le : (p : Parser) → progress p ≤ 1
progress-le p = ground arith

pub advance-Ends : {t : Bool} {p : Parser} → Ready p → Ends t (progress p) p (advance p)
unfolding advance
advance-Ends {t} {p} r =
    if_both (λ (o : Outcome Token). Ends t (progress p) p o) (is_at_end p)
      {x = returned (previous p) p}
      {y = let q : Parser = record p { current = p.current + 1 } in returned (previous q) q}
      (λ at_end. ended (previous p) (After-weaken (ground arith) (After-refl r)))
      (λ further.
        let q : Parser = record p { current = p.current + 1 } in
        ended (previous q) {q = q} (record {
          ready = record { within = not_at_end-lt r further; closed = r.closed };
          source = refl;
          tokens = refl;
          gained = ground arith;
        }))

-- A token of another kind than the end of the file is behind the cursor after `advance`.
pub advance-check :
    {t : Bool} {p : Parser} (kind : TokenKind)
    → Ready p
    → check p kind ≡ true
    → Ends t 1 p (advance p)
advance-check {p} kind r h =
    Ends-weaken (let further : is_at_end p ≡ false = ground arith in ground arith) (advance-Ends r)

abbrev pub taken : Parser → TokenKind → ℕ
taken p kind = if check p kind then 1 else 0

pub Ends-check {ℓ} :
    {A : Type ℓ} {t : Bool} {k : ℕ} {p : Parser} (kind : TokenKind) (x y : Routine A)
    → (check p kind ≡ true → Ends t k p (x p))
    → (check p kind ≡ false → Ends t k p (y p))
    → Ends t k p (if_check kind x y p)
Ends-check {p} kind x y hx hy = Ends-branch (check p kind) x y hx hy

pub Ends-at_end {ℓ} :
    {A : Type ℓ} {t : Bool} {k : ℕ} {p : Parser} (x y : Routine A)
    → (is_at_end p ≡ true → Ends t k p (x p))
    → (is_at_end p ≡ false → Ends t k p (y p))
    → Ends t k p (if_at_end x y p)
Ends-at_end {p} x y hx hy = Ends-branch (is_at_end p) x y hx hy

pub Ends-match {ℓ} :
    {A : Type ℓ} {t : Bool} {k : ℕ} {p : Parser} (kind : TokenKind) (x y : Routine A)
    → Ready p
    → k ≤ 1
    → ((q : Parser) → After 1 p q → Ends t 0 q (x q))
    → (check p kind ≡ false → Ends t k p (y p))
    → Ends t k p (if_match kind x y p)
unfolding match_kind ◌>>=◌ branch
Ends-match {A = A} {t} {k} {p} kind x y r h hx hy = go (check p kind) refl
  where
    go :
        (b : Bool)
        → check p kind ≡ b
        → Ends t k p (
            ((λ q. branch b (advance >> pure true) (pure false) q) >>= λ matched.
            branch matched x y)
              p)
    go true e = read (advance p) (advance-check kind r e)
      where
        read :
            (o : Outcome Token)
            → Ends t 1 p o
            → Ends t k p
                (((λ q. ((λ _. o) >>= λ _. pure true) q) >>= λ matched. branch matched x y) p)
        read o (ended a {q} later) = Ends-weaken h (Ends-After later (hx q later))
        read o (threw thrown_here) = threw thrown_here
    go false e = hy e

pub error_at-Ends :
    {t : Bool} {p : Parser} (span : SourceSpan) (message : String)
    → Ready p
    → Ends t 0 p (error_at span message p)
unfolding error_at
error_at-Ends {p} span message r =
    let q : Parser = record p { diagnostics = report_error p.diagnostics span (codes message) } in
    ended tt {q = q} (record {
      ready = record { within = r.within; closed = r.closed };
      source = refl;
      tokens = refl;
      gained = omega arith;
    })

pub expect-Ends :
    {t : Bool} {p : Parser} (kind : TokenKind) (message : String)
    → Ready p
    → Ends t (taken p kind) p (expect kind message p)
unfolding expect
expect-Ends {t} {p} kind message r =
    Ends-branch (check p kind) advance _ (λ e. Ends-weaken (ground arith) (advance-check kind r e))
      (λ e. Ends-weaken (ground arith) (
        Ends-bind _ _ (Ends-pure r) (λ span q a.
          Ends-bind _ _ (error_at-Ends span message a.ready) (λ _ q' a'. Ends-pure a'.ready))))

pub Ends-ask {ℓ κ} :
    {A : Type ℓ} {B : Type κ} {t : Bool} {k : ℕ} {p : Parser} (g : Parser → A) (f : A → Routine B)
    → Ends t k p (f (g p) p)
    → Ends t k p ((ask g >>= f) p)
unfolding ◌>>=◌
Ends-ask g f e = e

-- Only the first of two routines is counted.
pub Ends-first {ℓ κ} :
    {A : Type ℓ} {B : Type κ} {t : Bool} {k : ℕ} {j : A → Parser → ℕ} {p : Parser} (m : Routine A)
    (f : A → Routine B)
    → Ends t k p (m p)
    → ((a : A) (q : Parser) → After k p q → Ends t (j a q) q (f a q))
    → Ends t k p ((m >>= f) p)
Ends-first {k} m f em ef =
    Ends-weaken {k = k + 0} (omega arith)
      (Ends-bind m f em λ a q x. Ends-weaken (omega arith) (ef a q x))

-- Neither of two routines is counted.
pub Ends-both {ℓ κ} :
    {A : Type ℓ} {B : Type κ} {t : Bool} {k : ℕ} {j : A → Parser → ℕ} {p : Parser} (m : Routine A)
    (f : A → Routine B)
    → Ends t k p (m p)
    → ((a : A) (q : Parser) → After k p q → Ends t (j a q) q (f a q))
    → Ends t 0 p ((m >>= f) p)
Ends-both m f em ef = Ends-weaken (omega arith) (Ends-first m f em ef)

-- A report leaves the cursor where it is.
pub Ends-error {ℓ} :
    {B : Type ℓ} {t : Bool} {k : ℕ} {p : Parser} (span : SourceSpan) (message : String)
    (f : Unit {0} → Routine B)
    → Ready p
    → ((q : Parser) → Ready q → is_at_end q ≡ is_at_end p → left q ≡ left p → Ends t k q (f tt q))
    → Ends t k p ((error_at span message >>= f) p)
unfolding ◌>>=◌ error_at peek
Ends-error {k} {p} span message f r h =
    let q : Parser = record p { diagnostics = report_error p.diagnostics span (codes message) } in
    let same : After 0 p q = record {
      ready = record { within = r.within; closed = r.closed };
      source = refl;
      tokens = refl;
      gained = omega arith;
    } in
    Ends-weaken (omega arith) (Ends-After same (h q same.ready refl refl))

pub match_kind-Ends :
    {t : Bool} {p : Parser} (kind : TokenKind) → Ready p → Ends t 0 p (match_kind kind p)
unfolding match_kind
match_kind-Ends {p} kind r =
    Ends-check kind _ _ (λ _. Ends-both _ _ (advance-Ends r) λ _ q a. Ends-pure a.ready)
      (λ _. Ends-pure r)
