-- ===== src/Parser/Cursor.antt =====
-- The parser's state, its token cursor, and the monad of a parsing routine.
use nexc.Prelude.{
  codes, ℕ, ◌+◌, ◌-◌, Bool, true, false, not, ◌&&◌, List, [], ◌∷◌, String, get_or, Bytes,
  if◌then◌else◌,
}
use nexc.Source.{SourceSpan, SourceFile, slice}
use nexc.Diagnostic.{DiagnosticBag, report_error}
use nexc.Token.{TokenKind, Token, is_kind, end_of_file}

pub record Parser : Type 0 where
  pub source : SourceFile
  pub tokens : List Token
  pub current : ℕ
  pub diagnostics : DiagnosticBag

abbrev pub span_of : ℕ → ℕ → SourceSpan
span_of a b = record { start = a; end = b }

abbrev no_token : Token
no_token = record { kind = end_of_file; span = span_of 0 0 }

-- `tokens_.back()`. The lexer always hands over a token, so the empty list is never asked.
unfoldable pub back : List Token → Token
back [] = no_token
back (t ∷ []) = t
back (t ∷ u ∷ ts) = back (u ∷ ts)

unfoldable pub peek : Parser → ℕ → Token
unfolding back
peek p offset = get_or p.tokens (p.current + offset) (back p.tokens)

-- `tokens_[current_ - 1]`; it is asked only behind a token.
abbrev pub previous : Parser → Token
previous p = get_or p.tokens (p.current - 1) (back p.tokens)

abbrev pub is_at_end : Parser → Bool
is_at_end p = is_kind (peek p 0).kind end_of_file

abbrev pub check : Parser → TokenKind → Bool
check p kind = not (is_at_end p) && is_kind (peek p 0).kind kind

-- A routine returns a value and the parser behind it, or an exception of the standard library
-- leaves it. `out_of_fuel` has no counterpart in the program.
pub data Outcome {ℓ} (A : Type ℓ) : Type ℓ where
  returned : A → Parser → Outcome A
  thrown : Outcome A
  out_of_fuel : Outcome A

abbrev pub Routine {ℓ} : Type ℓ → Type ℓ
Routine A = Parser → Outcome A

infixl 5 ◌>>=◌ ◌>>◌
unfoldable pub ◌>>=◌ {ℓ κ} : {A : Type ℓ} {B : Type κ} → Routine A → (A → Routine B) → Routine B
◌>>=◌ m f p = elim (m p) [ returned a q ↦ f a q | thrown ↦ thrown | out_of_fuel ↦ out_of_fuel ]

abbrev pub ◌>>◌ {ℓ κ} : {A : Type ℓ} {B : Type κ} → Routine A → Routine B → Routine B
m >> n = m >>= λ _. n

abbrev pub pure {ℓ} : {A : Type ℓ} → A → Routine A
pure a p = returned a p

abbrev pub no_value : Routine (Unit {0})
no_value = pure tt

-- A part of the state, read where it stands.
abbrev pub ask {ℓ} : {A : Type ℓ} → (Parser → A) → Routine A
ask f p = returned (f p) p

-- The case that is not taken waits.
unfoldable pub branch {ℓ} : {A : Type ℓ} → Bool → Routine A → Routine A → Routine A
branch b yes_case no_case p = (if b then yes_case else no_case) p

abbrev pub if_check {ℓ} : {A : Type ℓ} → TokenKind → Routine A → Routine A → Routine A
if_check kind yes_case no_case p = branch (check p kind) yes_case no_case p

abbrev pub if_at_end {ℓ} : {A : Type ℓ} → Routine A → Routine A → Routine A
if_at_end yes_case no_case p = branch (is_at_end p) yes_case no_case p

unfoldable pub advance : Routine Token
advance p =
    if is_at_end p
    then returned (previous p) p
    else (let q : Parser = record p { current = p.current + 1 } in returned (previous q) q)

-- `match`: the token is read if it has the kind.
unfoldable pub match_kind : TokenKind → Routine Bool
match_kind kind = if_check kind (do advance; pure true) (pure false)

abbrev pub if_match {ℓ} : {A : Type ℓ} → TokenKind → Routine A → Routine A → Routine A
if_match kind yes_case no_case = match_kind kind >>= λ matched. branch matched yes_case no_case

unfoldable pub error_at : SourceSpan → String → Routine (Unit {0})
error_at span message p =
    returned tt (record p { diagnostics = report_error p.diagnostics span (codes message) })

abbrev pub here : Parser → SourceSpan
here p = (peek p 0).span

unfoldable pub expect : TokenKind → String → Routine Token
expect kind message =
    if_check kind advance
      do span ← ask here; error_at span message; pure (record { kind = kind; span = span })

abbrev pub token_text : Parser → Token → Bytes
token_text p token = slice p.source token.span
