-- ===== src/Token/Names.antt =====
-- Token names, as `--dump-tokens` prints them.
use nexc.Prelude.{Option, none, some, List, [], ◌∷◌, ◌≡◌, refl, Bytes, codes, same, if◌then◌else◌}
use nexc.Token.{
  TokenKind, token_kind_name, end_of_file, identifier, integer_literal, float_literal,
  string_literal, kw_bool, kw_break, kw_const, kw_continue, kw_else, kw_false, kw_for, kw_fn, kw_if,
  kw_let, kw_mut, kw_return, kw_true, kw_void, kw_while, plus, minus, star, slash, percent, bang,
  tilde, equal, equal_equal, bang_equal, less, less_equal, less_less, greater, greater_equal,
  greater_greater, amp, amp_amp, pipe, pipe_pipe, caret, arrow, left_paren, right_paren,
  left_bracket, right_bracket, left_brace, right_brace, comma, semicolon, colon,
}

abbrev all_kinds : List TokenKind
all_kinds =
    end_of_file ∷ identifier ∷ integer_literal ∷ float_literal ∷ string_literal ∷ kw_bool ∷ kw_break
    ∷ kw_const ∷ kw_continue ∷ kw_else ∷ kw_false ∷ kw_for ∷ kw_fn ∷ kw_if ∷ kw_let ∷ kw_mut
    ∷ kw_return ∷ kw_true ∷ kw_void ∷ kw_while ∷ plus ∷ minus ∷ star ∷ slash ∷ percent ∷ bang
    ∷ tilde ∷ equal ∷ equal_equal ∷ bang_equal ∷ less ∷ less_equal ∷ less_less ∷ greater
    ∷ greater_equal ∷ greater_greater ∷ amp ∷ amp_amp ∷ pipe ∷ pipe_pipe ∷ caret ∷ arrow
    ∷ left_paren ∷ right_paren ∷ left_bracket ∷ right_bracket ∷ left_brace ∷ right_brace ∷ comma
    ∷ semicolon ∷ colon ∷ []

kind_named : Bytes → List TokenKind → Option TokenKind
unfolding same token_kind_name
kind_named name [] = none
kind_named name (k ∷ ks) =
    let rest = kind_named name ks in if same name (codes (token_kind_name k)) then some k else rest

kind_named-token_kind_name :
    (k : TokenKind) → kind_named (codes (token_kind_name k)) all_kinds ≡ some k
unfolding kind_named
kind_named-token_kind_name end_of_file = refl
kind_named-token_kind_name identifier = refl
kind_named-token_kind_name integer_literal = refl
kind_named-token_kind_name float_literal = refl
kind_named-token_kind_name string_literal = refl
kind_named-token_kind_name kw_bool = refl
kind_named-token_kind_name kw_break = refl
kind_named-token_kind_name kw_const = refl
kind_named-token_kind_name kw_continue = refl
kind_named-token_kind_name kw_else = refl
kind_named-token_kind_name kw_false = refl
kind_named-token_kind_name kw_for = refl
kind_named-token_kind_name kw_fn = refl
kind_named-token_kind_name kw_if = refl
kind_named-token_kind_name kw_let = refl
kind_named-token_kind_name kw_mut = refl
kind_named-token_kind_name kw_return = refl
kind_named-token_kind_name kw_true = refl
kind_named-token_kind_name kw_void = refl
kind_named-token_kind_name kw_while = refl
kind_named-token_kind_name plus = refl
kind_named-token_kind_name minus = refl
kind_named-token_kind_name star = refl
kind_named-token_kind_name slash = refl
kind_named-token_kind_name percent = refl
kind_named-token_kind_name bang = refl
kind_named-token_kind_name tilde = refl
kind_named-token_kind_name equal = refl
kind_named-token_kind_name equal_equal = refl
kind_named-token_kind_name bang_equal = refl
kind_named-token_kind_name less = refl
kind_named-token_kind_name less_equal = refl
kind_named-token_kind_name less_less = refl
kind_named-token_kind_name greater = refl
kind_named-token_kind_name greater_equal = refl
kind_named-token_kind_name greater_greater = refl
kind_named-token_kind_name amp = refl
kind_named-token_kind_name amp_amp = refl
kind_named-token_kind_name pipe = refl
kind_named-token_kind_name pipe_pipe = refl
kind_named-token_kind_name caret = refl
kind_named-token_kind_name arrow = refl
kind_named-token_kind_name left_paren = refl
kind_named-token_kind_name right_paren = refl
kind_named-token_kind_name left_bracket = refl
kind_named-token_kind_name right_bracket = refl
kind_named-token_kind_name left_brace = refl
kind_named-token_kind_name right_brace = refl
kind_named-token_kind_name comma = refl
kind_named-token_kind_name semicolon = refl
kind_named-token_kind_name colon = refl

-- The name tells the kind: no two kinds of token are printed alike.
pub token_kind_name-injective : (a b : TokenKind) → token_kind_name a ≡ token_kind_name b → a ≡ b
token_kind_name-injective a b e = cc (kind_named-token_kind_name a, kind_named-token_kind_name b)
