-- ===== src/Token/Keywords.antt =====
-- Keywords: `keywordKind` against the table of reserved words.
use nexc.Prelude.{
  ◌≡◌, ◌≢◌, ◌↔◌, ◌⊎◌, inl, inr, refl, subst, Option, none, some, Bytes, codes, same, same_iff,
  if◌then◌else◌, if_both, String,
}
use nexc.Token.{
  TokenKind, keyword_kind, identifier, kw_bool, kw_break, kw_const, kw_continue, kw_else, kw_false,
  kw_for, kw_fn, kw_if, kw_let, kw_mut, kw_return, kw_true, kw_void, kw_while,
}

-- The reserved word that a keyword's kind stands for; every other kind has none.
abbrev pub spelling : TokenKind → Option Bytes
spelling kw_bool = some (codes "bool")
spelling kw_break = some (codes "break")
spelling kw_const = some (codes "const")
spelling kw_continue = some (codes "continue")
spelling kw_else = some (codes "else")
spelling kw_false = some (codes "false")
spelling kw_for = some (codes "for")
spelling kw_fn = some (codes "fn")
spelling kw_if = some (codes "if")
spelling kw_let = some (codes "let")
spelling kw_mut = some (codes "mut")
spelling kw_return = some (codes "return")
spelling kw_true = some (codes "true")
spelling kw_void = some (codes "void")
spelling kw_while = some (codes "while")
spelling _ = none

keyword_kind_self :
    (word : Bytes) (k : TokenKind) {text : Bytes}
    → keyword_kind word ≡ k
    → some word ≡ some text
    → keyword_kind text ≡ k
keyword_kind_self word k {text} h e =
    let same_text : word ≡ text = cc in subst (λ t. keyword_kind t ≡ k) same_text h

keyword_kind-spelling :
    (k : TokenKind) (text : Bytes) → spelling k ≡ some text → keyword_kind text ≡ k
unfolding keyword_kind
keyword_kind-spelling kw_bool text e = keyword_kind_self (codes "bool") _ refl e
keyword_kind-spelling kw_break text e = keyword_kind_self (codes "break") _ refl e
keyword_kind-spelling kw_const text e = keyword_kind_self (codes "const") _ refl e
keyword_kind-spelling kw_continue text e = keyword_kind_self (codes "continue") _ refl e
keyword_kind-spelling kw_else text e = keyword_kind_self (codes "else") _ refl e
keyword_kind-spelling kw_false text e = keyword_kind_self (codes "false") _ refl e
keyword_kind-spelling kw_for text e = keyword_kind_self (codes "for") _ refl e
keyword_kind-spelling kw_fn text e = keyword_kind_self (codes "fn") _ refl e
keyword_kind-spelling kw_if text e = keyword_kind_self (codes "if") _ refl e
keyword_kind-spelling kw_let text e = keyword_kind_self (codes "let") _ refl e
keyword_kind-spelling kw_mut text e = keyword_kind_self (codes "mut") _ refl e
keyword_kind-spelling kw_return text e = keyword_kind_self (codes "return") _ refl e
keyword_kind-spelling kw_true text e = keyword_kind_self (codes "true") _ refl e
keyword_kind-spelling kw_void text e = keyword_kind_self (codes "void") _ refl e
keyword_kind-spelling kw_while text e = keyword_kind_self (codes "while") _ refl e
keyword_kind-spelling _ text e = cc

-- What the chain of tests comes to: no word fits, or the kind's word is the text.
abbrev Fits : Bytes → TokenKind → Type 0
Fits text k = (k ≡ identifier) ⊎ (spelling k ≡ some text)

Fits-if :
    (text : Bytes) (word : String) (k : TokenKind) {rest : TokenKind}
    → spelling k ≡ some (codes word)
    → Fits text rest
    → Fits text (if same text (codes word) then k else rest)
Fits-if text word k e later =
    if_both (Fits text) (same text (codes word)) (λ h. inr (cc ((same_iff text (codes word)).0 h)))
      (λ _. later)

keyword_kind-Fits : (text : Bytes) → Fits text (keyword_kind text)
unfolding keyword_kind
keyword_kind-Fits text = Fits-if text "bool" kw_bool refl (
    Fits-if text "break" kw_break refl (
      Fits-if text "const" kw_const refl (
        Fits-if text "continue" kw_continue refl (
          Fits-if text "else" kw_else refl (
            Fits-if text "false" kw_false refl (
              Fits-if text "for" kw_for refl (
                Fits-if text "fn" kw_fn refl (
                  Fits-if text "if" kw_if refl (
                    Fits-if text "let" kw_let refl (
                      Fits-if text "mut" kw_mut refl (
                        Fits-if text "return" kw_return refl (
                          Fits-if text "true" kw_true refl (
                            Fits-if text "void" kw_void refl
                              (Fits-if text "while" kw_while refl (inl refl)))))))))))))))

-- A text is classified as a keyword exactly when it is that keyword's spelling, letter for letter;
-- so a longer word such as `whilex` is an identifier.
pub keyword_kind_iff :
    (text : Bytes) (k : TokenKind)
    → k ≢ identifier
    → (keyword_kind text ≡ k) ↔ (spelling k ≡ some text)
keyword_kind_iff text k ne = (there, keyword_kind-spelling k text)
  where
    there : keyword_kind text ≡ k → spelling k ≡ some text
    there e = elim (keyword_kind-Fits text) [ inl none_fits ↦ absurd (ne (cc)) | inr fits ↦ cc ]
