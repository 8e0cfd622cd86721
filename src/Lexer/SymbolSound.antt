-- ===== src/Lexer/SymbolSound.antt =====
-- The switch of `lexToken` against the table of operators and punctuation.
use nexc.Prelude.{
  ℕ, ◌+◌, ◌≤◌, ◌<◌, true, false, not, ◌||◌, ◌≡◌, ◌≢◌, refl, ◌∙◌, sym, subst, ap, inl, inr, ◌⊎◌,
  none, some, arith, ◌==◌, ==_iff, Bool-cases, if◌then◌else◌, if_both, get_or-inside,
}
use nexc.Source.{size}
use nexc.Token.{
  TokenKind, Token, plus, minus, star, slash, percent, bang, tilde, equal, equal_equal, bang_equal,
  less, less_equal, less_less, greater, greater_equal, greater_greater, amp, amp_amp, pipe,
  pipe_pipe, caret, arrow, left_paren, right_paren, left_bracket, right_bracket, left_brace,
  right_brace, comma, semicolon, colon,
}
use nexc.Lexer.Cursor.{Lexer, is_at_end, peek, skip, single}
use nexc.Lexer.Scan.{pick, one, unsupported, lex_symbol}
use nexc.Lexer.Grammar.{symbol}
use nexc.Lexer.Loops.{moved}

-- What the switch returns for the byte `c` read at `start`, by the table.
pub record ReadsSymbol (l : Lexer) (c start : ℕ) (r : Token × Lexer) : Type 0 where
  pub kind : TokenKind
  pub width : ℕ
  pub end : ℕ
  pub in_table : symbol c (peek l 0) ≡ some (kind, width)
  pub width_pos : 0 < width
  pub end_is : end ≡ start + width
  pub inside : end ≤ size l.source
  pub result : r ≡ (single (moved l end) kind start, moved l end)

abbrev pub SymbolOutcome : Lexer → ℕ → ℕ → Token × Lexer → Type 0
SymbolOutcome l c start r =
    ReadsSymbol l c start r ⊎ ((symbol c (peek l 0) ≡ none) × (r ≡ unsupported c start l))

module _ (l : Lexer) (start : ℕ) (at : l.current ≡ start + 1) (h : l.current ≤ size l.source) where
  one-reads :
      (c : ℕ) (k : TokenKind)
      → symbol c (peek l 0) ≡ some (k, 1)
      → SymbolOutcome l c start (one start k l)
  one-reads c k e = inl (record {
    kind = k;
    width = 1;
    end = l.current;
    in_table = e;
    width_pos = omega arith;
    end_is = at;
    inside = h;
    result = refl;
  })

  both-reads :
      (c second : ℕ) (k : TokenKind)
      → (is_at_end l || not (peek l 0 == second)) ≡ false
      → symbol c second ≡ some (k, 2)
      → SymbolOutcome l c start (single (skip l) k start, skip l)
  both-reads c second k found e =
      let matched : peek l 0 ≡ second = ground arith in
      inl (record {
        kind = k;
        width = 2;
        end = l.current + 1;
        in_table = ap (symbol c) matched ∙ e;
        width_pos = omega arith;
        end_is = omega arith;
        inside = ground arith;
        result = refl;
      })

  unmatched :
      (second : ℕ)
      → (is_at_end l || not (peek l 0 == second)) ≡ true
      → 0 < second
      → peek l 0 ≢ second
  unmatched second e pos same =
      let inside = get_or-inside l.source.text (l.current + 0) 0 (ground arith) in ground arith

  pick-reads :
      (c second : ℕ) (k : TokenKind) (otherwise : Lexer → Token × Lexer)
      → 0 < second
      → symbol c second ≡ some (k, 2)
      → (peek l 0 ≢ second → SymbolOutcome l c start (otherwise l))
      → SymbolOutcome l c start (pick l start second k otherwise)
  pick-reads c second k otherwise pos e rest =
      elim (Bool-cases (is_at_end l || not (peek l 0 == second))) [
        | inl missing ↦ rw missing (rest (unmatched second missing pos))
        | inr found ↦ rw found (both-reads c second k found e)
      ]

  -- One case of the switch: inside it the byte is known.
  case :
      (c : ℕ) (k : ℕ) {x y : Token × Lexer}
      → SymbolOutcome l k start x
      → ((c == k) ≡ false → SymbolOutcome l c start y)
      → SymbolOutcome l c start (if c == k then x else y)
  case c k {x} here later =
      if_both (SymbolOutcome l c start) (c == k)
        (λ e. subst (λ b. SymbolOutcome l b start x) (sym ((==_iff c k).0 e)) here) later

  pub lex_symbol-reads : (c : ℕ) → SymbolOutcome l c start (lex_symbol c start l)
  unfolding lex_symbol symbol
  lex_symbol-reads c = case c b'+' (one-reads b'+' plus refl) λ n0.
      case c b'-'
        (pick-reads b'-' b'>' arrow (one start minus) (omega arith) refl
          λ d. one-reads b'-' minus (ground arith))
        λ n1. case c b'*' (one-reads b'*' star refl) λ n2.
          case c b'/' (one-reads b'/' slash refl) λ n3.
            case c b'%' (one-reads b'%' percent refl) λ n4.
              case c b'!'
                (pick-reads b'!' b'=' bang_equal (one start bang) (omega arith) refl
                  λ d. one-reads b'!' bang (ground arith))
                λ n5. case c b'~' (one-reads b'~' tilde refl) λ n6.
                  case c b'='
                    (pick-reads b'=' b'=' equal_equal (one start equal) (omega arith) refl
                      λ d. one-reads b'=' equal (ground arith))
                    λ n7.
                      case c b'<'
                        (pick-reads b'<' b'=' less_equal
                          (λ l'. pick l' start b'<' less_less (one start less)) (omega arith) refl
                          λ d.
                            pick-reads b'<' b'<' less_less (one start less) (omega arith) refl
                              λ d'. one-reads b'<' less (ground arith))
                        λ n8.
                          case c b'>'
                            (pick-reads b'>' b'=' greater_equal
                              (λ l'. pick l' start b'>' greater_greater (one start greater))
                              (omega arith) refl
                              λ d.
                                pick-reads b'>' b'>' greater_greater (one start greater)
                                  (omega arith) refl λ d'. one-reads b'>' greater (ground arith))
                            λ n9.
                              case c b'&'
                                (pick-reads b'&' b'&' amp_amp (one start amp) (omega arith) refl
                                  λ d. one-reads b'&' amp (ground arith))
                                λ n10.
                                  case c b'|'
                                    (pick-reads b'|' b'|' pipe_pipe (one start pipe) (omega arith)
                                      refl λ d. one-reads b'|' pipe (ground arith))
                                    λ n11. case c b'^' (one-reads b'^' caret refl) λ n12.
                                      case c b'(' (one-reads b'(' left_paren refl) λ n13.
                                        case c b')' (one-reads b')' right_paren refl) λ n14.
                                          case c b'[' (one-reads b'[' left_bracket refl) λ n15.
                                            case c b']' (one-reads b']' right_bracket refl) λ n16.
                                              case c b'{' (one-reads b'{' left_brace refl) λ n17.
                                                case c b'}' (one-reads b'}' right_brace refl) λ n18.
                                                  case c b',' (one-reads b',' comma refl) λ n19.
                                                    case c b';' (one-reads b';' semicolon refl)
                                                      λ n20.
                                                        case c b':' (one-reads b':' colon refl)
                                                          λ n21. inr (ground arith, refl)
