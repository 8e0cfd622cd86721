-- ===== src/Parser/TypesEnd.antt =====
-- The depth of `Parser::parseType`, measured by the tokens left.
use nexc.Prelude.{ℕ, zero, suc, ◌≤◌, refl, true, arith}
use nexc.Token.{Token, star, left_bracket, right_bracket, semicolon, integer_literal}
use nexc.Parser.Cursor.{Parser, token_text}
use nexc.Parser.Types.{
  parse_type, array_length, checked_length, stoull, converted, invalid_argument, out_of_range,
  is_no_element, Stoull,
}
use nexc.Parser.Progress.{
  Ready, Ends, threw, left, left-After, Ends-weaken, Ends-pure, Ends-branch, progress, advance-Ends,
  advance-check, expect-Ends, error_at-Ends, Ends-check, Ends-ask, Ends-first,
}

checked_length-Ends :
    (token : Token) (s : Stoull) {p : Parser} → Ready p → Ends true 0 p (checked_length token s p)
unfolding checked_length
checked_length-Ends token (converted value consumed) r =
    Ends-branch _ _ _ (λ _. Ends-first _ _ (error_at-Ends _ _ r) λ _ q a. Ends-pure a.ready)
      (λ _. Ends-pure r)
checked_length-Ends token invalid_argument r = threw refl
checked_length-Ends token out_of_range r = threw refl

array_length-Ends : (token : Token) {p : Parser} → Ready p → Ends true 0 p (array_length token p)
unfolding array_length
array_length-Ends token {p} r = checked_length-Ends token (stoull (token_text p token)) r

pub parse_type-Ends :
    (fuel : ℕ) {p : Parser} → Ready p → left p ≤ fuel → Ends true (progress p) p (parse_type fuel p)
unfolding parse_type
parse_type-Ends zero r enough = let w = r.within in ground arith
parse_type-Ends (suc fuel) {p} r enough =
    Ends-check star _ _
      (λ e.
        let one : progress p ≤ 1 = ground arith in
        Ends-weaken one (
          Ends-first _ _ (advance-check star r e) λ token q a.
            let now = left-After a in
            Ends-first _ _ (parse_type-Ends fuel a.ready (omega arith))
              λ inner q' a'. Ends-pure a'.ready))
      (λ _.
        Ends-check left_bracket _ _
          (λ e.
            let one : progress p ≤ 1 = ground arith in
            Ends-weaken one (
              Ends-first _ _ (advance-check left_bracket r e) λ token q a.
                let now = left-After a in
                Ends-first _ _ (parse_type-Ends fuel a.ready (omega arith)) λ inner q1 a1.
                  Ends-first _ _ (expect-Ends semicolon _ a1.ready) λ _ q2 a2.
                    Ends-first _ _ (expect-Ends integer_literal _ a2.ready) λ length_token q3 a3.
                      Ends-first _ _ (expect-Ends right_bracket _ a3.ready) λ _ q4 a4.
                        Ends-first _ _ (array_length-Ends length_token a4.ready) λ value q5 a5.
                          Ends-first _ _
                            (Ends-branch (is_no_element inner.kind) _ _
                              (λ _. error_at-Ends _ _ a5.ready) (λ _. Ends-pure a5.ready))
                            λ _ q6 a6. Ends-ask _ _ (Ends-pure a6.ready)))
          (λ _. Ends-first _ _ (advance-Ends r) λ token q a. Ends-ask _ _ (
            Ends-first _ _
              (Ends-branch _ _ _ (λ _. error_at-Ends _ _ a.ready) (λ _. Ends-pure a.ready))
              λ _ q' a'. Ends-pure a'.ready)))
