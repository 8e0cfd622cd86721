-- ===== src/Semantic/Numerals.antt =====
-- Decimal numerals are read back.
use nexc.Prelude.{
  ℕ, zero, suc, ◌+◌, ◌*◌, ◌/◌, ◌%◌, ◌^◌, ◌≤◌, ◌<◌, ◌≡◌, refl, ap, ◌∙◌, Bool, true, false, ◌&&◌,
  some, [], ◌∷◌, Bytes, length, ltb, leb, ◌==◌, Bool-cases, if_both, inl, inr, arith,
}
use nexc.Diagnostic.Render.{decimal, decimal_onto}
use nexc.Parser.Types.{numeral, digit_value}
use nexc.Semantic.Constants.{parse_unsigned_integer, is_hexadecimal}

-- The numeral of `n` in front of a text is read as `n` in as many digits as it has.
record ReadsBack (fuel n : ℕ) (rest : Bytes) : Type 0 where
  count : ℕ
  some_digit : 0 < count
  reads : numeral 10 0 0 (decimal_onto fuel n rest) ≡ numeral 10 n count rest
  size : length (decimal_onto fuel n rest) ≡ count + length rest

digit_value-digit : (d : ℕ) → d < 10 → digit_value (b'0' + d) ≡ d
digit_value-digit d h = ground arith

one_digit :
    (acc k d : ℕ) (rest : Bytes)
    → d < 10
    → numeral 10 acc k ((b'0' + d) ∷ rest) ≡ numeral 10 (acc * 10 + d) (k + 1) rest
unfolding numeral
one_digit acc k d rest h =
    let value = digit_value-digit d h in
    let small : ltb d 10 ≡ true = ground arith in rw value (rw small refl)

decimal_small :
    (fuel n : ℕ) (rest : Bytes) → n < 10 → decimal_onto (suc fuel) n rest ≡ (b'0' + n) ∷ rest
unfolding decimal_onto
decimal_small fuel n rest h =
    let small : ltb n 10 ≡ true = ground arith in
    let same : n % 10 ≡ n = omega arith in rw small (rw same refl)

decimal_large :
    (fuel n : ℕ) (rest : Bytes)
    → 10 ≤ n
    → decimal_onto (suc fuel) n rest ≡ decimal_onto fuel (n / 10) ((b'0' + n % 10) ∷ rest)
unfolding decimal_onto
decimal_large fuel n rest h = let large : ltb n 10 ≡ false = ground arith in rw large refl

pow_ten : (k : ℕ) → 10 ^ suc (suc k) ≡ 10 * 10 ^ suc k
pow_ten k = grind arith

small_back : (fuel n : ℕ) (rest : Bytes) → n < 10 → ReadsBack (suc fuel) n rest
small_back fuel n rest h = record {
  count = 1;
  some_digit = omega arith;
  reads =
      ap (numeral 10 0 0) (decimal_small fuel n rest h)
      ∙ (one_digit 0 0 n rest h
          ∙ let value : 0 * 10 + n ≡ n = omega arith in
            let one : 0 + 1 ≡ 1 = omega arith in rw (value, one) refl);
  size = let text = ap length (decimal_small fuel n rest h) in omega arith;
}

reads_back : (fuel n : ℕ) (rest : Bytes) → n < 10 ^ suc fuel → ReadsBack (suc fuel) n rest
reads_back zero n rest h = small_back zero n rest (omega arith)
reads_back (suc fuel) n rest h = elim (Bool-cases (ltb n 10)) [
  | inl small ↦ small_back (suc fuel) n rest (ground arith)
  | inr large ↦
      let big : 10 ≤ n = ground arith in
      let last = (b'0' + n % 10) ∷ rest in
      let front = reads_back fuel (n / 10) last (omega (arith, pow_ten fuel)) in
      let whole : n / 10 * 10 + n % 10 ≡ n = omega arith in
      record {
        count = front.count + 1;
        some_digit = omega arith;
        reads =
            ap (numeral 10 0 0) (decimal_large (suc fuel) n rest big)
            ∙ (front.reads
                ∙ (one_digit (n / 10) front.count (n % 10) rest (omega arith)
                    ∙ ap (λ v. numeral 10 v (front.count + 1) rest) whole));
        size =
            let text = ap length (decimal_large (suc fuel) n rest big) in
            let others = front.size in omega arith;
      }
]

is_digit : ℕ → Bool
is_digit c = leb b'0' c && leb c b'9'

all_digits : Bytes → Bool
all_digits [] = true
all_digits (c ∷ cs) = is_digit c && all_digits cs

decimal_onto-digits :
    (fuel n : ℕ) (rest : Bytes)
    → all_digits rest ≡ true
    → all_digits (decimal_onto fuel n rest) ≡ true
unfolding decimal_onto all_digits is_digit
decimal_onto-digits zero n rest h = h
decimal_onto-digits (suc fuel) n rest h =
    let digits : all_digits ((b'0' + n % 10) ∷ rest) ≡ true = ground arith in
    if_both (λ text. all_digits text ≡ true) (ltb n 10) (λ _. digits)
      (λ _. decimal_onto-digits fuel (n / 10) ((b'0' + n % 10) ∷ rest) digits)

digits-not_hexadecimal : (text : Bytes) → all_digits text ≡ true → is_hexadecimal text ≡ false
unfolding all_digits is_digit
digits-not_hexadecimal [] h = refl
digits-not_hexadecimal (c ∷ []) h = ground arith
digits-not_hexadecimal (c ∷ d ∷ cs) h = ground arith

parsed :
    (text : Bytes) (n count : ℕ)
    → is_hexadecimal text ≡ false
    → numeral 10 0 0 text ≡ (n, count)
    → count ≡ length text
    → 0 < count
    → n < 2 ^ 64
    → parse_unsigned_integer text ≡ some n
unfolding parse_unsigned_integer
parsed text n count plain read whole nonempty small =
    rw (plain, read)
      (let some_digits : (count == 0) ≡ false = ground arith in
        let all : (count == length text) ≡ true = ground arith in
        let fits : ltb n (2 ^ 64) ≡ true = ground arith in ground arith)

-- A number of 64 bits is read back from its decimal digits.
pub parse_unsigned_integer-decimal :
    (n : ℕ) → n < 2 ^ 64 → parse_unsigned_integer (decimal n) ≡ some n
unfolding all_digits numeral
parse_unsigned_integer-decimal n h =
    let back = reads_back 19 n [] (omega arith) in
    parsed (decimal n) n back.count
      (digits-not_hexadecimal (decimal n) (decimal_onto-digits 20 n [] refl)) back.reads
      (omega (arith, back.size)) back.some_digit h
