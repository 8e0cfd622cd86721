-- ===== src/Semantic/Folding.antt =====
-- Constant arithmetic against arithmetic on the natural numbers.
use nexc.Prelude.{
  ℕ, ◌+◌, ◌-◌, ◌*◌, ◌/◌, ◌%◌, ◌^◌, ◌≤◌, ◌<◌, ◌≡◌, ◌↔◌, refl, true, not, ◌&&◌, Bool-cases, inl, inr,
  arith, if◌then◌else◌, ◌==◌, ltb,
}
use nexc.Token.{
  TokenKind, plus, minus, star, slash, percent, amp, pipe, caret, less_less, greater_greater,
}
use Prim.Native.Nat.{bit_and, bit_or, bit_xor}
use nexc.Syntax.{
  BuiltinTypeKind, i8, i16, i32, i64, u8, u16, u32, u64, f32, f64, bool, str, void, invalid,
}
use nexc.Semantic.Types.{
  SemanticType, is_integer, is_integer_kind, is_fixed_array, width_of_kind, bit_width,
  is_signed_kind, is_signed, max_integer_value, element_scalar_type,
}
use nexc.Semantic.Constants.{value, fold_constant}
use native.Mathlib.Nat.{le-div_iff_mul-le, div-le_self, mod-lt, mod-le}
use nexc.Semantic.Bits.{pow_pos, bit_and-le, bit_or-lt, bit_xor-lt, bit_and-ones, pow_mono}

-- The operation on natural numbers, where it has a result; a shift must be below the width.
pub Calculates : ℕ → TokenKind → ℕ → ℕ → ℕ → Type 0
Calculates width plus lhs rhs v = v ≡ lhs + rhs
Calculates width minus lhs rhs v = v + rhs ≡ lhs
Calculates width star lhs rhs v = v ≡ lhs * rhs
Calculates width slash lhs rhs v = (0 < rhs) × (v ≡ lhs / rhs)
Calculates width percent lhs rhs v = (0 < rhs) × (v ≡ lhs % rhs)
Calculates width amp lhs rhs v = v ≡ bit_and lhs rhs
Calculates width pipe lhs rhs v = v ≡ bit_or lhs rhs
Calculates width caret lhs rhs v = v ≡ bit_xor lhs rhs
Calculates width less_less lhs rhs v = (rhs < width) × (v ≡ lhs * 2 ^ rhs)
Calculates width greater_greater lhs rhs v = (rhs < width) × (v ≡ lhs / 2 ^ rhs)
Calculates width _ lhs rhs v = ⊥

-- The largest value of a type of this kind.
max_of_kind : BuiltinTypeKind → ℕ
max_of_kind kind =
    let width = width_of_kind kind in
    if width == 0
    then 0
    else if width == 64 && not (is_signed_kind kind)
    then 2 ^ 64 - 1
    else 2 ^ (if is_signed_kind kind then width - 1 else width) - 1

max_integer_value-kind : (t : SemanticType) → max_integer_value t ≡ max_of_kind t.kind
unfolding max_integer_value max_of_kind bit_width is_signed element_scalar_type
max_integer_value-kind t = elim (Bool-cases (is_fixed_array t)) [
  | inl e ↦ rw e refl
  | inr e ↦ rw e refl
]

-- One below a power of two of 64 bits at most.
pub record IsTop (m : ℕ) : Type 0 where
  pub bits : ℕ
  pub few : bits ≤ 64
  pub top : m + 1 ≡ 2 ^ bits

max_of_kind-IsTop :
    (kind : BuiltinTypeKind) → is_integer_kind kind ≡ true → IsTop (max_of_kind kind)
unfolding max_of_kind width_of_kind is_signed_kind is_integer_kind
max_of_kind-IsTop i8 h = record { bits = 7; few = omega arith; top = refl }
max_of_kind-IsTop i16 h = record { bits = 15; few = omega arith; top = refl }
max_of_kind-IsTop i32 h = record { bits = 31; few = omega arith; top = refl }
max_of_kind-IsTop i64 h = record { bits = 63; few = omega arith; top = refl }
max_of_kind-IsTop u8 h = record { bits = 8; few = omega arith; top = refl }
max_of_kind-IsTop u16 h = record { bits = 16; few = omega arith; top = refl }
max_of_kind-IsTop u32 h = record { bits = 32; few = omega arith; top = refl }
max_of_kind-IsTop u64 h = record { bits = 64; few = omega arith; top = refl }
max_of_kind-IsTop f32 h = absurd (cc)
max_of_kind-IsTop f64 h = absurd (cc)
max_of_kind-IsTop bool h = absurd (cc)
max_of_kind-IsTop str h = absurd (cc)
max_of_kind-IsTop void h = absurd (cc)
max_of_kind-IsTop invalid h = absurd (cc)

pub max_integer_value-IsTop : (t : SemanticType) → is_integer t ≡ true → IsTop (max_integer_value t)
unfolding is_integer
max_integer_value-IsTop t h =
    rw (max_integer_value-kind t) (max_of_kind-IsTop t.kind (ground arith))

-- What the cases below share: a top, and operands below it.
module _ {m : ℕ} (is_top : IsTop m) where
  top_fits : m < 2 ^ 64
  top_fits = omega (arith, is_top.top, pow_mono is_top.bits 64 is_top.few)

  mod_fits : (n : ℕ) → n ≤ m → n % 2 ^ 64 ≡ n
  mod_fits n h = omega (arith, top_fits)

module _ (t : SemanticType) (lhs rhs v : ℕ) (is_top : IsTop (max_integer_value t))
    (hl : lhs ≤ max_integer_value t) (hr : rhs ≤ max_integer_value t) where
  plus_iff :
      (fold_constant plus t lhs rhs ≡ value v)
      ↔ (Calculates (bit_width t) plus lhs rhs v × v ≤ max_integer_value t)
  unfolding fold_constant Calculates
  plus_iff = ground (arith, mod_fits is_top (lhs + rhs))

  minus_iff :
      (fold_constant minus t lhs rhs ≡ value v)
      ↔ (Calculates (bit_width t) minus lhs rhs v × v ≤ max_integer_value t)
  unfolding fold_constant Calculates
  minus_iff = ground arith

  star_iff :
      (fold_constant star t lhs rhs ≡ value v)
      ↔ (Calculates (bit_width t) star lhs rhs v × v ≤ max_integer_value t)
  unfolding fold_constant Calculates
  star_iff =
      let fits = mod_fits is_top (lhs * rhs) in
      elim (Bool-cases (rhs == 0)) [
        | inl e ↦
            let none_right : rhs ≡ 0 = ground arith in
            let nothing : lhs * rhs ≡ 0 = rw none_right (omega arith) in ground (arith, fits)
        | inr e ↦
            let product =
              le-div_iff_mul-le {k = rhs} {x = lhs} {y = max_integer_value t} (ground arith) in
            ground (arith, fits)
      ]

  slash_iff :
      (fold_constant slash t lhs rhs ≡ value v)
      ↔ (Calculates (bit_width t) slash lhs rhs v × v ≤ max_integer_value t)
  unfolding fold_constant Calculates
  slash_iff = ground (arith, div-le_self lhs rhs)

  percent_iff :
      (fold_constant percent t lhs rhs ≡ value v)
      ↔ (Calculates (bit_width t) percent lhs rhs v × v ≤ max_integer_value t)
  unfolding fold_constant Calculates
  percent_iff = ground (arith, mod-lt lhs {m = rhs}, mod-le lhs rhs)

  amp_iff :
      (fold_constant amp t lhs rhs ≡ value v)
      ↔ (Calculates (bit_width t) amp lhs rhs v × v ≤ max_integer_value t)
  unfolding fold_constant Calculates
  amp_iff = ground (arith, bit_and-le lhs rhs)

  pipe_iff :
      (fold_constant pipe t lhs rhs ≡ value v)
      ↔ (Calculates (bit_width t) pipe lhs rhs v × v ≤ max_integer_value t)
  unfolding fold_constant Calculates
  pipe_iff = ground (
    arith,
    is_top.top,
    bit_or-lt lhs rhs is_top.bits (omega (arith, is_top.top)) (omega (arith, is_top.top)),
  )

  caret_iff :
      (fold_constant caret t lhs rhs ≡ value v)
      ↔ (Calculates (bit_width t) caret lhs rhs v × v ≤ max_integer_value t)
  unfolding fold_constant Calculates
  caret_iff = ground (
    arith,
    is_top.top,
    bit_xor-lt lhs rhs is_top.bits (omega (arith, is_top.top)) (omega (arith, is_top.top)),
  )

  less_less_iff :
      (fold_constant less_less t lhs rhs ≡ value v)
      ↔ (Calculates (bit_width t) less_less lhs rhs v × v ≤ max_integer_value t)
  unfolding fold_constant Calculates
  less_less_iff =
      let shifted = lhs * 2 ^ rhs in
      let fits = mod_fits is_top shifted in
      let kept = λ (h : shifted ≤ max_integer_value t).
        bit_and-ones shifted (max_integer_value t) is_top.bits h is_top.top in
      let room =
        le-div_iff_mul-le {k = 2 ^ rhs} {x = lhs} {y = max_integer_value t} (pow_pos rhs) in
      elim (Bool-cases (ltb (max_integer_value t / 2 ^ rhs) lhs)) [
        | inl e ↦ ground (arith, room)
        | inr e ↦
            let small : shifted ≤ max_integer_value t = room.0 (ground arith) in
            let whole : bit_and (shifted % 2 ^ 64) (max_integer_value t) ≡ shifted =
              rw (fits small) (kept small) in
            ground (arith, whole)
      ]

  greater_greater_iff :
      (fold_constant greater_greater t lhs rhs ≡ value v)
      ↔ (Calculates (bit_width t) greater_greater lhs rhs v × v ≤ max_integer_value t)
  unfolding fold_constant Calculates
  greater_greater_iff = ground (arith, div-le_self lhs (2 ^ rhs))

-- Constant arithmetic on values of an integer type gives a value exactly when the operation on
-- natural numbers has it and the type holds it: nothing wraps around, and no report is false. A
-- negative difference has no value, as has a division by zero or a shift by the width or more.
pub fold_constant_iff :
    (op : TokenKind) (t : SemanticType) (lhs rhs v : ℕ)
    → is_integer t ≡ true
    → lhs ≤ max_integer_value t
    → rhs ≤ max_integer_value t
    → (fold_constant op t lhs rhs ≡ value v)
      ↔ (Calculates (bit_width t) op lhs rhs v × v ≤ max_integer_value t)
unfolding fold_constant Calculates
fold_constant_iff plus t lhs rhs v i hl hr =
    plus_iff t lhs rhs v (max_integer_value-IsTop t i) hl hr
fold_constant_iff minus t lhs rhs v i hl hr =
    minus_iff t lhs rhs v (max_integer_value-IsTop t i) hl hr
fold_constant_iff star t lhs rhs v i hl hr =
    star_iff t lhs rhs v (max_integer_value-IsTop t i) hl hr
fold_constant_iff slash t lhs rhs v i hl hr =
    slash_iff t lhs rhs v (max_integer_value-IsTop t i) hl hr
fold_constant_iff percent t lhs rhs v i hl hr =
    percent_iff t lhs rhs v (max_integer_value-IsTop t i) hl hr
fold_constant_iff amp t lhs rhs v i hl hr = amp_iff t lhs rhs v (max_integer_value-IsTop t i) hl hr
fold_constant_iff pipe t lhs rhs v i hl hr =
    pipe_iff t lhs rhs v (max_integer_value-IsTop t i) hl hr
fold_constant_iff caret t lhs rhs v i hl hr =
    caret_iff t lhs rhs v (max_integer_value-IsTop t i) hl hr
fold_constant_iff less_less t lhs rhs v i hl hr =
    less_less_iff t lhs rhs v (max_integer_value-IsTop t i) hl hr
fold_constant_iff greater_greater t lhs rhs v i hl hr =
    greater_greater_iff t lhs rhs v (max_integer_value-IsTop t i) hl hr
fold_constant_iff _ t lhs rhs v i hl hr = ground arith
