-- ===== src/Semantic/Bits.antt =====
-- Bounds of the bitwise operations.
use nexc.Prelude.{ℕ, zero, suc, ◌+◌, ◌*◌, ◌/◌, ◌%◌, ◌^◌, ◌≤◌, ◌<◌, min, max, ◌≡◌, refl, arith}
use Prim.Native.Nat.{
  bit_and, bit_or, bit_xor, digits, differ, bit_and-bitwise, bit_or-bitwise, bit_xor-bitwise,
}

pub pow_suc : (k : ℕ) → 2 ^ suc k ≡ 2 * 2 ^ k
pow_suc k = grind arith

pub pow_pos : (k : ℕ) → 0 < 2 ^ k
pow_pos zero = omega arith
pow_pos (suc k) = omega (arith, pow_suc k, pow_pos k)

digits-lt :
    (z : ℕ → ℕ) (f : ℕ → ℕ → ℕ)
    → ((b k : ℕ) → b < 2 ^ k → z b < 2 ^ k)
    → ((x y : ℕ) → x < 2 → y < 2 → f x y < 2)
    → (n a b k : ℕ) → a < 2 ^ k
    → b < 2 ^ k
    → digits z f n a b < 2 ^ k
digits-lt z f hz hf zero a b k ha hb = hz b k hb
digits-lt z f hz hf (suc n) zero b k ha hb = hz b k hb
digits-lt z f hz hf (suc n) (suc a) b zero ha hb = absurd (omega arith)
digits-lt z f hz hf (suc n) (suc a) b (suc k) ha hb = omega (
  arith,
  pow_suc k,
  digits-lt z f hz hf n (suc a / 2) (b / 2) k (omega (arith, pow_suc k)) (omega (arith, pow_suc k)),
  hf (suc a % 2) (b % 2) (omega arith) (omega arith),
)

digits-le : (n a b : ℕ) → digits (λ _. zero) min n a b ≤ b
digits-le zero a b = omega arith
digits-le (suc n) zero b = omega arith
digits-le (suc n) (suc a) b = omega (arith, digits-le n (suc a / 2) (b / 2))

differ_bit : (x y : ℕ) → x < 2 → y < 2 → differ x y < 2
differ_bit zero y hx hy = hy
differ_bit (suc x) zero hx hy = hx
differ_bit (suc zero) (suc y) hx hy = omega arith
differ_bit (suc (suc x)) (suc y) hx hy = absurd (omega arith)

pub bit_and-le : (a b : ℕ) → bit_and a b ≤ b
bit_and-le a b = rw (bit_and-bitwise a b) (digits-le a a b)

pub bit_or-lt : (a b k : ℕ) → a < 2 ^ k → b < 2 ^ k → bit_or a b < 2 ^ k
bit_or-lt a b k ha hb =
    rw (bit_or-bitwise a b)
      (digits-lt (λ b. b) max (λ _ _ h. h) (λ x y hx hy. omega arith) a a b k ha hb)

pub bit_xor-lt : (a b k : ℕ) → a < 2 ^ k → b < 2 ^ k → bit_xor a b < 2 ^ k
bit_xor-lt a b k ha hb =
    rw (bit_xor-bitwise a b) (digits-lt (λ b. b) differ (λ _ _ h. h) differ_bit a a b k ha hb)

digits_ones : (n a b k : ℕ) → a ≤ n → a < 2 ^ k → b + 1 ≡ 2 ^ k → digits (λ _. zero) min n a b ≡ a
digits_ones zero zero b k hn ha hb = refl
digits_ones zero (suc a) b k hn ha hb = absurd (omega arith)
digits_ones (suc n) zero b k hn ha hb = refl
digits_ones (suc n) (suc a) b zero hn ha hb = absurd (omega arith)
digits_ones (suc n) (suc a) b (suc k) hn ha hb = omega (
  arith,
  pow_suc k,
  digits_ones n (suc a / 2) (b / 2) k (omega arith) (omega (arith, pow_suc k))
      (omega (arith, pow_suc k)),
)

-- A mask of ones keeps what fits under it.
pub bit_and-ones : (a m k : ℕ) → a ≤ m → m + 1 ≡ 2 ^ k → bit_and a m ≡ a
bit_and-ones a m k ha hm =
    rw (bit_and-bitwise a m) (digits_ones a a m k (omega arith) (omega arith) hm)

pub pow_mono : (j k : ℕ) → j ≤ k → 2 ^ j ≤ 2 ^ k
pow_mono zero k h = omega (arith, pow_pos k)
pow_mono (suc j) zero h = absurd (omega arith)
pow_mono (suc j) (suc k) h = omega (arith, pow_suc j, pow_suc k, pow_mono j k (omega arith))
