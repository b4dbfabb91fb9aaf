-- ===== src/Prelude/Bits.antt =====
-- Laws of the bitwise operations on words, digit by digit.
use Prim.Native.Nat.{
  ℕ, zero, suc, ◌+◌, ◌-◌, ◌*◌, ◌/◌, ◌%◌, ◌^◌, ◌≤◌, ◌<◌, min, max, bit_and, bit_or, digits, bitwise,
  bit_and-bitwise, bit_or-bitwise,
}
use mathlib.Core.Path.{◌≡◌, refl, ap, sym, ◌∙◌}
use native.Mathlib.Nat.{two-pow-succ, pow-zero, div-div-eq-div-mul}
use native.Mathlib.Omega.{arith}

-- The digits of an operation, whatever it is: `z` is the result of the digits that the first
-- number no longer has, and `f` that of two digits.
module _ (z : ℕ → ℕ) (f : ℕ → ℕ → ℕ) where
  no_digits : (k b : ℕ) → digits z f k 0 b ≡ z b
  no_digits zero b = refl
  no_digits (suc k) b = refl

  -- Any two counts of rounds that reach the first number's digits do.
  same_rounds : (k j a b : ℕ) → a ≤ k → a ≤ j → digits z f k a b ≡ digits z f j a b
  same_rounds k j zero b h g = no_digits k b ∙ sym (no_digits j b)
  same_rounds zero j (suc a) b h g = absurd (omega arith)
  same_rounds (suc k) zero (suc a) b h g = absurd (omega arith)
  same_rounds (suc k) (suc j) (suc a) b h g =
      ap (λ d. d * 2 + f (suc a % 2) (b % 2))
        (same_rounds k j (suc a / 2) (b / 2) (omega arith) (omega arith))

  lowest_digit :
      ((b : ℕ) → z b ≡ z (b / 2) * 2 + f 0 (b % 2))
      → (a b : ℕ) → bitwise z f a b ≡ bitwise z f (a / 2) (b / 2) * 2 + f (a % 2) (b % 2)
  lowest_digit h zero b = h b
  lowest_digit h (suc a) b =
      ap (λ d. d * 2 + f (suc a % 2) (b % 2))
        (same_rounds a (suc a / 2) (suc a / 2) (b / 2) (omega arith) (omega arith))

pub bit_and_step : (a b : ℕ) → bit_and a b ≡ bit_and (a / 2) (b / 2) * 2 + min (a % 2) (b % 2)
bit_and_step a b =
    let h = lowest_digit (λ b. zero) min (λ c. omega arith) a b in
    bit_and-bitwise a b
    ∙ (h ∙ ap (λ d. d * 2 + min (a % 2) (b % 2)) (sym (bit_and-bitwise (a / 2) (b / 2))))

pub bit_or_step : (a b : ℕ) → bit_or a b ≡ bit_or (a / 2) (b / 2) * 2 + max (a % 2) (b % 2)
bit_or_step a b =
    let h = lowest_digit (λ b. b) max (λ c. omega arith) a b in
    bit_or-bitwise a b
    ∙ (h ∙ ap (λ d. d * 2 + max (a % 2) (b % 2)) (sym (bit_or-bitwise (a / 2) (b / 2))))

pub zero-bit_and : (b : ℕ) → bit_and 0 b ≡ 0
zero-bit_and b = bit_and-bitwise 0 b

no_common_digit : (k a : ℕ) → digits (λ b. zero) min k a 0 ≡ 0
no_common_digit zero a = refl
no_common_digit (suc k) zero = refl
no_common_digit (suc k) (suc a) = omega (arith, no_common_digit k (suc a / 2))

pub bit_and-zero : (a : ℕ) → bit_and a 0 ≡ 0
bit_and-zero a = bit_and-bitwise a 0 ∙ no_common_digit a a

all_digits : (k a : ℕ) → a ≤ k → digits (λ b. b) max k a 0 ≡ a
all_digits k zero h = no_digits (λ b. b) max k 0
all_digits zero (suc a) h = absurd (omega arith)
all_digits (suc k) (suc a) h = omega (arith, all_digits k (suc a / 2) (omega arith))

pub bit_or-zero : (a : ℕ) → bit_or a 0 ≡ a
bit_or-zero a = bit_or-bitwise a 0 ∙ all_digits a a (omega arith)

pub pow-pos : (k : ℕ) → 0 < 2 ^ k
pow-pos zero = omega arith
pow-pos (suc k) = omega (arith, two-pow-succ k, pow-pos k)

half-mod : (a p : ℕ) → 0 < p → (a / 2 % p) * 2 + a % 2 ≡ a % (p + p)
half-mod a p h = grind arith

half-div : (a p : ℕ) → a / 2 / p ≡ a / (p + p)
half-div a p = div-div-eq-div-mul a 2 p ∙ ap (λ (x : ℕ). a / x) (omega arith)

and_ones_step : (a p : ℕ) → 0 < p → bit_and a (p + p - 1) ≡ bit_and (a / 2) (p - 1) * 2 + a % 2
and_ones_step a p h = omega (arith, bit_and_step a (p + p - 1), e)
  where
    e : bit_and (a / 2) ((p + p - 1) / 2) ≡ bit_and (a / 2) (p - 1)
    e = ap (bit_and (a / 2)) (omega arith)

-- A mask of `k` ones keeps the low `k` bits.
pub bit_and_ones : (k a : ℕ) → bit_and a (2 ^ k - 1) ≡ a % 2 ^ k
bit_and_ones zero a = rw pow-zero (omega (arith, bit_and-zero a))
bit_and_ones (suc k) a = rw two-pow-succ (
    omega (
      arith,
      and_ones_step a (2 ^ k) (pow-pos k),
      bit_and_ones k (a / 2),
      half-mod a (2 ^ k) (pow-pos k),
    ))

and_bit_step : (a p : ℕ) → bit_and a (p + p) ≡ bit_and (a / 2) p * 2
and_bit_step a p = omega (arith, bit_and_step a (p + p), e)
  where
    e : bit_and (a / 2) ((p + p) / 2) ≡ bit_and (a / 2) p
    e = ap (bit_and (a / 2)) (omega arith)

-- A single bit of a word.
pub bit_and_bit : (k a : ℕ) → bit_and a (2 ^ k) ≡ a / 2 ^ k % 2 * 2 ^ k
bit_and_bit zero a = rw pow-zero (omega (arith, bit_and_step a 1, bit_and-zero (a / 2)))
bit_and_bit (suc k) a =
    rw two-pow-succ
      (rw (← half-div a (2 ^ k)) (omega (arith, and_bit_step a (2 ^ k), bit_and_bit k (a / 2))))

or_low_step : (a p b : ℕ) → bit_or (a * (p + p)) b ≡ bit_or (a * p) (b / 2) * 2 + b % 2
or_low_step a p b = omega (arith, bit_or_step (a * (p + p)) b, e)
  where
    e : bit_or (a * (p + p) / 2) (b / 2) ≡ bit_or (a * p) (b / 2)
    e = ap (λ (x : ℕ). bit_or x (b / 2)) (omega arith)

or_zero_at : (a x b : ℕ) → x ≡ a → b ≡ 0 → bit_or x b ≡ a
or_zero_at a x b e f = rw (e, f) (bit_or-zero a)

and_at : (a b x y : ℕ) → x ≡ a → y ≡ b → bit_and x y ≡ bit_and a b
and_at a b x y e f = rw (e, f)

-- Words that share no bit are added.
pub bit_or_low : (k a b : ℕ) → b < 2 ^ k → bit_or (a * 2 ^ k) b ≡ a * 2 ^ k + b
bit_or_low zero a b h = or_zero_at a (a * 2 ^ 0) b (omega arith) (omega arith) ∙ omega arith
bit_or_low (suc k) a b h = rw two-pow-succ (
    omega (
      arith,
      or_low_step a (2 ^ k) b,
      bit_or_low k a (b / 2) (omega (arith, two-pow-succ k)),
      two-pow-succ k,
    ))

-- A mask with `k` low zeros clears the low `k` bits.
pub bit_and_high : (k a m : ℕ) → bit_and a (m * 2 ^ k) ≡ bit_and (a / 2 ^ k) m * 2 ^ k
bit_and_high zero a m = and_at (a / 2 ^ 0) m a (m * 2 ^ 0) (omega arith) (omega arith) ∙ omega arith
bit_and_high (suc k) a m = rw two-pow-succ (
    rw (← half-div a (2 ^ k)) (
      omega (
        arith,
        and_bit_step a (m * 2 ^ k),
        bit_and_high k (a / 2) m,
        and_at a (m * 2 ^ k + m * 2 ^ k) a (m * (2 ^ k + 2 ^ k)) (omega arith) (omega arith),
      )))
