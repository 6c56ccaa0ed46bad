-- ===== src/Bits/Masks.antt =====
-- `&` and `|` with masks and of disjoint fields, as arithmetic.
use native.Mathlib.Nat.{pow-succ', mod-add-div, div-div-eq-div-mul, mul_assoc, div-one, pow-suc}
use native.Mathlib.Nat.{one-le-pow}
use missy_micro.Common.{◌≤◌, ℕ, zero, suc, ◌+◌, ◌-◌, ◌*◌, ◌/◌, ◌%◌, ◌^◌, ◌<◌, bit_and, bit_or}
use missy_micro.Common.{◌≡◌, refl, ap, ap₂, sym, ◌∙◌, arith}
use missy_micro.Bits.Step.{bit_or_step, bit_and_step}
use missy_micro.Bits.{bit_and-zero}

half_div : (a k : ℕ) → a / 2 ^ suc k ≡ a / 2 / 2 ^ k
half_div a k = ap (λ (d : ℕ). a / d) (pow-succ' 2 k) ∙ sym (div-div-eq-div-mul a 2 (2 ^ k))

-- A mask of `k` low digits is the remainder by `2 ^ k`.
pub bit_and-ones : (k a : ℕ) → bit_and a (2 ^ k - 1) ≡ a % 2 ^ k
bit_and-ones zero a = omega (arith, bit_and-zero a)
bit_and-ones (suc k) a = omega (
  arith,
  bit_and_step a (2 ^ suc k - 1),
  ap (bit_and (a / 2)) half,
  bit_and-ones k (a / 2),
  split,
  pow-suc 2 k,
  one-le-pow k 2,
)
  where
    half : (2 ^ suc k - 1) / 2 ≡ 2 ^ k - 1
    half = omega (arith, pow-suc 2 k, one-le-pow k 2)

    split : a % 2 ^ suc k ≡ a / 2 % 2 ^ k * 2 + a % 2
    split = omega (
      arith,
      mod-add-div a (2 ^ suc k),
      mod-add-div (a / 2) (2 ^ k),
      ap₂ (λ (x : ℕ) (y : ℕ). x * y) (pow-succ' 2 k) (half_div a k),
    )

bit_and-even : (a c : ℕ) → bit_and a (2 * c) ≡ 2 * bit_and (a / 2) c
bit_and-even a c =
    let half : 2 * c / 2 ≡ c = omega arith in
    omega (arith, bit_and_step a (2 * c), ap (bit_and (a / 2)) half)

-- A mask of `n` digits above `k` zeros.
pub bit_and_high : (k n a : ℕ) → bit_and a (2 ^ k * (2 ^ n - 1)) ≡ 2 ^ k * (a / 2 ^ k % 2 ^ n)
bit_and_high zero n a = rw (bit_and-one_mul, div-one) (omega (arith, bit_and-ones n a))
  where
    bit_and-one_mul : 2 ^ 0 * (2 ^ n - 1) ≡ 2 ^ n - 1
    bit_and-one_mul = omega arith
bit_and_high (suc k) n a =
    rw (half_div, pow-succ', mul_assoc, bit_and-even, bit_and_high k n (a / 2)) (omega arith)

bit_or-zero_below : (n a : ℕ) → a ≤ n → bit_or a 0 ≡ a
bit_or-zero_below n zero le = refl
bit_or-zero_below zero (suc a) le = elim le [ ]
bit_or-zero_below (suc n) (suc a) le =
    omega (arith, bit_or_step (suc a) 0, bit_or-zero_below n (suc a / 2) (omega arith))

bit_or-zero : (a : ℕ) → bit_or a 0 ≡ a
bit_or-zero a = bit_or-zero_below a a (omega arith)

-- `|` of a multiple of `2 ^ k` and digits below is their sum.
pub bit_or_low : (k q r : ℕ) → r < 2 ^ k → bit_or (2 ^ k * q) r ≡ 2 ^ k * q + r
bit_or_low zero q zero h =
    omega
      (arith, ap (λ (x : ℕ). bit_or x 0) (let e : 2 ^ 0 * q ≡ q = omega arith in e), bit_or-zero q)
bit_or_low zero q (suc r) h = absurd (omega arith)
bit_or_low (suc k) q r h = omega (
  arith,
  bit_or_step (2 ^ suc k * q) r,
  twice,
  ap (λ (x : ℕ). bit_or x (r / 2)) half,
  bit_or_low k q (r / 2) (omega (arith, pow-suc 2 k)),
)
  where
    twice : 2 ^ suc k * q ≡ 2 * (2 ^ k * q)
    twice = omega (arith, ap (λ (x : ℕ). x * q) (pow-succ' 2 k))

    half : 2 ^ suc k * q / 2 ≡ 2 ^ k * q
    half = omega (arith, twice)
