-- ===== src/Bits.antt =====
-- The binary digits of a word, and what `&`, `|` and `~` of C do to them.
mod Step
pub mod Masks
pub mod Shifts
use Step.{bit_or_step, bit_and_step}
use Prim.Native.Nat.{bit_and-bitwise}
use mathlib.Core.WellFounded
use native.Mathlib.Nat.{pow-suc, one-le-pow}
use missy_micro.Common.{ℕ, zero, suc, ◌+◌, ◌-◌, ◌*◌, ◌/◌, ◌%◌, ◌^◌, ◌≤◌, ◌<◌, min, max}
use missy_micro.Common.{bit_and, bit_or, ◌≡◌, refl, ap, ap₂, sym, ◌∙◌, ◌≢◌, ◌↔◌, arith, lt_wf}

-- The digit of weight `2 ^ k`.
unfoldable pub bit : ℕ → ℕ → ℕ
bit a zero = a % 2
bit a (suc k) = bit (a / 2) k

pub bit-lt_two : (a k : ℕ) → bit a k < 2
unfolding bit
bit-lt_two a zero = omega arith
bit-lt_two a (suc k) = bit-lt_two (a / 2) k

half_and : (a b : ℕ) → bit_and a b / 2 ≡ bit_and (a / 2) (b / 2)
half_and a b = omega (arith, bit_and_step a b)

half_or : (a b : ℕ) → bit_or a b / 2 ≡ bit_or (a / 2) (b / 2)
half_or a b = omega (arith, bit_or_step a b)

pub bit-bit_and : (a b k : ℕ) → bit (bit_and a b) k ≡ min (bit a k) (bit b k)
unfolding bit
bit-bit_and a b zero = omega (arith, bit_and_step a b)
bit-bit_and a b (suc k) = rw half_and (bit-bit_and (a / 2) (b / 2) k)

pub bit-bit_or : (a b k : ℕ) → bit (bit_or a b) k ≡ max (bit a k) (bit b k)
unfolding bit
bit-bit_or a b zero = omega (arith, bit_or_step a b)
bit-bit_or a b (suc k) = rw half_or (bit-bit_or (a / 2) (b / 2) k)

pub bit-zero : (k : ℕ) → bit 0 k ≡ 0
unfolding bit
bit-zero zero = refl
bit-zero (suc k) = bit-zero k

half_two_pow : (k : ℕ) → 2 ^ suc k / 2 ≡ 2 ^ k
half_two_pow k = omega (arith, pow-suc 2 k)

-- A power of two has one digit.
pub bit-two_pow_self : (k : ℕ) → bit (2 ^ k) k ≡ 1
unfolding bit
bit-two_pow_self zero = refl
bit-two_pow_self (suc k) = rw half_two_pow (bit-two_pow_self k)

pub bit-two_pow_ne : (k j : ℕ) → j ≢ k → bit (2 ^ k) j ≡ 0
unfolding bit
bit-two_pow_ne zero zero h = absurd (h refl)
bit-two_pow_ne zero (suc j) h = bit-zero j
bit-two_pow_ne (suc k) zero h = omega (arith, pow-suc 2 k)
bit-two_pow_ne (suc k) (suc j) h = rw half_two_pow (bit-two_pow_ne k j (λ e. h (ap suc e)))

-- The word of `n` ones.
pub bit-ones : (n j : ℕ) → j < n → bit (2 ^ n - 1) j ≡ 1
unfolding bit
bit-ones zero j h = elim h [ ]
bit-ones (suc n) zero h = omega (arith, pow-suc 2 n, one-le-pow n 2)
bit-ones (suc n) (suc j) h = rw half (bit-ones n j (omega arith))
  where
    half : (2 ^ suc n - 1) / 2 ≡ 2 ^ n - 1
    half = omega (arith, pow-suc 2 n, one-le-pow n 2)

-- It is the only word of `n` digits without a zero.
pub ones_unique : (n w : ℕ) → w < 2 ^ n → ((j : ℕ) → j < n → bit w j ≡ 1) → w ≡ 2 ^ n - 1
unfolding bit
ones_unique zero w fits h = omega arith
ones_unique (suc n) w fits h =
    let upper =
      ones_unique n (w / 2) (omega (arith, pow-suc 2 n)) (λ j k. h (suc j) (omega arith)) in
    omega (arith, upper, h 0 (omega arith), pow-suc 2 n, one-le-pow n 2)

pub two_pow-lt : (k n : ℕ) → k < n → 2 ^ k < 2 ^ n
two_pow-lt k zero h = elim h [ ]
two_pow-lt zero (suc n) h = omega (arith, pow-suc 2 n, one-le-pow n 2)
two_pow-lt (suc k) (suc n) h = omega (arith, pow-suc 2 n, pow-suc 2 k, two_pow-lt k n (omega arith))

-- `~(1 << k)` on `n` digits.
unfoldable pub not_bit : ℕ → ℕ → ℕ
not_bit n k = 2 ^ n - 1 - 2 ^ k

half_not_bit : (n k : ℕ) → not_bit (suc n) (suc k) / 2 ≡ not_bit n k
unfolding not_bit
half_not_bit n k = omega (arith, pow-suc 2 n, pow-suc 2 k, one-le-pow n 2)

pub bit-not_bit_self : (n k : ℕ) → bit (not_bit n k) k ≡ 0
unfolding bit not_bit
bit-not_bit_self zero k = let e : 2 ^ 0 - 1 - 2 ^ k ≡ 0 = omega arith in rw e (bit-zero k)
bit-not_bit_self (suc n) zero = omega (arith, pow-suc 2 n)
bit-not_bit_self (suc n) (suc k) = rw half_not_bit (bit-not_bit_self n k)

pub bit-not_bit_ne : (n k j : ℕ) → k < n → j < n → j ≢ k → bit (not_bit n k) j ≡ 1
unfolding bit
bit-not_bit_ne zero k j p q h = elim p [ ]
bit-not_bit_ne (suc n) zero zero p q h = absurd (h refl)
bit-not_bit_ne (suc n) zero (suc j) p q h = rw half (bit-ones n j (omega arith))
  where
    half : not_bit (suc n) 0 / 2 ≡ 2 ^ n - 1
    half = unfold not_bit in omega (arith, pow-suc 2 n, one-le-pow n 2)
bit-not_bit_ne (suc n) (suc k) zero p q h =
    unfold not_bit in omega (arith, pow-suc 2 n, pow-suc 2 k, two_pow-lt k n (omega arith))
bit-not_bit_ne (suc n) (suc k) (suc j) p q h =
    rw half_not_bit (bit-not_bit_ne n k j (omega arith) (omega arith) (λ e. h (ap suc e)))

-- By recursion on a bound, since the digits are taken off by halving.
bit_and-zero_below : (n a : ℕ) → a ≤ n → bit_and a 0 ≡ 0
bit_and-zero_below n zero le = refl
bit_and-zero_below zero (suc a) le = elim le [ ]
bit_and-zero_below (suc n) (suc a) le =
    omega (arith, bit_and_step (suc a) 0, bit_and-zero_below n (suc a / 2) (omega arith))

bit_and-zero : (a : ℕ) → bit_and a 0 ≡ 0
bit_and-zero a = bit_and-zero_below a a (omega arith)

zero_bit_and : (b : ℕ) → bit_and 0 b ≡ 0
zero_bit_and b = simp bit_and-bitwise (omega arith)

-- `w & (1 << k)` picks one digit.
pub bit_and-two_pow : (w k : ℕ) → bit_and w (2 ^ k) ≡ 2 ^ k * bit w k
unfolding bit
bit_and-two_pow w zero = omega (arith, bit_and_step w 1, bit_and-zero (w / 2))
bit_and-two_pow w (suc k) = omega (
  arith,
  bit_and_step w (2 ^ suc k),
  ap (bit_and (w / 2)) (half_two_pow k),
  bit_and-two_pow (w / 2) k,
  pow-suc 2 k,
  ap (λ (t : ℕ). t * bit (w / 2) k) (pow-suc 2 k),
)

pub bit_and-two_pow-eq_zero : (w k : ℕ) → bit w k ≡ 0 → bit_and w (2 ^ k) ≡ 0
bit_and-two_pow-eq_zero w k h = rw (bit_and-two_pow, h) (omega arith)

pub bit_and-two_pow-ne_zero : (w k : ℕ) → bit w k ≡ 1 → bit_and w (2 ^ k) ≢ 0
bit_and-two_pow-ne_zero w k h e =
    omega (arith, bit_and-two_pow w k, ap (λ (t : ℕ). 2 ^ k * t) h, one-le-pow k 2, e)

-- `|` and `&` stay inside the word.
pub bit_or-lt : (n a b : ℕ) → a < 2 ^ n → b < 2 ^ n → bit_or a b < 2 ^ n
bit_or-lt zero zero zero p q = omega arith
bit_or-lt zero (suc a) b p q = absurd (omega arith)
bit_or-lt zero zero (suc b) p q = absurd (omega arith)
bit_or-lt (suc n) a b p q =
    let inner =
      bit_or-lt n (a / 2) (b / 2) (omega (arith, pow-suc 2 n)) (omega (arith, pow-suc 2 n)) in
    omega (arith, inner, bit_or_step a b, pow-suc 2 n)

pub bit_and-lt : (n a b : ℕ) → a < 2 ^ n → bit_and a b < 2 ^ n
bit_and-lt zero zero b p = rw bit_and_step (omega (arith, zero_bit_and (b / 2)))
bit_and-lt zero (suc a) b p = absurd (omega arith)
bit_and-lt (suc n) a b p =
    let inner = bit_and-lt n (a / 2) (b / 2) (omega (arith, pow-suc 2 n)) in
    omega (arith, inner, bit_and_step a b, pow-suc 2 n)
