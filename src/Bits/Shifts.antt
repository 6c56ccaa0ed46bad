-- ===== src/Bits/Shifts.antt =====
-- The digits of shifted words, of remainders and of masks.
use native.Mathlib.Nat.{div-div-eq-div-mul, mod-lt, pow-suc, one-le-pow}
use missy_micro.Common.{ℕ, zero, suc, ◌+◌, ◌-◌, ◌*◌, ◌/◌, ◌%◌, ◌^◌, ◌≤◌, ◌<◌, ◌≡◌, refl, ap}
use missy_micro.Common.{arith, ◌∙◌}
use missy_micro.Common.{sym, bit_and, ltb, leb, if◌then◌else◌, ◌&&◌, Bool-cases, inl, inr}
use missy_micro.Bits.{bit, bit-zero, bit-ones, bit-bit_and, bit-lt_two}
use missy_micro.Bits.Masks.{bit_and-ones}

-- `w * 2 ^ n`, the digits from `n` on.
pub bit-mul : (n w k : ℕ) → bit (w * 2 ^ n) (n + k) ≡ bit w k
unfolding bit
bit-mul zero w k =
    let same : w * 2 ^ 0 ≡ w = omega arith in
    let index : 0 + k ≡ k = omega arith in rw (same, index) refl
bit-mul (suc n) w k =
    let half : w * 2 ^ suc n / 2 ≡ w * 2 ^ n = omega (arith, ap (λ (x : ℕ). w * x) (pow-suc 2 n)) in
    let index : suc n + k ≡ suc (n + k) = omega arith in
    rw index (ap (λ (x : ℕ). bit x (n + k)) half ∙ bit-mul n w k)

pub bit-mul_low : (n w k : ℕ) → k < n → bit (w * 2 ^ n) k ≡ 0
unfolding bit
bit-mul_low zero w k h = elim h [ ]
bit-mul_low (suc n) w zero h = omega (arith, ap (λ (x : ℕ). w * x) (pow-suc 2 n))
bit-mul_low (suc n) w (suc k) h =
    let half : w * 2 ^ suc n / 2 ≡ w * 2 ^ n = omega (arith, ap (λ (x : ℕ). w * x) (pow-suc 2 n)) in
    rw half (bit-mul_low n w k (omega arith))

pub bit-div : (n w k : ℕ) → bit (w / 2 ^ n) k ≡ bit w (n + k)
unfolding bit
bit-div zero w k =
    let same : w / 2 ^ 0 ≡ w = omega arith in
    let index : 0 + k ≡ k = omega arith in rw (same, index) refl
bit-div (suc n) w k =
    let power : 2 ^ suc n ≡ 2 * 2 ^ n = omega (arith, pow-suc 2 n) in
    let halves : w / 2 ^ suc n ≡ w / 2 / 2 ^ n =
      ap (λ (x : ℕ). w / x) power ∙ sym (div-div-eq-div-mul w 2 (2 ^ n)) in
    let index : suc n + k ≡ suc (n + k) = omega arith in
    rw index (ap (λ (x : ℕ). bit x k) halves ∙ bit-div n (w / 2) k)

-- The digits of a remainder below `2 ^ n`.
pub bit-mod : (n w k : ℕ) → k < n → bit (w % 2 ^ n) k ≡ bit w k
bit-mod n w k h =
    rw (bit-bit_and_ones n w)
      (ground (arith, bit-bit_and w (2 ^ n - 1) k, bit-ones n k h, bit-lt_two w k))
  where
    bit-bit_and_ones : (n w : ℕ) → w % 2 ^ n ≡ bit_and w (2 ^ n - 1)
    bit-bit_and_ones n w = sym (bit_and-ones n w)

pub bit-high : (n w k : ℕ) → w < 2 ^ n → n ≤ k → bit w k ≡ 0
unfolding bit
bit-high zero w k lt le = let e : w ≡ 0 = omega arith in rw e (bit-zero k)
bit-high (suc n) w zero lt le = absurd (omega arith)
bit-high (suc n) w (suc k) lt le = bit-high n (w / 2) k (omega (arith, pow-suc 2 n)) (omega arith)

-- The mask of `n` digits from `lo` on.
pub bit-window :
    (lo n k : ℕ) → bit ((2 ^ n - 1) * 2 ^ lo) k ≡ (if leb lo k && ltb k (lo + n) then 1 else 0)
bit-window lo n k = elim (Bool-cases (leb lo k)) [
  | inl from ↦ elim (Bool-cases (ltb k (lo + n))) [
    | inl inside ↦
        let e : k ≡ lo + (k - lo) = ground arith in
        let ones = bit-mul lo (2 ^ n - 1) (k - lo) ∙ bit-ones n (k - lo) (ground arith) in
        rw (from, inside) (ap (bit ((2 ^ n - 1) * 2 ^ lo)) e ∙ ones)
    | inr past ↦
        let e : k ≡ lo + (k - lo) = ground arith in
        let zeros =
          bit-mul lo (2 ^ n - 1) (k - lo)
          ∙ bit-high n (2 ^ n - 1) (k - lo) (omega (arith, one-le-pow n 2)) (ground arith) in
        rw (from, past) (ap (bit ((2 ^ n - 1) * 2 ^ lo)) e ∙ zeros)
  ]
  | inr below ↦ rw below (bit-mul_low lo (2 ^ n - 1) k (ground arith))
]

-- The same laws for every digit.
pub bit-shifted : (n w k : ℕ) → bit (w * 2 ^ n) k ≡ (if ltb k n then 0 else bit w (k - n))
bit-shifted n w k = elim (Bool-cases (ltb k n)) [
  | inl low ↦ rw low (bit-mul_low n w k (ground arith))
  | inr high ↦
      let e : k ≡ n + (k - n) = ground arith in
      rw high (ap (bit (w * 2 ^ n)) e ∙ bit-mul n w (k - n))
]

pub bit-remainder : (n w k : ℕ) → bit (w % 2 ^ n) k ≡ (if ltb k n then bit w k else 0)
bit-remainder n w k = elim (Bool-cases (ltb k n)) [
  | inl low ↦ rw low (bit-mod n w k (ground arith))
  | inr high ↦ rw high (bit-high n (w % 2 ^ n) k (remainder n) (ground arith))
]
  where
    remainder : (n : ℕ) → w % 2 ^ n < 2 ^ n
    remainder n = mod-lt w (omega (arith, one-le-pow n 2))
