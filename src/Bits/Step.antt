-- ===== src/Bits/Step.antt =====
-- The native bit operations stand for a recursion on binary digits with fuel. Without the fuel:
-- one equation for the lowest digit of each.
use Prim.Native.Nat.{digits, bitwise, bit_and-bitwise, bit_or-bitwise}
use missy_micro.Common.{ℕ, zero, suc, ◌+◌, ◌*◌, ◌/◌, ◌%◌, ◌≤◌, min, max, bit_and, bit_or}
use missy_micro.Common.{◌≡◌, refl, arith}

module _ (rest : ℕ → ℕ) (op : ℕ → ℕ → ℕ) where
  -- Any two amounts of fuel that reach the first operand agree.
  same : (n m a b : ℕ) → a ≤ n → a ≤ m → digits rest op n a b ≡ digits rest op m a b
  same zero zero a b h k = refl
  same n zero (suc a) b h k = absurd (omega arith)
  same zero m (suc a) b h k = absurd (omega arith)
  same (suc n) zero zero b h k = refl
  same zero (suc m) zero b h k = refl
  same (suc n) (suc m) zero b h k = refl
  same (suc n) (suc m) (suc a) b h k =
      let inner = same n m (suc a / 2) (b / 2) (omega arith) (omega arith) in omega (arith, inner)

  lowest :
      (a b : ℕ)
      → bitwise rest op (suc a) b ≡ op (suc a % 2) (b % 2) + 2 * bitwise rest op (suc a / 2) (b / 2)
  lowest a b = omega (arith, same a (suc a / 2) (suc a / 2) (b / 2) (omega arith) (omega arith))

-- `&` at the lowest digit, and at the others.
pub bit_and_step : (a b : ℕ) → bit_and a b ≡ min (a % 2) (b % 2) + 2 * bit_and (a / 2) (b / 2)
bit_and_step zero b = simp bit_and-bitwise (omega arith)
bit_and_step (suc a) b = simp bit_and-bitwise (lowest (λ y. 0) min a b)

-- `|` in the same way.
pub bit_or_step : (a b : ℕ) → bit_or a b ≡ max (a % 2) (b % 2) + 2 * bit_or (a / 2) (b / 2)
bit_or_step zero b = simp bit_or-bitwise (omega arith)
bit_or_step (suc a) b = simp bit_or-bitwise (lowest (λ y. y) max a b)
