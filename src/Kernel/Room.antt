-- ===== src/Kernel/Room.antt =====
-- How many blocks are free, at least.
use missy_micro.Common.{ℕ, zero, suc, ◌+◌, ◌≤◌, ◌<◌, ◌≡◌, arith, leb, Bool-cases, inl, inr}
use missy_micro.Balloc.Bitmap.{used}
use missy_micro.Balloc.Count.{count_free}

-- A run of free blocks below `n` is counted.
pub count_free-run :
    (m : ℕ → ℕ) (n c k : ℕ)
    → ((i : ℕ) → c ≤ i → i < c + k → used m i ≡ 0)
    → c + k ≤ n
    → k ≤ count_free m n
unfolding count_free
count_free-run m n c zero free le = omega arith
count_free-run m zero c (suc k) free le = absurd (omega arith)
count_free-run m (suc n) c (suc k) free le = elim (Bool-cases (leb (c + suc k) n)) [
  | inl below ↦ ground (arith, count_free-run m n c (suc k) free)
  | inr last ↦ ground (arith, free n, count_free-run m n c k (λ i h l. free i h (omega arith)))
]
