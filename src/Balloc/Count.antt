-- ===== src/Balloc/Count.antt =====
-- The number of free blocks below a bound, which `free_blocks` of balloc.c keeps.
use missy_micro.Common.{ℕ, zero, suc, ◌+◌, ◌-◌, ◌/◌, ◌≤◌, ◌<◌, ◌≡◌, refl, inl, inr}
use missy_micro.Common.{arith, ◌==◌, Bool-cases}
use missy_micro.Balloc.{Balloc, memory_bitmap_set, memory_bitmap_clear}
use missy_micro.Balloc.Bitmap.{used, used-lt_two, used-set, used-clear}
use missy_micro.Balloc.Scan.{IsFull}

unfoldable pub count_free : (ℕ → ℕ) → ℕ → ℕ
count_free m zero = 0
count_free m (suc n) = 1 - used m n + count_free m n

-- The count on which the allocator's accessors report: the bitmap has a digit for every block of
-- memory, and `free_blocks` is the number of blocks that it shows free.
pub record IsAccounted (s : Balloc) : Type 0 where
  pub units : s.bmp_sz ≡ s.total_blocks / 32 + 1
  pub memory : s.total_blocks < 1048576
  pub counted : s.free_blocks ≡ count_free s.m_bmp s.total_blocks

pub count_free-le : (m : ℕ → ℕ) (n : ℕ) → count_free m n ≤ n
unfolding count_free
count_free-le m zero = omega arith
count_free-le m (suc n) = omega (arith, count_free-le m n)

-- Only the blocks below the bound matter.
pub count_free-ext :
    (m m' : ℕ → ℕ) (n : ℕ)
    → ((c : ℕ) → c < n → used m' c ≡ used m c)
    → count_free m' n ≡ count_free m n
unfolding count_free
count_free-ext m m' zero h = refl
count_free-ext m m' (suc n) h =
    omega (arith, h n (omega arith), count_free-ext m m' n (λ c p. h c (omega arith)))

pub count_free-set :
    (m : ℕ → ℕ) (b n : ℕ)
    → b < n
    → used m b ≡ 0
    → count_free (memory_bitmap_set m b) n + 1 ≡ count_free m n
unfolding count_free
count_free-set m b zero p h = elim p [ ]
count_free-set m b (suc n) p h = elim (Bool-cases (b == n)) [
  | inl same ↦ ground (
    arith,
    used-set m b n,
    count_free-ext m (memory_bitmap_set m b) n (λ c q. ground (arith, used-set m b c)),
  )
  | inr other ↦ ground (arith, used-set m b n, count_free-set m b n (ground arith) h)
]

pub count_free-clear :
    (m : ℕ → ℕ) (b n : ℕ)
    → b < n
    → used m b ≡ 1
    → count_free (memory_bitmap_clear m b) n ≡ count_free m n + 1
unfolding count_free
count_free-clear m b zero p h = elim p [ ]
count_free-clear m b (suc n) p h = elim (Bool-cases (b == n)) [
  | inl same ↦ ground (
    arith,
    used-clear m b n,
    count_free-ext m (memory_bitmap_clear m b) n (λ c q. ground (arith, used-clear m b c)),
  )
  | inr other ↦ ground (arith, used-clear m b n, count_free-clear m b n (ground arith) h)
]

-- A full range counts nothing, and only a full one does.
pub count_free-IsFull : (m : ℕ → ℕ) (n : ℕ) → IsFull m 0 n → count_free m n ≡ 0
unfolding count_free
count_free-IsFull m zero h = refl
count_free-IsFull m (suc n) h =
    omega
      (arith, h n (omega arith) (omega arith), count_free-IsFull m n (λ c p q. h c p (omega arith)))

pub IsFull-count_free : (m : ℕ → ℕ) (n : ℕ) → count_free m n ≡ 0 → IsFull m 0 n
unfolding count_free
IsFull-count_free m zero e c p q = elim q [ ]
IsFull-count_free m (suc n) e c p q = elim (Bool-cases (c == n)) [
  | inl same ↦ ground (arith, used-lt_two m n)
  | inr other ↦ IsFull-count_free m n (omega arith) c p (ground arith)
]

pub count_free_all : (m : ℕ → ℕ) (n : ℕ) → ((c : ℕ) → c < n → used m c ≡ 0) → count_free m n ≡ n
unfolding count_free
count_free_all m zero h = refl
count_free_all m (suc n) h =
    omega (arith, h n (omega arith), count_free_all m n (λ c p. h c (omega arith)))
