-- ===== src/Balloc/Region.antt =====
-- `balloc_init_region` and `balloc_deinit_region` of balloc.c.
use missy_micro.Common.{ℕ, zero, suc, ◌+◌, ◌/◌, ◌≤◌, ◌<◌, ◌≡◌, refl}
use missy_micro.Common.{Bool, arith, ◌&&◌, ltb, leb, ◌==◌, if◌then◌else◌}
use missy_micro.Balloc.{Balloc, reserve_block, reserve_blocks, balloc_init_region}
use missy_micro.Balloc.{release_block, release_blocks, balloc_deinit_region}
use missy_micro.Balloc.Bitmap.{used, used-lt_two, used-set, used-clear, test-used}
use missy_micro.Balloc.Count.{IsAccounted, count_free-set, count_free-clear, count_free-le}

used-reserve_block :
    (s : Balloc) (b c : ℕ)
    → used (reserve_block s b).m_bmp c ≡ (if c == b then 1 else used s.m_bmp c)
unfolding reserve_block
used-reserve_block s b c =
    ground (arith, test-used s.m_bmp b, used-set s.m_bmp b c, used-lt_two s.m_bmp b)

used-release_block :
    (s : Balloc) (b c : ℕ)
    → used (release_block s b).m_bmp c ≡ (if c == b then 0 else used s.m_bmp c)
unfolding release_block
used-release_block s b c =
    ground (arith, test-used s.m_bmp b, used-clear s.m_bmp b c, used-lt_two s.m_bmp b)

reserve_block-IsAccounted :
    (s : Balloc) (b : ℕ) → IsAccounted s → b < s.total_blocks → IsAccounted (reserve_block s b)
unfolding reserve_block
reserve_block-IsAccounted s b a h = ground (
  arith,
  test-used s.m_bmp b,
  count_free-set s.m_bmp b s.total_blocks,
  count_free-le s.m_bmp s.total_blocks,
)

release_block-IsAccounted :
    (s : Balloc) (b : ℕ) → IsAccounted s → b < s.total_blocks → IsAccounted (release_block s b)
unfolding release_block
release_block-IsAccounted s b a h = ground (
  arith,
  test-used s.m_bmp b,
  used-lt_two s.m_bmp b,
  count_free-clear s.m_bmp b s.total_blocks,
  count_free-le s.m_bmp s.total_blocks,
)

total-reserve_block : (s : Balloc) (b : ℕ) → (reserve_block s b).total_blocks ≡ s.total_blocks
unfolding reserve_block
total-reserve_block s b = ground arith

total-release_block : (s : Balloc) (b : ℕ) → (release_block s b).total_blocks ≡ s.total_blocks
unfolding release_block
total-release_block s b = ground arith

-- What no region changes.
pub record SameSizes (s t : Balloc) : Type 0 where
  pub total : t.total_blocks ≡ s.total_blocks
  pub units : t.bmp_sz ≡ s.bmp_sz
  pub address : t.m_bmp_addr ≡ s.m_bmp_addr

reserve_block-SameSizes : (s : Balloc) (b : ℕ) → SameSizes s (reserve_block s b)
unfolding reserve_block
reserve_block-SameSizes s b = ground arith

reserve_blocks-SameSizes : (s : Balloc) (b n : ℕ) → SameSizes s (reserve_blocks s b n)
unfolding reserve_blocks
reserve_blocks-SameSizes s b zero = record { total = refl; units = refl; address = refl }
reserve_blocks-SameSizes s b (suc n) =
    ground
      (arith, reserve_blocks-SameSizes (reserve_block s b) (b + 1) n, reserve_block-SameSizes s b)

pub init_region-SameSizes :
    (s : Balloc) (start len : ℕ) → SameSizes s (balloc_init_region s start len)
unfolding balloc_init_region
init_region-SameSizes s start len = reserve_blocks-SameSizes s (start / 4096) (len / 4096 + 1)

-- Does block `c` lie in the run of `n` blocks from `b` on?
abbrev pub within : ℕ → ℕ → ℕ → Bool
within b n c = leb b c && ltb c (b + n)

used-reserve_blocks :
    (s : Balloc) (b n c : ℕ)
    → used (reserve_blocks s b n).m_bmp c ≡ (if within b n c then 1 else used s.m_bmp c)
unfolding reserve_blocks
used-reserve_blocks s b zero c = ground arith
used-reserve_blocks s b (suc n) c =
    ground (arith, used-reserve_blocks (reserve_block s b) (b + 1) n c, used-reserve_block s b c)

used-release_blocks :
    (s : Balloc) (b n c : ℕ)
    → used (release_blocks s b n).m_bmp c ≡ (if within b n c then 0 else used s.m_bmp c)
unfolding release_blocks
used-release_blocks s b zero c = ground arith
used-release_blocks s b (suc n) c =
    ground (arith, used-release_blocks (release_block s b) (b + 1) n c, used-release_block s b c)

reserve_blocks-IsAccounted :
    (s : Balloc) (b n : ℕ)
    → IsAccounted s
    → b + n ≤ s.total_blocks
    → IsAccounted (reserve_blocks s b n)
unfolding reserve_blocks
reserve_blocks-IsAccounted s b zero a h = a
reserve_blocks-IsAccounted s b (suc n) a h =
    reserve_blocks-IsAccounted (reserve_block s b) (b + 1) n
      (reserve_block-IsAccounted s b a (omega arith)) (omega (arith, total-reserve_block s b))

release_blocks-IsAccounted :
    (s : Balloc) (b n : ℕ)
    → IsAccounted s
    → b + n ≤ s.total_blocks
    → IsAccounted (release_blocks s b n)
unfolding release_blocks
release_blocks-IsAccounted s b zero a h = a
release_blocks-IsAccounted s b (suc n) a h =
    release_blocks-IsAccounted (release_block s b) (b + 1) n
      (release_block-IsAccounted s b a (omega arith)) (omega (arith, total-release_block s b))

-- The number of blocks that a region of `length` bytes takes: one more than fit it.
abbrev pub region_blocks : ℕ → ℕ
region_blocks length = length / 4096 + 1

-- With an exact count, `balloc_init_region` of a region inside memory marks used exactly the
-- blocks of the region, one more than fit its length, leaves every other block as it was, and
-- keeps the count exact.
pub balloc_init_region_lem :
    (s : Balloc) (start len : ℕ)
    → IsAccounted s
    → start / 4096 + region_blocks len ≤ s.total_blocks
    → ((c : ℕ)
        → used (balloc_init_region s start len).m_bmp c
          ≡ (if within (start / 4096) (region_blocks len) c then 1 else used s.m_bmp c))
      × IsAccounted (balloc_init_region s start len)
unfolding balloc_init_region
balloc_init_region_lem s start len a h = (
  λ c. used-reserve_blocks s (start / 4096) (region_blocks len) c,
  reserve_blocks-IsAccounted s (start / 4096) (region_blocks len) a h,
)

-- `balloc_deinit_region` frees exactly the same blocks of a region, under the same bound with
-- the count of free blocks right.
pub balloc_deinit_region_lem :
    (s : Balloc) (start len : ℕ)
    → IsAccounted s
    → start / 4096 + region_blocks len ≤ s.total_blocks
    → ((c : ℕ)
        → used (balloc_deinit_region s start len).m_bmp c
          ≡ (if within (start / 4096) (region_blocks len) c then 0 else used s.m_bmp c))
      × IsAccounted (balloc_deinit_region s start len)
unfolding balloc_deinit_region
balloc_deinit_region_lem s start len a h = (
  λ c. used-release_blocks s (start / 4096) (region_blocks len) c,
  release_blocks-IsAccounted s (start / 4096) (region_blocks len) a h,
)
