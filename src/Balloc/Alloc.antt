-- ===== src/Balloc/Alloc.antt =====
-- `balloc_get` and `balloc_free` of balloc.c.
use missy_micro.Common.{ℕ, ◌+◌, ◌-◌, ◌*◌, ◌/◌, ◌^◌, ◌≤◌, ◌<◌, ◌≡◌, ◌≢◌, refl, ◌⊎◌}
use missy_micro.Common.{ap, ==_ne, ltb, ltb→lt, inl, inr, arith, u32, sub32, ◌==◌}
use missy_micro.Common.{if◌then◌else◌, Bool-cases}
use missy_micro.Balloc.{Balloc, balloc_get, balloc_free, block_alloc_first_free}
use missy_micro.Balloc.{memory_bitmap_set, memory_bitmap_clear}
use missy_micro.Balloc.Bitmap.{used, used-set, used-clear}
use missy_micro.Balloc.Scan.{IsFirstFree, IsFull, block_alloc_first_free_lem}
use missy_micro.Balloc.Count.{IsAccounted, count_free, count_free-set, count_free-clear}
use missy_micro.Balloc.Count.{count_free-ext}
use missy_micro.Balloc.Count.{count_free-le, count_free-IsFull, IsFull-count_free}

-- `p` is the address of block `b`, which was the first free block of `s` and lies in memory;
-- `t` differs from `s` in that `b` is given out.
pub record IsGranted (s : Balloc) (b : ℕ) (p : ℕ) (t : Balloc) : Type 0 where
  pub address : p ≡ b * 4096
  pub fits : p < 2 ^ 32
  pub first : IsFirstFree s.m_bmp 0 s.total_blocks b
  pub digits : (c : ℕ) → used t.m_bmp c ≡ (if c == b then 1 else used s.m_bmp c)
  pub total : t.total_blocks ≡ s.total_blocks
  pub count : t.free_blocks + 1 ≡ s.free_blocks
  pub accounted : IsAccounted t

-- With block 0 reserved, what is granted is not NULL.
pub granted-ne_zero :
    (s t : Balloc) (b p : ℕ) → used s.m_bmp 0 ≡ 1 → IsGranted s b p t → (b ≢ 0) × (p ≢ 0)
granted-ne_zero s t b p zero_used g = (b≢0, omega (arith, g.address, b≢0))
  where
    b≢0 : b ≢ 0
    b≢0 e = omega (arith, zero_used, g.first.free, ap (used s.m_bmp) e)

-- What the two updates of `balloc_get` come to, once the search has found a block.
get_found :
    (s : Balloc) (b : ℕ)
    → block_alloc_first_free s ≡ b
    → b ≢ 0
    → balloc_get s ≡ (
      u32 (b * 4096),
      record s { m_bmp = memory_bitmap_set s.m_bmp b; free_blocks = sub32 s.free_blocks 1 },
    )
unfolding balloc_get
get_found s b e h = rw (e, ==_ne b 0 h)

granted :
    (s : Balloc) (b : ℕ)
    → IsAccounted s
    → b ≢ 0
    → IsFirstFree s.m_bmp 0 s.total_blocks b
    → IsGranted s b
        (u32 (b * 4096))
        (record s { m_bmp = memory_bitmap_set s.m_bmp b; free_blocks = sub32 s.free_blocks 1 })
granted s b a h f = record {
  address = omega (arith, a.memory, f.below);
  fits = omega arith;
  first = f;
  digits = λ c. used-set s.m_bmp b c;
  total = refl;
  count = omega (arith, counted, count_free-le s.m_bmp s.total_blocks, a.counted, a.memory);
  accounted = record {
    units = a.units;
    memory = a.memory;
    counted = omega (arith, counted, count_free-le s.m_bmp s.total_blocks, a.counted, a.memory);
  };
}
  where
    counted :
        count_free (memory_bitmap_set s.m_bmp b) s.total_blocks + 1
        ≡ count_free s.m_bmp s.total_blocks
    counted = count_free-set s.m_bmp b s.total_blocks f.below f.free

-- While a block of memory is free, the search ends inside memory.
first_in_memory :
    (s : Balloc)
    → IsAccounted s
    → 0 < s.free_blocks
    → IsFirstFree s.m_bmp 0 s.total_blocks (block_alloc_first_free s)
first_in_memory s a some_free =
    inside (block_alloc_first_free_lem s (omega (arith, a.units, a.memory)))
  where
    not_full : ¬ IsFull s.m_bmp 0 s.total_blocks
    not_full full = omega (arith, a.counted, count_free-IsFull s.m_bmp s.total_blocks full)

    inside :
        IsFirstFree s.m_bmp 0 (s.bmp_sz * 32) (block_alloc_first_free s)
          ⊎ ((block_alloc_first_free s ≡ 0) × IsFull s.m_bmp 0 (s.bmp_sz * 32))
        → IsFirstFree s.m_bmp 0 s.total_blocks (block_alloc_first_free s)
    inside (inl f) = elim (Bool-cases (ltb (block_alloc_first_free s) s.total_blocks)) [
      | inl lt ↦ record { from = f.from; below = ltb→lt _ _ lt; free = f.free; first = f.first }
      | inr ge ↦ absurd (not_full (λ c p q. f.first c p (ground arith)))
    ]
    inside (inr (e, full)) = absurd (not_full (λ c p q. full c p (omega (arith, a.units))))

-- With block 0 reserved, an exact count and a block of memory free, `balloc_get` gives out the
-- first free block: its address is returned, its digit alone is set, and the count of free
-- blocks falls by one and stays exact.
pub balloc_get_lem :
    (s : Balloc)
    → IsAccounted s
    → used s.m_bmp 0 ≡ 1
    → 0 < s.free_blocks
    → (b : ℕ) × IsGranted s b (balloc_get s).0 (balloc_get s).1
balloc_get_lem s a zero_used some_free =
    let f = first_in_memory s a some_free in
    let b = block_alloc_first_free s in
    let b≢0 : b ≢ 0 = λ e. omega (arith, zero_used, f.free, ap (used s.m_bmp) e) in
    (b, rw (get_found s b refl b≢0) (granted s b a b≢0 f))

-- If every digit of the bitmap's words is set, `balloc_get` returns NULL and changes nothing.
pub balloc_get_null :
    (s : Balloc) → s.bmp_sz * 32 ≤ 2 ^ 32 → IsFull s.m_bmp 0 (s.bmp_sz * 32) → balloc_get s ≡ (0, s)
unfolding balloc_get
balloc_get_null s fits full = rw no_block
  where
    is_zero :
        IsFirstFree s.m_bmp 0 (s.bmp_sz * 32) (block_alloc_first_free s)
          ⊎ ((block_alloc_first_free s ≡ 0) × IsFull s.m_bmp 0 (s.bmp_sz * 32))
        → block_alloc_first_free s ≡ 0
    is_zero (inl f) = absurd (omega (arith, f.free, full (block_alloc_first_free s) f.from f.below))
    is_zero (inr (e, h)) = e

    no_block : block_alloc_first_free s ≡ 0
    no_block = is_zero (block_alloc_first_free_lem s fits)

-- With an exact count, when all of a memory that is not empty is given out and the digit after
-- it is clear, `balloc_get` returns the address just past memory, not NULL, and the count of
-- free blocks wraps round.
pub balloc_get_past_memory :
    (s : Balloc)
    → IsAccounted s
    → 0 < s.total_blocks
    → s.free_blocks ≡ 0
    → used s.m_bmp s.total_blocks ≡ 0
    → ((balloc_get s).0 ≡ s.total_blocks * 4096) × ((balloc_get s).1.free_blocks ≡ 2 ^ 32 - 1)
unfolding balloc_get
balloc_get_past_memory s a some_memory none_free padding =
    rw (get_found s s.total_blocks search_ends (omega arith))
      (omega (arith, a.memory), rw none_free)
  where
    full : IsFull s.m_bmp 0 s.total_blocks
    full = IsFull-count_free s.m_bmp s.total_blocks (omega (arith, a.counted))

    at_total :
        IsFirstFree s.m_bmp 0 (s.bmp_sz * 32) (block_alloc_first_free s)
          ⊎ ((block_alloc_first_free s ≡ 0) × IsFull s.m_bmp 0 (s.bmp_sz * 32))
        → block_alloc_first_free s ≡ s.total_blocks
    at_total (inl f) =
        ground (arith, f.free, full (block_alloc_first_free s), f.first s.total_blocks)
    at_total (inr (e, h)) =
        absurd (omega (arith, padding, h s.total_blocks (omega arith) (omega (arith, a.units))))

    search_ends : block_alloc_first_free s ≡ s.total_blocks
    search_ends = at_total (block_alloc_first_free_lem s (omega (arith, a.units, a.memory)))

-- With an exact count, freeing a nonzero address in a block of memory that is given out clears
-- the digit of that block alone, and the count of free blocks rises by one and stays exact.
pub balloc_free_lem :
    (s : Balloc) (p : ℕ)
    → IsAccounted s
    → p ≢ 0
    → p / 4096 < s.total_blocks
    → used s.m_bmp (p / 4096) ≡ 1
    → ((c : ℕ) → used (balloc_free s p).m_bmp c ≡ (if c == p / 4096 then 0 else used s.m_bmp c))
      × ((balloc_free s p).free_blocks ≡ s.free_blocks + 1)
      × IsAccounted (balloc_free s p)
unfolding balloc_free
balloc_free_lem s p a p≢0 inside taken = (
  λ c. ground (arith, used-clear s.m_bmp (p / 4096) c),
  ground (arith, count_free-le s.m_bmp s.total_blocks),
  ground (
    arith,
    count_free-clear s.m_bmp (p / 4096) s.total_blocks,
    count_free-le s.m_bmp s.total_blocks,
  ),
)

-- With an exact count, block 0 reserved and a block of memory free, `balloc_free` gives back
-- what `balloc_get` took: every digit of the bitmap and the count are as before.
pub free-get :
    (s : Balloc)
    → IsAccounted s
    → used s.m_bmp 0 ≡ 1
    → 0 < s.free_blocks
    → let (p, t) = balloc_get s in
      ((c : ℕ) → used (balloc_free t p).m_bmp c ≡ used s.m_bmp c)
      × ((balloc_free t p).free_blocks ≡ s.free_blocks)
unfolding balloc_free
free-get s a zero_used some_free =
    let (b, g) = balloc_get_lem s a zero_used some_free in
    let p = (balloc_get s).0 in
    let t = (balloc_get s).1 in
    let block : p / 4096 ≡ b = omega (arith, g.address) in
    let b≢0 : b ≢ 0 = λ e. omega (arith, zero_used, g.first.free, ap (used s.m_bmp) e) in
    let p≢0 : p ≢ 0 = omega (arith, g.address) in
    rw (==_ne p 0 p≢0, block)
      (
        λ c. ground (arith, g.digits c, g.first.free, used-clear t.m_bmp b c),
        omega (arith, g.count, a.counted, a.memory, count_free-le s.m_bmp s.total_blocks),
      )

-- `balloc_free` does not test that the block is given out: freeing a free block of memory makes
-- the count of free blocks wrong.
pub double_free-not-IsAccounted :
    (s : Balloc) (p : ℕ)
    → IsAccounted s
    → p ≢ 0
    → used s.m_bmp (p / 4096) ≡ 0
    → ¬ IsAccounted (balloc_free s p)
unfolding balloc_free
double_free-not-IsAccounted s p a p≢0 clear bad = ground (
  arith,
  count_free-ext s.m_bmp (memory_bitmap_clear s.m_bmp (p / 4096)) s.total_blocks
      (λ c h. ground (arith, used-clear s.m_bmp (p / 4096) c)),
  count_free-le s.m_bmp s.total_blocks,
)
