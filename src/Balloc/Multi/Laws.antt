-- ===== src/Balloc/Multi/Laws.antt =====
-- What `balloc_get_n` of balloc.c hands out, and what it marks.
use missy_micro.Common.{ℕ, zero, suc, ◌+◌, ◌*◌, ◌/◌, ◌%◌, ◌^◌, ◌≤◌, ◌<◌, ◌≡◌, ◌≢◌, refl, ◌⊎◌}
use missy_micro.Common.{inl, inr, arith, u32, sub32, ◌==◌, Bool-cases, ap, ==_ne}
use missy_micro.Common.{Option, none, some, bit_and, bit_or, update_ne, ◌∙◌}
use missy_micro.Bits.{bit, bit-lt_two, bit_and-two_pow-ne_zero}
use missy_micro.Balloc.{Balloc, block_alloc_first_free, or_zero}
use missy_micro.Balloc.Bitmap.{used}
use missy_micro.Balloc.Scan.{IsFirstFree, IsFull, block_alloc_first_free_lem, used_digit}
use missy_micro.Balloc.Multi.{memory_bitmap_set_sum, scan_unit_n, scan_units_n}
use missy_micro.Balloc.Multi.{block_alloc_first_free_n, mark_run, balloc_get_n, count_run}

-- A block that the search may return: its own digit is clear and belongs to the bitmap.
abbrev IsFreeBelow : (ℕ → ℕ) → ℕ → Option ℕ → Type 0
IsFreeBelow m hi none = Unit {0}
IsFreeBelow m hi (some b) = (used m b ≡ 0) × (b < hi)

scan_unit_n-IsFreeBelow :
    (m : ℕ → ℕ) (nunits i j left hi : ℕ)
    → j + left ≡ 32
    → i * 32 + 32 ≤ hi
    → hi ≤ 2 ^ 32
    → IsFreeBelow m hi (scan_unit_n m nunits i j left)
unfolding scan_unit_n
scan_unit_n-IsFreeBelow m nunits i j zero hi e h fits = tt
scan_unit_n-IsFreeBelow m nunits i j (suc left) hi e h fits =
    let rest = scan_unit_n-IsFreeBelow m nunits i (j + 1) left hi (omega arith) h fits in
    elim (Bool-cases (bit_and (m i) (2 ^ j) == 0)) [
      | inl clear ↦ elim (Bool-cases (count_run m start nunits 0 0 (nunits + 1))) [
        | inl enough ↦
            rw (clear, enough, word)
              (
                used_digit m i j (omega arith)
                    ∙ ground (arith, bit-lt_two (m i) j, bit_and-two_pow-ne_zero (m i) j),
                omega arith,
              )
        | inr short ↦ rw (clear, short) rest
      ]
      | inr taken ↦ rw taken rest
    ]
  where
    start : ℕ
    start = u32 (i * 32 + 2 ^ j)

    word : u32 (i * 32 + j) ≡ i * 32 + j
    word = omega arith

first_some :
    (m : ℕ → ℕ) (hi : ℕ) (unit rest : Option ℕ)
    → IsFreeBelow m hi unit
    → IsFreeBelow m hi rest
    → IsFreeBelow m hi (elim unit [ none ↦ rest | some b ↦ some b ])
first_some m hi none rest h k = k
first_some m hi (some b) rest h k = h

scan_units_n-IsFreeBelow :
    (m : ℕ → ℕ) (nunits i left hi : ℕ)
    → (i + left) * 32 ≤ hi
    → hi ≤ 2 ^ 32
    → IsFreeBelow m hi (scan_units_n m nunits i left)
unfolding scan_units_n
scan_units_n-IsFreeBelow m nunits i zero hi h fits = tt
scan_units_n-IsFreeBelow m nunits i (suc left) hi h fits =
    let rest = scan_units_n-IsFreeBelow m nunits (i + 1) left hi (omega arith) fits in
    let unit = scan_unit_n-IsFreeBelow m nunits i 0 32 hi refl (omega arith) fits in
    elim (Bool-cases (m i == 0xffffffff)) [
      | inl full ↦ rw full rest
      | inr free ↦ rw free (
          first_some m hi (scan_unit_n m nunits i 0 32) (scan_units_n m nunits (i + 1) left) unit
            rest)
    ]

found_free :
    (m : ℕ → ℕ) (hi : ℕ) (r : Option ℕ)
    → IsFreeBelow m hi r
    → or_zero r ≢ 0
    → (used m (or_zero r) ≡ 0) × (or_zero r < hi)
found_free m hi none h ne = absurd (ne refl)
found_free m hi (some b) h ne = h

-- A nonzero result of the search for `n` blocks is a free block of the bitmap.
pub first_free_n-free :
    (s : Balloc) (n : ℕ)
    → s.bmp_sz * 32 ≤ 2 ^ 32
    → let b = block_alloc_first_free_n s n in b ≢ 0 → (used s.m_bmp b ≡ 0) × (b < s.bmp_sz * 32)
unfolding block_alloc_first_free_n
first_free_n-free s n fits ne = elim (Bool-cases (n == 0)) [
  | inl z ↦ absurd (ne (rw z))
  | inr nz ↦ elim (Bool-cases (n == 1)) [
    | inl o ↦ rw (nz, o) (single (block_alloc_first_free_lem s fits) (rw (nz, o) at ne))
    | inr more ↦
        rw (nz, more)
          (found_free s.m_bmp (s.bmp_sz * 32) (scan_units_n s.m_bmp n 0 s.bmp_sz)
            (scan_units_n-IsFreeBelow s.m_bmp n 0 s.bmp_sz (s.bmp_sz * 32) (omega arith) fits)
            (rw (nz, more) at ne))
  ]
]
  where
    single :
        IsFirstFree s.m_bmp 0 (s.bmp_sz * 32) (block_alloc_first_free s)
          ⊎ ((block_alloc_first_free s ≡ 0) × IsFull s.m_bmp 0 (s.bmp_sz * 32))
        → block_alloc_first_free s ≢ 0
        → (used s.m_bmp (block_alloc_first_free s) ≡ 0) × (block_alloc_first_free s < s.bmp_sz * 32)
    single (inl f) h = (f.free, f.below)
    single (inr (e, full)) h = absurd (h e)

-- A round of the marking loop touches no word below `blk`.
mark_run-below :
    (m : ℕ → ℕ) (blk i left w : ℕ)
    → w < blk
    → blk + i + left ≤ 2 ^ 30
    → mark_run m blk i left w ≡ m w
unfolding mark_run memory_bitmap_set_sum
mark_run-below m blk i zero w h fits = refl
mark_run-below m blk i (suc left) w h fits =
    mark_run-below (memory_bitmap_set_sum m blk i) blk (i + 1) left w h (omega arith)
    ∙ update_ne m word w (bit_or (m word) (2 ^ (u32 (blk + i % 32) % 32))) (omega arith)
  where
    word : ℕ
    word = (blk + i / 32) % 2 ^ 30

-- For at most 32768 words of bitmap and fewer than 2 ^ 29 blocks asked for, if the search of
-- `balloc_get_n` finds a block b other than 0, `balloc_get_n` counts n blocks off and returns
-- the address of b, but every block before 32 * b, b itself among them, keeps its digit, and b
-- is still marked free.
pub balloc_get_n_unmarked :
    (s : Balloc) (n : ℕ)
    → s.bmp_sz ≤ 32768
    → n < 2 ^ 29
    → block_alloc_first_free_n s n ≢ 0
    → let b = block_alloc_first_free_n s n in
      let (p, t) = balloc_get_n s n in
      (p ≡ b * 4096)
      × (t.free_blocks ≡ sub32 s.free_blocks n)
      × ((c : ℕ) → c < 32 * b → used t.m_bmp c ≡ used s.m_bmp c)
      × (used t.m_bmp b ≡ 0)
unfolding balloc_get_n
balloc_get_n_unmarked s n units small ne =
    let b = block_alloc_first_free_n s n in
    let (free, below) = first_free_n-free s n (omega arith) ne in
    rw (==_ne b 0 ne) (omega arith, refl, λ c h. kept c h, kept b (omega arith) ∙ free)
  where
    kept :
        (c : ℕ)
        → c < 32 * block_alloc_first_free_n s n
        → used (mark_run s.m_bmp (block_alloc_first_free_n s n) 0 n) c ≡ used s.m_bmp c
    kept c h =
        unfold used in
        ap (λ (w : ℕ). bit w (c % 32))
          (mark_run-below s.m_bmp (block_alloc_first_free_n s n) 0 n (c / 32) (omega arith)
            (omega (arith, (first_free_n-free s n (omega arith) ne).1)))
