-- ===== src/Balloc/Scan.antt =====
-- The search `block_alloc_first_free` of balloc.c.
use missy_micro.Common.{ℕ, zero, suc, ◌+◌, ◌*◌, ◌/◌, ◌%◌, ◌^◌, ◌≤◌, ◌<◌, bit_and}
use missy_micro.Common.{◌≡◌, refl, ◌⊎◌, inl, inr, Option, none, some, arith, true, false}
use missy_micro.Common.{◌∙◌, u32, ◌==◌, Bool-cases, ==_iff}
use missy_micro.Bits.{bit, bit-lt_two, bit-ones, bit_and-two_pow-eq_zero}
use missy_micro.Bits.{bit_and-two_pow-ne_zero}
use missy_micro.Balloc.{Balloc, scan_unit, scan_units, block_alloc_first_free, or_zero}
use missy_micro.Balloc.{block_unit_full}
use missy_micro.Balloc.Bitmap.{used}

-- `b` is the first free block from `lo` on, and it lies below `hi`.
pub record IsFirstFree (m : ℕ → ℕ) (lo hi b : ℕ) : Type 0 where
  pub from : lo ≤ b
  pub below : b < hi
  pub free : used m b ≡ 0
  pub first : (c : ℕ) → lo ≤ c → c < b → used m c ≡ 1

abbrev pub IsFull : (ℕ → ℕ) → ℕ → ℕ → Type 0
IsFull m lo hi = (c : ℕ) → lo ≤ c → c < hi → used m c ≡ 1

abbrev Scanned : (ℕ → ℕ) → ℕ → ℕ → Option ℕ → Type 0
Scanned m lo hi none = IsFull m lo hi
Scanned m lo hi (some b) = IsFirstFree m lo hi b

-- Passing a used block keeps what the rest of the search found.
Scanned-used :
    (m : ℕ → ℕ) (lo hi : ℕ) (r : Option ℕ)
    → used m lo ≡ 1
    → Scanned m (lo + 1) hi r
    → Scanned m lo hi r
Scanned-used m lo hi none u h = λ c p q. ground (arith, h c)
Scanned-used m lo hi (some b) u h = record {
  from = omega (arith, h.from);
  below = h.below;
  free = h.free;
  first = λ c p q. ground (arith, h.first c);
}

-- So does passing a run of used blocks.
Scanned-full :
    (m : ℕ → ℕ) (lo mid hi : ℕ) (r : Option ℕ)
    → lo ≤ mid
    → IsFull m lo mid
    → Scanned m mid hi r
    → Scanned m lo hi r
Scanned-full m lo mid hi none le f h = λ c p q. ground (arith, f c, h c)
Scanned-full m lo mid hi (some b) le f h = record {
  from = omega (arith, h.from);
  below = h.below;
  free = h.free;
  first = λ c p q. ground (arith, f c, h.first c);
}

Scanned-shorter :
    (m : ℕ → ℕ) (lo mid hi b : ℕ) → mid ≤ hi → IsFirstFree m lo mid b → IsFirstFree m lo hi b
Scanned-shorter m lo mid hi b le h = record {
  from = h.from;
  below = omega (arith, h.below);
  free = h.free;
  first = h.first;
}

pub used_digit : (m : ℕ → ℕ) (i j : ℕ) → j < 32 → used m (i * 32 + j) ≡ bit (m i) j
unfolding used
used_digit m i j h = ground arith

scan_unit-Scanned :
    (m : ℕ → ℕ) (i j left : ℕ)
    → j + left ≡ 32
    → i * 32 + 32 ≤ 2 ^ 32
    → Scanned m (i * 32 + j) (i * 32 + 32) (scan_unit m i j left)
unfolding scan_unit
scan_unit-Scanned m i j zero e fits = λ c p q. absurd (omega arith)
scan_unit-Scanned m i j (suc left) e fits = elim (Bool-cases (bit (m i) j == 0)) [
  | inl free ↦
      rw (free_test free, fits_word)
        (record {
          from = omega arith;
          below = omega arith;
          free = used_digit m i j (omega arith) ∙ (==_iff _ _).0 free;
          first = λ c p q. absurd (omega arith);
        })
  | inr taken ↦ rw (taken_test taken) (
      Scanned-used m (i * 32 + j) (i * 32 + 32) (scan_unit m i (j + 1) left)
        (used_digit m i j (omega arith) ∙ ground (arith, bit-lt_two (m i) j))
        (let later = scan_unit-Scanned m i (j + 1) left (omega arith) fits in
          let next : i * 32 + (j + 1) ≡ i * 32 + j + 1 = omega arith in rw next at later))
]
  where
    fits_word : u32 (i * 32 + j) ≡ i * 32 + j
    fits_word = omega arith

    free_test : (bit (m i) j == 0) ≡ true → (bit_and (m i) (2 ^ j) == 0) ≡ true
    free_test h = ground (arith, bit_and-two_pow-eq_zero (m i) j)

    taken_test : (bit (m i) j == 0) ≡ false → (bit_and (m i) (2 ^ j) == 0) ≡ false
    taken_test h = ground (arith, bit-lt_two (m i) j, bit_and-two_pow-ne_zero (m i) j)

IsFull-word : (m : ℕ → ℕ) (i : ℕ) → m i ≡ block_unit_full → IsFull m (i * 32) (i * 32 + 32)
unfolding used
IsFull-word m i e c p q =
    let word : c / 32 ≡ i = omega arith in rw (word, e) (bit-ones 32 (c % 32) (omega arith))

-- The outer loop returns what the inner one found, and goes on otherwise.
Scanned-unit :
    (m : ℕ → ℕ) (lo hi : ℕ) (unit rest : Option ℕ)
    → lo + 32 ≤ hi
    → Scanned m lo (lo + 32) unit
    → Scanned m (lo + 32) hi rest
    → Scanned m lo hi (elim unit [ none ↦ rest | some b ↦ some b ])
Scanned-unit m lo hi none rest le h r = Scanned-full m lo (lo + 32) hi rest (omega arith) h r
Scanned-unit m lo hi (some b) rest le h r = Scanned-shorter m lo (lo + 32) hi b le h

scan_units-Scanned :
    (m : ℕ → ℕ) (i left n : ℕ)
    → i + left ≡ n
    → n * 32 ≤ 2 ^ 32
    → Scanned m (i * 32) (n * 32) (scan_units m i left)
unfolding scan_units
scan_units-Scanned m i zero n e fits = λ c p q. absurd (omega arith)
scan_units-Scanned m i (suc left) n e fits =
    let rest = scan_units-Scanned m (i + 1) left n (omega arith) fits in
    let next : (i + 1) * 32 ≡ i * 32 + 32 = omega arith in
    let later : Scanned m (i * 32 + 32) (n * 32) (scan_units m (i + 1) left) = rw next at rest in
    elim (Bool-cases (m i == block_unit_full)) [
      | inl full ↦ rw full (
          Scanned-full m (i * 32) (i * 32 + 32) (n * 32) (scan_units m (i + 1) left) (omega arith)
            (IsFull-word m i ((==_iff _ _).0 full)) later)
      | inr some_free ↦ rw some_free (
          Scanned-unit m (i * 32) (n * 32) (scan_unit m i 0 32) (scan_units m (i + 1) left)
            (omega arith) unit later)
    ]
  where
    unit : Scanned m (i * 32) (i * 32 + 32) (scan_unit m i 0 32)
    unit =
        let found = scan_unit-Scanned m i 0 32 refl (omega arith) in
        let start : i * 32 + 0 ≡ i * 32 = omega arith in rw start at found

-- The search for a free block over a bitmap of at most 2 ^ 32 digits returns the number of the
-- first clear digit of its words, or 0 where every digit is set.
pub block_alloc_first_free_lem :
    (s : Balloc)
    → s.bmp_sz * 32 ≤ 2 ^ 32
    → IsFirstFree s.m_bmp 0 (s.bmp_sz * 32) (block_alloc_first_free s)
      ⊎ ((block_alloc_first_free s ≡ 0) × IsFull s.m_bmp 0 (s.bmp_sz * 32))
unfolding block_alloc_first_free
block_alloc_first_free_lem s fits =
    found (scan_units s.m_bmp 0 s.bmp_sz)
      (scan_units-Scanned s.m_bmp 0 s.bmp_sz s.bmp_sz (omega arith) fits)
  where
    found :
        (r : Option ℕ)
        → Scanned s.m_bmp 0 (s.bmp_sz * 32) r
        → IsFirstFree s.m_bmp 0 (s.bmp_sz * 32) (or_zero r)
          ⊎ ((or_zero r ≡ 0) × IsFull s.m_bmp 0 (s.bmp_sz * 32))
    found none h = inr (refl, h)
    found (some b) h = inl h
