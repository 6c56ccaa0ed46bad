-- ===== src/Cpu/Descriptors.antt =====
-- The segment descriptors of i386_cpu.c, read as the processor reads them.
use missy_micro.Common.{ℕ, ◌+◌, ◌-◌, ◌*◌, ◌/◌, ◌%◌, ◌^◌, ◌<◌, ◌≡◌, refl, ap, arith, ◌∙◌, min, max}
use missy_micro.Common.{Bool-cases, inl, inr, false, sym, ap₂, true, ltb, leb, if◌then◌else◌}
use missy_micro.Common.{◌&&◌, bit_and, bit_or, u32, update, ◌==◌, some}
use missy_micro.Bits.{bit, bit-lt_two, bit-bit_and, bit-bit_or}
use missy_micro.Bits.Masks.{bit_and-ones}
use missy_micro.Bits.Shifts.{bit-mul, bit-div, bit-window, bit-shifted, bit-remainder}
use missy_micro.Cpu.{descriptor, descriptor_high, i386_gdt_setentry, i386_gdt_getentry}

-- What the processor reads in a descriptor: where each digit of the base, of the limit, of the
-- access byte and of the four flags stands.
pub record IsDescriptor (d base limit flags : ℕ) : Type 0 where
  pub limit_low : (k : ℕ) → k < 16 → bit d k ≡ bit limit k
  pub base_low : (k : ℕ) → k < 24 → bit d (16 + k) ≡ bit base k
  pub access : (k : ℕ) → k < 8 → bit d (40 + k) ≡ bit flags k
  pub limit_high : (k : ℕ) → k < 4 → bit d (48 + k) ≡ bit limit (16 + k)
  pub flag : (k : ℕ) → k < 4 → bit d (52 + k) ≡ bit flags (12 + k)
  pub base_high : (k : ℕ) → k < 8 → bit d (56 + k) ≡ bit base (24 + k)

-- Is `k` one of the `n` digits from `lo` on?
abbrev within : ℕ → ℕ → ℕ → ℕ
within lo n k = if leb lo k && ltb k (lo + n) then 1 else 0

flag_mask : bit_or ((2 ^ 8 - 1) * 2 ^ 8) ((2 ^ 4 - 1) * 2 ^ 20) ≡ 0x00f0ff00
flag_mask = refl

flag_mask-digit : (k : ℕ) → bit 0x00f0ff00 k ≡ max (within 8 8 k) (within 20 4 k)
flag_mask-digit k =
    ap (λ (x : ℕ). bit x k) (sym flag_mask)
    ∙ bit-bit_or ((2 ^ 8 - 1) * 2 ^ 8) ((2 ^ 4 - 1) * 2 ^ 20) k
    ∙ ap₂ max (bit-window 8 8 k) (bit-window 20 4 k)

module _ (base limit flags : ℕ) where
  -- The high half, digit by digit.
  high-digit :
      (k : ℕ)
      → bit (descriptor_high base limit flags) k
        ≡ max
            (max
              (max
                (min (bit limit k) (within 16 4 k))
                (min (bit (flags * 2 ^ 8) k) (max (within 8 8 k) (within 20 4 k))))
              (min (bit base (16 + k)) (within 0 8 k)))
            (min (bit base k) (within 24 8 k))
  unfolding descriptor_high
  high-digit k =
      bit-bit_or
        (bit_or (bit_or (bit_and limit 0x000f0000) (bit_and (flags * 2 ^ 8) 0x00f0ff00))
          (bit_and (base / 2 ^ 16) 0x000000ff))
        (bit_and base 0xff000000) k
      ∙ ap₂ max
          (bit-bit_or (bit_or (bit_and limit 0x000f0000) (bit_and (flags * 2 ^ 8) 0x00f0ff00))
              (bit_and (base / 2 ^ 16) 0x000000ff) k
            ∙ ap₂ max
                (bit-bit_or (bit_and limit 0x000f0000) (bit_and (flags * 2 ^ 8) 0x00f0ff00) k
                  ∙ ap₂ max (bit-bit_and limit 0x000f0000 k ∙ ap₂ min refl (bit-window 16 4 k))
                      (bit-bit_and (flags * 2 ^ 8) 0x00f0ff00 k ∙ ap₂ min refl (flag_mask-digit k)))
                (bit-bit_and (base / 2 ^ 16) 0x000000ff k
                  ∙ ap₂ min (bit-div 16 base k) (bit-window 0 8 k)))
          (bit-bit_and base 0xff000000 k ∙ ap₂ min refl (bit-window 24 8 k))

  -- The whole.
  descriptor-digit :
      (k : ℕ)
      → k < 64
      → bit (descriptor base limit flags) k
        ≡ max
            (max
              (if ltb k 32 then 0 else bit (descriptor_high base limit flags) (k - 32))
              (if ltb k 32 then (if ltb k 16 then 0 else bit base (k - 16)) else 0))
            (if ltb k 16 then bit limit k else 0)
  unfolding descriptor
  descriptor-digit k lt =
      let high = descriptor_high base limit flags * 2 ^ 32 in
      let below : ltb k 64 ≡ true = ground arith in
      let low =
        bit-bit_or (bit_or (high % 2 ^ 64) (u32 (base * 2 ^ 16))) (bit_and limit 0x0000ffff) k in
      low
      ∙ ap₂ max
          (bit-bit_or (high % 2 ^ 64) (u32 (base * 2 ^ 16)) k
            ∙ ap₂ max
                (bit-remainder 64 high k
                  ∙ rw below (bit-shifted 32 (descriptor_high base limit flags) k))
                (bit-remainder 32 (base * 2 ^ 16) k ∙ rw (bit-shifted 16 base k) refl))
          (ap (λ (x : ℕ). bit x k) (bit_and-ones 16 limit) ∙ bit-remainder 16 limit k)

  high_half :
      (k : ℕ)
      → k < 32
      → bit (descriptor base limit flags) (32 + k) ≡ bit (descriptor_high base limit flags) k
  high_half k lt =
      let index : 32 + k - 32 ≡ k = omega arith in
      ground (
        arith,
        descriptor-digit (32 + k) (omega arith),
        ap (bit (descriptor_high base limit flags)) index,
      )

  -- A digit of the high half under its index in the whole.
  high_at :
      (j k : ℕ)
      → j ≡ 32 + k
      → k < 32
      → bit (descriptor base limit flags) j ≡ bit (descriptor_high base limit flags) k
  high_at j k e lt = rw e (high_half k lt)

  base_low_lem : (k : ℕ) → k < 24 → bit (descriptor base limit flags) (16 + k) ≡ bit base k
  base_low_lem k lt = elim (Bool-cases (ltb k 16)) [
    | inl low ↦
        let index : 16 + k - 16 ≡ k = omega arith in
        ground (arith, descriptor-digit (16 + k) (omega arith), ap (bit base) index)
    | inr high ↦
        let e : 16 + k ≡ 32 + (k - 16) = ground arith in
        let index : 16 + (k - 16) ≡ k = ground arith in
        high_at (16 + k) (k - 16) e (omega arith)
        ∙ ground (arith, high-digit (k - 16), ap (bit base) index, bit-lt_two base k)
  ]

  -- `descriptor` puts every digit of the base, the limit and the flags where the processor reads it.
  pub descriptor-IsDescriptor : IsDescriptor (descriptor base limit flags) base limit flags
  descriptor-IsDescriptor = record {
    limit_low = λ k lt. ground (arith, descriptor-digit k (omega arith));
    base_low = base_low_lem;
    access = λ k lt.
        high_at (40 + k) (8 + k) (omega arith) (omega arith)
        ∙ ground (arith, high-digit (8 + k), bit-mul 8 flags k, bit-lt_two flags k);
    limit_high = λ k lt.
        high_at (48 + k) (16 + k) (omega arith) (omega arith)
        ∙ ground (arith, high-digit (16 + k), bit-lt_two limit (16 + k));
    flag = λ k lt.
        let index : 20 + k ≡ 8 + (12 + k) = omega arith in
        high_at (52 + k) (20 + k) (omega arith) (omega arith)
        ∙ ground (
          arith,
          high-digit (20 + k),
          ap (bit (flags * 2 ^ 8)) index,
          bit-mul 8 flags (12 + k),
          bit-lt_two flags (12 + k),
        );
    base_high = λ k lt.
        high_at (56 + k) (24 + k) (omega arith) (omega arith)
        ∙ ground (arith, high-digit (24 + k), bit-lt_two base (24 + k));
  }

-- `i386_gdt_setentry` of an index inside the table succeeds, and `i386_gdt_getentry` then
-- returns a descriptor with every digit of the base, the limit and the flags where the
-- processor reads it, and every other entry as it was.
pub getentry-setentry :
    (gdt : ℕ → ℕ) (idx base limit flags : ℕ)
    → idx < 10
    → (gdt' : ℕ → ℕ) × (i386_gdt_setentry gdt idx base limit flags ≡ some gdt')
      × IsDescriptor (i386_gdt_getentry gdt' idx) base limit flags
      × ((i : ℕ)
          → i386_gdt_getentry gdt' i
            ≡ (if i == idx then i386_gdt_getentry gdt' idx else i386_gdt_getentry gdt i))
unfolding i386_gdt_setentry i386_gdt_getentry
getentry-setentry gdt idx base limit flags lt =
    let passes : ltb 10 idx ≡ false = ground arith in
    let inside : ltb idx 10 ≡ true = ground arith in
    let self : (idx == idx) ≡ true = ground arith in
    rw passes (
      update gdt idx (descriptor base limit flags),
      refl,
      rw (inside, self) (descriptor-IsDescriptor base limit flags),
      λ i. ground arith,
    )
