-- ===== src/Pic/Masks.antt =====
-- The masks of the interrupt controllers that pic.c sets.
use missy_micro.Common.{ℕ, ◌-◌, ◌^◌, ◌<◌, ◌≡◌, ◌≢◌, ◌⊎◌, inl, inr, refl, arith}
use missy_micro.Common.{sym, ◌∙◌, ==_iff, false, ltb, ◌==◌, if◌then◌else◌, u8, bit_or, bit_and}
use missy_micro.Common.{◌∷◌, Bool-cases}
use missy_micro.Bits.{bit, bit-lt_two, bit-bit_or, bit-bit_and, bit-two_pow_self, bit-two_pow_ne}
use missy_micro.Bits.{bit_or-lt, bit_and-lt, not_bit, bit-not_bit_self, bit-not_bit_ne}
use missy_micro.Bits.{two_pow-lt}
use missy_micro.Pic.{Hardware, Sent, Pic, mask_port, irq_bit, i386_pic_mask_irq}
use missy_micro.Pic.{i386_pic_unmask_irq}

-- A data port of an initialised controller: the last byte sent to it is the mask, and reading it
-- gives the mask; bytes sent to other ports do not change it.
pub record IsMaskRegister (hw : Hardware) (port : ℕ) : Type 0 where
  pub byte : (s : Sent) → hw s port < 256
  pub written : (s : Sent) (x : ℕ) → x < 256 → hw ((port, x) ∷ s) port ≡ x
  pub kept : (s : Sent) (q x : ℕ) → q ≢ port → hw ((q, x) ∷ s) port ≡ hw s port

-- Where the masks of both controllers are read.
pub record IsController (hw : Hardware) : Type 0 where
  pub first : IsMaskRegister hw 0x21
  pub second : IsMaskRegister hw 0xa1

-- The two data ports.
abbrev pub IsDataPort : ℕ → Type 0
IsDataPort p = (p ≡ 0x21) ⊎ (p ≡ 0xa1)

pub data_port : (hw : Hardware) (p : ℕ) → IsController hw → IsDataPort p → IsMaskRegister hw p
data_port hw p c (inl e) = rw e c.first
data_port hw p c (inr e) = rw e c.second

pub mask_port-IsDataPort : (irq : ℕ) → IsDataPort (mask_port irq)
mask_port-IsDataPort irq = elim (Bool-cases (ltb irq 8)) [
  | inl low ↦ inl (rw low refl)
  | inr high ↦ inr (rw high refl)
]

-- The mask that shows interrupt `i` is the digit of its controller's register.
abbrev pub masked : Hardware → Pic → ℕ → ℕ
masked hw s i = bit (hw s.sent (mask_port i)) (irq_bit i)

or_bit :
    (v k j : ℕ) → v < 256 → k < 8 → bit (u8 (bit_or v (2 ^ k))) j ≡ (if j == k then 1 else bit v j)
or_bit v k j h lt =
    let small : u8 (bit_or v (2 ^ k)) ≡ bit_or v (2 ^ k) =
      omega (arith, bit_or-lt 8 v (2 ^ k) h (two_pow-lt k 8 lt)) in
    rw small (
      ground
        (arith, bit-bit_or v (2 ^ k) j, bit-two_pow_self k, bit-two_pow_ne k j, bit-lt_two v j))

and_bit :
    (v k j : ℕ)
    → v < 256
    → k < 8
    → j < 8
    → bit (u8 (bit_and v (2 ^ 32 - 1 - 2 ^ k))) j ≡ (if j == k then 0 else bit v j)
unfolding not_bit
and_bit v k j h lt lt' =
    let small : u8 (bit_and v (2 ^ 32 - 1 - 2 ^ k)) ≡ bit_and v (2 ^ 32 - 1 - 2 ^ k) =
      omega (arith, bit_and-lt 8 v (2 ^ 32 - 1 - 2 ^ k) h) in
    rw small (
      ground (
        arith,
        bit-bit_and v (not_bit 32 k) j,
        bit-not_bit_self 32 k,
        bit-not_bit_ne 32 k j,
        bit-lt_two v j,
      ))

-- A new mask that differs from the old one in one digit, sent to the port of that interrupt.
sent_mask :
    (hw : Hardware) (s : Pic) (irq i x d : ℕ)
    → IsController hw
    → irq < 16
    → i < 16
    → x < 256
    → bit x (irq_bit i)
      ≡ (if irq_bit i == irq_bit irq then d else bit (hw s.sent (mask_port irq)) (irq_bit i))
    → masked hw (record s { sent = (mask_port irq, x) ∷ s.sent }) i
      ≡ (if i == irq then d else masked hw s i)
sent_mask hw s irq i x d c lt lt' byte digit =
    let q = data_port hw (mask_port i) c (mask_port-IsDataPort i) in
    elim (Bool-cases (mask_port i == mask_port irq)) [
      | inl same ↦
          let port : mask_port irq ≡ mask_port i = sym ((==_iff _ _).0 same) in
          rw (port, q.written s.sent x byte) (digit ∙ rw port (ground arith))
      | inr other ↦
          let ne : mask_port irq ≢ mask_port i = λ e. ground arith in
          let not_irq : (i == irq) ≡ false = ground arith in
          rw (not_irq, q.kept s.sent (mask_port irq) x ne) refl
    ]

-- With controllers whose data ports hold their masks, `i386_pic_mask_irq` masks the one
-- interrupt of the sixteen, and leaves the masks of the others.
pub mask_irq_lem :
    (hw : Hardware) (s : Pic) (irq i : ℕ)
    → IsController hw
    → irq < 16
    → i < 16
    → masked hw (i386_pic_mask_irq hw s irq) i ≡ (if i == irq then 1 else masked hw s i)
unfolding i386_pic_mask_irq
mask_irq_lem hw s irq i c lt lt' =
    let v = hw s.sent (mask_port irq) in
    let r = data_port hw (mask_port irq) c (mask_port-IsDataPort irq) in
    sent_mask hw s irq i (u8 (bit_or v (2 ^ irq_bit irq))) 1 c lt lt' (omega arith)
      (or_bit v (irq_bit irq) (irq_bit i) (r.byte s.sent) (ground arith))

-- With controllers whose data ports hold their masks, `i386_pic_unmask_irq` takes the mask off
-- the one interrupt of the sixteen, and leaves the masks of the others.
pub unmask_irq_lem :
    (hw : Hardware) (s : Pic) (irq i : ℕ)
    → IsController hw
    → irq < 16
    → i < 16
    → masked hw (i386_pic_unmask_irq hw s irq) i ≡ (if i == irq then 0 else masked hw s i)
unfolding i386_pic_unmask_irq
unmask_irq_lem hw s irq i c lt lt' =
    let v = hw s.sent (mask_port irq) in
    let r = data_port hw (mask_port irq) c (mask_port-IsDataPort irq) in
    sent_mask hw s irq i (u8 (bit_and v (2 ^ 32 - 1 - 2 ^ irq_bit irq))) 0 c lt lt' (omega arith)
      (and_bit v (irq_bit irq) (irq_bit i) (r.byte s.sent) (ground arith) (ground arith))
