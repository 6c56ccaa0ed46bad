-- ===== src/Pic/Examples.antt =====
-- The results about pic.c and pit.c with controllers that do nothing but keep their masks.
use missy_micro.Common.{ℕ, ◌+◌, ◌<◌, ◌%◌, ◌≡◌, refl, arith, [], ◌∷◌, ◌==◌, if◌then◌else◌}
use missy_micro.Common.{u32}
use missy_micro.Bits.{bit}
use missy_micro.Pic.{Hardware, Sent, Pic, i386_pic_mask_irq}
use missy_micro.Pic.{i386_pic_send_eoi}
use missy_micro.Pic.Masks.{IsMaskRegister, IsController, masked, mask_irq_lem}
use missy_micro.Pic.EndOfInterrupt.{send_eoi_lost}

-- The last byte sent to a port, and 0 before any.
abbrev latched : Hardware
latched [] p = 0
latched ((q, x) ∷ s) p = let before = latched s p in if q == p then x % 256 else before

latched-byte : (s : Sent) (p : ℕ) → latched s p < 256
latched-byte [] p = omega arith
latched-byte ((q, x) ∷ s) p = ground (arith, latched-byte s p)

latched-IsMaskRegister : (p : ℕ) → IsMaskRegister latched p
latched-IsMaskRegister p = record {
  byte = λ s. latched-byte s p;
  written = λ s x h. ground arith;
  kept = λ s q x h. ground arith;
}

latched-IsController : IsController latched
latched-IsController = record {
  first = latched-IsMaskRegister 0x21;
  second = latched-IsMaskRegister 0xa1;
}

abbrev quiet : Pic
quiet = record { sent = []; spurious = 0 }

mask_example :
    masked latched (i386_pic_mask_irq latched quiet 9) 3
    ≡ (if 3 == 9 then 1 else masked latched quiet 3)
mask_example = mask_irq_lem latched quiet 9 3 latched-IsController (omega arith) (omega arith)

not_masked : masked latched quiet 7 ≡ 0
unfolding bit
not_masked = refl

lost_eoi_example :
    i386_pic_send_eoi latched quiet 7
    ≡ record { sent = (0xa0, 0x0b) ∷ (0x20, 0x0b) ∷ []; spurious = u32 (0 + 1) }
lost_eoi_example = send_eoi_lost latched quiet latched-IsController not_masked
