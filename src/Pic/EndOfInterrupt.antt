-- ===== src/Pic/EndOfInterrupt.antt =====
-- `i386_pic_send_eoi` of pic.c, and the register that it looks at.
use missy_micro.Common.{ℕ, ◌+◌, ◌*◌, ◌^◌, ◌<◌, ◌≡◌, ◌≢◌, refl, arith}
use missy_micro.Common.{leb, ◌==◌, if◌then◌else◌, u32, u16, bit_or, bit_and, ◌∷◌}
use missy_micro.Common.{true}
use missy_micro.Bits.{bit, bit_and-two_pow-eq_zero}
use missy_micro.Pic.{Hardware, Pic, i386_pic_get_irqreg, i386_pic_send_eoi, eoi}
use missy_micro.Pic.{count_spurious}
use missy_micro.Bits.Masks.{bit_or_low}
use missy_micro.Pic.Masks.{IsController, masked}

-- An interrupt other than 7 and 15 is acknowledged after the two commands that read a register,
-- one of the second controller to it and then to the first, one of the first to that only, and
-- none is counted as spurious.
pub send_eoi_lem :
    (hw : Hardware) (s : Pic) (irq : ℕ)
    → irq ≢ 7
    → irq ≢ 15
    → i386_pic_send_eoi hw s irq ≡ record s {
      sent =
          (0x20, 0x20)
          ∷ (if leb 8 irq
              then (0xa0, 0x20) ∷ (0xa0, 0x0b) ∷ (0x20, 0x0b) ∷ s.sent
              else (0xa0, 0x0b) ∷ (0x20, 0x0b) ∷ s.sent);
    }
unfolding i386_pic_send_eoi i386_pic_get_irqreg eoi
send_eoi_lem hw s irq a b = ground arith

-- What `i386_pic_get_irqreg` reads are the two mask registers, whatever register it asks for: it
-- reads the data ports.
pub get_irqreg_masks :
    (hw : Hardware) (s : Pic) (ocw3 : ℕ)
    → IsController hw
    → (i386_pic_get_irqreg hw s ocw3).0 ≡ u16 (bit_or (hw s.sent 0xa1 * 2 ^ 8) (hw s.sent 0x21))
unfolding i386_pic_get_irqreg
get_irqreg_masks hw s ocw3 c =
    rw
      (
        c.second.kept ((0x20, ocw3) ∷ s.sent) 0xa0 ocw3 (omega arith),
        c.second.kept s.sent 0x20 ocw3 (omega arith),
        c.first.kept ((0x20, ocw3) ∷ s.sent) 0xa0 ocw3 (omega arith),
        c.first.kept s.sent 0x20 ocw3 (omega arith),
      )
      refl

irqreg_seven : (a b : ℕ) → a < 256 → b < 256 → bit b 7 ≡ 0 → bit (u16 (bit_or (a * 2 ^ 8) b)) 7 ≡ 0
unfolding bit
irqreg_seven a b ha hb e =
    let order : a * 2 ^ 8 ≡ 2 ^ 8 * a = omega arith in rw (order, bit_or_low 8 a b hb) (omega arith)

-- With controllers whose data ports hold their masks, an interrupt 7 that is not masked is
-- always counted as spurious, and no end of interrupt is sent.
pub send_eoi_lost :
    (hw : Hardware) (s : Pic)
    → IsController hw
    → masked hw s 7 ≡ 0
    → i386_pic_send_eoi hw s 7
      ≡ record { sent = (0xa0, 0x0b) ∷ (0x20, 0x0b) ∷ s.sent; spurious = u32 (s.spurious + 1) }
unfolding i386_pic_send_eoi count_spurious
send_eoi_lost hw s c open_line =
    let reg = (i386_pic_get_irqreg hw s 0x0b).0 in
    let clear : bit reg 7 ≡ 0 = rw (get_irqreg_masks hw s 0x0b c) (
      irqreg_seven (hw s.sent 0xa1) (hw s.sent 0x21) (c.second.byte s.sent) (c.first.byte s.sent)
        open_line) in
    let test : (bit_and reg (2 ^ 7) == 0) ≡ true =
      ground (arith, bit_and-two_pow-eq_zero reg 7 clear) in
    rw test (unfold i386_pic_get_irqreg in refl)
