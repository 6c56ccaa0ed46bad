-- ===== src/Pic.antt =====
-- kernel/arch/i386/pic-8259/pic.c, the driver of the two interrupt controllers, and
-- kernel/arch/i386/pit/pit.c, the start of the timer. The hardware is an argument: what a port
-- reads, given the bytes sent before, the latest first.
pub mod Masks
pub mod EndOfInterrupt
pub mod Pit
mod Examples
use missy_micro.Common.{
  ℕ, zero, suc, ◌+◌, ◌-◌, ◌*◌, ◌/◌, ◌%◌, ◌^◌, bit_or, bit_and, Bool, ◌||◌, ◌&&◌,
}
use missy_micro.Common.{ltb, leb, ◌==◌, if◌then◌else◌, u32, u16, u8, List, [], ◌∷◌}

abbrev pub pic1_port_command : ℕ
pic1_port_command = 0x20

abbrev pub pic1_port_data : ℕ
pic1_port_data = 0x21

abbrev pub pic2_port_command : ℕ
pic2_port_command = 0xa0

abbrev pub pic2_port_data : ℕ
pic2_port_data = 0xa1

abbrev pub pic_command_eoi : ℕ
pic_command_eoi = 0x20

abbrev pub pic_command_readisr : ℕ
pic_command_readisr = 0x0b

abbrev pub Sent : Type 0
Sent = List (ℕ × ℕ)

-- What a port reads after some bytes were sent.
abbrev pub Hardware : Type 0
Hardware = Sent → ℕ → ℕ

-- The bytes sent, and the static variable.
pub record Pic : Type 0 where
  pub sent : Sent
  pub spurious : ℕ

-- `outportb`
abbrev pub outportb : ℕ → ℕ → Pic → Pic
outportb port x s = record s { sent = (port, x) ∷ s.sent }

-- `i386_pic_initialize`, without the two calls of `cpu_setvector`.
unfoldable pub i386_pic_initialize : Hardware → Pic → ℕ → ℕ → Pic
i386_pic_initialize hw s pic1_off pic2_off =
    let mask_one = hw s.sent pic1_port_data in
    let mask_two = hw s.sent pic2_port_data in
    outportb pic2_port_data mask_two (
      outportb pic1_port_data mask_one (
        outportb pic2_port_data 0x01 (
          outportb pic1_port_data 0x01 (
            outportb pic2_port_data 0x02 (
              outportb pic1_port_data 0x04 (
                outportb pic2_port_data pic2_off (
                  outportb pic1_port_data pic1_off
                    (outportb pic2_port_command 0x11 (outportb pic1_port_command 0x11 s)))))))))

abbrev pub mask_port : ℕ → ℕ
mask_port irq = if ltb irq 8 then pic1_port_data else pic2_port_data

-- A shift count counts modulo 32.
abbrev pub irq_bit : ℕ → ℕ
irq_bit irq = (if ltb irq 8 then irq else irq - 8) % 32

unfoldable pub i386_pic_mask_irq : Hardware → Pic → ℕ → Pic
i386_pic_mask_irq hw s irq =
    let irq_mask = u8 (bit_or (hw s.sent (mask_port irq)) (2 ^ irq_bit irq)) in
    outportb (mask_port irq) irq_mask s

unfoldable pub i386_pic_unmask_irq : Hardware → Pic → ℕ → Pic
i386_pic_unmask_irq hw s irq =
    let irq_mask = u8 (bit_and (hw s.sent (mask_port irq)) (2 ^ 32 - 1 - 2 ^ irq_bit irq)) in
    outportb (mask_port irq) irq_mask s

unfoldable pub i386_pic_enable : Pic → Pic
i386_pic_enable s = outportb pic2_port_data 0x00 (outportb pic1_port_data 0x00 s)

unfoldable pub i386_pic_disable : Pic → Pic
i386_pic_disable s = outportb pic2_port_data 0xff (outportb pic1_port_data 0xff s)

-- The two commands of `i386_pic_get_irqreg`, and what it reads after them.
abbrev pub ask_irqreg : ℕ → Pic → Pic
ask_irqreg ocw3 s = outportb pic2_port_command ocw3 (outportb pic1_port_command ocw3 s)

unfoldable pub i386_pic_get_irqreg : Hardware → Pic → ℕ → ℕ × Pic
i386_pic_get_irqreg hw s ocw3 =
    let asked = ask_irqreg ocw3 s in
    (u16 (bit_or (hw asked.sent pic2_port_data * 2 ^ 8) (hw asked.sent pic1_port_data)), asked)

-- The signal itself.
unfoldable pub eoi : Pic → ℕ → Pic
eoi s irq =
    outportb pic1_port_command pic_command_eoi
      (if leb 8 irq then outportb pic2_port_command pic_command_eoi s else s)

-- What is done where the controllers show no interrupt 7 or 15 in service.
unfoldable pub count_spurious : Pic → ℕ → Pic
count_spurious s irq =
    let told = if irq == 15 then outportb pic1_port_command pic_command_eoi s else s in
    record told { spurious = u32 (told.spurious + 1) }

unfoldable pub i386_pic_send_eoi : Hardware → Pic → ℕ → Pic
i386_pic_send_eoi hw s irq =
    let (irqreg, s') = i386_pic_get_irqreg hw s pic_command_readisr in
    if (irq == 7 || irq == 15) && bit_and irqreg (2 ^ irq) == 0
    then count_spurious s' irq
    else eoi s' irq
