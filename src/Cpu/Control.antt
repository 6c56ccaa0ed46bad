-- ===== src/Cpu/Control.antt =====
-- The functions of i386_cpu.c that pass on to the interrupt controller, and the table that `cpu_reset`
-- leaves for the interrupt it raises.
use missy_micro.Common.{ℕ, ◌<◌, arith, u8, ◌==◌, if◌then◌else◌}
use missy_micro.Pic.{Hardware, Pic, i386_pic_mask_irq, i386_pic_unmask_irq}
use missy_micro.Cpu.{IdtEntry, cpu_setvector}
use missy_micro.Cpu.Vectors.{IsGate, setvector-Gates}

unfoldable cpu_enable_irq : Hardware → Pic → ℕ → Pic
cpu_enable_irq hw s irq = i386_pic_unmask_irq hw s (u8 irq)

unfoldable cpu_disable_irq : Hardware → Pic → ℕ → Pic
cpu_disable_irq hw s irq = i386_pic_mask_irq hw s (u8 irq)

unfoldable cpu_reset : (ℕ → IdtEntry) → ℕ → IdtEntry
cpu_reset idt = cpu_setvector idt 0x80 0

-- The gate of the interrupt is not an invalid one: it is present, and leads to the address 0.
cpu_reset_lem :
    (idt : ℕ → IdtEntry) (now : ℕ → ℕ)
    → ((v : ℕ) → v < 255 → IsGate (idt v) (now v))
    → (v : ℕ) → v < 255
    → IsGate (cpu_reset idt v) (if v == 0x80 then 0 else now v)
unfolding cpu_reset
cpu_reset_lem idt now gates = setvector-Gates idt now 0x80 0 (omega arith) (omega arith) gates
