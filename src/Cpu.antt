-- ===== src/Cpu.antt =====
-- kernel/arch/i386/cpu/i386_cpu.c: the descriptor and interrupt tables. The addresses of the
-- handlers, which the linker gives, are arguments. Loading the tables into the processor is
-- inline assembly.
pub mod Vectors
pub mod Descriptors
pub mod Boot
mod Control
mod Examples
use missy_micro.Common.{
  ℕ, zero, suc, ◌+◌, ◌-◌, ◌*◌, ◌/◌, ◌%◌, ◌^◌, bit_or, bit_and, Bool, Option, none, some,
}
use missy_micro.Common.{ltb, leb, ◌==◌, if◌then◌else◌, update, u32, u16, u8, List, [], ◌∷◌}

abbrev pub gdt_max_descriptors : ℕ
gdt_max_descriptors = 10

abbrev pub i386_max_interrupts : ℕ
i386_max_interrupts = 255

-- `GDT_CODE_RING_0` and its three kin: present, 32 bits, in pages.
abbrev pub gdt_code_ring_0 : ℕ
gdt_code_ring_0 = 0xc09a

abbrev pub gdt_data_ring_0 : ℕ
gdt_data_ring_0 = 0xc092

-- `I386_IDT_INTERRUPTGATE_32 | I386_IDT_PRESENT | I386_IDT_RING0`
abbrev pub interrupt_gate : ℕ
interrupt_gate = 0x8e

-- `struct idtentry`
pub record IdtEntry : Type 0 where
  pub offset_lo : ℕ
  pub code_selector : ℕ
  pub zero_byte : ℕ
  pub type_attrib : ℕ
  pub offset_hi : ℕ

-- `_idt[idx]` for each `idx`, those past the array being the memory after it. Every field is
-- assigned after the call of `memset`.
unfoldable pub i386_idt_setvector : (ℕ → IdtEntry) → ℕ → ℕ → ℕ → ℕ → ℕ → IdtEntry
i386_idt_setvector idt idx addr codesel attr = update idt idx (record {
  offset_lo = u16 (bit_and addr 0x0000ffff);
  code_selector = codesel;
  zero_byte = 0;
  type_attrib = attr;
  offset_hi = u16 (addr / 2 ^ 16);
})

-- The loop of `i386_idt_initialize`, with `left` rounds to go from `i` on.
unfoldable pub default_vectors : (ℕ → IdtEntry) → ℕ → ℕ → ℕ → ℕ → IdtEntry
default_vectors idt default i zero = idt
default_vectors idt default i (suc left) =
    default_vectors (i386_idt_setvector idt (u8 i) default 0x08 interrupt_gate) default (i + 1) left

unfoldable pub i386_idt_initialize : (ℕ → IdtEntry) → ℕ → ℕ → IdtEntry
i386_idt_initialize idt default = default_vectors idt default 0 i386_max_interrupts

unfoldable pub cpu_setvector : (ℕ → IdtEntry) → ℕ → ℕ → ℕ → IdtEntry
cpu_setvector idt vector addr = i386_idt_setvector idt (u8 vector) addr 0x08 interrupt_gate

-- The vectors of the exceptions that `cpu_init` sets, in its order.
abbrev pub exception_vectors : List ℕ
exception_vectors =
    0x00 ∷ 0x01 ∷ 0x02 ∷ 0x03 ∷ 0x04 ∷ 0x05 ∷ 0x06 ∷ 0x07 ∷ 0x08 ∷ 0x0a ∷ 0x0b ∷ 0x0c ∷ 0x0d ∷ 0x0e
    ∷ 0x10 ∷ 0x11 ∷ 0x12 ∷ 0x13 ∷ 0x14 ∷ 0x1e ∷ []

-- `handler v` is the address of the handler of vector `v`.
unfoldable pub set_vectors : (ℕ → IdtEntry) → (ℕ → ℕ) → List ℕ → ℕ → IdtEntry
set_vectors idt handler [] = idt
set_vectors idt handler (v ∷ vs) = set_vectors (cpu_setvector idt v (handler v)) handler vs

-- The interrupt table that `cpu_init` leaves, before the devices set theirs.
unfoldable pub cpu_init_idt : (ℕ → IdtEntry) → ℕ → (ℕ → ℕ) → ℕ → IdtEntry
cpu_init_idt idt default handler =
    set_vectors (i386_idt_initialize idt default) handler exception_vectors

-- The high half of a descriptor, as it is before the shift.
unfoldable pub descriptor_high : ℕ → ℕ → ℕ → ℕ
descriptor_high base limit flags =
    bit_or
      (bit_or (bit_or (bit_and limit 0x000f0000) (bit_and (flags * 2 ^ 8) 0x00f0ff00))
        (bit_and (base / 2 ^ 16) 0x000000ff))
      (bit_and base 0xff000000)

unfoldable pub descriptor : ℕ → ℕ → ℕ → ℕ
descriptor base limit flags =
    bit_or (bit_or (descriptor_high base limit flags * 2 ^ 32 % 2 ^ 64) (u32 (base * 2 ^ 16)))
      (bit_and limit 0x0000ffff)

-- `none` is the result -1. An index of 10 passes the test.
unfoldable pub i386_gdt_setentry : (ℕ → ℕ) → ℕ → ℕ → ℕ → ℕ → Option (ℕ → ℕ)
i386_gdt_setentry gdt idx base limit flags =
    if ltb gdt_max_descriptors idx
    then none
    else some (update gdt idx (descriptor base limit flags))

unfoldable pub i386_gdt_getentry : (ℕ → ℕ) → ℕ → ℕ
i386_gdt_getentry gdt idx = if ltb idx gdt_max_descriptors then gdt idx else 0
