-- ===== src/Cpu/Boot.antt =====
-- `cpu_init` of i386_cpu.c with the controllers and the timer it starts: the two tables
-- and the bytes sent to the ports. What is printed, the interrupt flag and the two registers that
-- tell the processor of the tables are not part of the state.
use missy_micro.Common.{ℕ, ◌^◌, ◌<◌, ◌≡◌, refl, arith}
use missy_micro.Common.{if◌then◌else◌, List, [], ◌∷◌, Option, none, some, ap}
use mathlib.Core.Option
use missy_micro.Cpu.{IdtEntry, set_vectors, cpu_setvector, cpu_init_idt, exception_vectors}
use missy_micro.Cpu.{gdt_code_ring_0, gdt_data_ring_0, i386_gdt_setentry, i386_gdt_getentry}
use missy_micro.Cpu.{descriptor, descriptor_high}
use missy_micro.Cpu.Descriptors.{IsDescriptor, descriptor-IsDescriptor}
use missy_micro.Cpu.Vectors.{IsGate, holds, set_vectors-Gates, cpu_init_idt_lem}
use missy_micro.Pic.{Hardware, Sent, Pic, i386_pic_initialize}
use missy_micro.Pic.Pit.{i386_pit_start, i386_pit_start_lem}

-- `_gdt`, `_idt`, and the ports with `pic_spurious`.
pub record Machine : Type 0 where
  pub gdt : ℕ → ℕ
  pub idt : ℕ → IdtEntry
  pub pic : Pic

-- A call of `i386_gdt_setentry` whose result is not read.
unfoldable pub setentry_unread : (ℕ → ℕ) → ℕ → ℕ → ℕ → ℕ → ℕ → ℕ
setentry_unread gdt idx base limit flags = elim (i386_gdt_setentry gdt idx base limit flags) [
  | none ↦ gdt
  | some gdt' ↦ gdt'
]

-- The byte that the call of `memset` clears is in the entry 0, which is assigned after it.
unfoldable pub i386_gdt_initialize : (ℕ → ℕ) → ℕ → ℕ
i386_gdt_initialize gdt =
    let null = setentry_unread gdt 0 0 0 0 in
    let code = setentry_unread null 1 0x0 0x000fffff gdt_code_ring_0 in
    setentry_unread code 2 0x0 0x000fffff gdt_data_ring_0

-- The call of `i386_pic_initialize`, its two calls of `cpu_setvector` included.
unfoldable pub pic_initialize : Hardware → (ℕ → ℕ) → Machine → Machine
pic_initialize hw handler m = record m {
  idt = set_vectors m.idt handler (0x27 ∷ 0x2f ∷ []);
  pic = i386_pic_initialize hw m.pic 0x20 0x28;
}

unfoldable pub i386_pit_initialize : (ℕ → ℕ) → Machine → Option Machine
i386_pit_initialize handler m =
    Option.map (λ pic'. record m { idt = cpu_setvector m.idt 0x20 (handler 0x20); pic = pic' })
      (i386_pit_start m.pic 100)

-- `handler v` is the address of the handler of vector `v`, and `default` that of the default one.
unfoldable pub cpu_init : Hardware → ℕ → (ℕ → ℕ) → Machine → Option Machine
cpu_init hw default handler m =
    let m' = record m {
      gdt = i386_gdt_initialize m.gdt;
      idt = cpu_init_idt m.idt default handler;
    } in
    i386_pit_initialize handler (pic_initialize hw handler m')

-- The vectors with a handler of their own after `cpu_init`.
abbrev pub boot_vectors : List ℕ
boot_vectors = 0x20 ∷ 0x27 ∷ 0x2f ∷ exception_vectors

-- The bytes that `cpu_init` sends, the latest first, where the two masks were `one` and `two`.
abbrev pub boot_bytes : ℕ → ℕ → Sent → Sent
boot_bytes one two sent =
    (0x40, 46)
    ∷ (0x40, 0)
    ∷ (0x43, 0x36)
    ∷ (0xa1, two)
    ∷ (0x21, one)
    ∷ (0xa1, 1)
    ∷ (0x21, 1)
    ∷ (0xa1, 2)
    ∷ (0x21, 4)
    ∷ (0xa1, 0x28)
    ∷ (0x21, 0x20)
    ∷ (0xa0, 0x11)
    ∷ (0x20, 0x11)
    ∷ sent

-- For handlers at 32-bit addresses, `cpu_init` does not trap, and after it the first entry of
-- the descriptor table is 0, the next two describe the segments of the kernel for code and for
-- data; each of the first 255 entries of the interrupt table is a present 32-bit gate of the
-- code segment, to its handler for an exception, the timer and the two spurious interrupts, and
-- to the default handler for the others; and the bytes sent to the ports, in order, set the
-- controllers up with the vectors 0x20 and 0x28, give them their masks back, and start the
-- timer with 46 as the high byte of its reload value and 0 as the low one.
pub cpu_init_lem :
    (hw : Hardware) (default : ℕ) (handler : ℕ → ℕ) (m : Machine)
    → default < 2 ^ 32
    → ((v : ℕ) → handler v < 2 ^ 32)
    → (m' : Machine) × (cpu_init hw default handler m ≡ some m')
      × (m'.gdt 0 ≡ 0)
      × IsDescriptor (i386_gdt_getentry m'.gdt 1) 0 0xfffff gdt_code_ring_0
      × IsDescriptor (i386_gdt_getentry m'.gdt 2) 0 0xfffff gdt_data_ring_0
      × ((v : ℕ)
          → v < 255
          → IsGate (m'.idt v) (if holds boot_vectors v then handler v else default))
      × (m'.pic.sent ≡ boot_bytes (hw m.pic.sent 0x21) (hw m.pic.sent 0xa1) m.pic.sent)
unfolding cpu_init i386_pit_initialize pic_initialize set_vectors i386_pic_initialize
    i386_gdt_initialize setentry_unread i386_gdt_setentry i386_gdt_getentry descriptor
    descriptor_high
cpu_init_lem hw default handler m fits handlers =
    let pic' = i386_pic_initialize hw m.pic 0x20 0x28 in
    let m' : Machine = record {
      gdt = i386_gdt_initialize m.gdt;
      idt = set_vectors (cpu_init_idt m.idt default handler) handler (0x27 ∷ 0x2f ∷ 0x20 ∷ []);
      pic = record pic' { sent = (0x40, 46) ∷ (0x40, 0) ∷ (0x43, 0x36) ∷ pic'.sent };
    } in
    let started = i386_pit_start_lem pic' 100 (omega arith) in
    (
      m',
      rw started refl,
      refl,
      descriptor-IsDescriptor 0 0xfffff gdt_code_ring_0,
      descriptor-IsDescriptor 0 0xfffff gdt_data_ring_0,
      gates,
      refl,
    )
  where
    now : ℕ → ℕ
    now v = if holds exception_vectors v then handler v else default

    chosen :
        (v : ℕ)
        → (if holds boot_vectors v then handler v else default)
          ≡ (if holds (0x27 ∷ 0x2f ∷ 0x20 ∷ []) v then handler v else now v)
    chosen v = ground (arith, ap handler)

    gates :
        (v : ℕ)
        → v < 255
        → IsGate
            (set_vectors (cpu_init_idt m.idt default handler) handler (0x27 ∷ 0x2f ∷ 0x20 ∷ []) v)
            (if holds boot_vectors v then handler v else default)
    gates v lt =
        let last =
          set_vectors-Gates (cpu_init_idt m.idt default handler) now handler
            (0x27 ∷ 0x2f ∷ 0x20 ∷ []) (ground arith) handlers
            (λ w below. cpu_init_idt_lem m.idt default handler w fits handlers below) v lt in
        rw (chosen v) last
