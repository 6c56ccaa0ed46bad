-- ===== src/Cpu/Examples.antt =====
-- The results about i386_cpu.c for a table that holds nothing of use.
use missy_micro.Common.{ℕ, ◌+◌, ◌*◌, ◌%◌, ◌<◌, ◌≡◌, [], arith, if◌then◌else◌}
use missy_micro.Cpu.{IdtEntry}
use missy_micro.Common.{some, ◌==◌}
use missy_micro.Cpu.{i386_gdt_setentry, i386_gdt_getentry, gdt_code_ring_0, gdt_data_ring_0}
use missy_micro.Cpu.Descriptors.{IsDescriptor, getentry-setentry}
use missy_micro.Cpu.Vectors.{IsGate, holds}
use missy_micro.Cpu.Boot.{Machine, cpu_init, cpu_init_lem, boot_vectors, boot_bytes}

abbrev junk : ℕ → IdtEntry
junk v = record { offset_lo = 1; code_selector = 2; zero_byte = 3; type_attrib = 4; offset_hi = 5 }

abbrev machine : Machine
machine = record { gdt = λ i. 7; idt = junk; pic = record { sent = []; spurious = 0 } }

abbrev handlers : ℕ → ℕ
handlers v = 0xc0200000 + 16 * (v % 256)

-- The masks read as all masked.
cpu_init_example :
    (m' : Machine) × (cpu_init (λ s p. 0xff) 0xc0101234 handlers machine ≡ some m')
    × (m'.gdt 0 ≡ 0)
    × IsDescriptor (i386_gdt_getentry m'.gdt 1) 0 0xfffff gdt_code_ring_0
    × IsDescriptor (i386_gdt_getentry m'.gdt 2) 0 0xfffff gdt_data_ring_0
    × ((v : ℕ)
        → v < 255
        → IsGate (m'.idt v) (if holds boot_vectors v then handlers v else 0xc0101234))
    × (m'.pic.sent ≡ boot_bytes 0xff 0xff [])
cpu_init_example =
    cpu_init_lem (λ s p. 0xff) 0xc0101234 handlers machine (omega arith) (λ v. omega arith)

setentry_example :
    (gdt' : ℕ → ℕ) × (i386_gdt_setentry (λ i. 0) 1 0x12345678 0xfffff gdt_code_ring_0 ≡ some gdt')
    × IsDescriptor (i386_gdt_getentry gdt' 1) 0x12345678 0xfffff gdt_code_ring_0
    × ((i : ℕ)
        → i386_gdt_getentry gdt' i
          ≡ (if i == 1 then i386_gdt_getentry gdt' 1 else i386_gdt_getentry (λ i. 0) i))
setentry_example = getentry-setentry (λ i. 0) 1 0x12345678 0xfffff gdt_code_ring_0 (omega arith)
