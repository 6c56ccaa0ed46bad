-- ===== src/Cpu/Vectors.antt =====
-- The interrupt table of i386_cpu.c.
use missy_micro.Common.{ℕ, zero, suc, ◌+◌, ◌*◌, ◌^◌, ◌≤◌, ◌<◌, ◌≡◌, ◌≢◌, refl, ap, arith}
use missy_micro.Common.{◌==◌, if◌then◌else◌, u8, ◌||◌, List, [], ◌∷◌, Bool, true, false}
use missy_micro.Common.{Bool-cases, inl, inr}
use missy_micro.Bits.Masks.{bit_and-ones}
use missy_micro.Cpu.{IdtEntry, i386_idt_setvector, default_vectors, i386_idt_initialize}
use missy_micro.Cpu.{cpu_setvector}
use missy_micro.Cpu.{set_vectors, cpu_init_idt, exception_vectors}

-- The address that the processor calls for an entry.
abbrev pub offset : IdtEntry → ℕ
offset e = e.offset_hi * 2 ^ 16 + e.offset_lo

-- An entry is a present 32-bit interrupt gate of the kernel's code segment.
abbrev pub IsGate : IdtEntry → ℕ → Type 0
IsGate e addr =
    (offset e ≡ addr) × (e.code_selector ≡ 0x08) × (e.zero_byte ≡ 0) × (e.type_attrib ≡ 0x8e)

setvector-IsGate :
    (idt : ℕ → IdtEntry) (v addr : ℕ)
    → addr < 2 ^ 32
    → IsGate (i386_idt_setvector idt v addr 0x08 0x8e v) addr
unfolding i386_idt_setvector
setvector-IsGate idt v addr fits =
    let self : (v == v) ≡ true = ground arith in
    rw (self, bit_and-ones 16 addr) (omega arith, refl, refl, refl)

setvector_ne :
    (idt : ℕ → IdtEntry) (v w addr : ℕ) → w ≢ v → i386_idt_setvector idt v addr 0x08 0x8e w ≡ idt w
unfolding i386_idt_setvector
setvector_ne idt v w addr ne = let other : (w == v) ≡ false = ground arith in rw other refl

-- Does the list hold the vector?
abbrev pub holds : List ℕ → ℕ → Bool
holds [] v = false
holds (w ∷ ws) v = w == v || holds ws v

-- The addresses in a table: those of `now`, on the vectors below `n`.
abbrev pub Gates : (ℕ → IdtEntry) → (ℕ → ℕ) → ℕ → Type 0
Gates idt now n = (v : ℕ) → v < n → IsGate (idt v) (now v)

default_vectors-Gates :
    (idt : ℕ → IdtEntry) (default i left : ℕ)
    → default < 2 ^ 32
    → i + left ≤ 255
    → Gates idt (λ v. default) i
    → Gates (default_vectors idt default i left) (λ v. default) (i + left)
unfolding default_vectors
default_vectors-Gates idt default i zero fits h g v lt = g v (omega arith)
default_vectors-Gates idt default i (suc left) fits h g v lt =
    default_vectors-Gates (i386_idt_setvector idt (u8 i) default 0x08 0x8e) default (i + 1) left
      fits (omega arith) (λ w below. next w below) v (omega arith)
  where
    next : (w : ℕ) → w < i + 1 → IsGate (i386_idt_setvector idt (u8 i) default 0x08 0x8e w) default
    next w below =
        let word : u8 i ≡ i = omega arith in
        rw word (elim (Bool-cases (w == i)) [
          | inl same ↦ let e : w ≡ i = ground arith in rw e (setvector-IsGate idt i default fits)
          | inr other ↦ rw (setvector_ne idt i w default (ground arith)) (g w (ground arith))
        ])

pub setvector-Gates :
    (idt : ℕ → IdtEntry) (now : ℕ → ℕ) (w addr : ℕ)
    → w < 256
    → addr < 2 ^ 32
    → Gates idt now 255
    → Gates (cpu_setvector idt w addr) (λ v. if v == w then addr else now v) 255
unfolding cpu_setvector
setvector-Gates idt now w addr byte fits g v lt =
    let word : u8 w ≡ w = omega arith in
    rw word (elim (Bool-cases (v == w)) [
      | inl same ↦ let e : v ≡ w = ground arith in rw same (rw e (setvector-IsGate idt w addr fits))
      | inr other ↦ rw (other, setvector_ne idt w v addr (ground arith)) (g v lt)
    ])

abbrev AllBytes : List ℕ → Type 0
AllBytes [] = Unit
AllBytes (w ∷ ws) = (w < 256) × AllBytes ws

pub set_vectors-Gates :
    (idt : ℕ → IdtEntry) (now handler : ℕ → ℕ) (ws : List ℕ)
    → AllBytes ws
    → ((v : ℕ) → handler v < 2 ^ 32)
    → Gates idt now 255
    → Gates (set_vectors idt handler ws) (λ v. if holds ws v then handler v else now v) 255
unfolding set_vectors
set_vectors-Gates idt now handler [] bytes fits g v lt = g v lt
set_vectors-Gates idt now handler (w ∷ ws) bytes fits g v lt =
    let last =
      set_vectors-Gates (cpu_setvector idt w (handler w)) (λ v. if v == w then handler w else now v)
        handler ws bytes.1 fits (setvector-Gates idt now w (handler w) bytes.0 (fits w) g) v lt in
    rw (chosen v) last
  where
    chosen :
        (v : ℕ)
        → (if w == v || holds ws v then handler v else now v)
          ≡ (if holds ws v then handler v else if v == w then handler w else now v)
    chosen v = ground (arith, ap handler)

-- For handlers at 32-bit addresses, after cpu_init has set the vectors of the exceptions, each
-- of the first 255 entries of the interrupt table is a present 32-bit gate of the code segment
-- of the kernel: to its handler for an exception, and to the default handler for the others.
pub cpu_init_idt_lem :
    (idt : ℕ → IdtEntry) (default : ℕ) (handler : ℕ → ℕ) (v : ℕ)
    → default < 2 ^ 32
    → ((w : ℕ) → handler w < 2 ^ 32)
    → v < 255
    → IsGate
        (cpu_init_idt idt default handler v)
        (if holds exception_vectors v then handler v else default)
unfolding cpu_init_idt i386_idt_initialize
cpu_init_idt_lem idt default handler v fits handlers lt =
    set_vectors-Gates (default_vectors idt default 0 255) (λ v. default) handler exception_vectors
      bytes handlers
      (λ w below.
        default_vectors-Gates idt default 0 255 fits (omega arith) (λ u h. absurd (omega arith)) w
          (omega arith))
      v lt
  where
    bytes : AllBytes exception_vectors
    bytes = ground arith
