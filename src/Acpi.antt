-- ===== src/Acpi.antt =====
-- kernel/kernel/etc/acpi.c: the search for the root descriptor, and its checksum. `sig` is the address
-- of the literal "RSD PTR ". The tables of acpi.h but the root descriptor are not read by any code.
pub mod Search
mod Examples
use missy_micro.Common.{
  ℕ, zero, suc, ◌+◌, ◌*◌, ◌%◌, ◌^◌, Option, none, some, ◌==◌, if◌then◌else◌, u32, u8,
}
use missy_micro.Common.{List, [], ◌∷◌}
use missy_micro.Libc.{strlen, strncmp}
use missy_micro.Multiboot.Structs.{load, load16, load32}
use missy_micro.Terminal.{Terminal, terminal_puts}

abbrev pub edba_segment_loc : ℕ
edba_segment_loc = 0x40e

-- `EDBA_MAX_SEEK` by `ACPI_ALIGN`: the rounds of the first loop.
abbrev pub edba_rounds : ℕ
edba_rounds = 64

abbrev pub edba_base_addr : ℕ
edba_base_addr = 0xa0000

-- The rounds of the second loop, in steps of 16 below 0xfffff - 0xa0000.
abbrev pub upper_rounds : ℕ
upper_rounds = 24576

-- The root descriptor, of 20 bytes.
pub record RsdpDescriptor : Type 0 where
  pub signature : ℕ
  pub checksum : ℕ
  pub oem_id : ℕ
  pub revision : ℕ
  pub rsdt_addr : ℕ

abbrev pub rsdp_descriptor : (ℕ → ℕ) → ℕ → RsdpDescriptor
rsdp_descriptor m p = record {
  signature = load m 8 p;
  checksum = m (p + 8);
  oem_id = load m 6 (p + 9);
  revision = m (p + 15);
  rsdt_addr = load32 m (p + 16);
}

-- `strlen(ACPI_SIGNATURE_RSDP)`, which the compiler computes from the literal: the kernel is built with
-- -fbuiltin.
abbrev signature_length : ℕ
signature_length = 8

-- One of the loops, with `left` rounds to go; `none` is that nothing was found.
unfoldable pub scan_rsdp : (ℕ → ℕ) → ℕ → ℕ → ℕ → Option ℕ
scan_rsdp m sig p zero = none
scan_rsdp m sig p (suc left) =
    let rest = scan_rsdp m sig (p + 16) left in
    if strncmp m sig p signature_length == 0 then some p else rest

-- "Found ACPI table in the EDBA"
abbrev pub found_in_edba : List ℕ
found_in_edba =
    70 ∷ 111 ∷ 117 ∷ 110 ∷ 100 ∷ 32 ∷ 65 ∷ 67 ∷ 80 ∷ 73 ∷ 32 ∷ 116 ∷ 97 ∷ 98 ∷ 108 ∷ 101 ∷ 32 ∷ 105
    ∷ 110 ∷ 32 ∷ 116 ∷ 104 ∷ 101 ∷ 32 ∷ 69 ∷ 68 ∷ 66 ∷ 65 ∷ []

-- "Found ACPI table in the upper EDBA range"
abbrev pub found_in_upper : List ℕ
found_in_upper =
    70 ∷ 111 ∷ 117 ∷ 110 ∷ 100 ∷ 32 ∷ 65 ∷ 67 ∷ 80 ∷ 73 ∷ 32 ∷ 116 ∷ 97 ∷ 98 ∷ 108 ∷ 101 ∷ 32 ∷ 105
    ∷ 110 ∷ 32 ∷ 116 ∷ 104 ∷ 101 ∷ 32 ∷ 117 ∷ 112 ∷ 112 ∷ 101 ∷ 114 ∷ 32 ∷ 69 ∷ 68 ∷ 66 ∷ 65 ∷ 32
    ∷ 114 ∷ 97 ∷ 110 ∷ 103 ∷ 101 ∷ []

-- The pointer to the descriptor, or 0.
unfoldable pub acpi_locate_rsdp : (ℕ → ℕ) → ℕ → Terminal → ℕ × Terminal
acpi_locate_rsdp m sig t = elim (scan_rsdp m sig (load16 m edba_segment_loc * 0x10) edba_rounds) [
  | some p ↦ (p, terminal_puts t found_in_edba)
  | none ↦ elim (scan_rsdp m sig edba_base_addr upper_rounds) [
    | some p ↦ (p, terminal_puts t found_in_upper)
    | none ↦ (0, t)
  ]
]

-- The loop of `acpi_get_checksum`, with `left` bytes to go.
unfoldable pub add_bytes : (ℕ → ℕ) → ℕ → ℕ → ℕ → ℕ
add_bytes m p result zero = result
add_bytes m p result (suc left) = add_bytes m (p + 1) (u32 (result + m p)) left

unfoldable pub acpi_get_checksum : (ℕ → ℕ) → ℕ → ℕ
acpi_get_checksum m rsdp = u8 (add_bytes m rsdp 0 20)
