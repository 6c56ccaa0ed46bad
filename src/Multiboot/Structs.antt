-- ===== src/Multiboot/Structs.antt =====
-- The structures of kernel/kernel/include/multiboot.h, read from memory. They are packed, and
-- numbers lie in memory with the lowest byte first.
use missy_micro.Common.{ℕ, zero, suc, ◌+◌, ◌*◌, ◌^◌}

-- `n` bytes of memory as a number.
abbrev pub load : (ℕ → ℕ) → ℕ → ℕ → ℕ
load m zero p = 0
load m (suc n) p = m p + load m n (p + 1) * 2 ^ 8

abbrev pub load16 : (ℕ → ℕ) → ℕ → ℕ
load16 m p = load m 2 p

abbrev pub load32 : (ℕ → ℕ) → ℕ → ℕ
load32 m p = load m 4 p

abbrev pub load64 : (ℕ → ℕ) → ℕ → ℕ
load64 m p = load m 8 p

pub record MultibootInfo : Type 0 where
  pub flags : ℕ
  pub memory_sz_lo : ℕ
  pub memory_sz_hi : ℕ
  pub boot_device : ℕ
  pub command_line : ℕ
  pub mods_count : ℕ
  pub mods_addr : ℕ
  pub elf_symbol_count : ℕ
  pub elf_entry_sz : ℕ
  pub elf_table_addr : ℕ
  pub elf_string_table : ℕ
  pub mmap_length : ℕ
  pub mmap_addr : ℕ
  pub drives_length : ℕ
  pub drives_addr : ℕ
  pub config_table : ℕ
  pub bootldr_name : ℕ
  pub apm_table : ℕ
  pub vbe_ctrl_info : ℕ
  pub vbe_mode_info : ℕ
  pub vbe_mode : ℕ
  pub vbe_interface_seg : ℕ
  pub vbe_interface_off : ℕ
  pub vbe_interface_len : ℕ

abbrev pub multiboot_info : (ℕ → ℕ) → ℕ → MultibootInfo
multiboot_info m p = record {
  flags = load32 m p;
  memory_sz_lo = load32 m (p + 4);
  memory_sz_hi = load32 m (p + 8);
  boot_device = load32 m (p + 12);
  command_line = load32 m (p + 16);
  mods_count = load32 m (p + 20);
  mods_addr = load32 m (p + 24);
  elf_symbol_count = load32 m (p + 28);
  elf_entry_sz = load32 m (p + 32);
  elf_table_addr = load32 m (p + 36);
  elf_string_table = load32 m (p + 40);
  mmap_length = load32 m (p + 44);
  mmap_addr = load32 m (p + 48);
  drives_length = load32 m (p + 52);
  drives_addr = load32 m (p + 56);
  config_table = load32 m (p + 60);
  bootldr_name = load32 m (p + 64);
  apm_table = load32 m (p + 68);
  vbe_ctrl_info = load32 m (p + 72);
  vbe_mode_info = load32 m (p + 76);
  vbe_mode = load16 m (p + 80);
  vbe_interface_seg = load16 m (p + 82);
  vbe_interface_off = load16 m (p + 84);
  vbe_interface_len = load16 m (p + 86);
}

-- An entry of the memory map, of 24 bytes.
pub record MemoryMapInf : Type 0 where
  pub sz : ℕ
  pub base_addr : ℕ
  pub len : ℕ
  pub kind : ℕ

abbrev pub memory_map_inf : (ℕ → ℕ) → ℕ → MemoryMapInf
memory_map_inf m p = record {
  sz = load32 m p;
  base_addr = load64 m (p + 4);
  len = load64 m (p + 12);
  kind = load32 m (p + 20);
}

pub record Multiboot2Tag : Type 0 where
  pub kind : ℕ
  pub flags : ℕ
  pub size : ℕ

abbrev pub multiboot2_tag : (ℕ → ℕ) → ℕ → Multiboot2Tag
multiboot2_tag m p = record { kind = load16 m p; flags = load16 m (p + 2); size = load32 m (p + 4) }

pub record Multiboot2TagMemsz : Type 0 where
  pub tag : Multiboot2Tag
  pub mem_lower : ℕ
  pub mem_upper : ℕ

abbrev pub multiboot2_tag_memsz : (ℕ → ℕ) → ℕ → Multiboot2TagMemsz
multiboot2_tag_memsz m p = record {
  tag = multiboot2_tag m p;
  mem_lower = load32 m (p + 8);
  mem_upper = load32 m (p + 12);
}

-- The tag of the memory map, of 16 bytes before its entries.
pub record Multiboot2TagMmap : Type 0 where
  pub tag : Multiboot2Tag
  pub entry_sz : ℕ
  pub entry_ver : ℕ

abbrev pub multiboot2_tag_mmap : (ℕ → ℕ) → ℕ → Multiboot2TagMmap
multiboot2_tag_mmap m p = record {
  tag = multiboot2_tag m p;
  entry_sz = load32 m (p + 8);
  entry_ver = load32 m (p + 12);
}

-- An entry of that map, of 24 bytes.
pub record Multiboot2EntryMmap : Type 0 where
  pub base_addr : ℕ
  pub len : ℕ
  pub kind : ℕ
  pub reserved : ℕ

abbrev pub multiboot2_entry_mmap : (ℕ → ℕ) → ℕ → Multiboot2EntryMmap
multiboot2_entry_mmap m p = record {
  base_addr = load64 m p;
  len = load64 m (p + 8);
  kind = load32 m (p + 16);
  reserved = load32 m (p + 20);
}

pub record MmapData : Type 0 where
  pub base : ℕ
  pub len : ℕ
  pub kind : ℕ
