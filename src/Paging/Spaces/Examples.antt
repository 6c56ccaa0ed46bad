-- ===== src/Paging/Spaces/Examples.antt =====
-- The results about address spaces, on the tables that kernel/arch/i386/init/kboot.asm sets up and
-- on those with one table.
use missy_micro.Common.{ℕ, ◌+◌, ◌*◌, ◌/◌, ◌%◌, ◌^◌, ◌-◌, ◌<◌, ◌≤◌, ◌≡◌, refl, arith, some, none}
use missy_micro.Common.{◌==◌, if◌then◌else◌, ltb, ◌&&◌, true}
use missy_micro.Bits.{bit}
use missy_micro.Balloc.{Balloc, balloc_get, block_alloc_first_free, scan_units, scan_unit}
use missy_micro.Balloc.Bitmap.{used}
use missy_micro.Balloc.Count.{IsAccounted, count_free}
use missy_micro.Paging.{Memory, Status, vmmngr_switch_address_space}
use missy_micro.Paging.Walk.{translate, IsPaged, IsNoTable, IsBlock, Spares}
use missy_micro.Paging.Examples.{one_page, one_page-IsPaged}
use missy_micro.Paging.Spaces.{vmmngr_initialize, vmmngr_create_address_space}
use missy_micro.Paging.Spaces.Initialize.{with_root, vmmngr_initialize_lem}
use missy_micro.Paging.Spaces.Create.{is_shared, vmmngr_create_address_space_lem}
use missy_micro.Paging.Spaces.Create.{vmmngr_create_address_space_twice}

-- The directory at 0x7f000, the identity map of the first four megabytes at 0x80000, and the map
-- of the kernel at 0x81000.
abbrev pub boot_tables : ℕ → ℕ → ℕ
boot_tables f i =
    if f == 0x7f && i == 0
    then 0x80003
    else if f == 0x7f && i == 768
    then 0x81003
    else if f == 0x7f && i == 1023
    then 0x7f003
    else if f == 0x80 && ltb i 1024
    then i * 4096 + 3
    else if f == 0x81 && ltb i 1024
    then (i + 256) * 4096 + 3
    else 0

-- The first megabyte of 320 blocks is given out.
abbrev pub boot_blocks : Balloc
boot_blocks = record {
  m_bmp_addr = 0xc0110000;
  m_bmp = λ i. if ltb i 8 then 2 ^ 32 - 1 else 0;
  mem_sz = 0x140000;
  bmp_sz = 11;
  total_blocks = 320;
  free_blocks = 64;
}

abbrev pub boot_memory : Memory
boot_memory = record {
  alloc = boot_blocks;
  paging = record { frames = boot_tables; pdbr = 0x7f000; pdir_physical = 0 };
}

boot_blocks-IsAccounted : IsAccounted boot_blocks
unfolding count_free used bit
boot_blocks-IsAccounted = record { units = refl; memory = omega arith; counted = refl }

boot_used :
    (used boot_blocks.m_bmp 0 ≡ 1)
    × (used boot_blocks.m_bmp 0x7f ≡ 1)
    × (used boot_blocks.m_bmp 0x80 ≡ 1)
    × (used boot_blocks.m_bmp 0x81 ≡ 1)
unfolding used bit
boot_used = (refl, refl, refl, refl)

boot_memory-IsPaged : IsPaged (with_root boot_memory)
boot_memory-IsPaged = record {
  accounted = boot_blocks-IsAccounted;
  zero_used = boot_used.0;
  root = refl;
  self_present = refl;
  self_frame = refl;
  owned = λ i h e. ground (arith, boot_used);
  distinct = λ i j hi hj ei ej e. ground arith;
}

pub boot_tables-lt : (f i : ℕ) → boot_tables f i < 2 ^ 32
boot_tables-lt f i = ground arith

boot_block : (balloc_get boot_blocks).0 < 0x400000
unfolding balloc_get block_alloc_first_free scan_units scan_unit
boot_block = omega arith

pub boot_identity : (a : ℕ) → a < 0x400000 → translate boot_memory.paging a ≡ some a
unfolding translate
boot_identity a h = ground arith

pub boot_free : (a : ℕ) → a / 4096 ≡ 0xcffff → translate boot_memory.paging a ≡ none
unfolding translate
boot_free a h = ground arith

initialize_example :
    (n : Memory) × (vmmngr_initialize boot_memory ≡ some (Status.ok, n))
    × IsPaged n
    × (n.paging.pdbr ≡ (balloc_get boot_blocks).0)
    × (boot_blocks.free_blocks ≤ n.alloc.free_blocks + 2)
    × Spares boot_memory n
    × ((a : ℕ) → a / 0x400000 < 1023 → translate n.paging a ≡ translate boot_memory.paging a)
initialize_example =
    vmmngr_initialize_lem boot_memory boot_memory-IsPaged boot_tables-lt refl (omega arith)
      boot_block boot_identity boot_free

seven_used : IsBlock one_page.alloc 7
unfolding used bit
seven_used = (omega arith, omega arith, refl)

seven_unused : IsNoTable one_page 7
seven_unused i h e = ground arith

create_example :
    (n : Memory) × (vmmngr_create_address_space one_page 0x7000 ≡ some (Status.ok, n))
    × IsPaged n
    × ((a : ℕ)
        → a / 0x400000 < 1023
        → translate n.paging a
          ≡ (if a / 4096 == 0xcffff then some (0x7000 + a % 4096) else translate one_page.paging a))
    × ((a : ℕ)
        → a < 2 ^ 32
        → is_shared (a / 0x400000) ≡ true
        → translate (vmmngr_switch_address_space n.paging 0x7000).1 a ≡ translate n.paging a)
create_example =
    vmmngr_create_address_space_lem one_page 0x7000 one_page-IsPaged (omega arith) refl seven_used
      seven_unused (unfold translate in refl)

create_twice_example :
    (n : Memory) × (vmmngr_create_address_space one_page 0x7000 ≡ some (Status.ok, n))
    × (vmmngr_create_address_space n 0x7000 ≡ some (Status.failed, n))
create_twice_example =
    vmmngr_create_address_space_twice one_page 0x7000 0x7000 one_page-IsPaged (omega arith) refl
      seven_used seven_unused (unfold translate in refl)
