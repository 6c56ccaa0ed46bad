-- ===== src/Physical/Examples.antt =====
-- `kmemory_prepare` with 16 MiB, a kernel of 64 KiB, and a map with one region at 0x200000.
use missy_micro.Common.{ℕ, ◌*◌, ◌≡◌, ◌<◌, refl, arith, some, ◌==◌, if◌then◌else◌}
use missy_micro.Balloc.{Balloc}
use missy_micro.Balloc.Bitmap.{used}
use missy_micro.Balloc.Count.{IsAccounted}
use missy_micro.Multiboot.{Multiboot, copy_entry2}
use missy_micro.Physical.{kmemory_prepare, Prepared}
use missy_micro.Physical.Laws.{kept_back, map_entries, Inside, kmemory_prepare_lem}

abbrev one_region : ℕ → ℕ
one_region i =
    if i == 0x1054
    then 40
    else if i == 0x1058
    then 24
    else if i == 0x1062
    then 32
    else if i == 0x1069
    then 48
    else if i == 0x1070
    then 2
    else 0

abbrev loader : Multiboot
loader = record {
  boot_magic = 0x36d76289;
  mb_memory_sz = 0x4000;
  mb_inf = 0;
  mb_memory_map = 0;
  multiboot_cur_mmap = 0;
  mb2_start = 0x1000;
  mb2_memory_map = 0x1050;
}

region-Inside : Inside 4096 (map_entries one_region loader 0xc0000000 0xc0010000 (λ i. 7) 0 1)
unfolding copy_entry2
region-Inside = (λ ne. omega arith, tt)

prepare_example :
    (s' : Multiboot) × (b : Balloc) × (kmemory_prepare one_region loader 0xc0000000 0xc0010000
        (λ i. 7)
        1
      ≡ some (Prepared.ready (s', b)))
    × (b.total_blocks ≡ 4096)
    × IsAccounted b
    × ((c : ℕ)
        → c < b.bmp_sz * 32
        → used b.m_bmp c ≡ (
            if kept_back 0xc0000000 0xc0010000 0x1000000
              (map_entries one_region loader 0xc0000000 0xc0010000 (λ i. 7) 0 1)
              c
            then 1
            else 0))
prepare_example =
    kmemory_prepare_lem one_region loader 0xc0000000 0xc0010000 (λ i. 7) 0 1 refl refl refl refl
      (omega arith) (omega arith) (omega arith) region-Inside (omega arith)
