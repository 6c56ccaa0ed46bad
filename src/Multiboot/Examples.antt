-- ===== src/Multiboot/Examples.antt =====
-- The results about multiboot.c on two tags, of the memory's size at 0x1040 and of a map of one entry at
-- 0x1050, and on a map of the first format with one entry at 0x2000.
use missy_micro.Common.{ℕ, zero, suc, ◌<◌, ◌≡◌, ◌≢◌, refl, arith, ◌==◌}
use missy_micro.Common.{if◌then◌else◌, []}
use missy_micro.Terminal.{Terminal}
use missy_micro.Multiboot.{Multiboot, copy_entry}
use missy_micro.Multiboot.Tags.{IsTagList, IsFirstTag, tag_at, kind_at}
use missy_micro.Multiboot.MemoryMap.{entries_read, entries_from, entries_read_mboot1}

abbrev tags : ℕ → ℕ
tags i =
    if i == 0x1040
    then 4
    else if i == 0x1044
    then 16
    else if i == 0x1048
    then 128
    else if i == 0x1050
    then 6
    else if i == 0x1054
    then 40
    else if i == 0x1058
    then 24
    else 0

abbrev unread : Multiboot
unread = record {
  boot_magic = 0;
  mb_memory_sz = 0;
  mb_inf = 0;
  mb_memory_map = 0;
  multiboot_cur_mmap = 0;
  mb2_start = 0;
  mb2_memory_map = 0;
}

abbrev screen : Terminal
screen = record { cur_x = 0; cur_y = 0; color_attrib = 15; video_memory = λ i. 0; sent = [] }

two_tags : IsTagList tags 0x1040 2
two_tags = record { ends = refl; goes_on = goes_on }
  where
    goes_on : (i : ℕ) → i < 2 → kind_at tags 0x1040 i ≢ 0
    goes_on zero lt e = omega arith
    goes_on (suc zero) lt e = omega arith
    goes_on (suc (suc i)) lt e = omega arith

size_tag : IsFirstTag tags 0x1040 2 4 0
size_tag = record { in_list = omega arith; kind = refl; first = λ j lt. absurd (omega arith) }

map_tag : IsFirstTag tags 0x1040 2 6 1
map_tag = record { in_list = omega arith; kind = refl; first = first }
  where
    first : (j : ℕ) → j < 1 → kind_at tags 0x1040 j ≢ 6
    first zero lt e = omega arith
    first (suc j) lt e = omega arith

second_tag : tag_at tags 0x1040 1 ≢ 0
second_tag e = omega arith

abbrev mapped : Multiboot
mapped = record unread { boot_magic = 0x36d76289; mb2_memory_map = 0x1050 }

abbrev old_map : ℕ → ℕ
old_map i = if i == 0x102c then 24 else if i == 0x2000 then 20 else 0

abbrev old : Multiboot
old = record unread { boot_magic = 0x2badb002; mb_inf = 0x1000; mb_memory_map = 0x2000 }

old_entries_example : entries_read old_map old 2 ≡ entries_from (copy_entry old_map) 0x2018 1
old_entries_example =
    entries_read_mboot1 old_map old 1 2 refl refl refl refl (omega arith) (omega arith)
