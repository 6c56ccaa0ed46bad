-- ===== src/Paging/Examples.antt =====
-- The results about memory_virt.c on a directory in frame 1 with one table, in frame 2, whose first
-- entry maps 0xd0000000 to 0x7000.
use missy_micro.Common.{ℕ, ◌^◌, ◌<◌, ◌≡◌, refl, arith, ◌==◌}
use missy_micro.Common.{if◌then◌else◌}
use missy_micro.Common.{◌&&◌}
use missy_micro.Balloc.{Balloc}
use missy_micro.Balloc.Bitmap.{used}
use missy_micro.Balloc.Count.{IsAccounted, count_free}
use missy_micro.Bits.{bit}
use missy_micro.Paging.{Memory, Status, vmmngr_map_page, vmmngr_unmap_page}
use missy_micro.Paging.Walk.{translate, IsPaged}
use missy_micro.Paging.Map.{IsMapped, vmmngr_map_page_lem}
use missy_micro.Common.{List, [], ◌∷◌}
use missy_micro.Paging.Calls.{Call, run, run_in_space, Shows, run-run_in_space}
use missy_micro.Paging.Unmap.{page_of, IsUnmapped, vmmngr_unmap_page_lem}

abbrev pub one_table : ℕ → ℕ → ℕ
one_table f i =
    if f == 1 && i == 1023
    then 0x1003
    else if f == 1 && i == 832
    then 0x2003
    else if f == 2 && i == 0
    then 0x7003
    else 0

-- Blocks 0, 1, 2 and 7 of 64 are given out.
abbrev pub four_used : Balloc
four_used = record {
  m_bmp_addr = 0xc0010000;
  m_bmp = λ i. if i == 0 then 0x87 else 0;
  mem_sz = 262144;
  bmp_sz = 3;
  total_blocks = 64;
  free_blocks = 60;
}

abbrev pub one_page : Memory
one_page = record {
  alloc = four_used;
  paging = record { frames = one_table; pdbr = 0x1000; pdir_physical = 0x1000 };
}

four_used-IsAccounted : IsAccounted four_used
unfolding count_free used bit
four_used-IsAccounted = record { units = refl; memory = omega arith; counted = refl }

used_first :
    (used four_used.m_bmp 0 ≡ 1) × (used four_used.m_bmp 1 ≡ 1) × (used four_used.m_bmp 2 ≡ 1)
unfolding used bit
used_first = (refl, refl, refl)

pub one_page-IsPaged : IsPaged one_page
one_page-IsPaged = record {
  accounted = four_used-IsAccounted;
  zero_used = used_first.0;
  root = refl;
  self_present = refl;
  self_frame = refl;
  owned = λ i h e. ground (arith, used_first);
  distinct = λ i j hi hj ei ej e. ground arith;
}

-- The next page goes into the table that there is.
map_example :
    let (status, n) = vmmngr_map_page one_page 0x9000 0xd0001000 in
    (status ≡ Status.ok) × IsMapped one_page n 0x9000 0xd0001000
map_example =
    vmmngr_map_page_lem one_page 0x9000 0xd0001000 one_page-IsPaged (omega arith) refl (omega arith)
      (unfold translate in refl)

one_table-lt : (f i : ℕ) → one_table f i < 2 ^ 32
one_table-lt f i = ground arith

-- The only page of the table is unmapped, and its table given back.
unmap_example :
    let (phys, n) = vmmngr_unmap_page one_page 0xd0000000 in
    (phys ≡ page_of (translate one_page.paging 0xd0000000)) × IsUnmapped one_page n 0xd0000000
unmap_example =
    vmmngr_unmap_page_lem one_page 0xd0000000 one_page-IsPaged one_table-lt (omega arith)

-- A page is mapped, mapped again, which fails, and another unmapped.
abbrev three_calls : List Call
three_calls =
    Call.maps 0x9000 0xd0001000 ∷ Call.maps 0xa000 0xd0001000 ∷ Call.unmaps 0xd0000000 ∷ []

calls_example :
    ((run one_page three_calls).0 ≡ (run_in_space (translate one_page.paging) three_calls).0)
    × Shows (run one_page three_calls).1 (run_in_space (translate one_page.paging) three_calls).1
calls_example =
    run-run_in_space one_page (translate one_page.paging) three_calls
      (record { paged = one_page-IsPaged; words = one_table-lt; walks = λ a low. refl })
      (refl, omega arith, omega arith, (refl, omega arith, omega arith, (omega arith, tt)))
      (omega arith)
