-- ===== src/Paging/Drop.antt =====
-- How `vmmngr_unmap_page` of memory_virt.c gives an empty page table back.
use missy_micro.Common.{ℕ, zero, suc, ◌+◌, ◌*◌, ◌/◌, ◌%◌, ◌^◌, ◌≤◌, ◌<◌, ◌≡◌, ◌≢◌, refl}
use missy_micro.Common.{arith}
use missy_micro.Common.{◌==◌, if◌then◌else◌, none, false}
use missy_micro.Common.{Bool-cases, inl, inr}
use missy_micro.Balloc.{Balloc, balloc_free}
use missy_micro.Balloc.Bitmap.{used}
use missy_micro.Balloc.Count.{IsAccounted}
use missy_micro.Balloc.Alloc.{balloc_free_lem}
use missy_micro.Paging.{Paging, Memory, dir_entry, table_frame}
use missy_micro.Paging.{set_dir_entry, any_present}
use missy_micro.Paging.{drop_empty_table}
use missy_micro.Paging.Entries.{is_present_lem, bit_and_page}
use missy_micro.Paging.Walk.{translate, IsPaged, IsBlock, table-ne-root}
use missy_micro.Paging.Walk.{Spares}

-- The loop that looks for an entry finds one exactly if there is one.
any_present-false :
    (t : ℕ → ℕ) (i left j : ℕ) → any_present t i left ≡ false → i ≤ j → j < i + left → t j % 2 ≡ 0
unfolding any_present
any_present-false t i zero j e h k = absurd (omega arith)
any_present-false t i (suc left) j e h k = elim (Bool-cases (j == i)) [
  | inl same ↦ ground (arith, is_present_lem (t i))
  | inr other ↦ any_present-false t (i + 1) left j (ground arith) (ground arith) (omega arith)
]

-- A directory entry that is cleared unmaps its addresses, and no others.
translate-set_dir_zero :
    (v : Paging) (i a : ℕ)
    → (dir_entry v (a / 0x400000) % 2 ≡ 1 → table_frame v (a / 0x400000) ≢ v.pdbr / 4096)
    → translate (set_dir_entry v i 0) a ≡ (if a / 0x400000 == i then none else translate v a)
unfolding translate
translate-set_dir_zero v i a h = ground arith

-- The state after a table without entries is given back.
abbrev dropped : Memory → ℕ → Memory
dropped m i = record {
  alloc = balloc_free m.alloc (table_frame m.paging i * 4096);
  paging = set_dir_entry m.paging i 0;
}

total-balloc_free : (s : Balloc) (p : ℕ) → (balloc_free s p).total_blocks ≡ s.total_blocks
unfolding balloc_free
total-balloc_free s p = ground arith

dropped-IsPaged :
    (m : Memory) (i : ℕ)
    → IsPaged m
    → i < 1023
    → dir_entry m.paging i % 2 ≡ 1
    → IsPaged (dropped m i)
dropped-IsPaged m i p h present = record {
  accounted = freed.2;
  zero_used = ground (arith, freed.0 0, block, p.zero_used);
  root = p.root;
  self_present = ground (arith, now 1023, p.self_present);
  self_frame = ground (arith, now 1023, p.self_frame);
  owned = λ k lt e. ground (
    arith,
    now k,
    block,
    p.owned k lt,
    p.distinct k i lt (omega arith),
    freed.0 (table_frame m.paging k),
    total-balloc_free m.alloc (table_frame m.paging i * 4096),
  );
  distinct = λ k l hk hl ek el same. ground (arith, now k, now l, p.distinct k l hk hl);
}
  where
    block : IsBlock m.alloc (table_frame m.paging i)
    block = p.owned i (omega arith) present

    now :
        (k : ℕ)
        → dir_entry (set_dir_entry m.paging i 0) k ≡ (if k == i then 0 else dir_entry m.paging k)
    now k = ground arith

    address : table_frame m.paging i * 4096 / 4096 ≡ table_frame m.paging i
    address = omega arith

    freed :
        ((c : ℕ)
          → used (balloc_free m.alloc (table_frame m.paging i * 4096)).m_bmp c
            ≡ (if c == table_frame m.paging i then 0 else used m.alloc.m_bmp c))
        × ((balloc_free m.alloc (table_frame m.paging i * 4096)).free_blocks
            ≡ m.alloc.free_blocks + 1)
        × IsAccounted (balloc_free m.alloc (table_frame m.paging i * 4096))
    freed =
        let law =
          balloc_free_lem m.alloc (table_frame m.paging i * 4096) p.accounted
            (omega (arith, block.0)) (rw address block.1) (rw address block.2) in
        rw address at law

dropped-Spares :
    (m : Memory) (i : ℕ)
    → IsPaged m
    → i < 1023
    → dir_entry m.paging i % 2 ≡ 1
    → Spares m (dropped m i)
dropped-Spares m i p h present f given off =
    let block = p.owned i (omega arith) present in
    let address : table_frame m.paging i * 4096 / 4096 ≡ table_frame m.paging i = omega arith in
    let freed =
      balloc_free_lem m.alloc (table_frame m.paging i * 4096) p.accounted (omega (arith, block.0))
        (rw address block.1) (rw address block.2) in
    let clear_at = rw address at freed.0 in
    (
      ground (arith, clear_at f, off i (omega arith) present, given),
      λ k lt e same. ground (arith, off k lt, e, same),
    )

pub drop-Spares :
    (m : Memory) (i : ℕ)
    → IsPaged m
    → i < 1023
    → dir_entry m.paging i < 2 ^ 32
    → dir_entry m.paging i % 2 ≡ 1
    → Spares m (drop_empty_table m i)
unfolding drop_empty_table
drop-Spares m i p h fits present =
    elim (Bool-cases (any_present (m.paging.frames (table_frame m.paging i)) 0 1024)) [
      | inl kept ↦ rw kept (λ f given off. (given, off))
      | inr empty ↦
          rw (empty, bit_and_page (dir_entry m.paging i) fits) (dropped-Spares m i p h present)
    ]

freed-count :
    (m : Memory) (i : ℕ)
    → IsPaged m
    → i < 1023
    → dir_entry m.paging i % 2 ≡ 1
    → (dropped m i).alloc.free_blocks ≡ m.alloc.free_blocks + 1
freed-count m i p h present =
    let block = p.owned i (omega arith) present in
    let address : table_frame m.paging i * 4096 / 4096 ≡ table_frame m.paging i = omega arith in
    (balloc_free_lem m.alloc (table_frame m.paging i * 4096) p.accounted (omega (arith, block.0))
      (rw address block.1) (rw address block.2)).1

-- What dropping a table without entries changes: nothing that the walk can see.
pub drop_lem :
    (m : Memory) (i : ℕ)
    → IsPaged m
    → i < 1023
    → dir_entry m.paging i < 2 ^ 32
    → dir_entry m.paging i % 2 ≡ 1
    → let n = drop_empty_table m i in
      IsPaged n
      × ((a : ℕ) → a / 0x400000 < 1023 → translate n.paging a ≡ translate m.paging a)
      × (m.alloc.free_blocks ≤ n.alloc.free_blocks)
unfolding drop_empty_table
drop_lem m i p h fits present =
    elim (Bool-cases (any_present (m.paging.frames (table_frame m.paging i)) 0 1024)) [
      | inl kept ↦ rw kept (p, λ a k. refl, omega arith)
      | inr empty ↦
          rw (empty, bit_and_page (dir_entry m.paging i) fits)
            (
              dropped-IsPaged m i p h present,
              λ a k. same empty a k,
              omega (arith, freed-count m i p h present),
            )
    ]
  where
    nothing :
        any_present (m.paging.frames (table_frame m.paging i)) 0 1024 ≡ false
        → (a : ℕ) → a / 0x400000 ≡ i
        → translate m.paging a ≡ none
    nothing empty a e =
        unfold translate in
        ground (
          arith,
          any_present-false (m.paging.frames (table_frame m.paging i)) 0 1024 (a / 0x1000 % 1024)
              empty (omega arith) (omega arith),
        )

    same :
        any_present (m.paging.frames (table_frame m.paging i)) 0 1024 ≡ false
        → (a : ℕ) → a / 0x400000 < 1023
        → translate (set_dir_entry m.paging i 0) a ≡ translate m.paging a
    same empty a k = ground (
      arith,
      translate-set_dir_zero m.paging i a (table-ne-root m (a / 0x400000) p k),
      nothing empty a,
    )
