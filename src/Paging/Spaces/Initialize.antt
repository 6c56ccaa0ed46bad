-- ===== src/Paging/Spaces/Initialize.antt =====
-- `vmmngr_initialize` of kernel/arch/i386/memory/memory_virt.c.
use missy_micro.Common.{ℕ, ◌+◌, ◌*◌, ◌/◌, ◌%◌, ◌^◌, ◌≤◌, ◌<◌, ◌≡◌, ◌≢◌, refl, arith, ap, sym}
use missy_micro.Common.{◌==◌, if◌then◌else◌, some, none, ◌∙◌, u32}
use missy_micro.Common.{Bool-cases, inl, inr, bit_and, bit_or}
use missy_micro.Balloc.{balloc_get}
use missy_micro.Balloc.Bitmap.{used}
use missy_micro.Balloc.Alloc.{granted-ne_zero, balloc_get_lem}
use missy_micro.Paging.{Paging, Memory, PgInf, Status, dir_entry, table_frame, table_entry}
use missy_micro.Paging.{write_frame, is_present, vmmngr_map_page, map_in_table}
use missy_micro.Paging.{vmmngr_unmap_page, unmap_in_table, drop_empty_table}
use missy_micro.Paging.Entries.{bit_and_page, bit_or_three}
use missy_micro.Paging.Walk.{translate, IsPaged, IsNoTable, IsBlock}
use missy_micro.Paging.Kept.{IsPaged-granted}
use missy_micro.Paging.Map.{vmmngr_map_page_lem, pgidx-eq, map_in_new_table_lem}
use missy_micro.Paging.Map.{map_in_table_lem, dir_index, table_index}
use missy_micro.Paging.Unmap.{vmmngr_unmap_page_lem}
use missy_micro.Paging.Spaces.{store_word, temp_pdir_virtual}
use missy_micro.Paging.Spaces.{enter_new_pdir, vmmngr_initialize}
use missy_micro.Paging.Walk.{Spares}
use missy_micro.Paging.Spaces.Copy.{IsBut, IsTemporary, translate-IsBut, copy_words_lem}
use missy_micro.Paging.Spaces.Copy.{store_word-at, unless_failed-ok}

-- Every word of memory has 32 digits.
abbrev pub IsWordMemory : Paging → Type 0
IsWordMemory v = (f i : ℕ) → v.frames f i < 2 ^ 32

pub vmmngr_map_page-IsWordMemory :
    (m : Memory) (phys virt : ℕ)
    → IsPaged m
    → 0 < m.alloc.free_blocks
    → phys % 4096 ≡ 0
    → phys < 2 ^ 32
    → virt < 2 ^ 32
    → IsWordMemory m.paging
    → IsWordMemory (vmmngr_map_page m phys virt).1.paging
unfolding vmmngr_map_page map_in_table
vmmngr_map_page-IsWordMemory m phys virt p some_free page fits low words =
    let pg : PgInf = record { ptable = dir_index virt; page = table_index virt } in
    rw (pgidx-eq virt low) (elim (Bool-cases (is_present (dir_entry m.paging (dir_index virt)))) [
      | inl present ↦
          elim (Bool-cases
            (is_present (table_entry m.paging (dir_index virt) (table_index virt)))) [
              | inl taken ↦ rw (present, taken) words
              | inr empty ↦
                  rw (present, map_in_table_lem m phys pg p.root page empty)
                    (λ g j. ground (arith, words g j))
            ]
      | inr absent ↦
          let (b, g) = balloc_get_lem m.alloc p.accounted p.zero_used some_free in
          let q = (balloc_get m.alloc).0 in
          rw (absent, map_in_new_table_lem m phys pg p.root page (omega (arith, g.address)))
            (λ f j. ground (arith, words f j, words ((q + 3) / 4096) 0, g.fits, g.address))
    ])

-- The address space of a new directory in frame `b`, a copy of that of `m` but for the last entry.
abbrev looped : Paging → ℕ → Paging
looped u b = record (write_frame u b 1023 (b * 4096 + 3)) {
  pdbr = b * 4096;
  pdir_physical = b * 4096;
}

module _ (m : Memory) (b : ℕ) (u : Paging) (p : IsPaged m) (block : IsBlock m.alloc b)
    (unused : IsNoTable m b) (but : IsBut m.paging u b)
    (copied : (j : ℕ) → j < 1024 → u.frames b j ≡ m.paging.frames (m.paging.pdbr / 4096) j) where
  abbrev new_space : Memory
  new_space = record m { paging = looped u b }

  dir_entry-looped :
      (k : ℕ)
      → k < 1024
      → dir_entry (looped u b) k ≡ (if k == 1023 then b * 4096 + 3 else dir_entry m.paging k)
  dir_entry-looped k lt = ground (arith, copied k)

  looped-elsewhere : (f j : ℕ) → f ≢ b → (looped u b).frames f j ≡ m.paging.frames f j
  looped-elsewhere f j ne = ground (arith, but.elsewhere f j ne)

  looped-IsPaged : IsPaged new_space
  looped-IsPaged = record {
    accounted = p.accounted;
    zero_used = p.zero_used;
    root = refl;
    self_present = ground (arith, dir_entry-looped 1023);
    self_frame = ground (arith, dir_entry-looped 1023);
    owned = λ k h e. ground (arith, dir_entry-looped k h, p.owned k h, block);
    distinct = λ k l hk hl ek el e. ground (
      arith,
      dir_entry-looped k hk,
      dir_entry-looped l hl,
      p.distinct k l hk hl,
      unused k hk,
      unused l hl,
    );
  }

  looped-IsNoTable : (f : ℕ) → f ≢ b → IsNoTable m f → IsNoTable new_space f
  looped-IsNoTable f ne off k lt e same = ground (arith, dir_entry-looped k lt, off k lt, e, same)

  translate-looped : (a : ℕ) → a / 0x400000 < 1023 → translate (looped u b) a ≡ translate m.paging a
  unfolding translate
  translate-looped a h = ground (
    arith,
    dir_entry-looped (a / 0x400000) (omega arith),
    unused (a / 0x400000) (omega arith),
    looped-elsewhere (table_frame m.paging (a / 0x400000)) (a / 0x1000 % 1024),
  )

unmap-pdir_physical :
    (m : Memory) (virt : ℕ)
    → (vmmngr_unmap_page m virt).1.paging.pdir_physical ≡ m.paging.pdir_physical
unfolding vmmngr_unmap_page unmap_in_table drop_empty_table
unmap-pdir_physical m virt = ground arith

-- The last entry of the new directory is written where the new directory lies.
store_last :
    (m : Memory) (b : ℕ) (u : Paging)
    → IsPaged m
    → IsNoTable m b
    → IsBut m.paging u b
    → b < 1048575
    → translate m.paging (b * 4096 + 4092) ≡ some (b * 4096 + 4092)
    → store_word u (u32 (b * 4096 + 4 * 1023)) (bit_or (b * 4096) 3)
      ≡ some (write_frame u b 1023 (b * 4096 + 3))
store_last m b u p unused but low identity =
    let a = b * 4096 + 4092 in
    let fits : u32 (b * 4096 + 4 * 1023) ≡ a = omega arith in
    let frame : a / 4096 ≡ b = omega arith in
    let word : a % 4096 / 4 ≡ 1023 = omega arith in
    let walk : translate u a ≡ some a =
      translate-IsBut m u b a p unused but (omega arith) ∙ identity in
    rw (fits, bit_or_three (b * 4096) (omega arith))
      (store_word-at u a a (b * 4096 + 3) walk ∙ rw (frame, word) refl)

enter_new_pdir_lem :
    (m : Memory) (b : ℕ)
    → IsPaged m
    → IsWordMemory m.paging
    → IsBlock m.alloc b
    → IsNoTable m b
    → IsTemporary m.paging b
    → b < 1048575
    → translate m.paging (b * 4096 + 4092) ≡ some (b * 4096 + 4092)
    → (n : Memory) × (enter_new_pdir (b * 4096) m ≡ some (Status.ok, n))
      × IsPaged n
      × (n.paging.pdbr ≡ b * 4096)
      × (m.alloc.free_blocks ≤ n.alloc.free_blocks)
      × ((f : ℕ)
          → f ≢ b
          → used m.alloc.m_bmp f ≡ 1
          → IsNoTable m f
          → (used n.alloc.m_bmp f ≡ 1) × IsNoTable n f)
      × ((a : ℕ)
          → a / 0x400000 < 1023
          → translate n.paging a ≡ (if a / 4096 == 0xcffff then none else translate m.paging a))
unfolding enter_new_pdir
enter_new_pdir_lem m b p words block unused temp low identity =
    let same : IsBut m.paging m.paging b = record {
      same_root = refl;
      same_physical = refl;
      elsewhere = λ g j ne. refl;
    } in
    let (u, run, but, copied) =
      copy_words_lem m b p unused temp m.paging 0 1024 same (omega arith) in
    let all : (j : ℕ) → j < 1024 → u.frames b j ≡ m.paging.frames (m.paging.pdbr / 4096) j =
      λ j lt. ground (arith, copied j) in
    let l = new_space m b u p block unused but all in
    let paged = looped-IsPaged m b u p block unused but all in
    let words' : IsWordMemory (looped u b) = λ f j.
      ground (arith, words f j, words (m.paging.pdbr / 4096) j, copied j, but.elsewhere f j) in
    let gone = vmmngr_unmap_page_lem l temp_pdir_virtual paged words' (omega arith) in
    rw (run, store_last m b u p unused but low identity)
      (
        (vmmngr_unmap_page l temp_pdir_virtual).1,
        refl,
        gone.1.paged,
        gone.1.paged.root ∙ unmap-pdir_physical l temp_pdir_virtual,
        gone.1.cost,
        λ f ne given off.
            gone.1.spares f given (looped-IsNoTable m b u p block unused but all f ne off),
        λ a h. ground (arith, gone.1.walks a h, translate-looped m b u p block unused but all a h),
      )

-- `m` once `pdir_physical` is set.
abbrev pub with_root : Memory → Memory
with_root m = record m { paging = record m.paging { pdir_physical = m.paging.pdbr } }

translate-with_root : (m : Memory) (a : ℕ) → translate (with_root m).paging a ≡ translate m.paging a
unfolding translate
translate-with_root m a = refl

-- The directory's own entry, from which `pdir_physical` is set.
root_entry :
    (m : Memory)
    → IsPaged (with_root m)
    → IsWordMemory m.paging
    → m.paging.pdbr % 4096 ≡ 0
    → bit_and (dir_entry m.paging 1023) 0xfffff000 ≡ m.paging.pdbr
root_entry m p words page =
    omega (arith, bit_and_page (dir_entry m.paging 1023) (words _ _), p.self_frame)

-- With the page tables in order once pdir_physical is set, every word of memory below 2 ^ 32,
-- two blocks of memory free and the first of them below four megabytes, the first four
-- megabytes mapped to themselves and nothing mapped in the temporary page, `vmmngr_initialize`
-- meets no page fault and succeeds: CR3 holds the block that `balloc_get` gave, the page tables
-- are in order, at most two blocks were taken, no other block that was given out and held no
-- table was given back or became one, and every address below the window of the page tables
-- goes where it went before.
pub vmmngr_initialize_lem :
    (m : Memory)
    → IsPaged (with_root m)
    → IsWordMemory m.paging
    → m.paging.pdbr % 4096 ≡ 0
    → 2 ≤ m.alloc.free_blocks
    → (balloc_get m.alloc).0 < 0x400000
    → ((a : ℕ) → a < 0x400000 → translate m.paging a ≡ some a)
    → ((a : ℕ) → a / 4096 ≡ 0xcffff → translate m.paging a ≡ none)
    → (n : Memory) × (vmmngr_initialize m ≡ some (Status.ok, n))
      × IsPaged n
      × (n.paging.pdbr ≡ (balloc_get m.alloc).0)
      × (m.alloc.free_blocks ≤ n.alloc.free_blocks + 2)
      × Spares m n
      × ((a : ℕ) → a / 0x400000 < 1023 → translate n.paging a ≡ translate m.paging a)
unfolding vmmngr_initialize
vmmngr_initialize_lem m p words page free low identity unmapped =
    let (b, g) = balloc_get_lem m.alloc p.accounted p.zero_used (omega arith) in
    let (q, alloc) = balloc_get m.alloc in
    let m1 : Memory = record (with_root m) { alloc = alloc } in
    let p1 = IsPaged-granted (with_root m) b q alloc p g in
    let addr : q ≡ b * 4096 = g.address in
    let fresh : IsNoTable m1 b = λ i lt e c. ground (arith, p.owned i lt e, g.first.free) in
    let (status, mapped) =
      vmmngr_map_page_lem m1 q temp_pdir_virtual p1 (omega (arith, g.count)) (omega (arith, addr))
        (omega arith) (translate-with_root m temp_pdir_virtual ∙ unmapped temp_pdir_virtual refl) in
    let m2 = (vmmngr_map_page m1 q temp_pdir_virtual).1 in
    let given : used alloc.m_bmp b ≡ 1 = ground (arith, g.digits b) in
    let (n, run, paged, root, cost, spares, walks) =
      enter_new_pdir_lem m2 b mapped.paged
        (vmmngr_map_page-IsWordMemory m1 q temp_pdir_virtual p1 (omega (arith, g.count))
          (omega (arith, addr)) g.fits (omega arith) words)
        (
          (granted-ne_zero m.alloc alloc b q p.zero_used g).0,
          ground (arith, g.first.below, g.total, mapped.total),
          mapped.given b given,
        )
        (mapped.tables b given fresh) (λ a h. ground (arith, mapped.walks a, addr, h))
        (omega (arith, addr))
        (ground (
          arith,
          mapped.walks (b * 4096 + 4092),
          identity (b * 4096 + 4092),
          addr,
          translate-with_root m (b * 4096 + 4092),
        )) in
    rw
      (
        root_entry m p words page,
        unless_failed-ok (vmmngr_map_page m1 q temp_pdir_virtual) (enter_new_pdir q) status,
      )
      (
        n,
        ap (λ (x : ℕ). enter_new_pdir x m2) addr ∙ run,
        paged,
        root ∙ sym addr,
        omega (arith, cost, mapped.cost, g.count),
        λ f held off.
            let still : used alloc.m_bmp f ≡ 1 = ground (arith, g.digits f, held) in
            spares f (λ e. ground (arith, held, e, g.first.free)) (mapped.given f still)
              (mapped.tables f still off),
        λ a h. ground (arith, walks a h, mapped.walks a h, unmapped a, translate-with_root m a),
      )
