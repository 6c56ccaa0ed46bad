-- ===== src/Paging/Spaces/Create.antt =====
-- `vmmngr_create_address_space` of kernel/arch/i386/memory/memory_virt.c.
use missy_micro.Common.{ℕ, ◌+◌, ◌/◌, ◌%◌, ◌^◌, ◌<◌, ◌≡◌, ◌≢◌, refl, arith, sym}
use missy_micro.Common.{◌==◌, if◌then◌else◌, leb, ltb, ◌||◌, Bool, true, some, none, ◌∙◌, ==_ne}
use missy_micro.Balloc.Bitmap.{used}
use missy_micro.Paging.{Paging, Memory, Status, dir_entry, vmmngr_map_page}
use missy_micro.Paging.{vmmngr_switch_address_space}
use missy_micro.Paging.Walk.{translate, IsPaged, IsNoTable, IsBlock}
use missy_micro.Paging.Map.{vmmngr_map_page_lem, vmmngr_map_page_twice}
use missy_micro.Paging.Spaces.{temp_pdir_virtual, copy_kernel}
use missy_micro.Paging.Spaces.{unless_failed, vmmngr_create_address_space}
use missy_micro.Paging.Spaces.Copy.{IsBut, IsTemporary, translate-IsBut, copy_words_lem}
use missy_micro.Paging.Spaces.Copy.{unless_failed-ok}

-- The entries of the directory that a new address space is given.
abbrev pub is_shared : ℕ → Bool
is_shared j = ltb j 256 || leb 768 j

-- A write to a block that is given out and holds no table keeps the tables in order.
IsBut-IsPaged :
    (m : Memory) (w : Paging) (f : ℕ)
    → IsPaged m
    → IsNoTable m f
    → used m.alloc.m_bmp f ≡ 1
    → IsBut m.paging w f
    → IsPaged (record m { paging = w })
IsBut-IsPaged m w f p unused taken but = record {
  accounted = p.accounted;
  zero_used = p.zero_used;
  root = but.same_root ∙ p.root ∙ sym but.same_physical;
  self_present = rw (same 1023) p.self_present;
  self_frame = rw (same 1023, but.same_root) p.self_frame;
  owned = λ k lt e. rw (same k) (p.owned k lt (rw (same k) at e));
  distinct = λ k l hk hl ek el e.
      p.distinct k l hk hl (rw (same k) at ek) (rw (same l) at el) (rw (same k, same l) at e);
}
  where
    same : (k : ℕ) → dir_entry w k ≡ dir_entry m.paging k
    same k = ground (
      arith,
      but.same_root,
      unused 1023 (omega arith) p.self_present,
      p.self_frame,
      but.elsewhere (m.paging.pdbr / 4096) k,
    )

-- What the two loops leave: the page of the new directory alone has changed.
copy_kernel_lem :
    (m : Memory) (f : ℕ)
    → IsPaged m
    → IsNoTable m f
    → IsTemporary m.paging f
    → (u : Paging) × (copy_kernel m ≡ some (Status.ok, record m { paging = u }))
      × IsBut m.paging u f
      × ((j : ℕ)
          → j < 1024
          → is_shared j ≡ true
          → u.frames f j ≡ m.paging.frames (m.paging.pdbr / 4096) j)
unfolding copy_kernel
copy_kernel_lem m f p unused temp =
    let same : IsBut m.paging m.paging f = record {
      same_root = refl;
      same_physical = refl;
      elsewhere = λ g j ne. refl;
    } in
    let (v, run, but, low) = copy_words_lem m f p unused temp m.paging 0 256 same (omega arith) in
    let (u, run', but', high) = copy_words_lem m f p unused temp v 768 256 but (omega arith) in
    rw (run, run') (u, refl, but', λ j lt shared. ground (arith, high j, low j))

translate-switched :
    (v : Paging) (p a : ℕ)
    → v.frames (p / 4096) (a / 0x400000) ≡ dir_entry v (a / 0x400000)
    → translate (record v { pdbr = p }) a ≡ translate v a
unfolding translate
translate-switched v p a e = rw e refl

-- With the page tables in order, a block of memory free, nothing mapped in the temporary page
-- and a page-aligned block that is given out and holds no table, `vmmngr_create_address_space`
-- of that block meets no page fault and succeeds: the tables are in order, the temporary page
-- is mapped to the block and every other address below the window goes where it went before;
-- and once the block is the directory, every address of the directory entries below 256 and
-- from 768 on goes where it went, those of the window, which then still shows the old
-- directory, included.
pub vmmngr_create_address_space_lem :
    (m : Memory) (p : ℕ)
    → IsPaged m
    → 0 < m.alloc.free_blocks
    → p % 4096 ≡ 0
    → IsBlock m.alloc (p / 4096)
    → IsNoTable m (p / 4096)
    → translate m.paging 0xcffff000 ≡ none
    → (n : Memory) × (vmmngr_create_address_space m p ≡ some (Status.ok, n))
      × IsPaged n
      × ((a : ℕ)
          → a / 0x400000 < 1023
          → translate n.paging a
            ≡ (if a / 4096 == 0xcffff then some (p + a % 4096) else translate m.paging a))
      × ((a : ℕ)
          → a < 2 ^ 32
          → is_shared (a / 0x400000) ≡ true
          → translate (vmmngr_switch_address_space n.paging p).1 a ≡ translate n.paging a)
unfolding vmmngr_create_address_space vmmngr_switch_address_space
vmmngr_create_address_space_lem m p paged free page block unused unmapped =
    let f = p / 4096 in
    let ne : p ≢ 0 = λ e. ground (arith, block.0) in
    let (status, mapped) =
      vmmngr_map_page_lem m p temp_pdir_virtual paged free page (omega arith) unmapped in
    let m2 = (vmmngr_map_page m p temp_pdir_virtual).1 in
    let unused' = mapped.tables f block.2 unused in
    let at_temp : IsTemporary m2.paging f = λ a h. ground (arith, mapped.walks a) in
    let (u, run, but, words) = copy_kernel_lem m2 f mapped.paged unused' at_temp in
    let kept =
      λ (a : ℕ) (fits : a < 2 ^ 32). translate-IsBut m2 u f a mapped.paged unused' but fits in
    rw (==_ne p 0 ne, unless_failed-ok (vmmngr_map_page m p temp_pdir_virtual) copy_kernel status)
      (
        record m2 { paging = u },
        run,
        IsBut-IsPaged m2 u f mapped.paged unused' (mapped.given f block.2) but,
        λ a h. kept a (omega arith) ∙ mapped.walks a h,
        λ a fits shared. translate-switched u p a (
            ground (
              arith,
              words (a / 0x400000) (omega arith) shared,
              but.same_root,
              but.elsewhere (m2.paging.pdbr / 4096) (a / 0x400000),
              unused' 1023 (omega arith) mapped.paged.self_present,
              mapped.paged.self_frame,
            )),
      )

-- With the page tables in order, a block of memory free, nothing mapped in the temporary page
-- and a page-aligned block that is given out and holds no table, `vmmngr_create_address_space`
-- of that block succeeds, and a second call after it, for any directory, fails and changes
-- nothing.
pub vmmngr_create_address_space_twice :
    (m : Memory) (p next : ℕ)
    → IsPaged m
    → 0 < m.alloc.free_blocks
    → p % 4096 ≡ 0
    → IsBlock m.alloc (p / 4096)
    → IsNoTable m (p / 4096)
    → translate m.paging 0xcffff000 ≡ none
    → (n : Memory) × (vmmngr_create_address_space m p ≡ some (Status.ok, n))
      × (vmmngr_create_address_space n next ≡ some (Status.failed, n))
unfolding vmmngr_create_address_space unless_failed
vmmngr_create_address_space_twice m p next paged free page block unused unmapped =
    let (n, run, _, walks, _) =
      vmmngr_create_address_space_lem m p paged free page block unused unmapped in
    let there : translate n.paging 0xcffff000 ≢ none = λ e. ground (arith, walks 0xcffff000, e) in
    (n, run, rw (vmmngr_map_page_twice n next 0xcffff000 (omega arith) there) (ground arith))
