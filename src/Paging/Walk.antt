-- ===== src/Paging/Walk.antt =====
-- How the processor translates an address through the directory and the tables, and the states
-- in which kernel/arch/i386/memory/memory_virt.c works as it means to.
use missy_micro.Common.{ℕ, ◌+◌, ◌*◌, ◌/◌, ◌%◌, ◌<◌, ◌≡◌, ◌≢◌, sym, ◌∙◌, arith}
use missy_micro.Common.{◌==◌, if◌then◌else◌, Option, none, some, ◌&&◌}
use missy_micro.Balloc.{Balloc}
use missy_micro.Balloc.Bitmap.{used}
use missy_micro.Balloc.Count.{IsAccounted}
use missy_micro.Paging.{Paging, Memory, dir_entry, table_frame, set_table_entry}
use missy_micro.Paging.{set_dir_entry, clear_table}

-- The physical address that the walk finds, and `none` where it faults.
unfoldable pub translate : Paging → ℕ → Option ℕ
translate v a =
    let d = dir_entry v (a / 0x400000) in
    let t = v.frames (d / 4096) (a / 0x1000 % 1024) in
    if d % 2 == 1 then (if t % 2 == 1 then some (t / 4096 * 4096 + a % 4096) else none) else none

-- Block `f` is one of memory, not block 0, and is given out.
abbrev pub IsBlock : Balloc → ℕ → Type 0
IsBlock s f = (f ≢ 0) × (f < s.total_blocks) × (used s.m_bmp f ≡ 1)

-- The last entry of the directory maps the directory itself, every table lies in a block that the
-- allocator has given out, no two entries share a frame, and CR3 and `pdir_physical` agree.
pub record IsPaged (m : Memory) : Type 0 where
  pub accounted : IsAccounted m.alloc
  pub zero_used : used m.alloc.m_bmp 0 ≡ 1
  pub root : m.paging.pdbr ≡ m.paging.pdir_physical
  pub self_present : dir_entry m.paging 1023 % 2 ≡ 1
  pub self_frame : table_frame m.paging 1023 ≡ m.paging.pdbr / 4096
  pub owned :
      (i : ℕ) → i < 1024 → dir_entry m.paging i % 2 ≡ 1 → IsBlock m.alloc (table_frame m.paging i)
  pub distinct :
      (i j : ℕ)
      → i < 1024
      → j < 1024
      → dir_entry m.paging i % 2 ≡ 1
      → dir_entry m.paging j % 2 ≡ 1
      → table_frame m.paging i ≡ table_frame m.paging j
      → i ≡ j

-- Frame `f` holds neither a table nor the directory, the table of the last entry.
abbrev pub IsNoTable : Memory → ℕ → Type 0
IsNoTable m f = (i : ℕ) → i < 1024 → dir_entry m.paging i % 2 ≡ 1 → table_frame m.paging i ≢ f

-- A block that was given out and held no table still is, and holds none.
abbrev pub Spares : Memory → Memory → Type 0
Spares m n =
    (f : ℕ) → used m.alloc.m_bmp f ≡ 1 → IsNoTable m f → (used n.alloc.m_bmp f ≡ 1) × IsNoTable n f

-- Only the table of the directory's last entry is the directory.
pub table-ne-root :
    (m : Memory) (i : ℕ)
    → IsPaged m
    → i < 1023
    → dir_entry m.paging i % 2 ≡ 1
    → table_frame m.paging i ≢ m.paging.pdbr / 4096
table-ne-root m i p h present e = omega (
  arith,
  p.distinct i 1023 (omega arith) (omega arith) present p.self_present (e ∙ sym p.self_frame),
)

-- A write into a table that is not the directory changes the one translation that it serves.
pub translate-set_table_entry :
    (v : Paging) (i j x a : ℕ)
    → dir_entry v i % 2 ≡ 1
    → table_frame v i ≢ v.pdbr / 4096
    → (dir_entry v (a / 0x400000) % 2 ≡ 1
        → table_frame v (a / 0x400000) ≡ table_frame v i
        → a / 0x400000 ≡ i)
    → translate (set_table_entry v i j x) a ≡ (
        if a / 0x400000 == i && a / 0x1000 % 1024 == j
        then (if x % 2 == 1 then some (x / 4096 * 4096 + a % 4096) else none)
        else translate v a)
unfolding translate
translate-set_table_entry v i j x a present other only = ground arith

-- A directory with a new table entered.
abbrev pub entered : Paging → ℕ → ℕ → Paging
entered v i e = clear_table (set_dir_entry v i e) i

dir_entry-set : (v : Paging) (i e : ℕ) → dir_entry (set_dir_entry v i e) i ≡ e
dir_entry-set v i e = ground arith

pub dir_entry-entered :
    (v : Paging) (i e k : ℕ)
    → e / 4096 ≢ v.pdbr / 4096
    → dir_entry (entered v i e) k ≡ (if k == i then e else dir_entry v k)
dir_entry-entered v i e k root = ground (arith, dir_entry-set v i e)

pub frames-entered :
    (v : Paging) (i e f j : ℕ)
    → f ≢ v.pdbr / 4096
    → (entered v i e).frames f j ≡ (if f == e / 4096 then 0 else v.frames f j)
frames-entered v i e f j root = ground (arith, dir_entry-set v i e)

-- Entering a table in a frame that nothing else uses maps nothing.
pub translate-entered :
    (v : Paging) (i e a : ℕ)
    → dir_entry v i % 2 ≡ 0
    → e / 4096 ≢ v.pdbr / 4096
    → (dir_entry v (a / 0x400000) % 2 ≡ 1
        → (table_frame v (a / 0x400000) ≢ e / 4096)
          × (table_frame v (a / 0x400000) ≢ v.pdbr / 4096))
    → translate (entered v i e) a ≡ translate v a
unfolding translate
translate-entered v i e a absent root fresh = ground (
  arith,
  dir_entry-entered v i e (a / 0x400000) root,
  frames-entered v i e (e / 4096) (a / 0x1000 % 1024) root,
  frames-entered v i e (table_frame v (a / 0x400000)) (a / 0x1000 % 1024),
)
