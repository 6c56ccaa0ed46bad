-- ===== src/Kernel/Apart.antt =====
-- What has to lie apart in memory while `kernel_early_init` runs. The model keeps the bytes of the
-- kernel's data, the bitmap and the page frames in memories of their own; where they have addresses
-- of their own, and no block that can be given out holds any of them, the program does so too.
use missy_micro.Common.{ℕ, ◌+◌, ◌-◌, ◌*◌, ◌/◌, ◌%◌, ◌≤◌, ◌<◌, ◌≡◌, ◌⊎◌, arith}
use missy_micro.Common.{List, [], ◌∷◌, Bool, true, leb, if◌then◌else◌, u32, sub32}
use missy_micro.Multiboot.Structs.{load16}
use missy_micro.Multiboot.Tags.{tag_at}
use missy_micro.Paging.{Paging, Memory, dir_entry, table_frame}
use missy_micro.Paging.Walk.{IsNoTable}
use missy_micro.Balloc.Bitmap.{used}
use missy_micro.Kernel.Space.{IsOffTables}
use missy_micro.Kernel.{BootSetting, Kernel}

-- The physical address of a byte of the kernel's region or of the first megabytes.
abbrev pub physical : ℕ → ℕ
physical a = if leb 0xc0000000 a then a - 0xbff00000 else a

-- The physical address of the bitmap, and its bytes.
abbrev pub bitmap_start : BootSetting → ℕ
bitmap_start e = sub32 (u32 (e.kernel_start + 4 * sub32 e.kernel_end e.kernel_start)) 0xbff00000

abbrev pub bitmap_bytes : ℕ → ℕ
bitmap_bytes total = 4 * (total / 32 + 1)

-- None of the `n` bytes at `a`, which are inside memory, is in a free block, in the bitmap or in a
-- table of the boot code.
abbrev pub IsSafe : BootSetting → Paging → (ℕ → Bool) → ℕ → ℕ → ℕ → Type 0
IsSafe e v kept total a n =
    (i : ℕ)
    → i < n
    → (physical (a + i) / 4096 < total)
      × (kept (physical (a + i) / 4096) ≡ true)
      × ((physical (a + i) < bitmap_start e)
          ⊎ (bitmap_start e + bitmap_bytes total ≤ physical (a + i)))
      × IsOffTables v (physical (a + i) / 4096)

-- The data that the kernel reads or writes while it starts, with the lengths: the loader's information
-- up to its last tag, the names and the literals, and what the search for the root descriptor reads,
-- where `at_start` is the memory when the loader's information is read, and `at_end` that of the search.
abbrev pub boot_data : BootSetting → Kernel → (ℕ → ℕ) → (ℕ → ℕ) → ℕ → ℕ → ℕ → List (ℕ × ℕ)
boot_data e k at_start at_end mb_inf tags letters =
    (mb_inf, tag_at at_start (u32 (mb_inf + 64)) tags + 8 - mb_inf)
    ∷ ((k.devices.char_devices 0).device_name, 255)
    ∷ (e.tty0, letters + 1)
    ∷ (e.list_name, 255)
    ∷ (e.empty, 1)
    ∷ (e.rsdp_signature, 9)
    ∷ (0x40e, 2)
    ∷ (load16 at_end 0x40e * 16, 1024)
    ∷ (0xa0000, 0x60000)
    ∷ []

abbrev pub AllSafe : BootSetting → Paging → (ℕ → Bool) → ℕ → List (ℕ × ℕ) → Type 0
AllSafe e v kept total [] = Unit
AllSafe e v kept total (r ∷ rs) = IsSafe e v kept total r.0 r.1 × AllSafe e v kept total rs

-- The bitmap lies above the first megabyte and inside memory, in reserved blocks, and the data is safe.
pub record IsApart (e : BootSetting) (k : Kernel) (at_start at_end : ℕ → ℕ) (kept : ℕ → Bool)
    (total mb_inf tags letters : ℕ) : Type 0 where
  pub bitmap_high : 0x100000 ≤ bitmap_start e
  pub bitmap_inside : bitmap_start e + bitmap_bytes total ≤ total * 4096
  pub bitmap : (i : ℕ) → i < bitmap_bytes total → kept ((bitmap_start e + i) / 4096) ≡ true
  pub data_safe :
      AllSafe e k.kspace.memory.paging kept total
        (boot_data e k at_start at_end mb_inf tags letters)

-- The block of the physical address is given out, and holds no table.
abbrev pub IsHeld : Memory → ℕ → Type 0
IsHeld m a = (used m.alloc.m_bmp (a / 4096) ≡ 1) × IsNoTable m (a / 4096)

abbrev pub AllHeld : Memory → List (ℕ × ℕ) → Type 0
AllHeld m [] = Unit
AllHeld m (r ∷ rs) = ((i : ℕ) → i < r.1 → IsHeld m (physical (r.0 + i))) × AllHeld m rs

-- What was reserved at the start and held no table still is held.
abbrev pub KeepsReserved : Paging → (ℕ → Bool) → ℕ → Memory → Type 0
KeepsReserved v kept total m =
    (f : ℕ)
    → f < total
    → kept f ≡ true
    → IsOffTables v f
    → (used m.alloc.m_bmp f ≡ 1) × IsNoTable m f

AllSafe-AllHeld :
    (e : BootSetting) (v : Paging) (kept : ℕ → Bool) (total : ℕ) (m : Memory) (rs : List (ℕ × ℕ))
    → KeepsReserved v kept total m
    → AllSafe e v kept total rs
    → AllHeld m rs
AllSafe-AllHeld e v kept total m [] keeps safe = tt
AllSafe-AllHeld e v kept total m (r ∷ rs) keeps (safe, more) = (
  λ i lt.
      let (inside, reserved, apart, off) = safe i lt in
      keeps (physical (r.0 + i) / 4096) inside reserved off,
  AllSafe-AllHeld e v kept total m rs keeps more,
)

-- Neither the blocks of the bitmap nor those of the data can be given out, and none is a table.
pub record IsIntact (e : BootSetting) (k : Kernel) (at_start at_end : ℕ → ℕ)
    (total mb_inf tags letters : ℕ) (m : Memory) : Type 0 where
  pub bitmap_held : (i : ℕ) → i < bitmap_bytes total → IsHeld m (bitmap_start e + i)
  pub data_held : AllHeld m (boot_data e k at_start at_end mb_inf tags letters)

pub IsApart-IsIntact :
    (e : BootSetting) (k : Kernel) (at_start at_end : ℕ → ℕ) (kept : ℕ → Bool)
    (total mb_inf tags letters : ℕ) (m : Memory)
    → ((i : ℕ)
        → i < 1024
        → dir_entry k.kspace.memory.paging i % 2 ≡ 1
        → table_frame k.kspace.memory.paging i < 256)
    → KeepsReserved k.kspace.memory.paging kept total m
    → IsApart e k at_start at_end kept total mb_inf tags letters
    → IsIntact e k at_start at_end total mb_inf tags letters m
IsApart-IsIntact e k at_start at_end kept total mb_inf tags letters m low keeps apart = record {
  bitmap_held = λ i lt.
      keeps ((bitmap_start e + i) / 4096) (omega (arith, apart.bitmap_inside, lt))
        (apart.bitmap i lt) (λ t ht et same. omega (arith, low t ht et, same, apart.bitmap_high));
  data_held =
      AllSafe-AllHeld e k.kspace.memory.paging kept total m
        (boot_data e k at_start at_end mb_inf tags letters) keeps apart.data_safe;
}
