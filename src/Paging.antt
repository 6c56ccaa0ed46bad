-- ===== src/Paging.antt =====
-- kernel/arch/i386/memory/memory_virt.c: mapping pages into the active address space.
-- The file reaches the page directory and the page tables through the directory's last entry,
-- which maps it to itself: 0xfffff000 is the directory, and 0xffc00000 + 0x1000 * i the table of
-- entry i. Physical memory is an argument of the state, a frame of 1024 words for each number, so
-- such an access is one to the frame that the directory's entry names. This holds where the last
-- entry does map the directory, which the invariant of the page tables in `Walk` includes: a page
-- fault is not modelled. The processor's cache of
-- translations is not modelled: each function reloads CR3 before it returns.
pub mod Entries
pub mod Walk
pub mod Kept
pub mod Map
pub mod Spaces
pub mod Calls
pub mod Drop
pub mod Unmap
pub mod Examples
use missy_micro.Common.{ℕ, zero, suc, ◌+◌, ◌*◌, ◌/◌, ◌%◌, ◌^◌, bit_and, bit_or}
use missy_micro.Common.{Bool, ◌==◌, if◌then◌else◌, update, not}
use missy_micro.Balloc.{Balloc, balloc_get, balloc_free}

abbrev pub ptable_size : ℕ
ptable_size = 0x400000

abbrev pub block_size : ℕ
block_size = 0x1000

-- `frames f i` is word `i` of the physical frame whose address is `4096 * f`. `pdbr` is CR3, and
-- `pdir_physical` the static variable; both hold the address of a frame.
pub record Paging : Type 0 where
  pub frames : ℕ → ℕ → ℕ
  pub pdbr : ℕ
  pub pdir_physical : ℕ

-- The block allocator and the address space, which `vmmngr_map_page` changes together.
pub record Memory : Type 0 where
  pub alloc : Balloc
  pub paging : Paging

-- `struct pg_inf`
pub record PgInf : Type 0 where
  pub ptable : ℕ
  pub page : ℕ

-- The `0` and the `-1` of functions that return nothing else.
pub data Status : Type 0 where
  ok failed : Status

unfoldable pub i386_virtual_to_pgidx : ℕ → PgInf
i386_virtual_to_pgidx virt =
    let addr = bit_and virt 0xfffff000 in
    record { ptable = addr / ptable_size; page = addr % ptable_size / block_size }

-- `pdir_virtual[i]`
abbrev pub dir_entry : Paging → ℕ → ℕ
dir_entry v i = v.frames (v.pdbr / 4096) i

-- The frame of the table at `0xffc00000 + i * 0x1000`, and its entries.
abbrev pub table_frame : Paging → ℕ → ℕ
table_frame v i = dir_entry v i / 4096

abbrev pub table_entry : Paging → ℕ → ℕ → ℕ
table_entry v i j = v.frames (table_frame v i) j

abbrev pub write_frame : Paging → ℕ → ℕ → ℕ → Paging
write_frame v f i x = record v { frames = update v.frames f (update (v.frames f) i x) }

-- `pdir_virtual[i] = x`
abbrev pub set_dir_entry : Paging → ℕ → ℕ → Paging
set_dir_entry v i x = write_frame v (v.pdbr / 4096) i x

-- `p_table[j] = x` for the table of entry `i`
abbrev pub set_table_entry : Paging → ℕ → ℕ → ℕ → Paging
set_table_entry v i j x = write_frame v (table_frame v i) j x

-- `memset (ptable_virt, 0x0, I386_ENTRIES_PER_PTABLE*4)`, all the words of the frame. The kernel is
-- built with -fbuiltin, so this is the compiler's `memset`, not the one of libc/string/memset.c.
abbrev pub clear_table : Paging → ℕ → Paging
clear_table v i = record v { frames = update v.frames (table_frame v i) (λ j. 0) }

-- `i386_set_pdbr (pdir_physical)`
abbrev pub reload : Paging → Paging
reload v = record v { pdbr = v.pdir_physical }

unfoldable pub is_present : ℕ → Bool
is_present e = not (bit_and e 1 == 0)

unfoldable pub map_in_table : Memory → ℕ → PgInf → Status × Memory
map_in_table m phys pg =
    if is_present (table_entry m.paging pg.ptable pg.page) then (Status.failed, m) else (
      Status.ok,
      record m { paging = reload (set_table_entry m.paging pg.ptable pg.page (bit_or phys 3)) },
    )

-- The address that `balloc_get` returns is used without a test for NULL.
unfoldable pub map_in_new_table : Memory → ℕ → PgInf → Status × Memory
map_in_new_table m phys pg =
    let (ptable_phys, alloc) = balloc_get m.alloc in
    let entered = set_dir_entry m.paging pg.ptable (bit_or ptable_phys 3) in
    let empty = clear_table entered pg.ptable in
    let filled = set_table_entry empty pg.ptable pg.page (bit_or phys 3) in
    (Status.ok, record { alloc = alloc; paging = reload filled })

unfoldable pub vmmngr_map_page : Memory → ℕ → ℕ → Status × Memory
vmmngr_map_page m phys virt =
    let pg = i386_virtual_to_pgidx virt in
    if is_present (dir_entry m.paging pg.ptable)
    then map_in_table m phys pg
    else map_in_new_table m phys pg

-- The `for` loop of `vmmngr_unmap_page`: is one of the `left` entries from `i` on present?
unfoldable pub any_present : (ℕ → ℕ) → ℕ → ℕ → Bool
any_present t i zero = Bool.false
any_present t i (suc left) =
    let rest = any_present t (i + 1) left in if is_present (t i) then Bool.true else rest

-- Unmaps the page in its table, and returns the address that was mapped.
unfoldable pub unmap_in_table : Paging → PgInf → ℕ × Paging
unmap_in_table v pg =
    let e = table_entry v pg.ptable pg.page in
    if is_present e then (bit_and e 0xfffff000, set_table_entry v pg.ptable pg.page 0) else (0, v)

-- Gives a table without entries back to the block allocator.
unfoldable pub drop_empty_table : Memory → ℕ → Memory
drop_empty_table m i =
    if any_present (m.paging.frames (table_frame m.paging i)) 0 1024 then m else record {
      alloc = balloc_free m.alloc (bit_and (dir_entry m.paging i) 0xfffff000);
      paging = set_dir_entry m.paging i 0;
    }

unfoldable pub vmmngr_unmap_page : Memory → ℕ → ℕ × Memory
vmmngr_unmap_page m virt =
    let pg = i386_virtual_to_pgidx virt in
    let (phys, v) = unmap_in_table m.paging pg in
    let dropped = drop_empty_table (record m { paging = v }) pg.ptable in
    if is_present (dir_entry m.paging pg.ptable)
    then (phys, record dropped { paging = reload dropped.paging })
    else (0, record m { paging = reload m.paging })

-- `vmmngr_switch_address_space`: CR3 is loaded with the directory, unless that is NULL.
unfoldable pub vmmngr_switch_address_space : Paging → ℕ → Status × Paging
vmmngr_switch_address_space v p =
    if p == 0 then (Status.failed, v) else (Status.ok, record v { pdbr = p })
