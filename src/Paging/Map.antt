-- ===== src/Paging/Map.antt =====
-- `vmmngr_map_page` of kernel/arch/i386/memory/memory_virt.c.
use missy_micro.Common.{ℕ, ◌+◌, ◌/◌, ◌%◌, ◌^◌, ◌≤◌, ◌<◌, ◌≡◌, ◌≢◌, refl, arith}
use missy_micro.Common.{◌==◌, if◌then◌else◌, none, some, true, false}
use missy_micro.Common.{Bool-cases, inl, inr}
use missy_micro.Balloc.{Balloc, balloc_get}
use missy_micro.Balloc.Bitmap.{used}
use missy_micro.Balloc.Alloc.{IsGranted, balloc_get_lem}
use missy_micro.Paging.{Memory, PgInf, Status, dir_entry, table_entry}
use missy_micro.Paging.{set_table_entry, is_present, map_in_table, map_in_new_table}
use missy_micro.Paging.{vmmngr_map_page, i386_virtual_to_pgidx}
use missy_micro.Paging.Entries.{is_present_lem, pgidx_lem, bit_or_three}
use missy_micro.Paging.Walk.{
  translate, IsPaged, IsNoTable, table-ne-root, translate-set_table_entry,
}
use missy_micro.Paging.Walk.{entered, dir_entry-entered, translate-entered}
use missy_micro.Paging.Kept.{
  dir_entry-set_table_entry, reload_lem, set_table_entry-IsPaged, entered-IsPaged,
}

-- What the three outcomes of `vmmngr_map_page` share: the invariant holds again, the walk goes
-- to `phys` in the page of `virt` and elsewhere where it went before, and at most one block of
-- memory was taken. No block that was given out before became a table.
pub record IsMapped (m n : Memory) (phys virt : ℕ) : Type 0 where
  pub paged : IsPaged n
  pub cost : m.alloc.free_blocks ≤ n.alloc.free_blocks + 1
  pub walks :
      (a : ℕ)
      → a / 0x400000 < 1023
      → translate n.paging a
        ≡ (if a / 4096 == virt / 4096 then some (phys + a % 4096) else translate m.paging a)
  pub total : n.alloc.total_blocks ≡ m.alloc.total_blocks
  pub given : (f : ℕ) → used m.alloc.m_bmp f ≡ 1 → used n.alloc.m_bmp f ≡ 1
  pub tables : (f : ℕ) → used m.alloc.m_bmp f ≡ 1 → IsNoTable m f → IsNoTable n f

abbrev pub dir_index : ℕ → ℕ
dir_index virt = virt / 0x400000

abbrev pub table_index : ℕ → ℕ
table_index virt = virt / 0x1000 % 1024

IsMapped-in_table :
    (m : Memory) (phys virt : ℕ)
    → IsPaged m
    → phys % 4096 ≡ 0
    → dir_index virt < 1023
    → dir_entry m.paging (dir_index virt) % 2 ≡ 1
    → IsMapped m
        (record m {
          paging = set_table_entry m.paging (dir_index virt) (table_index virt) (phys + 3);
        })
        phys
        virt
IsMapped-in_table m phys virt p page user present =
    let root = table-ne-root m (dir_index virt) p user present in
    record {
      paged =
          set_table_entry-IsPaged m (dir_index virt) (table_index virt) (phys + 3) p (omega arith)
            present root;
      cost = omega arith;
      total = refl;
      given = λ f u. u;
      tables = λ f u no i h e. ground (
        arith,
        no i h,
        dir_entry-set_table_entry m.paging (dir_index virt) (table_index virt) (phys + 3) i root,
      );
      walks = λ a h. ground (
        arith,
        translate-set_table_entry m.paging (dir_index virt) (table_index virt) (phys + 3) a present
            root
            (λ ea same.
              p.distinct (dir_index a) (dir_index virt) (omega arith) (omega arith) ea present
                same),
      );
    }

-- The state in which `map_in_new_table` has entered the empty table.
abbrev with_table : Memory → ℕ → ℕ → Balloc → Memory
with_table m i q alloc = record { alloc = alloc; paging = entered m.paging i (q + 3) }

IsMapped-in_new_table :
    (m : Memory) (phys virt b q : ℕ) (alloc : Balloc)
    → IsPaged m
    → phys % 4096 ≡ 0
    → dir_index virt < 1023
    → dir_entry m.paging (dir_index virt) % 2 ≡ 0
    → IsGranted m.alloc b q alloc
    → IsMapped m
        (record {
          alloc = alloc;
          paging =
              set_table_entry
                (entered m.paging (dir_index virt) (q + 3))
                (dir_index virt)
                (table_index virt)
                (phys + 3);
        })
        phys
        virt
IsMapped-in_new_table m phys virt b q alloc p page user absent g =
    let i = dir_index virt in
    let paged = entered-IsPaged m i (q + 3) b q alloc p user absent g odd block in
    let last = IsMapped-in_table (with_table m i q alloc) phys virt paged page user present in
    record {
      paged = last.paged;
      cost = omega (arith, g.count);
      total = g.total;
      given = λ f u. ground (arith, u, g.digits f);
      tables = λ f u no. last.tables f (ground (arith, u, g.digits f)) (λ i h e. ground (
        arith,
        no i h,
        g.first.free,
        block,
        dir_entry-entered m.paging (dir_index virt) (q + 3) i new_root,
      ));
      walks = λ a h. ground (arith, last.walks a h, before a h);
    }
  where
    odd : (q + 3) % 2 ≡ 1
    odd = omega (arith, g.address)

    block : (q + 3) / 4096 ≡ b
    block = omega (arith, g.address)

    new_root : (q + 3) / 4096 ≢ m.paging.pdbr / 4096
    new_root c =
        ground (arith, block, p.owned 1023 (omega arith) p.self_present, p.self_frame, g.first.free)

    present : dir_entry (entered m.paging (dir_index virt) (q + 3)) (dir_index virt) % 2 ≡ 1
    present =
        ground (
          arith,
          odd,
          dir_entry-entered m.paging (dir_index virt) (q + 3) (dir_index virt) new_root,
        )

    before :
        (a : ℕ)
        → dir_index a < 1023
        → translate (entered m.paging (dir_index virt) (q + 3)) a ≡ translate m.paging a
    before a h = translate-entered m.paging (dir_index virt) (q + 3) a absent new_root (λ e. (
      λ c. ground (arith, block, p.owned (dir_index a) (omega arith) e, g.first.free),
      table-ne-root m (dir_index a) p h e,
    ))

-- `vmmngr_map_page` of a 32-bit address that is already mapped fails, and changes nothing.
pub vmmngr_map_page_twice :
    (m : Memory) (phys virt : ℕ)
    → virt < 2 ^ 32
    → translate m.paging virt ≢ none
    → vmmngr_map_page m phys virt ≡ (Status.failed, m)
unfolding vmmngr_map_page map_in_table translate
vmmngr_map_page_twice m phys virt fits mapped = ground (
  arith,
  pgidx_lem virt fits,
  is_present_lem (dir_entry m.paging (dir_index virt)),
  is_present_lem (table_entry m.paging (dir_index virt) (table_index virt)),
)

pub pgidx-eq :
    (virt : ℕ)
    → virt < 2 ^ 32
    → i386_virtual_to_pgidx virt ≡ record { ptable = dir_index virt; page = table_index virt }
pgidx-eq virt fits = ground (arith, pgidx_lem virt fits)

pub map_in_table_lem :
    (m : Memory) (phys : ℕ) (pg : PgInf)
    → m.paging.pdbr ≡ m.paging.pdir_physical
    → phys % 4096 ≡ 0
    → is_present (table_entry m.paging pg.ptable pg.page) ≡ false
    → map_in_table m phys pg
      ≡ (Status.ok, record m { paging = set_table_entry m.paging pg.ptable pg.page (phys + 3) })
unfolding map_in_table
map_in_table_lem m phys pg root page absent = rw (
  absent,
  bit_or_three phys page,
  reload_lem (set_table_entry m.paging pg.ptable pg.page (phys + 3)) root,
)

pub map_in_new_table_lem :
    (m : Memory) (phys : ℕ) (pg : PgInf)
    → m.paging.pdbr ≡ m.paging.pdir_physical
    → phys % 4096 ≡ 0
    → (balloc_get m.alloc).0 % 4096 ≡ 0
    → map_in_new_table m phys pg ≡ (
      Status.ok,
      record {
        alloc = (balloc_get m.alloc).1;
        paging =
            set_table_entry
              (entered m.paging pg.ptable ((balloc_get m.alloc).0 + 3))
              pg.ptable
              pg.page
              (phys + 3);
      },
    )
unfolding map_in_new_table
map_in_new_table_lem m phys pg root page aligned =
    let v = entered m.paging pg.ptable ((balloc_get m.alloc).0 + 3) in
    rw (
      bit_or_three phys page,
      bit_or_three (balloc_get m.alloc).0 aligned,
      reload_lem (set_table_entry v pg.ptable pg.page (phys + 3)) root,
    )

-- With the page tables in order, and a block of memory free, `vmmngr_map_page` of an unmapped
-- address below the window of the page tables to a page-aligned phys succeeds: afterwards every
-- address in the page of virt is walked to its place in the page at phys, every other address
-- below the window goes where it went before, the tables are in order and at most one block was
-- taken, also when a new table was needed.
pub vmmngr_map_page_lem :
    (m : Memory) (phys virt : ℕ)
    → IsPaged m
    → 0 < m.alloc.free_blocks
    → phys % 4096 ≡ 0
    → virt < 0xffc00000
    → translate m.paging virt ≡ none
    → let (status, n) = vmmngr_map_page m phys virt in (status ≡ Status.ok) × IsMapped m n phys virt
unfolding vmmngr_map_page
vmmngr_map_page_lem m phys virt p some_free page user unmapped =
    let pg : PgInf = record { ptable = dir_index virt; page = table_index virt } in
    rw (pgidx-eq virt (omega arith))
      (elim (Bool-cases (is_present (dir_entry m.paging (dir_index virt)))) [
        | inl present ↦
            rw (present, map_in_table_lem m phys pg p.root page (empty present))
              (
                refl,
                IsMapped-in_table m phys virt p page (omega arith)
                    (ground (arith, present, is_present_lem (dir_entry m.paging (dir_index virt)))),
              )
        | inr absent ↦
            let (b, g) = balloc_get_lem m.alloc p.accounted p.zero_used some_free in
            rw (absent, map_in_new_table_lem m phys pg p.root page (omega (arith, g.address)))
              (
                refl,
                IsMapped-in_new_table m phys virt b (balloc_get m.alloc).0 (balloc_get m.alloc).1 p
                    page (omega arith)
                    (ground (arith, absent, is_present_lem (dir_entry m.paging (dir_index virt))))
                    g,
              )
      ])
  where
    empty :
        is_present (dir_entry m.paging (dir_index virt)) ≡ true
        → is_present (table_entry m.paging (dir_index virt) (table_index virt)) ≡ false
    empty present =
        unfold translate in
        ground (
          arith,
          unmapped,
          is_present_lem (dir_entry m.paging (dir_index virt)),
          is_present_lem (table_entry m.paging (dir_index virt) (table_index virt)),
        )
