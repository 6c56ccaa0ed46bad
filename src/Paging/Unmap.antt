-- ===== src/Paging/Unmap.antt =====
-- `vmmngr_unmap_page` of kernel/arch/i386/memory/memory_virt.c.
use missy_micro.Common.{ℕ, ◌+◌, ◌*◌, ◌/◌, ◌%◌, ◌^◌, ◌<◌, ◌≤◌, ◌≡◌, refl, sym}
use missy_micro.Common.{◌∙◌, arith}
use missy_micro.Common.{◌==◌, if◌then◌else◌, Option, none, some, true, false}
use missy_micro.Common.{Bool-cases, inl, inr}
use missy_micro.Paging.{Memory, PgInf, dir_entry, table_entry}
use missy_micro.Paging.{set_table_entry, is_present, unmap_in_table}
use missy_micro.Paging.{drop_empty_table, vmmngr_unmap_page}
use missy_micro.Paging.Entries.{is_present_lem, bit_and_page}
use missy_micro.Paging.Walk.{translate, IsPaged, table-ne-root}
use missy_micro.Paging.Walk.{translate-set_table_entry}
use missy_micro.Paging.Kept.{set_table_entry-IsPaged, dir_entry-set_table_entry, reload_lem}
use missy_micro.Paging.Map.{dir_index, table_index, pgidx-eq}
use missy_micro.Paging.Drop.{drop_lem, drop-Spares}
use missy_micro.Paging.Walk.{Spares}

-- The page of an address that the walk finds, and 0 where it faults.
abbrev pub page_of : Option ℕ → ℕ
page_of none = 0
page_of (some q) = q / 4096 * 4096

-- `n` is `m` with the page of `virt` unmapped.
pub record IsUnmapped (m n : Memory) (virt : ℕ) : Type 0 where
  pub paged : IsPaged n
  pub cost : m.alloc.free_blocks ≤ n.alloc.free_blocks
  pub spares : Spares m n
  pub walks :
      (a : ℕ)
      → a / 0x400000 < 1023
      → translate n.paging a ≡ (if a / 4096 == virt / 4096 then none else translate m.paging a)

module _ (m : Memory) (virt : ℕ) (p : IsPaged m) (words : (f i : ℕ) → m.paging.frames f i < 2 ^ 32)
    (user : virt < 0xffc00000) where
  abbrev here : PgInf
  here = record { ptable = dir_index virt; page = table_index virt }

  abbrev cleared : Memory
  cleared = record m { paging = set_table_entry m.paging (dir_index virt) (table_index virt) 0 }

  IsUnmapped-absent :
      dir_entry m.paging (dir_index virt) % 2 ≡ 0
      → (page_of (translate m.paging virt) ≡ 0) × IsUnmapped m m virt
  unfolding translate
  IsUnmapped-absent e = (
    ground arith,
    record {
      paged = p;
      cost = omega arith;
      spares = λ f given off. (given, off);
      walks = λ a h. unfold translate in ground arith;
    },
  )

  module _ (present : dir_entry m.paging (dir_index virt) % 2 ≡ 1) where
    abbrev entry : ℕ
    entry = table_entry m.paging (dir_index virt) (table_index virt)

    mapped_walk :
        is_present entry ≡ true → translate m.paging virt ≡ some (entry / 4096 * 4096 + virt % 4096)
    unfolding translate
    mapped_walk mapped = ground (arith, present, is_present_lem entry)

    free_walk : is_present entry ≡ false → translate m.paging virt ≡ none
    unfolding translate
    free_walk free = ground (arith, is_present_lem entry)

    cleared-IsUnmapped : IsUnmapped m cleared virt
    cleared-IsUnmapped =
        let root = table-ne-root m (dir_index virt) p (omega arith) present in
        record {
          paged =
              set_table_entry-IsPaged m (dir_index virt) (table_index virt) 0 p (omega arith)
                present root;
          cost = omega arith;
          spares = λ f given off. (
            given,
            λ k lt e. ground (
              arith,
              off k lt,
              dir_entry-set_table_entry m.paging (dir_index virt) (table_index virt) 0 k root,
            ),
          );
          walks = λ a h. ground (
            arith,
            translate-set_table_entry m.paging (dir_index virt) (table_index virt) 0 a present root
                (λ ea same.
                  p.distinct (a / 0x400000) (dir_index virt) (omega arith) (omega arith) ea present
                    same),
          );
        }

    same_page :
        (a : ℕ)
        → a / 4096 ≡ virt / 4096
        → translate m.paging virt ≡ none
        → translate m.paging a ≡ none
    same_page a e h =
        let i : a / 0x400000 ≡ dir_index virt = omega arith in
        let j : a / 0x1000 % 1024 ≡ table_index virt = omega arith in
        unfold translate in rw (i, j) (ground arith)

    kept-IsUnmapped : is_present entry ≡ false → IsUnmapped m m virt
    kept-IsUnmapped free = record {
      paged = p;
      cost = omega arith;
      spares = λ f given off. (given, off);
      walks = λ a h. ground (arith, same_page a, free_walk free);
    }

    -- What `unmap_in_table` returns, and the state it leaves.
    in_table :
        let (phys, v) = unmap_in_table m.paging here in
        (phys ≡ page_of (translate m.paging virt))
        × (dir_entry v (dir_index virt) ≡ dir_entry m.paging (dir_index virt))
        × IsUnmapped m (record m { paging = v }) virt
    unfolding unmap_in_table
    in_table = elim (Bool-cases (is_present entry)) [
      | inl mapped ↦
          rw (mapped, mapped_walk mapped, bit_and_page entry (words _ _))
            (
              omega arith,
              dir_entry-set_table_entry m.paging (dir_index virt) (table_index virt) 0
                  (dir_index virt) (table-ne-root m (dir_index virt) p (omega arith) present),
              cleared-IsUnmapped,
            )
      | inr free ↦ rw (free, free_walk free) (refl, refl, kept-IsUnmapped free)
    ]

-- With the page tables in order and every word of memory below 2 ^ 32, `vmmngr_unmap_page` of
-- an address below the window of the page tables returns the address of the page that was
-- mapped there, or 0 if none was; afterwards no address of the page is mapped, every other
-- address below the window goes where it went before, no block that was given out and held no
-- table is given back or becomes one, and the tables are in order, also when a table was left
-- without entries and given back to the block allocator.
pub vmmngr_unmap_page_lem :
    (m : Memory) (virt : ℕ)
    → IsPaged m
    → ((f i : ℕ) → m.paging.frames f i < 2 ^ 32)
    → virt < 0xffc00000
    → let (phys, n) = vmmngr_unmap_page m virt in
      (phys ≡ page_of (translate m.paging virt)) × IsUnmapped m n virt
unfolding vmmngr_unmap_page
vmmngr_unmap_page_lem m virt p words user =
    let i = dir_index virt in
    rw (pgidx-eq virt (omega arith)) (elim (Bool-cases (is_present (dir_entry m.paging i))) [
      | inl presence ↦
          let present : dir_entry m.paging i % 2 ≡ 1 =
            ground (arith, presence, is_present_lem (dir_entry m.paging i)) in
          let (phys, dir, u) = in_table m virt p words user present in
          let v = (unmap_in_table m.paging (here m virt p words user)).1 in
          let dropped =
            drop_lem (record m { paging = v }) i u.paged (omega arith) (rw dir (words _ _))
              (rw dir present) in
          rw
            (
              presence,
              reload_lem (drop_empty_table (record m { paging = v }) i).paging dropped.0.root,
            )
            (
              phys,
              record {
                paged = dropped.0;
                cost = omega (arith, u.cost, dropped.2);
                spares = λ f given off.
                    let (given', off') = u.spares f given off in
                    drop-Spares (record m { paging = v }) i u.paged (omega arith)
                      (rw dir (words _ _)) (rw dir present) f given' off';
                walks = λ a h. dropped.1 a h ∙ u.walks a h;
              },
            )
      | inr absence ↦
          let absent : dir_entry m.paging i % 2 ≡ 0 =
            ground (arith, absence, is_present_lem (dir_entry m.paging i)) in
          let (none_mapped, u) = IsUnmapped-absent m virt p words user absent in
          rw (absence, reload_lem m.paging p.root) (sym none_mapped, u)
    ])
