-- ===== src/Paging/Kept.antt =====
-- What keeps the invariant of the page tables of memory_virt.c.
use missy_micro.Common.{ℕ, ◌/◌, ◌%◌, ◌<◌, ◌≡◌, ◌≢◌, arith}
use missy_micro.Common.{◌==◌, if◌then◌else◌}
use missy_micro.Balloc.{Balloc}
use missy_micro.Balloc.Alloc.{IsGranted}
use missy_micro.Paging.{Paging, Memory, dir_entry, table_frame}
use missy_micro.Paging.{reload}
use missy_micro.Paging.{set_table_entry}
use missy_micro.Paging.Walk.{IsPaged}
use missy_micro.Paging.Walk.{entered, dir_entry-entered}

pub reload_lem : (v : Paging) → v.pdbr ≡ v.pdir_physical → reload v ≡ v
reload_lem v e = ground arith

pub dir_entry-set_table_entry :
    (v : Paging) (i j x k : ℕ)
    → table_frame v i ≢ v.pdbr / 4096
    → dir_entry (set_table_entry v i j x) k ≡ dir_entry v k
dir_entry-set_table_entry v i j x k h = ground arith

-- A write into a table keeps the directory.
pub set_table_entry-IsPaged :
    (m : Memory) (i j x : ℕ)
    → IsPaged m
    → i < 1024
    → dir_entry m.paging i % 2 ≡ 1
    → table_frame m.paging i ≢ m.paging.pdbr / 4096
    → IsPaged (record m { paging = set_table_entry m.paging i j x })
set_table_entry-IsPaged m i j x p lt present h = record {
  accounted = p.accounted;
  zero_used = p.zero_used;
  root = p.root;
  self_present = rw (same 1023) p.self_present;
  self_frame = rw (same 1023) p.self_frame;
  owned = λ k lt e. rw (same k) (p.owned k lt (rw (same k) at e));
  distinct = λ k l hk hl ek el e.
      p.distinct k l hk hl (rw (same k) at ek) (rw (same l) at el) (rw (same k, same l) at e);
}
  where
    same : (k : ℕ) → dir_entry (set_table_entry m.paging i j x) k ≡ dir_entry m.paging k
    same k = dir_entry-set_table_entry m.paging i j x k h

-- Entering a table in a block that was just granted keeps the invariant.
pub entered-IsPaged :
    (m : Memory) (i e b : ℕ) (p : ℕ) (alloc : Balloc)
    → IsPaged m
    → i < 1023
    → dir_entry m.paging i % 2 ≡ 0
    → IsGranted m.alloc b p alloc
    → e % 2 ≡ 1
    → e / 4096 ≡ b
    → IsPaged (record { alloc = alloc; paging = entered m.paging i e })
entered-IsPaged m i e b p alloc v lt absent g odd block = record {
  accounted = g.accounted;
  zero_used = ground (arith, g.digits 0, v.zero_used);
  root = v.root;
  self_present = ground (arith, now 1023, v.self_present);
  self_frame = ground (arith, now 1023, v.self_frame);
  owned = λ k h present. ground (
    arith,
    now k,
    v.owned k,
    v.zero_used,
    g.first.free,
    g.first.below,
    g.total,
    g.digits (dir_entry (entered m.paging i e) k / 4096),
  );
  distinct = λ k l hk hl ek el same.
      ground (arith, now k, now l, v.distinct k l, v.owned k, v.owned l, g.first.free);
}
  where
    new_root : e / 4096 ≢ m.paging.pdbr / 4096
    new_root c =
        ground (arith, v.owned 1023 (omega arith) v.self_present, v.self_frame, g.first.free)

    now :
        (k : ℕ) → dir_entry (entered m.paging i e) k ≡ (if k == i then e else dir_entry m.paging k)
    now k = dir_entry-entered m.paging i e k new_root

-- A block that the allocator grants is none of the tables.
pub IsPaged-granted :
    (m : Memory) (b p : ℕ) (alloc : Balloc)
    → IsPaged m
    → IsGranted m.alloc b p alloc
    → IsPaged (record m { alloc = alloc })
IsPaged-granted m b p alloc v g = record {
  accounted = g.accounted;
  zero_used = ground (arith, g.digits 0, v.zero_used);
  root = v.root;
  self_present = v.self_present;
  self_frame = v.self_frame;
  owned = λ i h e. ground (arith, v.owned i h e, g.digits (table_frame m.paging i), g.total);
  distinct = v.distinct;
}
