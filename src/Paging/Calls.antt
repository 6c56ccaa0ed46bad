-- ===== src/Paging/Calls.antt =====
-- Any sequence of calls of `vmmngr_map_page` and `vmmngr_unmap_page`, against a map from pages.
use missy_micro.Common.{ℕ, ◌+◌, ◌/◌, ◌%◌, ◌^◌, ◌≤◌, ◌<◌, ◌≡◌, ◌≢◌, refl, arith, ap}
use missy_micro.Common.{◌∙◌, ◌==◌, if◌then◌else◌, Option, none, some, List, [], ◌∷◌, length}
use missy_micro.Common.{Option-cases, inl, inr}
use missy_micro.Paging.{Memory, Status, vmmngr_map_page, vmmngr_unmap_page, unmap_in_table}
use missy_micro.Paging.{drop_empty_table}
use missy_micro.Paging.Walk.{translate, IsPaged}
use missy_micro.Paging.Map.{vmmngr_map_page_lem, vmmngr_map_page_twice}
use missy_micro.Paging.Unmap.{page_of, vmmngr_unmap_page_lem}
use missy_micro.Paging.Spaces.Initialize.{IsWordMemory, vmmngr_map_page-IsWordMemory}

-- A call, and what it returns.
pub data Call : Type 0 where
  maps : (phys virt : ℕ) → Call
  unmaps : (virt : ℕ) → Call

pub data Reply : Type 0 where
  status : Status → Reply
  address : ℕ → Reply

abbrev call : Memory → Call → Reply × Memory
call m (Call.maps phys virt) = let (s, n) = vmmngr_map_page m phys virt in (Reply.status s, n)
call m (Call.unmaps virt) = let (phys, n) = vmmngr_unmap_page m virt in (Reply.address phys, n)

-- The replies of a sequence of calls, and the memory after it.
pub run : Memory → List Call → List Reply × Memory
run m [] = ([], m)
run m (c ∷ cs) = let (r, n) = call m c in let (rs, last) = run n cs in (r ∷ rs, last)

-- An address space: where each address goes. Mapping a page that is mapped fails; unmapping one
-- that is not returns 0.
abbrev pub Space : Type 0
Space = ℕ → Option ℕ

abbrev pub map_in_space : Space → ℕ → ℕ → Option ℕ → Reply × Space
map_in_space s phys virt none =
    (Reply.status Status.ok, λ a. if a / 4096 == virt / 4096 then some (phys + a % 4096) else s a)
map_in_space s phys virt (some p) = (Reply.status Status.failed, s)

abbrev pub in_space : Space → Call → Reply × Space
in_space s (Call.maps phys virt) = map_in_space s phys virt (s virt)
in_space s (Call.unmaps virt) =
    (Reply.address (page_of (s virt)), λ a. if a / 4096 == virt / 4096 then none else s a)

pub run_in_space : Space → List Call → List Reply × Space
run_in_space s [] = ([], s)
run_in_space s (c ∷ cs) =
    let (r, t) = in_space s c in let (rs, last) = run_in_space t cs in (r ∷ rs, last)

-- The calls go to addresses below the window, and map pages of 32-bit addresses.
abbrev pub Proper : List Call → Type 0
Proper [] = Unit
Proper (Call.maps phys virt ∷ cs) =
    (phys % 4096 ≡ 0) × (phys < 2 ^ 32) × (virt < 0xffc00000) × Proper cs
Proper (Call.unmaps virt ∷ cs) = (virt < 0xffc00000) × Proper cs

-- The tables are in order and show the space, below the window.
pub record Shows (m : Memory) (s : Space) : Type 0 where
  pub paged : IsPaged m
  pub words : IsWordMemory m.paging
  pub walks : (a : ℕ) → a / 0x400000 < 1023 → translate m.paging a ≡ s a

vmmngr_unmap_page-IsWordMemory :
    (m : Memory) (virt : ℕ)
    → IsWordMemory m.paging
    → IsWordMemory (vmmngr_unmap_page m virt).1.paging
unfolding vmmngr_unmap_page unmap_in_table drop_empty_table
vmmngr_unmap_page-IsWordMemory m virt words f j = ground (arith, words f j)

-- What one call keeps.
record IsStep (m : Memory) (c : Call) (to : Reply × Space) : Type 0 where
  pub reply : (call m c).0 ≡ to.0
  pub shows : Shows (call m c).1 to.1
  pub cost : m.alloc.free_blocks ≤ (call m c).1.alloc.free_blocks + 1

maps-IsStep :
    (m : Memory) (s : Space) (phys virt : ℕ)
    → Shows m s
    → 0 < m.alloc.free_blocks
    → phys % 4096 ≡ 0
    → phys < 2 ^ 32
    → virt < 0xffc00000
    → IsStep m (Call.maps phys virt) (map_in_space s phys virt (s virt))
maps-IsStep m s phys virt h free page fits user =
    let here = h.walks virt (omega arith) in
    elim (Option-cases (s virt)) [
      | inl empty ↦
          let (succeeds, n) =
            vmmngr_map_page_lem m phys virt h.paged free page user (here ∙ empty) in
          rw empty (record {
            reply = ap Reply.status succeeds;
            shows = record {
              paged = n.paged;
              words =
                  vmmngr_map_page-IsWordMemory m phys virt h.paged free page fits (omega arith)
                    h.words;
              walks = λ a low. ground (arith, n.walks a low, h.walks a low);
            };
            cost = n.cost;
          })
      | inr (p, taken) ↦
          let there : translate m.paging virt ≢ none = λ e. ground (arith, here, taken, e) in
          let same = vmmngr_map_page_twice m phys virt (omega arith) there in
          let kept : (vmmngr_map_page m phys virt).1 ≡ m = ap (λ (r : Status × Memory). r.1) same in
          rw taken (record {
            reply = ap (λ (r : Status × Memory). Reply.status r.0) same;
            shows = rw kept h;
            cost = rw kept (omega arith);
          })
    ]

unmaps-IsStep :
    (m : Memory) (s : Space) (virt : ℕ)
    → Shows m s
    → virt < 0xffc00000
    → IsStep m (Call.unmaps virt) (in_space s (Call.unmaps virt))
unmaps-IsStep m s virt h user =
    let (phys, n) = vmmngr_unmap_page_lem m virt h.paged h.words user in
    record {
      reply = ap Reply.address (phys ∙ ap page_of (h.walks virt (omega arith)));
      shows = record {
        paged = n.paged;
        words = vmmngr_unmap_page-IsWordMemory m virt h.words;
        walks = λ a low. ground (arith, n.walks a low, h.walks a low);
      };
      cost = omega (arith, n.cost);
    }

-- One call before the others.
after :
    (m : Memory) (s : Space) (c : Call) (cs : List Call)
    → IsStep m c (in_space s c)
    → ((run (call m c).1 cs).0 ≡ (run_in_space (in_space s c).1 cs).0)
      × Shows (run (call m c).1 cs).1 (run_in_space (in_space s c).1 cs).1
    → ((run m (c ∷ cs)).0 ≡ (run_in_space s (c ∷ cs)).0)
      × Shows (run m (c ∷ cs)).1 (run_in_space s (c ∷ cs)).1
unfolding run run_in_space
after m s c cs one (same, shows) = (cc (one.reply, same), shows)

-- With the page tables in order, every word of memory below 2 ^ 32, the walk going where an
-- address space s says below the window of the page tables, and as many free blocks as calls,
-- any sequence of calls of `vmmngr_map_page` with page-aligned 32-bit addresses and of
-- `vmmngr_unmap_page`, at addresses below the window, returns what the same calls return on s,
-- where mapping a page that is mapped fails and changes nothing, and unmapping returns the page
-- that was mapped or 0; and afterwards the tables are in order and the walk goes where the
-- changed address space says.
pub run-run_in_space :
    (m : Memory) (s : Space) (cs : List Call)
    → Shows m s
    → Proper cs
    → length cs ≤ m.alloc.free_blocks
    → ((run m cs).0 ≡ (run_in_space s cs).0) × Shows (run m cs).1 (run_in_space s cs).1
unfolding run run_in_space
run-run_in_space m s [] h ok le = (refl, h)
run-run_in_space m s (Call.maps phys virt ∷ cs) h (page, fits, user, ok) le =
    let one = maps-IsStep m s phys virt h (omega arith) page fits user in
    after m s (Call.maps phys virt) cs one (
      run-run_in_space (call m (Call.maps phys virt)).1 (in_space s (Call.maps phys virt)).1 cs
        one.shows ok (omega (arith, one.cost)))
run-run_in_space m s (Call.unmaps virt ∷ cs) h (user, ok) le =
    let one = unmaps-IsStep m s virt h user in
    after m s (Call.unmaps virt) cs one (
      run-run_in_space (call m (Call.unmaps virt)).1 (in_space s (Call.unmaps virt)).1 cs one.shows
        ok (omega (arith, one.cost)))
