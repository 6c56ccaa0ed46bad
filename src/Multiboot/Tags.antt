-- ===== src/Multiboot/Tags.antt =====
-- The search for a tag ends at the tag that ends the list.
use missy_micro.Common.{
  ℕ, zero, suc, ◌+◌, ◌*◌, ◌/◌, bit_and, ◌≡◌, ◌<◌, ◌≢◌, refl, ap, ◌∙◌, arith, ◌⊎◌, inl, inr,
}
use missy_micro.Common.{u32}
use missy_micro.Common.{Bool-cases, some, ◌==◌, ==_ne, ==_iff, true, false, ltb, ltb→lt}
use missy_micro.Bits.Masks.{bit_and_high}
use missy_micro.Terminal.{Terminal}
use missy_micro.Multiboot.Structs.{multiboot2_tag, multiboot2_tag_memsz}
use missy_micro.Multiboot.{Multiboot, Status, next_tag, find_tag_from, mboot2_find_tag}
use missy_micro.Multiboot.{found_memsz, found_mmap, multiboot_data_init}

-- The tag after one: tags lie at multiples of 8 bytes from each other.
abbrev pub after_tag : (ℕ → ℕ) → ℕ → ℕ
after_tag m p = u32 (p + u32 ((multiboot2_tag m p).size + 7) / 8 * 8)

next_tag-after_tag : (m : ℕ → ℕ) (p : ℕ) → next_tag m p ≡ after_tag m p
unfolding next_tag
next_tag-after_tag m p =
    let rounded = bit_and_high 3 29 (u32 ((multiboot2_tag m p).size + 7)) in
    let aligned : bit_and (u32 ((multiboot2_tag m p).size + 7)) 0xfffffff8
        ≡ u32 ((multiboot2_tag m p).size + 7) / 8 * 8 =
      omega (arith, rounded) in
    ap (λ n. u32 (p + n)) aligned

-- The tag after `n` others.
abbrev pub tag_at : (ℕ → ℕ) → ℕ → ℕ → ℕ
tag_at m p zero = p
tag_at m p (suc n) = tag_at m (after_tag m p) n

abbrev pub kind_at : (ℕ → ℕ) → ℕ → ℕ → ℕ
kind_at m p i = (multiboot2_tag m (tag_at m p i)).kind

-- `n` tags and the one that ends the list.
pub record IsTagList (m : ℕ → ℕ) (p n : ℕ) : Type 0 where
  pub ends : kind_at m p n ≡ 0
  pub goes_on : (i : ℕ) → i < n → kind_at m p i ≢ 0

pub record IsFirstTag (m : ℕ → ℕ) (p n tag_type i : ℕ) : Type 0 where
  pub in_list : i < n
  pub kind : kind_at m p i ≡ tag_type
  pub first : (j : ℕ) → j < i → kind_at m p j ≢ tag_type

IsTagList-rest : (m : ℕ → ℕ) (p n : ℕ) → IsTagList m p (suc n) → IsTagList m (after_tag m p) n
IsTagList-rest m p n h = record { ends = h.ends; goes_on = λ i lt. h.goes_on (suc i) (omega arith) }

first_or_after :
    (m : ℕ → ℕ) (p bound tag_type : ℕ)
    → kind_at m p 0 ≢ tag_type
    → ((j : ℕ) → j < bound → kind_at m (after_tag m p) j ≢ tag_type)
    → (j : ℕ) → j < suc bound
    → kind_at m p j ≢ tag_type
first_or_after m p bound tag_type other after zero lt = other
first_or_after m p bound tag_type other after (suc j) lt = after j (omega arith)

-- In a list of n tags, with fuel above n, the search ends, and returns the first tag of the type
-- that is looked for, or NULL if there is none.
pub find_tag_from_lem :
    (m : ℕ → ℕ) (p n tag_type fuel : ℕ)
    → IsTagList m p n
    → n < fuel
    → (((i : ℕ) → i < n → kind_at m p i ≢ tag_type) × (find_tag_from m p tag_type fuel ≡ some 0))
      ⊎ ((i : ℕ) × IsFirstTag m p n tag_type i
          × (find_tag_from m p tag_type fuel ≡ some (tag_at m p i)))
unfolding find_tag_from
find_tag_from_lem m p n tag_type zero h lt = elim lt [ ]
find_tag_from_lem m p zero tag_type (suc fuel) h lt =
    let last : (kind_at m p 0 == 0) ≡ true = (==_iff _ _).1 h.ends in
    inl (λ i q. absurd (omega arith), rw last refl)
find_tag_from_lem m p (suc n) tag_type (suc fuel) h lt =
    let more : (kind_at m p 0 == 0) ≡ false = ==_ne _ 0 (h.goes_on 0 (omega arith)) in
    elim (Bool-cases (kind_at m p 0 == tag_type)) [
      | inl hit ↦ inr (
        0,
        record {
          in_list = omega arith;
          kind = (==_iff _ _).0 hit;
          first = λ j q. absurd (omega arith);
        },
        rw (more, hit) refl,
      )
      | inr miss ↦
          let other : kind_at m p 0 ≢ tag_type =
            λ e. ground (arith, (==_iff (kind_at m p 0) tag_type).1 e) in
          elim (find_tag_from_lem m (after_tag m p) n tag_type fuel (IsTagList-rest m p n h)
            (omega arith)) [
              | inl (missing, e) ↦ inl (
                first_or_after m p n tag_type other missing,
                rw (more, miss, next_tag-after_tag m p) e,
              )
              | inr (i, f, e) ↦ inr (
                suc i,
                record {
                  in_list = omega (arith, f.in_list);
                  kind = f.kind;
                  first = first_or_after m p i tag_type other f.first;
                },
                rw (more, miss, next_tag-after_tag m p) e,
              )
            ]
    ]

same_index : (i j : ℕ) → ltb i j ≡ false → ltb j i ≡ false → j ≡ i
same_index i j h k = ground arith

find_first :
    (m : ℕ → ℕ) (p n tag_type i fuel : ℕ)
    → IsTagList m p n
    → IsFirstTag m p n tag_type i
    → n < fuel
    → find_tag_from m p tag_type fuel ≡ some (tag_at m p i)
find_first m p n tag_type i fuel list first lt =
    elim (find_tag_from_lem m p n tag_type fuel list lt) [
      | inl (missing, e) ↦ absurd (missing i first.in_list first.kind)
      | inr (j, f, e) ↦ elim (Bool-cases (ltb i j)) [
        | inl before ↦ absurd (f.first i (ltb→lt i j before) first.kind)
        | inr not_before ↦ elim (Bool-cases (ltb j i)) [
          | inl after ↦ absurd (first.first j (ltb→lt j i after) f.kind)
          | inr not_after ↦
              let here : j ≡ i = same_index i j not_before not_after in
              e ∙ ap (λ k. some (tag_at m p k)) here
        ]
      ]
    ]

search_from_start :
    (m : ℕ → ℕ) (s : Multiboot) (t : Terminal) (n tag_type i fuel : ℕ)
    → s.mb2_start ≢ 0
    → IsTagList m (u32 (s.mb2_start + 64)) n
    → IsFirstTag m (u32 (s.mb2_start + 64)) n tag_type i
    → n < fuel
    → mboot2_find_tag m s t tag_type fuel ≡ (some (tag_at m (u32 (s.mb2_start + 64)) i), t)
unfolding mboot2_find_tag
search_from_start m s t n tag_type i fuel some_ptr list first lt =
    rw (==_ne s.mb2_start 0 some_ptr)
      (ap (λ r. (r, t)) (find_first m (u32 (s.mb2_start + 64)) n tag_type i fuel list first lt))

memsz_found :
    (m : ℕ → ℕ) (s : Multiboot) (t : Terminal) (n i j fuel : ℕ)
    → s.mb2_start ≢ 0
    → IsTagList m (u32 (s.mb2_start + 64)) n
    → IsFirstTag m (u32 (s.mb2_start + 64)) n 6 j
    → tag_at m (u32 (s.mb2_start + 64)) i ≢ 0
    → tag_at m (u32 (s.mb2_start + 64)) j ≢ 0
    → n < fuel
    → found_memsz m s fuel (some (tag_at m (u32 (s.mb2_start + 64)) i), t) ≡ (
      some (
        Status.ok,
        record s {
          mb_memory_sz = u32 (
              (multiboot2_tag_memsz m (tag_at m (u32 (s.mb2_start + 64)) i)).mem_lower
              + (multiboot2_tag_memsz m (tag_at m (u32 (s.mb2_start + 64)) i)).mem_upper);
          mb2_memory_map = tag_at m (u32 (s.mb2_start + 64)) j;
        },
      ),
      t,
    )
unfolding found_memsz found_mmap
memsz_found m s t n i j fuel some_ptr list map size_ptr map_ptr lt =
    let tag = multiboot2_tag_memsz m (tag_at m (u32 (s.mb2_start + 64)) i) in
    let sized : Multiboot = record s { mb_memory_sz = u32 (tag.mem_lower + tag.mem_upper) } in
    let second = search_from_start m sized t n 6 j fuel some_ptr list map lt in
    rw
      (
        ==_ne (tag_at m (u32 (s.mb2_start + 64)) i) 0 size_ptr,
        second,
        ==_ne (tag_at m (u32 (s.mb2_start + 64)) j) 0 map_ptr,
      )
      refl

-- With the magic number of the second format, a pointer that is not NULL and a list of n tags
-- from the 64th byte on, the first of them with the size of memory at tag i and the first with
-- its map at tag j, both not at address 0, `multiboot_data_init`, with fuel above n, ends with
-- success, and stores the sum of the two sizes and the address of the map; nothing is printed.
pub multiboot_data_init_lem :
    (m : ℕ → ℕ) (s : Multiboot) (t : Terminal) (mb_ptr n i j fuel : ℕ)
    → mb_ptr ≢ 0
    → IsTagList m (u32 (mb_ptr + 64)) n
    → IsFirstTag m (u32 (mb_ptr + 64)) n 4 i
    → IsFirstTag m (u32 (mb_ptr + 64)) n 6 j
    → tag_at m (u32 (mb_ptr + 64)) i ≢ 0
    → tag_at m (u32 (mb_ptr + 64)) j ≢ 0
    → n < fuel
    → multiboot_data_init m s t mb_ptr 0x36d76289 fuel ≡ (
      some (
        Status.ok,
        record s {
          boot_magic = 0x36d76289;
          mb_memory_sz = u32 (
              (multiboot2_tag_memsz m (tag_at m (u32 (mb_ptr + 64)) i)).mem_lower
              + (multiboot2_tag_memsz m (tag_at m (u32 (mb_ptr + 64)) i)).mem_upper);
          mb2_start = mb_ptr;
          mb2_memory_map = tag_at m (u32 (mb_ptr + 64)) j;
        },
      ),
      t,
    )
unfolding multiboot_data_init
multiboot_data_init_lem m s t mb_ptr n i j fuel some_ptr list size map size_ptr map_ptr lt =
    let saved : Multiboot = record s { boot_magic = 0x36d76289; mb2_start = mb_ptr } in
    let first = search_from_start m saved t n 4 i fuel some_ptr list size lt in
    rw first (memsz_found m saved t n i j fuel some_ptr list map size_ptr map_ptr lt)
