-- ===== src/Kalloc/Split.antt =====
-- `kernel_alloc` from a free block that is large enough.
use missy_micro.Common.{ℕ, zero, suc, ◌⊎◌, ◌+◌, ◌-◌, ◌^◌, ◌≡◌, ◌≤◌, ◌<◌, ◌≢◌, inl, inr, refl}
use missy_micro.Common.{◌∙◌, arith}
use missy_micro.Common.{some, leb, ◌==◌, ==_ne, u32, true, false}
use missy_micro.Kalloc.{Kalloc, next_of, sz_of, set_sz, take_block, search, start_list}
use missy_micro.Kalloc.{kernel_alloc}
use missy_micro.Kalloc.Words.{sz_of-set_sz, sz_of-set_sz_apart, next_of-set_sz, set_sz-kept}
use missy_micro.Kalloc.Words.{sz_of-same}

-- The list begins at a header below the block `h`, which is the next one, has `size` bytes, its header
-- among them, and ends inside of memory.
pub record IsNextFree (k : Kalloc) (h size : ℕ) : Type 0 where
  pub started : k.free_hdr ≢ 0
  pub below : k.free_hdr + 8 ≤ h
  pub next : next_of k.memory k.free_hdr ≡ h
  pub size_of : sz_of k.memory h ≡ size
  pub inside : h + size < 2 ^ 32

-- What is handed out: `nbytes` bytes at the end of the block, with a header before them. Of the memory
-- only the sizes in the two headers change.
pub record IsSplit (k k' : Kalloc) (h size nbytes p : ℕ) : Type 0 where
  pub same_list : k'.free_hdr ≡ k.free_hdr
  pub at_end : p + nbytes ≡ h + size
  pub header : sz_of k'.memory (p - 8) ≡ nbytes + 8
  pub left : IsNextFree k' h (size - (nbytes + 8))
  pub kept :
      (j : ℕ) → (j < h + 4) ⊎ ((h + 8 ≤ j) × (j < p - 4)) ⊎ (p ≤ j) → k'.memory j ≡ k.memory j

-- The state that such a block is taken in, and its header.
abbrev pub after_split : Kalloc → ℕ → ℕ → ℕ → Kalloc
after_split k h size alloc_sz = record k {
  memory = set_sz (set_sz k.memory h (size - alloc_sz)) (h + (size - alloc_sz)) alloc_sz;
}

pub take_block-split :
    (k : Kalloc) (h size alloc_sz : ℕ)
    → IsNextFree k h size
    → 8 ≤ alloc_sz
    → alloc_sz + 8 ≤ size
    → take_block k k.free_hdr h alloc_sz
      ≡ (h + (size - alloc_sz) + 8, after_split k h size alloc_sz)
unfolding take_block
take_block-split k h size alloc_sz f header room =
    let other : (size == alloc_sz) ≡ false = ground arith in
    let shrunk = sz_of-set_sz k.memory h (size - alloc_sz) (omega (arith, f.inside)) in
    let tail : u32 (h + (size - alloc_sz)) ≡ h + (size - alloc_sz) = omega (arith, f.inside) in
    let result : u32 (h + (size - alloc_sz) + 8) ≡ h + (size - alloc_sz) + 8 =
      omega (arith, f.inside) in
    rw (take_block, f.size_of, other, shrunk, tail, result) refl

pub after_split-IsSplit :
    (k : Kalloc) (h size nbytes : ℕ)
    → IsNextFree k h size
    → nbytes + 8 + 8 ≤ size
    → IsSplit k (after_split k h size (nbytes + 8)) h size nbytes (h + (size - (nbytes + 8)) + 8)
after_split-IsSplit k h size nbytes f room =
    let rest = size - (nbytes + 8) in
    let shrunk = set_sz k.memory h rest in
    let header_at : h + rest + 8 - 8 ≡ h + rest = omega arith in
    record {
      same_list = refl;
      at_end = omega arith;
      header = rw header_at (sz_of-set_sz shrunk (h + rest) (nbytes + 8) (omega (arith, f.inside)));
      left = record {
        started = f.started;
        below = f.below;
        next =
            next_of-set_sz shrunk (h + rest) k.free_hdr (nbytes + 8) (inl (omega (arith, f.below)))
            ∙ next_of-set_sz k.memory h k.free_hdr rest (inl (omega (arith, f.below)))
            ∙ f.next;
        size_of =
            sz_of-set_sz_apart shrunk (h + rest) h (nbytes + 8) (inl (omega arith))
            ∙ sz_of-set_sz k.memory h rest (omega (arith, f.inside));
        inside = omega (arith, f.inside);
      };
      kept = λ j apart. elim apart [
        | inl low ↦
            set_sz-kept shrunk (h + rest) (nbytes + 8) j (inl (omega arith))
            ∙ set_sz-kept k.memory h rest j (inl low)
        | inr more ↦ elim more [
          | inl between ↦
              set_sz-kept shrunk (h + rest) (nbytes + 8) j (inl (omega (arith, between)))
              ∙ set_sz-kept k.memory h rest j (inr between.0)
          | inr high ↦
              set_sz-kept shrunk (h + rest) (nbytes + 8) j (inr (omega arith))
              ∙ set_sz-kept k.memory h rest j (inr (omega arith))
        ]
      ];
    }

-- Where the block after the head of the list has room for `nbytes` bytes and two headers,
-- `kernel_alloc` returns a pointer to the last `nbytes` bytes of it, after a header with their size.
-- The block stays in the list with the rest, and no other memory changes.
pub kernel_alloc_lem :
    (k : Kalloc) (h size nbytes fuel : ℕ)
    → IsNextFree k h size
    → nbytes + 8 + 8 ≤ size
    → 0 < fuel
    → (p : ℕ) × (k' : Kalloc) × (kernel_alloc k nbytes fuel ≡ some (p, k'))
      × IsSplit k k' h size nbytes p
unfolding kernel_alloc start_list search
kernel_alloc_lem k h size nbytes zero f room lt = elim lt [ ]
kernel_alloc_lem k h size nbytes (suc fuel) f room lt =
    let started : (k.free_hdr == 0) ≡ false = ==_ne k.free_hdr 0 f.started in
    let alloc_sz : u32 (nbytes + 8) ≡ nbytes + 8 = omega (arith, f.inside) in
    let big : leb (nbytes + 8) size ≡ true = ground arith in
    (
      h + (size - (nbytes + 8)) + 8,
      after_split k h size (nbytes + 8),
      rw
          (
            kernel_alloc,
            started,
            alloc_sz,
            f.next,
            f.size_of,
            big,
            take_block-split k h size (nbytes + 8) f (omega arith) room,
          )
          refl,
      after_split-IsSplit k h size nbytes f room,
    )

-- Where the block after the head of the list of free blocks has room for the two requests, a
-- header for each and one more, two calls of `kernel_alloc` in a row return pieces that do not
-- overlap, each with its header before it: the second lies right below the header of the first,
-- both inside the block, and the header of the first is as the first call left it.
pub alloc-alloc :
    (k : Kalloc) (h size first second fuel : ℕ)
    → IsNextFree k h size
    → first + 8 + (second + 8) + 8 ≤ size
    → 0 < fuel
    → (p q : ℕ) × (k' k'' : Kalloc) × (kernel_alloc k first fuel ≡ some (p, k'))
      × (kernel_alloc k' second fuel ≡ some (q, k''))
      × (p + first ≡ h + size)
      × (q + second + 8 ≡ p)
      × (h + 8 ≤ q)
      × (sz_of k''.memory (p - 8) ≡ first + 8)
alloc-alloc k h size first second fuel f room lt =
    let (p, k', run, one) = kernel_alloc_lem k h size first fuel f (omega arith) lt in
    let (q, k'', again, two) =
      kernel_alloc_lem k' h (size - (first + 8)) second fuel one.left (omega arith) lt in
    (
      p,
      q,
      k',
      k'',
      run,
      again,
      one.at_end,
      omega (arith, one.at_end, two.at_end),
      omega (arith, one.at_end, two.at_end),
      sz_of-same k'.memory k''.memory (p - 8)
            (λ j from below. two.kept j (inr (inr (omega (arith, one.at_end, two.at_end)))))
          ∙ one.header,
    )
