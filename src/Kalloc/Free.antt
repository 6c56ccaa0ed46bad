-- ===== src/Kalloc/Free.antt =====
-- `kernel_free` of what `kernel_alloc` cut off.
use missy_micro.Common.{ℕ, suc, ◌+◌, ◌-◌, ◌*◌, ◌^◌, ◌≡◌, ◌≤◌, ◌<◌, inl, inr, refl, ◌∙◌, sym}
use missy_micro.Common.{arith}
use missy_micro.Common.{some, ltb, leb, ◌==◌, ◌&&◌, ◌||◌, u32, sub32, true, false}
use missy_micro.Kalloc.{Kalloc, next_of, sz_of, set_next, find_place, join_after, join_before}
use missy_micro.Kalloc.{kernel_free, kernel_alloc}
use missy_micro.Kalloc.Words.{next_of-set_next, next_of-set_next_apart, sz_of-set_next}
use missy_micro.Kalloc.Words.{next_of-same}
use missy_micro.Kalloc.Split.{IsNextFree, IsSplit, kernel_alloc_lem}

-- A block `t` that lies above the two headers `b` and `h` of a circular list.
pub record IsAbove (m : ℕ → ℕ) (b h t : ℕ) : Type 0 where
  pub first : b + 8 ≤ h
  pub second : h + 8 ≤ t
  pub next : next_of m b ≡ h
  pub around : next_of m h ≡ b
  pub unscaled : h + sz_of m h ≡ t
  pub inside : t + sz_of m t * 8 < 2 ^ 32
  pub inside_left : h + sz_of m h * 8 < 2 ^ 32

find_place_lem :
    (m : ℕ → ℕ) (b h t fuel : ℕ) → IsAbove m b h t → find_place m t b (suc (suc fuel)) ≡ some h
unfolding find_place
find_place_lem m b h t fuel a =
    let between : (ltb b t && ltb t h) ≡ false = ground (arith, a.first, a.second) in
    let at_end : (leb h b && (ltb b t || ltb t h)) ≡ false = ground (arith, a.first, a.second) in
    let between_later : (ltb h t && ltb t b) ≡ false = ground (arith, a.first, a.second) in
    let last : (leb b h && (ltb h t || ltb t b)) ≡ true = ground (arith, a.first, a.second) in
    rw (find_place, a.next, between, at_end, find_place, a.around, between_later, last) refl

-- Neither sum of a header's address and eight times its size is the next address.
joined_lem :
    (m : ℕ → ℕ) (b h t : ℕ)
    → IsAbove m b h t
    → join_before (join_after m t h) t h ≡ set_next (set_next m t b) h t
unfolding join_before join_after
joined_lem m b h t a =
    let above : (u32 (t + sz_of m t * 8) == b) ≡ false =
      ground (arith, a.first, a.second, a.inside) in
    let same_size : sz_of (set_next m t b) h ≡ sz_of m h = sz_of-set_next m t h b (inl a.second) in
    let beyond : (u32 (h + sz_of m h * 8) == t) ≡ false =
      ground (arith, a.second, a.unscaled, a.inside_left) in
    rw (join_after, a.around, above, join_before, same_size, beyond) refl

after_split-IsAbove :
    (k k' : Kalloc) (h size nbytes p : ℕ)
    → IsNextFree k h size
    → next_of k.memory h ≡ k.free_hdr
    → nbytes + 8 + 8 ≤ size
    → h + size * 8 < 2 ^ 32
    → IsSplit k k' h size nbytes p
    → IsAbove k'.memory k'.free_hdr h (p - 8)
after_split-IsAbove k k' h size nbytes p f circular room no_wrap s =
    let head = s.left in
    record {
      first = head.below;
      second = omega (arith, s.at_end);
      next = head.next;
      around =
          next_of-same k.memory k'.memory h (λ j lt. s.kept j (inl lt))
          ∙ circular
          ∙ sym s.same_list;
      unscaled = rw head.size_of (omega (arith, s.at_end));
      inside = rw s.header (omega (arith, s.at_end));
      inside_left = rw head.size_of (omega arith);
    }

-- The list after it: `b`, `h`, `t` and back to `b`, with the sizes of before.
pub record IsThree (k k' : Kalloc) (b h t : ℕ) : Type 0 where
  pub to_second : next_of k'.memory b ≡ h
  pub to_third : next_of k'.memory h ≡ t
  pub to_first : next_of k'.memory t ≡ b
  pub second_size : sz_of k'.memory h ≡ sz_of k.memory h
  pub third_size : sz_of k'.memory t ≡ sz_of k.memory t

free_above :
    (k : Kalloc) (h t fuel : ℕ)
    → IsAbove k.memory k.free_hdr h t
    → (k' : Kalloc) × (kernel_free k (t + 8) (suc (suc fuel)) ≡ some k')
      × IsThree k k' k.free_hdr h t
unfolding kernel_free
free_above k h t fuel a =
    let b = k.free_hdr in
    let block : sub32 (t + 8) 8 ≡ t = omega (arith, a.inside) in
    let tail = set_next k.memory t b in
    let linked = set_next tail h t in
    (
      record k { memory = linked; free_hdr = h },
      rw
          (
            kernel_free,
            block,
            find_place_lem k.memory b h t fuel a,
            block,
            joined_lem k.memory b h t a,
          )
          refl,
      record {
        to_second =
            next_of-set_next_apart tail h b t (inl (omega (arith, a.first)))
            ∙ next_of-set_next_apart k.memory t b b (inl (omega (arith, a.first, a.second)))
            ∙ a.next;
        to_third = next_of-set_next tail h t (omega (arith, a.inside));
        to_first =
            next_of-set_next_apart tail h t t (inr (omega (arith, a.second)))
            ∙ next_of-set_next k.memory t b (omega (arith, a.first, a.second, a.inside));
        second_size =
            sz_of-set_next tail h h t (inr (omega arith))
            ∙ sz_of-set_next k.memory t h b (inl a.second);
        third_size =
            sz_of-set_next tail h t t (inr (omega (arith, a.second)))
            ∙ sz_of-set_next k.memory t t b (inr (omega arith));
      },
    )

-- Where the list has one block besides its head, with room for nbytes bytes and two headers,
-- and eight times its size is still inside of memory, `kernel_free` gives back what
-- `kernel_alloc` cut off without joining the two: the list has the rest of the block and, right
-- after it, the piece as a block of its own.
pub free-alloc :
    (k : Kalloc) (h size nbytes fuel : ℕ)
    → IsNextFree k h size
    → next_of k.memory h ≡ k.free_hdr
    → nbytes + 8 + 8 ≤ size
    → h + size * 8 < 2 ^ 32
    → (p : ℕ) × (k' k'' : Kalloc) × (kernel_alloc k nbytes (fuel + 2) ≡ some (p, k'))
      × (kernel_free k' p (fuel + 2) ≡ some k'')
      × (h + (size - (nbytes + 8)) ≡ p - 8)
      × IsThree k' k'' k.free_hdr h (p - 8)
      × (sz_of k''.memory h ≡ size - (nbytes + 8))
      × (sz_of k''.memory (p - 8) ≡ nbytes + 8)
free-alloc k h size nbytes fuel f circular room no_wrap =
    let (p, k', run, s) = kernel_alloc_lem k h size nbytes (fuel + 2) f room (omega arith) in
    let (k'', freed, three) =
      free_above k' h (p - 8) fuel
        (after_split-IsAbove k k' h size nbytes p f circular room no_wrap s) in
    let more : suc (suc fuel) ≡ fuel + 2 = omega arith in
    let start : p - 8 + 8 ≡ p = omega (arith, s.at_end) in
    let head = s.left in
    (
      p,
      k',
      k'',
      run,
      rw (start, more) at freed,
      omega (arith, s.at_end),
      rw s.same_list at three,
      three.second_size ∙ head.size_of,
      three.third_size ∙ s.header,
    )
