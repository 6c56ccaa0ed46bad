-- ===== src/Kalloc/Insert.antt =====
-- `kernel_free` of a new block of 1024 bytes above the others, as `morecore` calls it.
use missy_micro.Common.{ℕ, suc, ◌+◌, ◌*◌, ◌^◌, ◌≡◌, ◌≤◌, ◌<◌, inl, inr, refl}
use missy_micro.Common.{◌∙◌, arith, some, leb, ltb, ◌&&◌, ◌||◌, ◌==◌, u32, sub32, true, false}
use missy_micro.Kalloc.{Kalloc, next_of, sz_of, set_sz, set_next}
use missy_micro.Kalloc.{kernel_free, find_place, join_after, join_before}
use missy_micro.Kalloc.Words.{sz_of-set_sz, sz_of-set_sz_apart, next_of-set_sz, sz_of-set_next}
use missy_micro.Kalloc.Words.{next_of-set_next, next_of-set_next_apart}

-- The list is its head `b` alone.
pub record IsAlone (m : ℕ → ℕ) (b : ℕ) : Type 0 where
  pub next : next_of m b ≡ b
  pub size : sz_of m b ≡ 0

-- The list is `b` and a block `h` of 1024 bytes.
pub record IsPair (m : ℕ → ℕ) (b h : ℕ) : Type 0 where
  pub next : next_of m b ≡ h
  pub back : next_of m h ≡ b
  pub size : sz_of m b ≡ 0
  pub second : sz_of m h ≡ 1024

module _ (k : Kalloc) (h fuel : ℕ) (room : h + 8192 < 2 ^ 32) (low : k.free_hdr + 8 ≤ h) where
  abbrev b : ℕ
  b = k.free_hdr

  abbrev sized : ℕ → ℕ
  sized = set_sz k.memory h 1024

  abbrev pub first_linked : Kalloc
  first_linked = record k { memory = set_next (set_next sized h b) b h }

  sized-IsAlone : IsAlone k.memory b → IsAlone sized b
  sized-IsAlone a = record {
    next = next_of-set_sz k.memory h b 1024 (inl (omega arith)) ∙ a.next;
    size = sz_of-set_sz_apart k.memory h b 1024 (inl (omega arith)) ∙ a.size;
  }

  find_alone : IsAlone sized b → find_place sized h b (suc fuel) ≡ some b
  unfolding find_place
  find_alone a =
      let between : (ltb b h && ltb h b) ≡ false = ground arith in
      let last : (leb b b && (ltb b h || ltb h b)) ≡ true = ground arith in
      rw (find_place, a.next, between, last) refl

  joined_alone : IsAlone sized b → join_before (join_after sized h b) h b ≡ first_linked.memory
  unfolding join_after join_before
  joined_alone a =
      let tall : sz_of sized h ≡ 1024 = sz_of-set_sz k.memory h 1024 (omega arith) in
      let above : (u32 (h + 1024 * 8) == b) ≡ false = ground arith in
      let small : sz_of (set_next sized h b) b ≡ 0 =
        sz_of-set_next sized h b b (inl low) ∙ a.size in
      let beyond : (u32 (b + 0 * 8) == h) ≡ false = ground arith in
      rw (join_after, tall, a.next, above, join_before, small, beyond) refl

  pub free_alone :
      IsAlone k.memory b
      → kernel_free (record k { memory = sized }) (u32 (h + 8)) (suc fuel) ≡ some first_linked
  unfolding kernel_free
  free_alone alone =
      let a = sized-IsAlone alone in
      let block : sub32 (u32 (h + 8)) 8 ≡ h = omega arith in
      rw (kernel_free, block, find_alone a, block, joined_alone a) refl

  pub first_linked-IsPair : IsAlone k.memory b → IsPair first_linked.memory b h
  first_linked-IsPair alone =
      let a = sized-IsAlone alone in
      let tail = set_next sized h b in
      record {
        next = next_of-set_next tail b h (omega arith);
        back =
            next_of-set_next_apart tail b h h (inr (omega arith))
            ∙ next_of-set_next sized h b (omega arith);
        size =
            sz_of-set_next tail b b h (inr (omega arith))
            ∙ sz_of-set_next sized h b b (inl low)
            ∙ a.size;
        second =
            sz_of-set_next tail b h h (inr (omega arith))
            ∙ sz_of-set_next sized h h b (inr (omega arith))
            ∙ sz_of-set_sz k.memory h 1024 (omega arith);
      }

-- The list is `b`, `h` with 1024 bytes, and `t`.
pub record IsTriple (m : ℕ → ℕ) (b h t : ℕ) : Type 0 where
  pub next : next_of m b ≡ h
  pub around : next_of m t ≡ b
  pub size : sz_of m b ≡ 0
  pub second : sz_of m h ≡ 1024

module _ (k : Kalloc) (h t fuel : ℕ) (above : t ≡ h + 1024) (room : t + 8192 < 2 ^ 32)
    (low : k.free_hdr + 8 ≤ h) where
  abbrev head : ℕ
  head = k.free_hdr

  abbrev with_size : ℕ → ℕ
  with_size = set_sz k.memory t 1024

  abbrev pub second_linked : Kalloc
  second_linked = record k { memory = set_next (set_next with_size t head) h t; free_hdr = h }

  with_size-IsPair : IsPair k.memory head h → IsPair with_size head h
  with_size-IsPair a = record {
    next = next_of-set_sz k.memory t head 1024 (inl (omega (arith, above))) ∙ a.next;
    back = next_of-set_sz k.memory t h 1024 (inl (omega (arith, above))) ∙ a.back;
    size = sz_of-set_sz_apart k.memory t head 1024 (inl (omega (arith, above))) ∙ a.size;
    second = sz_of-set_sz_apart k.memory t h 1024 (inl (omega (arith, above))) ∙ a.second;
  }

  find_pair : IsPair with_size head h → find_place with_size t head (suc (suc fuel)) ≡ some h
  unfolding find_place
  find_pair a =
      let between : (ltb head t && ltb t h) ≡ false = ground (arith, above) in
      let last : (leb h head && (ltb head t || ltb t h)) ≡ false = ground (arith, above) in
      let between_later : (ltb h t && ltb t head) ≡ false = ground (arith, above) in
      let last_later : (leb head h && (ltb h t || ltb t head)) ≡ true = ground (arith, above) in
      rw (find_place, a.next, between, last, find_place, a.back, between_later, last_later) refl

  joined_pair :
      IsPair with_size head h → join_before (join_after with_size t h) t h ≡ second_linked.memory
  unfolding join_after join_before
  joined_pair a =
      let tall : sz_of with_size t ≡ 1024 = sz_of-set_sz k.memory t 1024 (omega arith) in
      let beyond : (u32 (t + 1024 * 8) == head) ≡ false = ground (arith, above) in
      let same : sz_of (set_next with_size t head) h ≡ 1024 =
        sz_of-set_next with_size t h head (inl (omega (arith, above))) ∙ a.second in
      let apart : (u32 (h + 1024 * 8) == t) ≡ false = ground (arith, above) in
      rw (join_after, tall, a.back, beyond, join_before, same, apart) refl

  pub free_pair :
      IsPair k.memory head h
      → kernel_free (record k { memory = with_size }) (u32 (t + 8)) (suc (suc fuel))
        ≡ some second_linked
  unfolding kernel_free
  free_pair pair =
      let a = with_size-IsPair pair in
      let block : sub32 (u32 (t + 8)) 8 ≡ t = omega arith in
      rw (kernel_free, block, find_pair a, block, joined_pair a) refl

  pub second_linked-IsTriple : IsPair k.memory head h → IsTriple second_linked.memory head h t
  second_linked-IsTriple pair =
      let a = with_size-IsPair pair in
      let tail = set_next with_size t head in
      record {
        next =
            next_of-set_next_apart tail h head t (inl (omega arith))
            ∙ next_of-set_next_apart with_size t head head (inl (omega (arith, above)))
            ∙ a.next;
        around =
            next_of-set_next_apart tail h t t (inr (omega (arith, above)))
            ∙ next_of-set_next with_size t head (omega (arith, above));
        size =
            sz_of-set_next tail h head t (inl low)
            ∙ sz_of-set_next with_size t head head (inl (omega (arith, above)))
            ∙ a.size;
        second =
            sz_of-set_next tail h h t (inr (omega arith))
            ∙ sz_of-set_next with_size t h head (inl (omega (arith, above)))
            ∙ a.second;
      }
