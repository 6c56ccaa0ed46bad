-- ===== src/Kalloc/Words.antt =====
-- Words in a memory of bytes.
use missy_micro.Libc.Compare.{IsBytes}
use missy_micro.Common.{ℕ, ◌+◌, ◌^◌, ◌≡◌, ◌≤◌, ◌<◌, ◌⊎◌, inl, inr, refl, arith}
use missy_micro.Multiboot.Structs.{load32}
use missy_micro.Kalloc.{store32, next_of, sz_of, set_next, set_sz}

pub load32-store32 : (m : ℕ → ℕ) (p v : ℕ) → v < 2 ^ 32 → load32 (store32 m p v) p ≡ v
load32-store32 m p v h = ground arith

-- A word that lies apart from the one stored.
pub load32-store32_apart :
    (m : ℕ → ℕ) (p q v : ℕ) → (q + 4 ≤ p) ⊎ (p + 4 ≤ q) → load32 (store32 m p v) q ≡ load32 m q
load32-store32_apart m p q v apart = ground arith

pub sz_of-set_sz : (m : ℕ → ℕ) (h v : ℕ) → v < 2 ^ 32 → sz_of (set_sz m h v) h ≡ v
unfolding sz_of set_sz
sz_of-set_sz m h v small = load32-store32 m (h + 4) v small

pub sz_of-set_sz_apart :
    (m : ℕ → ℕ) (g h v : ℕ) → (h + 4 ≤ g) ⊎ (g + 4 ≤ h) → sz_of (set_sz m g v) h ≡ sz_of m h
unfolding sz_of set_sz
sz_of-set_sz_apart m g h v (inl low) = load32-store32_apart m (g + 4) (h + 4) v (inl (omega arith))
sz_of-set_sz_apart m g h v (inr high) = load32-store32_apart m (g + 4) (h + 4) v (inr (omega arith))

pub next_of-set_sz :
    (m : ℕ → ℕ) (g h v : ℕ) → (h ≤ g) ⊎ (g + 8 ≤ h) → next_of (set_sz m g v) h ≡ next_of m h
unfolding next_of set_sz
next_of-set_sz m g h v (inl low) = load32-store32_apart m (g + 4) h v (inl (omega arith))
next_of-set_sz m g h v (inr high) = load32-store32_apart m (g + 4) h v (inr (omega arith))

pub set_sz-kept : (m : ℕ → ℕ) (h v j : ℕ) → (j < h + 4) ⊎ (h + 8 ≤ j) → set_sz m h v j ≡ m j
unfolding set_sz
set_sz-kept m h v j apart = ground arith

pub sz_of-same :
    (m m' : ℕ → ℕ) (h : ℕ) → ((j : ℕ) → h + 4 ≤ j → j < h + 8 → m' j ≡ m j) → sz_of m' h ≡ sz_of m h
unfolding sz_of
sz_of-same m m' h same =
    rw
      (
        same (h + 4) (omega arith) (omega arith),
        same (h + 4 + 1) (omega arith) (omega arith),
        same (h + 4 + 1 + 1) (omega arith) (omega arith),
        same (h + 4 + 1 + 1 + 1) (omega arith) (omega arith),
      )
      refl

pub next_of-set_next : (m : ℕ → ℕ) (h v : ℕ) → v < 2 ^ 32 → next_of (set_next m h v) h ≡ v
unfolding next_of set_next
next_of-set_next m h v small = load32-store32 m h v small

pub next_of-set_next_apart :
    (m : ℕ → ℕ) (g h v : ℕ) → (h + 4 ≤ g) ⊎ (g + 4 ≤ h) → next_of (set_next m g v) h ≡ next_of m h
unfolding next_of set_next
next_of-set_next_apart m g h v apart = load32-store32_apart m g h v apart

pub sz_of-set_next :
    (m : ℕ → ℕ) (g h v : ℕ) → (h + 8 ≤ g) ⊎ (g ≤ h) → sz_of (set_next m g v) h ≡ sz_of m h
unfolding sz_of set_next
sz_of-set_next m g h v (inl low) = load32-store32_apart m g (h + 4) v (inl (omega arith))
sz_of-set_next m g h v (inr high) = load32-store32_apart m g (h + 4) v (inr (omega arith))

pub next_of-same :
    (m m' : ℕ → ℕ) (h : ℕ) → ((j : ℕ) → j < h + 4 → m' j ≡ m j) → next_of m' h ≡ next_of m h
unfolding next_of
next_of-same m m' h same =
    rw
      (
        same h (omega arith),
        same (h + 1) (omega arith),
        same (h + 1 + 1) (omega arith),
        same (h + 1 + 1 + 1) (omega arith),
      )
      refl

pub set_sz-IsBytes : (m : ℕ → ℕ) (h v : ℕ) → IsBytes m → IsBytes (set_sz m h v)
unfolding set_sz
set_sz-IsBytes m h v bytes a = ground (arith, bytes a)

pub set_next-IsBytes : (m : ℕ → ℕ) (h v : ℕ) → IsBytes m → IsBytes (set_next m h v)
unfolding set_next
set_next-IsBytes m h v bytes a = ground (arith, bytes a)
