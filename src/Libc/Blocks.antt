-- ===== src/Libc/Blocks.antt =====
-- `memset`, `memcpy` and `memcmp` of libc/string.
use missy_micro.Common.{ℕ, zero, suc, ◌+◌, ◌-◌, ◌≤◌, ◌<◌, ◌≡◌, ◌≢◌, ◌⊎◌, inl, inr, refl, ap}
use missy_micro.Common.{arith}
use missy_micro.Common.{ltb, leb, ◌==◌, if◌then◌else◌, update, u8, sub32, ◌&&◌, Bool-cases}
use missy_micro.Common.{==_ne, true, false}
use missy_micro.Libc.{memset, memcpy, memcmp}

memset_twice :
    (m : ℕ → ℕ) (d val n j : ℕ)
    → memset (update m d (u8 val)) d val n j ≡ (if j == d then u8 val else m j)
unfolding memset
memset_twice m d val zero j = refl
memset_twice m d val (suc n) j = ground (arith, memset_twice (update m d (u8 val)) d val n j)

-- `memset` sets the first byte of the block, if the block is not empty, and no other.
pub memset_lem :
    (m : ℕ → ℕ) (d val n j : ℕ) → memset m d val n j ≡ (if ltb 0 n && j == d then u8 val else m j)
unfolding memset
memset_lem m d val zero j = refl
memset_lem m d val (suc n) j = ground (arith, memset_twice m d val n j)

memcpy-below : (m : ℕ → ℕ) (d s n j : ℕ) → j < d → memcpy m d s n j ≡ m j
unfolding memcpy
memcpy-below m d s zero j h = refl
memcpy-below m d s (suc n) j h =
    ground (arith, memcpy-below (update m d (m s)) (d + 1) (s + 1) n j (omega arith))

-- If the destination does not begin inside the source, `memcpy` sets every byte of it to the
-- byte that the source held before, and leaves all other memory.
pub memcpy_lem :
    (m : ℕ → ℕ) (d s n j : ℕ)
    → (d ≤ s) ⊎ (s + n ≤ d)
    → memcpy m d s n j ≡ (if leb d j && ltb j (d + n) then m (s + (j - d)) else m j)
unfolding memcpy
memcpy_lem m d s zero j h = ground arith
memcpy_lem m d s (suc n) j h = elim (Bool-cases (ltb j (d + 1))) [
  | inl early ↦ ground (
    arith,
    memcpy-below (update m d (m s)) (d + 1) (s + 1) n j (ground arith),
    ap m (first early),
  )
  | inr late ↦
      ground (arith, memcpy_lem (update m d (m s)) (d + 1) (s + 1) n j (later h), ap m (next late))
]
  where
    first : ltb j (d + 1) ≡ true → s + (j - d) ≡ (if j == d then s else s + (j - d))
    first e = ground arith

    next : ltb j (d + 1) ≡ false → s + 1 + (j - (d + 1)) ≡ s + (j - d)
    next e = ground arith

    later : (d ≤ s) ⊎ (s + suc n ≤ d) → (d + 1 ≤ s + 1) ⊎ (s + 1 + n ≤ d + 1)
    later (inl a) = inl (omega arith)
    later (inr b) = inr (omega arith)

-- The bytes of two blocks agree up to, and not including, offset `n`.
abbrev pub Agree : (ℕ → ℕ) → ℕ → ℕ → ℕ → Type 0
Agree m a b n = (i : ℕ) → i < n → m (a + i) ≡ m (b + i)

pub Agree-first : (m : ℕ → ℕ) (a b n : ℕ) → Agree m a b (suc n) → m a ≡ m b
Agree-first m a b n h =
    let here : a + 0 ≡ a = omega arith in
    let there : b + 0 ≡ b = omega arith in rw (here, there) at (h 0 (omega arith))

pub Agree-rest : (m : ℕ → ℕ) (a b n : ℕ) → Agree m a b (suc n) → Agree m (a + 1) (b + 1) n
Agree-rest m a b n h i lt =
    let here : a + 1 + i ≡ a + suc i = omega arith in
    let there : b + 1 + i ≡ b + suc i = omega arith in rw (here, there) (h (suc i) (omega arith))

-- `memcmp` of equal blocks is 0.
pub memcmp_equal : (m : ℕ → ℕ) (s1 s2 n : ℕ) → Agree m s1 s2 n → memcmp m s1 s2 n ≡ 0
unfolding memcmp
memcmp_equal m s1 s2 zero h = refl
memcmp_equal m s1 s2 (suc n) h =
    ground
      (arith, Agree-first m s1 s2 n h, memcmp_equal m (s1 + 1) (s2 + 1) n (Agree-rest m s1 s2 n h))

-- Where two blocks differ first at i, `memcmp` returns the difference of the bytes after i.
pub memcmp_differ :
    (m : ℕ → ℕ) (s1 s2 n i : ℕ)
    → i < n
    → Agree m s1 s2 i
    → m (s1 + i) ≢ m (s2 + i)
    → memcmp m s1 s2 n ≡ sub32 (m (s1 + i + 1)) (m (s2 + i + 1))
unfolding memcmp
memcmp_differ m s1 s2 zero i h same differ = elim h [ ]
memcmp_differ m s1 s2 (suc n) zero h same differ =
    let here : s1 + 0 ≡ s1 = omega arith in
    let there : s2 + 0 ≡ s2 = omega arith in
    rw (here, there) (let ne = rw (here, there) at differ in rw (==_ne (m s1) (m s2) ne) refl)
memcmp_differ m s1 s2 (suc n) (suc i) h same differ =
    let here : s1 + suc i ≡ s1 + 1 + i = omega arith in
    let there : s2 + suc i ≡ s2 + 1 + i = omega arith in
    rw (here, there)
      (ground (
        arith,
        Agree-first m s1 s2 i same,
        memcmp_differ m (s1 + 1) (s2 + 1) n i (omega arith) (Agree-rest m s1 s2 i same)
            (rw (here, there) at differ),
      ))
