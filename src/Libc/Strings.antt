-- ===== src/Libc/Strings.antt =====
-- `strlen`, `strncpy` and `strcpy` of libc/string.
use missy_micro.Common.{ℕ, zero, suc, ◌+◌, ◌-◌, ◌≤◌, ◌<◌, ◌≡◌, ◌≢◌, ◌⊎◌, inl, inr, refl, ap}
use missy_micro.Common.{arith}
use missy_micro.Common.{ltb, leb, ◌==◌, if◌then◌else◌, update, ◌&&◌, Bool-cases, ==_ne, false}
use missy_micro.Common.{some}
use missy_micro.Libc.{strlen, strlen_end, strncpy, pad_zero, strcpy}

-- A string of `k` bytes before its zero byte.
pub record IsString (m : ℕ → ℕ) (s k : ℕ) : Type 0 where
  pub ends : m (s + k) ≡ 0
  pub nonzero : (i : ℕ) → i < k → m (s + i) ≢ 0

pub IsString-rest : (m : ℕ → ℕ) (s k : ℕ) → IsString m s (suc k) → IsString m (s + 1) k
IsString-rest m s k h =
    let at_end : s + 1 + k ≡ s + suc k = omega arith in
    record {
      ends = rw at_end h.ends;
      nonzero = λ i lt.
          let here : s + 1 + i ≡ s + suc i = omega arith in
          rw here (h.nonzero (suc i) (omega arith));
    }

pub IsString-empty : (m : ℕ → ℕ) (s : ℕ) → IsString m s 0 → m s ≡ 0
IsString-empty m s h = let here : s + 0 ≡ s = omega arith in rw here at h.ends

pub IsString-first : (m : ℕ → ℕ) (s k : ℕ) → IsString m s (suc k) → m s ≢ 0
IsString-first m s k h =
    let here : s + 0 ≡ s = omega arith in rw here at (h.nonzero 0 (omega arith))

strlen_end_lem :
    (m : ℕ → ℕ) (s k fuel : ℕ) → IsString m s k → k < fuel → strlen_end m s fuel ≡ some (s + k + 1)
unfolding strlen_end
strlen_end_lem m s k zero h lt = elim lt [ ]
strlen_end_lem m s zero (suc fuel) h lt =
    let here : s + 0 + 1 ≡ s + 1 = omega arith in ground (arith, IsString-empty m s h)
strlen_end_lem m s (suc k) (suc fuel) h lt =
    let here : s + suc k + 1 ≡ s + 1 + k + 1 = omega arith in
    rw (here, ==_ne (m s) 0 (IsString-first m s k h))
      (strlen_end_lem m (s + 1) k fuel (IsString-rest m s k h) (omega arith))

-- On a string of k bytes `strlen`, with fuel above k, ends and returns k + 1.
pub strlen_lem :
    (m : ℕ → ℕ) (s k fuel : ℕ) → IsString m s k → k < fuel → strlen m s fuel ≡ some (k + 1)
unfolding strlen
strlen_lem m s k fuel h lt =
    let counted : s + k + 1 - s ≡ k + 1 = omega arith in
    rw (strlen, strlen_end_lem m s k fuel h lt, counted) refl

pad_zero_lem :
    (m : ℕ → ℕ) (d n j : ℕ) → pad_zero m d n j ≡ (if leb d j && ltb j (d + n) then 0 else m j)
unfolding pad_zero
pad_zero_lem m d zero j = ground arith
pad_zero_lem m d (suc n) j = ground (arith, pad_zero_lem (update m d 0) (d + 1) n j)

-- The destination does not begin inside the string.
abbrev pub Apart : ℕ → ℕ → ℕ → Type 0
Apart d s k = (d ≤ s) ⊎ (s + k < d)

Apart-rest : (d s k : ℕ) → Apart d s (suc k) → Apart (d + 1) (s + 1) k
Apart-rest d s k (inl le) = inl (omega arith)
Apart-rest d s k (inr lt) = inr (omega arith)

-- The first byte that is written is none of those still to be read.
Apart-ne : (d s k i : ℕ) → Apart d s (suc k) → i ≤ k → s + 1 + i ≢ d
Apart-ne d s k i (inl le) h e = omega arith
Apart-ne d s k i (inr lt) h e = omega arith

IsString-update :
    (m : ℕ → ℕ) (d s k v : ℕ)
    → Apart d s (suc k)
    → IsString m (s + 1) k
    → IsString (update m d v) (s + 1) k
IsString-update m d s k v apart h = record {
  ends = ground (arith, h.ends, Apart-ne d s k k apart);
  nonzero = λ i q. ground (arith, h.nonzero i, Apart-ne d s k i apart);
}

-- `strncpy` of a string of k bytes into n bytes of memory that do not begin inside the string
-- sets each to the byte of the string there, or to 0 after its end, and leaves all other
-- memory.
pub strncpy_lem :
    (m : ℕ → ℕ) (d s k n j : ℕ)
    → IsString m s k
    → Apart d s k
    → strncpy m d s n j
      ≡ (if leb d j && ltb j (d + n) then (if ltb (j - d) k then m (s + (j - d)) else 0) else m j)
unfolding strncpy
strncpy_lem m d s k zero j h apart = ground arith
strncpy_lem m d s zero (suc n) j h apart =
    ground (arith, IsString-empty m s h, pad_zero_lem m d (suc n) j)
strncpy_lem m d s (suc k) (suc n) j h apart =
    let ne : (m s == 0) ≡ false = ==_ne (m s) 0 (IsString-first m s k h) in
    let rest =
      strncpy_lem (update m d (m s)) (d + 1) (s + 1) k n j
        (IsString-update m d s k (m s) apart (IsString-rest m s k h)) (Apart-rest d s k apart) in
    rw ne (elim (Bool-cases (ltb d j)) [
      | inl after ↦
          let here : s + 1 + (j - (d + 1)) ≡ s + (j - d) = ground arith in
          ground (arith, rest, ap m here, Apart-ne d s k (j - (d + 1)) apart)
      | inr before ↦
          let here : (if j == d then s + (j - d) else s) ≡ s = ground arith in
          ground (arith, rest, ap m here)
    ])

-- `strcpy` of a string of k bytes, with fuel above k, ends and copies it with its zero byte, no
-- more and no less, to memory that does not begin inside the string.
pub strcpy_lem :
    (m : ℕ → ℕ) (d s k fuel : ℕ)
    → IsString m s k
    → Apart d s k
    → k < fuel
    → (m' : ℕ → ℕ) × (strcpy m d s fuel ≡ some m')
      × ((j : ℕ) → m' j ≡ (if leb d j && ltb j (d + k + 1) then m (s + (j - d)) else m j))
unfolding strcpy
strcpy_lem m d s k fuel h apart lt =
    (strncpy m d s (k + 1), rw (strcpy, strlen_lem m s k fuel h lt) refl, λ j. copied j)
  where
    copied :
        (j : ℕ)
        → strncpy m d s (k + 1) j ≡ (if leb d j && ltb j (d + k + 1) then m (s + (j - d)) else m j)
    copied j = elim (Bool-cases (j - d == k)) [
      | inl last ↦
          let here : s + k ≡ s + (j - d) = ground arith in
          ground (arith, strncpy_lem m d s k (k + 1) j h apart, h.ends, ap m here)
      | inr other ↦ ground (arith, strncpy_lem m d s k (k + 1) j h apart)
    ]
