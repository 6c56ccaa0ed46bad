-- ===== src/Libc/Compare.antt =====
-- `strcmp` and `strncmp` of libc/string.
use missy_micro.Common.{ℕ, zero, suc, ◌+◌, ◌<◌, min, ◌≡◌, ◌≢◌, ◌↔◌, inl, inr}
use missy_micro.Common.{◌==◌, Bool-cases, ==_ne, ==_iff, true, false}
use missy_micro.Common.{some, refl, arith}
use missy_micro.Libc.{strcmp, strncmp, char_difference}
use missy_micro.Libc.Blocks.{Agree, Agree-first, Agree-rest}
use missy_micro.Libc.Strings.{IsString, IsString-rest, IsString-empty, IsString-first}

-- Bytes.
abbrev pub IsBytes : (ℕ → ℕ) → Type 0
IsBytes m = (i : ℕ) → m i < 256

char_difference-ne_zero : (m : ℕ → ℕ) (a b : ℕ) → IsBytes m → m a ≢ m b → char_difference m a b ≢ 0
char_difference-ne_zero m a b bytes ne e = ground (arith, bytes a, bytes b)

Agree-cons : (m : ℕ → ℕ) (a b n : ℕ) → m a ≡ m b → Agree m (a + 1) (b + 1) n → Agree m a b (suc n)
Agree-cons m a b n e h zero lt =
    let here : a + 0 ≡ a = omega arith in let there : b + 0 ≡ b = omega arith in rw (here, there) e
Agree-cons m a b n e h (suc i) lt =
    let here : a + suc i ≡ a + 1 + i = omega arith in
    let there : b + suc i ≡ b + 1 + i = omega arith in rw (here, there) (h i (omega arith))

-- Where the first bytes differ, so does the result from 0.
differs :
    (m : ℕ → ℕ) (a b n : ℕ)
    → IsBytes m
    → (m a == m b) ≡ false
    → (char_difference m a b ≡ 0) ↔ Agree m a b (suc n)
differs m a b n bytes differ = (
  λ e. absurd (char_difference-ne_zero m a b bytes ne e),
  λ g. absurd (ne (Agree-first m a b n g)),
)
  where
    ne : m a ≢ m b
    ne e = ground arith

-- In a memory of bytes, `strncmp` of a string of k bytes is 0 exactly if the blocks agree in
-- the first n bytes, or up to the zero byte of the string where that comes first.
pub strncmp_lem :
    (m : ℕ → ℕ) (s1 s2 k n : ℕ)
    → IsBytes m
    → IsString m s1 k
    → (strncmp m s1 s2 n ≡ 0) ↔ Agree m s1 s2 (min n (suc k))
unfolding strncmp
strncmp_lem m s1 s2 k zero bytes h = (λ e i lt. absurd (omega arith), λ g. refl)
strncmp_lem m s1 s2 zero (suc n) bytes h =
    let count : min (suc n) 1 ≡ suc (min n 0) = omega arith in
    let ends : (m s1 == 0) ≡ true = (==_iff _ _).1 (IsString-empty m s1 h) in
    elim (Bool-cases (m s1 == m s2)) [
      | inl same ↦
          rw (same, ends, count)
            (
              λ e.
                  Agree-cons m s1 s2 (min n 0) ((==_iff _ _).0 same) (λ i lt. absurd (omega arith)),
              λ g. refl,
            )
      | inr differ ↦ rw (differ, count) (differs m s1 s2 (min n 0) bytes differ)
    ]
strncmp_lem m s1 s2 (suc k) (suc n) bytes h =
    let count : min (suc n) (suc (suc k)) ≡ suc (min n (suc k)) = omega arith in
    let goes_on : (m s1 == 0) ≡ false = ==_ne (m s1) 0 (IsString-first m s1 k h) in
    let (to, from) = strncmp_lem m (s1 + 1) (s2 + 1) k n bytes (IsString-rest m s1 k h) in
    elim (Bool-cases (m s1 == m s2)) [
      | inl same ↦
          rw (same, goes_on, count)
            (
              λ e. Agree-cons m s1 s2 (min n (suc k)) ((==_iff _ _).0 same) (to e),
              λ g. from (Agree-rest m s1 s2 (min n (suc k)) g),
            )
      | inr differ ↦ rw (differ, count) (differs m s1 s2 (min n (suc k)) bytes differ)
    ]

-- On a string of k bytes in a memory of bytes, `strcmp` with fuel above k ends, and its result
-- is 0 exactly if the other string is the same, byte for byte with the zero byte.
pub strcmp_lem :
    (m : ℕ → ℕ) (s1 s2 k fuel : ℕ)
    → IsBytes m
    → IsString m s1 k
    → k < fuel
    → (r : ℕ) × (strcmp m s1 s2 fuel ≡ some r) × ((r ≡ 0) ↔ Agree m s1 s2 (suc k))
unfolding strcmp
strcmp_lem m s1 s2 k zero bytes h lt = elim lt [ ]
strcmp_lem m s1 s2 zero (suc fuel) bytes h lt =
    let ends : (m s1 == 0) ≡ true = (==_iff _ _).1 (IsString-empty m s1 h) in
    elim (Bool-cases (m s1 == m s2)) [
      | inl same ↦
          rw (same, ends)
            (
              0,
              refl,
              (
                λ e. Agree-cons m s1 s2 0 ((==_iff _ _).0 same) (λ i p. absurd (omega arith)),
                λ g. refl,
              ),
            )
      | inr differ ↦ rw differ (char_difference m s1 s2, refl, differs m s1 s2 0 bytes differ)
    ]
strcmp_lem m s1 s2 (suc k) (suc fuel) bytes h lt =
    let goes_on : (m s1 == 0) ≡ false = ==_ne (m s1) 0 (IsString-first m s1 k h) in
    let (r, e, (to, from)) =
      strcmp_lem m (s1 + 1) (s2 + 1) k fuel bytes (IsString-rest m s1 k h) (omega arith) in
    elim (Bool-cases (m s1 == m s2)) [
      | inl same ↦
          rw (same, goes_on)
            (
              r,
              e,
              (
                λ z. Agree-cons m s1 s2 (suc k) ((==_iff _ _).0 same) (to z),
                λ g. from (Agree-rest m s1 s2 (suc k) g),
              ),
            )
      | inr differ ↦ rw differ (char_difference m s1 s2, refl, differs m s1 s2 (suc k) bytes differ)
    ]
