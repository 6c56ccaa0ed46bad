-- ===== src/Libc.antt =====
-- The strings and the blocks of memory of libc/string. Memory is a byte for each address. A
-- pointer that is moved past the end of the address space is undefined in C; here the addresses go
-- on. A loop that only a byte of memory ends has fuel, and `none` is running out of it.
pub mod Blocks
pub mod Strings
pub mod Compare
pub mod Itoa
pub mod Strtol
use missy_micro.Common.{
  ℕ, zero, suc, ◌+◌, ◌-◌, ◌*◌, ◌/◌, ◌%◌, ◌^◌, Bool, ◌||◌, ◌&&◌, Option, none, some,
}
use missy_micro.Common.{ltb, leb, ◌==◌, if◌then◌else◌, update, u8, sub32}

-- `memset`, with `n` rounds left. The loop does not advance `d`.
unfoldable pub memset : (ℕ → ℕ) → ℕ → ℕ → ℕ → ℕ → ℕ
memset m d val zero = m
memset m d val (suc n) = memset (update m d (u8 val)) d val n

unfoldable pub memcpy : (ℕ → ℕ) → ℕ → ℕ → ℕ → ℕ → ℕ
memcpy m d s zero = m
memcpy m d s (suc n) = memcpy (update m d (m s)) (d + 1) (s + 1) n

-- `memcmp`, with `n` rounds left: both pointers have moved on when the difference is taken.
unfoldable pub memcmp : (ℕ → ℕ) → ℕ → ℕ → ℕ → ℕ
memcmp m s1 s2 zero = 0
memcmp m s1 s2 (suc n) =
    let rest = memcmp m (s1 + 1) (s2 + 1) n in
    if m s1 == m s2 then rest else sub32 (m (s1 + 1)) (m (s2 + 1))

-- The pointer `s2` of `strlen` after the loop: one past the zero byte.
unfoldable pub strlen_end : (ℕ → ℕ) → ℕ → ℕ → Option ℕ
strlen_end m s zero = none
strlen_end m s (suc fuel) =
    let rest = strlen_end m (s + 1) fuel in if m s == 0 then some (s + 1) else rest

unfoldable pub strlen : (ℕ → ℕ) → ℕ → ℕ → Option ℕ
strlen m s fuel = elim (strlen_end m s fuel) [ none ↦ none | some e ↦ some (e - s) ]

-- A `char` is signed: its value as an `int`, modulo 2 ^ 32.
abbrev pub char_value : ℕ → ℕ
char_value c = if ltb c 128 then c else c + 2 ^ 32 - 2 ^ 8

-- The difference of the two bytes that `s1` and `s2` point to.
abbrev pub char_difference : (ℕ → ℕ) → ℕ → ℕ → ℕ
char_difference m s1 s2 = sub32 (char_value (m s1)) (char_value (m s2))

unfoldable pub strcmp : (ℕ → ℕ) → ℕ → ℕ → ℕ → Option ℕ
strcmp m s1 s2 zero = none
strcmp m s1 s2 (suc fuel) =
    let rest = strcmp m (s1 + 1) (s2 + 1) fuel in
    if m s1 == m s2 then (if m s1 == 0 then some 0 else rest) else some (char_difference m s1 s2)

unfoldable pub strncmp : (ℕ → ℕ) → ℕ → ℕ → ℕ → ℕ
strncmp m s1 s2 zero = 0
strncmp m s1 s2 (suc len) =
    let rest = strncmp m (s1 + 1) (s2 + 1) len in
    if m s1 == m s2 then (if m s1 == 0 then 0 else rest) else char_difference m s1 s2

-- The second loop of `strncpy`, with `n` bytes to go.
unfoldable pub pad_zero : (ℕ → ℕ) → ℕ → ℕ → ℕ → ℕ
pad_zero m d zero = m
pad_zero m d (suc n) = pad_zero (update m d 0) (d + 1) n

unfoldable pub strncpy : (ℕ → ℕ) → ℕ → ℕ → ℕ → ℕ → ℕ
strncpy m d s zero = m
strncpy m d s (suc n) =
    let rest = strncpy (update m d (m s)) (d + 1) (s + 1) n in
    if m s == 0 then pad_zero m d (suc n) else rest

-- `strcpy`, which copies as many bytes as `strlen` returns.
unfoldable pub strcpy : (ℕ → ℕ) → ℕ → ℕ → ℕ → Option (ℕ → ℕ)
strcpy m d s fuel = elim (strlen m s fuel) [ none ↦ none | some n ↦ some (strncpy m d s n) ]

unfoldable pub isalpha : ℕ → Bool
isalpha c = leb 97 c && leb c 122 || leb 65 c && leb c 90

unfoldable pub isdigit : ℕ → Bool
isdigit c = leb 48 c && leb c 57

unfoldable pub isalnum : ℕ → Bool
isalnum c = isdigit c || isalpha c

unfoldable pub isspace : ℕ → Bool
isspace c = c == 32 || c == 9

unfoldable pub isupper : ℕ → Bool
isupper c = leb 65 c && leb c 90
