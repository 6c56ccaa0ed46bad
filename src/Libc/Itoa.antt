-- ===== src/Libc/Itoa.antt =====
-- `itoa_s` of libc/stdlib/itoa_s.c. The base is a word; 2 ^ 31 and more are negative.
pub mod Laws
mod Examples
use missy_micro.Common.{
  ℕ, zero, suc, ◌+◌, ◌-◌, ◌*◌, ◌/◌, ◌%◌, ◌^◌, Bool, ◌||◌, ◌&&◌, Option, none, some,
}
use missy_micro.Common.{ltb, ◌==◌, if◌then◌else◌, update, List, [], ◌∷◌, get_elem?}

-- "0123456789abcdef" with its zero byte.
abbrev pub lettermap : List ℕ
lettermap =
    48 ∷ 49 ∷ 50 ∷ 51 ∷ 52 ∷ 53 ∷ 54 ∷ 55 ∷ 56 ∷ 57 ∷ 97 ∷ 98 ∷ 99 ∷ 100 ∷ 101 ∷ 102 ∷ 0 ∷ []

-- `lettermap[d]`, where `beyond` is the memory after the string.
unfoldable pub letter : (ℕ → ℕ) → ℕ → ℕ
letter beyond d = elim (get_elem? lettermap d) [ none ↦ beyond d | some c ↦ c ]

-- The `while` loop, which fills `buffer` from `pos` on with the digits, the lowest first. `none` is
-- the processor's trap on a division by 0, or that the fuel runs out. Bytes past the 32 of the
-- array are the memory after it.
unfoldable pub fill_digits : (ℕ → ℕ) → (ℕ → ℕ) → ℕ → ℕ → ℕ → ℕ → Option ((ℕ → ℕ) × ℕ)
fill_digits beyond buffer pos num base zero = if num == 0 then some (buffer, pos) else none
fill_digits beyond buffer pos num base (suc fuel) =
    let rest =
      fill_digits beyond (update buffer pos (letter beyond (num % base))) (pos + 1) (num / base)
        base fuel in
    if num == 0 then some (buffer, pos) else if base == 0 then none else rest

-- The `for` loop, with `left` rounds to go.
unfoldable pub copy_digits : (ℕ → ℕ) → (ℕ → ℕ) → ℕ → ℕ → ℕ → ℕ → ℕ → ℕ
copy_digits buffer m str pos opos zero = m
copy_digits buffer m str pos opos (suc left) =
    copy_digits buffer (update m (str + opos) (buffer pos)) str (pos - 1) (opos + 1) left

-- The loop and the byte after it.
unfoldable pub finish_itoa : (ℕ → ℕ) → ℕ → (ℕ → ℕ) × ℕ → ℕ → ℕ
finish_itoa m str (buffer, top) = update (copy_digits buffer m str (top - 1) 0 top) (str + top) 0

unfoldable pub itoa_s : (ℕ → ℕ) → (ℕ → ℕ) → (ℕ → ℕ) → ℕ → ℕ → ℕ → ℕ → Option (ℕ → ℕ)
itoa_s beyond buffer m str num base fuel =
    if num == 0 || (ltb 16 base && ltb base 0x80000000)
    then some (update (update m str 48) (str + 1) 0)
    else elim (fill_digits beyond buffer 0 num base fuel) [
      | none ↦ none
      | some filled ↦ some (finish_itoa m str filled)
    ]
