-- ===== src/Libc/Strtol.antt =====
-- `strtol` of libc/stdlib/strtol.c. A `long` has 32 bits and is a word here; 2 ^ 31 and more are
-- negative.
pub mod Laws
mod Examples
use missy_micro.Common.{
  ℕ, zero, suc, ◌+◌, ◌-◌, ◌*◌, ◌/◌, ◌%◌, ◌^◌, Bool, true, false, ◌||◌, ◌&&◌, not,
}
use missy_micro.Common.{Option, none, some, ltb, leb, ◌==◌, if◌then◌else◌, u32, sub32}
use missy_micro.Libc.{isalpha, isdigit, isspace, isupper}

-- The inner loop over white space, which moves past the byte that ends it.
unfoldable pub skip_space : (ℕ → ℕ) → ℕ → ℕ → Option ℕ
skip_space m p zero = none
skip_space m p (suc fuel) =
    let rest = skip_space m (p + 1) fuel in if isspace (m p) then rest else some (p + 1)

-- The digit of a character.
unfoldable pub digit_value : ℕ → Option ℕ
digit_value c =
    if isdigit c
    then some (c - 48)
    else if isalpha c
    then some (c - (if isupper c then 55 else 87))
    else none

-- The pointer, the value and `any`, which is 0, 1 or the word of -1.
pub record Scan : Type 0 where
  pub numstr : ℕ
  pub retval : ℕ
  pub any : ℕ

-- The test for a value out of range. `cutoff` and `cutlimit` are not negative.
unfoldable pub out_of_range : ℕ → ℕ → ℕ → ℕ → ℕ → Bool
out_of_range retval any cutoff cutlimit c =
    leb 0x80000000 any
    || (ltb retval 0x80000000 && ltb cutoff retval)
    || (retval == cutoff && ltb cutlimit c)

-- What a round does to the value and to `any`.
unfoldable pub accumulate : Scan → ℕ → ℕ → ℕ → ℕ → Scan
accumulate s base cutoff cutlimit c =
    if out_of_range s.retval s.any cutoff cutlimit c
    then record { numstr = s.numstr + 1; retval = s.retval; any = 0xffffffff }
    else record { numstr = s.numstr + 1; retval = u32 (s.retval * base + c); any = 1 }

-- The `while` loop.
unfoldable pub scan : (ℕ → ℕ) → Scan → ℕ → ℕ → ℕ → ℕ → Option Scan
scan m s base cutoff cutlimit zero = none
scan m s base cutoff cutlimit (suc fuel) =
    if m s.numstr == 0 then some s else elim (digit_value (m s.numstr)) [
      | none ↦ some s
      | some c ↦
          let rest = scan m (accumulate s base cutoff cutlimit c) base cutoff cutlimit fuel in
          if leb base c then some s else rest
    ]

-- What `strtol` returns, what it stores through `endptr`, if it does, and `errno`.
pub record Converted : Type 0 where
  pub value : ℕ
  pub endptr : Option ℕ
  pub errno : ℕ

-- The sign: whether there is a minus, and the pointer after it.
unfoldable pub read_sign : (ℕ → ℕ) → ℕ → Bool × ℕ
read_sign m p =
    if m p == 45 then (true, p + 1) else if m p == 43 then (false, p + 1) else (false, p)

-- The prefix: the base, and the pointer after it. The test for an `x` compares the byte of the
-- zero itself, and one more.
unfoldable pub read_prefix : (ℕ → ℕ) → ℕ → ℕ → ℕ × ℕ
read_prefix m p base =
    let hex = m p == 48 && m p + 1 == 120 in
    if base == 16
    then (if hex then (base, p + 2) else (base, p))
    else if base == 0
    then (let after = if hex then (16, p + 2) else (base, p) in
        if m after.1 == 79 then (8, after.1 + 1) else after)
    else (base, p)

-- What follows the loop.
unfoldable pub finish_strtol : ℕ → Bool → Bool → ℕ → Scan → Converted
finish_strtol num wanted negative errno s =
    let failed = leb 0x80000000 s.any in
    let limit = if negative then 0x80000000 else 0x7fffffff in
    let retval = if failed then limit else s.retval in
    record {
      value = if negative then sub32 0 retval else retval;
      endptr = if wanted then some (if s.any == 0 then num else s.numstr - 1) else none;
      errno = if failed then 3 else errno;
    }

-- From the prefix on. `none` is a division by 0, or that the fuel runs out.
unfoldable pub convert_digits : (ℕ → ℕ) → ℕ → Bool → Bool → ℕ × ℕ → ℕ → ℕ → Option Converted
convert_digits m num wanted negative (b, p) errno fuel =
    let limit = if negative then 0x80000000 else 0x7fffffff in
    if b == 0
    then none
    else elim (scan m (record { numstr = p; retval = 0; any = 0 }) b (limit / b) (limit % b) fuel) [
      | none ↦ none
      | some s ↦ some (finish_strtol num wanted negative errno s)
    ]

-- From the sign on.
unfoldable pub convert : (ℕ → ℕ) → ℕ → Bool → Bool × ℕ → ℕ → ℕ → ℕ → Option Converted
convert m num wanted (negative, p) base errno fuel =
    convert_digits m num wanted negative (read_prefix m p base) errno fuel

-- `wanted` says that `endptr` is not null.
unfoldable pub strtol : (ℕ → ℕ) → ℕ → Bool → ℕ → ℕ → ℕ → Option Converted
strtol m num wanted base errno fuel =
    if not (base == 0) && (ltb base 2 || ltb 36 base)
    then some (record { value = 0; endptr = none; errno = 3 })
    else elim (if isspace (m num) then skip_space m num fuel else some num) [
      | none ↦ none
      | some p ↦ convert m num wanted (read_sign m p) base errno fuel
    ]
