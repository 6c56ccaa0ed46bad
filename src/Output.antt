-- ===== src/Output.antt =====
-- Formatted output: `printf`, `puts` and `putchar` of libc/stdio, and `terminal_printf` of
-- kernel/arch/i386/vga_tty/tty.c. A call is given the memory, the words of its variable arguments in
-- `args`, the address of the array `num_str` in `frame`, and fuel for the loops that only a byte of
-- memory ends. Characters are passed on as words.
pub mod Bytes
pub mod Numbers
mod Examples
use missy_micro.Common.{ℕ, zero, suc, ◌+◌, ◌%◌, ◌^◌, Bool, ◌||◌, Option, none, some}
use missy_micro.Common.{◌==◌, if◌then◌else◌, u8, ◌-◌}
use missy_micro.Libc.{strlen, char_value}
use missy_micro.Libc.Itoa.{itoa_s}
use missy_micro.Terminal.{Terminal, terminal_printchar}

-- What `itoa_s` finds beyond `lettermap`, its static array, and the address of `num_str`. The
-- digits of an earlier call are not read, so the array is the same for each call.
pub record Frame : Type 0 where
  pub beyond : ℕ → ℕ
  pub buffer : ℕ → ℕ
  pub num_str : ℕ

-- The item takes an argument.
unfoldable pub takes_argument : ℕ → Bool
takes_argument c =
    c == 100 || c == 105 || (c == 98 || (c == 88 || c == 120)) || (c == 115 || c == 99)

-- The arguments that are left.
abbrev pub next_args : ℕ → (ℕ → ℕ) → ℕ → ℕ
next_args c args i = if takes_argument c then args (i + 1) else args i

-- `putchar`, whose output is a state of any type.
module _ {ℓ} {S : Type ℓ} (put : S → ℕ → S) where
  -- The loop over `num_str`, with `n` rounds to go.
  unfoldable pub put_bytes : (ℕ → ℕ) → ℕ → ℕ → S → S
  put_bytes m p zero s = s
  put_bytes m p (suc n) s = put_bytes m (p + 1) n (put s (char_value (m p)))

  -- The branches for a number.
  unfoldable pub put_number : Frame → ℕ → ℕ → ℕ → (ℕ → ℕ) → S → Option ((ℕ → ℕ) × S)
  put_number f base fuel num m s = elim (itoa_s f.beyond f.buffer m f.num_str num base 32) [
    | none ↦ none
    | some m' ↦ elim (strlen m' f.num_str fuel) [
      | none ↦ none
      | some n ↦ some (m', put_bytes m' f.num_str n s)
    ]
  ]

  -- The branch for a string.
  unfoldable pub put_string : ℕ → ℕ → (ℕ → ℕ) → S → Option ((ℕ → ℕ) × S)
  put_string zero p m s = none
  put_string (suc fuel) p m s =
      let rest = put_string fuel (p + 1) m (put s (char_value (m p))) in
      if m p == 0 then some (m, s) else rest

  -- What follows a `%`.
  unfoldable pub put_item : Frame → ℕ → ℕ → ℕ → (ℕ → ℕ) → S → Option ((ℕ → ℕ) × S)
  put_item f fuel c arg m s =
      if c == 100 || c == 105
      then put_number f 10 fuel arg m s
      else if c == 98
      then put_number f 2 fuel arg m s
      else if c == 88 || c == 120
      then put_number f 16 fuel arg m s
      else if c == 115
      then put_string fuel arg m s
      else if c == 99
      then some (m, put s (u8 arg))
      else some (m, put s (char_value c))

  -- The loop over the format.
  unfoldable pub printf : Frame → ℕ → ℕ → (ℕ → ℕ) → (ℕ → ℕ) → S → Option ((ℕ → ℕ) × S)
  printf f zero str args m s = none
  printf f (suc fuel) str args m s =
      let rest = printf f fuel (str + 1) args m (put s (char_value (m str))) in
      if m str == 0
      then some (m, s)
      else if m str == 37
      then elim (put_item f fuel (m (str + 1)) (args 0) m s) [
        | none ↦ none
        | some after ↦ printf f fuel (str + 2) (next_args (m (str + 1)) args) after.0 after.1
      ]
      else rest

-- `EOF`
abbrev pub eof : ℕ
eof = 0xffffffff

-- `putchar` of the kernel's build.
unfoldable pub putchar : Terminal → ℕ → ℕ × Terminal
putchar t c = (c, terminal_printchar t c)

-- The end of `puts`, at the zero byte `s`.
unfoldable pub end_puts : ℕ → ℕ → Terminal → ℕ × Terminal
end_puts str s t =
    let (status, u) = putchar t 10 in if status == eof then (eof, u) else (s - str + 1, u)

-- The loop of `puts`, and what follows it.
unfoldable pub puts : (ℕ → ℕ) → ℕ → ℕ → ℕ → Terminal → Option (ℕ × Terminal)
puts m str zero s t = none
puts m str (suc fuel) s t =
    let (status, u) = putchar t (m s) in
    let rest = puts m str fuel (s + 1) u in
    if m s == 0 then some (end_puts str s t) else if status == eof then some (eof, u) else rest

-- `terminal_printf` repeats `printf`, with `terminal_printchar` for `putchar`.
unfoldable pub print_bytes : (ℕ → ℕ) → ℕ → ℕ → Terminal → Terminal
print_bytes m p zero t = t
print_bytes m p (suc n) t = print_bytes m (p + 1) n (terminal_printchar t (char_value (m p)))

unfoldable pub print_number : Frame → ℕ → ℕ → ℕ → (ℕ → ℕ) → Terminal → Option ((ℕ → ℕ) × Terminal)
print_number f base fuel num m t = elim (itoa_s f.beyond f.buffer m f.num_str num base 32) [
  | none ↦ none
  | some m' ↦ elim (strlen m' f.num_str fuel) [
    | none ↦ none
    | some n ↦ some (m', print_bytes m' f.num_str n t)
  ]
]

unfoldable pub print_string : ℕ → ℕ → (ℕ → ℕ) → Terminal → Option ((ℕ → ℕ) × Terminal)
print_string zero p m t = none
print_string (suc fuel) p m t =
    let rest = print_string fuel (p + 1) m (terminal_printchar t (char_value (m p))) in
    if m p == 0 then some (m, t) else rest

unfoldable pub print_item : Frame → ℕ → ℕ → ℕ → (ℕ → ℕ) → Terminal → Option ((ℕ → ℕ) × Terminal)
print_item f fuel c arg m t =
    if c == 100 || c == 105
    then print_number f 10 fuel arg m t
    else if c == 98
    then print_number f 2 fuel arg m t
    else if c == 88 || c == 120
    then print_number f 16 fuel arg m t
    else if c == 115
    then print_string fuel arg m t
    else if c == 99
    then some (m, terminal_printchar t (u8 arg))
    else some (m, terminal_printchar t (char_value c))

unfoldable pub terminal_printf :
    Frame → ℕ → ℕ → (ℕ → ℕ) → (ℕ → ℕ) → Terminal → Option ((ℕ → ℕ) × Terminal)
terminal_printf f zero str args m t = none
terminal_printf f (suc fuel) str args m t =
    let rest =
      terminal_printf f fuel (str + 1) args m (terminal_printchar t (char_value (m str))) in
    if m str == 0
    then some (m, t)
    else if m str == 37
    then elim (print_item f fuel (m (str + 1)) (args 0) m t) [
      | none ↦ none
      | some after ↦ terminal_printf f fuel (str + 2) (next_args (m (str + 1)) args) after.0 after.1
    ]
    else rest
