-- ===== src/Console.antt =====
-- `kernel_tty_read` and the initialisations of kernel/arch/i386/vga_tty/tty.c. Between two polls of the
-- keyboard its interrupt handler may run any number of times: `arrivals n` is the list of the
-- scancodes that arrive before poll number n. A character that is stored is a byte.
pub mod Line
pub mod Edges
mod Examples
use missy_micro.Common.{ℕ, zero, suc, ◌+◌, ◌-◌, ◌%◌, ◌^◌, Bool, Option, none, some}
use missy_micro.Common.{ltb, ◌==◌, if◌then◌else◌, update, u8, u32, sub32, List, [], ◌∷◌}
use missy_micro.Keyboard.{Keyboard, ps2_keyboard_enqueue, ps2_keyb_getbyte, no_key}
use missy_micro.Keyboard.Keymap.{KeymapEntry}
use missy_micro.Terminal.{Terminal, terminal_printchar}

-- The keyboard and the number of polls of it.
pub record Input : Type 0 where
  pub keyboard : Keyboard
  pub polls : ℕ

-- What the interrupts do to the keyboard, and what follows the scancode table in memory.
pub record Typist : Type 0 where
  pub beyond : ℕ → KeymapEntry
  pub arrivals : ℕ → List ℕ

abbrev pub receive : (ℕ → KeymapEntry) → Keyboard → List ℕ → Keyboard
receive beyond k [] = k
receive beyond k (c ∷ cs) = receive beyond (ps2_keyboard_enqueue beyond k c) cs

-- One call of `ps2_keyb_getbyte`.
unfoldable pub poll : Typist → Input → ℕ × Input
poll ty i =
    let (key, k) = ps2_keyb_getbyte (receive ty.beyond i.keyboard (ty.arrivals i.polls)) in
    (key, record { keyboard = k; polls = i.polls + 1 })

-- The calls until there is a key.
unfoldable pub wait_key : Typist → Input → ℕ → Option (ℕ × Input)
wait_key ty i zero = none
wait_key ty i (suc fuel) =
    let (key, i') = poll ty i in
    let rest = wait_key ty i' fuel in if key == no_key then rest else some (key, i')

-- The memory, `count`, the screen and the keyboard.
pub record Reading : Type 0 where
  pub memory : ℕ → ℕ
  pub count : ℕ
  pub terminal : Terminal
  pub input : Input

-- `buf[count++] = i`
unfoldable pub store_key : ℕ → Reading → ℕ → Reading
store_key buf r key = record r {
  memory = update r.memory (u32 (buf + r.count)) (u8 key);
  count = u32 (r.count + 1);
}

-- What the loop does with a key other than the line's end.
unfoldable pub take_key : ℕ → Reading → ℕ → Input → Reading
take_key buf r key i =
    let after = if key == 8 then record r { count = sub32 r.count 1 } else store_key buf r key in
    record after { terminal = terminal_printchar after.terminal key; input = i }

-- The loop. `count` is compared with `len` as an unsigned word.
unfoldable pub read_keys : Typist → ℕ → ℕ → Reading → ℕ → Option Reading
read_keys ty buf len r zero = none
read_keys ty buf len r (suc fuel) =
    if ltb r.count len
    then elim (wait_key ty r.input fuel) [
      | none ↦ none
      | some next ↦
          let rest = read_keys ty buf len (take_key buf r next.0 next.1) fuel in
          if next.0 == 13 then some (record r { input = next.1 }) else rest
    ]
    else some r

-- The first key.
unfoldable pub first_key : ℕ → Reading → ℕ → Input → Reading
first_key buf r key i =
    let stored = store_key buf r key in
    record stored { terminal = terminal_printchar stored.terminal key; input = i }

-- The zero byte, and the result.
unfoldable pub end_line_read : ℕ → Reading → ℕ × Reading
end_line_read buf r = (r.count, record r { memory = update r.memory (u32 (buf + r.count)) 0 })

unfoldable pub kernel_tty_read :
    Typist → (ℕ → ℕ) → Terminal → Input → ℕ → ℕ → ℕ → Option (ℕ × Reading)
kernel_tty_read ty m t i buf len fuel = elim (wait_key ty i fuel) [
  | none ↦ none
  | some next ↦
      elim (read_keys ty buf len
        (first_key buf (record { memory = m; count = 0; terminal = t; input = i }) next.0 next.1)
        fuel) [ none ↦ none | some r ↦ some (end_line_read buf r) ]
]
