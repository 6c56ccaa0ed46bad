-- ===== src/Keyboard.antt =====
-- kernel/arch/i386/vga_tty/ps2_keyb.c: from scancodes to a queue of keys. The interrupt handler of
-- ps2_kb.asm calls `ps2_keyboard_enqueue` with a byte read from port 0x60, and the terminal calls
-- `ps2_keyb_getbyte`.
pub mod Keys
pub mod Letters
pub mod Keymap
pub mod Queue
mod Controller
mod Examples
use missy_micro.Common.{
  ℕ, zero, suc, ◌+◌, ◌-◌, ◌/◌, ◌%◌, ◌*◌, ◌^◌, bit_and, Bool, true, false, ◌||◌,
}
use missy_micro.Common.{ltb, ◌==◌, if◌then◌else◌, update, List, get_elem?, Option, none, some, not}
use missy_micro.Keyboard.Keys.{key_lshift, key_rshift}
use missy_micro.Keyboard.Keymap.{KeymapEntry, keymap}

abbrev pub kb_queue_size : ℕ
kb_queue_size = 256

-- `key_queue i` is the word at index `i` from the array's address on; indices from 256 on are the
-- memory after it. `shift` is `_shift`.
pub record Keyboard : Type 0 where
  pub key_queue : ℕ → ℕ
  pub queue_tail : ℕ
  pub shift : Bool

-- `keymap[i]`, where `beyond` is the memory after the table.
unfoldable pub keymap_at : (ℕ → KeymapEntry) → ℕ → KeymapEntry
keymap_at beyond i = elim (get_elem? keymap i) [ none ↦ beyond i | some e ↦ e ]

abbrev pub is_shift : KeymapEntry → Bool
is_shift e = e.lowercase == key_lshift || e.lowercase == key_rshift

-- Pushing a key onto the tail of the queue.
unfoldable pub push_key : Keyboard → KeymapEntry → Keyboard
push_key k e =
    let key = if k.shift then e.uppercase else e.lowercase in
    if ltb k.queue_tail kb_queue_size
    then record k { key_queue = update k.key_queue k.queue_tail key; queue_tail = k.queue_tail + 1 }
    else k

-- The test for a shift key inside the second branch is never true, and is not repeated here.
unfoldable pub ps2_keyboard_enqueue : (ℕ → KeymapEntry) → Keyboard → ℕ → Keyboard
ps2_keyboard_enqueue beyond k scancode =
    let e = keymap_at beyond (bit_and scancode 0xffffff7f) in
    let break_code = not (bit_and scancode 0x80 == 0) in
    if is_shift e
    then record k { shift = not break_code }
    else if break_code
    then push_key k e
    else k

-- The `for` loop of `ps2_keyboard_dequeue`, with `left` rounds to go from `i` on.
unfoldable pub copy_forward : (ℕ → ℕ) → ℕ → ℕ → ℕ → ℕ
copy_forward q i zero = q
copy_forward q i (suc left) = copy_forward (update q i (q (i + 1))) (i + 1) left

unfoldable pub ps2_keyboard_dequeue : Keyboard → ℕ × Keyboard
ps2_keyboard_dequeue k = (
  k.key_queue 0,
  record k {
    key_queue = copy_forward k.key_queue 0 k.queue_tail;
    queue_tail = if ltb 0 k.queue_tail then k.queue_tail - 1 else k.queue_tail;
  },
)

-- The `-1` of `ps2_keyb_getbyte`.
abbrev pub no_key : ℕ
no_key = 0xffffffff

unfoldable pub ps2_keyb_getbyte : Keyboard → ℕ × Keyboard
ps2_keyb_getbyte k = if ltb 0 k.queue_tail then ps2_keyboard_dequeue k else (no_key, k)
