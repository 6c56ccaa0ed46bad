-- ===== src/Keyboard/Examples.antt =====
-- The results about ps2_keyb.c on a queue of one key.
use missy_micro.Common.{ℕ, ◌≡◌, ◌≤◌, refl, arith, false, List, [], ◌∷◌}
use missy_micro.Common.{if◌then◌else◌, ◌==◌}
use missy_micro.Keyboard.{Keyboard, ps2_keyboard_enqueue, ps2_keyb_getbyte, keymap_at, push_key}
use missy_micro.Keyboard.{ps2_keyboard_dequeue, copy_forward}
use missy_micro.Keyboard.Keymap.{KeymapEntry}
use missy_micro.Keyboard.Queue.{Event, scancode, read, driver_reads, queue_reads, keys_of}
use missy_micro.Keyboard.Queue.{driver_reads-queue_reads, enqueue-tail}

abbrev unknown : ℕ → KeymapEntry
unknown i = record { lowercase = 0; uppercase = 0 }

abbrev one_key : Keyboard
one_key = record { key_queue = λ i. if i == 0 then 97 else 0; queue_tail = 1; shift = false }

-- Shift goes down, and Q is pressed and released.
abbrev upper_q : List Event
upper_q = scancode 0x2a ∷ scancode 0x10 ∷ scancode 0x90 ∷ read ∷ read ∷ read ∷ []

upper_q_reads : driver_reads unknown one_key upper_q ≡ 97 ∷ 81 ∷ 0xffffffff ∷ []
unfolding ps2_keyboard_enqueue push_key ps2_keyb_getbyte ps2_keyboard_dequeue keymap_at copy_forward
upper_q_reads = refl

reads_example : driver_reads unknown one_key upper_q ≡ queue_reads unknown (keys_of one_key) upper_q
reads_example = driver_reads-queue_reads unknown one_key upper_q

tail_example :
    (ps2_keyboard_enqueue unknown one_key 0x90).queue_tail ≤ 256
    × (ps2_keyb_getbyte one_key).1.queue_tail ≤ 256
tail_example = enqueue-tail unknown one_key 0x90 (omega arith)
