-- ===== src/Console/Examples.antt =====
-- The results about `kernel_tty_read` on a queue of keys that are there from the start.
use missy_micro.Common.{ℕ, ◌+◌, ◌-◌, ◌≡◌, refl, arith, false, some, List, [], ◌∷◌, get_or, length}
use missy_micro.Keyboard.{ps2_keyb_getbyte, ps2_keyboard_dequeue, copy_forward}
use missy_micro.Terminal.{Terminal}
use missy_micro.Console.{Typist, Input, Reading, poll, wait_key, kernel_tty_read}
use missy_micro.Console.Line.{Types, IsLine, kernel_tty_read_lem}
use missy_micro.Console.Edges.{kernel_tty_read_full, kernel_tty_read_before}

abbrev quiet : Typist
quiet = record { beyond = λ i. record { lowercase = 0; uppercase = 0 }; arrivals = λ n. [] }

abbrev queued : List ℕ → Input
queued ks = record {
  keyboard = record { key_queue = λ i. get_or ks i 0; queue_tail = length ks; shift = false };
  polls = 0;
}

abbrev after : Input → Input
after i = (poll quiet i).1

abbrev screen : Terminal
screen = record { cur_x = 0; cur_y = 0; color_attrib = 15; video_memory = λ i. 0; sent = [] }

abbrev zeros : ℕ → ℕ
zeros i = 0

-- "ab" and the line's end.
abbrev ab : Input
ab = queued (97 ∷ 98 ∷ 13 ∷ [])

ab_typed : Types quiet 1 ab (97 ∷ 98 ∷ []) (after (after ab))
unfolding wait_key poll ps2_keyb_getbyte ps2_keyboard_dequeue copy_forward
ab_typed = (after ab, refl, (after (after ab), refl, refl))

end_typed : wait_key quiet (after (after ab)) 1 ≡ some (13, after (after (after ab)))
unfolding wait_key poll ps2_keyb_getbyte ps2_keyboard_dequeue copy_forward
end_typed = refl

tty_read_example :
    (result : ℕ × Reading) × (kernel_tty_read quiet zeros screen ab 1000 10 (1 + 2) ≡ some result)
    × IsLine zeros screen 1000 (97 ∷ 98 ∷ []) (after (after (after ab))) result
tty_read_example =
    kernel_tty_read_lem quiet zeros screen ab (after (after ab)) (after (after (after ab))) 1000 10
      97 (98 ∷ []) 1 (omega arith) (omega arith) (omega arith, omega arith, tt) ab_typed end_typed

full_example :
    (result : ℕ × Reading) × (kernel_tty_read quiet zeros screen ab 1000 2 (1 + 2) ≡ some result)
    × (result.0 ≡ 2)
    × (result.1.memory (1000 + 2) ≡ 0)
    × (result.1.input ≡ after (after ab))
full_example =
    kernel_tty_read_full quiet zeros screen ab (after (after ab)) 1000 2 97 (98 ∷ []) 1
      (omega arith) (omega arith) (omega arith, omega arith, tt) ab_typed

abbrev erased : Input
erased = queued (97 ∷ 8 ∷ 8 ∷ [])

erased_typed : Types quiet 1 erased (97 ∷ 8 ∷ 8 ∷ []) (after (after (after erased)))
unfolding wait_key poll ps2_keyb_getbyte ps2_keyboard_dequeue copy_forward
erased_typed =
    (after erased, refl, (after (after erased), refl, (after (after (after erased)), refl, refl)))

before_example :
    (result : ℕ × Reading) × (kernel_tty_read quiet zeros screen erased 1000 10 (1 + 3)
      ≡ some result)
    × (result.0 ≡ 0xffffffff)
    × (result.1.memory (1000 - 1) ≡ 0)
    × (result.1.input ≡ after (after (after erased)))
before_example =
    kernel_tty_read_before quiet zeros screen erased (after (after (after erased))) 1000 10 97 1
      (omega arith) (omega arith) (omega arith) erased_typed
