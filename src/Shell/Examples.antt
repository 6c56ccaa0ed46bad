-- ===== src/Shell/Examples.antt =====
-- The line "help", typed on a quiet keyboard.
use missy_micro.Common.{ℕ, zero, suc, ◌≡◌, refl, arith, false, some, List, [], ◌∷◌, get_or}
use missy_micro.Keyboard.{ps2_keyb_getbyte, ps2_keyboard_dequeue, copy_forward}
use missy_micro.Terminal.{Terminal}
use missy_micro.Console.{Typist, Input, poll, wait_key}
use missy_micro.Console.Line.{Types}
use missy_micro.Shell.Line.{NoZero}

abbrev pub quiet : Typist
quiet = record { beyond = λ i. record { lowercase = 0; uppercase = 0 }; arrivals = λ n. [] }

abbrev pub help_line : List ℕ
help_line = 104 ∷ 101 ∷ 108 ∷ 112 ∷ []

abbrev pub typed : Input
typed = record {
  keyboard = record {
    key_queue = λ i. get_or (104 ∷ 101 ∷ 108 ∷ 112 ∷ 13 ∷ []) i 0;
    queue_tail = 5;
    shift = false;
  };
  polls = 0;
}

abbrev pub after : Input → Input
after i = (poll quiet i).1

abbrev pub four_typed : Input
four_typed = after (after (after (after typed)))

pub help_typed : Types quiet 29 typed help_line four_typed
unfolding wait_key poll ps2_keyb_getbyte ps2_keyboard_dequeue copy_forward
help_typed = (
  after typed,
  refl,
  (after (after typed), refl, (after (after (after typed)), refl, (four_typed, refl, refl))),
)

pub end_typed : wait_key quiet four_typed 29 ≡ some (13, after four_typed)
unfolding wait_key poll ps2_keyb_getbyte ps2_keyboard_dequeue copy_forward
end_typed = refl

pub help_line-NoZero : NoZero help_line
help_line-NoZero zero lt e = omega arith
help_line-NoZero (suc zero) lt e = omega arith
help_line-NoZero (suc (suc zero)) lt e = omega arith
help_line-NoZero (suc (suc (suc zero))) lt e = omega arith
help_line-NoZero (suc (suc (suc (suc i)))) lt e = omega arith

abbrev pub screen : Terminal
screen = record { cur_x = 0; cur_y = 0; color_attrib = 15; video_memory = λ i. 0; sent = [] }
