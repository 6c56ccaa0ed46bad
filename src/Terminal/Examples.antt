-- ===== src/Terminal/Examples.antt =====
-- The results about tty.c on a screen of zeros.
use missy_micro.Common.{ℕ, inl, arith, []}
use missy_micro.Terminal.{Terminal, terminal_printchar}
use missy_micro.Terminal.Print.{IsOnScreen, IsPrinted, terminal_printchar_lem}

abbrev at_cell : ℕ → ℕ → Terminal
at_cell x y = record { cur_x = x; cur_y = y; color_attrib = 15; video_memory = λ j. 0; sent = [] }

on_screen : IsOnScreen (at_cell 80 24)
on_screen = record { column = omega arith; row = omega arith }

printchar_example : IsPrinted (at_cell 80 24) (terminal_printchar (at_cell 80 24) 65)
printchar_example = terminal_printchar_lem (at_cell 80 24) 65 on_screen (inl (omega arith))
