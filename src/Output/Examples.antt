-- ===== src/Output/Examples.antt =====
-- The results about output at concrete inputs.
use missy_micro.Common.{ℕ, ◌≡◌, arith, some, [], ◌==◌, if◌then◌else◌}
use missy_micro.Terminal.{Terminal}
use missy_micro.Libc.Itoa.Laws.{IsNumeral, reads}
use missy_micro.Output.{Frame, printf, terminal_printf, put_bytes, put_number}
use missy_micro.Output.Bytes.{append_byte, shown, terminal_printf_lem}
use missy_micro.Output.Numbers.{put_number_lem}

abbrev zeros : ℕ → ℕ
zeros i = 0

abbrev frame : Frame
frame = record { beyond = zeros; buffer = zeros; num_str = 100 }

abbrev screen : Terminal
screen = record { cur_x = 0; cur_y = 0; color_attrib = 15; video_memory = zeros; sent = [] }

-- The format "%x".
abbrev percent_x : ℕ → ℕ
percent_x i = if i == 0 then 37 else if i == 1 then 120 else 0

printf_example :
    terminal_printf frame 40 0 (λ i. 255) percent_x screen
    ≡ shown screen (printf append_byte frame 40 0 (λ i. 255) percent_x [])
printf_example = terminal_printf_lem screen frame 40 0 (λ i. 255) percent_x

number_example :
    (m' : ℕ → ℕ) × (k : ℕ) × IsNumeral m' 100 k 16
    × (reads m' 100 16 0 k ≡ 255)
    × (put_number append_byte frame 16 40 255 zeros []
        ≡ some (m', append_byte (put_bytes append_byte m' 100 k []) 0))
number_example =
    put_number_lem append_byte frame 16 40 255 zeros [] (omega arith) (omega arith) (omega arith)
      (omega arith) (omega arith)
