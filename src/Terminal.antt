-- ===== src/Terminal.antt =====
-- kernel/arch/i386/vga_tty/tty.c: the text screen. `int` and `uint16_t` values are words modulo
-- 2 ^ 32 and 2 ^ 16, and an `int` of 2 ^ 31 or more is negative. The module
-- `Output` has `terminal_printf`, and `Console` has `kernel_tty_read`.
pub mod Scroll
pub mod Print
pub mod Cursor
mod Examples
use missy_micro.Common.{
  ℕ, zero, suc, ◌+◌, ◌-◌, ◌*◌, ◌/◌, ◌%◌, ◌^◌, bit_or, bit_and, Bool, ◌||◌, ◌&&◌,
}
use missy_micro.Common.{ltb, leb, ◌==◌, if◌then◌else◌, update, u32, u16, u8, sub32, List, [], ◌∷◌}

abbrev pub vga_video_rows : ℕ
vga_video_rows = 25

abbrev pub vga_video_columns : ℕ
vga_video_columns = 80

abbrev pub vga_video_defcolor : ℕ
vga_video_defcolor = 0x0f

abbrev pub vga_tabsize : ℕ
vga_tabsize = 4

-- The static variables, the video memory, a word for each index, and the bytes sent to ports,
-- the latest first.
pub record Terminal : Type 0 where
  pub cur_x : ℕ
  pub cur_y : ℕ
  pub color_attrib : ℕ
  pub video_memory : ℕ → ℕ
  pub sent : List (ℕ × ℕ)

-- `a >= b` on `int`, for a `b` that is not negative.
abbrev pub signed_ge : ℕ → ℕ → Bool
signed_ge a b = leb b a && ltb a 0x80000000

-- The first loop of `terminal_scroll`, with `left` rounds to go from `i` on.
unfoldable pub copy_up : (ℕ → ℕ) → ℕ → ℕ → ℕ → ℕ
copy_up v i zero = v
copy_up v i (suc left) = copy_up (update v i (v (i + vga_video_columns))) (i + 1) left

-- The loops that store one word.
unfoldable pub blank : (ℕ → ℕ) → ℕ → ℕ → ℕ → ℕ → ℕ
blank v x i zero = v
blank v x i (suc left) = blank (update v i x) x (i + 1) left

-- `(uint16_t) ((color_attrib << 8) | c)`
abbrev pub cell : ℕ → ℕ → ℕ
cell color c = u16 (bit_or (color * 2 ^ 8) c)

unfoldable pub terminal_scroll : Terminal → Terminal
terminal_scroll t = record t {
  video_memory =
      blank (copy_up t.video_memory 0 1920) (cell t.color_attrib 0x20) 1920 vga_video_columns;
}

-- `outportb`
abbrev pub send : ℕ → ℕ → Terminal → Terminal
send port x t = record t { sent = (port, x) ∷ t.sent }

unfoldable pub terminal_updatecursor : Terminal → Terminal
terminal_updatecursor t =
    let cursor_loc = u16 (u16 (t.cur_y * 80) + t.cur_x) in
    send 0x3d5 (cursor_loc / 2 ^ 8 % 2 ^ 8)
      (send 0x3d4 0x0e (send 0x3d5 (cursor_loc % 2 ^ 8) (send 0x3d4 0x0f t)))

-- What follows `_curY++` in both places.
unfoldable pub scroll_past_end : Terminal → Terminal
scroll_past_end t =
    let scrolled = terminal_scroll t in
    if signed_ge t.cur_y vga_video_rows
    then record scrolled { cur_y = sub32 scrolled.cur_y 1 }
    else t

-- The branch of `terminal_printchar` for a line end.
unfoldable pub end_line : Terminal → Terminal
end_line t = scroll_past_end (record t { cur_x = 0; cur_y = u32 (t.cur_y + 1) })

-- The branch for a character that is shown.
unfoldable pub put_cell : Terminal → ℕ → Terminal
put_cell t c =
    let idx = u16 (t.cur_y * vga_video_columns + t.cur_x) in
    let put = record t { video_memory = update t.video_memory idx (cell t.color_attrib c) } in
    if signed_ge t.cur_x vga_video_columns
    then scroll_past_end (record put { cur_x = 0; cur_y = u32 (t.cur_y + 1) })
    else record put { cur_x = u32 (t.cur_x + 1) }

-- `terminal_printchar (0x20)`
abbrev pub print_space : Terminal → Terminal
print_space t = terminal_updatecursor (put_cell t 0x20)

abbrev pub back : Terminal → Terminal
back t = record t { cur_x = sub32 t.cur_x 1 }

unfoldable pub terminal_printchar : Terminal → ℕ → Terminal
terminal_printchar t c = terminal_updatecursor (
    if c == 10 || c == 13
    then end_line t
    else if c == 8
    then back (print_space (back t))
    else if c == 9
    then print_space (print_space (print_space (print_space t)))
    else put_cell t c)

-- `terminal_puts`, on the bytes before the zero byte, and without its result.
unfoldable pub print_all : Terminal → List ℕ → Terminal
print_all t [] = t
print_all t (c ∷ cs) = print_all (terminal_printchar t c) cs

unfoldable pub terminal_puts : Terminal → List ℕ → Terminal
terminal_puts t s = terminal_printchar (print_all t s) 13

unfoldable pub terminal_clrscr : Terminal → Terminal
terminal_clrscr t = record t {
  video_memory = blank t.video_memory (cell t.color_attrib 0x20) 0 2000;
  cur_x = 0;
  cur_y = 0;
}

unfoldable pub terminal_makecolor : ℕ → ℕ → ℕ
terminal_makecolor fg bg = u8 (bit_or (fg * 2 ^ 4) (bit_and bg 0xf0))

unfoldable pub terminal_setcolor : Terminal → ℕ → ℕ × Terminal
terminal_setcolor t color = (t.color_attrib, record t { color_attrib = color })

unfoldable pub terminal_setloc : Terminal → ℕ → ℕ → Terminal
terminal_setloc t x y = record t { cur_x = x; cur_y = y }
