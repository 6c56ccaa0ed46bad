-- ===== src/Terminal/Cursor.antt =====
-- Where the characters of tty.c end up.
use missy_micro.Common.{ℕ, ◌+◌, ◌*◌, ◌%◌, ◌^◌, ◌<◌, ◌≡◌, ◌≢◌, refl, ap, arith}
use missy_micro.Common.{ltb, leb, ◌==◌, ==_ne, false, if◌then◌else◌, update, ◌&&◌, u16}
use missy_micro.Terminal.{Terminal, cell, scroll_past_end, put_cell}
use missy_micro.Terminal.{terminal_updatecursor, terminal_printchar}

-- A character that is shown: not a line end, a backspace or a tab.
abbrev pub IsShown : ℕ → Type 0
IsShown c = (c ≢ 10) × (c ≢ 13) × (c ≢ 8) × (c ≢ 9)

-- A shown character in one of the 80 columns of a row goes to its cell, and the cursor to the
-- next column of the row; no other cell changes.
pub printchar_inside :
    (t : Terminal) (c j : ℕ)
    → IsShown c
    → t.cur_x < 80
    → t.cur_y < 25
    → let u = terminal_printchar t c in
      (u.video_memory j
        ≡ (if j == t.cur_y * 80 + t.cur_x then cell t.color_attrib c else t.video_memory j))
      × (u.cur_x ≡ t.cur_x + 1)
      × (u.cur_y ≡ t.cur_y)
unfolding terminal_printchar put_cell terminal_updatecursor
printchar_inside t c j shown x y = ground arith

printchar_shown :
    (t : Terminal) (c : ℕ)
    → IsShown c
    → terminal_printchar t c ≡ terminal_updatecursor (put_cell t c)
unfolding terminal_printchar
printchar_shown t c (a, b, d, e) = rw (==_ne c 10 a, ==_ne c 13 b, ==_ne c 8 d, ==_ne c 9 e) refl

-- From the column past the last, above the last row.
put_wraps :
    (t : Terminal) (c : ℕ)
    → t.cur_x ≡ 80
    → t.cur_y < 24
    → put_cell t c ≡ record t {
      cur_x = 0;
      cur_y = t.cur_y + 1;
      video_memory = update t.video_memory ((t.cur_y + 1) * 80) (cell t.color_attrib c);
    }
unfolding put_cell scroll_past_end
put_wraps t c x y =
    let idx : u16 (t.cur_y * 80 + 80) ≡ (t.cur_y + 1) * 80 = omega arith in
    let row : (t.cur_y + 1) % 2 ^ 32 ≡ t.cur_y + 1 = omega arith in
    let stays : (leb 25 (t.cur_y + 1) && ltb (t.cur_y + 1) 0x80000000) ≡ false = ground arith in
    rw (x, idx, row, stays) refl

printchar_wraps :
    (t : Terminal) (c j : ℕ)
    → IsShown c
    → t.cur_x ≡ 80
    → t.cur_y < 24
    → let u = terminal_printchar t c in
      (u.video_memory j
        ≡ (if j == (t.cur_y + 1) * 80 then cell t.color_attrib c else t.video_memory j))
      × (u.cur_x ≡ 0)
      × (u.cur_y ≡ t.cur_y + 1)
      × (u.color_attrib ≡ t.color_attrib)
unfolding terminal_updatecursor
printchar_wraps t c j shown x y =
    rw (printchar_shown t c shown, put_wraps t c x y) (refl, refl, refl, refl)

-- With the cursor one column past the last, above the last row, a shown character is written
-- into the first cell of the next line, and a second one into the same cell.
pub printchar_lost :
    (t : Terminal) (c d : ℕ)
    → IsShown c
    → IsShown d
    → t.cur_x ≡ 80
    → t.cur_y < 24
    → let u = terminal_printchar t c in
      let w = terminal_printchar u d in
      (u.video_memory ((t.cur_y + 1) * 80) ≡ cell t.color_attrib c)
      × (w.video_memory ((t.cur_y + 1) * 80) ≡ cell t.color_attrib d)
printchar_lost t c d sc sd x y =
    let first = (t.cur_y + 1) * 80 in
    let (put, column, row, color) = printchar_wraps t c first sc x y in
    let (put', column', row') =
      printchar_inside (terminal_printchar t c) d first sd (omega arith) (omega arith) in
    (ground (arith, put), ground (arith, put', column, row, ap (λ (a : ℕ). cell a d) color))
