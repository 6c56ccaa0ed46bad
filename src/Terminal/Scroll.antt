-- ===== src/Terminal/Scroll.antt =====
-- `terminal_scroll` and `terminal_clrscr` of tty.c.
use missy_micro.Common.{ℕ, zero, suc, ◌+◌, ◌≡◌, refl, arith}
use missy_micro.Common.{ltb, leb, if◌then◌else◌, update, ◌&&◌}
use missy_micro.Terminal.{Terminal, copy_up, blank, terminal_scroll, terminal_clrscr, cell}

copy_up_lem :
    (v : ℕ → ℕ) (i left j : ℕ)
    → copy_up v i left j ≡ (if leb i j && ltb j (i + left) then v (j + 80) else v j)
unfolding copy_up
copy_up_lem v i zero j = ground arith
copy_up_lem v i (suc left) j = ground (arith, copy_up_lem (update v i (v (i + 80))) (i + 1) left j)

blank_lem :
    (v : ℕ → ℕ) (x i left j : ℕ)
    → blank v x i left j ≡ (if leb i j && ltb j (i + left) then x else v j)
unfolding blank
blank_lem v x i zero j = ground arith
blank_lem v x i (suc left) j = ground (arith, blank_lem (update v i x) x (i + 1) left j)

-- `terminal_scroll` moves every line up by one, clears the last line, and touches nothing after
-- the screen.
pub terminal_scroll_lem :
    (t : Terminal) (j : ℕ)
    → (terminal_scroll t).video_memory j ≡ (
        if ltb j 1920
        then t.video_memory (j + 80)
        else if ltb j 2000
        then cell t.color_attrib 0x20
        else t.video_memory j)
unfolding terminal_scroll
terminal_scroll_lem t j = ground (
  arith,
  blank_lem (copy_up t.video_memory 0 1920) (cell t.color_attrib 0x20) 1920 80 j,
  copy_up_lem t.video_memory 0 1920 j,
)

-- `terminal_clrscr` clears the screen and nothing after it, and puts the cursor at its start.
pub terminal_clrscr_lem :
    (t : Terminal) (j : ℕ)
    → ((terminal_clrscr t).video_memory j
        ≡ (if ltb j 2000 then cell t.color_attrib 0x20 else t.video_memory j))
      × ((terminal_clrscr t).cur_x ≡ 0)
      × ((terminal_clrscr t).cur_y ≡ 0)
unfolding terminal_clrscr
terminal_clrscr_lem t j =
    (ground (arith, blank_lem t.video_memory (cell t.color_attrib 0x20) 0 2000 j), refl, refl)
