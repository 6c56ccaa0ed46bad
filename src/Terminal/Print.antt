-- ===== src/Terminal/Print.antt =====
-- `terminal_printchar` of tty.c.
use missy_micro.Common.{ℕ, ◌+◌, ◌*◌, ◌%◌, ◌^◌, ◌≤◌, ◌<◌, ◌≡◌, ◌≢◌, refl, arith}
use missy_micro.Common.{◌⊎◌, ltb, leb, ◌==◌, update, ◌&&◌, ◌||◌, u16, List, [], ◌∷◌}
use missy_micro.Common.{Bool-cases, inl, inr, ==_iff, true, ◌∙◌}
use missy_micro.Terminal.{Terminal, terminal_scroll, cell, scroll_past_end, end_line, put_cell}
use missy_micro.Terminal.{terminal_updatecursor, terminal_printchar, print_all, terminal_puts}
use missy_micro.Terminal.{print_space, back}
use missy_micro.Terminal.Scroll.{terminal_scroll_lem}

-- The cursor is in a row of the screen, and in a column of it or one past the last.
pub record IsOnScreen (t : Terminal) : Type 0 where
  pub column : t.cur_x ≤ 80
  pub row : t.cur_y < 25

-- What a step leaves of the memory after the screen: all but the word just past it.
abbrev pub SameBeyond : Terminal → Terminal → Type 0
SameBeyond t u = (j : ℕ) → 2000 < j → u.video_memory j ≡ t.video_memory j

pub record IsPrinted (t u : Terminal) : Type 0 where
  pub on_screen : IsOnScreen u
  pub beyond : SameBeyond t u
  pub same_color : u.color_attrib ≡ t.color_attrib

IsPrinted-trans : (t u w : Terminal) → IsPrinted t u → IsPrinted u w → IsPrinted t w
IsPrinted-trans t u w p q = record {
  on_screen = q.on_screen;
  beyond = λ j h. q.beyond j h ∙ p.beyond j h;
  same_color = q.same_color ∙ p.same_color;
}

updatecursor-IsPrinted : (t u : Terminal) → IsPrinted t u → IsPrinted t (terminal_updatecursor u)
unfolding terminal_updatecursor
updatecursor-IsPrinted t u p = record {
  on_screen = record { column = p.on_screen.column; row = p.on_screen.row };
  beyond = p.beyond;
  same_color = p.same_color;
}

scroll_past_end-IsPrinted :
    (t : Terminal) → t.cur_x ≤ 80 → t.cur_y ≤ 25 → IsPrinted t (scroll_past_end t)
unfolding scroll_past_end
scroll_past_end-IsPrinted t x y = record {
  on_screen = unfold terminal_scroll in record { column = ground arith; row = ground arith };
  beyond = λ j h. ground (arith, terminal_scroll_lem t j);
  same_color = unfold terminal_scroll in ground arith;
}

end_line-IsPrinted : (t : Terminal) → IsOnScreen t → IsPrinted t (end_line t)
unfolding end_line
end_line-IsPrinted t s =
    let u : Terminal = record t { cur_x = 0; cur_y = (t.cur_y + 1) % 2 ^ 32 } in
    let p = scroll_past_end-IsPrinted u (omega arith) (omega (arith, s.row)) in
    record { on_screen = p.on_screen; beyond = p.beyond; same_color = p.same_color }

put_cell-IsPrinted : (t : Terminal) (c : ℕ) → IsOnScreen t → IsPrinted t (put_cell t c)
unfolding put_cell
put_cell-IsPrinted t c s =
    let idx = u16 (t.cur_y * 80 + t.cur_x) in
    let put : Terminal = record t {
      video_memory = update t.video_memory idx (cell t.color_attrib c);
    } in
    let u : Terminal = record put { cur_x = 0; cur_y = (t.cur_y + 1) % 2 ^ 32 } in
    let p = scroll_past_end-IsPrinted u (omega arith) (omega (arith, s.row)) in
    elim (Bool-cases (leb 80 t.cur_x && ltb t.cur_x 0x80000000)) [
      | inl last ↦ rw last (record {
        on_screen = p.on_screen;
        beyond = λ j h. p.beyond j h ∙ ground (arith, s.row, s.column);
        same_color = p.same_color;
      })
      | inr inside ↦ rw inside (record {
        on_screen = record { column = ground (arith, s.column); row = s.row };
        beyond = λ j h. ground (arith, s.row, s.column);
        same_color = refl;
      })
    ]

print_space-IsPrinted : (t : Terminal) → IsOnScreen t → IsPrinted t (print_space t)
print_space-IsPrinted t s = updatecursor-IsPrinted t (put_cell t 0x20) (put_cell-IsPrinted t 0x20 s)

-- A tab prints four spaces.
tab-IsPrinted :
    (t : Terminal)
    → IsOnScreen t
    → IsPrinted t (print_space (print_space (print_space (print_space t))))
tab-IsPrinted t s =
    let one = print_space-IsPrinted t s in
    let two = print_space-IsPrinted (print_space t) one.on_screen in
    let three = print_space-IsPrinted (print_space (print_space t)) two.on_screen in
    let four = print_space-IsPrinted (print_space (print_space (print_space t))) three.on_screen in
    let half = IsPrinted-trans t (print_space t) (print_space (print_space t)) one two in
    let more =
      IsPrinted-trans t (print_space (print_space t)) (print_space (print_space (print_space t)))
        half three in
    IsPrinted-trans t (print_space (print_space (print_space t)))
      (print_space (print_space (print_space (print_space t)))) more four

cur_x-print_space : (t : Terminal) → t.cur_x < 80 → (print_space t).cur_x ≡ t.cur_x + 1
unfolding terminal_updatecursor put_cell
cur_x-print_space t h = ground arith

-- A backspace goes back, blanks the cell and goes back again.
backspace-IsPrinted :
    (t : Terminal) → IsOnScreen t → 0 < t.cur_x → IsPrinted t (back (print_space (back t)))
backspace-IsPrinted t s pos =
    let p =
      print_space-IsPrinted (back t) (record { column = omega (arith, s.column); row = s.row }) in
    let x : (print_space (back t)).cur_x ≡ (back t).cur_x + 1 =
      cur_x-print_space (back t) (omega (arith, s.column)) in
    record {
      on_screen = record { column = omega (arith, x, s.column); row = p.on_screen.row };
      beyond = p.beyond;
      same_color = p.same_color;
    }

-- With the cursor in a row of the screen and at most one column past the last, every character
-- but a backspace in the first column keeps it there, and writes nothing after the screen but
-- the word just past it.
pub terminal_printchar_lem :
    (t : Terminal) (c : ℕ)
    → IsOnScreen t
    → (c ≢ 8) ⊎ (0 < t.cur_x)
    → IsPrinted t (terminal_printchar t c)
unfolding terminal_printchar
terminal_printchar_lem t c s b =
    updatecursor-IsPrinted t _ (elim (Bool-cases (c == 10 || c == 13)) [
      | inl line ↦ rw line (end_line-IsPrinted t s)
      | inr shown ↦ elim (Bool-cases (c == 8)) [
        | inl erase ↦ rw (shown, erase) (backspace-IsPrinted t s (not_first b erase))
        | inr other ↦ elim (Bool-cases (c == 9)) [
          | inl tab ↦ rw (shown, other, tab) (tab-IsPrinted t s)
          | inr plain ↦ rw (shown, other, plain) (put_cell-IsPrinted t c s)
        ]
      ]
    ])
  where
    not_first : (c ≢ 8) ⊎ (0 < t.cur_x) → (c == 8) ≡ true → 0 < t.cur_x
    not_first (inl ne) e = absurd (ne ((==_iff _ _).0 e))
    not_first (inr pos) e = pos

abbrev pub NoBackspace : List ℕ → Type 0
NoBackspace [] = Unit
NoBackspace (c ∷ cs) = (c ≢ 8) × NoBackspace cs

print_all-IsPrinted :
    (t : Terminal) (cs : List ℕ) → IsOnScreen t → NoBackspace cs → IsPrinted t (print_all t cs)
unfolding print_all
print_all-IsPrinted t [] s n = record { on_screen = s; beyond = λ j h. refl; same_color = refl }
print_all-IsPrinted t (c ∷ cs) s n =
    let first = terminal_printchar_lem t c s (inl n.0) in
    IsPrinted-trans t (terminal_printchar t c) (print_all (terminal_printchar t c) cs) first
      (print_all-IsPrinted (terminal_printchar t c) cs first.on_screen n.1)

-- So does a line of text of any length without backspaces.
pub terminal_puts_lem :
    (t : Terminal) (cs : List ℕ) → IsOnScreen t → NoBackspace cs → IsPrinted t (terminal_puts t cs)
unfolding terminal_puts
terminal_puts_lem t cs s n =
    let p = print_all-IsPrinted t cs s n in
    IsPrinted-trans t (print_all t cs) (terminal_puts t cs) p
      (terminal_printchar_lem (print_all t cs) 13 p.on_screen (inl (omega arith)))
