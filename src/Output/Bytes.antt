-- ===== src/Output/Bytes.antt =====
-- `printf` and `terminal_printf` write the same bytes.
use missy_micro.Common.{ℕ, zero, suc, ◌+◌, ◌≡◌, refl, ap, Bool, Bool-cases, inl, inr, true, false}
use missy_micro.Common.{Option, none, some, Option-cases, List, [], ◌∷◌, ◌++◌, sym}
use missy_micro.Common.{◌==◌, if◌then◌else◌, u8}
use missy_micro.Libc.{strlen, char_value}
use missy_micro.Libc.Itoa.{itoa_s}
use missy_micro.Terminal.{Terminal, terminal_printchar, print_all}
use missy_micro.Output.{Frame, put_bytes, put_number, put_string, put_item, printf, next_args}
use missy_micro.Output.{print_bytes, print_number, print_string, print_item, terminal_printf}

-- `putchar` onto a list.
abbrev pub append_byte : List ℕ → ℕ → List ℕ
append_byte bs c = bs ++ (c ∷ [])

-- What is printed for a list of bytes.
abbrev pub shown : Terminal → Option ((ℕ → ℕ) × List ℕ) → Option ((ℕ → ℕ) × Terminal)
shown t none = none
shown t (some r) = some (r.0, print_all t r.1)

print_all-append_byte :
    (t : Terminal) (bs : List ℕ) (c : ℕ)
    → print_all t (append_byte bs c) ≡ terminal_printchar (print_all t bs) c
unfolding print_all
print_all-append_byte t [] c = refl
print_all-append_byte t (b ∷ bs) c = print_all-append_byte (terminal_printchar t b) bs c

bytes_shown :
    (t : Terminal) (m : ℕ → ℕ) (p n : ℕ) (bs : List ℕ)
    → print_bytes m p n (print_all t bs) ≡ print_all t (put_bytes append_byte m p n bs)
unfolding print_bytes put_bytes
bytes_shown t m p zero bs = refl
bytes_shown t m p (suc n) bs =
    rw (sym (print_all-append_byte t bs (char_value (m p))))
      (bytes_shown t m (p + 1) n (append_byte bs (char_value (m p))))

number_shown :
    (t : Terminal) (f : Frame) (base fuel num : ℕ) (m : ℕ → ℕ) (bs : List ℕ)
    → print_number f base fuel num m (print_all t bs)
      ≡ shown t (put_number append_byte f base fuel num m bs)
unfolding print_number put_number
number_shown t f base fuel num m bs =
    elim (Option-cases (itoa_s f.beyond f.buffer m f.num_str num base 32)) [
      | inl e ↦ rw (print_number, put_number, e) refl
      | inr (m', e) ↦ elim (Option-cases (strlen m' f.num_str fuel)) [
        | inl l ↦ rw (print_number, put_number, e, l) refl
        | inr (n, l) ↦
            rw (print_number, put_number, e, l)
              (ap (λ u. some (m', u)) (bytes_shown t m' f.num_str n bs))
      ]
    ]

string_shown :
    (t : Terminal) (fuel p : ℕ) (m : ℕ → ℕ) (bs : List ℕ)
    → print_string fuel p m (print_all t bs) ≡ shown t (put_string append_byte fuel p m bs)
unfolding print_string put_string
string_shown t zero p m bs = refl
string_shown t (suc fuel) p m bs = elim (Bool-cases (m p == 0)) [
  | inl e ↦ rw e refl
  | inr e ↦
      rw (e, sym (print_all-append_byte t bs (char_value (m p))))
        (string_shown t fuel (p + 1) m (append_byte bs (char_value (m p))))
]

-- An `if` on both sides.
shown_if :
    (t : Terminal) (b : Bool) (x y : Option ((ℕ → ℕ) × Terminal)) (v w : Option ((ℕ → ℕ) × List ℕ))
    → x ≡ shown t v
    → y ≡ shown t w
    → (if b then x else y) ≡ shown t (if b then v else w)
shown_if t true x y v w h k = h
shown_if t false x y v w h k = k

byte_shown :
    (t : Terminal) (m : ℕ → ℕ) (c : ℕ) (bs : List ℕ)
    → some (m, terminal_printchar (print_all t bs) c) ≡ shown t (some (m, append_byte bs c))
byte_shown t m c bs = ap (λ u. some (m, u)) (sym (print_all-append_byte t bs c))

item_shown :
    (t : Terminal) (f : Frame) (fuel c arg : ℕ) (m : ℕ → ℕ) (bs : List ℕ)
    → print_item f fuel c arg m (print_all t bs) ≡ shown t (put_item append_byte f fuel c arg m bs)
unfolding print_item put_item
item_shown t f fuel c arg m bs = shown_if t _ _ _ _ _ (number_shown t f 10 fuel arg m bs) (
    shown_if t _ _ _ _ _ (number_shown t f 2 fuel arg m bs) (
      shown_if t _ _ _ _ _ (number_shown t f 16 fuel arg m bs) (
        shown_if t _ _ _ _ _ (string_shown t fuel arg m bs)
          (shown_if t _ _ _ _ _ (byte_shown t m (u8 arg) bs) (byte_shown t m (char_value c) bs)))))

-- The format after an item.
after_item :
    (t : Terminal) (f : Frame) (fuel str : ℕ) (args m : ℕ → ℕ) (bs : List ℕ)
    → ((m' : ℕ → ℕ) (cs : List ℕ)
        → terminal_printf f fuel (str + 2) (next_args (m (str + 1)) args) m' (print_all t cs)
          ≡ shown t (printf append_byte f fuel (str + 2) (next_args (m (str + 1)) args) m' cs))
    → elim (print_item f fuel (m (str + 1)) (args 0) m (print_all t bs)) [
      | none ↦ none
      | some after ↦ terminal_printf f fuel (str + 2) (next_args (m (str + 1)) args) after.0 after.1
    ]
      ≡ shown t (elim (put_item append_byte f fuel (m (str + 1)) (args 0) m bs) [
        | none ↦ none
        | some after ↦
            printf append_byte f fuel (str + 2) (next_args (m (str + 1)) args) after.0 after.1
      ])
after_item t f fuel str args m bs rest =
    rw (item_shown t f fuel (m (str + 1)) (args 0) m bs)
      (elim (Option-cases (put_item append_byte f fuel (m (str + 1)) (args 0) m bs)) [
        | inl e ↦ rw e refl
        | inr (r, e) ↦ rw e (rest r.0 r.1)
      ])

format_shown :
    (t : Terminal) (f : Frame) (fuel str : ℕ) (args m : ℕ → ℕ) (bs : List ℕ)
    → terminal_printf f fuel str args m (print_all t bs)
      ≡ shown t (printf append_byte f fuel str args m bs)
unfolding terminal_printf printf
format_shown t f zero str args m bs = refl
format_shown t f (suc fuel) str args m bs = shown_if t (m str == 0) _ _ _ _ refl (
    shown_if t (m str == 37) _ _ _ _
      (after_item t f fuel str args m bs
        (λ m' cs. format_shown t f fuel (str + 2) (next_args (m (str + 1)) args) m' cs))
      (rw (sym (print_all-append_byte t bs (char_value (m str))))
        (format_shown t f fuel (str + 1) args m (append_byte bs (char_value (m str))))))

-- `terminal_printf` shows exactly the bytes that printf puts, in their order, whatever the
-- format and the arguments are, and where one of them does not end or traps, so does the other.
pub terminal_printf_lem :
    (t : Terminal) (f : Frame) (fuel str : ℕ) (args m : ℕ → ℕ)
    → terminal_printf f fuel str args m t ≡ shown t (printf append_byte f fuel str args m [])
unfolding print_all
terminal_printf_lem t f fuel str args m = format_shown t f fuel str args m []
