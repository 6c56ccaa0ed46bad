-- ===== src/Kernel/Main/Printed.antt =====
-- What `cpu_setvector` of i386_cpu.c prints for the vector of the keyboard.
use missy_micro.Common.{ℕ, zero, suc, ◌+◌, ◌-◌, ◌≡◌, ◌≤◌, ◌<◌, ◌≢◌, ◌⊎◌, refl, ◌∙◌, ap, arith}
use missy_micro.Common.{inl, inr}
use missy_micro.Common.{some, List, [], ◌∷◌, get_or, length, ==_ne, update}
use missy_micro.Libc.{char_value}
use missy_micro.Libc.Strings.{IsString, strlen_lem}
use missy_micro.Libc.Compare.{IsBytes}
use missy_micro.Libc.Itoa.{itoa_s, fill_digits, letter, finish_itoa, copy_digits}
use missy_micro.Terminal.{Terminal, terminal_printchar, print_all}
use missy_micro.Output.{Frame, print_bytes, print_number, print_item, terminal_printf}
use missy_micro.Shell.Start.{IsVerbatim, print_verbatim}

-- The bytes are not 0 and not a `%`.
abbrev IsPlainText : (ℕ → ℕ) → ℕ → ℕ → Type 0
IsPlainText m str k = (i : ℕ) → i < k → (m (str + i) ≢ 0) × (m (str + i) ≢ 37)

print_plain :
    (f : Frame) (fuel str k : ℕ) (args m : ℕ → ℕ) (t : Terminal)
    → IsPlainText m str k
    → terminal_printf f (k + fuel) str args m t
      ≡ terminal_printf f fuel (str + k) args m (print_bytes m str k t)
unfolding terminal_printf print_bytes
print_plain f fuel str zero args m t plain =
    let here : str + 0 ≡ str = omega arith in
    let none_left : zero + fuel ≡ fuel = omega arith in rw (here, none_left) refl
print_plain f fuel str (suc k) args m t plain =
    let here : str + 0 ≡ str = omega arith in
    let there : str + suc k ≡ str + 1 + k = omega arith in
    let (nonzero, no_item) = rw here at (plain 0 (omega arith)) in
    let one_more : suc k + fuel ≡ suc (k + fuel) = omega arith in
    rw (one_more, terminal_printf, ==_ne (m str) 0 nonzero, ==_ne (m str) 37 no_item, there)
      (print_plain f fuel (str + 1) k args m (terminal_printchar t (char_value (m str))) (λ i lt.
        let next : str + 1 + i ≡ str + suc i = omega arith in
        rw next (plain (suc i) (omega arith))))

-- "21" in the array of a number.
abbrev pub vector_digits : (ℕ → ℕ) → ℕ → ℕ → ℕ
vector_digits m s = update (update (update m s 50) (s + 1) 49) (s + 2) 0

vector_itoa_s :
    (f : Frame) (m : ℕ → ℕ)
    → itoa_s f.beyond f.buffer m f.num_str 0x21 16 32 ≡ some (vector_digits m f.num_str)
unfolding itoa_s fill_digits letter finish_itoa copy_digits
vector_itoa_s f m = let here : f.num_str + 0 ≡ f.num_str = omega arith in rw here refl

vector_digits-IsString : (m : ℕ → ℕ) (s : ℕ) → IsString (vector_digits m s) s 2
vector_digits-IsString m s = record { ends = ground arith; nonzero = λ i lt e. ground arith }

pub vector_digits-IsBytes : (m : ℕ → ℕ) (s : ℕ) → IsBytes m → IsBytes (vector_digits m s)
vector_digits-IsBytes m s bytes a = ground (arith, bytes a)

-- The string does not meet the array.
abbrev pub Clear : ℕ → ℕ → ℕ → Type 0
Clear s str k = (s + 3 ≤ str) ⊎ (str + k < s)

vector_digits_kept :
    (m : ℕ → ℕ) (s str k i : ℕ) → Clear s str k → i ≤ k → vector_digits m s (str + i) ≡ m (str + i)
vector_digits_kept m s str k i (inl high) le = ground arith
vector_digits_kept m s str k i (inr low) le = ground arith

pub vector_digits-IsVerbatim :
    (m : ℕ → ℕ) (s str k : ℕ)
    → Clear s str k
    → IsVerbatim m str k
    → IsVerbatim (vector_digits m s) str k
vector_digits-IsVerbatim m s str k clear v = record {
  string = record {
    ends = vector_digits_kept m s str k k clear (omega arith) ∙ v.string.ends;
    nonzero =
        λ i lt. rw (vector_digits_kept m s str k i clear (omega arith)) (v.string.nonzero i lt);
  };
  no_item = λ i lt. rw (vector_digits_kept m s str k i clear (omega arith)) (v.no_item i lt);
}

-- "Setting cpu vector 0x%x\n"
abbrev pub vector_text : List ℕ
vector_text =
    83 ∷ 101 ∷ 116 ∷ 116 ∷ 105 ∷ 110 ∷ 103 ∷ 32 ∷ 99 ∷ 112 ∷ 117 ∷ 32 ∷ 118 ∷ 101 ∷ 99 ∷ 116 ∷ 111
    ∷ 114 ∷ 32 ∷ 48 ∷ 120 ∷ 37 ∷ 120 ∷ 10 ∷ []

pub vector_text-lt : (i : ℕ) → get_or vector_text i 0 < 256
vector_text-lt i = ground arith

-- The format stands at `str`, with its zero byte.
abbrev pub IsVectorFormat : (ℕ → ℕ) → ℕ → Type 0
IsVectorFormat m str = (i : ℕ) → i < 25 → m (str + i) ≡ get_or vector_text i 0

-- The bytes of a list, as `char`.
abbrev pub chars : List ℕ → List ℕ
chars [] = []
chars (b ∷ bs) = char_value b ∷ chars bs

abbrev IsAt : (ℕ → ℕ) → ℕ → List ℕ → Type 0
IsAt m str bs = (i : ℕ) → i < length bs → m (str + i) ≡ get_or bs i 0

print_text :
    (m : ℕ → ℕ) (str : ℕ) (bs : List ℕ) (t : Terminal)
    → IsAt m str bs
    → print_bytes m str (length bs) t ≡ print_all t (chars bs)
unfolding print_bytes print_all
print_text m str [] t at_str = refl
print_text m str (b ∷ bs) t at_str =
    let here : str + 0 ≡ str = omega arith in
    let first = rw here at (at_str 0 (omega arith)) in
    rw (print_bytes, first)
      (print_text m (str + 1) bs (terminal_printchar t (char_value b)) (λ i lt.
        let next : str + 1 + i ≡ str + suc i = omega arith in
        rw next (at_str (suc i) (omega arith))))

-- "Setting cpu vector 0x"
abbrev pub vector_head : List ℕ
vector_head =
    83 ∷ 101 ∷ 116 ∷ 116 ∷ 105 ∷ 110 ∷ 103 ∷ 32 ∷ 99 ∷ 112 ∷ 117 ∷ 32 ∷ 118 ∷ 101 ∷ 99 ∷ 116 ∷ 111
    ∷ 114 ∷ 32 ∷ 48 ∷ 120 ∷ []

-- The screen after the line: `strlen` counts the zero byte of the number, so it is shown as well.
abbrev pub vector_shown : Terminal → Terminal
vector_shown t = print_all (print_all (print_all t vector_head) (50 ∷ 49 ∷ 0 ∷ [])) (10 ∷ [])

head_letter : (i : ℕ) → i < 21 → get_or vector_text i 0 ≡ get_or vector_head i 0
head_letter i lt = ground arith

head_plain : (i : ℕ) → i < 21 → (get_or vector_head i 0 ≢ 0) × (get_or vector_head i 0 ≢ 37)
head_plain i lt = (λ e. ground arith, λ e. ground arith)

vector_digits-IsAt : (m : ℕ → ℕ) (s : ℕ) → IsAt (vector_digits m s) s (50 ∷ 49 ∷ 0 ∷ [])
vector_digits-IsAt m s zero lt = ground arith
vector_digits-IsAt m s (suc zero) lt = ground arith
vector_digits-IsAt m s (suc (suc zero)) lt = ground arith
vector_digits-IsAt m s (suc (suc (suc i))) lt = absurd (omega arith)

number_printed :
    (f : Frame) (fuel : ℕ) (m : ℕ → ℕ) (t : Terminal)
    → 2 < fuel
    → print_item f fuel 120 0x21 m t
      ≡ some (vector_digits m f.num_str, print_all t (50 ∷ 49 ∷ 0 ∷ []))
unfolding print_item print_number
number_printed f fuel m t lt =
    let measured =
      strlen_lem (vector_digits m f.num_str) f.num_str 2 fuel (vector_digits-IsString m f.num_str)
        lt in
    rw (print_item, print_number, vector_itoa_s f m, measured)
      (ap (λ u. some (vector_digits m f.num_str, u))
        (print_text (vector_digits m f.num_str) f.num_str (50 ∷ 49 ∷ 0 ∷ []) t
          (vector_digits-IsAt m f.num_str)))

module _ (f : Frame) (m : ℕ → ℕ) (str : ℕ) (format : IsVectorFormat m str)
    (clear : Clear f.num_str str 24) where
  digits : ℕ → ℕ
  digits = vector_digits m f.num_str

  same_format : IsVectorFormat digits str
  unfolding digits
  same_format i lt = vector_digits_kept m f.num_str str 24 i clear (omega arith) ∙ format i lt

  -- The newline and the zero byte.
  last_byte : IsVerbatim digits (str + 23) 1
  last_byte =
      let line = same_format 23 (omega arith) in
      let ends = same_format 24 (omega arith) in
      let at_end : str + 23 + 1 ≡ str + 24 = omega arith in
      record { string = record { ends = rw at_end ends; nonzero = newline }; no_item = no_percent }
    where
      newline : (i : ℕ) → i < 1 → digits (str + 23 + i) ≢ 0
      newline i lt e =
          let here : str + 23 + i ≡ str + 23 = omega arith in
          ground (arith, same_format 23 (omega arith), rw here at e)

      no_percent : (i : ℕ) → i < 1 → digits (str + 23 + i) ≢ 37
      no_percent i lt e =
          let here : str + 23 + i ≡ str + 23 = omega arith in
          ground (arith, same_format 23 (omega arith), rw here at e)

  head_shown : (t : Terminal) → print_bytes m str 21 t ≡ print_all t vector_head
  head_shown t = print_text m str vector_head t (λ i lt. format i (omega arith) ∙ head_letter i lt)

  head_IsPlain : IsPlainText m str 21
  head_IsPlain i lt = rw (format i (omega arith) ∙ head_letter i lt) (head_plain i lt)

  item_printed :
      (fuel : ℕ) (t : Terminal)
      → 2 < fuel
      → terminal_printf f (suc fuel) (str + 21) (λ i. 0x21) m t
        ≡ some (digits, print_bytes digits (str + 23) 1 (print_all t (50 ∷ 49 ∷ 0 ∷ [])))
  unfolding terminal_printf digits
  item_printed fuel t lt =
      let percent : m (str + 21) ≡ 37 = format 21 (omega arith) in
      let here : str + 21 + 1 ≡ str + 22 = omega arith in
      let next : str + 21 + 2 ≡ str + 23 = omega arith in
      let letter_x : m (str + 22) ≡ 120 = format 22 (omega arith) in
      rw (terminal_printf, percent, here, letter_x, number_printed f fuel m t lt, next)
        (print_verbatim f fuel (str + 23) 1 _ digits (print_all t (50 ∷ 49 ∷ 0 ∷ [])) last_byte
          (omega arith))

  line_shown : (t : Terminal) → print_bytes digits (str + 23) 1 t ≡ print_all t (10 ∷ [])
  line_shown t = print_text digits (str + 23) (10 ∷ []) t at_line
    where
      at_line : IsAt digits (str + 23) (10 ∷ [])
      at_line zero lt =
          let here : str + 23 + 0 ≡ str + 23 = omega arith in rw here (same_format 23 (omega arith))
      at_line (suc i) lt = absurd (omega arith)

  pub vector_printed :
      (fuel : ℕ) (t : Terminal)
      → 26 ≤ fuel
      → terminal_printf f fuel str (λ i. 0x21) m t
        ≡ some (vector_digits m f.num_str, vector_shown t)
  unfolding digits
  vector_printed fuel t enough =
      let split : 21 + suc (fuel - 22) ≡ fuel = omega arith in
      let u = print_all t vector_head in
      let prefix = print_plain f (suc (fuel - 22)) str 21 (λ i. 0x21) m t head_IsPlain in
      let item = item_printed (fuel - 22) u (omega arith) in
      rw split at prefix
      ∙ ap (λ w. terminal_printf f (suc (fuel - 22)) (str + 21) (λ i. 0x21) m w) (head_shown t)
      ∙ item
      ∙ ap (λ w. some (vector_digits m f.num_str, w)) (line_shown (print_all u (50 ∷ 49 ∷ 0 ∷ [])))
