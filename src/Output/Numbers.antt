-- ===== src/Output/Numbers.antt =====
-- What a number is printed as.
use missy_micro.Common.{ℕ, zero, suc, ◌+◌, ◌^◌, ◌≡◌, ◌≤◌, ◌<◌, refl, ap, ◌∙◌, arith, some}
use missy_micro.Libc.{char_value}
use missy_micro.Libc.Strings.{strlen_lem}
use missy_micro.Libc.Itoa.Laws.{IsNumeral, IsNumeral-IsString, reads, itoa_s_lem}
use missy_micro.Output.{Frame, put_bytes, put_number}

module _ {ℓ} {S : Type ℓ} (put : S → ℕ → S) where
  put_bytes-suc :
      (m : ℕ → ℕ) (p k : ℕ) (s : S)
      → put_bytes put m p (suc k) s ≡ put (put_bytes put m p k s) (char_value (m (p + k)))
  unfolding put_bytes
  put_bytes-suc m p zero s =
      let here : p ≡ p + 0 = omega arith in ap (λ q. put s (char_value (m q))) here
  put_bytes-suc m p (suc k) s =
      let there : p + 1 + k ≡ p + suc k = omega arith in
      put_bytes-suc m (p + 1) k (put s (char_value (m p)))
      ∙ ap (λ q. put (put_bytes put m (p + 1) k (put s (char_value (m p)))) (char_value (m q)))
          there

  -- For a positive word in a base of 2 to 16, with fuel of 34 or more, the branch of a number
  -- ends: it puts the letters of a numeral that spells the number, and after them the zero
  -- byte too.
  pub put_number_lem :
      (f : Frame) (base fuel num : ℕ) (m : ℕ → ℕ) (s : S)
      → 2 ≤ base
      → base ≤ 16
      → 0 < num
      → num < 2 ^ 32
      → 34 ≤ fuel
      → (m' : ℕ → ℕ) × (k : ℕ) × IsNumeral m' f.num_str k base
        × (reads m' f.num_str base 0 k ≡ num)
        × (put_number put f base fuel num m s ≡ some (m', put (put_bytes put m' f.num_str k s) 0))
  unfolding put_number
  put_number_lem f base fuel num m s two sixteen pos small enough =
      let (m', k, run, some_digits, short, numeral, value, kept) =
        itoa_s_lem f.beyond f.buffer m f.num_str num base two sixteen pos small in
      let measured =
        strlen_lem m' f.num_str k fuel (IsNumeral-IsString m' f.num_str k base numeral)
          (omega (arith, short)) in
      let next : k + 1 ≡ suc k = omega arith in
      (
        m',
        k,
        numeral,
        value,
        rw (put_number, run, measured, next, put_bytes-suc m' f.num_str k s, numeral.ends) refl,
      )
