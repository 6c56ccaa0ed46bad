-- ===== src/Libc/Itoa/Laws.antt =====
-- `itoa_s` ends, and writes the number.
use native.Mathlib.Nat.{pow-suc, mod-lt, mod-add-div', mul-le-mul_left, div-lt_iff_lt-mul}
use missy_micro.Common.{ℕ, zero, suc, ◌+◌, ◌-◌, ◌*◌, ◌/◌, ◌%◌, ◌^◌, ◌≤◌, ◌<◌, ◌≡◌, refl, ap}
use missy_micro.Common.{arith, ◌∙◌, sym}
use missy_micro.Common.{◌⊎◌, ltb, leb, ◌==◌, if◌then◌else◌, update, ◌&&◌, ◌||◌, Bool-cases, inl}
use missy_micro.Common.{inr, ==_iff, false}
use missy_micro.Common.{some}
use missy_micro.Libc.Strings.{IsString}
use missy_micro.Libc.Itoa.{letter, fill_digits, copy_digits, finish_itoa, itoa_s}

-- What a digit's letter stands for.
abbrev pub digit : ℕ → ℕ
digit c = if ltb c 58 then c - 48 else c - 87

-- A letter of `lettermap`, and no zero byte.
abbrev pub IsLetter : ℕ → ℕ → Type 0
IsLetter c base = (48 ≤ c) × ((c < 58) ⊎ (97 ≤ c)) × (c < 103) × (digit c < base)

letter_lem :
    (beyond : ℕ → ℕ) (d : ℕ) → d < 16 → letter beyond d ≡ (if ltb d 10 then 48 + d else 87 + d)
unfolding letter
letter_lem beyond d h = ground arith

-- The number that `n` letters from `pos` on spell, the lowest digit first.
abbrev pub spelled : (ℕ → ℕ) → ℕ → ℕ → ℕ → ℕ
spelled buffer base pos zero = 0
spelled buffer base pos (suc n) = spelled buffer base (pos + 1) n * base + digit (buffer pos)

-- What the loop leaves in the buffer.
pub record IsFilled (base num pos n : ℕ) (before after : ℕ → ℕ) : Type 0 where
  pub spells : spelled after base pos n ≡ num
  pub letters : (i : ℕ) → i < n → IsLetter (after (pos + i)) base
  pub kept : (j : ℕ) → j < pos → after j ≡ before j

nothing : (base num pos : ℕ) (buffer : ℕ → ℕ) → num ≡ 0 → IsFilled base num pos 0 buffer buffer
nothing base num pos buffer e = record {
  spells = sym e;
  letters = λ i lt. absurd (omega arith);
  kept = λ j lt. refl;
}

IsFilled-step :
    (beyond buffer after : ℕ → ℕ) (pos num base n : ℕ)
    → 2 ≤ base
    → base ≤ 16
    → IsFilled base (num / base) (pos + 1) n (update buffer pos (letter beyond (num % base))) after
    → IsFilled base num pos (suc n) buffer after
IsFilled-step beyond buffer after pos num base n two sixteen f =
    let below : num % base < base = mod-lt num (omega arith) in
    let first : after pos ≡ (if ltb (num % base) 10 then 48 + num % base else 87 + num % base) =
      ground (arith, f.kept pos, letter_lem beyond (num % base)) in
    let stands_for : digit (after pos) ≡ num % base = ground (arith, first) in
    record {
      spells = rw (f.spells, stands_for) (omega (arith, mod-add-div' num base));
      letters = λ i lt.
          elim i as (λ i. i < suc n → IsLetter (after (pos + i)) base) [
            | zero ↦ λ q.
                let here : pos + 0 ≡ pos = omega arith in rw here (ground (arith, first, below))
            | suc i ↦ λ q.
                let here : pos + suc i ≡ pos + 1 + i = omega arith in
                rw here (f.letters i (omega arith))
          ]
            lt;
      kept = λ j lt. ground (arith, f.kept j);
    }

quotient : (num base fuel : ℕ) → 2 ≤ base → num < 2 ^ suc fuel → num / base < 2 ^ fuel
quotient num base fuel two h =
    let halves : num < 2 ^ fuel * 2 = rw (sym (pow-suc 2 fuel)) h in
    (div-lt_iff_lt-mul (omega arith)).1 (omega (arith, mul-le-mul_left (2 ^ fuel) two))

fill_digits_lem :
    (beyond buffer : ℕ → ℕ) (pos num base fuel : ℕ)
    → 2 ≤ base
    → base ≤ 16
    → num < 2 ^ fuel
    → (n : ℕ) × (after : ℕ → ℕ) × (fill_digits beyond buffer pos num base fuel
        ≡ some (after, pos + n))
      × (n ≤ fuel)
      × ((num ≡ 0) ⊎ (0 < n))
      × IsFilled base num pos n buffer after
unfolding fill_digits
fill_digits_lem beyond buffer pos num base zero two sixteen h =
    let e : num ≡ 0 = omega arith in
    let here : pos ≡ pos + 0 = omega arith in
    (
      0,
      buffer,
      rw e (ap (λ p. some (buffer, p)) here),
      omega arith,
      inl e,
      nothing base num pos buffer e,
    )
fill_digits_lem beyond buffer pos num base (suc fuel) two sixteen h = elim (Bool-cases (num == 0)) [
  | inl done ↦
      let e : num ≡ 0 = (==_iff _ _).0 done in
      let here : pos ≡ pos + 0 = omega arith in
      (
        0,
        buffer,
        rw done (ap (λ p. some (buffer, p)) here),
        omega arith,
        inl e,
        nothing base num pos buffer e,
      )
  | inr more ↦
      let base≢0 : (base == 0) ≡ false = ground arith in
      let c = letter beyond (num % base) in
      let (n, after, run, short, some_left, f) =
        fill_digits_lem beyond (update buffer pos c) (pos + 1) (num / base) base fuel two sixteen
          (quotient num base fuel two h) in
      let here : pos + 1 + n ≡ pos + suc n = omega arith in
      (
        suc n,
        after,
        rw (more, base≢0) (run ∙ ap (λ p. some (after, p)) here),
        omega arith,
        inr (omega arith),
        IsFilled-step beyond buffer after pos num base n two sixteen f,
      )
]

copy_digits_lem :
    (buffer m : ℕ → ℕ) (str pos opos left j : ℕ)
    → left ≤ pos + 1
    → copy_digits buffer m str pos opos left j ≡ (
        if leb (str + opos) j && ltb j (str + opos + left)
        then buffer (pos - (j - (str + opos)))
        else m j)
unfolding copy_digits
copy_digits_lem buffer m str pos opos zero j h = ground arith
copy_digits_lem buffer m str pos opos (suc left) j h =
    let rest =
      copy_digits_lem buffer (update m (str + opos) (buffer pos)) str (pos - 1) (opos + 1) left j in
    elim (Bool-cases (ltb (str + opos) j)) [
      | inl after ↦
          let back : pos - 1 - (j - (str + (opos + 1))) ≡ pos - (j - (str + opos)) = ground arith in
          ground (arith, rest, ap buffer back)
      | inr before ↦
          let back : pos - (j - (str + opos)) ≡ pos = ground arith in
          ground (arith, rest, ap buffer back)
    ]

-- The number that `n` letters at `s` spell after `acc`, the highest digit first.
abbrev pub reads : (ℕ → ℕ) → ℕ → ℕ → ℕ → ℕ → ℕ
reads m s base acc zero = acc
reads m s base acc (suc n) = reads m (s + 1) base (acc * base + digit (m s)) n

reads-spelled :
    (m buffer : ℕ → ℕ) (s base n r : ℕ)
    → ((i : ℕ) → i < n → m (s + i) ≡ buffer (n - 1 - i))
    → reads m s base (spelled buffer base n r) n ≡ spelled buffer base 0 (n + r)
reads-spelled m buffer s base zero r h = ap (spelled buffer base 0) (omega arith)
reads-spelled m buffer s base (suc n) r h =
    let here : s + 0 ≡ s = omega arith in
    let last : suc n - 1 - 0 ≡ n = omega arith in
    let first : m s ≡ buffer n = rw (here, last) at (h 0 (omega arith)) in
    let rest : (i : ℕ) → i < n → m (s + 1 + i) ≡ buffer (n - 1 - i) = λ i lt.
      let there : s + suc i ≡ s + 1 + i = omega arith in
      let back : suc n - 1 - suc i ≡ n - 1 - i = omega arith in
      rw (there, back) at (h (suc i) (omega arith)) in
    let all : n + suc r ≡ suc n + r = omega arith in
    let next : n + 1 ≡ suc n = omega arith in
    let by_rest : reads m (s + 1) base (spelled buffer base (n + 1) r * base + digit (buffer n)) n
        ≡ spelled buffer base 0 (suc n + r) =
      reads-spelled m buffer (s + 1) base n (suc r) rest ∙ ap (spelled buffer base 0) all in
    rw first (rw next at by_rest)

-- `k` letters of a base at `s`, and a zero byte.
pub record IsNumeral (m : ℕ → ℕ) (s k base : ℕ) : Type 0 where
  pub letters : (i : ℕ) → i < k → IsLetter (m (s + i)) base
  pub ends : m (s + k) ≡ 0

pub IsNumeral-IsString : (m : ℕ → ℕ) (s k base : ℕ) → IsNumeral m s k base → IsString m s k
IsNumeral-IsString m s k base h = record {
  ends = h.ends;
  nonzero = λ i lt e. ground (arith, h.letters i lt);
}

finished :
    (buffer m : ℕ → ℕ) (str n j : ℕ)
    → finish_itoa m str (buffer, n) j ≡ (
        if leb str j && ltb j (str + n)
        then buffer (n - 1 - (j - str))
        else if j == str + n
        then 0
        else m j)
unfolding finish_itoa
finished buffer m str n j =
    let none : str + 0 ≡ str = omega arith in
    let copied = copy_digits_lem buffer m str (n - 1) 0 n j (omega arith) in
    ground (arith, rw none at copied)

written :
    (buffer after m : ℕ → ℕ) (str num base n : ℕ)
    → IsFilled base num 0 n buffer after
    → IsNumeral (finish_itoa m str (after, n)) str n base
      × (reads (finish_itoa m str (after, n)) str base 0 n ≡ num)
      × ((j : ℕ) → (j < str) ⊎ (str + n < j) → finish_itoa m str (after, n) j ≡ m j)
written buffer after m str num base n f =
    let out = finished after m str n in
    let at_index : (i : ℕ) → i < n → finish_itoa m str (after, n) (str + i) ≡ after (n - 1 - i) =
      λ i lt.
        let here : str + i - str ≡ i = omega arith in ground (arith, rw here at (out (str + i))) in
    let letters : (i : ℕ) → i < n → IsLetter (finish_itoa m str (after, n) (str + i)) base = λ i lt.
      let there : 0 + (n - 1 - i) ≡ n - 1 - i = omega arith in
      rw (at_index i lt) (rw there at (f.letters (n - 1 - i) (omega arith))) in
    let whole : n + 0 ≡ n = omega arith in
    let value = reads-spelled (finish_itoa m str (after, n)) after str base n 0 at_index in
    (
      record { letters = letters; ends = ground (arith, out (str + n)) },
      rw whole at value ∙ f.spells,
      λ j far. elim far [ inl q ↦ ground (arith, out j) | inr q ↦ ground (arith, out j) ],
    )

digits_needed : (num n : ℕ) → 0 < num → (num ≡ 0) ⊎ (0 < n) → 0 < n
digits_needed num n pos (inl e) = absurd (omega arith)
digits_needed num n pos (inr lt) = lt

-- `itoa_s` of a positive word in a base of 2 to 16, whatever is in the array and beyond
-- lettermap, ends after at most 32 divisions, and leaves at str a string of at most 32 letters
-- of the base that, read from the left, spell the number; all other memory stays.
pub itoa_s_lem :
    (beyond buffer m : ℕ → ℕ) (str num base : ℕ)
    → 2 ≤ base
    → base ≤ 16
    → 0 < num
    → num < 2 ^ 32
    → (m' : ℕ → ℕ) × (k : ℕ) × (itoa_s beyond buffer m str num base 32 ≡ some m')
      × (0 < k)
      × (k ≤ 32)
      × IsNumeral m' str k base
      × (reads m' str base 0 k ≡ num)
      × ((j : ℕ) → (j < str) ⊎ (str + k < j) → m' j ≡ m j)
unfolding itoa_s
itoa_s_lem beyond buffer m str num base two sixteen pos small =
    let (n, after, run, short, some_left, f) =
      fill_digits_lem beyond buffer 0 num base 32 two sixteen small in
    let plain : (num == 0 || (ltb 16 base && ltb base 0x80000000)) ≡ false = ground arith in
    let here : 0 + n ≡ n = omega arith in
    let filled : fill_digits beyond buffer 0 num base 32 ≡ some (after, n) =
      run ∙ ap (λ p. some (after, p)) here in
    let (numeral, value, kept) = written buffer after m str num base n f in
    (
      finish_itoa m str (after, n),
      n,
      rw (plain, filled) refl,
      digits_needed num n pos some_left,
      short,
      numeral,
      value,
      kept,
    )
