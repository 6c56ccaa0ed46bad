-- ===== src/Libc/Strtol/Laws.antt =====
-- `strtol` reads numerals.
use native.Mathlib.Nat.{mod-lt, mod-add-div', mul-le-mul_left, mul-le-mul_right}
use missy_micro.Common.{ℕ, zero, suc, ◌+◌, ◌-◌, ◌*◌, ◌/◌, ◌%◌, ◌^◌, ◌≤◌, ◌<◌, ◌≡◌, refl, ap}
use missy_micro.Common.{ap₂, arith, ◌∙◌}
use missy_micro.Common.{ltb, leb, ◌==◌, if◌then◌else◌, ◌&&◌, ◌||◌, Bool, Bool-cases, inl, inr}
use missy_micro.Common.{true, false, not}
use missy_micro.Common.{Option, none, some}
use missy_micro.Libc.{isalpha, isdigit, isspace, isupper}
use missy_micro.Libc.Itoa.{itoa_s}
use missy_micro.Libc.Itoa.Laws.{digit, IsLetter, IsNumeral, reads, itoa_s_lem}
use missy_micro.Libc.Strtol.{strtol, convert, convert_digits, finish_strtol, read_sign}
use missy_micro.Libc.Strtol.{read_prefix, scan, accumulate, out_of_range, digit_value, Scan}

digit_value_lem : (c base : ℕ) → base ≤ 16 → IsLetter c base → digit_value c ≡ some (digit c)
unfolding digit_value isalpha isdigit isupper
digit_value_lem c base sixteen h = ground arith

-- The comparison with the two limits is the comparison with the largest value.
limits :
    (largest base acc c : ℕ)
    → c < base
    → (ltb (largest / base) acc || (acc == largest / base && ltb (largest % base) c))
      ≡ ltb largest (acc * base + c)
limits largest base acc c h =
    let whole = mod-add-div' largest base in
    let below = mod-lt largest {m = base} (omega arith) in
    let under : acc < largest / base → (acc + 1) * base ≤ largest / base * base =
      λ lt. mul-le-mul_right base (omega arith) in
    let over : largest / base < acc → (largest / base + 1) * base ≤ acc * base =
      λ lt. mul-le-mul_right base (omega arith) in
    ground (arith, whole, below, under, over)

reads_grows : (m : ℕ → ℕ) (s base acc n : ℕ) → 0 < base → acc ≤ reads m s base acc n
reads_grows m s base acc zero h = omega arith
reads_grows m s base acc (suc n) h =
    let scaled : acc * 1 ≤ acc * base = mul-le-mul_left acc h in
    omega (arith, scaled, reads_grows m (s + 1) base (acc * base + digit (m s)) n h)

-- A numeral without its first letter.
IsNumeral-rest :
    (m : ℕ → ℕ) (s k base : ℕ) → IsNumeral m s (suc k) base → IsNumeral m (s + 1) k base
IsNumeral-rest m s k base h =
    let at_end : s + 1 + k ≡ s + suc k = omega arith in
    record {
      letters = λ i lt.
          let here : s + 1 + i ≡ s + suc i = omega arith in
          rw here (h.letters (suc i) (omega arith));
      ends = rw at_end h.ends;
    }

IsNumeral-first : (m : ℕ → ℕ) (s k base : ℕ) → IsNumeral m s (suc k) base → IsLetter (m s) base
IsNumeral-first m s k base h =
    let here : s + 0 ≡ s = omega arith in rw here at (h.letters 0 (omega arith))

-- A letter is one round of the loop.
scan_letter :
    (m : ℕ → ℕ) (s : Scan) (k base cutoff cutlimit fuel : ℕ)
    → base ≤ 16
    → IsLetter (m s.numstr) base
    → scan m s base cutoff cutlimit (suc fuel)
      ≡ scan m (accumulate s base cutoff cutlimit (digit (m s.numstr))) base cutoff cutlimit fuel
unfolding scan
scan_letter m s k base cutoff cutlimit fuel sixteen h =
    let more : (m s.numstr == 0) ≡ false = ground arith in
    let good : leb base (digit (m s.numstr)) ≡ false = ground arith in
    rw (more, digit_value_lem (m s.numstr) base sixteen h, good) refl

-- The end of a numeral ends the loop.
scan_end :
    (m : ℕ → ℕ) (s : Scan) (base cutoff cutlimit fuel : ℕ)
    → m s.numstr ≡ 0
    → scan m s base cutoff cutlimit (suc fuel) ≡ some s
unfolding scan
scan_end m s base cutoff cutlimit fuel h =
    let done : (m s.numstr == 0) ≡ true = ground arith in rw done refl

abbrev scanned : ℕ → ℕ → ℕ → Scan
scanned numstr retval any = record { numstr = numstr; retval = retval; any = any }

-- The loop with the limits of a positive number.
abbrev scan_positive : (ℕ → ℕ) → Scan → ℕ → ℕ → Option Scan
scan_positive m s base fuel = scan m s base (0x7fffffff / base) (0x7fffffff % base) fuel

accumulate_lem :
    (numstr acc any base c : ℕ)
    → acc < 2 ^ 31
    → c < base
    → accumulate (scanned numstr acc any) base (0x7fffffff / base) (0x7fffffff % base) c ≡ (
        if ltb any 0x80000000 && ltb (acc * base + c) 0x80000000
        then scanned (numstr + 1) (acc * base + c) 1
        else scanned (numstr + 1) acc 0xffffffff)
unfolding accumulate out_of_range
accumulate_lem numstr acc any base c small h = ground (arith, limits 0x7fffffff base acc c h)

-- A round on a letter.
scan_round :
    (m : ℕ → ℕ) (s k acc any base fuel : ℕ)
    → base ≤ 16
    → acc < 2 ^ 31
    → IsNumeral m s (suc k) base
    → scan_positive m (scanned s acc any) base (suc fuel)
      ≡ scan_positive m
          (if ltb any 0x80000000 && ltb (acc * base + digit (m s)) 0x80000000
            then scanned (s + 1) (acc * base + digit (m s)) 1
            else scanned (s + 1) acc 0xffffffff)
          base
          fuel
scan_round m s k acc any base fuel sixteen small h =
    let first = IsNumeral-first m s k base h in
    scan_letter m (scanned s acc any) k base (0x7fffffff / base) (0x7fffffff % base) fuel sixteen
      first
    ∙ ap (λ t. scan_positive m t base fuel)
        (accumulate_lem s acc any base (digit (m s)) small first.3)

scan_lem :
    (m : ℕ → ℕ) (s k acc any base fuel : ℕ)
    → 2 ≤ base
    → base ≤ 16
    → IsNumeral m s k base
    → reads m s base acc k < 2 ^ 31
    → any < 2
    → k < fuel
    → scan_positive m (scanned s acc any) base fuel
      ≡ some (scanned (s + k) (reads m s base acc k) (if k == 0 then any else 1))
scan_lem m s k acc any base zero two sixteen h small ok lt = elim lt [ ]
scan_lem m s zero acc any base (suc fuel) two sixteen h small ok lt =
    let here : s ≡ s + 0 = omega arith in
    scan_end m (scanned s acc any) base (0x7fffffff / base) (0x7fffffff % base) fuel
      (rw here h.ends)
    ∙ ap (λ p. some (scanned p acc any)) here
scan_lem m s (suc k) acc any base (suc fuel) two sixteen h small ok lt =
    let next = acc * base + digit (m s) in
    let in_range : next ≤ reads m (s + 1) base next k =
      reads_grows m (s + 1) base next k (omega arith) in
    let before : acc ≤ reads m s base acc (suc k) =
      reads_grows m s base acc (suc k) (omega arith) in
    let good : (ltb any 0x80000000 && ltb next 0x80000000) ≡ true = ground arith in
    let rest =
      scan_lem m (s + 1) k next 1 base fuel two sixteen (IsNumeral-rest m s k base h) small
        (omega arith) (omega arith) in
    let there : s + 1 + k ≡ s + suc k = omega arith in
    let one : (if k == 0 then 1 else 1) ≡ (if suc k == 0 then any else 1) = ground arith in
    scan_round m s k acc any base fuel sixteen (omega arith) h
    ∙ rw good (rest ∙ ap₂ (λ p a. some (scanned p (reads m (s + 1) base next k) a)) there one)

-- After a failure the loop reads on.
scan_failed :
    (m : ℕ → ℕ) (s k acc base fuel : ℕ)
    → base ≤ 16
    → acc < 2 ^ 31
    → IsNumeral m s k base
    → k < fuel
    → scan_positive m (scanned s acc 0xffffffff) base fuel ≡ some (scanned (s + k) acc 0xffffffff)
scan_failed m s k acc base zero sixteen small h lt = elim lt [ ]
scan_failed m s zero acc base (suc fuel) sixteen small h lt =
    let here : s ≡ s + 0 = omega arith in
    scan_end m (scanned s acc 0xffffffff) base (0x7fffffff / base) (0x7fffffff % base) fuel
      (rw here h.ends)
    ∙ ap (λ p. some (scanned p acc 0xffffffff)) here
scan_failed m s (suc k) acc base (suc fuel) sixteen small h lt =
    let there : s + 1 + k ≡ s + suc k = omega arith in
    scan_round m s k acc 0xffffffff base fuel sixteen small h
    ∙ scan_failed m (s + 1) k acc base fuel sixteen small (IsNumeral-rest m s k base h)
        (omega arith)
    ∙ ap (λ p. some (scanned p acc 0xffffffff)) there

scan_over :
    (m : ℕ → ℕ) (s k acc any base fuel : ℕ)
    → base ≤ 16
    → acc < 2 ^ 31
    → IsNumeral m s k base
    → 2 ^ 31 ≤ reads m s base acc k
    → any < 2
    → k < fuel
    → (retval : ℕ) × (scan_positive m (scanned s acc any) base fuel
        ≡ some (scanned (s + k) retval 0xffffffff))
scan_over m s k acc any base zero sixteen small h over ok lt = elim lt [ ]
scan_over m s zero acc any base (suc fuel) sixteen small h over ok lt = absurd (omega arith)
scan_over m s (suc k) acc any base (suc fuel) sixteen small h over ok lt =
    let next = acc * base + digit (m s) in
    let there : s + 1 + k ≡ s + suc k = omega arith in
    let numeral = IsNumeral-rest m s k base h in
    let go_on = scan_round m s k acc any base fuel sixteen small h in
    elim (Bool-cases (ltb next 0x80000000)) [
      | inl fits ↦
          let good : (ltb any 0x80000000 && ltb next 0x80000000) ≡ true = ground arith in
          let (retval, rest) =
            scan_over m (s + 1) k next 1 base fuel sixteen (ground arith) numeral over (omega arith)
              (omega arith) in
          (retval, go_on ∙ rw good (rest ∙ ap (λ p. some (scanned p retval 0xffffffff)) there))
      | inr large ↦
          let bad : (ltb any 0x80000000 && ltb next 0x80000000) ≡ false = ground arith in
          (
            acc,
            go_on
                ∙ rw bad (
                    scan_failed m (s + 1) k acc base fuel sixteen small numeral (omega arith)
                    ∙ ap (λ p. some (scanned p acc 0xffffffff)) there),
          )
    ]

no_sign : (m : ℕ → ℕ) (s base : ℕ) → IsLetter (m s) base → read_sign m s ≡ (false, s)
unfolding read_sign
no_sign m s base h = ground arith

no_prefix : (m : ℕ → ℕ) (s base : ℕ) → 2 ≤ base → read_prefix m s base ≡ (base, s)
unfolding read_prefix
no_prefix m s base h = ground arith

after_sign :
    (m : ℕ → ℕ) (s base errno fuel : ℕ) (wanted : Bool)
    → 2 ≤ base
    → convert m s wanted (false, s) base errno fuel
      ≡ convert_digits m s wanted false (base, s) errno fuel
unfolding convert
after_sign m s base errno fuel wanted two = rw (no_prefix m s base two) refl

digits_run :
    (m : ℕ → ℕ) (s base errno fuel : ℕ) (wanted : Bool)
    → 2 ≤ base
    → convert_digits m s wanted false (base, s) errno fuel
      ≡ elim (scan_positive m (scanned s 0 0) base fuel) [
        | none ↦ none
        | some t ↦ some (finish_strtol s wanted false errno t)
      ]
unfolding convert_digits
digits_run m s base errno fuel wanted two =
    let some_base : (base == 0) ≡ false = ground arith in rw some_base refl

-- A numeral has no white space, sign or prefix before it.
strtol_scan :
    (m : ℕ → ℕ) (s k base errno fuel : ℕ) (wanted : Bool)
    → 2 ≤ base
    → base ≤ 16
    → IsNumeral m s (suc k) base
    → strtol m s wanted base errno fuel ≡ convert_digits m s wanted false (base, s) errno fuel
unfolding strtol isspace
strtol_scan m s k base errno fuel wanted two sixteen h =
    let first = IsNumeral-first m s k base h in
    let valid : (not (base == 0) && (ltb base 2 || ltb 36 base)) ≡ false = ground arith in
    let black : (m s == 32 || m s == 9) ≡ false = ground arith in
    rw (valid, black, no_sign m s base first) (after_sign m s base errno fuel wanted two)

-- strtol of a numeral in a base of 2 to 16, with fuel above its length, ends: if its value is
-- below 2 ^ 31 that is returned and errno stays, and if not, the largest long is, and errno is
-- ERANGE; the end pointer is stored where one is wanted, one before the zero byte.
pub strtol_lem :
    (m : ℕ → ℕ) (s k base errno fuel : ℕ) (wanted : Bool)
    → 2 ≤ base
    → base ≤ 16
    → IsNumeral m s (suc k) base
    → suc k < fuel
    → strtol m s wanted base errno fuel
      ≡ some (record {
        value =
            if ltb (reads m s base 0 (suc k)) 0x80000000
            then reads m s base 0 (suc k)
            else 0x7fffffff;
        endptr = if wanted then some (s + k) else none;
        errno = if ltb (reads m s base 0 (suc k)) 0x80000000 then errno else 3;
      })
unfolding finish_strtol
strtol_lem m s k base errno fuel wanted two sixteen h lt =
    let last : s + suc k - 1 ≡ s + k = omega arith in
    let positive : (suc k == 0) ≡ false = ground arith in
    elim (Bool-cases (ltb (reads m s base 0 (suc k)) 0x80000000)) [
      | inl fits ↦
          let run =
            scan_lem m s (suc k) 0 0 base fuel two sixteen h (ground arith) (omega arith) lt in
          rw
            (
              fits,
              strtol_scan m s k base errno fuel wanted two sixteen h,
              digits_run m s base errno fuel wanted two,
              run,
              positive,
              last,
            )
            refl
      | inr large ↦
          let (retval, run) =
            scan_over m s (suc k) 0 0 base fuel sixteen (omega arith) h (ground arith) (omega arith)
              lt in
          rw
            (
              large,
              strtol_scan m s k base errno fuel wanted two sixteen h,
              digits_run m s base errno fuel wanted two,
              run,
              last,
            )
            refl
    ]

-- The same for a value that is in range.
read_back :
    (m : ℕ → ℕ) (s k base num errno : ℕ) (wanted : Bool)
    → 2 ≤ base
    → base ≤ 16
    → 0 < k
    → k ≤ 32
    → IsNumeral m s k base
    → reads m s base 0 k ≡ num
    → num < 2 ^ 31
    → strtol m s wanted base errno 33
      ≡ some (record {
        value = num;
        endptr = if wanted then some (s + (k - 1)) else none;
        errno = errno;
      })
read_back m s zero base num errno wanted two sixteen pos short h value small = elim pos [ ]
read_back m s (suc k) base num errno wanted two sixteen pos short h value small =
    let fits : ltb num 0x80000000 ≡ true = ground arith in
    let last : k ≡ suc k - 1 = omega arith in
    rw (strtol_lem m s k base errno 33 wanted two sixteen h (omega arith), value, fits)
      (ap
        (λ p.
          some
            (record { value = num; endptr = if wanted then some (s + p) else none; errno = errno }))
        last)

-- What `itoa_s` writes for a positive number below 2 ^ 31 in a base of 2 to 16, strtol reads
-- back in that base, and both end.
pub strtol-itoa_s :
    (beyond buffer m : ℕ → ℕ) (str num base errno : ℕ) (wanted : Bool)
    → 2 ≤ base
    → base ≤ 16
    → 0 < num
    → num < 2 ^ 31
    → (m' : ℕ → ℕ) × (k : ℕ) × (itoa_s beyond buffer m str num base 32 ≡ some m')
      × (strtol m' str wanted base errno 33
          ≡ some (record {
            value = num;
            endptr = if wanted then some (str + k) else none;
            errno = errno;
          }))
strtol-itoa_s beyond buffer m str num base errno wanted two sixteen pos small =
    let (m', k, run, some_digits, short, numeral, value, kept) =
      itoa_s_lem beyond buffer m str num base two sixteen pos (omega arith) in
    (
      m',
      k - 1,
      run,
      read_back m' str k base num errno wanted two sixteen some_digits short numeral value small,
    )
