-- ===== src/Libc/Strtol/Examples.antt =====
-- `strtol` of "42" at 5, and the round trip of 255 in base 16.
use missy_micro.Common.{ℕ, ◌+◌, ◌≡◌, refl, arith, true, false, none, some, if◌then◌else◌, ◌==◌}
use missy_micro.Common.{ltb}
use missy_micro.Libc.Itoa.{itoa_s}
use missy_micro.Libc.Itoa.Laws.{IsNumeral, reads}
use missy_micro.Libc.Strtol.{strtol}
use missy_micro.Libc.Strtol.Laws.{strtol_lem, strtol-itoa_s}

abbrev forty_two : ℕ → ℕ
forty_two i = if i == 5 then 52 else if i == 6 then 50 else 0

forty_two-IsNumeral : IsNumeral forty_two 5 2 10
forty_two-IsNumeral = record { letters = λ i lt. ground arith; ends = refl }

strtol_example :
    strtol forty_two 5 true 10 0 3
    ≡ some (record {
      value =
          if ltb (reads forty_two 5 10 0 2) 0x80000000
          then reads forty_two 5 10 0 2
          else 0x7fffffff;
      endptr = if true then some (5 + 1) else none;
      errno = if ltb (reads forty_two 5 10 0 2) 0x80000000 then 0 else 3;
    })
strtol_example =
    strtol_lem forty_two 5 1 10 0 3 true (omega arith) (omega arith) forty_two-IsNumeral
      (omega arith)

abbrev zeros : ℕ → ℕ
zeros i = 0

round_trip_example :
    (m' : ℕ → ℕ) × (k : ℕ) × (itoa_s zeros zeros zeros 100 255 16 32 ≡ some m')
    × (strtol m' 100 false 16 0 33
        ≡ some (record { value = 255; endptr = if false then some (100 + k) else none; errno = 0 }))
round_trip_example =
    strtol-itoa_s zeros zeros zeros 100 255 16 0 false (omega arith) (omega arith) (omega arith)
      (omega arith)
