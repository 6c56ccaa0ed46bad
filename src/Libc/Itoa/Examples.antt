-- ===== src/Libc/Itoa/Examples.antt =====
-- `itoa_s` of 255 in base 16.
use missy_micro.Common.{ℕ, ◌+◌, ◌≡◌, ◌≤◌, ◌<◌, ◌⊎◌, arith, some}
use missy_micro.Libc.Itoa.{itoa_s}
use missy_micro.Libc.Itoa.Laws.{IsNumeral, reads, itoa_s_lem}

abbrev zeros : ℕ → ℕ
zeros i = 0

itoa_s_example :
    (m' : ℕ → ℕ) × (k : ℕ) × (itoa_s zeros zeros zeros 100 255 16 32 ≡ some m')
    × (0 < k)
    × (k ≤ 32)
    × IsNumeral m' 100 k 16
    × (reads m' 100 16 0 k ≡ 255)
    × ((j : ℕ) → (j < 100) ⊎ (100 + k < j) → m' j ≡ zeros j)
itoa_s_example =
    itoa_s_lem zeros zeros zeros 100 255 16 (omega arith) (omega arith) (omega arith) (omega arith)
