-- ===== src/Paging/Entries.antt =====
-- The fields of page directory and page table entries, and of virtual addresses.
use missy_micro.Common.{ℕ, ◌+◌, ◌*◌, ◌/◌, ◌%◌, ◌^◌, ◌<◌, ◌≡◌, ap, arith, bit_and, bit_or}
use missy_micro.Common.{◌==◌}
use missy_micro.Bits.Masks.{bit_and_high, bit_and-ones, bit_or_low}
use missy_micro.Paging.{is_present, i386_virtual_to_pgidx}

pub bit_and_page : (a : ℕ) → a < 2 ^ 32 → bit_and a 0xfffff000 ≡ a / 4096 * 4096
bit_and_page a h = omega (arith, bit_and_high 12 20 a)

-- `phys | 3` of a page's address.
pub bit_or_three : (a : ℕ) → a % 4096 ≡ 0 → bit_or a 3 ≡ a + 3
bit_or_three a h =
    let e : 4096 * (a / 4096) ≡ a = omega arith in
    omega (arith, bit_or_low 12 (a / 4096) 3 (omega arith), ap (λ (x : ℕ). bit_or x 3) e)

pub is_present_lem : (e : ℕ) → is_present e ≡ (e % 2 == 1)
unfolding is_present
is_present_lem e = ground (arith, bit_and-ones 1 e)

-- The directory index and the table index of an address are its upper and middle ten digits.
pub pgidx_lem :
    (virt : ℕ)
    → virt < 2 ^ 32
    → let pg = i386_virtual_to_pgidx virt in
      (pg.ptable ≡ virt / 0x400000) × (pg.page ≡ virt / 0x1000 % 1024)
unfolding i386_virtual_to_pgidx
pgidx_lem virt h = omega (arith, bit_and_page virt h)
