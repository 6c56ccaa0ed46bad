-- ===== src/Pic/Pit.antt =====
-- kernel/arch/i386/pit/pit.c: the start of the interval timer.
use missy_micro.Common.{ℕ, ◌/◌, ◌^◌, ◌≡◌, ◌≢◌, refl, arith}
use missy_micro.Common.{◌==◌, if◌then◌else◌, u16, u8, bit_and, ◌∷◌, Option, none, some, ==_ne}
use missy_micro.Bits.Masks.{bit_and_high}
use missy_micro.Pic.{Pic, outportb}

abbrev pub pit_clock_freq : ℕ
pit_clock_freq = 1193182

-- `PIT_CMD_CHANNEL_0 | PIT_CMD_LOBYTE_FIRST | PIT_CMD_SQUAREWAVE | PIT_CMD_BINARY_MODE`
abbrev pub pit_default_startup_command : ℕ
pit_default_startup_command = 0x36

-- `none` is the processor's trap on a division by 0.
unfoldable pub i386_pit_start : Pic → ℕ → Option Pic
i386_pit_start s freq =
    let reload_value = u16 (pit_clock_freq / freq) in
    if freq == 0
    then none
    else some (
        outportb 0x40 (u8 (reload_value / 2 ^ 8)) (
          outportb 0x40 (u8 (bit_and reload_value 0xff00))
            (outportb 0x43 pit_default_startup_command s)))

-- For a frequency other than 0 the timer is started with the high byte of the reload value and
-- a low byte of 0.
pub i386_pit_start_lem :
    (s : Pic) (freq : ℕ)
    → freq ≢ 0
    → let reload = u16 (1193182 / freq) in
      i386_pit_start s freq
      ≡ some (record s { sent = (0x40, reload / 256) ∷ (0x40, 0) ∷ (0x43, 0x36) ∷ s.sent })
unfolding i386_pit_start
i386_pit_start_lem s freq ne =
    let reload = u16 (1193182 / freq) in
    let low : u8 (bit_and reload 0xff00) ≡ 0 = omega (arith, bit_and_high 8 8 reload) in
    let high : u8 (reload / 2 ^ 8) ≡ reload / 256 = omega arith in
    rw (==_ne freq 0 ne, low, high) refl
