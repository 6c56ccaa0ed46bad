-- ===== src/Keyboard/Controller.antt =====
-- The waits for the PS/2 controller at the end of kernel/arch/i386/vga_tty/ps2_keyb.c. `status i` is the
-- byte that the read number `i` of the controller's port gives. The result has the number of the
-- first read that was not made; `none` is running out of fuel.
use missy_micro.Common.{ℕ, zero, suc, ◌+◌, ◌<◌, ◌≡◌, ◌≢◌, refl, arith, bit_and, Option, none}
use missy_micro.Common.{some}
use missy_micro.Common.{◌==◌, ==_ne, if◌then◌else◌, List, [], ◌∷◌}
use missy_micro.Terminal.{Terminal, terminal_puts}

abbrev ps2_outbuffer_status : ℕ
ps2_outbuffer_status = 0x01

abbrev ps2_inbuffer_status : ℕ
ps2_inbuffer_status = 0x02

-- "looping inp..."
abbrev looping : List ℕ
looping = 108 ∷ 111 ∷ 111 ∷ 112 ∷ 105 ∷ 110 ∷ 103 ∷ 32 ∷ 105 ∷ 110 ∷ 112 ∷ 46 ∷ 46 ∷ 46 ∷ []

unfoldable ps2_controller_wait_outp : (ℕ → ℕ) → ℕ → ℕ → Option ℕ
ps2_controller_wait_outp status zero i = none
ps2_controller_wait_outp status (suc fuel) i =
    let rest = ps2_controller_wait_outp status fuel (i + 1) in
    if bit_and (status i) ps2_outbuffer_status == 0 then rest else some (i + 1)

unfoldable ps2_controller_wait_inp : (ℕ → ℕ) → ℕ → ℕ → Terminal → Option (ℕ × Terminal)
ps2_controller_wait_inp status zero i t = none
ps2_controller_wait_inp status (suc fuel) i t =
    let rest = ps2_controller_wait_inp status fuel (i + 1) (terminal_puts t looping) in
    if bit_and (status i) ps2_inbuffer_status == 0 then some (i + 1, t) else rest

-- The screen after `n` rounds of the loop of `ps2_controller_wait_inp`.
abbrev looped : ℕ → Terminal → Terminal
looped zero t = t
looped (suc n) t = looped n (terminal_puts t looping)

-- The bit of the mask is clear in `n` reads from `i` on, and set in the next.
record IsFirstSet (status : ℕ → ℕ) (mask i n : ℕ) : Type 0 where
  pub clear : (j : ℕ) → j < n → bit_and (status (i + j)) mask ≡ 0
  pub set : bit_and (status (i + n)) mask ≢ 0

-- The bit of the mask is set in `n` reads from `i` on, and clear in the next.
record IsFirstClear (status : ℕ → ℕ) (mask i n : ℕ) : Type 0 where
  pub set : (j : ℕ) → j < n → bit_and (status (i + j)) mask ≢ 0
  pub clear : bit_and (status (i + n)) mask ≡ 0

ps2_controller_wait_outp_lem :
    (status : ℕ → ℕ) (fuel i n : ℕ)
    → IsFirstSet status ps2_outbuffer_status i n
    → n < fuel
    → ps2_controller_wait_outp status fuel i ≡ some (i + n + 1)
unfolding ps2_controller_wait_outp
ps2_controller_wait_outp_lem status zero i n first lt = elim lt [ ]
ps2_controller_wait_outp_lem status (suc fuel) i zero first lt =
    let here : i + 0 ≡ i = omega arith in
    let read = rw here at first.set in rw (==_ne (bit_and (status i) 1) 0 read, here) refl
ps2_controller_wait_outp_lem status (suc fuel) i (suc n) first lt =
    let here : i + 0 ≡ i = omega arith in
    let read = rw here at (first.clear 0 (omega arith)) in
    let next : (j : ℕ) → i + 1 + j ≡ i + suc j = λ j. omega arith in
    let rest =
      ps2_controller_wait_outp_lem status fuel (i + 1) n
        (record {
          clear = λ j below. rw (next j) (first.clear (suc j) (omega arith));
          set = rw (next n) first.set;
        })
        (omega arith) in
    rw (read, rest, next n) refl

ps2_controller_wait_inp_lem :
    (status : ℕ → ℕ) (fuel i n : ℕ) (t : Terminal)
    → IsFirstClear status ps2_inbuffer_status i n
    → n < fuel
    → ps2_controller_wait_inp status fuel i t ≡ some (i + n + 1, looped n t)
unfolding ps2_controller_wait_inp
ps2_controller_wait_inp_lem status zero i n t first lt = elim lt [ ]
ps2_controller_wait_inp_lem status (suc fuel) i zero t first lt =
    let here : i + 0 ≡ i = omega arith in let read = rw here at first.clear in rw (read, here) refl
ps2_controller_wait_inp_lem status (suc fuel) i (suc n) t first lt =
    let here : i + 0 ≡ i = omega arith in
    let read = rw here at (first.set 0 (omega arith)) in
    let next : (j : ℕ) → i + 1 + j ≡ i + suc j = λ j. omega arith in
    let rest =
      ps2_controller_wait_inp_lem status fuel (i + 1) n (terminal_puts t looping)
        (record {
          set = λ j below. rw (next j) (first.set (suc j) (omega arith));
          clear = rw (next n) first.clear;
        })
        (omega arith) in
    rw (==_ne (bit_and (status i) 2) 0 read, rest, next n) refl
