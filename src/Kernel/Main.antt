-- ===== src/Kernel/Main.antt =====
-- `kernel_main` of kernel/kernel/kernel.c, with the splash logo of kernel/kernel/etc/splashlogo.c.
-- The literals are given by their bytes.
mod Printed
pub mod Commands
mod Examples
use missy_micro.Common.{Option, none, some, u8}
use missy_micro.Common.{ℕ, zero, suc, List, [], ◌∷◌, ◌==◌, if◌then◌else◌}
use missy_micro.Terminal.{Terminal, terminal_puts, terminal_clrscr}
use missy_micro.Shell.{Setting, Shell, kernel_command_line, with_output}
use missy_micro.Cpu.Boot.{Machine}
use missy_micro.Kernel.{BootSetting, Outcome, Panic, ◌>>=◌, done, panics, stuck, lift}
use missy_micro.Cpu.{cpu_setvector}
use missy_micro.Output.{terminal_printf}

abbrev logo_top : List ℕ
logo_top =
    32 ∷ 32 ∷ 32 ∷ 32 ∷ 32 ∷ 95 ∷ 95 ∷ 32 ∷ 32 ∷ 95 ∷ 95 ∷ 95 ∷ 95 ∷ 95 ∷ 95 ∷ 95 ∷ 95 ∷ 95 ∷ 95
    ∷ 32 ∷ 95 ∷ 95 ∷ 95 ∷ 95 ∷ 95 ∷ 95 ∷ 32 ∷ 95 ∷ 95 ∷ 95 ∷ 95 ∷ 95 ∷ 95 ∷ 95 ∷ 95 ∷ 32 ∷ 32 ∷ 95
    ∷ 95 ∷ 32 ∷ 32 ∷ 32 ∷ 32 ∷ 32 ∷ 32 ∷ 32 ∷ 32 ∷ 32 ∷ 32 ∷ 32 ∷ 32 ∷ 32 ∷ 32 ∷ 32 ∷ 32 ∷ 32 ∷ 32
    ∷ 32 ∷ 32 ∷ 32 ∷ 32 ∷ 32 ∷ 32 ∷ 32 ∷ 32 ∷ 32 ∷ 32 ∷ 32 ∷ 32 ∷ 32 ∷ 32 ∷ 32 ∷ 32 ∷ 32 ∷ 32 ∷ 32
    ∷ 32 ∷ 32 ∷ []

abbrev logo_second : List ℕ
logo_second =
    32 ∷ 32 ∷ 32 ∷ 32 ∷ 47 ∷ 32 ∷ 32 ∷ 92 ∷ 47 ∷ 32 ∷ 32 ∷ 32 ∷ 47 ∷ 95 ∷ 32 ∷ 32 ∷ 32 ∷ 95 ∷ 47
    ∷ 47 ∷ 32 ∷ 95 ∷ 95 ∷ 95 ∷ 95 ∷ 47 ∷ 47 ∷ 32 ∷ 95 ∷ 95 ∷ 95 ∷ 95 ∷ 47 ∷ 92 ∷ 32 ∷ 92 ∷ 47 ∷ 32
    ∷ 47 ∷ 32 ∷ 42 ∷ 42 ∷ 42 ∷ 42 ∷ 42 ∷ 42 ∷ 42 ∷ 42 ∷ 42 ∷ 42 ∷ 42 ∷ 42 ∷ 42 ∷ 42 ∷ 42 ∷ 42 ∷ 42
    ∷ 42 ∷ 42 ∷ 42 ∷ 42 ∷ 42 ∷ 42 ∷ 42 ∷ 42 ∷ 42 ∷ 42 ∷ 42 ∷ 42 ∷ 42 ∷ 42 ∷ 42 ∷ 42 ∷ 42 ∷ 42 ∷ 42
    ∷ []

abbrev logo_third : List ℕ
logo_third =
    32 ∷ 32 ∷ 32 ∷ 47 ∷ 32 ∷ 47 ∷ 92 ∷ 95 ∷ 95 ∷ 47 ∷ 32 ∷ 47 ∷ 32 ∷ 32 ∷ 47 ∷ 32 ∷ 47 ∷ 32 ∷ 32
    ∷ 92 ∷ 95 ∷ 95 ∷ 95 ∷ 32 ∷ 92 ∷ 32 ∷ 92 ∷ 95 ∷ 95 ∷ 32 ∷ 32 ∷ 92 ∷ 32 ∷ 32 ∷ 92 ∷ 32 ∷ 32 ∷ 47
    ∷ 32 ∷ 105 ∷ 51 ∷ 56 ∷ 54 ∷ 32 ∷ 77 ∷ 105 ∷ 99 ∷ 114 ∷ 111 ∷ 99 ∷ 111 ∷ 109 ∷ 112 ∷ 117 ∷ 116
    ∷ 101 ∷ 114 ∷ 32 ∷ 79 ∷ 112 ∷ 101 ∷ 114 ∷ 97 ∷ 116 ∷ 105 ∷ 110 ∷ 103 ∷ 32 ∷ 83 ∷ 121 ∷ 115 ∷ 116
    ∷ 101 ∷ 109 ∷ 32 ∷ 42 ∷ []

abbrev logo_fourth : List ℕ
logo_fourth =
    32 ∷ 32 ∷ 47 ∷ 32 ∷ 47 ∷ 32 ∷ 32 ∷ 32 ∷ 47 ∷ 32 ∷ 47 ∷ 95 ∷ 95 ∷ 47 ∷ 32 ∷ 47 ∷ 95 ∷ 32 ∷ 95
    ∷ 95 ∷ 95 ∷ 95 ∷ 47 ∷ 32 ∷ 47 ∷ 95 ∷ 95 ∷ 95 ∷ 95 ∷ 47 ∷ 32 ∷ 47 ∷ 32 ∷ 32 ∷ 47 ∷ 32 ∷ 47 ∷ 32
    ∷ 32 ∷ 118 ∷ 101 ∷ 114 ∷ 115 ∷ 105 ∷ 111 ∷ 110 ∷ 32 ∷ 51 ∷ 46 ∷ 48 ∷ 32 ∷ 45 ∷ 32 ∷ 65 ∷ 108
    ∷ 112 ∷ 104 ∷ 97 ∷ 32 ∷ 32 ∷ 32 ∷ 32 ∷ 32 ∷ 32 ∷ 32 ∷ 32 ∷ 32 ∷ 32 ∷ 32 ∷ 32 ∷ 32 ∷ 32 ∷ 32 ∷ 32
    ∷ 32 ∷ 42 ∷ []

abbrev logo_last : List ℕ
logo_last =
    32 ∷ 47 ∷ 95 ∷ 47 ∷ 32 ∷ 32 ∷ 32 ∷ 47 ∷ 95 ∷ 47 ∷ 95 ∷ 95 ∷ 95 ∷ 95 ∷ 95 ∷ 95 ∷ 47 ∷ 47 ∷ 95
    ∷ 95 ∷ 95 ∷ 95 ∷ 95 ∷ 47 ∷ 47 ∷ 95 ∷ 95 ∷ 95 ∷ 95 ∷ 95 ∷ 47 ∷ 32 ∷ 32 ∷ 47 ∷ 95 ∷ 47 ∷ 32 ∷ 42
    ∷ 42 ∷ 42 ∷ 42 ∷ 42 ∷ 42 ∷ 42 ∷ 42 ∷ 42 ∷ 42 ∷ 42 ∷ 42 ∷ 42 ∷ 42 ∷ 42 ∷ 42 ∷ 42 ∷ 42 ∷ 42 ∷ 42
    ∷ 42 ∷ 42 ∷ 42 ∷ 42 ∷ 42 ∷ 42 ∷ 42 ∷ 42 ∷ 42 ∷ 42 ∷ 42 ∷ 42 ∷ 42 ∷ 42 ∷ 42 ∷ 42 ∷ 42 ∷ 42 ∷ 42
    ∷ []

unfoldable pub splash_logo : Terminal → Terminal
splash_logo t =
    terminal_puts
      (terminal_puts
        (terminal_puts (terminal_puts (terminal_puts t logo_top) logo_second) logo_third)
        logo_fourth)
      logo_last

-- "MISSY v3.0 initialized successfully. Loading..."
abbrev loading : List ℕ
loading =
    77 ∷ 73 ∷ 83 ∷ 83 ∷ 89 ∷ 32 ∷ 118 ∷ 51 ∷ 46 ∷ 48 ∷ 32 ∷ 105 ∷ 110 ∷ 105 ∷ 116 ∷ 105 ∷ 97 ∷ 108
    ∷ 105 ∷ 122 ∷ 101 ∷ 100 ∷ 32 ∷ 115 ∷ 117 ∷ 99 ∷ 99 ∷ 101 ∷ 115 ∷ 115 ∷ 102 ∷ 117 ∷ 108 ∷ 108
    ∷ 121 ∷ 46 ∷ 32 ∷ 76 ∷ 111 ∷ 97 ∷ 100 ∷ 105 ∷ 110 ∷ 103 ∷ 46 ∷ 46 ∷ 46 ∷ []

-- The screen before the loop.
unfoldable pub greet : Terminal → Terminal
greet t = terminal_puts (splash_logo (terminal_clrscr t)) loading

-- What `kernel_main` works on.
pub record Running : Type 0 where
  pub machine : Machine
  pub shell : Shell

-- The first rounds of the endless loop; the result of a command is not used.
unfoldable pub run_commands : Setting → ℕ → ℕ → Running → Outcome Running
run_commands g fuel zero r = done r
run_commands g fuel (suc rounds) r = do
  out ← lift (kernel_command_line g fuel r.shell)
  run_commands g fuel rounds (record r { shell = out.1 })

-- `cpu_setvector` of i386_cpu.c, with the line that it prints.
unfoldable pub set_vector : BootSetting → Setting → ℕ → ℕ → ℕ → Running → Option Running
set_vector e g fuel vector addr r =
    let shell = r.shell in
    elim (terminal_printf g.frame fuel e.vector_format (λ i. u8 vector) shell.kalloc.memory
      shell.terminal) [
        | none ↦ none
        | some out ↦ some (record r {
          machine = record r.machine { idt = cpu_setvector r.machine.idt vector addr };
          shell = with_output shell out;
        })
      ]

-- `keyb_interrupt` is the handler of vector 0x21. The rest of `ps2_keyb_initialize` is commented out,
-- so it always returns 0, and so does `kernel_tty_initialize`.
unfoldable pub ps2_keyb_initialize : BootSetting → Setting → ℕ → Running → Option (ℕ × Running)
ps2_keyb_initialize e g fuel r = elim (set_vector e g fuel 0x21 (e.handler 0x21) r) [
  | none ↦ none
  | some set ↦ some (0, set)
]

unfoldable pub kernel_tty_initialize : BootSetting → Setting → ℕ → Running → Option (ℕ × Running)
kernel_tty_initialize e g fuel r = elim (ps2_keyb_initialize e g fuel r) [
  | none ↦ none
  | some started ↦
      if started.0 == 0xffffffff then some (0xffffffff, started.1) else some (0, started.1)
]

unfoldable pub kernel_main : BootSetting → Setting → ℕ → ℕ → Running → Outcome Running
kernel_main e g fuel rounds r = do
  started ← lift (
      kernel_tty_initialize e g fuel
        (record r { shell = record r.shell { terminal = greet r.shell.terminal } }))
  if started.0 == 0xffffffff then panics Panic.no_tty else run_commands g fuel rounds started.1
