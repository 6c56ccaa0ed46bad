-- ===== src/Shell.antt =====
-- The command line of kernel/kernel/kernel.c, and `kernel_panic` of kernel/kernel/etc/exception.c. The
-- formats and the names of the commands are literals in memory, whose addresses are arguments.
pub mod Dispatch
pub mod Line
pub mod Start
pub mod Examples
use missy_micro.Common.{
  ℕ, zero, suc, ◌+◌, Option, none, some, ◌==◌, ltb, leb, ◌&&◌, if◌then◌else◌, List, [], ◌∷◌,
}
use missy_micro.Libc.{strlen, strncmp}
use missy_micro.Terminal.{Terminal, terminal_puts, terminal_clrscr}
use missy_micro.Output.{Frame, terminal_printf}
use missy_micro.Console.{Typist, Input, Reading, kernel_tty_read}
use missy_micro.Kalloc.{Kalloc, kernel_alloc}

-- "Error: unrecognized command"
abbrev pub no_command : List ℕ
no_command =
    69 ∷ 114 ∷ 114 ∷ 111 ∷ 114 ∷ 58 ∷ 32 ∷ 117 ∷ 110 ∷ 114 ∷ 101 ∷ 99 ∷ 111 ∷ 103 ∷ 110 ∷ 105 ∷ 122
    ∷ 101 ∷ 100 ∷ 32 ∷ 99 ∷ 111 ∷ 109 ∷ 109 ∷ 97 ∷ 110 ∷ 100 ∷ []

-- "\nKernel TTY built-in commands:\n"
abbrev pub help_head : List ℕ
help_head =
    10 ∷ 75 ∷ 101 ∷ 114 ∷ 110 ∷ 101 ∷ 108 ∷ 32 ∷ 84 ∷ 84 ∷ 89 ∷ 32 ∷ 98 ∷ 117 ∷ 105 ∷ 108 ∷ 116 ∷ 45
    ∷ 105 ∷ 110 ∷ 32 ∷ 99 ∷ 111 ∷ 109 ∷ 109 ∷ 97 ∷ 110 ∷ 100 ∷ 115 ∷ 58 ∷ 10 ∷ []

-- "\tclear: Clears the input terminal"
abbrev pub help_clear : List ℕ
help_clear =
    9 ∷ 99 ∷ 108 ∷ 101 ∷ 97 ∷ 114 ∷ 58 ∷ 32 ∷ 67 ∷ 108 ∷ 101 ∷ 97 ∷ 114 ∷ 115 ∷ 32 ∷ 116 ∷ 104 ∷ 101
    ∷ 32 ∷ 105 ∷ 110 ∷ 112 ∷ 117 ∷ 116 ∷ 32 ∷ 116 ∷ 101 ∷ 114 ∷ 109 ∷ 105 ∷ 110 ∷ 97 ∷ 108 ∷ []

-- "\tticks: print the current PIT tick count"
abbrev pub help_ticks : List ℕ
help_ticks =
    9 ∷ 116 ∷ 105 ∷ 99 ∷ 107 ∷ 115 ∷ 58 ∷ 32 ∷ 112 ∷ 114 ∷ 105 ∷ 110 ∷ 116 ∷ 32 ∷ 116 ∷ 104 ∷ 101
    ∷ 32 ∷ 99 ∷ 117 ∷ 114 ∷ 114 ∷ 101 ∷ 110 ∷ 116 ∷ 32 ∷ 80 ∷ 73 ∷ 84 ∷ 32 ∷ 116 ∷ 105 ∷ 99 ∷ 107
    ∷ 32 ∷ 99 ∷ 111 ∷ 117 ∷ 110 ∷ 116 ∷ []

-- "Kernel must halt! Calling cpu_disable()..."
abbrev pub must_halt : List ℕ
must_halt =
    75 ∷ 101 ∷ 114 ∷ 110 ∷ 101 ∷ 108 ∷ 32 ∷ 109 ∷ 117 ∷ 115 ∷ 116 ∷ 32 ∷ 104 ∷ 97 ∷ 108 ∷ 116 ∷ 33
    ∷ 32 ∷ 67 ∷ 97 ∷ 108 ∷ 108 ∷ 105 ∷ 110 ∷ 103 ∷ 32 ∷ 99 ∷ 112 ∷ 117 ∷ 95 ∷ 100 ∷ 105 ∷ 115 ∷ 97
    ∷ 98 ∷ 108 ∷ 101 ∷ 40 ∷ 41 ∷ 46 ∷ 46 ∷ 46 ∷ []

-- "Please reboot machine, or power off..."
abbrev pub please_reboot : List ℕ
please_reboot =
    80 ∷ 108 ∷ 101 ∷ 97 ∷ 115 ∷ 101 ∷ 32 ∷ 114 ∷ 101 ∷ 98 ∷ 111 ∷ 111 ∷ 116 ∷ 32 ∷ 109 ∷ 97 ∷ 99
    ∷ 104 ∷ 105 ∷ 110 ∷ 101 ∷ 44 ∷ 32 ∷ 111 ∷ 114 ∷ 32 ∷ 112 ∷ 111 ∷ 119 ∷ 101 ∷ 114 ∷ 32 ∷ 111
    ∷ 102 ∷ 102 ∷ 46 ∷ 46 ∷ 46 ∷ []

-- The screen that `kernel_panic` leaves before its endless loop.
unfoldable pub kernel_panic : Terminal → List ℕ → Terminal
kernel_panic t err = terminal_puts (terminal_puts (terminal_puts t err) must_halt) please_reboot

-- The three functions of the table.
pub data Command : Type 0 where
  help clear ticks : Command

pub record KtermBuiltin : Type 0 where
  pub commandtxt : ℕ
  pub commandcode : Command

-- The literals, what `printf` and `kernel_tty_read` are given, and `pit_tick_count`.
pub record Setting : Type 0 where
  pub prompt : ℕ
  pub help_name : ℕ
  pub clear_name : ℕ
  pub ticks_name : ℕ
  pub ticks_format : ℕ
  pub frame : Frame
  pub typist : Typist
  pub pit_tick_count : ℕ

unfoldable pub builtins : Setting → List KtermBuiltin
builtins e =
    record { commandtxt = e.help_name; commandcode = Command.help }
    ∷ record { commandtxt = e.clear_name; commandcode = Command.clear }
    ∷ record { commandtxt = e.ticks_name; commandcode = Command.ticks }
    ∷ []

-- The loop over the table. The inner `none` is that no command fits; the outer one, that `strlen` has
-- no fuel.
unfoldable pub find_builtin : (ℕ → ℕ) → ℕ → ℕ → List KtermBuiltin → Option (Option Command)
find_builtin m cmdstr fuel [] = some none
find_builtin m cmdstr fuel (b ∷ bs) =
    let rest = find_builtin m cmdstr fuel bs in
    elim (strlen m cmdstr fuel) [
      | none ↦ none
      | some n ↦ if strncmp m cmdstr b.commandtxt n == 0 then some (some b.commandcode) else rest
    ]

unfoldable pub kterminal_help : Terminal → Terminal
kterminal_help t =
    terminal_puts (terminal_puts (terminal_puts (terminal_puts t help_head) help_clear) help_ticks)
      []

unfoldable pub kterminal_clear : Terminal → Terminal
kterminal_clear t = terminal_clrscr t

unfoldable pub kterminal_ticks : Setting → ℕ → (ℕ → ℕ) → Terminal → Option ((ℕ → ℕ) × Terminal)
kterminal_ticks e fuel m t = terminal_printf e.frame fuel e.ticks_format (λ i. e.pit_tick_count) m t

-- `builtins[i].commandcode()`
unfoldable pub run_command :
    Setting → ℕ → Command → (ℕ → ℕ) → Terminal → Option ((ℕ → ℕ) × Terminal)
run_command e fuel help m t = some (m, kterminal_help t)
run_command e fuel clear m t = some (m, kterminal_clear t)
run_command e fuel ticks m t = kterminal_ticks e fuel m t

-- What the command line works on; the memory is that of the allocator.
pub record Shell : Type 0 where
  pub kalloc : Kalloc
  pub terminal : Terminal
  pub input : Input

abbrev pub with_output : Shell → (ℕ → ℕ) × Terminal → Shell
with_output s out = record s { kalloc = record s.kalloc { memory = out.0 }; terminal = out.1 }

-- From the loop over the table on, with the line at `cmdstr`. The result is 0 or -1.
unfoldable pub do_command : Setting → ℕ → ℕ → Shell → Option (ℕ × Shell)
do_command e fuel cmdstr s = elim (find_builtin s.kalloc.memory cmdstr fuel (builtins e)) [
  | none ↦ none
  | some found ↦ elim found [
    | none ↦ some (0xffffffff, record s { terminal = terminal_puts s.terminal no_command })
    | some c ↦ elim (run_command e fuel c s.kalloc.memory s.terminal) [
      | none ↦ none
      | some out ↦ some (0, with_output s out)
    ]
  ]
]

-- `memset (cmdstr, 0, 255)`. The kernel is built with -fbuiltin, so this is the compiler's `memset`,
-- not the one of libc/string/memset.c.
abbrev pub clear_line : (ℕ → ℕ) → ℕ → ℕ → ℕ
clear_line m cmdstr a = if leb cmdstr a && ltb a (cmdstr + 255) then 0 else m a

-- From the reading of the line on. `terminal_puts` prints the empty line.
unfoldable pub read_command : Setting → ℕ → ℕ → Kalloc → Terminal → Input → Option (ℕ × Shell)
read_command e fuel cmdstr k t i =
    elim (kernel_tty_read e.typist (clear_line k.memory cmdstr) t i cmdstr 255 fuel) [
      | none ↦ none
      | some line ↦ do_command e fuel cmdstr (record {
        kalloc = record k { memory = line.1.memory };
        terminal = terminal_puts line.1.terminal [];
        input = line.1.input;
      })
    ]

unfoldable pub kernel_command_line : Setting → ℕ → Shell → Option (ℕ × Shell)
kernel_command_line e fuel s =
    elim (terminal_printf e.frame fuel e.prompt (λ i. 0) s.kalloc.memory s.terminal) [
      | none ↦ none
      | some prompted ↦ elim (kernel_alloc (record s.kalloc { memory = prompted.0 }) 255 fuel) [
        | none ↦ none
        | some got ↦ read_command e fuel got.0 got.1 prompted.1 s.input
      ]
    ]
