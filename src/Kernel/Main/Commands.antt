-- ===== src/Kernel/Main/Commands.antt =====
-- `kernel_main` on the kernel that `kernel_early_init` leaves.
use missy_micro.Common.{ℕ, suc, ◌+◌, ◌-◌, ◌^◌, ◌≡◌, ◌≤◌, ◌<◌, refl, arith}
use missy_micro.Common.{Option, none, some, List, [], ◌∷◌, length, ◌==◌, if◌then◌else◌}
use missy_micro.Libc.Compare.{IsBytes}
use missy_micro.Terminal.{Terminal, terminal_puts, print_all}
use missy_micro.Output.{print_bytes, terminal_printf}
use missy_micro.Console.{Input, wait_key}
use missy_micro.Console.Line.{Types, IsPlain, line_memory}
use missy_micro.Heap.Grow.{IsHeap}
use missy_micro.Kalloc.{Kalloc}
use missy_micro.Kalloc.Split.{IsNextFree}
use missy_micro.Cpu.{cpu_setvector}
use missy_micro.Cpu.Vectors.{IsGate, holds, setvector-Gates}
use missy_micro.Cpu.Boot.{boot_vectors}
use missy_micro.Shell.{Setting, Shell, kernel_command_line, clear_line}
use missy_micro.Shell.Line.{NoZero, Done}
use missy_micro.Shell.Start.{IsVerbatim, first_line, kernel_command_line_first}
use missy_micro.Kernel.{BootSetting, Outcome, done, stuck, Kernel}
use missy_micro.Kernel.Boot.{IsBooted}
use missy_micro.Kernel.Main.{Running, kernel_main, run_commands, greet}
use missy_micro.Kernel.Main.{set_vector, kernel_tty_initialize, ps2_keyb_initialize}
use missy_micro.Kernel.Main.Printed.{
  IsVectorFormat, Clear, vector_printed, vector_shown, vector_digits,
}
use missy_micro.Kernel.Main.Printed.{vector_digits-IsBytes, vector_digits-IsVerbatim}

-- The kernel with a screen and keys, when nothing was allocated; the allocator's list begins at `base`.
abbrev pub handed : Kernel → ℕ → Terminal → Input → Running
handed kernel base t i = record {
  machine = kernel.machine;
  shell = record {
    kalloc = record {
      memory = kernel.devices.memory;
      base = base;
      free_hdr = 0;
      kspace = kernel.kspace;
    };
    terminal = t;
    input = i;
  };
}

-- The kernel after `kernel_tty_initialize`, which waits for commands.
abbrev pub ready : BootSetting → Setting → Running → Running
ready e g r = record {
  machine = record r.machine { idt = cpu_setvector r.machine.idt 0x21 (e.handler 0x21) };
  shell = record r.shell {
    kalloc = record r.shell.kalloc { memory = vector_digits r.shell.kalloc.memory g.frame.num_str };
    terminal = vector_shown (greet r.shell.terminal);
  };
}

-- A round of the loop that ends with `result`.
abbrev pub after_round : Running → Option (ℕ × Shell) → Outcome Running
after_round r none = stuck
after_round r (some out) = done (record r { shell = out.1 })

run_commands_once :
    (g : Setting) (fuel : ℕ) (r : Running) (result : Option (ℕ × Shell))
    → kernel_command_line g fuel r.shell ≡ result
    → run_commands g fuel 1 r ≡ after_round r result
unfolding run_commands
run_commands_once g fuel r none run = rw run refl
run_commands_once g fuel r (some out) run = rw run refl

-- The line of the keyboard's vector is shown.
Shows : BootSetting → Setting → ℕ → Running → Type 0
Shows e g fuel r =
    terminal_printf g.frame fuel e.vector_format (λ i. 0x21) r.shell.kalloc.memory
      (greet r.shell.terminal)
    ≡ some
        (vector_digits r.shell.kalloc.memory g.frame.num_str, vector_shown (greet r.shell.terminal))

tty_ready :
    (e : BootSetting) (g : Setting) (fuel : ℕ) (r : Running)
    → Shows e g fuel r
    → kernel_tty_initialize e g fuel
        (record r { shell = record r.shell { terminal = greet r.shell.terminal } })
      ≡ some (0, ready e g r)
unfolding kernel_tty_initialize ps2_keyb_initialize set_vector Shows
tty_ready e g fuel r printed =
    rw (kernel_tty_initialize, ps2_keyb_initialize, set_vector, printed) refl

kernel_main_once :
    (e : BootSetting) (g : Setting) (fuel : ℕ) (r : Running)
    → Shows e g fuel r
    → kernel_main e g fuel 1 r
      ≡ after_round (ready e g r) (kernel_command_line g fuel (ready e g r).shell)
unfolding kernel_main
kernel_main_once e g fuel r printed =
    rw (kernel_main, tty_ready e g fuel r printed) (run_commands_once g fuel (ready e g r) _ refl)

-- The addresses in the interrupt table while commands are read.
abbrev pub handler_at : BootSetting → ℕ → ℕ
handler_at e v =
    if v == 0x21
    then e.handler 0x21
    else if holds boot_vectors v
    then e.handler v
    else e.default_handler

-- On a kernel as `kernel_early_init` leaves it, with nothing allocated, in a memory of bytes,
-- with a head of the allocator's list below the heap, a keyboard handler at a 32-bit address,
-- the format of `cpu_setvector` and a prompt without a % in memory, neither of which meets the
-- array of a number's digits, where a first key, then plain keys, fewer than 255 in all and
-- none of them with a byte of 0, and then the end of the line are typed, with at most f polls
-- for each, f above 0, and with a fuel of 26 or more that is above the length of the prompt,
-- `kernel_main` does not panic, and it shows its greeting and the line of `cpu_setvector` with
-- the keyboard's vector, where a zero byte follows the number; in its first round it shows the
-- prompt and then the keys, reads exactly the bytes of the keys into the last 255 of the first
-- 1024 bytes of the heap, and the first command whose name is the whole line runs, to its end
-- if its printing ends, and where the line is no name the message is shown; the heap is in
-- order, the rest of the 1024 bytes is free, and the keyboard's vector and all that `cpu_init`
-- set have their gates.
pub kernel_main_first :
    (e : BootSetting) (g : Setting) (kernel : Kernel) (base letters : ℕ) (t : Terminal)
    (i j j' : Input) (k : ℕ) (ks : List ℕ) (f : ℕ)
    → IsBooted e kernel
    → e.handler 0x21 < 2 ^ 32
    → 0 < base
    → base + 8 ≤ 0xd0000000
    → IsBytes kernel.devices.memory
    → IsVectorFormat kernel.devices.memory e.vector_format
    → Clear g.frame.num_str e.vector_format 24
    → IsVerbatim kernel.devices.memory g.prompt letters
    → Clear g.frame.num_str g.prompt letters
    → letters < length ks + suc f
    → 26 ≤ length ks + suc f
    → suc (length ks) < 255
    → IsPlain ks
    → NoZero (k ∷ ks)
    → Types g.typist f i (k ∷ ks) j
    → wait_key g.typist j f ≡ some (13, j')
    → 0 < f
    → (k' : Kalloc) × (m : ℕ → ℕ) × (result : Option (ℕ × Shell)) × (kernel_main e g
          (length ks + suc f)
          1
          (handed kernel base t i)
        ≡ after_round (ready e g (handed kernel base t i)) result)
      × ((a : ℕ) → m a ≡ line_memory (clear_line k'.memory first_line) first_line (k ∷ ks) a)
      × Done g
          (length ks + suc f)
          first_line
          (suc (length ks))
          (record {
            kalloc = record k' { memory = m };
            terminal =
                terminal_puts
                  (print_all
                    (print_bytes
                      (vector_digits kernel.devices.memory g.frame.num_str)
                      g.prompt
                      letters
                      (vector_shown (greet t)))
                    (k ∷ ks))
                  [];
            input = j';
          })
          result
      × IsHeap k'.kspace
      × IsNextFree k' 0xd0000000 (1024 - 263)
      × ((v : ℕ)
          → v < 255
          → IsGate ((ready e g (handed kernel base t i)).machine.idt v) (handler_at e v))
kernel_main_first e g kernel base letters t i j j' k ks f booted fits based low bytes format clear
      prompt apart prompted enough short plain no_zero types at_end pos =
    let shell = (ready e g (handed kernel base t i)).shell in
    let printed : Shows e g (length ks + suc f) (handed kernel base t i) =
      unfold Shows in
      vector_printed g.frame kernel.devices.memory e.vector_format format clear (length ks + suc f)
        (greet t) enough in
    let (k', m, heap, free, line, obeyed) =
      kernel_command_line_first g shell letters j j' k ks f booted.heap booted.at_start
        booted.one_page refl based low (vector_digits-IsBytes _ _ bytes)
        (vector_digits-IsVerbatim _ _ _ _ apart prompt) prompted (omega arith) short plain no_zero
        types at_end pos in
    (
      k',
      m,
      kernel_command_line g (length ks + suc f) shell,
      kernel_main_once e g (length ks + suc f) (handed kernel base t i) printed,
      line,
      obeyed,
      heap,
      free,
      setvector-Gates kernel.machine.idt
          (λ v. if holds boot_vectors v then e.handler v else e.default_handler) 0x21
          (e.handler 0x21) (omega arith) fits booted.gates,
    )
