-- ===== src/Kernel/Main/Examples.antt =====
-- The line "help", typed to a kernel that was just started.
use missy_micro.Common.{ℕ, ◌-◌, ◌/◌, ◌%◌, ◌^◌, ◌<◌, ◌≡◌, refl, arith}
use missy_micro.Common.{true, Option, [], ◌∷◌}
use missy_micro.Common.{◌==◌, if◌then◌else◌}
use missy_micro.Libc.Compare.{IsBytes}
use missy_micro.Terminal.{terminal_puts, print_all}
use missy_micro.Output.{print_bytes}
use missy_micro.Console.Line.{line_memory}
use missy_micro.Heap.Grow.{IsHeap}
use missy_micro.Heap.Examples.{one_page_heap, one_page_heap-IsHeap}
use missy_micro.Kalloc.{Kalloc}
use missy_micro.Kalloc.Split.{IsNextFree}
use missy_micro.Cpu.{IdtEntry}
use missy_micro.Cpu.Vectors.{IsGate, holds}
use missy_micro.Cpu.Boot.{boot_vectors}
use missy_micro.Shell.{Setting, Shell, clear_line}
use missy_micro.Shell.Line.{Done}
use missy_micro.Shell.Start.{IsVerbatim, first_line}
use missy_micro.Shell.Examples.{quiet, help_line, typed, after, four_typed, help_typed, end_typed}
use missy_micro.Shell.Examples.{help_line-NoZero, screen}
use missy_micro.Kernel.{Kernel}
use missy_micro.Kernel.Boot.{IsBooted}
use missy_micro.Kernel.Examples.{setting, kernel, reads_keys}
use missy_micro.Kernel.Main.{kernel_main, greet}
use missy_micro.Kernel.Main.Printed.{
  vector_text, vector_text-lt, IsVectorFormat, vector_shown, vector_digits,
}
use missy_micro.Common.{leb, get_or, inr, ◌+◌, ◌-◌}
use missy_micro.Kernel.Main.Commands.{handed, ready, after_round, handler_at, kernel_main_first}

-- "> " at 2990, "help" at 3000, and the format of `cpu_setvector` at 0x3200.
abbrev texts : ℕ → ℕ
texts i =
    if leb 0x3200 i
    then get_or vector_text (i - 0x3200) 0
    else if i == 2990
    then 62
    else if i == 2991
    then 32
    else if i == 3000
    then 104
    else if i == 3001
    then 101
    else if i == 3002
    then 108
    else if i == 3003
    then 112
    else 0

texts-IsBytes : IsBytes texts
texts-IsBytes i = ground (arith, vector_text-lt (i - 0x3200))

texts-IsVectorFormat : IsVectorFormat texts 0x3200
texts-IsVectorFormat i lt =
    let here : (0x3200 + i) - 0x3200 ≡ i = omega arith in ground (arith, here)

prompt_text : IsVerbatim texts 2990 2
prompt_text = record {
  string = record { ends = refl; nonzero = λ i lt e. ground arith };
  no_item = λ i lt e. ground arith;
}

abbrev commands : Setting
commands = record {
  prompt = 2990;
  help_name = 3000;
  clear_name = 4000;
  ticks_name = 4000;
  ticks_format = 0;
  frame = record { beyond = texts; buffer = texts; num_str = 16000 };
  typist = quiet;
  pit_tick_count = 7;
}

abbrev gate_to : ℕ → IdtEntry
gate_to addr = record {
  offset_lo = addr % 2 ^ 16;
  code_selector = 0x08;
  zero_byte = 0;
  type_attrib = 0x8e;
  offset_hi = addr / 2 ^ 16;
}

gate_to-IsGate : (addr : ℕ) → IsGate (gate_to addr) addr
gate_to-IsGate addr = (omega arith, refl, refl, refl)

abbrev booted : Kernel
booted = record kernel {
  devices = record kernel.devices {
    char_devices = λ i. record {
      allocated = true;
      device_id = 0;
      device_name = 0x4000;
      chrdev_fns = reads_keys;
    };
    memory = texts;
  };
  machine = record kernel.machine {
    idt =
        λ v. gate_to (if holds boot_vectors v then setting.handler v else setting.default_handler);
  };
  kspace = one_page_heap;
}

booted-IsBooted : IsBooted setting booted
booted-IsBooted = record {
  heap = one_page_heap-IsHeap;
  at_start = refl;
  one_page = refl;
  gates = λ v lt. gate_to-IsGate _;
  tty = (refl, refl);
}

main_example :
    (k' : Kalloc) × (m : ℕ → ℕ) × (result : Option (ℕ × Shell)) × (kernel_main setting commands 33 1
        (handed booted 16 screen typed)
      ≡ after_round (ready setting commands (handed booted 16 screen typed)) result)
    × ((a : ℕ) → m a ≡ line_memory (clear_line k'.memory first_line) first_line help_line a)
    × Done commands 33 first_line 4
        (record {
          kalloc = record k' { memory = m };
          terminal =
              terminal_puts
                (print_all
                  (print_bytes (vector_digits texts 16000) 2990 2 (vector_shown (greet screen)))
                  help_line)
                [];
          input = after four_typed;
        })
        result
    × IsHeap k'.kspace
    × IsNextFree k' 0xd0000000 (1024 - 263)
    × ((v : ℕ)
        → v < 255
        → IsGate
            ((ready setting commands (handed booted 16 screen typed)).machine.idt v)
            (handler_at setting v))
main_example =
    kernel_main_first setting commands booted 16 2 screen typed four_typed (after four_typed) 104
      (101 ∷ 108 ∷ 112 ∷ []) 29 booted-IsBooted (omega arith) (omega arith) (omega arith)
      texts-IsBytes texts-IsVectorFormat (inr (omega arith)) prompt_text (inr (omega arith))
      (omega arith) (omega arith) (omega arith)
      (omega arith, omega arith, (omega arith, omega arith, (omega arith, omega arith, tt)))
      help_line-NoZero help_typed end_typed (omega arith)
