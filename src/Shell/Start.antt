-- ===== src/Shell/Start.antt =====
-- The first line of the command line, from the prompt on, when nothing was allocated before it.
use missy_micro.Common.{ℕ, zero, suc, ◌+◌, ◌-◌, ◌≡◌, ◌≤◌, ◌<◌, ◌≢◌, refl, arith}
use missy_micro.Common.{some, List, [], ◌∷◌, length, ==_ne}
use missy_micro.Libc.{char_value}
use missy_micro.Libc.Strings.{IsString, IsString-rest, IsString-empty, IsString-first}
use missy_micro.Libc.Compare.{IsBytes}
use missy_micro.Terminal.{Terminal, terminal_puts, print_all, terminal_printchar}
use missy_micro.Output.{Frame, print_bytes, terminal_printf}
use missy_micro.Console.{Input, wait_key}
use missy_micro.Console.Line.{Types, IsPlain, line_memory}
use missy_micro.Heap.Grow.{IsHeap}
use missy_micro.Kalloc.{Kalloc, kernel_alloc}
use missy_micro.Kalloc.Split.{IsNextFree}
use missy_micro.Kalloc.First.{kernel_alloc_first}
use missy_micro.Shell.{Setting, Shell, kernel_command_line, read_command, clear_line}
use missy_micro.Shell.Line.{NoZero, Done, read_command_lem}

-- A string without a `%`.
pub record IsVerbatim (m : ℕ → ℕ) (str k : ℕ) : Type 0 where
  pub string : IsString m str k
  pub no_item : (i : ℕ) → i < k → m (str + i) ≢ 37

IsVerbatim-rest : (m : ℕ → ℕ) (str k : ℕ) → IsVerbatim m str (suc k) → IsVerbatim m (str + 1) k
IsVerbatim-rest m str k v = record {
  string = IsString-rest m str k v.string;
  no_item = λ i lt.
      let here : str + 1 + i ≡ str + suc i = omega arith in
      rw here (v.no_item (suc i) (omega arith));
}

IsVerbatim-first : (m : ℕ → ℕ) (str k : ℕ) → IsVerbatim m str (suc k) → m str ≢ 37
IsVerbatim-first m str k v =
    let here : str + 0 ≡ str = omega arith in rw here at (v.no_item 0 (omega arith))

pub print_verbatim :
    (f : Frame) (fuel str k : ℕ) (args m : ℕ → ℕ) (t : Terminal)
    → IsVerbatim m str k
    → k < fuel
    → terminal_printf f fuel str args m t ≡ some (m, print_bytes m str k t)
unfolding terminal_printf print_bytes
print_verbatim f zero str k args m t v lt = elim lt [ ]
print_verbatim f (suc fuel) str zero args m t v lt = rw (IsString-empty m str v.string) refl
print_verbatim f (suc fuel) str (suc k) args m t v lt =
    rw
      (
        ==_ne (m str) 0 (IsString-first m str k v.string),
        ==_ne (m str) 37 (IsVerbatim-first m str k v),
      )
      (print_verbatim f fuel (str + 1) k args m (terminal_printchar t (char_value (m str)))
        (IsVerbatim-rest m str k v) (omega arith))

-- The buffer of the line: the last 255 of the first 1024 bytes.
abbrev pub first_line : ℕ
first_line = 0xd0000301

-- The first call of the allocator, with any fuel of at least four.
first_buffer :
    (k : Kalloc) (fuel : ℕ)
    → 4 ≤ fuel
    → IsHeap k.kspace
    → k.kspace.kernel_break ≡ 0xd0000000
    → k.kspace.kheap_last_page ≡ 0xd0000000
    → k.free_hdr ≡ 0
    → 0 < k.base
    → k.base + 8 ≤ 0xd0000000
    → IsBytes k.memory
    → (k' : Kalloc) × (kernel_alloc k 255 fuel ≡ some (first_line, k'))
      × IsNextFree k' 0xd0000000 (1024 - 263)
      × IsBytes k'.memory
      × IsHeap k'.kspace
first_buffer k fuel enough heap at_start one_page fresh based low bytes =
    let (p, k', run, ends, header, free, still, heap', moved) =
      kernel_alloc_first k 255 (fuel - 4) heap at_start one_page fresh based low (omega arith)
        bytes in
    let all : suc (suc (suc (suc (fuel - 4)))) ≡ fuel = omega arith in
    let place : p ≡ first_line = omega arith in (k', rw (all, place) at run, free, still, heap')

kernel_command_line_start :
    (e : Setting) (fuel letters : ℕ) (s : Shell) (k' : Kalloc)
    → IsVerbatim s.kalloc.memory e.prompt letters
    → letters < fuel
    → kernel_alloc s.kalloc 255 fuel ≡ some (first_line, k')
    → kernel_command_line e fuel s
      ≡ read_command e fuel first_line k'
          (print_bytes s.kalloc.memory e.prompt letters s.terminal)
          s.input
unfolding kernel_command_line
kernel_command_line_start e fuel letters s k' prompt lt run =
    rw
      (
        kernel_command_line,
        print_verbatim e.frame fuel e.prompt letters (λ i. 0) s.kalloc.memory s.terminal prompt lt,
        run,
      )
      refl

pub kernel_command_line_first :
    (e : Setting) (s : Shell) (letters : ℕ) (j j' : Input) (k : ℕ) (ks : List ℕ) (f : ℕ)
    → IsHeap s.kalloc.kspace
    → s.kalloc.kspace.kernel_break ≡ 0xd0000000
    → s.kalloc.kspace.kheap_last_page ≡ 0xd0000000
    → s.kalloc.free_hdr ≡ 0
    → 0 < s.kalloc.base
    → s.kalloc.base + 8 ≤ 0xd0000000
    → IsBytes s.kalloc.memory
    → IsVerbatim s.kalloc.memory e.prompt letters
    → letters < length ks + suc f
    → 4 ≤ length ks + suc f
    → suc (length ks) < 255
    → IsPlain ks
    → NoZero (k ∷ ks)
    → Types e.typist f s.input (k ∷ ks) j
    → wait_key e.typist j f ≡ some (13, j')
    → 0 < f
    → (k' : Kalloc) × (m : ℕ → ℕ) × IsHeap k'.kspace
      × IsNextFree k' 0xd0000000 (1024 - 263)
      × ((a : ℕ) → m a ≡ line_memory (clear_line k'.memory first_line) first_line (k ∷ ks) a)
      × Done e
          (length ks + suc f)
          first_line
          (suc (length ks))
          (record {
            kalloc = record k' { memory = m };
            terminal =
                terminal_puts
                  (print_all (print_bytes s.kalloc.memory e.prompt letters s.terminal) (k ∷ ks))
                  [];
            input = j';
          })
          (kernel_command_line e (length ks + suc f) s)
kernel_command_line_first e s letters j j' k ks f heap at_start one_page fresh based low bytes
      prompt prompted enough short plain no_zero types at_end pos =
    let (k', run, free, still, heap') =
      first_buffer s.kalloc (length ks + suc f) enough heap at_start one_page fresh based low
        bytes in
    let (m, line, done) =
      read_command_lem e first_line k' (print_bytes s.kalloc.memory e.prompt letters s.terminal)
        s.input j j' k ks f still (omega arith) short plain no_zero types at_end pos in
    (
      k',
      m,
      heap',
      free,
      line,
      rw (kernel_command_line_start e (length ks + suc f) letters s k' prompt prompted run) done,
    )
