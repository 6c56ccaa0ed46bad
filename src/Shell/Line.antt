-- ===== src/Shell/Line.antt =====
-- From the keys that are typed to the command that runs.
use missy_micro.Common.{ℕ, suc, ◌+◌, ◌-◌, ◌^◌, ◌≡◌, ◌<◌, ◌≢◌, arith, inl, inr, u8}
use missy_micro.Common.{Option, none, some, Option-cases, List, [], ◌∷◌, length, get_or}
use missy_micro.Libc.Strings.{IsString}
use missy_micro.Libc.Compare.{IsBytes}
use missy_micro.Terminal.{Terminal, terminal_puts, print_all}
use missy_micro.Console.{Input, wait_key}
use missy_micro.Console.Line.{Types, IsPlain, line_memory, kernel_tty_read_lem}
use missy_micro.Kalloc.{Kalloc}
use missy_micro.Shell.{Command, Setting, Shell, builtins, run_command, no_command, with_output}
use missy_micro.Shell.{do_command, read_command, clear_line}
use missy_micro.Shell.Dispatch.{NamesNone, Chosen, find_builtin_lem}

-- The byte of no key is 0.
abbrev pub NoZero : List ℕ → Type 0
NoZero ks = (i : ℕ) → i < length ks → u8 (get_or ks i 0) ≢ 0

line-IsString :
    (m m' : ℕ → ℕ) (buf : ℕ) (ks : List ℕ)
    → NoZero ks
    → ((a : ℕ) → m' a ≡ line_memory m buf ks a)
    → IsString m' buf (length ks)
line-IsString m m' buf ks no_zero same = record {
  ends = ground (arith, same (buf + length ks));
  nonzero = λ i lt e.
      let here : buf + i - buf ≡ i = omega arith in
      ground (arith, no_zero i lt, rw here at (same (buf + i)));
}

line-IsBytes :
    (m m' : ℕ → ℕ) (buf : ℕ) (ks : List ℕ)
    → IsBytes m
    → ((a : ℕ) → m' a ≡ line_memory m buf ks a)
    → IsBytes m'
line-IsBytes m m' buf ks bytes same a = ground (arith, bytes a, same a)

clear_line-IsBytes : (m : ℕ → ℕ) (cmdstr : ℕ) → IsBytes m → IsBytes (clear_line m cmdstr)
clear_line-IsBytes m cmdstr bytes a = ground (arith, bytes a)

-- What becomes of a line: no command fits and the message is shown, or the first that the line names
-- runs.
pub data Done (e : Setting) (fuel cmdstr k : ℕ) (s : Shell) : Option (ℕ × Shell) → Type 0 where
  unknown :
      NamesNone s.kalloc.memory cmdstr k (builtins e)
      → Done e fuel cmdstr k s
          (some (0xffffffff, record s { terminal = terminal_puts s.terminal no_command }))
  ran :
      (c : Command) (out : (ℕ → ℕ) × Terminal)
      → Chosen s.kalloc.memory cmdstr k (builtins e) c
      → run_command e fuel c s.kalloc.memory s.terminal ≡ some out
      → Done e fuel cmdstr k s (some (0, with_output s out))
  unprinted :
      (c : Command)
      → Chosen s.kalloc.memory cmdstr k (builtins e) c
      → run_command e fuel c s.kalloc.memory s.terminal ≡ none
      → Done e fuel cmdstr k s none

do_command_lem :
    (e : Setting) (fuel cmdstr k : ℕ) (s : Shell)
    → IsBytes s.kalloc.memory
    → IsString s.kalloc.memory cmdstr k
    → k < fuel
    → Done e fuel cmdstr k s (do_command e fuel cmdstr s)
unfolding do_command
do_command_lem e fuel cmdstr k s bytes string lt =
    elim (find_builtin_lem s.kalloc.memory cmdstr k fuel (builtins e) bytes string lt) [
      | inl (missing, found) ↦ rw (do_command, found) (Done.unknown missing)
      | inr (c, chosen, found) ↦
          elim (Option-cases (run_command e fuel c s.kalloc.memory s.terminal)) [
            | inl stuck ↦ rw (do_command, found, stuck) (Done.unprinted c chosen stuck)
            | inr (out, run) ↦ rw (do_command, found, run) (Done.ran c out chosen run)
          ]
    ]

-- In a memory of bytes, with a buffer of 255 bytes that does not wrap round the end of memory,
-- where a first key, then plain keys, fewer than 255 in all and none of them with a byte of 0,
-- and then the end of the line are typed, with at most f polls for each, f above 0, and with
-- enough fuel, the line that `read_command` reads has exactly the bytes of the keys, and they
-- are shown; the first command whose name is the whole line runs, to its end if its printing
-- ends, and where the line is no name the message is shown and the result is -1.
pub read_command_lem :
    (e : Setting) (cmdstr : ℕ) (kalloc : Kalloc) (t : Terminal) (i j j' : Input) (k : ℕ)
    (ks : List ℕ) (f : ℕ)
    → IsBytes kalloc.memory
    → cmdstr + 255 < 2 ^ 32
    → suc (length ks) < 255
    → IsPlain ks
    → NoZero (k ∷ ks)
    → Types e.typist f i (k ∷ ks) j
    → wait_key e.typist j f ≡ some (13, j')
    → 0 < f
    → (m : ℕ → ℕ) × ((a : ℕ)
        → m a ≡ line_memory (clear_line kalloc.memory cmdstr) cmdstr (k ∷ ks) a)
      × Done e
          (length ks + suc f)
          cmdstr
          (suc (length ks))
          (record {
            kalloc = record kalloc { memory = m };
            terminal = terminal_puts (print_all t (k ∷ ks)) [];
            input = j';
          })
          (read_command e (length ks + suc f) cmdstr kalloc t i)
unfolding read_command
read_command_lem e cmdstr kalloc t i j j' k ks f bytes no_wrap short plain no_zero types at_end
      pos =
    let cleared = clear_line kalloc.memory cmdstr in
    let (result, run, line) =
      kernel_tty_read_lem e.typist cleared t i j j' cmdstr 255 k ks f no_wrap short plain types
        at_end in
    let (counted, memory, shown, input) = line in
    let state : Shell = record {
      kalloc = record kalloc { memory = result.1.memory };
      terminal = terminal_puts (print_all t (k ∷ ks)) [];
      input = j';
    } in
    let done =
      do_command_lem e (length ks + suc f) cmdstr (suc (length ks)) state
        (line-IsBytes cleared result.1.memory cmdstr (k ∷ ks)
          (clear_line-IsBytes kalloc.memory cmdstr bytes) memory)
        (line-IsString cleared result.1.memory cmdstr (k ∷ ks) no_zero memory) (omega arith) in
    (result.1.memory, memory, rw (read_command, run, shown, input) done)
