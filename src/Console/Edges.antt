-- ===== src/Console/Edges.antt =====
-- Where `kernel_tty_read` writes outside of its buffer.
use missy_micro.Common.{ℕ, suc, ◌+◌, ◌-◌, ◌^◌, ◌≡◌, ◌≤◌, ◌<◌, refl, ◌∙◌, arith, u32, sub32}
use missy_micro.Common.{some, ltb, true, List, [], ◌∷◌, length}
use missy_micro.Terminal.{Terminal, terminal_printchar, print_all}
use missy_micro.Console.{Typist, Input, Reading, wait_key, take_key, read_keys, end_line_read}
use missy_micro.Console.{kernel_tty_read}
use missy_micro.Console.Line.{Types, IsPlain, line_so_far, end_line_read-IsLine, first_key_lem}
use missy_micro.Console.Line.{first_keys_lem, wait_key_more, read_full_lem}

-- Where a first key of any kind and then plain keys are typed, as many as the buffer is long,
-- with at most f polls for each, and the buffer does not wrap round the end of memory,
-- `kernel_tty_read` ends without waiting for the end of the line, and sets the byte after the
-- buffer to 0.
pub kernel_tty_read_full :
    (ty : Typist) (m : ℕ → ℕ) (t : Terminal) (i j : Input) (buf len k : ℕ) (ks : List ℕ) (f : ℕ)
    → buf + len < 2 ^ 32
    → suc (length ks) ≡ len
    → IsPlain ks
    → Types ty f i (k ∷ ks) j
    → (result : ℕ × Reading) × (kernel_tty_read ty m t i buf len (length ks + suc f) ≡ some result)
      × (result.0 ≡ len)
      × (result.1.memory (buf + len) ≡ 0)
      × (result.1.input ≡ j)
unfolding kernel_tty_read print_all
kernel_tty_read_full ty m t i j buf len k ks f no_wrap full plain types =
    let (i', key, rest) = types in
    let line = line_so_far m t buf (k ∷ ks) j in
    let keys =
      first_keys_lem ty m t i i' j buf len k ks f (suc f) no_wrap (omega arith) plain rest
        (omega arith) in
    let (counted, memory, shown, input) =
      end_line_read-IsLine m t buf (k ∷ ks) j len no_wrap (omega arith) in
    (
      end_line_read buf line,
      rw
          (
            kernel_tty_read,
            wait_key_more ty i f (length ks + suc f) (k, i') key (omega arith),
            keys,
            read_full_lem ty buf len line f (omega arith),
          )
          refl,
      counted ∙ full,
      ground (arith, memory (buf + len)),
      input,
    )

-- A backspace takes one off the count.
read_backspace :
    (ty : Typist) (buf len : ℕ) (r : Reading) (i : Input) (f g : ℕ)
    → r.count < len
    → wait_key ty r.input f ≡ some (8, i)
    → f ≤ g
    → read_keys ty buf len r (suc g)
      ≡ read_keys ty buf len
          (record r {
            count = sub32 r.count 1;
            terminal = terminal_printchar r.terminal 8;
            input = i;
          })
          g
unfolding read_keys take_key
read_backspace ty buf len r i f g room key le =
    let more : ltb r.count len ≡ true = ground arith in
    rw (read_keys, more, wait_key_more ty r.input f g (8, i) key le) refl

-- Where one key and then two backspaces are typed, with at most f polls for each, and the
-- buffer is not at address 0, has two bytes or more and does not wrap round the end of memory,
-- `kernel_tty_read` ends without waiting for the end of the line, returns -1, and sets the byte
-- before the buffer to 0.
pub kernel_tty_read_before :
    (ty : Typist) (m : ℕ → ℕ) (t : Terminal) (i j : Input) (buf len k : ℕ) (f : ℕ)
    → buf + len < 2 ^ 32
    → 0 < buf
    → 1 < len
    → Types ty f i (k ∷ 8 ∷ 8 ∷ []) j
    → (result : ℕ × Reading) × (kernel_tty_read ty m t i buf len (f + 3) ≡ some result)
      × (result.0 ≡ 0xffffffff)
      × (result.1.memory (buf - 1) ≡ 0)
      × (result.1.input ≡ j)
unfolding kernel_tty_read end_line_read print_all
kernel_tty_read_before ty m t i j buf len k f no_wrap some_ptr two types =
    let (one, key, later) = types in
    let (two_in, first, last) = later in
    let (three, second, same) = last in
    let r0 = line_so_far m t buf (k ∷ []) one in
    let r1 : Reading = record r0 {
      count = 0;
      terminal = terminal_printchar r0.terminal 8;
      input = two_in;
    } in
    let r2 : Reading = record r1 {
      count = 0xffffffff;
      terminal = terminal_printchar r1.terminal 8;
      input = three;
    } in
    let fuel : f + 3 ≡ suc (suc (suc f)) = omega arith in
    let before : u32 (buf + 0xffffffff) ≡ buf - 1 = omega arith in
    let run : read_keys ty buf len r0 (suc (suc (suc f))) ≡ some r2 =
      read_backspace ty buf len r0 two_in f (suc (suc f)) (omega arith) first (omega arith)
      ∙ read_backspace ty buf len r1 three f (suc f) (omega arith) second (omega arith)
      ∙ read_full_lem ty buf len r2 f (omega arith) in
    let start = first_key_lem m t i one buf k (omega arith) in
    (
      end_line_read buf r2,
      rw
          (
            kernel_tty_read,
            fuel,
            wait_key_more ty i f (suc (suc (suc f))) (k, one) key (omega arith),
            start,
            fuel,
            run,
          )
          refl,
      refl,
      rw before (ground arith),
      same,
    )
