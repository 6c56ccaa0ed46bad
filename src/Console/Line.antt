-- ===== src/Console/Line.antt =====
-- `kernel_tty_read` reads a line of plain keys.
use missy_micro.Common.{ℕ, zero, suc, ◌+◌, ◌-◌, ◌^◌, ◌≡◌, ◌≤◌, ◌<◌, ◌≢◌, refl, ◌∙◌, sym, arith}
use missy_micro.Common.{u32, u8}
use missy_micro.Common.{some, ltb, leb, ◌==◌, if◌then◌else◌, ◌&&◌, update, ==_ne, true, false}
use missy_micro.Common.{Bool-cases, inl, inr, List, [], ◌∷◌, length, get_or}
use missy_micro.Keyboard.{no_key}
use missy_micro.Terminal.{Terminal, terminal_printchar, print_all}
use missy_micro.Console.{Typist, Input, Reading, poll, wait_key, store_key, take_key, read_keys}
use missy_micro.Console.{first_key, end_line_read, kernel_tty_read}

-- The keyboard gives these keys, and no others, each within `fuel` polls.
abbrev pub Types : Typist → ℕ → Input → List ℕ → Input → Type 0
Types ty fuel i [] j = i ≡ j
Types ty fuel i (k ∷ ks) j =
    (i' : Input) × (wait_key ty i fuel ≡ some (k, i')) × Types ty fuel i' ks j

-- Neither a backspace nor the end of a line.
abbrev pub IsPlain : List ℕ → Type 0
IsPlain [] = Unit
IsPlain (k ∷ ks) = (k ≢ 8) × (k ≢ 13) × IsPlain ks

pub wait_key_more :
    (ty : Typist) (i : Input) (f g : ℕ) (next : ℕ × Input)
    → wait_key ty i f ≡ some next
    → f ≤ g
    → wait_key ty i g ≡ some next
unfolding wait_key
wait_key_more ty i zero g next e le = cc
wait_key_more ty i (suc f) zero next e le = absurd (omega arith)
wait_key_more ty i (suc f) (suc g) next e le = elim (Bool-cases ((poll ty i).0 == no_key)) [
  | inl again ↦ rw again (wait_key_more ty (poll ty i).1 f g next (rw again at e) (omega arith))
  | inr key ↦ rw key (rw key at e)
]

-- Memory after keys are stored from `a` on.
abbrev pub stored : (ℕ → ℕ) → ℕ → List ℕ → ℕ → ℕ
stored m a [] = m
stored m a (k ∷ ks) = stored (update m a (u8 k)) (a + 1) ks

stored_lem :
    (m : ℕ → ℕ) (a : ℕ) (ks : List ℕ) (j : ℕ)
    → stored m a ks j ≡ (if leb a j && ltb j (a + length ks) then u8 (get_or ks (j - a) 0) else m j)
stored_lem m a [] j = ground arith
stored_lem m a (k ∷ ks) j =
    let rest = stored_lem (update m a (u8 k)) (a + 1) ks j in
    elim (Bool-cases (ltb a j)) [
      | inl after ↦
          let index : j - a ≡ suc (j - (a + 1)) = ground arith in rw index (ground (arith, rest))
      | inr before ↦ let index : j - a ≡ 0 = ground arith in rw index (ground (arith, rest))
    ]

-- Plain keys are stored and shown, while there is room.
read_key_lem :
    (ty : Typist) (buf len : ℕ) (r : Reading) (k : ℕ) (i : Input) (f g : ℕ)
    → buf + len < 2 ^ 32
    → r.count < len
    → k ≢ 8
    → k ≢ 13
    → wait_key ty r.input f ≡ some (k, i)
    → f ≤ g
    → read_keys ty buf len r (suc g)
      ≡ read_keys ty buf len
          (record {
            memory = update r.memory (buf + r.count) (u8 k);
            count = r.count + 1;
            terminal = terminal_printchar r.terminal k;
            input = i;
          })
          g
unfolding read_keys take_key store_key
read_key_lem ty buf len r k i f g no_wrap room not_back not_end key le =
    let more : ltb r.count len ≡ true = ground arith in
    let address : u32 (buf + r.count) ≡ buf + r.count = omega arith in
    let counted : u32 (r.count + 1) ≡ r.count + 1 = omega arith in
    rw
      (
        read_keys,
        more,
        wait_key_more ty r.input f g (k, i) key le,
        ==_ne k 13 not_end,
        ==_ne k 8 not_back,
        address,
        counted,
      )
      refl

-- The reading after the keys.
abbrev pub after_keys : ℕ → Reading → List ℕ → Input → Reading
after_keys buf r ks j = record {
  memory = stored r.memory (buf + r.count) ks;
  count = r.count + length ks;
  terminal = print_all r.terminal ks;
  input = j;
}

pub read_keys_lem :
    (ty : Typist) (buf len : ℕ) (r : Reading) (ks : List ℕ) (j : Input) (f g : ℕ)
    → buf + len < 2 ^ 32
    → r.count + length ks ≤ len
    → IsPlain ks
    → Types ty f r.input ks j
    → f ≤ g
    → read_keys ty buf len r (length ks + g) ≡ read_keys ty buf len (after_keys buf r ks j) g
unfolding print_all
read_keys_lem ty buf len r [] j f g no_wrap room plain types le =
    let fuel : 0 + g ≡ g = omega arith in
    let here : r.count + 0 ≡ r.count = omega arith in rw (fuel, here, sym types) refl
read_keys_lem ty buf len r (k ∷ ks) j f g no_wrap room plain types le =
    let (i, key, rest) = types in
    let (not_back, not_end, plain_rest) = plain in
    let fuel : suc (length ks) + g ≡ suc (length ks + g) = omega arith in
    let address : buf + (r.count + 1) ≡ buf + r.count + 1 = omega arith in
    let counted : r.count + 1 + length ks ≡ r.count + suc (length ks) = omega arith in
    let next : Reading = record {
      memory = update r.memory (buf + r.count) (u8 k);
      count = r.count + 1;
      terminal = terminal_printchar r.terminal k;
      input = i;
    } in
    let by_rest = read_keys_lem ty buf len next ks j f g no_wrap (omega arith) plain_rest rest le in
    rw fuel (
      read_key_lem ty buf len r k i f (length ks + g) no_wrap (omega arith) not_back not_end key
        (omega arith)
      ∙ rw (address, counted) at by_rest)

-- The line's end.
read_end_lem :
    (ty : Typist) (buf len : ℕ) (r : Reading) (i : Input) (f g : ℕ)
    → r.count < len
    → wait_key ty r.input f ≡ some (13, i)
    → f ≤ g
    → read_keys ty buf len r (suc g) ≡ some (record r { input = i })
unfolding read_keys
read_end_lem ty buf len r i f g room key le =
    let more : ltb r.count len ≡ true = ground arith in
    rw (read_keys, more, wait_key_more ty r.input f g (13, i) key le) refl

-- No room for a key.
pub read_full_lem :
    (ty : Typist) (buf len : ℕ) (r : Reading) (g : ℕ)
    → len ≤ r.count
    → read_keys ty buf len r (suc g) ≡ some r
unfolding read_keys
read_full_lem ty buf len r g full =
    let stop : ltb r.count len ≡ false = ground arith in rw stop refl

-- The memory after a line: the keys as bytes and a zero byte.
abbrev pub line_memory : (ℕ → ℕ) → ℕ → List ℕ → ℕ → ℕ
line_memory m buf ks j =
    if leb buf j && ltb j (buf + length ks)
    then u8 (get_or ks (j - buf) 0)
    else if j == buf + length ks
    then 0
    else m j

-- A reading that has taken keys into an empty buffer.
abbrev pub line_so_far : (ℕ → ℕ) → Terminal → ℕ → List ℕ → Input → Reading
line_so_far m t buf ks j = record {
  memory = stored m buf ks;
  count = length ks;
  terminal = print_all t ks;
  input = j;
}

abbrev pub IsLine : (ℕ → ℕ) → Terminal → ℕ → List ℕ → Input → ℕ × Reading → Type 0
IsLine m t buf ks j result =
    (result.0 ≡ length ks)
    × ((a : ℕ) → result.1.memory a ≡ line_memory m buf ks a)
    × (result.1.terminal ≡ print_all t ks)
    × (result.1.input ≡ j)

pub end_line_read-IsLine :
    (m : ℕ → ℕ) (t : Terminal) (buf : ℕ) (ks : List ℕ) (j : Input) (len : ℕ)
    → buf + len < 2 ^ 32
    → length ks ≤ len
    → IsLine m t buf ks j (end_line_read buf (line_so_far m t buf ks j))
unfolding end_line_read
end_line_read-IsLine m t buf ks j len no_wrap room =
    let address : u32 (buf + length ks) ≡ buf + length ks = omega arith in
    rw address (refl, λ a. ground (arith, stored_lem m buf ks a), refl, refl)

pub first_key_lem :
    (m : ℕ → ℕ) (t : Terminal) (i i' : Input) (buf k : ℕ)
    → buf < 2 ^ 32
    → first_key buf (line_so_far m t buf [] i) k i' ≡ line_so_far m t buf (k ∷ []) i'
unfolding first_key store_key print_all
first_key_lem m t i i' buf k no_wrap =
    let address : u32 (buf + 0) ≡ buf = omega arith in rw address refl

-- The first key and the plain keys after it.
pub first_keys_lem :
    (ty : Typist) (m : ℕ → ℕ) (t : Terminal) (i i' j : Input) (buf len k : ℕ) (ks : List ℕ)
    (f g : ℕ)
    → buf + len < 2 ^ 32
    → suc (length ks) ≤ len
    → IsPlain ks
    → Types ty f i' ks j
    → f ≤ g
    → read_keys ty buf len (first_key buf (line_so_far m t buf [] i) k i') (length ks + g)
      ≡ read_keys ty buf len (line_so_far m t buf (k ∷ ks) j) g
unfolding print_all
first_keys_lem ty m t i i' j buf len k ks f g no_wrap room plain types le =
    let counted : 1 + length ks ≡ suc (length ks) = omega arith in
    let by_rest =
      read_keys_lem ty buf len (line_so_far m t buf (k ∷ []) i') ks j f g no_wrap (omega arith)
        plain types le in
    rw (first_key_lem m t i i' buf k (omega arith)) (rw counted at by_rest)

-- Where a first key of any kind, then plain keys, and then the end of the line are typed, with
-- at most f polls for each, the buffer has room for a byte more than the keys and does not wrap
-- round the end of memory, and the fuel is large enough, `kernel_tty_read` ends and returns the
-- number of the keys: the buffer holds them as bytes, and a zero byte, no other memory changes,
-- and exactly the keys are shown.
pub kernel_tty_read_lem :
    (ty : Typist) (m : ℕ → ℕ) (t : Terminal) (i j j' : Input) (buf len k : ℕ) (ks : List ℕ) (f : ℕ)
    → buf + len < 2 ^ 32
    → suc (length ks) < len
    → IsPlain ks
    → Types ty f i (k ∷ ks) j
    → wait_key ty j f ≡ some (13, j')
    → (result : ℕ × Reading) × (kernel_tty_read ty m t i buf len (length ks + suc f) ≡ some result)
      × IsLine m t buf (k ∷ ks) j' result
unfolding kernel_tty_read print_all
kernel_tty_read_lem ty m t i j j' buf len k ks f no_wrap room plain types at_end =
    let (i', key, rest) = types in
    let keys =
      first_keys_lem ty m t i i' j buf len k ks f (suc f) no_wrap (omega arith) plain rest
        (omega arith) in
    let line = line_so_far m t buf (k ∷ ks) j in
    let ended = read_end_lem ty buf len line j' f f room at_end (omega arith) in
    (
      end_line_read buf (line_so_far m t buf (k ∷ ks) j'),
      rw
          (
            kernel_tty_read,
            wait_key_more ty i f (length ks + suc f) (k, i') key (omega arith),
            keys,
            ended,
          )
          refl,
      end_line_read-IsLine m t buf (k ∷ ks) j' len no_wrap (omega arith),
    )
