-- ===== src/Keyboard/Queue.antt =====
-- The queue of ps2_keyb.c as a list of keys, first in, first out.
use missy_micro.Common.{ℕ, zero, suc, ◌+◌, ◌-◌, ◌≤◌, ◌<◌, ◌≡◌, refl, ap, ap₂, ◌∙◌, arith, bit_and}
use missy_micro.Common.{Bool, true, not, ◌&&◌, ltb, leb, ◌==◌, if◌then◌else◌, update}
use missy_micro.Common.{List, [], ◌∷◌, ◌++◌, length, Bool-cases, inl, inr}
use missy_micro.Keyboard.{Keyboard, keymap_at, is_shift, push_key, ps2_keyboard_enqueue}
use missy_micro.Keyboard.{copy_forward, ps2_keyboard_dequeue, ps2_keyb_getbyte, no_key}
use missy_micro.Keyboard.Keymap.{KeymapEntry}

-- The first `n` keys of the queue.
abbrev pub contents : (ℕ → ℕ) → ℕ → List ℕ
contents q zero = []
contents q (suc n) = q 0 ∷ contents (λ i. q (i + 1)) n

contents-ext : (q r : ℕ → ℕ) (n : ℕ) → ((i : ℕ) → i < n → r i ≡ q i) → contents r n ≡ contents q n
contents-ext q r zero h = refl
contents-ext q r (suc n) h =
    ap₂ (λ (x : ℕ) (xs : List ℕ). x ∷ xs) (h 0 (omega arith))
      (contents-ext (λ i. q (i + 1)) (λ i. r (i + 1)) n (λ i p. h (i + 1) (omega arith)))

contents-push_suc :
    (q : ℕ → ℕ) (n x : ℕ) → contents (update q n x) (suc n) ≡ contents q n ++ (x ∷ [])
contents-push_suc q zero x = refl
contents-push_suc q (suc n) x =
    ap₂ (λ (y : ℕ) (xs : List ℕ). y ∷ xs) (ground arith)
      (contents-ext (update (λ i. q (i + 1)) n x) (λ i. update q (suc n) x (i + 1)) (suc n)
          (λ i p. ground arith)
        ∙ contents-push_suc (λ i. q (i + 1)) n x)

contents-push : (q : ℕ → ℕ) (n x : ℕ) → contents (update q n x) (n + 1) ≡ contents q n ++ (x ∷ [])
contents-push q n x = let next : n + 1 ≡ suc n = omega arith in rw next (contents-push_suc q n x)

length-contents : (q : ℕ → ℕ) (n : ℕ) → length (contents q n) ≡ n
length-contents q zero = refl
length-contents q (suc n) = ap suc (length-contents (λ i. q (i + 1)) n)

copy_forward_lem :
    (q : ℕ → ℕ) (i left j : ℕ)
    → copy_forward q i left j ≡ (if leb i j && ltb j (i + left) then q (j + 1) else q j)
unfolding copy_forward
copy_forward_lem q i zero j = ground arith
copy_forward_lem q i (suc left) j =
    ground (arith, copy_forward_lem (update q i (q (i + 1))) (i + 1) left j)

-- What the driver is for: a bounded queue of keys, and whether a shift key is down.
pub record Keys : Type 0 where
  pub queue : List ℕ
  pub shift : Bool

-- A scancode: a shift key goes down or up; any other key is queued when it is released, if fewer
-- than 256 keys wait.
abbrev pub key_event : (ℕ → KeymapEntry) → Keys → ℕ → Keys
key_event beyond s scancode =
    let e = keymap_at beyond (bit_and scancode 0xffffff7f) in
    let released = not (bit_and scancode 0x80 == 0) in
    if is_shift e
    then record s { shift = not released }
    else if released && ltb (length s.queue) 256
    then record s { queue = s.queue ++ ((if s.shift then e.uppercase else e.lowercase) ∷ []) }
    else s

-- Reading takes the oldest key.
abbrev pub read_key : Keys → ℕ × Keys
read_key s = elim s.queue [ [] ↦ (no_key, s) | x ∷ xs ↦ (x, record s { queue = xs }) ]

abbrev pub keys_of : Keyboard → Keys
keys_of k = record { queue = contents k.key_queue k.queue_tail; shift = k.shift }

-- What pushing a key does to the list.
push_key-contents :
    (k : Keyboard) (e : KeymapEntry)
    → keys_of (push_key k e) ≡ (
        if ltb (length (contents k.key_queue k.queue_tail)) 256
        then record {
          queue =
              contents k.key_queue k.queue_tail
              ++ ((if k.shift then e.uppercase else e.lowercase) ∷ []);
          shift = k.shift;
        }
        else keys_of k)
unfolding push_key
push_key-contents k e =
    rw (length-contents k.key_queue k.queue_tail) (elim (Bool-cases (ltb k.queue_tail 256)) [
      | inl room ↦ rw (room, contents-push k.key_queue k.queue_tail) refl
      | inr full ↦ rw full refl
    ])

-- `ps2_keyboard_enqueue` does to the queue what a scancode is for.
pub enqueue-key_event :
    (beyond : ℕ → KeymapEntry) (k : Keyboard) (scancode : ℕ)
    → keys_of (ps2_keyboard_enqueue beyond k scancode) ≡ key_event beyond (keys_of k) scancode
unfolding ps2_keyboard_enqueue
enqueue-key_event beyond k scancode =
    let e = keymap_at beyond (bit_and scancode 0xffffff7f) in
    elim (Bool-cases (is_shift e)) [
      | inl shifts ↦ rw shifts refl
      | inr other ↦ elim (Bool-cases (bit_and scancode 0x80 == 0)) [
        | inl make ↦ rw (other, make) refl
        | inr break ↦ rw (other, break) (push_key-contents k e)
      ]
    ]

abbrev keys : List ℕ → Bool → Keys
keys xs s = record { queue = xs; shift = s }

getbyte_at :
    (q : ℕ → ℕ) (n : ℕ) (s : Bool)
    → let k : Keyboard = record { key_queue = q; queue_tail = n; shift = s } in
      let (x, l) = ps2_keyb_getbyte k in (x, keys_of l) ≡ read_key (keys_of k)
unfolding ps2_keyb_getbyte ps2_keyboard_dequeue
getbyte_at q zero s = refl
getbyte_at q (suc n) s =
    let some_key : ltb 0 (suc n) ≡ true = ground arith in
    let one_less : suc n - 1 ≡ n = omega arith in
    rw (some_key, one_less)
      (ap (λ (xs : List ℕ). (q 0, keys xs s))
        (contents-ext (λ i. q (i + 1)) (copy_forward q 0 (suc n)) n
          (λ i p. ground (arith, copy_forward_lem q 0 (suc n) i))))

pub getbyte-read_key :
    (k : Keyboard) → let (x, l) = ps2_keyb_getbyte k in (x, keys_of l) ≡ read_key (keys_of k)
getbyte-read_key k = getbyte_at k.key_queue k.queue_tail k.shift

-- What happens to the keyboard: a scancode arrives, or the terminal reads.
pub data Event : Type 0 where
  scancode : ℕ → Event
  read : Event

-- The keys that a sequence of events makes the terminal read, in the driver and in the list.
abbrev pub driver_reads : (ℕ → KeymapEntry) → Keyboard → List Event → List ℕ
driver_reads beyond k [] = []
driver_reads beyond k (scancode c ∷ es) = driver_reads beyond (ps2_keyboard_enqueue beyond k c) es
driver_reads beyond k (read ∷ es) =
    (ps2_keyb_getbyte k).0 ∷ driver_reads beyond (ps2_keyb_getbyte k).1 es

abbrev pub queue_reads : (ℕ → KeymapEntry) → Keys → List Event → List ℕ
queue_reads beyond s [] = []
queue_reads beyond s (scancode c ∷ es) = queue_reads beyond (key_event beyond s c) es
queue_reads beyond s (read ∷ es) = (read_key s).0 ∷ queue_reads beyond (read_key s).1 es

-- For every sequence of scancodes and reads, from any state and whatever follows the scancode
-- table in memory, the driver delivers the keys that a first-in-first-out queue of at most 256
-- keys delivers.
pub driver_reads-queue_reads :
    (beyond : ℕ → KeymapEntry) (k : Keyboard) (es : List Event)
    → driver_reads beyond k es ≡ queue_reads beyond (keys_of k) es
driver_reads-queue_reads beyond k [] = refl
driver_reads-queue_reads beyond k (scancode c ∷ es) =
    driver_reads-queue_reads beyond (ps2_keyboard_enqueue beyond k c) es
    ∙ ap (λ (s : Keys). queue_reads beyond s es) (enqueue-key_event beyond k c)
driver_reads-queue_reads beyond k (read ∷ es) =
    let same = getbyte-read_key k in
    ap₂ (λ (x : ℕ) (xs : List ℕ). x ∷ xs) (ap (λ (r : ℕ × Keys). r.0) same)
      (driver_reads-queue_reads beyond (ps2_keyb_getbyte k).1 es
        ∙ ap (λ (r : ℕ × Keys). queue_reads beyond r.1 es) same)

-- While the tail of the queue is at most 256, it is at most 256 after any scancode and after
-- any read.
pub enqueue-tail :
    (beyond : ℕ → KeymapEntry) (k : Keyboard) (c : ℕ)
    → k.queue_tail ≤ 256
    → (ps2_keyboard_enqueue beyond k c).queue_tail ≤ 256 × (ps2_keyb_getbyte k).1.queue_tail ≤ 256
unfolding ps2_keyboard_enqueue push_key ps2_keyb_getbyte ps2_keyboard_dequeue
enqueue-tail beyond k c h = (ground arith, ground arith)
