-- ===== src/Devices/Register.antt =====
-- `register_chrdev` for any free number, and the dispatch to what it registered.
use missy_micro.Common.{ℕ, zero, suc, ◌+◌, ◌-◌, ==_self, ◌≡◌, ◌≤◌, ◌<◌, ◌≢◌, refl, ◌∙◌, arith}
use missy_micro.Common.{◌⊎◌, inl, inr}
use missy_micro.Common.{true, false, Bool-cases, some, ltb, leb, ◌==◌, if◌then◌else◌}
use missy_micro.Libc.{strncpy}
use missy_micro.Libc.Strings.{IsString, strlen_lem, strncpy_lem, Apart}
use missy_micro.Devices.{Devices, ChrdevOps, Access, register_any, register_found}
use missy_micro.Devices.{register_chrdev}
use missy_micro.Devices.{allocate, copy_name, fail, failure, emfile, dispatch, chrdev_read}
use missy_micro.Devices.{chrdev_write}

-- The entries from `major` on, `left` of them: all are taken, or `i` is the first that is free.
abbrev pub AllTaken : Devices → ℕ → ℕ → Type 0
AllTaken d major left = (i : ℕ) → major ≤ i → i < major + left → (d.char_devices i).allocated ≡ true

pub record IsFirstFree (d : Devices) (major left i : ℕ) : Type 0 where
  pub from : major ≤ i
  pub below : i < major + left
  pub free : (d.char_devices i).allocated ≡ false
  pub taken : (j : ℕ) → major ≤ j → j < i → (d.char_devices j).allocated ≡ true

at_or_after :
    (d : Devices) (major i : ℕ)
    → (d.char_devices major).allocated ≡ true
    → major ≤ i
    → (major + 1 ≤ i → (d.char_devices i).allocated ≡ true)
    → (d.char_devices i).allocated ≡ true
at_or_after d major i taken from later = elim (Bool-cases (i == major)) [
  | inl e ↦ let here : i ≡ major = ground arith in rw here taken
  | inr ne ↦ later (ground arith)
]

AllTaken-cons :
    (d : Devices) (major left : ℕ)
    → (d.char_devices major).allocated ≡ true
    → AllTaken d (major + 1) left
    → AllTaken d major (suc left)
AllTaken-cons d major left taken all i from below =
    at_or_after d major i taken from (λ later. all i later (omega arith))

first_after :
    (d : Devices) (major left i : ℕ)
    → (d.char_devices major).allocated ≡ true
    → IsFirstFree d (major + 1) left i
    → IsFirstFree d major (suc left) i
first_after d major left i taken f = record {
  from = omega (arith, f.from);
  below = omega (arith, f.below);
  free = f.free;
  taken = λ j from below. at_or_after d major j taken from (λ later. f.taken j later below);
}

first_here :
    (d : Devices) (major left : ℕ)
    → (d.char_devices major).allocated ≡ false
    → IsFirstFree d major (suc left) major
first_here d major left free = record {
  from = omega arith;
  below = omega arith;
  free = free;
  taken = λ j from below. absurd (omega arith);
}

register_any_lem :
    (d : Devices) (major left name : ℕ) (device_ops : ChrdevOps) (fuel : ℕ)
    → (AllTaken d major left
        × (register_any d major left name device_ops fuel ≡ some (fail d emfile)))
      ⊎ ((i : ℕ) × IsFirstFree d major left i
          × (register_any d major left name device_ops fuel
              ≡ register_found d i name device_ops fuel))
unfolding register_any
register_any_lem d major zero name device_ops fuel =
    inl (λ i from below. absurd (omega arith), refl)
register_any_lem d major (suc left) name device_ops fuel =
    elim (Bool-cases (d.char_devices major).allocated) [
      | inl taken ↦ elim (register_any_lem d (major + 1) left name device_ops fuel) [
        | inl (all, e) ↦ inl (AllTaken-cons d major left taken all, rw taken e)
        | inr (i, f, e) ↦ inr (i, first_after d major left i taken f, rw taken e)
      ]
      | inr free ↦ inr (major, first_here d major left free, rw free refl)
    ]

-- What a driver's function makes of an access.
abbrev pub answer : ℕ → Access
answer fn = if fn == 0 then Access.fails 9 else Access.calls fn

-- The entry `i` has the name and the functions; no other entry and no memory outside of the name
-- has changed.
pub record IsRegistered (d d' : Devices) (i name k : ℕ) (device_ops : ChrdevOps) : Type 0 where
  pub reads : chrdev_read d' i ≡ some (answer device_ops.read_chrdev)
  pub writes : chrdev_write d' i ≡ some (answer device_ops.write_chrdev)
  pub others : (j : ℕ) → j ≢ i → d'.char_devices j ≡ d.char_devices j
  pub named :
      (j : ℕ)
      → j ≤ k
      → d'.memory ((d.char_devices i).device_name + j)
        ≡ (if ltb j k then d.memory (name + j) else 0)
  pub kept :
      (a : ℕ)
      → (a < (d.char_devices i).device_name) ⊎ ((d.char_devices i).device_name + 255 ≤ a)
      → d'.memory a ≡ d.memory a

registered : Devices → ℕ → ℕ → ChrdevOps → ℕ → Devices
registered d i name device_ops n = record (allocate d i device_ops) {
  memory = strncpy d.memory (d.char_devices i).device_name name n;
}

allocate-dispatch :
    (d : Devices) (i fn : ℕ) (device_ops : ChrdevOps) (n name : ℕ)
    → dispatch (registered d i name device_ops n) i fn ≡ answer fn
unfolding dispatch registered allocate
allocate-dispatch d i fn device_ops n name = ground arith

registered-IsRegistered :
    (d : Devices) (i name k : ℕ) (device_ops : ChrdevOps)
    → i < 10
    → IsString d.memory name k
    → k + 1 ≤ 255
    → Apart (d.char_devices i).device_name name k
    → IsRegistered d (registered d i name device_ops 255) i name k device_ops
unfolding chrdev_read chrdev_write registered allocate
registered-IsRegistered d i name k device_ops inside string short apart =
    let in_table : leb 10 i ≡ false = ground arith in
    let copied =
      λ (j : ℕ). strncpy_lem d.memory (d.char_devices i).device_name name k 255 j string apart in
    record {
      reads = rw (in_table, allocate-dispatch d i _ device_ops 255 name, ==_self i) refl;
      writes = rw (in_table, allocate-dispatch d i _ device_ops 255 name, ==_self i) refl;
      others = λ j ne. ground arith;
      named = λ j lt.
          let here : (d.char_devices i).device_name + j - (d.char_devices i).device_name ≡ j =
            omega arith in
          ground (arith, rw here at (copied ((d.char_devices i).device_name + j)));
      kept =
          λ a far. elim far [ inl q ↦ ground (arith, copied a) | inr q ↦ ground (arith, copied a) ];
    }

register_found_lem :
    (d : Devices) (i name k : ℕ) (device_ops : ChrdevOps) (fuel : ℕ)
    → IsString d.memory name k
    → k + 1 ≤ 255
    → k < fuel
    → register_found d i name device_ops fuel ≡ some (i, registered d i name device_ops 255)
unfolding register_found copy_name registered allocate
register_found_lem d i name k device_ops fuel string short enough =
    let fits : (if ltb 255 (k + 1) then k + 1 else 255) ≡ 255 = ground arith in
    rw (register_found, strlen_lem d.memory name k fuel string enough, fits, ==_self i) refl

-- The names of the entries do not begin inside the name that is given.
abbrev pub NamesApart : Devices → ℕ → ℕ → Type 0
NamesApart d name k = (i : ℕ) → Apart (d.char_devices i).device_name name k

-- With major number 0 and a name of at most 254 bytes that no name of an entry begins inside
-- of, `register_chrdev`, with fuel above the length of the name, ends: where all ten entries
-- are taken it fails with EMFILE and changes no entry and no memory, and where not, it takes
-- the first free one, reads and writes of that one go to the new driver, its name is the name
-- that was given, with the zero byte, and no other entry and no memory outside of the name
-- changes.
pub register_chrdev_lem :
    (d : Devices) (name k : ℕ) (device_ops : ChrdevOps) (fuel : ℕ)
    → IsString d.memory name k
    → k + 1 ≤ 255
    → k < fuel
    → NamesApart d name k
    → (AllTaken d 0 10
        × (register_chrdev d 0 name device_ops fuel ≡ some (failure, record d { errno = emfile })))
      ⊎ ((i : ℕ) × (d' : Devices) × IsFirstFree d 0 10 i
          × (register_chrdev d 0 name device_ops fuel ≡ some (i, d'))
          × IsRegistered d d' i name k device_ops)
unfolding register_chrdev fail
register_chrdev_lem d name k device_ops fuel string short enough apart =
    elim (register_any_lem d 0 10 name device_ops fuel) [
      | inl full ↦ inl full
      | inr (i, f, e) ↦ inr (
        i,
        registered d i name device_ops 255,
        f,
        e ∙ register_found_lem d i name k device_ops fuel string short enough,
        registered-IsRegistered d i name k device_ops (omega (arith, f.below)) string short
            (apart i),
      )
    ]
