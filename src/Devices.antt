-- ===== src/Devices.antt =====
-- kernel/kernel/device/device.c: the table of character devices. The names of the devices are arrays
-- of the memory; the result `none` is an access outside of `char_devices`, or of a name, where
-- the source writes over the entries that follow, or that a name's end is not found with the fuel. The function pointers are words, and 0 is NULL.
pub mod Register
mod Examples
use missy_micro.Common.{
  ℕ, zero, suc, ◌+◌, ◌%◌, ◌^◌, Bool, true, false, ◌||◌, ◌&&◌, not, Option, none, some,
}
use missy_micro.Common.{ltb, leb, ◌==◌, if◌then◌else◌, update, List, [], ◌∷◌}
use missy_micro.Libc.{strlen, strncpy}

abbrev pub device_max : ℕ
device_max = 10

abbrev pub device_maxpath : ℕ
device_maxpath = 255

abbrev pub erange : ℕ
erange = 3

abbrev pub emfile : ℕ
emfile = 7

abbrev pub enodev : ℕ
enodev = 8

abbrev pub enosys : ℕ
enosys = 9

pub record ChrdevOps : Type 0 where
  pub read_chrdev : ℕ
  pub write_chrdev : ℕ
  pub open_chrdev : ℕ
  pub close_chrdev : ℕ

-- The address of `device_name` stands for the array.
pub record Chrdev : Type 0 where
  pub allocated : Bool
  pub device_id : ℕ
  pub device_name : ℕ
  pub chrdev_fns : ChrdevOps

-- `char_devices`, the memory that the names lie in, and `errno`.
pub record Devices : Type 0 where
  pub char_devices : ℕ → Chrdev
  pub memory : ℕ → ℕ
  pub errno : ℕ

-- The `-1` of the functions.
abbrev pub failure : ℕ
failure = 0xffffffff

unfoldable pub fail : Devices → ℕ → ℕ × Devices
fail d errno = (failure, record d { errno = errno })

-- The entry is allocated and its functions are set.
unfoldable pub allocate : Devices → ℕ → ChrdevOps → Devices
allocate d major device_ops = record d {
  char_devices =
      update d.char_devices major
        (record (d.char_devices major) { allocated = true; chrdev_fns = device_ops });
}

-- `strncpy` of `n` bytes into the entry's name.
unfoldable pub copy_name : Devices → ℕ → ℕ → ℕ → Option (ℕ × Devices)
copy_name d major name n =
    if ltb device_maxpath n
    then none
    else some
        (major, record d { memory = strncpy d.memory (d.char_devices major).device_name name n })

-- The body of the `if` in the loop.
unfoldable pub register_found : Devices → ℕ → ℕ → ChrdevOps → ℕ → Option (ℕ × Devices)
register_found d major name device_ops fuel = elim (strlen d.memory name fuel) [
  | none ↦ none
  | some n ↦
      copy_name (allocate d major device_ops) major name
        (if ltb device_maxpath n then n else device_maxpath)
]

-- The loop over the entries, with `left` of them to go.
unfoldable pub register_any : Devices → ℕ → ℕ → ℕ → ChrdevOps → ℕ → Option (ℕ × Devices)
register_any d major zero name device_ops fuel = some (fail d emfile)
register_any d major (suc left) name device_ops fuel =
    let rest = register_any d (major + 1) left name device_ops fuel in
    if (d.char_devices major).allocated then rest else register_found d major name device_ops fuel

-- The branch of a given number.
unfoldable pub register_given : Devices → ℕ → ℕ → ChrdevOps → ℕ → Option (ℕ × Devices)
register_given d major name device_ops fuel = elim (strlen d.memory name fuel) [
  | none ↦ none
  | some n ↦
      copy_name (allocate d major device_ops) major name (if ltb n device_maxpath then n else 9)
]

unfoldable pub register_chrdev : Devices → ℕ → ℕ → ChrdevOps → ℕ → Option (ℕ × Devices)
register_chrdev d major name device_ops fuel =
    if major == 0
    then register_any d 0 device_max name device_ops fuel
    else if leb 0x80000000 major
    then some (fail d erange)
    else if leb device_max major
    then none
    else if (d.char_devices major).allocated
    then some (fail d erange)
    else register_given d major name device_ops fuel

-- A read or a write is passed to a function, which is given the buffer and the length, or it
-- fails.
pub data Access : Type 0 where
  calls : ℕ → Access
  fails : ℕ → Access

-- The three branches of `chrdev_read` and `chrdev_write`; `fn` is the driver's function.
unfoldable pub dispatch : Devices → ℕ → ℕ → Access
dispatch d major fn =
    if (d.char_devices major).allocated && not (fn == 0)
    then Access.calls fn
    else if (d.char_devices major).allocated
    then Access.fails enosys
    else Access.fails enodev

unfoldable pub chrdev_read : Devices → ℕ → Option Access
chrdev_read d major =
    if leb device_max major
    then none
    else some (dispatch d major (d.char_devices major).chrdev_fns.read_chrdev)

unfoldable pub chrdev_write : Devices → ℕ → Option Access
chrdev_write d major =
    if leb device_max major
    then none
    else some (dispatch d major (d.char_devices major).chrdev_fns.write_chrdev)
