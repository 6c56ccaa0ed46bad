-- ===== src/Devices/Examples.antt =====
-- The results about the device table at concrete inputs.
use missy_micro.Common.{ℕ, ◌+◌, ◌*◌, ◌≡◌, ◌⊎◌, inr, refl, arith, true, false, some, ◌==◌}
use missy_micro.Common.{if◌then◌else◌}
use missy_micro.Libc.Strings.{IsString}
use missy_micro.Devices.{Devices, ChrdevOps, register_chrdev}
use missy_micro.Devices.{failure, emfile}
use missy_micro.Devices.Register.{AllTaken, IsFirstFree, IsRegistered, register_chrdev_lem}

abbrev driver : ChrdevOps
driver = record { read_chrdev = 0x1000; write_chrdev = 0; open_chrdev = 0; close_chrdev = 0 }

-- The first entry is taken, and the names lie 300 bytes apart.
abbrev table : Devices
table = record {
  char_devices = λ i. record {
    allocated = if i == 0 then true else false;
    device_id = 0;
    device_name = 1000 + 300 * i;
    chrdev_fns = driver;
  };
  memory = λ i. if i == 5 then 97 else 0;
  errno = 0;
}

one_letter : IsString table.memory 5 1
one_letter = record { ends = refl; nonzero = λ i lt e. ground arith }

register_example :
    (AllTaken table 0 10
      × (register_chrdev table 0 5 driver 9 ≡ some (failure, record table { errno = emfile })))
    ⊎ ((i : ℕ) × (d' : Devices) × IsFirstFree table 0 10 i
        × (register_chrdev table 0 5 driver 9 ≡ some (i, d'))
        × IsRegistered table d' i 5 1 driver)
register_example =
    register_chrdev_lem table 5 1 driver 9 one_letter (omega arith) (omega arith)
      (λ i. inr (omega arith))
