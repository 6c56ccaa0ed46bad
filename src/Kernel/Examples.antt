-- ===== src/Kernel/Examples.antt =====
-- `kernel_early_init` with 16 MiB, a kernel of 64 KiB at its place, the tables of the boot code, and
-- a loader that reports one reserved region at 0x140000, where the bitmap lies.
use missy_micro.Common.{ℕ, ◌+◌, ◌*◌, ◌≡◌, refl}
use missy_micro.Common.{true, false, ◌==◌, if◌then◌else◌, [], u32}
use missy_micro.Libc.{strncpy, pad_zero}
use missy_micro.Devices.{ChrdevOps, allocate}
use missy_micro.Paging.Spaces.Examples.{boot_memory}
use missy_micro.Multiboot.{Multiboot}
use missy_micro.Common.{Bool, ◌+◌}
use missy_micro.Kernel.{BootSetting, Kernel}
use missy_micro.Kernel.Boot.{tty_memory, loaded}
use missy_micro.Kernel.Space.{reserved_blocks}

-- The two tags of the loader at 0x1040, "tty" at 0x3000, and "RSD PTR " at 0x3100.
abbrev left_by_loader : ℕ → ℕ
left_by_loader i =
    if i == 0x1040
    then 4
    else if i == 0x1044
    then 16
    else if i == 0x1049
    then 64
    else if i == 0x1050
    then 6
    else if i == 0x1054
    then 40
    else if i == 0x1058
    then 24
    else if i == 0x1062
    then 20
    else if i == 0x1069
    then 48
    else if i == 0x1070
    then 2
    else if i == 0x3000
    then 116
    else if i == 0x3001
    then 116
    else if i == 0x3002
    then 121
    else if i == 0x3100
    then 82
    else if i == 0x3101
    then 83
    else if i == 0x3102
    then 68
    else if i == 0x3103
    then 32
    else if i == 0x3104
    then 80
    else if i == 0x3105
    then 84
    else if i == 0x3106
    then 82
    else if i == 0x3107
    then 32
    else 0

abbrev pub reads_keys : ChrdevOps
reads_keys = record {
  read_chrdev = 0xc0001000;
  write_chrdev = 0xc0002000;
  open_chrdev = 0;
  close_chrdev = 0;
}

abbrev pub setting : BootSetting
setting = record {
  kernel_start = 0xc0000000;
  kernel_end = 0xc0010000;
  ram = λ i. 7;
  hardware = λ sent port. 0xff;
  default_handler = 0xc0003000;
  handler = λ v. 0xc0004000;
  screen = record { cur_x = 0; cur_y = 0; color_attrib = 0; video_memory = λ i. 0; sent = [] };
  tty0 = 0x3000;
  tty_ops = reads_keys;
  empty = 0x3300;
  list_base = 0xc0009000;
  list_name = 0x6000;
  rsdp_signature = 0x3100;
  vector_format = 0x3200;
}

abbrev pub kernel : Kernel
kernel = record {
  devices = record {
    char_devices = λ i. record {
      allocated = false;
      device_id = 0;
      device_name = 0x4000 + 300 * i;
      chrdev_fns = record { read_chrdev = 0; write_chrdev = 0; open_chrdev = 0; close_chrdev = 0 };
    };
    memory = left_by_loader;
    errno = 0;
  };
  device_list = record { allocated = true; chrdev_fns = 1; next = 1; chrdev_list = 0 };
  multiboot = record {
    boot_magic = 0;
    mb_memory_sz = 0;
    mb_inf = 0;
    mb_memory_map = 0;
    multiboot_cur_mmap = 0;
    mb2_start = 0;
    mb2_memory_map = 0;
  };
  machine = record {
    gdt = λ i. 0;
    idt = λ v. record {
      offset_lo = 0;
      code_selector = 0;
      zero_byte = 0;
      type_attrib = 0;
      offset_hi = 0;
    };
    pic = record { sent = []; spurious = 0 };
  };
  kspace = record {
    memory = boot_memory;
    kheap_base = 0;
    kernel_break = 0xc0010000;
    kheap_last_page = 0xcffff000;
    errno = 0;
  };
}

abbrev told : Multiboot
told = loaded (tty_memory setting kernel) kernel.multiboot 0x1000 0 1

told_size : u32 told.mb_memory_sz ≡ 0x4000
unfolding strncpy pad_zero allocate
told_size = refl

boot_reserved : ℕ → Bool
boot_reserved = reserved_blocks setting (tty_memory setting kernel) told 0 10
