-- ===== src/Kernel/Steps.antt =====
-- The steps of `kernel_early_init` of kernel/kernel/kernel.c.
use missy_micro.Common.{ℕ, ◌+◌, ◌<◌, ◌≡◌, refl, arith}
use missy_micro.Common.{◌∙◌, false, ◌==◌, if◌then◌else◌, some, ltb}
use missy_micro.Libc.{strncpy}
use missy_micro.Libc.Strings.{IsString, strlen_lem}
use missy_micro.Libc.Compare.{IsBytes}
use missy_micro.Terminal.{Terminal, vga_video_defcolor}
use missy_micro.Devices.{Devices, allocate, register_chrdev, register_any, register_found}
use missy_micro.Devices.{copy_name}
use missy_micro.Heap.Grow.{IsHeap}
use missy_micro.Heap.Start.{kspace_initialize_lem}
use missy_micro.Acpi.{acpi_get_checksum}
use missy_micro.Acpi.Search.{Found, acpi_locate_rsdp_lem}
use missy_micro.Kernel.{BootSetting, Outcome, Panic, done, panics, Kernel, check_acpi}
use missy_micro.Kernel.{start_memory, terminal_initialize, device_list_init}
use missy_micro.Kernel.{after_heap}
use missy_micro.Kernel.Space.{IsBootSpace, HasRoom, IsMap, total, reserved_blocks}
use missy_micro.Kernel.Space.{kmemory_initialize_lem}
use missy_micro.Kernel.Apart.{KeepsReserved}
use missy_micro.Common.{Bool}

-- The device table with the terminal as its first device.
abbrev pub with_tty : BootSetting → Devices → Devices
with_tty e d = record (allocate d 0 e.tty_ops) {
  memory = strncpy d.memory (d.char_devices 0).device_name e.tty0 255;
}

found_short :
    (e : BootSetting) (d : Devices) (k fuel : ℕ)
    → IsString d.memory e.tty0 k
    → k < 255
    → k < fuel
    → register_found d 0 e.tty0 e.tty_ops fuel ≡ some (0, with_tty e d)
unfolding register_found copy_name allocate
found_short e d k fuel name short lt =
    let length = strlen_lem d.memory e.tty0 k fuel name lt in
    let fits : ltb 255 (k + 1) ≡ false = ground arith in rw (register_found, length, fits) refl

register_tty :
    (e : BootSetting) (d : Devices) (k fuel : ℕ)
    → (d.char_devices 0).allocated ≡ false
    → IsString d.memory e.tty0 k
    → k < 255
    → k < fuel
    → register_chrdev d 0 e.tty0 e.tty_ops fuel ≡ some (0, with_tty e d)
unfolding register_chrdev register_any
register_tty e d k fuel free name short lt = rw free (found_short e d k fuel name short lt)

-- What is left once the heap is started.
pub record IsStarted (e : BootSetting) (k k' : Kernel) (kept : ℕ → Bool) (total : ℕ) : Type 0 where
  pub heap : IsHeap k'.kspace
  pub at_start : k'.kspace.kernel_break ≡ 0xd0000000
  pub one_page : k'.kspace.kheap_last_page ≡ 0xd0000000
  pub same_machine : k'.machine ≡ k.machine
  pub same_table : k'.devices.char_devices ≡ k.devices.char_devices
  pub named : k'.devices.memory ≡ (device_list_init e k.devices.memory).1
  pub keeps : KeepsReserved k.kspace.memory.paging kept total k'.kspace.memory

pub start_memory_lem :
    (e : BootSetting) (fuel n c : ℕ) (k : Kernel)
    → IsMap e k.devices.memory k.multiboot n fuel
    → IsBootSpace k.kspace.memory.paging
        (reserved_blocks e k.devices.memory k.multiboot n fuel)
        (total e k.devices.memory k.multiboot n fuel)
    → HasRoom
        (reserved_blocks e k.devices.memory k.multiboot n fuel)
        (total e k.devices.memory k.multiboot n fuel)
        c
    → (k' : Kernel) × (start_memory e fuel k ≡ done k')
      × IsStarted e k k'
          (reserved_blocks e k.devices.memory k.multiboot n fuel)
          (total e k.devices.memory k.multiboot n fuel)
unfolding start_memory after_heap
start_memory_lem e fuel n c k map boot room =
    let (s', mem, run, paged, free, reserved, walks) =
      kmemory_initialize_lem e k.devices.memory k.multiboot n fuel map k.kspace.memory.paging c boot
        room in
    let (l, begun, heap, at_start, one_page, spares) =
      kspace_initialize_lem (record k.kspace { memory = mem }) paged free
        (λ a lo hi. walks a (omega arith) ∙ boot.heap a lo hi) in
    (
      record k {
        devices = record k.devices { memory = (device_list_init e k.devices.memory).1 };
        device_list = (device_list_init e k.devices.memory).0;
        multiboot = s';
        kspace = l;
      },
      rw (run, begun) refl,
      record {
        heap = heap;
        at_start = at_start;
        one_page = one_page;
        same_machine = refl;
        same_table = refl;
        named = refl;
        keeps = λ f lt kept off.
            let (held, no_table) = reserved f lt kept off in spares f held no_table;
      },
    )

-- How `kernel_early_init` ends, where the search for the root descriptor found `p`.
abbrev pub verdict : ℕ → Kernel → Outcome Kernel
verdict p k =
    if p == 0
    then panics Panic.no_acpi
    else if ltb 0 (acpi_get_checksum k.devices.memory p)
    then panics Panic.bad_acpi
    else done k

pub check_acpi_lem :
    (e : BootSetting) (k : Kernel)
    → IsBytes k.devices.memory
    → IsString k.devices.memory e.rsdp_signature 8
    → (p : ℕ) × (check_acpi e k ≡ verdict p k) × Found k.devices.memory e.rsdp_signature p
unfolding check_acpi
check_acpi_lem e k bytes name =
    let (p, u, run, found) =
      acpi_locate_rsdp_lem k.devices.memory e.rsdp_signature e.screen bytes name in
    (p, rw run refl, found)

-- The screen after `terminal_initialize`.
abbrev pub first_screen : BootSetting → Terminal
first_screen e = record e.screen { cur_x = 0; cur_y = 0; color_attrib = vga_video_defcolor }

pub terminal_initialize_lem :
    (e : BootSetting) (d : Devices) (k fuel : ℕ)
    → (d.char_devices 0).allocated ≡ false
    → IsString d.memory e.tty0 k
    → k < 255
    → k < fuel
    → terminal_initialize e fuel d ≡ some (first_screen e, with_tty e d)
unfolding terminal_initialize
terminal_initialize_lem e d k fuel free name short lt =
    rw (terminal_initialize, register_tty e d k fuel free name short lt) refl
