-- ===== src/Kernel.antt =====
-- kernel/kernel/kernel.c: `kernel_early_init`, with the rest of `kmemory_initialize` of
-- kernel/kernel/memory/kmemory.c, `device_list_init` of device.c and the initialisations of tty.c. What
-- is printed on the way is not part of the state: the calls that print are given some screen, and
-- what they leave on it is dropped.
-- The bytes of the kernel's data, the bitmap and the page frames are memories of their own, which is
-- right where they do not overlap; `Apart` says when they do not.
mod Room
mod Space
pub mod Apart
mod Steps
mod Boot
mod Main
pub mod Examples
use missy_micro.Common.{ℕ, ◌+◌, Bool, false, Option, none, some, ltb, ◌==◌, if◌then◌else◌}
use missy_micro.Balloc.{Balloc}
use missy_micro.Paging
use missy_micro.Paging.{Paging, Memory}
use missy_micro.Paging.Spaces.{vmmngr_initialize}
use missy_micro.Heap
use missy_micro.Heap.{Kspace, kspace_initialize}
use missy_micro.Libc.{strncpy}
use missy_micro.Terminal.{Terminal, vga_video_defcolor}
use missy_micro.Devices.{Devices, ChrdevOps, register_chrdev, device_maxpath}
use missy_micro.Multiboot
use missy_micro.Multiboot.{Multiboot, multiboot_data_init}
use missy_micro.Physical.{Prepared, kmemory_prepare}
use missy_micro.Cpu.{IdtEntry, cpu_setvector}
use missy_micro.Cpu.Boot.{Machine, cpu_init}
use missy_micro.Pic.{Hardware}
use missy_micro.Acpi.{acpi_locate_rsdp, acpi_get_checksum}

-- The calls of `kernel_panic`, in the order in which they can be met.
pub data Panic : Type 0 where
  no_multiboot no_allocator no_map no_paging no_heap no_acpi bad_acpi no_tty : Panic

-- `stuck` is a trap, a page fault, or running out of fuel.
pub data Outcome (A : Type 0) : Type 0 where
  done : A → Outcome A
  panics : Panic → Outcome A
  stuck : Outcome A

infixl 5 ◌>>=◌
abbrev pub ◌>>=◌ : {A B : Type 0} → Outcome A → (A → Outcome B) → Outcome B
done a >>= f = f a
panics p >>= f = panics p
stuck >>= f = stuck

abbrev pub lift : {A : Type 0} → Option A → Outcome A
lift none = stuck
lift (some a) = done a

unfoldable pub after_prepare : Prepared → Outcome (Multiboot × Balloc)
after_prepare Prepared.no_allocator = panics Panic.no_allocator
after_prepare Prepared.no_map = panics Panic.no_map
after_prepare (Prepared.ready s) = done s

unfoldable pub after_paging : Paging.Status × Memory → Outcome Memory
after_paging (Paging.failed, m) = panics Panic.no_paging
after_paging (Paging.ok, m) = done m

unfoldable pub after_heap : Heap.Initialized → Outcome Kspace
after_heap Heap.panic = panics Panic.no_heap
after_heap (Heap.done k) = done k

-- What the linker, the boot code and the assembly fix: addresses, literals, and the hardware.
pub record BootSetting : Type 0 where
  pub kernel_start : ℕ
  pub kernel_end : ℕ
  pub ram : ℕ → ℕ
  pub hardware : Hardware
  pub default_handler : ℕ
  pub handler : ℕ → ℕ
  pub screen : Terminal
  pub tty0 : ℕ
  pub tty_ops : ChrdevOps
  pub empty : ℕ
  pub list_base : ℕ
  pub list_name : ℕ
  pub rsdp_signature : ℕ
  pub vector_format : ℕ

-- Over the memory `m` of what the loader left, and the address space that the boot code made.
unfoldable pub kmemory_initialize :
    BootSetting → ℕ → (ℕ → ℕ) → Multiboot → Paging → Outcome (Multiboot × Memory)
kmemory_initialize e fuel m s v = do
  prepared ← lift (kmemory_prepare m s e.kernel_start e.kernel_end e.ram fuel)
  marked ← after_prepare prepared
  paged ← lift (vmmngr_initialize (record { alloc = marked.1; paging = v }))
  memory ← after_paging paged
  done (marked.0, memory)

-- `chrdev_list_base`, but for its name, which lies in memory, and `chrdev_list`.
pub record DeviceList : Type 0 where
  pub allocated : Bool
  pub chrdev_fns : ℕ
  pub next : ℕ
  pub chrdev_list : ℕ

unfoldable pub device_list_init : BootSetting → (ℕ → ℕ) → DeviceList × (ℕ → ℕ)
device_list_init e m = (
  record { allocated = false; chrdev_fns = 0; next = 0; chrdev_list = e.list_base },
  strncpy m e.list_name e.empty device_maxpath,
)

-- The result, the size of the screen, is not used.
unfoldable pub terminal_initialize : BootSetting → ℕ → Devices → Option (Terminal × Devices)
terminal_initialize e fuel d = elim (register_chrdev d 0 e.tty0 e.tty_ops fuel) [
  | none ↦ none
  | some registered ↦
      some
        (record e.screen { cur_x = 0; cur_y = 0; color_attrib = vga_video_defcolor }, registered.1)
]

pub record Kernel : Type 0 where
  pub devices : Devices
  pub device_list : DeviceList
  pub multiboot : Multiboot
  pub machine : Machine
  pub kspace : Kspace

-- `if (multiboot_data_init (...) == -1) kernel_panic (...);`
unfoldable pub after_loader : Option (Multiboot.Status × Multiboot) → Outcome Multiboot
after_loader none = stuck
after_loader (some (Multiboot.failed, s)) = panics Panic.no_multiboot
after_loader (some (Multiboot.ok, s)) = done s

-- From the search for the tables of ACPI on.
unfoldable pub check_acpi : BootSetting → Kernel → Outcome Kernel
check_acpi e k =
    let (located, screen) = acpi_locate_rsdp k.devices.memory e.rsdp_signature e.screen in
    if located == 0
    then panics Panic.no_acpi
    else if ltb 0 (acpi_get_checksum k.devices.memory located)
    then panics Panic.bad_acpi
    else done k

-- `kmemory_initialize`, `kspace_initialize` and `device_list_init`.
unfoldable pub start_memory : BootSetting → ℕ → Kernel → Outcome Kernel
start_memory e fuel k = do
  started ← kmemory_initialize e fuel k.devices.memory k.multiboot k.kspace.memory.paging
  heap ← after_heap (kspace_initialize (record k.kspace { memory = started.1 }))
  let (list, memory) = device_list_init e k.devices.memory
  done (record k {
    devices = record k.devices { memory = memory };
    device_list = list;
    multiboot = started.0;
    kspace = heap;
  })

unfoldable pub kernel_early_init : BootSetting → ℕ → ℕ → ℕ → Kernel → Outcome Kernel
kernel_early_init e fuel mb_inf magic k = do
  registered ← lift (terminal_initialize e fuel k.devices)
  let d = registered.1
  loaded ← after_loader (multiboot_data_init d.memory k.multiboot registered.0 mb_inf magic fuel).0
  machine ← lift (cpu_init e.hardware e.default_handler e.handler k.machine)
  started ← start_memory e fuel (record k { devices = d; multiboot = loaded; machine = machine })
  check_acpi e started
