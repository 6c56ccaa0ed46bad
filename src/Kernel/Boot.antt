-- ===== src/Kernel/Boot.antt =====
-- `kernel_early_init` of kernel/kernel/kernel.c.
use missy_micro.Common.{ℕ, ◌+◌, ◌<◌, ◌≡◌, ◌≢◌}
use missy_micro.Common.{true, if◌then◌else◌, u32}
use missy_micro.Heap.Grow.{IsHeap}
use missy_micro.Multiboot.{Multiboot}
use missy_micro.Multiboot.Structs.{multiboot2_tag_memsz}
use missy_micro.Multiboot.Tags.{IsTagList, IsFirstTag, tag_at}
use missy_micro.Cpu.Vectors.{IsGate, holds}
use missy_micro.Cpu.Boot.{boot_vectors}
use missy_micro.Kernel.{BootSetting, Kernel}
use missy_micro.Kernel.{device_list_init}
use missy_micro.Kernel.Steps.{with_tty}

-- What `multiboot_data_init` stores, for the tags `i` and `j`.
abbrev pub loaded : (ℕ → ℕ) → Multiboot → ℕ → ℕ → ℕ → Multiboot
loaded m s mb_inf i j = record s {
  boot_magic = 0x36d76289;
  mb_memory_sz = u32 (
      (multiboot2_tag_memsz m (tag_at m (u32 (mb_inf + 64)) i)).mem_lower
      + (multiboot2_tag_memsz m (tag_at m (u32 (mb_inf + 64)) i)).mem_upper);
  mb2_start = mb_inf;
  mb2_memory_map = tag_at m (u32 (mb_inf + 64)) j;
}

-- The memory after the terminal is registered, and after the device list is set up.
abbrev pub tty_memory : BootSetting → Kernel → ℕ → ℕ
tty_memory e k = (with_tty e k.devices).memory

abbrev pub list_memory : BootSetting → Kernel → ℕ → ℕ
list_memory e k = (device_list_init e (tty_memory e k)).1

-- The tags of the loader: the first with the size of memory, and the first with its map.
pub record IsInformed (m : ℕ → ℕ) (mb_inf tags i j fuel : ℕ) : Type 0 where
  pub given : mb_inf ≢ 0
  pub list : IsTagList m (u32 (mb_inf + 64)) tags
  pub size : IsFirstTag m (u32 (mb_inf + 64)) tags 4 i
  pub map : IsFirstTag m (u32 (mb_inf + 64)) tags 6 j
  pub size_ptr : tag_at m (u32 (mb_inf + 64)) i ≢ 0
  pub map_ptr : tag_at m (u32 (mb_inf + 64)) j ≢ 0
  pub fuelled : tags < fuel

-- What the kernel has once it is started.
pub record IsBooted (e : BootSetting) (k : Kernel) : Type 0 where
  pub heap : IsHeap k.kspace
  pub at_start : k.kspace.kernel_break ≡ 0xd0000000
  pub one_page : k.kspace.kheap_last_page ≡ 0xd0000000
  pub gates :
      (v : ℕ)
      → v < 255
      → IsGate (k.machine.idt v) (if holds boot_vectors v then e.handler v else e.default_handler)
  pub tty :
      ((k.devices.char_devices 0).allocated ≡ true)
      × ((k.devices.char_devices 0).chrdev_fns ≡ e.tty_ops)

module _ (e : BootSetting) (k : Kernel) (mb_inf tags i j n c letters fuel : ℕ) where
  abbrev map_of_loader : Multiboot
  map_of_loader = loaded (tty_memory e k) k.multiboot mb_inf i j
