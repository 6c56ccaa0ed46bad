-- ===== src/Lib.antt =====
-- A verification library for the MISSY Microsystem, a 32-bit kernel for the i386.
--
-- The kernel boots from a multiboot loader, which says how much memory there is. Physical memory is
-- given out in blocks of 4 KiB by a bitmap allocator (`balloc.c`); the virtual memory manager
-- (`memory_virt.c`) takes blocks from it for page tables, and the kernel's heap (`kmemory.c`) takes
-- blocks and has them mapped.
--
-- * `Balloc` is kernel/kernel/memory/balloc.c: `Balloc` the record of its static variables,
--   one function for each of its functions, `Bitmap` its macros, `Scan` the search for a free
--   block, `Region` the reserving and releasing of regions, `Count` the count of free blocks,
--   `Alloc` the two calls `balloc_get` and `balloc_free`, `Multi` the call `balloc_get_n`, `Boot`
--   the call `balloc_initialize`, and `Client` any sequence of calls.
-- * `Paging` is kernel/arch/i386/memory/memory_virt.c: `Walk` is the processor's translation of an
--   address and the invariant of the page tables, which `Kept` and `Drop` keep, `Map` and `Unmap`
--   the two calls, `Spaces` the first directory and those of
--   other address spaces, and `Calls` any sequence of calls against a map from addresses. It uses the
--   functions of `Balloc` as the source does.
-- * `Heap` is kernel/kernel/memory/kmemory.c: `Grow` the loop that adds pages, `Break` the calls
--   `kspace_brk` and `kspace_sbrk`, `Start` the call `kspace_initialize`. It uses `Balloc` and `Paging`.
-- * `Keyboard` is kernel/arch/i386/vga_tty/ps2_keyb.c: `Keymap` its table of scancodes with the key
--   codes of ps2_kb.h in `Keys` and `Letters`, `Queue` the queue of keys against a list,
--   `Controller` the waits for the controller.
-- * `Terminal` is kernel/arch/i386/vga_tty/tty.c: `Scroll` the screen, `Print` and `Cursor` the
--   printing of characters.
-- * `Pic` is kernel/arch/i386/pic-8259/pic.c: `Masks` the interrupt masks, `EndOfInterrupt` the end
--   of an interrupt. `Pit` is kernel/arch/i386/pit/pit.c. What a port reads is an argument, and what
--   the theorems rely on of the two controllers is the record `IsController`.
-- * `Cpu` is kernel/arch/i386/cpu/i386_cpu.c: `Descriptors` the segment descriptors, `Vectors` the
--   interrupt table, `Boot` the call `cpu_init` with the controllers and the timer of `Pic`,
--   `Control` the calls passed on to them. The addresses of the handlers are arguments.
-- * `Libc` is libc/string, libc/ctype and two functions of libc/stdlib: `Blocks` blocks of memory,
--   `Strings` and `Compare` strings, `Itoa` and `Strtol` numbers as text. The modules below use the
--   strings.
-- * `Output` is libc/stdio (printf.c, puts.c, putchar.c) and `terminal_printf` of tty.c: `Bytes` the
--   two formatters against each other, `Numbers` what a number is printed as.
-- * `Console` is `kernel_tty_read` of tty.c, over `Keyboard` and `Terminal`: `Line` the reading of a
--   line, `Edges` a full buffer and backspaces in an empty one.
-- * `Devices` is kernel/kernel/device/device.c: `Register` the registration of a device and the
--   dispatch to it.
-- * `Multiboot` is kernel/kernel/etc/multiboot.c, with the structures of multiboot.h in `Structs`:
--   `Tags` the list of tags, `MemoryMap` the entries of the memory map.
-- * `Physical` is `kmemory_initialize` of kernel/kernel/memory/kmemory.c up to its call of
--   `vmmngr_initialize`: it starts `Balloc` and reserves the regions of the map that `Multiboot` reads.
-- * `Kalloc` is kernel/kernel/memory/kalloc.c over a memory of bytes, whose words are in `Words`: `Split`
--   the cutting of a free block, `Free` the giving back, `First` the first request, for which `More`
--   extends the heap with `Heap` and `Insert` puts new blocks into the list.
-- * `Shell` is the command line of kernel/kernel/kernel.c, and `kernel_panic`: `Dispatch` the search for a
--   command, `Line` the way from the keys to the command, `Start` the first line. It uses `Kalloc`, `Console`
--   and `Output`.
-- * `Acpi` is kernel/kernel/etc/acpi.c: `Search` the search for the root descriptor.
-- * `Kernel` is `kernel_early_init` of kernel/kernel/kernel.c, with the rest of `kmemory_initialize`: it calls
--   `Devices`, `Multiboot`, `Cpu`, `Physical`, `Paging`, `Heap` and `Acpi` in the order of the source. `Space`
--   goes from the memory map to the first page directory, `Steps` are the steps, `Boot` the whole way, `Apart` what has to
--   lie apart in memory for it. `Main` is `kernel_main`,
--   whose loop has a number of rounds, with the splash logo, `Printed` the line
--   that its call of `cpu_setvector` prints, and `Commands` its first round. The bytes of the
--   kernel's data, the bitmap and the page frames are kept apart, as in the modules it calls.
-- * `Syscall` is the table of kernel/kernel/process/syscall.c, which nothing calls through.
-- * `Common` and `Bits` are shared: lists, tests, 32-bit words, and the binary digits of a number.
--
-- A function that changes static variables takes them as a record and returns them with its own
-- result. A 32-bit word is a number below 2 ^ 32, and every operation that can wrap round is
-- written with `u32`, `sub32` or `% 2 ^ w`. A pointer is its address. A loop over a counter
-- is recursion on the number of rounds left, which the source's bound gives, so no fuel is needed.
-- `strlen`, `strcmp`, `strtol` and the formatters, which only a byte of memory ends, have fuel, and fuel
-- above the length of the string is enough; so have the search over the tags, which fuel above
-- their number suffices for, the division loop of `itoa_s`, with 32 rounds for a word, and the
-- waiting for a key, and the loops over the allocator's list, where four is enough for the first
-- request. `none` is then running out of fuel, or what the comment of the function says.
--
-- Outside the model: inline assembly, what port I/O does in the hardware, the memory that the loader and the linker lay
-- out (arguments of the functions that use it), and the processor's translation cache, which
-- `memory_virt.c` flushes before it returns.
--
-- The kernel is built with -fbuiltin, so three calls on constants are the compiler's: `memset` of a page
-- table and of the buffer of a line, which fill the whole of it, and `strlen` of the signature of ACPI,
-- which is 8. The `memset` and `strlen` of libc/string differ; `strlen` is what the
-- calls on other strings mean.
--
-- Not modelled either: what `kernel_early_init` and `cpu_init` print. kernel/arch/i386/memory/i386_memory.c
-- holds the functions of kmemory.c once more, in an earlier form, and is left out.
pub mod Common
pub mod Bits
pub mod Balloc
pub mod Paging
pub mod Heap
pub mod Keyboard
pub mod Libc
pub mod Terminal
pub mod Output
pub mod Console
pub mod Devices
pub mod Multiboot
pub mod Physical
pub mod Kalloc
pub mod Shell
pub mod Acpi
pub mod Pic
pub mod Cpu
pub mod Syscall
pub mod Kernel
