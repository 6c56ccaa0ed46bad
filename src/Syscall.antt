-- ===== src/Syscall.antt =====
-- kernel/kernel/process/syscall.c: the table of system calls. A function is its address; `none` is a
-- store outside of the table.
use missy_micro.Common.{ℕ, ◌<◌, ◌≡◌, ◌≢◌, refl, arith, Option, none, some, leb, update, false}
use missy_micro.Common.{if◌then◌else◌}

abbrev syscall_max : ℕ
syscall_max = 256

unfoldable install_syscall : (ℕ → ℕ) → ℕ → ℕ → Option (ℕ → ℕ)
install_syscall syscall_table idx c =
    if leb syscall_max idx then none else some (update syscall_table idx c)

install_syscall_lem :
    (syscall_table : ℕ → ℕ) (idx c : ℕ)
    → idx < 256
    → (table : ℕ → ℕ) × (install_syscall syscall_table idx c ≡ some table)
      × (table idx ≡ c)
      × ((i : ℕ) → i ≢ idx → table i ≡ syscall_table i)
unfolding install_syscall
install_syscall_lem syscall_table idx c inside =
    let low : leb 256 idx ≡ false = ground arith in
    (update syscall_table idx c, rw low refl, ground arith, λ i ne. ground arith)
