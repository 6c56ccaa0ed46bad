-- ===== src/Kalloc.antt =====
-- kernel/kernel/memory/kalloc.c: the kernel's allocator, a circular list of free blocks. `memory` is the
-- memory of bytes that the kernel sees at its virtual addresses, and `kspace_sbrk` extends the heap in
-- it. A pointer to a header is its address, and adding to one counts headers of 8 bytes. `none` is
-- running out of fuel in a loop over the list.
pub mod Words
pub mod Split
pub mod Free
pub mod Insert
mod More
pub mod First
mod Examples
use missy_micro.Common.{
  ℕ, zero, suc, ◌+◌, ◌-◌, ◌*◌, ◌/◌, ◌%◌, ◌^◌, Bool, ◌||◌, ◌&&◌, Option, none, some,
}
use missy_micro.Common.{ltb, leb, ◌==◌, if◌then◌else◌, u32, sub32, update}
use missy_micro.Multiboot.Structs.{load32}
use missy_micro.Heap.{Kspace, kspace_sbrk, no_memory}

abbrev pub min_request_size : ℕ
min_request_size = 1024

-- The static variables; `base` is the address of the variable of that name.
pub record Kalloc : Type 0 where
  pub memory : ℕ → ℕ
  pub base : ℕ
  pub free_hdr : ℕ
  pub kspace : Kspace

-- A store of a word.
abbrev pub store32 : (ℕ → ℕ) → ℕ → ℕ → ℕ → ℕ
store32 m p v =
    update
      (update (update (update m p (v % 2 ^ 8)) (p + 1) (v / 2 ^ 8 % 2 ^ 8)) (p + 2)
        (v / 2 ^ 16 % 2 ^ 8))
      (p + 3) (v / 2 ^ 24 % 2 ^ 8)

-- The fields of a header.
unfoldable pub next_of : (ℕ → ℕ) → ℕ → ℕ
next_of m h = load32 m h

unfoldable pub sz_of : (ℕ → ℕ) → ℕ → ℕ
sz_of m h = load32 m (h + 4)

unfoldable pub set_next : (ℕ → ℕ) → ℕ → ℕ → ℕ → ℕ
set_next m h v = store32 m h v

unfoldable pub set_sz : (ℕ → ℕ) → ℕ → ℕ → ℕ → ℕ
set_sz m h v = store32 m (h + 4) v

-- The loop of `kernel_free`: the header after which `blk` belongs.
unfoldable pub find_place : (ℕ → ℕ) → ℕ → ℕ → ℕ → Option ℕ
find_place m blk hdr zero = none
find_place m blk hdr (suc fuel) =
    let rest = find_place m blk (next_of m hdr) fuel in
    if ltb hdr blk && ltb blk (next_of m hdr)
    then some hdr
    else if leb (next_of m hdr) hdr && (ltb hdr blk || ltb blk (next_of m hdr))
    then some hdr
    else rest

-- The first `if` after it.
unfoldable pub join_after : (ℕ → ℕ) → ℕ → ℕ → ℕ → ℕ
join_after m blk hdr =
    let sized = set_sz m blk (u32 (sz_of m blk + sz_of m (next_of m hdr))) in
    if u32 (blk + sz_of m blk * 8) == next_of m hdr
    then set_next sized blk (next_of sized (next_of sized hdr))
    else set_next m blk (next_of m hdr)

-- The second.
unfoldable pub join_before : (ℕ → ℕ) → ℕ → ℕ → ℕ → ℕ
join_before m blk hdr =
    let sized = set_sz m hdr (u32 (sz_of m hdr + sz_of m blk)) in
    if u32 (hdr + sz_of m hdr * 8) == blk
    then set_next sized hdr (next_of sized blk)
    else set_next m hdr blk

unfoldable pub kernel_free : Kalloc → ℕ → ℕ → Option Kalloc
kernel_free k mblock fuel =
    let blk = sub32 mblock 8 in
    elim (find_place k.memory blk k.free_hdr fuel) [
      | none ↦ none
      | some hdr ↦
          some (record k {
            memory = join_before (join_after k.memory blk hdr) blk hdr;
            free_hdr = hdr;
          })
    ]

-- After the call of `kspace_sbrk`. The result 0 is NULL.
unfoldable pub add_core : Kalloc → ℕ → ℕ → ℕ × Kspace → Option (ℕ × Kalloc)
add_core k nu fuel (next, kspace) =
    let grown = record k { memory = set_sz k.memory next nu; kspace = kspace } in
    if next == no_memory
    then some (0, record k { kspace = kspace })
    else elim (kernel_free grown (u32 (next + 8)) fuel) [
      | none ↦ none
      | some freed ↦ some (next, freed)
    ]

unfoldable pub morecore : Kalloc → ℕ → ℕ → Option (ℕ × Kalloc)
morecore k sz fuel =
    let with_header = u32 (sz + 8) in
    let nu = if ltb with_header min_request_size then min_request_size else with_header in
    add_core k nu fuel (kspace_sbrk k.kspace nu)

-- The block `hdr` is big enough.
unfoldable pub take_block : Kalloc → ℕ → ℕ → ℕ → ℕ × Kalloc
take_block k prev_hdr hdr alloc_sz =
    let shrunk = set_sz k.memory hdr (sz_of k.memory hdr - alloc_sz) in
    let tail = u32 (hdr + sz_of shrunk hdr) in
    if sz_of k.memory hdr == alloc_sz
    then (
      u32 (hdr + 8),
      record k { memory = set_next k.memory prev_hdr (next_of k.memory hdr); free_hdr = prev_hdr },
    )
    else (u32 (tail + 8), record k { memory = set_sz shrunk tail alloc_sz; free_hdr = prev_hdr })

-- The loop of `kernel_alloc`.
unfoldable pub search : Kalloc → ℕ → ℕ → ℕ → ℕ → Option (ℕ × Kalloc)
search k prev_hdr hdr alloc_sz zero = none
search k prev_hdr hdr alloc_sz (suc fuel) =
    if leb alloc_sz (sz_of k.memory hdr)
    then some (take_block k prev_hdr hdr alloc_sz)
    else if hdr == k.free_hdr
    then elim (morecore k alloc_sz fuel) [
      | none ↦ none
      | some more ↦
          let rest = search more.1 more.0 (next_of more.1.memory more.0) alloc_sz fuel in
          if more.0 == 0 then some (0, more.1) else rest
    ]
    else search k hdr (next_of k.memory hdr) alloc_sz fuel

-- The list, which the first call starts.
unfoldable pub start_list : Kalloc → Kalloc
start_list k =
    if k.free_hdr == 0
    then record k { memory = set_sz (set_next k.memory k.base k.base) k.base 0; free_hdr = k.base }
    else k

unfoldable pub kernel_alloc : Kalloc → ℕ → ℕ → Option (ℕ × Kalloc)
kernel_alloc k nbytes fuel =
    let started = start_list k in
    search started started.free_hdr (next_of started.memory started.free_hdr) (u32 (nbytes + 8))
      fuel
