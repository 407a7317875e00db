-- ===== src/Mmap/Calls.antt =====
-- The system calls of kernel/syscall/sys_memory.c on the addresses of a process: brk, mmap, munmap and
-- mprotect. A result is a `uint64_t`, an error as the two's complement of its number.
use Prim.Native.Nat.{bit_and}
use exec_aegis.Base.{
  ℕ, zero, suc, ◌+◌, ◌-◌, ◌/◌, ◌%◌, ◌^◌, min, Bool, true, false, not, ◌&&◌, ◌||◌, Option, some,
  ◌>>=◌, List, length, ltb, leb, ◌==◌, if◌then◌else◌, u64,
}
use exec_aegis.Vma
use exec_aegis.Mmap.{page, Proc, mmap_free_alloc, UserPages, unmap_range}

abbrev pub einval : ℕ
einval = 2 ^ 64 - 22

abbrev pub enomem : ℕ
enomem = 2 ^ 64 - 12

-- `USER_ADDR_MAX` on x86-64
abbrev pub user_addr_max : ℕ
user_addr_max = 2 ^ 47 - 1

-- `VMM_FLAG_PRESENT`, `VMM_FLAG_WRITABLE`, `VMM_FLAG_USER` and `VMM_FLAG_NX`, one bit each
abbrev pub flag_present : ℕ
flag_present = 1

abbrev pub flag_writable : ℕ
flag_writable = 2

abbrev pub flag_user : ℕ
flag_user = 4

abbrev pub flag_nx : ℕ
flag_nx = 2 ^ 63

-- `x & mask`, as a test
unfoldable pub has : ℕ → ℕ → Bool
has x mask = ltb 0 (bit_and x mask)

-- The page flags of a protection: no execution but with PROT_EXEC, no writing but with PROT_WRITE.
unfoldable pub map_flags : ℕ → ℕ
map_flags prot =
    flag_present
    + flag_user
    + (if has prot 2 then flag_writable else 0)
    + (if has prot 4 then 0 else flag_nx)

-- `memfd_t`: its pages, and its size in pages.
pub record Memfd : Type 0 where
  pub page_count : ℕ
  pub phys_pages : ℕ → ℕ

-- What sys_mmap uses of an open descriptor. `memfd` is `none` where its operations are not the memfd's;
-- `some none` is a memfd that `memfd_get` does not know. `read offset want` is the driver's.
pub record File : Type 0 where
  pub memfd : Option (Option Memfd)
  pub size : ℕ
  pub read : Option (ℕ → ℕ → List ℕ)

-- Flags of `mmap`: MAP_SHARED 0x01, MAP_FIXED 0x10, MAP_ANONYMOUS 0x20; the descriptor -1 is 2^64 - 1.
abbrev pub file_backed : ℕ → ℕ → Bool
file_backed flags fd = not (has flags 32) && not (fd == 2 ^ 64 - 1)

abbrev pub is_fixed : ℕ → ℕ → Bool
is_fixed addr flags = has flags 16 && ltb 0 addr

-- The checks that come first: `prot & ~7`, a mapping of neither kind, a file offset within a page.
unfoldable pub bad_arguments : ℕ → ℕ → ℕ → ℕ → ℕ → Bool
bad_arguments len prot flags fd off =
    len == 0
    || ltb 7 prot
    || (not (file_backed flags fd) && not (has flags 32))
    || (file_backed flags fd && ltb 0 (off % page))

-- The address that was chosen, or the error.
pub data Placed : Type 0 where
  placed : ℕ → Placed
  refused : ℕ → Placed

-- Without MAP_FIXED: from the free list, else `mmap_base`.
unfoldable pub place_anywhere : ℕ → ℕ → Proc → Proc × Placed
place_anywhere addr len p =
    let r = mmap_free_alloc len p.mmap_free in
    let base = if r.0 == 0 then p.mmap_base else r.0 in
    let p' = record p { mmap_free = r.1 } in
    if ltb 0 addr
    then (p, refused einval)
    else if ltb user_addr_max (u64 (base + len)) || ltb (u64 (base + len)) base
    then (p', refused enomem)
    else (p', placed base)

unfoldable pub insert_range : ℕ → ℕ → ℕ → ℕ → Proc → Proc
insert_range base len prot kind p = record p { ranges = Vma.insert p.ranges base len prot kind }

unfoldable pub remove_range : ℕ → ℕ → Proc → Proc
remove_range base len p = record p { ranges = Vma.remove p.ranges base len }

-- `mmap_base` moves up unless the range came from the free list or MAP_FIXED.
unfoldable pub advance_base : Bool → ℕ → ℕ → Proc → Proc
advance_base fixed base len p = record p {
  mmap_base = if not fixed && leb p.mmap_base base then base + len else p.mmap_base;
}

-- `VMA_HEAP`, `VMA_MMAP`, `VMA_SHARED`
abbrev pub vma_heap : ℕ
vma_heap = 3

abbrev pub vma_mmap : ℕ
vma_mmap = 5

abbrev pub vma_shared : ℕ
vma_shared = 8

-- How much of the file there is to copy.
unfoldable pub bytes_to_copy : ℕ → ℕ → ℕ → ℕ
bytes_to_copy size off len =
    if ltb 0 size && ltb off size then min len (size - off) else if ltb 0 size then 0 else len

module _ {M : Type 0} (ops : UserPages M) where
  -- With MAP_FIXED: whatever is mapped in the range is unmapped.
  unfoldable pub place_fixed : ℕ → ℕ → Proc → M → Option (Proc × M × Placed)
  place_fixed addr len p m =
      let cleared = do
        m' ← unmap_range ops (len / page) addr m
        some (remove_range addr len p, m', placed addr)
      in if ltb 0 (addr % page)
        then some (p, m, refused einval)
        else if leb (2 ^ 47) addr || ltb (2 ^ 47) (u64 (addr + len)) || ltb (u64 (addr + len)) addr
        then some (p, m, refused einval)
        else cleared

  -- The pages of a memfd from page `i` on; false where it runs out of them.
  unfoldable pub map_memfd : ℕ → Memfd → ℕ → ℕ → ℕ → M → Option (M × Bool)
  map_memfd flags f zero i va m = some (m, true)
  map_memfd flags f (suc n) i va m =
      let more = do
        m' ← ops.map va (f.phys_pages i) flags m
        map_memfd flags f n (i + 1) (va + page) m'
      in if leb f.page_count i || f.phys_pages i == 0 then some (m, false) else more

  -- The loop that copies a file into the mapping, at most a page a round; each round but the last copies
  -- at least one byte, so `rounds` is the number of bytes.
  unfoldable pub copy_file : (ℕ → ℕ → List ℕ) → ℕ → ℕ → ℕ → ℕ → ℕ → M → M
  copy_file read base off bytes zero copied m = m
  copy_file read base off bytes (suc rounds) copied m =
      let chunk = read (off + copied) (min (bytes - copied) page) in
      let more =
        copy_file read base off bytes rounds (copied + length chunk)
          (ops.write_bytes (base + copied) chunk m) in
      if leb bytes copied || length chunk == 0 then m else more
