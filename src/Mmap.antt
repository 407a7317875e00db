-- ===== src/Mmap.antt =====
-- kernel/syscall/sys_memory.c, and the fields of `aegis_process_t` in kernel/proc/proc.h that it uses: the
-- addresses of a process. Pages go through `UserPages`, which stands for the physical allocator and for
-- the page tables of kernel/mm/vmm.c; `none` is `panic_halt`. The table of ranges is that of Vma.
pub mod Calls
pub mod System
pub mod FreeList
pub mod Place
pub mod Outcome
pub mod Histories
pub mod Table
pub mod Brk
pub mod Twice
mod Tests
use Prim.Native.Nat.{bit_and}
use exec_aegis.Base.{
  ℕ, zero, suc, ◌+◌, ◌-◌, ◌*◌, ◌/◌, ◌%◌, ◌^◌, Bool, not, ◌&&◌, Option, none, some, ◌>>=◌, List, [],
  ◌∷◌, set, ltb, ◌==◌, if◌then◌else◌, u64,
}
use exec_aegis.Ranges.{Range, alloc, end_of, remove_at, extend_back, append_range}
use exec_aegis.Vma

-- `MMAP_FREE_MAX`
abbrev pub mmap_free_max : ℕ
mmap_free_max = 64

abbrev pub page : ℕ
page = 4096

pub record Proc : Type 0 where
  pub brk : ℕ
  pub brk_base : ℕ
  pub mmap_base : ℕ
  pub mmap_free : List Range
  pub ranges : Vma.Proc

-- The loop over the slots from `j` on for a range that ends where slot `i`, which is now `m`, begins: slot
-- `i` is merged into it and removed.
unfoldable pub absorb_previous : List Range → ℕ → ℕ → Range → List Range → List Range
absorb_previous [] j i m fs = fs
absorb_previous (e ∷ es) j i m fs =
    let later = absorb_previous es (suc j) i m fs in
    if not (j == i) && end_of 1 e == m.base
    then remove_at (set fs j (record e { size = u64 (e.size + m.size) })) i
    else later

-- The loop of `mmap_free_insert` from slot `i` on.
unfoldable pub insert_loop : List Range → ℕ → Range → List Range → List Range
unfolding absorb_previous
insert_loop [] i x fs = append_range mmap_free_max x fs
insert_loop (e ∷ es) i x fs =
    let later = insert_loop es (suc i) x fs in
    let m : Range = record { base = x.base; size = u64 (e.size + x.size) } in
    if end_of 1 e == x.base
    then extend_back 1 i e x.size fs
    else if end_of 1 x == e.base
    then absorb_previous (set fs i m) 0 i m (set fs i m)
    else later

unfoldable pub mmap_free_insert : Range → List Range → List Range
mmap_free_insert x fs = insert_loop fs 0 x fs

unfoldable pub mmap_free_alloc : ℕ → List Range → ℕ × List Range
mmap_free_alloc len fs = alloc 1 len fs

-- `vmm_phys_of_user` and `vmm_phys_of_user_raw`, 0 where nothing is mapped; `vmm_unmap_user_page`,
-- `vmm_map_user_page`, `vmm_set_user_prot`, `vmm_zero_page`, `vmm_write_user_bytes`; `pmm_alloc_page`, 0
-- where memory is out, and `pmm_free_page`.
pub record UserPages (M : Type 0) : Type 0 where
  pub phys_of : ℕ → M → ℕ
  pub phys_of_raw : ℕ → M → ℕ
  pub unmap : ℕ → M → Option M
  pub map : ℕ → ℕ → ℕ → M → Option M
  pub set_prot : ℕ → ℕ → M → M
  pub zero_page : ℕ → M → M
  pub write_bytes : ℕ → List ℕ → M → M
  pub alloc_page : M → M × ℕ
  pub free_page : ℕ → M → Option M

-- How often `for (va = lo; va < hi; va += 4096)` goes round.
abbrev pub pages_between : ℕ → ℕ → ℕ
pages_between lo hi = (hi - lo + 4095) / page

-- `(x + 4095) & ~4095`
abbrev pub page_up : ℕ → ℕ
page_up x = u64 (x + 4095) / page * page

module _ {M : Type 0} (ops : UserPages M) where
  -- Unmap and release what is mapped in the next `n` pages.
  unfoldable pub unmap_range : ℕ → ℕ → M → Option M
  unmap_range zero va m = some m
  unmap_range (suc n) va m = do
    let phys = ops.phys_of va m
    let freed = ops.unmap va m >>= λ m'. ops.free_page phys m'
    m'' ← (if phys == 0 then some m else freed)
    unmap_range n (va + page) m''

  -- The same with `vmm_phys_of_user_raw`; pages of a shared mapping are not released.
  unfoldable pub unmap_raw : Bool → ℕ → ℕ → M → Option M
  unmap_raw is_shared zero va m = some m
  unmap_raw is_shared (suc n) va m = do
    let phys = ops.phys_of_raw va m
    let unmapped = ops.unmap va m
    let freed = unmapped >>= λ m'. ops.free_page phys m'
    m'' ← (if phys == 0 then some m else if is_shared then unmapped else freed)
    unmap_raw is_shared n (va + page) m''

  -- A zeroed page behind each of the next `n`; if memory is out, also the address that it stopped at.
  unfoldable pub map_zeroed : ℕ → ℕ → ℕ → M → Option (M × Option ℕ)
  map_zeroed flags zero va m = some (m, none)
  map_zeroed flags (suc n) va m =
      let (m', phys) = ops.alloc_page m in
      let more = do
        m'' ← ops.map va phys flags (ops.zero_page phys m')
        map_zeroed flags n (va + page) m''
      in if phys == 0 then some (m', some va) else more

  unfoldable pub protect_range : ℕ → ℕ → ℕ → M → M
  protect_range flags zero va m = m
  protect_range flags (suc n) va m = protect_range flags n (va + page) (ops.set_prot va flags m)
