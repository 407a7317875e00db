-- ===== src/Kva.antt =====
-- kernel/mm/kva.c: ranges of kernel addresses, from a list of ranges that were given back (at most 128)
-- or else from a pointer that only moves up. The lock makes each change of the two atomic. The pages
-- behind a range are the physical allocator's and the page tables', which `PageOps` stands for:
-- `panic_halt`, in any of them, is `none`.
pub mod FreeList
pub mod Histories
mod Tests
use exec_aegis.Base.{
  ℕ, zero, suc, ◌+◌, ◌-◌, ◌*◌, ◌^◌, Bool, Option, none, some, ◌>>=◌, List, [], ◌∷◌, set, leb, ltb,
  ◌==◌, if◌then◌else◌, u64,
}
use exec_aegis.Ranges.{Range, alloc, end_of, extend_back, append_range}

abbrev pub page : ℕ
page = 4096

-- `KVA_FREE_MAX`
abbrev pub kva_free_max : ℕ
kva_free_max = 128

-- `s_kva_next` and the part of `s_free` in use
pub record Kva : Type 0 where
  pub next : ℕ
  pub free : List Range

-- `KVA_BASE` is the architecture's.
unfoldable pub init : ℕ → Kva
init kva_base = record { next = kva_base; free = [] }

unfoldable pub freelist_alloc : ℕ → List Range → ℕ × List Range
freelist_alloc n fs = alloc page n fs

-- The loop of `freelist_insert` from slot `i` on.
unfoldable pub insert_loop : List Range → ℕ → Range → List Range → List Range
insert_loop [] i x fs = append_range kva_free_max x fs
insert_loop (e ∷ es) i x fs =
    let later = insert_loop es (suc i) x fs in
    if end_of page e == x.base
    then extend_back page i e x.size fs
    else if end_of page x == e.base
    then set fs i (record { base = x.base; size = u64 (e.size + x.size) })
    else later

unfoldable pub freelist_insert : Range → List Range → List Range
freelist_insert x fs = insert_loop fs 0 x fs

unfoldable pub bump : ℕ → Kva → Kva × ℕ
bump n k = (record k { next = u64 (k.next + n * page) }, k.next)

-- The locked part of `kva_alloc_pages`.
unfoldable pub take_range : ℕ → Kva → Kva × ℕ
take_range n k =
    let r = freelist_alloc n k.free in
    if r.0 == 0 then bump n (record k { free = r.1 }) else (record k { free = r.1 }, r.0)

unfoldable pub give_range : Range → Kva → Kva
give_range x k = record k { free = freelist_insert x k.free }

-- `pmm_alloc_page` (0: out of memory), `pmm_free_page`, `vmm_map_page`, `vmm_unmap_page`, `vmm_phys_of`
pub record PageOps (M : Type 0) : Type 0 where
  pub alloc_page : M → M × ℕ
  pub free_page : ℕ → M → Option M
  pub map_page : ℕ → ℕ → M → Option M
  pub unmap_page : ℕ → M → Option M
  pub phys_of : ℕ → M → Option ℕ

module _ {M : Type 0} (ops : PageOps M) where
  -- A fresh page behind each of `n` pages of addresses.
  unfoldable pub map_fresh : ℕ → ℕ → M → Option M
  map_fresh zero va m = some m
  map_fresh (suc n) va m = do
    let (m', phys) = ops.alloc_page m
    m'' ← (if phys == 0 then none else ops.map_page va phys m')
    map_fresh n (u64 (va + page)) m''

  unfoldable pub map_phys : ℕ → ℕ → ℕ → M → Option M
  map_phys zero va phys m = some m
  map_phys (suc n) va phys m = do
    m' ← ops.map_page va phys m
    map_phys n (u64 (va + page)) (u64 (phys + page)) m'

  unfoldable pub unmap_free : ℕ → ℕ → M → Option M
  unmap_free zero va m = some m
  unmap_free (suc n) va m = do
    phys ← ops.phys_of va m
    m' ← ops.unmap_page va m
    m'' ← ops.free_page phys m'
    unmap_free n (u64 (va + page)) m''

  -- The state and the address, 0 for no pages.
  unfoldable pub kva_alloc_pages : ℕ → Kva → M → Option (Kva × M × ℕ)
  unfolding map_fresh
  kva_alloc_pages n k m =
      let r = take_range n k in
      let mapped = do m' ← map_fresh n r.1 m; some (r.0, m', r.1)
      in if n == 0 then some (k, m, 0) else mapped

  unfoldable pub kva_map_phys_pages : ℕ → ℕ → Kva → M → Option (Kva × M × ℕ)
  unfolding map_phys
  kva_map_phys_pages phys_base n k m =
      let r = bump n k in
      let mapped = do m' ← map_phys n r.1 phys_base m; some (r.0, m', r.1)
      in if n == 0 then some (k, m, 0) else mapped

  unfoldable pub kva_free_pages : ℕ → ℕ → Kva → M → Option (Kva × M)
  unfolding unmap_free
  kva_free_pages va n k m = do
    m' ← unmap_free n va m
    some (give_range (record { base = va; size = n }) k, m')
