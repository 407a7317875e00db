-- ===== src/Ranges.antt =====
-- The free lists of kernel/mm/kva.c and kernel/syscall/sys_memory.c: arrays of address ranges, of which
-- the first few slots are in use, as lists. The kernel's list counts a range's size in pages and a
-- process's list in bytes: `u` is the bytes in one unit of size. The two files have the search and the
-- removal in common; addresses are `uint64_t` and wrap.
pub mod Cover
pub mod Fit
pub mod Alloc
pub mod Join
mod Tests
use exec_aegis.Base.{
  ℕ, zero, suc, ◌+◌, ◌-◌, ◌*◌, ◌^◌, Bool, not, ◌&&◌, Option, none, some, List, [], ◌∷◌, ◌++◌,
  length, take, get_or, set, ltb, leb, ◌==◌, if◌then◌else◌, u64,
}

-- `kva_free_t`, `mmap_free_t`
pub record Range : Type 0 where
  pub base : ℕ
  pub size : ℕ

-- What a slot holds that is not in use.
abbrev pub no_range : Range
no_range = record { base = 0; size = 0 }

-- `(uint64_t)-1`
abbrev pub max_u64 : ℕ
max_u64 = 2 ^ 64 - 1

-- The best-fit loop over the slots from `i` on: the best slot so far and its size. An exact fit ends it.
unfoldable pub best_fit : ℕ → List Range → ℕ → Option ℕ → ℕ → Option ℕ
best_fit n [] i best best_size = best
best_fit n (e ∷ es) i best best_size =
    let fits = leb n e.size && ltb e.size best_size in
    let later =
      best_fit n es (suc i) (if fits then some i else best) (if fits then e.size else best_size) in
    if fits && e.size == n then some i else later

-- `free[i] = free[--count]`
unfoldable pub remove_at : List Range → ℕ → List Range
remove_at fs i = take (length fs - 1) (set fs i (get_or fs (length fs - 1) no_range))

-- The range found is removed where it fits exactly, and loses its first `n` units where it does not.
unfoldable pub take_from : ℕ → ℕ → ℕ → List Range → ℕ × List Range
take_from u n i fs =
    let e = get_or fs i no_range in
    if e.size == n
    then (e.base, remove_at fs i)
    else (e.base, set fs i (record { base = u64 (e.base + n * u); size = e.size - n }))

-- The address of a range of `n` units, 0 if there is none, and the list left.
unfoldable pub alloc : ℕ → ℕ → List Range → ℕ × List Range
alloc u n fs = elim (best_fit n fs 0 none max_u64) [ none ↦ (0, fs) | some i ↦ take_from u n i fs ]

-- The first address after a range.
abbrev pub end_of : ℕ → Range → ℕ
end_of u e = u64 (e.base + e.size * u)

-- The loop from slot `j` on for a range that begins where slot `i`, which is now `m`, ends: it is merged
-- into slot `i` and its own slot removed.
unfoldable pub absorb_next : ℕ → List Range → ℕ → ℕ → Range → List Range → List Range
absorb_next u [] j i m fs = fs
absorb_next u (e ∷ es) j i m fs =
    let later = absorb_next u es (suc j) i m fs in
    if not (j == i) && e.base == end_of u m
    then remove_at (set fs i (record m { size = u64 (m.size + e.size) })) j
    else later

-- The range `[base, base + size)` follows slot `i`, whose range is `e`.
unfoldable pub extend_back : ℕ → ℕ → Range → ℕ → List Range → List Range
extend_back u i e size fs =
    let m = record e { size = u64 (e.size + size) } in absorb_next u (set fs i m) 0 i m (set fs i m)

-- A new slot, if there are fewer than `room`; else the range is lost.
unfoldable pub append_range : ℕ → Range → List Range → List Range
append_range room e fs = if ltb (length fs) room then fs ++ (e ∷ []) else fs
