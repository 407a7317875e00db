-- ===== src/Kva/Tests.antt =====
-- Runs of kernel/mm/kva.c from the base address of x86-64, with pages that are a function.
use exec_aegis.Base.{ℕ, ◌+◌, ◌*◌, ◌≢◌, ◌≤◌, ◌<◌, [], ◌∷◌, get_or, arith}
use exec_aegis.Ranges.{Range, no_range, alloc, best_fit, remove_at, append_range, take_from}
use exec_aegis.Ranges.Cover.{cover}
use exec_aegis.Kva.{
  page, init, take_range, give_range, freelist_alloc, bump, freelist_insert, insert_loop,
}
use exec_aegis.Kva.{freelist_insert}
use exec_aegis.Kva.Histories.{
  Machine, Reachable, start, next_step, allocates, maps_phys, frees, IsValid, live_disjoint,
}

abbrev kva_base : ℕ
kva_base = 18446744071570456576

abbrev range : ℕ → ℕ → Range
range first pages = record { base = kva_base + first * page; size = pages }

-- Two pages, then one of a device, then one; the two are released, and one page is taken from them.
abbrev busy : Machine
busy = record {
  kva = record { next = kva_base + 4 * page; free = range 1 1 ∷ [] };
  live = range 0 1 ∷ range 3 1 ∷ range 2 1 ∷ [];
}

history : Reachable kva_base busy
unfolding init take_range freelist_alloc alloc best_fit bump give_range remove_at freelist_insert
    insert_loop append_range take_from
history =
    next_step
      (next_step
        (next_step
          (next_step (next_step start (allocates (init kva_base) [] 2 (omega arith) (omega arith)))
            (maps_phys (record { next = kva_base + 2 * page; free = [] }) (range 0 2 ∷ []) 1
              (omega arith) (omega arith)))
          (allocates (record { next = kva_base + 3 * page; free = [] }) (range 2 1 ∷ range 0 2 ∷ [])
            1 (omega arith) (omega arith)))
        (frees (record { next = kva_base + 4 * page; free = [] })
          (range 3 1 ∷ range 2 1 ∷ range 0 2 ∷ []) 2 (omega arith)))
      (allocates (record { next = kva_base + 4 * page; free = range 0 2 ∷ [] })
        (range 3 1 ∷ range 2 1 ∷ []) 1 (omega arith) (omega arith))

live_disjoint_example :
    ((i j a : ℕ)
      → i < 3
      → j < 3
      → i ≢ j
      → cover page (get_or busy.live i no_range) a + cover page (get_or busy.live j no_range) a ≤ 1)
    × IsValid kva_base busy
live_disjoint_example = live_disjoint kva_base busy (omega arith) (omega arith) history
