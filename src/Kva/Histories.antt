-- ===== src/Kva/Histories.antt =====
-- Any sequence of `kva_alloc_pages`, `kva_map_phys_pages` and `kva_free_pages` of live ranges, as far as
-- addresses go: no address is in two live ranges.
use exec_aegis.Base.{
  ℕ, ◌+◌, ◌*◌, ◌^◌, ◌≤◌, ◌<◌, ◌≡◌, ◌≢◌, false, List, [], ◌∷◌, length, get_or, ◌==◌, if◌then◌else◌,
  u64, arith, All-get_or,
}
use exec_aegis.Ranges.{Range, no_range, remove_at}
use exec_aegis.Ranges.Cover.{
  between, cover, count, between-split, between-small, count-remove_at, count-two,
}
use exec_aegis.Ranges.Fit.{Smallest}
use exec_aegis.Ranges.Alloc.{
  InMemory, Ranges, Answer, refuses, gives, Gives, alloc_lem, Ranges-remove_at,
}
use exec_aegis.Ranges.Join.{kept, lost}
use exec_aegis.Kva.{page, kva_free_max, Kva, init, freelist_alloc, bump, take_range, give_range}
use exec_aegis.Kva.FreeList.{freelist_insert-Returned}

-- The allocator with the ranges that its callers hold.
pub record Machine : Type 0 where
  pub kva : Kva
  pub live : List Range

-- `n` pages at the address returned are live from now on.
abbrev pub hold : ℕ → List Range → Kva × ℕ → Machine
hold n live r = record { kva = r.0; live = record { base = r.1; size = n } ∷ live }

-- A call for at least one page, while the pointer does not pass the top of the address space, or the
-- release of a live range.
pub data Step : Machine → Machine → Type 0 where
  allocates :
      (k : Kva) (live : List Range) (n : ℕ)
      → 0 < n
      → k.next + n * page < 2 ^ 64
      → Step (record { kva = k; live = live }) (hold n live (take_range n k))
  maps_phys :
      (k : Kva) (live : List Range) (n : ℕ)
      → 0 < n
      → k.next + n * page < 2 ^ 64
      → Step (record { kva = k; live = live }) (hold n live (bump n k))
  frees :
      (k : Kva) (live : List Range) (i : ℕ)
      → i < length live
      → Step
          (record { kva = k; live = live })
          (record { kva = give_range (get_or live i no_range) k; live = remove_at live i })

pub data Reachable (kva_base : ℕ) : Machine → Type 0 where
  start : Reachable kva_base (record { kva = init kva_base; live = [] })
  next_step : {m m' : Machine} → Reachable kva_base m → Step m m' → Reachable kva_base m'

-- No address is in two ranges, free or live, and all ranges are between the base and the pointer.
pub record IsValid (kva_base : ℕ) (m : Machine) : Type 0 where
  pub once : (a : ℕ) → count page m.kva.free a + count page m.live a ≤ between kva_base m.kva.next a
  pub free_in_memory : Ranges page m.kva.free
  pub live_in_memory : Ranges page m.live
  pub room : length m.kva.free ≤ kva_free_max
  pub above : kva_base ≤ m.kva.next
  pub below_top : m.kva.next < 2 ^ 64

module _ (kva_base : ℕ) (pos : 0 < kva_base) (k : Kva) (live : List Range)
    (v : IsValid kva_base (record { kva = k; live = live })) where
  bump-IsValid : (n : ℕ) → k.next + n * page < 2 ^ 64 → IsValid kva_base (hold n live (bump n k))
  unfolding bump count
  bump-IsValid n fits =
      let moved : u64 (k.next + n * page) ≡ k.next + n * page = omega arith in
      rw moved (record {
        once = λ a. omega (
          arith,
          v.once a,
          between-split kva_base k.next (k.next + n * page) a v.above (omega arith),
        );
        free_in_memory = v.free_in_memory;
        live_in_memory =
            (record { not_null = omega (arith, v.above); below_top = fits }, v.live_in_memory);
        room = v.room;
        above = omega (arith, v.above);
        below_top = fits;
      })

  given-IsValid :
      (n i : ℕ) (r : ℕ × List Range)
      → Smallest n k.free i
      → Gives page n k.free i r
      → IsValid kva_base (hold n live (record k { free = r.1 }, r.0))
  unfolding count
  given-IsValid n i r b g =
      let m = All-get_or (λ e. InMemory page e) k.free i no_range b.in_use v.free_in_memory in
      record {
        once = λ a. omega (arith, v.once a, g.rest a);
        free_in_memory = g.in_memory;
        live_in_memory = (
          record {
            not_null = omega (arith, g.address, m.not_null);
            below_top = omega (arith, g.address, b.enough, m.below_top);
          },
          v.live_in_memory,
        );
        room = omega (arith, v.room, g.not_longer);
        above = v.above;
        below_top = v.below_top;
      }

  take_range-IsValid :
      (n : ℕ) → k.next + n * page < 2 ^ 64 → IsValid kva_base (hold n live (take_range n k))
  unfolding take_range freelist_alloc
  take_range-IsValid n fits =
      from_answer (freelist_alloc n k.free) (alloc_lem page n k.free (omega arith) v.free_in_memory)
    where
      from_answer :
          (r : ℕ × List Range)
          → Answer page n k.free r
          → IsValid kva_base (
              hold n live (
                if r.0 == 0
                then bump n (record k { free = r.1 })
                else (record k { free = r.1 }, r.0)))
      from_answer r (refuses h) = bump-IsValid n fits
      from_answer r (gives i b g) =
          let m = All-get_or (λ e. InMemory page e) k.free i no_range b.in_use v.free_in_memory in
          let test : (r.0 == 0) ≡ false = ground (arith, g.address, m.not_null) in
          rw test (given-IsValid n i r b g)

  give_range-IsValid :
      (i : ℕ)
      → i < length live
      → IsValid kva_base
          (record { kva = give_range (get_or live i no_range) k; live = remove_at live i })
  unfolding give_range
  give_range-IsValid i lt =
      let x = get_or live i no_range in
      let mx = All-get_or (λ e. InMemory page e) live i no_range lt v.live_in_memory in
      elim (freelist_insert-Returned x k.free mx v.free_in_memory v.room) [
        | kept same ms le ↦ record {
          once = λ a. omega (arith, v.once a, same a, count-remove_at page a live i lt);
          free_in_memory = ms;
          live_in_memory = Ranges-remove_at page live i lt v.live_in_memory;
          room = le;
          above = v.above;
          below_top = v.below_top;
        }
        | lost eq le ↦ rw eq (record {
          once = λ a. omega (arith, v.once a, count-remove_at page a live i lt);
          free_in_memory = v.free_in_memory;
          live_in_memory = Ranges-remove_at page live i lt v.live_in_memory;
          room = v.room;
          above = v.above;
          below_top = v.below_top;
        })
      ]

Step-IsValid :
    (kva_base : ℕ)
    → 0 < kva_base
    → {m m' : Machine} → Step m m'
    → IsValid kva_base m
    → IsValid kva_base m'
Step-IsValid kva_base pos (allocates k live n some_pages fits) v =
    take_range-IsValid kva_base pos k live v n fits
Step-IsValid kva_base pos (maps_phys k live n some_pages fits) v =
    bump-IsValid kva_base pos k live v n fits
Step-IsValid kva_base pos (frees k live i lt) v = give_range-IsValid kva_base pos k live v i lt

pub Reachable-IsValid :
    (kva_base : ℕ)
    → 0 < kva_base
    → kva_base < 2 ^ 64
    → {m : Machine} → Reachable kva_base m
    → IsValid kva_base m
unfolding init count
Reachable-IsValid kva_base pos top start = record {
  once = λ a. omega arith;
  free_in_memory = tt;
  live_in_memory = tt;
  room = omega arith;
  above = omega arith;
  below_top = top;
}
Reachable-IsValid kva_base pos top (next_step r s) =
    Step-IsValid kva_base pos s (Reachable-IsValid kva_base pos top r)

-- Starting from `kva_init` with a base address that is not 0, after any sequence of `kva_alloc_pages`
-- and `kva_map_phys_pages` calls for at least one page and `kva_free_pages` calls for live ranges, as
-- long as the pointer stays below 2^64, two different live ranges have no address in common. No address
-- is in more than one range of the free list and the live ranges together, all of which lie between the
-- base and the pointer, and the free list has at most 128 entries.
pub live_disjoint :
    (kva_base : ℕ) (m : Machine)
    → 0 < kva_base
    → kva_base < 2 ^ 64
    → Reachable kva_base m
    → ((i j a : ℕ)
        → i < length m.live
        → j < length m.live
        → i ≢ j
        → cover page (get_or m.live i no_range) a + cover page (get_or m.live j no_range) a ≤ 1)
      × IsValid kva_base m
live_disjoint kva_base m pos top r =
    let v = Reachable-IsValid kva_base pos top r in
    (
      λ i j a h k ne. omega (
        arith,
        count-two page a m.live i j h k ne,
        v.once a,
        between-small kva_base m.kva.next a,
      ),
      v,
    )
