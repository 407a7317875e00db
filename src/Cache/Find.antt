-- ===== src/Cache/Find.antt =====
-- The search of kernel/fs/ext2_cache.c, and what a cache with a disk stands for.
use exec_aegis.Base.{
  ℕ, zero, suc, ◌+◌, ◌≤◌, ◌<◌, ◌≡◌, refl, ap, Bool, true, false, ◌&&◌, not, Option, none, some,
  arith, ◌==◌, Bool-cases, inl, inr,
}
use native.Mathlib.Decide.{ℕ_discrete}
use exec_aegis.Cache.{cache_slots, Block, Slot, Cache, find_from, cache_find}

-- A slot holds a block.
unfoldable pub caches : ℕ → Slot → Bool
caches block s = s.block_num == block && not (s.age == 0)

-- What the search found among the slots from `i`: the first that holds the block, or none that does.
data Found (left i : ℕ) (slots : ℕ → Slot) (block : ℕ) : Option ℕ → Type 0 where
  at :
      (j : ℕ)
      → i ≤ j
      → j < i + left
      → caches block (slots j) ≡ true
      → Found left i slots block (some j)
  nowhere :
      ((j : ℕ) → i ≤ j → j < i + left → caches block (slots j) ≡ false)
      → Found left i slots block none

find_from-Found :
    (left i : ℕ) (slots : ℕ → Slot) (block : ℕ)
    → Found left i slots block (find_from left i slots block)
unfolding find_from caches
find_from-Found zero i slots block = Found.nowhere (λ j h l. absurd (omega arith))
find_from-Found (suc left) i slots block =
    elim (Bool-cases ((slots i).block_num == block && not ((slots i).age == 0))) [
      | inl here ↦ rw here (Found.at i (omega arith) (omega arith) here)
      | inr no_ ↦ rw no_ (
          later no_ (find_from left (i + 1) slots block) (find_from-Found left (i + 1) slots block))
    ]
  where
    later :
        caches block (slots i) ≡ false
        → (r : Option ℕ) → Found left (i + 1) slots block r
        → Found (suc left) i slots block r
    later no_ r (Found.at j h l t) = Found.at j (omega arith) (omega arith) t
    later no_ r (Found.nowhere f) = Found.nowhere (λ j h l. elim (ℕ_discrete j i) [
      | yes q ↦ rw q no_
      | no q ↦ f j (omega arith) (omega arith)
    ])

-- The search depends on the blocks that the slots hold only.
find_from_cong :
    (left i : ℕ) (s t : ℕ → Slot) (block : ℕ)
    → ((j : ℕ) → caches block (s j) ≡ caches block (t j))
    → find_from left i s block ≡ find_from left i t block
unfolding find_from caches
find_from_cong zero i s t block same = refl
find_from_cong (suc left) i s t block same =
    let ih = find_from_cong left (i + 1) s t block same in
    let here = same i in ground (arith, ih, here)

pub cache_find_cong :
    (s t : ℕ → Slot) (block : ℕ)
    → ((j : ℕ) → caches block (s j) ≡ caches block (t j))
    → cache_find s block ≡ cache_find t block
unfolding cache_find
cache_find_cong s t block same = find_from_cong cache_slots 0 s t block same

pub data Search (slots : ℕ → Slot) (block : ℕ) : Option ℕ → Type 0 where
  hit : (j : ℕ) → j < cache_slots → caches block (slots j) ≡ true → Search slots block (some j)
  miss : ((j : ℕ) → j < cache_slots → caches block (slots j) ≡ false) → Search slots block none

pub cache_find-Search : (slots : ℕ → Slot) (block : ℕ) → Search slots block (cache_find slots block)
unfolding cache_find
cache_find-Search slots block =
    from_found (find_from cache_slots 0 slots block) (find_from-Found cache_slots 0 slots block)
  where
    from_found : (r : Option ℕ) → Found cache_slots 0 slots block r → Search slots block r
    from_found r (Found.at j h l t) = Search.hit j (omega arith) t
    from_found r (Found.nowhere f) = Search.miss (λ j l. f j (omega arith) (omega arith))

-- What the cache and the disk say that a block holds.
unfoldable pub view : Cache → ℕ → Block
view c block = elim (cache_find c.slots block) [ none ↦ c.disk block | some i ↦ (c.slots i).bytes ]

-- No block is cached twice, a clean slot agrees with the disk, a dirty one is in use and not block 0's.
pub record IsValid (c : Cache) : Type 0 where
  pub unique :
      (i j block : ℕ)
      → i < cache_slots
      → j < cache_slots
      → caches block (c.slots i) ≡ true
      → caches block (c.slots j) ≡ true
      → i ≡ j
  pub clean :
      (i : ℕ)
      → i < cache_slots
      → ((c.slots i).age == 0) ≡ false
      → (c.slots i).dirty ≡ false
      → (c.slots i).bytes ≡ c.disk (c.slots i).block_num
  pub dirty :
      (i : ℕ)
      → i < cache_slots
      → (c.slots i).dirty ≡ true
      → (((c.slots i).age == 0) ≡ false) × (((c.slots i).block_num == 0) ≡ false)

pub view-hit :
    (c : Cache) (i block : ℕ)
    → IsValid c
    → i < cache_slots
    → caches block (c.slots i) ≡ true
    → view c block ≡ (c.slots i).bytes
unfolding view
view-hit c i block v lt t = from_search (cache_find c.slots block) (cache_find-Search c.slots block)
  where
    from_search :
        (r : Option ℕ)
        → Search c.slots block r
        → elim r [ none ↦ c.disk block | some j ↦ (c.slots j).bytes ] ≡ (c.slots i).bytes
    from_search r (Search.hit j l u) = ap (λ n. (c.slots n).bytes) (v.unique j i block l lt u t)
    from_search r (Search.miss f) = absurd (cc (t, f i lt))

pub view-miss :
    (c : Cache) (block : ℕ)
    → ((j : ℕ) → j < cache_slots → caches block (c.slots j) ≡ false)
    → view c block ≡ c.disk block
unfolding view
view-miss c block f = from_search (cache_find c.slots block) (cache_find-Search c.slots block)
  where
    from_search :
        (r : Option ℕ)
        → Search c.slots block r
        → elim r [ none ↦ c.disk block | some j ↦ (c.slots j).bytes ] ≡ c.disk block
    from_search r (Search.hit j l u) = absurd (cc (u, f j l))
    from_search r (Search.miss g) = refl
