-- ===== src/Cache/Failed.antt =====
-- A failed read in kernel/fs/ext2_cache.c.
use exec_aegis.Base.{
  ℕ, ◌+◌, ◌<◌, ◌≡◌, ◌≢◌, refl, ap, ◌∙◌, true, false, Option, none, some, arith, ◌^◌,
}
use native.Mathlib.Decide.{ℕ_discrete}
use exec_aegis.Cache.{
  cache_slots, Slot, Cache, Device, update, cache_find, write_back, cache_evict, touch, fill,
  cache_get_slot,
}
use exec_aegis.Cache.Find.{caches, Search, cache_find-Search}
use exec_aegis.Cache.Evict.{evicted-bound}

write_back-bytes :
    (dev : Device) (i : ℕ) (c : Cache) → ((write_back dev i c).slots i).bytes ≡ (c.slots i).bytes
unfolding write_back update
write_back-bytes dev i c = ground arith

write_back-age : (dev : Device) (i : ℕ) (c : Cache) → (write_back dev i c).age ≡ c.age
unfolding write_back
write_back-age dev i c = ground arith

write_back-caches :
    (dev : Device) (i : ℕ) (c : Cache) (j block : ℕ)
    → caches block ((write_back dev i c).slots j) ≡ caches block (c.slots j)
unfolding write_back update caches
write_back-caches dev i c j block = elim (ℕ_discrete j i) [
  | yes q ↦ rw q (ground arith)
  | no q ↦ ground (arith, q)
]

-- The only slot that caches a block is found.
found_only :
    (slots : ℕ → Slot) (block i : ℕ)
    → i < cache_slots
    → caches block (slots i) ≡ true
    → ((j : ℕ) → j < cache_slots → j ≢ i → caches block (slots j) ≡ false)
    → cache_find slots block ≡ some i
found_only slots block i lt t only =
    from_search (cache_find slots block) (cache_find-Search slots block)
  where
    from_search : (r : Option ℕ) → Search slots block r → r ≡ some i
    from_search r (Search.hit j l u) = elim (ℕ_discrete j i) [
      | yes e ↦ ap some e
      | no e ↦ absurd (cc (u, only j l e))
    ]
    from_search r (Search.miss f) = absurd (cc (t, f i lt))

-- A read that fails fills the slot with a block that was not read.
module _ (dev : Device) (block i : ℕ) (d : Cache) (lt : i < cache_slots) (age : d.age + 1 < 2 ^ 32)
    (fails : dev.reads block ≡ false)
    (absent : (j : ℕ) → j < cache_slots → caches block (d.slots j) ≡ false) where
  abbrev spoiled : Cache
  spoiled = (fill dev block i d).0

  spoiled-here :
      (caches block (spoiled.slots i) ≡ true)
      × ((spoiled.slots i).bytes ≡ (d.slots i).bytes)
      × ((fill dev block i d).1 ≡ none)
  unfolding fill update caches
  spoiled-here = (ground (arith, fails), ground (arith, fails), ground (arith, fails))

  spoiled-rest : (j : ℕ) → j < cache_slots → j ≢ i → caches block (spoiled.slots j) ≡ false
  unfolding fill update caches
  spoiled-rest j l ne = let h = absent j l in ground (arith, ne, h)

  spoiled-found : cache_find spoiled.slots block ≡ some i
  spoiled-found = found_only spoiled.slots block i lt spoiled-here.0 spoiled-rest

touch-bytes : (i : ℕ) (c : Cache) → ((touch i c).slots i).bytes ≡ (c.slots i).bytes
unfolding touch update
touch-bytes i c = ground arith

get_again :
    (dev : Device) (block i : ℕ) (c : Cache)
    → cache_find c.slots block ≡ some i
    → cache_get_slot dev block c ≡ (touch i c, some i)
unfolding cache_get_slot
get_again dev block i c found = rw (cache_get_slot, found) refl

get_absent :
    (dev : Device) (block : ℕ) (c : Cache)
    → ((j : ℕ) → j < cache_slots → caches block (c.slots j) ≡ false)
    → cache_get_slot dev block c
      ≡ fill dev block (cache_evict dev c).1 (write_back dev (cache_evict dev c).1 c)
unfolding cache_get_slot cache_evict
get_absent dev block c absent =
    let miss_ : cache_find c.slots block ≡ none =
      from_search (cache_find c.slots block) (cache_find-Search c.slots block) in
    rw (cache_get_slot, miss_) refl
  where
    from_search : (r : Option ℕ) → Search c.slots block r → r ≡ none
    from_search r (Search.hit j l u) = absurd (cc (u, absent j l))
    from_search r (Search.miss f) = refl

-- If the read of a block that no slot holds fails, and the age counter does not wrap, cache_get_slot returns an
-- error, but the slot it evicted is left as the block's: the next
-- call for the block, on any device, reads nothing and returns the bytes of the block evicted.
pub failed_read_cached :
    (dev retry : Device) (block : ℕ) (c : Cache)
    → c.age + 1 < 2 ^ 32
    → dev.reads block ≡ false
    → ((j : ℕ) → j < cache_slots → caches block (c.slots j) ≡ false)
    → let first = cache_get_slot dev block c in
      let second = cache_get_slot retry block first.0 in
      let victim = (cache_evict dev c).1 in
      (first.1 ≡ none)
      × (second.1 ≡ some victim)
      × ((second.0.slots victim).bytes ≡ (c.slots victim).bytes)
failed_read_cached dev retry block c age fails absent =
    let i = (cache_evict dev c).1 in
    let d = write_back dev i c in
    let lt = evicted-bound dev c in
    let young : d.age + 1 < 2 ^ 32 = rw (write_back-age dev i c) age in
    let gone = λ (j : ℕ) (l : j < cache_slots). write_back-caches dev i c j block ∙ absent j l in
    let here = spoiled-here dev block i d lt young fails gone in
    let found = spoiled-found dev block i d lt young fails gone in
    let e = (fill dev block i d).0 in
    rw (get_absent dev block c absent, get_again retry block i e found)
      (here.2, refl, touch-bytes i e ∙ here.1 ∙ write_back-bytes dev i c)
