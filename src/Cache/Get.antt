-- ===== src/Cache/Get.antt =====
-- `cache_get_slot` of kernel/fs/ext2_cache.c, and the writes that its callers make.
use exec_aegis.Base.{ℕ, ◌+◌, ◌<◌, ◌≡◌, refl, ◌∙◌, true, false, Option, none, some, ◌^◌}
use exec_aegis.Cache.{
  cache_slots, Cache, Device, cache_find, write_back, cache_evict, touch, fill, cache_get_slot,
  pick,
}
use exec_aegis.Cache.Find.{caches, Search, cache_find-Search, view, IsValid}
use exec_aegis.Cache.Touch.{Gets, touch-Gets}
use exec_aegis.Cache.Fill.{filled-Gets}
use exec_aegis.Cache.Sync.{write_back-Flushes}
use exec_aegis.Cache.Evict.{evicted-bound}

-- What a call for a block returns if the device works.
pub record Returns (block : ℕ) (c : Cache) (r : Cache × Option ℕ) : Type 0 where
  pub slot : ℕ
  pub returned : r.1 ≡ some slot
  pub gets : Gets block c r.0 slot

fill-Returns :
    (dev : Device) (block i : ℕ) (c : Cache)
    → IsValid c
    → c.age + 1 < 2 ^ 32
    → i < cache_slots
    → (c.slots i).dirty ≡ false
    → ((j : ℕ) → j < cache_slots → caches block (c.slots j) ≡ false)
    → dev.reads block ≡ true
    → Returns block c (fill dev block i c)
unfolding fill
fill-Returns dev block i c v age lt taken absent works =
    rw (fill, works)
      (record { slot = i; returned = refl; gets = filled-Gets c i v age lt taken block absent })

Returns-after :
    (block : ℕ) (c d : Cache) (r : Cache × Option ℕ)
    → ((b : ℕ) → view d b ≡ view c b)
    → Returns block d r
    → Returns block c r
Returns-after block c d r same g = record {
  slot = g.slot;
  returned = g.returned;
  gets = record {
    valid = g.gets.valid;
    views = λ b. g.gets.views b ∙ same b;
    bound = g.gets.bound;
    held = g.gets.held;
    bytes = g.gets.bytes ∙ same block;
  };
}

miss-Returns :
    (dev : Device) (block : ℕ) (c : Cache)
    → IsValid c
    → c.age + 1 < 2 ^ 32
    → ((j : ℕ) → j < cache_slots → caches block (c.slots j) ≡ false)
    → ((b : ℕ) → dev.writes b ≡ true)
    → dev.reads block ≡ true
    → Returns block c (fill dev block (cache_evict dev c).1 (cache_evict dev c).0)
unfolding cache_evict
miss-Returns dev block c v age absent writes works =
    let i = pick 15 1 0 c.slots in
    let lt : i < cache_slots = evicted-bound dev c in
    let one = write_back-Flushes dev i c v lt (writes (c.slots i).block_num) in
    let d = write_back dev i c in
    let young : d.age + 1 < 2 ^ 32 = rw one.aged age in
    let gone = λ (j : ℕ) (l : j < cache_slots). one.keeps.held j block ∙ absent j l in
    Returns-after block c d (fill dev block i d) one.keeps.views
      (fill-Returns dev block i d one.keeps.valid young lt one.cleaned gone works)

-- In a valid cache, if the device's writes and its read of the block work and the age counter does not wrap,
-- cache_get_slot returns a slot that holds what the
-- cache says of the block, from the disk or not yet there. What it says of every block is kept, with
-- the cache's validity, whatever is evicted.
pub cache_get_slot-Returns :
    (dev : Device) (block : ℕ) (c : Cache)
    → IsValid c
    → c.age + 1 < 2 ^ 32
    → ((b : ℕ) → dev.writes b ≡ true)
    → dev.reads block ≡ true
    → Returns block c (cache_get_slot dev block c)
unfolding cache_get_slot
cache_get_slot-Returns dev block c v age writes works =
    from_search (cache_find c.slots block) (cache_find-Search c.slots block)
  where
    from_search :
        (r : Option ℕ)
        → Search c.slots block r
        → Returns block c (elim r [
          | some i ↦ (touch i c, some i)
          | none ↦ fill dev block (cache_evict dev c).1 (cache_evict dev c).0
        ])
    from_search r (Search.hit i l t) = record {
      slot = i;
      returned = refl;
      gets = touch-Gets c i v age block l t;
    }
    from_search r (Search.miss f) = miss-Returns dev block c v age f writes works
