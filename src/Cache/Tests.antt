-- ===== src/Cache/Tests.antt =====
-- The block cache of kernel/fs/ext2_cache.c at concrete states, and its theorems there.
use exec_aegis.Base.{
  ℕ, ◌+◌, ◌<◌, ◌≡◌, ◌≢◌, refl, true, false, none, some, [], ◌∷◌, arith, ◌==◌, if◌then◌else◌,
}
use exec_aegis.Cache.{
  cache_slots, Cache, Device, cache_get_slot, cache_evict, write_block, ext2_sync,
}
use exec_aegis.Cache.Find.{caches, view, IsValid}
use exec_aegis.Cache.Write.{write_block-view}
use exec_aegis.Cache.Sync.{ext2_sync-disk}
use exec_aegis.Cache.Failed.{failed_read_cached}

-- Sixteen slots with blocks 1 to 16, the first one changed; the disk's block n holds n.
abbrev cache : Cache
cache = record {
  slots = λ i. record {
    block_num = i + 1;
    dirty = i == 0;
    age = i + 1;
    bytes = if i == 0 then 77 ∷ [] else (i + 1) ∷ [];
  };
  age = 16;
  disk = λ b. b ∷ [];
}

cache-IsValid : IsValid cache
unfolding caches
cache-IsValid = record {
  unique = λ i j b l m t u. ground (arith, t, u);
  clean = λ i l t u. ground (arith, t, u);
  dirty = λ i l t. ground (arith, t);
}

abbrev works : Device
works = record { writes = λ b. true; reads = λ b. true }

abbrev broken : Device
broken = record { writes = λ b. true; reads = λ b. false }

write_block-view_example :
    let r = write_block works 20 (5 ∷ []) cache in
    (r.1 ≡ true)
    × IsValid r.0
    × (view r.0 20 ≡ 5 ∷ [])
    × ((b : ℕ) → b ≢ 20 → view r.0 b ≡ view cache b)
write_block-view_example =
    write_block-view works 20 (5 ∷ []) cache cache-IsValid (omega arith) refl (λ b. refl) refl

ext2_sync-disk_example :
    IsValid (ext2_sync true works cache)
    × ((block : ℕ)
        → ((ext2_sync true works cache).disk block ≡ view cache block)
          × (view (ext2_sync true works cache) block ≡ view cache block))
    × ((i : ℕ) → i < cache_slots → ((ext2_sync true works cache).slots i).dirty ≡ false)
ext2_sync-disk_example = ext2_sync-disk works cache cache-IsValid (λ b. refl)

failed_read_cached_example :
    let first = cache_get_slot broken 20 cache in
    let second = cache_get_slot works 20 first.0 in
    let victim = (cache_evict broken cache).1 in
    (first.1 ≡ none)
    × (second.1 ≡ some victim)
    × ((second.0.slots victim).bytes ≡ (cache.slots victim).bytes)
unfolding caches
failed_read_cached_example =
    failed_read_cached broken works 20 cache (omega arith) refl (λ j l. ground arith)
