-- ===== src/Cache/Sync.antt =====
-- Write backs, and `ext2_sync`, of kernel/fs/ext2_cache.c.
use exec_aegis.Base.{
  ℕ, zero, suc, ◌+◌, ◌≤◌, ◌<◌, ◌≡◌, refl, sym, ap, ◌∙◌, true, false, Option, arith, ◌==◌,
  Bool-cases, inl, inr,
}
use native.Mathlib.Decide.{ℕ_discrete}
use exec_aegis.Cache.{
  cache_slots, Cache, Device, update, cache_find, write_back, sync_from, ext2_sync,
}
use exec_aegis.Cache.Find.{Search, cache_find-Search, view, IsValid, view-hit, view-miss}
use exec_aegis.Cache.Coherent.{Keeps, flushed, flushed-Keeps, caches-block, caches-live}

pub Keeps-refl : (c : Cache) → IsValid c → Keeps c c
Keeps-refl c v = record { valid = v; views = λ block. refl; held = λ j block. refl }

pub Keeps-trans : (a b c : Cache) → Keeps a b → Keeps b c → Keeps a c
Keeps-trans a b c p q = record {
  valid = q.valid;
  views = λ block. q.views block ∙ p.views block;
  held = λ j block. q.held j block ∙ p.held j block;
}

-- A write that works.
pub write_back-flushed :
    (dev : Device) (i : ℕ) (c : Cache) (v : IsValid c) (lt : i < cache_slots)
    → dev.writes (c.slots i).block_num ≡ true
    → ((c.slots i).block_num == 0) ≡ false
    → (c.slots i).dirty ≡ true
    → write_back dev i c ≡ flushed c i v lt
unfolding write_back
write_back-flushed dev i c v lt works block dirty = rw (write_back, dirty, block, works) refl

pub write_back-same :
    (dev : Device) (i : ℕ) (c : Cache) → (c.slots i).dirty ≡ false → write_back dev i c ≡ c
unfolding write_back
write_back-same dev i c clean = rw (write_back, clean) refl

-- What one write back does: it keeps the view, cleans the slot and makes none dirty.
pub record Flushes (i : ℕ) (c d : Cache) : Type 0 where
  pub keeps : Keeps c d
  pub cleaned : (d.slots i).dirty ≡ false
  pub rest : (j : ℕ) → (c.slots j).dirty ≡ false → (d.slots j).dirty ≡ false
  pub aged : d.age ≡ c.age

pub write_back-Flushes :
    (dev : Device) (i : ℕ) (c : Cache)
    → IsValid c
    → i < cache_slots
    → dev.writes (c.slots i).block_num ≡ true
    → Flushes i c (write_back dev i c)
unfolding update
write_back-Flushes dev i c v lt works = elim (Bool-cases (c.slots i).dirty) [
  | inr clean ↦
      rw (write_back-same dev i c clean)
        (record { keeps = Keeps-refl c v; cleaned = clean; rest = λ j t. t; aged = refl })
  | inl dirty ↦ rw (write_back-flushed dev i c v lt works (v.dirty i lt dirty).1 dirty) (record {
    keeps = flushed-Keeps c i v lt dirty;
    cleaned = ground arith;
    rest = λ j t. ground (arith, t);
    aged = refl;
  })
]

-- What the loop has done to the slots from `i` up to `i + left`.
record Synced (left i : ℕ) (c d : Cache) : Type 0 where
  keeps : Keeps c d
  cleaned : (j : ℕ) → i ≤ j → j < i + left → (d.slots j).dirty ≡ false
  rest : (j : ℕ) → (c.slots j).dirty ≡ false → (d.slots j).dirty ≡ false

sync_from-Synced :
    (left i : ℕ) (dev : Device) (c : Cache)
    → IsValid c
    → i + left ≤ cache_slots
    → ((b : ℕ) → dev.writes b ≡ true)
    → Synced left i c (sync_from left i dev c)
unfolding sync_from
sync_from-Synced zero i dev c v le works = record {
  keeps = Keeps-refl c v;
  cleaned = λ j h l. absurd (omega arith);
  rest = λ j t. t;
}
sync_from-Synced (suc left) i dev c v le works =
    let one = write_back-Flushes dev i c v (omega arith) (works (c.slots i).block_num) in
    let d = write_back dev i c in
    let ih = sync_from-Synced left (i + 1) dev d one.keeps.valid (omega arith) works in
    record {
      keeps = Keeps-trans c d (sync_from left (i + 1) dev d) one.keeps ih.keeps;
      cleaned = λ j h l. elim (ℕ_discrete j i) [
        | yes q ↦ ih.rest j (rw q one.cleaned)
        | no q ↦ ih.cleaned j (omega arith) (omega arith)
      ];
      rest = λ j t. ih.rest j (one.rest j t);
    }

-- With every slot clean the disk holds what the cache says.
all_clean-view :
    (c : Cache) (block : ℕ)
    → IsValid c
    → ((j : ℕ) → j < cache_slots → (c.slots j).dirty ≡ false)
    → c.disk block ≡ view c block
all_clean-view c block v clean =
    from_search (cache_find c.slots block) (cache_find-Search c.slots block)
  where
    from_search : (r : Option ℕ) → Search c.slots block r → c.disk block ≡ view c block
    from_search r (Search.miss f) = sym (view-miss c block f)
    from_search r (Search.hit j l t) =
        let agrees = v.clean j l (caches-live (c.slots j) block t) (clean j l) in
        sym (view-hit c j block v l t ∙ agrees ∙ ap c.disk (caches-block (c.slots j) block t))

-- In a valid cache whose device's writes work, after ext2_sync the disk holds every block as the cache said before,
-- no slot is dirty, and what the cache says has not changed.
pub ext2_sync-disk :
    (dev : Device) (c : Cache)
    → IsValid c
    → ((b : ℕ) → dev.writes b ≡ true)
    → IsValid (ext2_sync true dev c)
      × ((block : ℕ)
          → ((ext2_sync true dev c).disk block ≡ view c block)
            × (view (ext2_sync true dev c) block ≡ view c block))
      × ((i : ℕ) → i < cache_slots → ((ext2_sync true dev c).slots i).dirty ≡ false)
unfolding ext2_sync
ext2_sync-disk dev c v works =
    let s = sync_from-Synced cache_slots 0 dev c v (omega arith) works in
    let d = sync_from cache_slots 0 dev c in
    let clean = λ (j : ℕ) (l : j < cache_slots). s.cleaned j (omega arith) (omega arith) in
    (
      s.keeps.valid,
      λ block.
          (all_clean-view d block s.keeps.valid clean ∙ s.keeps.views block, s.keeps.views block),
      clean,
    )
