-- ===== src/Cache/Write.antt =====
-- The callers of kernel/fs/ext2_cache.c write a block: they get its slot, change the bytes and mark it.
use exec_aegis.Base.{
  ℕ, ◌+◌, ◌<◌, ◌≡◌, ◌≢◌, refl, sym, ap, ◌∙◌, true, false, Option, some, arith, ◌==◌, ◌^◌,
}
use native.Mathlib.Decide.{ℕ_discrete}
use exec_aegis.Cache.{
  cache_slots, Block, Cache, Device, update, cache_find, cache_get_slot, cache_mark_dirty,
  put_bytes, write_block,
}
use exec_aegis.Cache.Find.{
  caches, cache_find_cong, Search, cache_find-Search, view, IsValid, view-hit,
}
use exec_aegis.Cache.Coherent.{same_view, caches-block, caches-live}
use exec_aegis.Cache.Get.{cache_get_slot-Returns}

module _ (d : Cache) (i block : ℕ) (bytes : Block) (v : IsValid d) (lt : i < cache_slots)
    (held : caches block (d.slots i) ≡ true) (used : (block == 0) ≡ false) where
  abbrev put : Cache
  put = put_bytes i bytes d

  put-caches : (j b : ℕ) → caches b (put.slots j) ≡ caches b (d.slots j)
  unfolding put_bytes update caches
  put-caches j b = elim (ℕ_discrete j i) [ yes q ↦ rw q (ground arith) | no q ↦ ground (arith, q) ]

  put-find : cache_find put.slots block ≡ some i
  put-find =
      cache_find_cong put.slots d.slots block (λ j. put-caches j block)
      ∙ from_search (cache_find d.slots block) (cache_find-Search d.slots block)
    where
      from_search : (r : Option ℕ) → Search d.slots block r → r ≡ some i
      from_search r (Search.hit j l t) = ap some (v.unique j i block l lt t held)
      from_search r (Search.miss f) = absurd (cc (held, f i lt))

  abbrev written : Cache
  written = record put {
    slots = update put.slots i (record {
      block_num = (put.slots i).block_num;
      dirty = true;
      age = (put.slots i).age;
      bytes = (put.slots i).bytes;
    });
  }

  mark_dirty-written : cache_mark_dirty block put ≡ written
  unfolding cache_mark_dirty
  mark_dirty-written = rw (cache_mark_dirty, put-find) refl

  written-caches : (j b : ℕ) → caches b (written.slots j) ≡ caches b (d.slots j)
  unfolding put_bytes update caches
  written-caches j b = elim (ℕ_discrete j i) [
    | yes q ↦ rw q (ground arith)
    | no q ↦ ground (arith, q)
  ]

  written-here : ((written.slots i).bytes ≡ bytes) × ((written.slots i).dirty ≡ true)
  unfolding put_bytes update
  written-here = (ground arith, ground arith)

  written-rest : (j : ℕ) → j ≢ i → written.slots j ≡ d.slots j
  unfolding put_bytes update
  written-rest j ne = ground (arith, ne)

  written-disk : (b : ℕ) → written.disk b ≡ d.disk b
  unfolding put_bytes
  written-disk b = refl

  written-dirty :
      (j : ℕ)
      → j < cache_slots
      → (written.slots j).dirty ≡ true
      → (((written.slots j).age == 0) ≡ false) × (((written.slots j).block_num == 0) ≡ false)
  written-dirty j l t = elim (ℕ_discrete j i) [
    | yes e ↦
        let here : caches block (written.slots i) ≡ true = written-caches i block ∙ held in
        let same = caches-block (written.slots i) block here in
        rw e (caches-live (written.slots i) block here, rw same used)
    | no e ↦
        let t' : (d.slots j).dirty ≡ true = rw (written-rest j e) at t in
        rw (written-rest j e) (v.dirty j l t')
  ]

  written-clean :
      (j : ℕ)
      → j < cache_slots
      → ((written.slots j).age == 0) ≡ false
      → (written.slots j).dirty ≡ false
      → (written.slots j).bytes ≡ written.disk (written.slots j).block_num
  unfolding put_bytes
  written-clean j l p q = elim (ℕ_discrete j i) [
    | yes e ↦ absurd (cc (q, e, written-here.1))
    | no e ↦
        let p' : ((d.slots j).age == 0) ≡ false = rw (written-rest j e) at p in
        let q' : (d.slots j).dirty ≡ false = rw (written-rest j e) at q in
        rw (written-rest j e) (v.clean j l p' q')
  ]

  written-IsValid : IsValid written
  written-IsValid = record {
    unique = λ j k b l m t u.
        v.unique j k b l m (sym (written-caches j b) ∙ t) (sym (written-caches k b) ∙ u);
    clean = written-clean;
    dirty = written-dirty;
  }

  written-view : view written block ≡ bytes
  written-view =
      view-hit written i block written-IsValid lt (written-caches i block ∙ held) ∙ written-here.0

  written-others : (b : ℕ) → b ≢ block → view written b ≡ view d b
  written-others b ne =
      same_view d written b (λ j. written-caches j b)
        (λ j l t. elim (ℕ_discrete j i) [
          | yes e ↦
              let t' : caches b (d.slots i) ≡ true = rw e at t in
              absurd
                (ne (sym (caches-block (d.slots i) b t') ∙ caches-block (d.slots i) block held))
          | no e ↦ ap (λ s. s.bytes) (written-rest j e)
        ])
        (λ f. written-disk b)

-- In a valid cache, if the device's writes and its read of the block work and the age counter does not wrap, a
-- write of a block other than block 0 succeeds: the
-- cache says then that the block holds what was written, and of every other block what it said before.
pub write_block-view :
    (dev : Device) (block : ℕ) (bytes : Block) (c : Cache)
    → IsValid c
    → c.age + 1 < 2 ^ 32
    → (block == 0) ≡ false
    → ((b : ℕ) → dev.writes b ≡ true)
    → dev.reads block ≡ true
    → let r = write_block dev block bytes c in
      (r.1 ≡ true)
      × IsValid r.0
      × (view r.0 block ≡ bytes)
      × ((b : ℕ) → b ≢ block → view r.0 b ≡ view c b)
unfolding write_block
write_block-view dev block bytes c v age used writes works =
    let g = cache_get_slot-Returns dev block c v age writes works in
    let d = (cache_get_slot dev block c).0 in
    let i = g.slot in
    let w = g.gets in
    rw (write_block, g.returned, mark_dirty-written d i block bytes w.valid w.bound w.held used)
      (
        refl,
        written-IsValid d i block bytes w.valid w.bound w.held used,
        written-view d i block bytes w.valid w.bound w.held used,
        λ b ne. written-others d i block bytes w.valid w.bound w.held used b ne ∙ w.views b,
      )
