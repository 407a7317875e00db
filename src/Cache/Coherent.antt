-- ===== src/Cache/Coherent.antt =====
-- Each step of kernel/fs/ext2_cache.c keeps what the blocks hold.
use exec_aegis.Base.{
  ℕ, ◌<◌, ◌≡◌, sym, ap, ◌∙◌, true, false, Option, none, some, arith, ◌==◌, eqb→eq,
}
use native.Mathlib.Decide.{ℕ_discrete}
use exec_aegis.Cache.{cache_slots, Slot, Cache, update, cache_find}
use exec_aegis.Cache.Find.{caches, cache_find_cong, Search, cache_find-Search, view, IsValid}

-- Two states that agree on what a block's slots and, if it has none, its disk block hold.
pub same_view :
    (c d : Cache) (block : ℕ)
    → ((j : ℕ) → caches block (d.slots j) ≡ caches block (c.slots j))
    → ((j : ℕ)
        → j < cache_slots
        → caches block (c.slots j) ≡ true
        → (d.slots j).bytes ≡ (c.slots j).bytes)
    → (((j : ℕ) → j < cache_slots → caches block (c.slots j) ≡ false) → d.disk block ≡ c.disk block)
    → view d block ≡ view c block
unfolding view
same_view c d block held bytes disk =
    ap (λ r. elim r [ none ↦ d.disk block | some i ↦ (d.slots i).bytes ])
      (cache_find_cong d.slots c.slots block held)
    ∙ from_search (cache_find c.slots block) (cache_find-Search c.slots block)
  where
    from_search :
        (r : Option ℕ)
        → Search c.slots block r
        → elim r [ none ↦ d.disk block | some i ↦ (d.slots i).bytes ]
          ≡ elim r [ none ↦ c.disk block | some i ↦ (c.slots i).bytes ]
    from_search r (Search.hit j l t) = bytes j l t
    from_search r (Search.miss f) = disk f

-- What a step keeps: validity, and what every block holds.
pub record Keeps (c d : Cache) : Type 0 where
  pub valid : IsValid d
  pub views : (block : ℕ) → view d block ≡ view c block
  pub held : (j block : ℕ) → caches block (d.slots j) ≡ caches block (c.slots j)

pub caches-own : (s : Slot) → (s.age == 0) ≡ false → caches s.block_num s ≡ true
unfolding caches
caches-own s live = ground (arith, live)

pub caches-block : (s : Slot) (block : ℕ) → caches block s ≡ true → s.block_num ≡ block
unfolding caches
caches-block s block t = eqb→eq s.block_num block (ground (arith, t))

pub caches-live : (s : Slot) (block : ℕ) → caches block s ≡ true → (s.age == 0) ≡ false
unfolding caches
caches-live s block t = ground (arith, t)

-- The write back of one dirty slot.
module _ (c : Cache) (i : ℕ) (v : IsValid c) (lt : i < cache_slots) where
  abbrev pub flushed : Cache
  flushed = record {
    slots = update c.slots i (record {
      block_num = (c.slots i).block_num;
      dirty = false;
      age = (c.slots i).age;
      bytes = (c.slots i).bytes;
    });
    age = c.age;
    disk = update c.disk (c.slots i).block_num (c.slots i).bytes;
  }

  flushed-held : (j block : ℕ) → caches block (flushed.slots j) ≡ caches block (c.slots j)
  unfolding update caches
  flushed-held j block = elim (ℕ_discrete j i) [
    | yes q ↦ rw q (ground arith)
    | no q ↦ ground (arith, q)
  ]

  flushed-bytes : (j : ℕ) → (flushed.slots j).bytes ≡ (c.slots j).bytes
  unfolding update
  flushed-bytes j = elim (ℕ_discrete j i) [ yes q ↦ rw q (ground arith) | no q ↦ ground (arith, q) ]

  module _ (dirty : (c.slots i).dirty ≡ true) where
    flushed-clean :
        (j : ℕ)
        → j < cache_slots
        → ((flushed.slots j).age == 0) ≡ false
        → (flushed.slots j).dirty ≡ false
        → (flushed.slots j).bytes ≡ flushed.disk (flushed.slots j).block_num
    unfolding update
    flushed-clean j l live clean = elim (ℕ_discrete j i) [
      | yes q ↦ rw q (ground arith)
      | no q ↦
          let live' : ((c.slots j).age == 0) ≡ false = ground (arith, q, live) in
          let clean' : (c.slots j).dirty ≡ false = ground (arith, q, clean) in
          let agrees = v.clean j l live' clean' in
          elim (ℕ_discrete (c.slots j).block_num (c.slots i).block_num) [
            | yes e ↦
                let mine = caches-own (c.slots j) live' in
                let own : caches (c.slots j).block_num (c.slots i) ≡ true =
                  rw e (caches-own (c.slots i) (v.dirty i lt dirty).0) in
                absurd (q (v.unique j i (c.slots j).block_num l lt mine own))
            | no e ↦ ground (arith, q, e, agrees)
          ]
    ]

    flushed-dirty :
        (j : ℕ)
        → j < cache_slots
        → (flushed.slots j).dirty ≡ true
        → (((flushed.slots j).age == 0) ≡ false) × (((flushed.slots j).block_num == 0) ≡ false)
    unfolding update
    flushed-dirty j l t = elim (ℕ_discrete j i) [
      | yes q ↦ absurd (ground (arith, q, t))
      | no q ↦
          let t' : (c.slots j).dirty ≡ true = ground (arith, q, t) in
          let h = v.dirty j l t' in ground (arith, q, h)
    ]

    flushed-disk :
        (block : ℕ)
        → ((j : ℕ) → j < cache_slots → caches block (c.slots j) ≡ false)
        → flushed.disk block ≡ c.disk block
    unfolding update
    flushed-disk block none_ = elim (ℕ_discrete block (c.slots i).block_num) [
      | yes e ↦
          let own : caches block (c.slots i) ≡ true =
            rw e (caches-own (c.slots i) (v.dirty i lt dirty).0) in
          absurd (cc (own, none_ i lt))
      | no e ↦ ground (arith, e)
    ]

    pub flushed-Keeps : Keeps c flushed
    flushed-Keeps = record {
      valid = record {
        unique = λ j k block l m t u.
            v.unique j k block l m (sym (flushed-held j block) ∙ t)
              (sym (flushed-held k block) ∙ u);
        clean = flushed-clean;
        dirty = flushed-dirty;
      };
      views = λ block.
          same_view c flushed block (λ j. flushed-held j block) (λ j l t. flushed-bytes j)
            (flushed-disk block);
      held = flushed-held;
    }
