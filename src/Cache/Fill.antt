-- ===== src/Cache/Fill.antt =====
-- A miss of `cache_get_slot` (kernel/fs/ext2_cache.c): the slot taken over.
use exec_aegis.Base.{
  ℕ, ◌+◌, ◌<◌, ◌≡◌, ◌≢◌, sym, ap, ◌∙◌, ◌⊎◌, true, false, Option, arith, ◌^◌, u32, Bool-cases, inl,
  inr,
}
use native.Mathlib.Decide.{ℕ_discrete}
use exec_aegis.Cache.{cache_slots, Cache, update, cache_find}
use exec_aegis.Cache.Find.{caches, Search, cache_find-Search, view, IsValid, view-hit, view-miss}
use exec_aegis.Cache.Coherent.{caches-block, caches-live}
use exec_aegis.Cache.Touch.{Gets}

-- A clean slot takes a block that no slot caches.
module _ (c : Cache) (i : ℕ) (v : IsValid c) (age : c.age + 1 < 2 ^ 32) (lt : i < cache_slots)
    (taken : (c.slots i).dirty ≡ false) (block : ℕ)
    (absent : (j : ℕ) → j < cache_slots → caches block (c.slots j) ≡ false) where
  abbrev pub filled : Cache
  filled = record {
    slots =
        update c.slots i (record {
          block_num = block;
          dirty = false;
          age = u32 (c.age + 1);
          bytes = c.disk block;
        });
    age = u32 (c.age + 1);
    disk = c.disk;
  }

  filled-here : caches block (filled.slots i) ≡ true
  unfolding update caches
  filled-here = ground arith

  filled-other : (b : ℕ) → b ≢ block → caches b (filled.slots i) ≡ false
  unfolding update caches
  filled-other b ne = ground (arith, ne)

  filled-rest : (j : ℕ) → j ≢ i → filled.slots j ≡ c.slots j
  unfolding update
  filled-rest j ne = ground (arith, ne)

  -- A slot that caches a block after the fill is the one filled, or cached it before.
  filled-source :
      (j b : ℕ)
      → j < cache_slots
      → caches b (filled.slots j) ≡ true
      → ((j ≡ i) × (b ≡ block)) ⊎ ((j ≢ i) × (b ≢ block) × (caches b (c.slots j) ≡ true))
  filled-source j b l t = elim (ℕ_discrete j i) [
    | yes e ↦ elim (ℕ_discrete b block) [
      | yes q ↦ inl (e, q)
      | no q ↦ absurd (cc (filled-other b q, t, e))
    ]
    | no e ↦
        let before : caches b (c.slots j) ≡ true = rw (filled-rest j e) at t in
        elim (ℕ_discrete b block) [
          | yes q ↦ absurd (cc (absent j l, before, q))
          | no q ↦ inr (e, q, before)
        ]
  ]

  filled-IsValid : IsValid filled
  unfolding update
  filled-IsValid = record {
    unique = λ j k b l m p q. elim (filled-source j b l p) [
      | inl (e, f) ↦ elim (filled-source k b m q) [
        | inl (g, h) ↦ e ∙ sym g
        | inr (g, h, r) ↦ absurd (h f)
      ]
      | inr (e, f, r) ↦ elim (filled-source k b m q) [
        | inl (g, h) ↦ absurd (f h)
        | inr (g, h, s) ↦ v.unique j k b l m r s
      ]
    ];
    clean = λ j l p q. elim (ℕ_discrete j i) [
      | yes e ↦ rw e (ground arith)
      | no e ↦ let agrees = v.clean j l in ground (arith, p, q, e, agrees)
    ];
    dirty = λ j l p. elim (ℕ_discrete j i) [
      | yes e ↦ absurd (ground (arith, p, e))
      | no e ↦ let d = v.dirty j l in ground (arith, p, e, d)
    ];
  }

  filled-bytes : (filled.slots i).bytes ≡ c.disk block
  unfolding update
  filled-bytes = ground arith

  filled-block : view filled block ≡ view c block
  filled-block =
      view-hit filled i block filled-IsValid lt filled-here
      ∙ filled-bytes
      ∙ sym (view-miss c block absent)

  -- A block that another slot, or none, caches.
  filled-elsewhere :
      (b : ℕ) → b ≢ block → (r : Option ℕ) → Search c.slots b r → view filled b ≡ view c b
  filled-elsewhere b ne r (Search.miss f) =
      view-miss filled b (λ j l. elim (Bool-cases (caches b (filled.slots j))) [
        | inr t ↦ t
        | inl t ↦ elim (filled-source j b l t) [
          | inl (e, q) ↦ absurd (ne q)
          | inr (e, q, before) ↦ absurd (cc (before, f j l))
        ]
      ])
      ∙ sym (view-miss c b f)
  filled-elsewhere b ne r (Search.hit j l t) = elim (ℕ_discrete j i) [
    | no e ↦
        view-hit filled j b filled-IsValid l (rw (filled-rest j e) t)
        ∙ ap (λ s. s.bytes) (filled-rest j e)
        ∙ sym (view-hit c j b v l t)
    | yes e ↦
        view-miss filled b (λ k m. elim (Bool-cases (caches b (filled.slots k))) [
          | inr u ↦ u
          | inl u ↦ elim (filled-source k b m u) [
            | inl (g, q) ↦ absurd (ne q)
            | inr (g, q, before) ↦ absurd (g (v.unique k j b m l before t ∙ e))
          ]
        ])
        ∙ sym (
            view-hit c j b v l t
            ∙ v.clean j l (caches-live (c.slots j) b t) (rw e taken)
            ∙ ap c.disk (caches-block (c.slots j) b t))
  ]

  pub filled-Gets : Gets block c filled i
  filled-Gets = record {
    valid = filled-IsValid;
    views = λ b. elim (ℕ_discrete b block) [
      | yes e ↦ rw e filled-block
      | no e ↦ filled-elsewhere b e (cache_find c.slots b) (cache_find-Search c.slots b)
    ];
    bound = lt;
    held = filled-here;
    bytes = filled-bytes ∙ sym (view-miss c block absent);
  }
