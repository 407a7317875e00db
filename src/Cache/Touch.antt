-- ===== src/Cache/Touch.antt =====
-- A hit of `cache_get_slot` (kernel/fs/ext2_cache.c).
use exec_aegis.Base.{ℕ, ◌+◌, ◌<◌, ◌≡◌, refl, sym, ◌∙◌, true, arith, ◌^◌}
use native.Mathlib.Decide.{ℕ_discrete}
use exec_aegis.Cache.{cache_slots, Cache, update, touch}
use exec_aegis.Cache.Find.{caches, view, IsValid, view-hit}
use exec_aegis.Cache.Coherent.{same_view, caches-live}

-- What a call for a block does: it keeps the view, and returns a slot that caches the block and holds
-- what the view says.
pub record Gets (block : ℕ) (c d : Cache) (i : ℕ) : Type 0 where
  pub valid : IsValid d
  pub views : (b : ℕ) → view d b ≡ view c b
  pub bound : i < cache_slots
  pub held : caches block (d.slots i) ≡ true
  pub bytes : (d.slots i).bytes ≡ view c block

module _ (c : Cache) (i : ℕ) (v : IsValid c) (age : c.age + 1 < 2 ^ 32) where
  pub touch-caches :
      (block : ℕ)
      → caches block (c.slots i) ≡ true
      → (j b : ℕ) → caches b ((touch i c).slots j) ≡ caches b (c.slots j)
  unfolding touch update caches
  touch-caches block t j b = elim (ℕ_discrete j i) [
    | yes q ↦ rw q (ground (arith, t))
    | no q ↦ ground (arith, q)
  ]

  touch-bytes : (j : ℕ) → ((touch i c).slots j).bytes ≡ (c.slots j).bytes
  unfolding touch update
  touch-bytes j = elim (ℕ_discrete j i) [ yes q ↦ rw q (ground arith) | no q ↦ ground (arith, q) ]

  pub touch-Gets :
      (block : ℕ) → i < cache_slots → caches block (c.slots i) ≡ true → Gets block c (touch i c) i
  unfolding touch update
  touch-Gets block lt t =
      let same = touch-caches block t in
      let live = caches-live (c.slots i) block t in
      record {
        valid = record {
          unique = λ j k b l m p q. v.unique j k b l m (sym (same j b) ∙ p) (sym (same k b) ∙ q);
          clean = λ j l p q. elim (ℕ_discrete j i) [
            | yes e ↦ let agrees = v.clean i lt live in rw e (ground (arith, q, e, agrees))
            | no e ↦ let agrees = v.clean j l in ground (arith, p, q, e, agrees)
          ];
          dirty = λ j l p. elim (ℕ_discrete j i) [
            | yes e ↦ let d = v.dirty i lt in ground (arith, p, e, d)
            | no e ↦ let d = v.dirty j l in ground (arith, p, e, d)
          ];
        };
        views = λ b. same_view c (touch i c) b (λ j. same j b) (λ j l p. touch-bytes j) (λ f. refl);
        bound = lt;
        held = same i block ∙ t;
        bytes = touch-bytes i ∙ sym (view-hit c i block v lt t);
      }
