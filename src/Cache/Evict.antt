-- ===== src/Cache/Evict.antt =====
-- Which slot `cache_evict` of kernel/fs/ext2_cache.c takes.
use exec_aegis.Base.{
  ℕ, zero, suc, ◌+◌, ◌<◌, ◌≡◌, true, false, ◌&&◌, not, arith, ltb, Bool-cases, inl, inr,
}
use native.Mathlib.Decide.{ℕ_discrete}
use exec_aegis.Cache.{cache_slots, Slot, Cache, Device, evicted_before, pick, cache_evict}

-- Slot `r` is one of those seen, and none of them is evicted before it.
record First (n : ℕ) (slots : ℕ → Slot) (r : ℕ) : Type 0 where
  seen : r < n
  first : (j : ℕ) → j < n → evicted_before (slots j) (slots r) ≡ false

evicted_before_trans :
    (a b c : Slot)
    → evicted_before a b ≡ false
    → evicted_before c b ≡ true
    → evicted_before a c ≡ false
unfolding evicted_before
evicted_before_trans a b c p q = ground (arith, p, q)

evicted_before_irrefl : (a : Slot) → evicted_before a a ≡ false
unfolding evicted_before
evicted_before_irrefl a = ground arith

pick-First :
    (left i best : ℕ) (slots : ℕ → Slot)
    → First i slots best
    → First (i + left) slots (pick left i best slots)
unfolding pick
pick-First zero i best slots f = record {
  seen = let h = f.seen in omega arith;
  first = λ j l. f.first j (omega arith);
}
pick-First (suc left) i best slots f = elim (Bool-cases (evicted_before (slots i) (slots best))) [
  | inl before ↦
      let ih = pick-First left (i + 1) i slots (record {
        seen = omega arith;
        first = λ j l. elim (ℕ_discrete j i) [
          | yes q ↦ rw q (evicted_before_irrefl (slots i))
          | no q ↦
              evicted_before_trans (slots j) (slots best) (slots i) (f.first j (omega arith)) before
        ];
      }) in
      rw before
        (record { seen = let h = ih.seen in omega arith; first = λ j l. ih.first j (omega arith) })
  | inr not_before ↦
      let ih = pick-First left (i + 1) best slots (record {
        seen = let h = f.seen in omega arith;
        first = λ j l. elim (ℕ_discrete j i) [
          | yes q ↦ rw q not_before
          | no q ↦ f.first j (omega arith)
        ];
      }) in
      rw not_before
        (record { seen = let h = ih.seen in omega arith; first = λ j l. ih.first j (omega arith) })
]

evicted-First : (slots : ℕ → Slot) → First 16 slots (pick 15 1 0 slots)
evicted-First slots = pick-First 15 1 0 slots (record {
  seen = omega arith;
  first = λ j l. elim (ℕ_discrete j 0) [
    | yes q ↦ rw q (evicted_before_irrefl (slots 0))
    | no q ↦ absurd (omega arith)
  ];
})

pub evicted-bound : (dev : Device) (c : Cache) → (cache_evict dev c).1 < cache_slots
unfolding cache_evict
evicted-bound dev c = (evicted-First c.slots).seen

-- The slot that is evicted is one of the 16. It is dirty only if all slots are; no slot that is as clean as
-- it has a lower age.
pub evicted-oldest :
    (dev : Device) (c : Cache)
    → ((cache_evict dev c).1 < cache_slots)
      × ((j : ℕ)
          → j < cache_slots
          → (((c.slots (cache_evict dev c).1).dirty && not (c.slots j).dirty) ≡ false)
            × ((not (not (c.slots (cache_evict dev c).1).dirty && (c.slots j).dirty)
                  && ltb (c.slots j).age (c.slots (cache_evict dev c).1).age)
                ≡ false))
unfolding cache_evict evicted_before
evicted-oldest dev c =
    let f = evicted-First c.slots in
    (f.seen, λ j l. let h = f.first j l in (ground (arith, h), ground (arith, h)))
