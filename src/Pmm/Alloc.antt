-- ===== src/Pmm/Alloc.antt =====
-- Allocation in kernel/mm/pmm.c: `pmm_alloc_page` against the set of allocated pages.
use exec_aegis.Base.{
  ℕ, ◌*◌, ◌/◌, ◌%◌, ◌<◌, ◌≡◌, ◌⊎◌, refl, sym, ap, ◌∙◌, Bool, true, false, not, ◌&&◌, ◌||◌, some,
  arith, ◌==◌, if◌then◌else◌, Option-cases, inl, inr,
}
use native.Mathlib.Decide.{ℕ_discrete}
use exec_aegis.Pmm.{
  Pmm, page_size, max_pages, update, allocated, mark, unmark, find_page, alloc_page,
}
use exec_aegis.Pmm.Bit.{bit-set_bit, bit-clear_bit, set_bit_lt, clear_bit_lt}
use exec_aegis.Pmm.Scan.{taken, find_page-PageFound}

-- The bitmap holds bytes, and a page that is not allocated has no owner.
pub record IsValid (s : Pmm) : Type 0 where
  pub bytes : (i : ℕ) → s.bitmap i < 256
  pub counted : (pg : ℕ) → allocated s pg ≡ false → s.refcount pg ≡ 0
  pub small : (pg : ℕ) → s.refcount pg < 256

module _ (s : Pmm) (bytes : (i : ℕ) → s.bitmap i < 256) (pg q : ℕ) where
  pub allocated-mark : allocated (mark s pg) q ≡ ((q == pg) || allocated s q)
  unfolding allocated mark update
  allocated-mark = elim (ℕ_discrete (q / 8) (pg / 8)) [
    | yes e ↦ rw e (
        ground (
          arith,
          bit-set_bit (s.bitmap (pg / 8)) (pg % 8) (q % 8) (bytes (pg / 8)) (omega arith)
              (omega arith),
        ))
    | no ne ↦ ground arith
  ]

  pub allocated-unmark : allocated (unmark s pg) q ≡ (not (q == pg) && allocated s q)
  unfolding allocated unmark update
  allocated-unmark = elim (ℕ_discrete (q / 8) (pg / 8)) [
    | yes e ↦ rw e (
        ground (
          arith,
          bit-clear_bit (s.bitmap (pg / 8)) (pg % 8) (q % 8) (bytes (pg / 8)) (omega arith)
              (omega arith),
        ))
    | no ne ↦ ground arith
  ]

  pub bytes-mark : (mark s pg).bitmap q < 256
  unfolding mark update
  bytes-mark =
      ground
        (arith, set_bit_lt (s.bitmap (pg / 8)) (pg % 8) (bytes (pg / 8)) (omega arith), bytes q)

  pub bytes-unmark : (unmark s pg).bitmap q < 256
  unfolding unmark update
  bytes-unmark =
      ground
        (arith, clear_bit_lt (s.bitmap (pg / 8)) (pg % 8) (bytes (pg / 8)) (omega arith), bytes q)

-- Page `pg` has been given out.
pub record Allocated (s s' : Pmm) (pg : ℕ) : Type 0 where
  pub in_range : pg < max_pages
  pub was_free : allocated s pg ≡ false
  pub lowest : (q : ℕ) → q < pg → allocated s q ≡ true
  pub marked : (q : ℕ) → allocated s' q ≡ ((q == pg) || allocated s q)
  pub owned : (q : ℕ) → s'.refcount q ≡ (if q == pg then 1 else s.refcount q)
  pub valid : IsValid s'

-- The counts do not bear on what is allocated.
pub with_owners :
    (s : Pmm) (f : ℕ → ℕ) (q : ℕ) → allocated (record s { refcount = f }) q ≡ allocated s q
unfolding allocated
with_owners s f q = refl

taken-allocated : (s : Pmm) (q : ℕ) (b : Bool) → taken s.bitmap q ≡ b → allocated s q ≡ b
unfolding allocated
taken-allocated s q b h = h

alloc_hit :
    (s : Pmm) (pg : ℕ)
    → IsValid s
    → find_page (max_pages / 8) s.bitmap 0 ≡ some pg
    → (alloc_page s ≡ (record (mark s pg) { refcount = update s.refcount pg 1 }, pg * page_size))
      × Allocated s (record (mark s pg) { refcount = update s.refcount pg 1 }) pg
unfolding alloc_page
alloc_hit s pg v e =
    let found = find_page-PageFound (max_pages / 8) s.bitmap 0 in
    (
      rw (e, alloc_page),
      record {
        in_range = omega (arith, (found.hit pg e).1);
        was_free = taken-allocated s pg false (found.hit pg e).2;
        lowest = λ q l. taken-allocated s q true (found.before pg q e (omega arith) l);
        marked = λ q. with_owners (mark s pg) _ q ∙ allocated-mark s v.bytes pg q;
        owned = λ q. unfold update in ground arith;
        valid = record {
          bytes = λ q. bytes-mark s v.bytes pg q;
          counted = λ q h. unowned q (sym (with_owners (mark s pg) _ q) ∙ h);
          small = λ q. unfold update in ground (arith, v.small q);
        };
      },
    )
  where
    unowned : (q : ℕ) → allocated (mark s pg) q ≡ false → update s.refcount pg 1 q ≡ 0
    unowned q h = unfold update in ground (arith, allocated-mark s v.bytes pg q, v.counted q)

-- On a valid bitmap whose page 0 is taken, `pmm_alloc_page` returns 0 exactly if every page is taken,
-- and then changes nothing; and otherwise the address of the lowest free page, which becomes taken
-- with one owner while the other pages keep their bits and counts. The bitmap stays valid.
pub alloc_page_lem :
    (s : Pmm)
    → IsValid s
    → allocated s 0 ≡ true
    → let r = alloc_page s in
      ((r.1 ≡ 0) × (r.0 ≡ s) × ((pg : ℕ) → pg < max_pages → allocated s pg ≡ true))
      ⊎ ((pg : ℕ) × (r.1 ≡ pg * page_size) × (0 < r.1) × Allocated s r.0 pg)
unfolding alloc_page
alloc_page_lem s v zero_taken = elim (Option-cases (find_page (max_pages / 8) s.bitmap 0)) [
  | inl e ↦
      rw (e, alloc_page)
        (inl (
          refl,
          refl,
          λ pg l. taken-allocated s pg true (
              (find_page-PageFound (max_pages / 8) s.bitmap 0).miss e pg (omega arith)
                (omega arith)),
        ))
  | inr (pg, e) ↦
      let hit = alloc_hit s pg v e in
      rw hit.0 (inr (pg, refl, ground (arith, positive pg hit.1.was_free), hit.1))
]
  where
    positive : (pg : ℕ) → allocated s pg ≡ false → 0 < pg
    positive pg h = elim (ℕ_discrete pg 0) [
      | yes e ↦ absurd (cc (ap (allocated s) e))
      | no ne ↦ omega arith
    ]
