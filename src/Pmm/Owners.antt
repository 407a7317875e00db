-- ===== src/Pmm/Owners.antt =====
-- `pmm_ref_page` and `pmm_free_page` of kernel/mm/pmm.c: a page stays allocated while it has an owner.
use exec_aegis.Base.{
  ℕ, zero, suc, ◌+◌, ◌-◌, ◌*◌, ◌/◌, ◌%◌, ◌≤◌, ◌<◌, ◌≡◌, ◌≢◌, refl, ap, subst, ◌∙◌, true, not, ◌&&◌,
  arith, ltb, ◌==◌, if◌then◌else◌,
}
use native.Mathlib.Decide.{ℕ_discrete}
use exec_aegis.Pmm.{
  Pmm, Result, done, panics, page_size, max_pages, update, allocated, unmark, ref_page, free_page,
}
use exec_aegis.Pmm.Alloc.{IsValid, allocated-unmark, bytes-unmark, with_owners}

-- A function made `n` times, up to the first panic.
unfoldable pub times : ℕ → (Pmm → Result) → Pmm → Result
times zero f s = done s
times (suc n) f s = elim (f s) [ done s' ↦ times n f s' | panics ↦ panics ]

-- From `s` to `s'` only page `pg` changed; it has `owners` owners and is allocated if it has one.
pub record Owned (s s' : Pmm) (pg owners : ℕ) : Type 0 where
  pub count : s'.refcount pg ≡ owners
  pub bit_set : allocated s' pg ≡ ltb 0 owners
  pub other_bits : (q : ℕ) → q ≢ pg → allocated s' q ≡ allocated s q
  pub other_counts : (q : ℕ) → q ≢ pg → s'.refcount q ≡ s.refcount q
  pub valid : IsValid s'

Owned-trans : {a b c : Pmm} {pg m n : ℕ} → Owned a b pg m → Owned b c pg n → Owned a c pg n
Owned-trans o p = record {
  count = p.count;
  bit_set = p.bit_set;
  other_bits = λ q ne. p.other_bits q ne ∙ o.other_bits q ne;
  other_counts = λ q ne. p.other_counts q ne ∙ o.other_counts q ne;
  valid = p.valid;
}

module _ (s : Pmm) (pg c : ℕ) (v : IsValid s) (in_range : pg < max_pages)
    (taken : allocated s pg ≡ true) (count : s.refcount pg ≡ c) (alive : 0 < c) where
  -- One more owner.
  ref_one : c < 255 → (s' : Pmm) × (ref_page s (pg * page_size) ≡ done s') × Owned s s' pg (c + 1)
  unfolding ref_page
  ref_one room =
      let page : pg * page_size / page_size ≡ pg = omega arith in
      let aligned : pg * page_size % page_size ≡ 0 = omega arith in
      (
        record s { refcount = update s.refcount pg (c + 1) },
        rw (page, aligned, count) (ground arith),
        record {
          count = unfold update in ground arith;
          bit_set = with_owners s _ pg ∙ ground arith;
          other_bits = λ q ne. with_owners s _ q;
          other_counts = λ q ne. unfold update in ground arith;
          valid = record {
            bytes = v.bytes;
            counted = λ q h.
                unfold update in
                ground (arith, v.counted q, with_owners s (update s.refcount pg (c + 1)) q);
            small = λ q. unfold update in ground (arith, v.small q);
          };
        },
      )

  abbrev dropped : Pmm
  dropped = record s { refcount = update s.refcount pg (c - 1) }

  bits-dropped : (q : ℕ) → allocated dropped q ≡ allocated s q
  bits-dropped q = with_owners s (update s.refcount pg (c - 1)) q

  bits-unmark : (q : ℕ) → allocated (unmark dropped pg) q ≡ (not (q == pg) && allocated s q)
  bits-unmark q =
      allocated-unmark dropped v.bytes pg q ∙ ap (λ b. not (q == pg) && b) (bits-dropped q)

  counts-unmark :
      (q : ℕ) → (unmark dropped pg).refcount q ≡ (if q == pg then c - 1 else s.refcount q)
  unfolding unmark update
  counts-unmark q = refl

  -- The last owner lets go.
  free_last : c ≡ 1 → (s' : Pmm) × (free_page s (pg * page_size) ≡ done s') × Owned s s' pg (c - 1)
  unfolding free_page
  free_last one =
      let page : pg * page_size / page_size ≡ pg = omega arith in
      let aligned : pg * page_size % page_size ≡ 0 = omega arith in
      (
        unmark dropped pg,
        rw (page, aligned, count, taken) (ground arith),
        record {
          count = ground (arith, counts-unmark pg);
          bit_set = ground (arith, bits-unmark pg);
          other_bits = λ q ne. ground (arith, bits-unmark q);
          other_counts = λ q ne. ground (arith, counts-unmark q);
          valid = record {
            bytes = λ q. bytes-unmark dropped v.bytes pg q;
            counted = λ q h. ground (arith, bits-unmark q, counts-unmark q, v.counted q);
            small = λ q. ground (arith, counts-unmark q, v.small q, v.small pg);
          };
        },
      )

  -- One owner of several lets go.
  free_one : 1 < c → (s' : Pmm) × (free_page s (pg * page_size) ≡ done s') × Owned s s' pg (c - 1)
  unfolding free_page
  free_one several =
      let page : pg * page_size / page_size ≡ pg = omega arith in
      let aligned : pg * page_size % page_size ≡ 0 = omega arith in
      (
        dropped,
        rw (page, aligned, count, taken) (ground arith),
        record {
          count = unfold update in ground arith;
          bit_set = bits-dropped pg ∙ ground arith;
          other_bits = λ q ne. bits-dropped q;
          other_counts = λ q ne. unfold update in ground arith;
          valid = record {
            bytes = v.bytes;
            counted = λ q h. unfold update in ground (arith, v.counted q, bits-dropped q);
            small = λ q. unfold update in ground (arith, v.small q, v.small pg);
          };
        },
      )

  free_step : (s' : Pmm) × (free_page s (pg * page_size) ≡ done s') × Owned s s' pg (c - 1)
  free_step = elim (ℕ_discrete c 1) [ yes e ↦ free_last e | no ne ↦ free_one (omega arith) ]

refs_lem :
    (k : ℕ) (s : Pmm) (pg c : ℕ)
    → IsValid s
    → pg < max_pages
    → allocated s pg ≡ true
    → s.refcount pg ≡ c
    → 0 < c
    → c + k ≤ 255
    → (s' : Pmm) × (times k (λ t. ref_page t (pg * page_size)) s ≡ done s') × Owned s s' pg (c + k)
unfolding times
refs_lem zero s pg c v i t e a room = (
  s,
  refl,
  record {
    count = omega arith;
    bit_set = ground arith;
    other_bits = λ q ne. refl;
    other_counts = λ q ne. refl;
    valid = v;
  },
)
refs_lem (suc k) s pg c v i t e a room =
    let (s', eq, o) = ref_one s pg c v i t e a (omega arith) in
    let (s'', eq', o') =
      refs_lem k s' pg (c + 1) o.valid i (o.bit_set ∙ ground arith) o.count (omega arith)
        (omega arith) in
    let same : c + 1 + k ≡ c + suc k = omega arith in
    (s'', rw (eq, times) eq', subst (λ m. Owned s s'' pg m) same (Owned-trans o o'))

frees_lem :
    (n : ℕ) (s : Pmm) (pg c : ℕ)
    → IsValid s
    → pg < max_pages
    → allocated s pg ≡ ltb 0 c
    → s.refcount pg ≡ c
    → n ≤ c
    → (s' : Pmm) × (times n (λ t. free_page t (pg * page_size)) s ≡ done s') × Owned s s' pg (c - n)
unfolding times
frees_lem zero s pg c v i t e room = (
  s,
  refl,
  record {
    count = omega arith;
    bit_set = t ∙ ground arith;
    other_bits = λ q ne. refl;
    other_counts = λ q ne. refl;
    valid = v;
  },
)
frees_lem (suc n) s pg c v i t e room =
    let (s', eq, o) = free_step s pg c v i (t ∙ ground arith) e (omega arith) in
    let (s'', eq', o') = frees_lem n s' pg (c - 1) o.valid i o.bit_set o.count (omega arith) in
    let same : c - 1 - n ≡ c - suc n = omega arith in
    (s'', rw (eq, times) eq', subst (λ m. Owned s s'' pg m) same (Owned-trans o o'))

-- On a valid bitmap, a page in range that is allocated with `c` owners, given `k` more by
-- `pmm_ref_page` (255 in all at most) and then released `n` times, not more often than it has owners,
-- has `c + k - n` owners left and is free exactly if that is none. No call panics, and no other page
-- changes its bit or count.
pub owners_lem :
    (s : Pmm) (pg c k n : ℕ)
    → IsValid s
    → pg < max_pages
    → allocated s pg ≡ true
    → s.refcount pg ≡ c
    → 0 < c
    → c + k ≤ 255
    → n ≤ c + k
    → (t u : Pmm) × (times k (λ x. ref_page x (pg * page_size)) s ≡ done t)
      × (times n (λ x. free_page x (pg * page_size)) t ≡ done u)
      × Owned s u pg (c + k - n)
owners_lem s pg c k n v i t e a room le =
    let (s', eq, o) = refs_lem k s pg c v i t e a room in
    let (s'', eq', o') = frees_lem n s' pg (c + k) o.valid i o.bit_set o.count le in
    (s', s'', eq, eq', Owned-trans o o')

-- An unaligned address makes both functions panic. An address past the managed 4 GB leaves the state
-- alone in both. For a page in range that has no owner `pmm_ref_page` panics and `pmm_free_page` does
-- nothing, allocated or not; and a 256th owner is refused by a panic.
pub refused_lem :
    (s : Pmm) (pg offset : ℕ)
    → offset < page_size
    → (0 < offset
        → (ref_page s (pg * page_size + offset) ≡ panics)
          × (free_page s (pg * page_size + offset) ≡ panics))
      × (max_pages ≤ pg
          → (ref_page s (pg * page_size) ≡ done s) × (free_page s (pg * page_size) ≡ done s))
      × (pg < max_pages
          → s.refcount pg ≡ 0
          → (ref_page s (pg * page_size) ≡ panics) × (free_page s (pg * page_size) ≡ done s))
      × (pg < max_pages → s.refcount pg ≡ 255 → ref_page s (pg * page_size) ≡ panics)
unfolding ref_page free_page
refused_lem s pg offset h = (
  λ o. ground arith,
  λ r. rw (page, aligned) (ground arith),
  λ r e. rw (page, aligned, e) (ground arith),
  λ r e. rw (page, aligned, e) (ground arith),
)
  where
    page : pg * page_size / page_size ≡ pg
    page = omega arith

    aligned : pg * page_size % page_size ≡ 0
    aligned = omega arith
