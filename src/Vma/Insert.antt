-- ===== src/Vma/Insert.antt =====
-- `vma_insert` of kernel/mm/vma.c maps the new range and nothing else, merging where it can.
use exec_aegis.Base.{
  ℕ, suc, ◌+◌, ◌-◌, ◌^◌, ◌≤◌, ◌<◌, ◌≡◌, refl, ◌⊎◌, inl, inr, Bool, true, false, ◌&&◌, Option, none,
  some, List, [], ◌∷◌, arith, ltb, ◌==◌, if◌then◌else◌, u64, get_elem?, All, Bool-cases,
}
use native.Mathlib.Decide.{dec_lt}
use exec_aegis.Vma.{
  Entry, end_of, insert_at, delete_at, can_merge, find_idx, before, merge_next, insert_new,
  insert_slot, insert_entries,
}
use exec_aegis.Vma.Lookup.{inside, lookup, Sorted, Sorted-weaken}

merge_next-cons :
    (e : Entry) (es : List Entry) (k : ℕ) (p : Entry) (n : Option Entry)
    → merge_next (e ∷ es) (suc (suc k)) p n ≡ e ∷ merge_next es (suc k) p n
unfolding merge_next delete_at
merge_next-cons e es k p none =
    let i : suc (suc k) - 1 ≡ suc k = omega arith in
    let j : suc k - 1 ≡ k = omega arith in rw (i, j)
merge_next-cons e es k p (some n) =
    let i : suc (suc k) - 1 ≡ suc k = omega arith in
    let j : suc k - 1 ≡ k = omega arith in rw (i, j) (ground arith)

insert_new-cons :
    (full : Bool) (e : Entry) (es : List Entry) (i : ℕ) (x : Entry) (n : Option Entry)
    → insert_new full (e ∷ es) (suc i) x n ≡ e ∷ insert_new full es i x n
unfolding insert_new insert_at
insert_new-cons full e es i x none = ground arith
insert_new-cons full e es i x (some n) = ground arith

insert_slot-cons :
    (full : Bool) (e : Entry) (es : List Entry) (k : ℕ) (x : Entry) (p : Option Entry)
    → insert_slot full (e ∷ es) (suc (suc k)) x p ≡ e ∷ insert_slot full es (suc k) x p
unfolding insert_slot
insert_slot-cons full e es k x none = insert_new-cons full e es (suc k) x (get_elem? es (suc k))
insert_slot-cons full e es k x (some p) = ground (
  arith,
  insert_new-cons full e es (suc k) x (get_elem? es (suc k)),
  merge_next-cons e es k (record p { len = u64 (p.len + x.len) }) (get_elem? es (suc k)),
)

module _ (full : Bool) (x : Entry) where
  -- The slots after `vma_insert` of a range that is not empty.
  abbrev inserted : List Entry → List Entry
  inserted es = insert_slot full es (find_idx x.base es) x (before es (find_idx x.base es))

  inserted-cons :
      (e f : Entry) (es : List Entry)
      → e.base < x.base
      → f.base < x.base
      → inserted (e ∷ f ∷ es) ≡ e ∷ inserted (f ∷ es)
  unfolding find_idx
  inserted-cons e f es h k =
      let i : ltb e.base x.base ≡ true = ground arith in
      let j : ltb f.base x.base ≡ true = ground arith in
      rw (i, j)
        (insert_slot-cons full e (f ∷ es) (find_idx x.base es) x
          (get_elem? (f ∷ es) (find_idx x.base es)))

  -- The new entry goes before the first.
  inserted-front :
      (e : Entry) (es : List Entry)
      → x.base ≤ e.base
      → inserted (e ∷ es) ≡ insert_new full (e ∷ es) 0 x (some e)
  unfolding find_idx insert_slot
  inserted-front e es h = let i : ltb e.base x.base ≡ false = ground arith in rw i

  -- The new entry goes after the first, and before `next`.
  inserted-second :
      (e : Entry) (es : List Entry)
      → e.base < x.base
      → find_idx x.base es ≡ 0
      → inserted (e ∷ es) ≡ insert_slot full (e ∷ es) 1 x (some e)
  unfolding find_idx
  inserted-second e es h k = let i : ltb e.base x.base ≡ true = ground arith in rw (i, k)

-- No entry shares an address with the new range.
abbrev pub Free : Entry → List Entry → Type 0
Free x = All (λ e. (e.base + e.len ≤ x.base) ⊎ (x.base + x.len ≤ e.base))

-- The tests by which the code merges the new range with the entry before it and the one after it.
abbrev joins_before : Entry → Entry → Bool
joins_before x p = p.prot == x.prot && p.kind == x.kind && end_of p == x.base

abbrev joins_after : Entry → Entry → Bool
joins_after x n = n.prot == x.prot && n.kind == x.kind && end_of x == n.base

module _ (x : Entry) (pos : 0 < x.len) (fits : x.base + x.len < 2 ^ 64) where
  -- The new entry lies before `e`, perhaps merged with it.
  front-Sorted :
      (full : Bool) (low : ℕ) (e : Entry) (es : List Entry)
      → low ≤ x.base
      → x.base + x.len ≤ e.base
      → Sorted low (e ∷ es)
      → Sorted low (insert_new full (e ∷ es) 0 x (some e))
  unfolding insert_new insert_at
  front-Sorted full low e es l h s = elim (Bool-cases (joins_after x e)) [
    | inl t ↦
        rw t (l, ground arith, ground arith, Sorted-weaken (e.base + e.len) _ es (ground arith) s.3)
    | inr t ↦ rw t (elim (Bool-cases full) [
      | inl u ↦ rw u s
      | inr u ↦ rw u (l, pos, fits, (h, s.1, s.2, s.3))
    ])
  ]

  -- The new entry lies after `e`, the last one.
  last-Sorted :
      (full : Bool) (low : ℕ) (e : Entry)
      → low ≤ e.base
      → 0 < e.len
      → e.base + e.len ≤ x.base
      → Sorted low (insert_slot full (e ∷ []) 1 x (some e))
  unfolding insert_slot insert_new merge_next insert_at
  last-Sorted full low e l p h = elim (Bool-cases (joins_before x e)) [
    | inl t ↦ rw t (l, ground arith, ground arith, tt)
    | inr t ↦ rw t (elim (Bool-cases full) [
      | inl u ↦ rw u (l, p, omega arith, tt)
      | inr u ↦ rw u (l, p, omega arith, (h, pos, fits, tt))
    ])
  ]

  -- The new entry lies between `e` and `n`.
  between-Sorted :
      (full : Bool) (low : ℕ) (e n : Entry) (es : List Entry)
      → e.base + e.len ≤ x.base
      → x.base + x.len ≤ n.base
      → Sorted low (e ∷ n ∷ es)
      → Sorted low (insert_slot full (e ∷ n ∷ es) 1 x (some e))
  unfolding insert_slot insert_new merge_next insert_at delete_at can_merge
  between-Sorted full low e n es h k s = elim (Bool-cases (joins_before x e)) [
    | inl t ↦ rw t (elim (Bool-cases (can_merge (record e { len = u64 (e.len + x.len) }) n)) [
      | inl u ↦ rw u (
        s.0,
        ground arith,
        ground arith,
        Sorted-weaken (n.base + n.len) _ es (ground arith) s.3.3,
      )
      | inr u ↦ rw u (s.0, ground arith, ground arith, (ground arith, s.3.1, s.3.2, s.3.3))
    ])
    | inr t ↦ rw t (elim (Bool-cases (joins_after x n)) [
      | inl u ↦ rw u (
        s.0,
        s.1,
        s.2,
        (h, ground arith, ground arith, Sorted-weaken (n.base + n.len) _ es (ground arith) s.3.3),
      )
      | inr u ↦ rw u (elim (Bool-cases full) [
        | inl w ↦ rw w s
        | inr w ↦ rw w (s.0, s.1, s.2, (h, pos, fits, (k, s.3.1, s.3.2, s.3.3)))
      ])
    ])
  ]

  inserted-Sorted :
      (full : Bool) (low : ℕ) (es : List Entry)
      → low ≤ x.base
      → Sorted low es
      → Free x es
      → Sorted low (inserted full x es)
  unfolding find_idx
  inserted-Sorted true low [] l s f = unfold insert_slot insert_new in tt
  inserted-Sorted false low [] l s f = unfold insert_slot insert_new insert_at in (l, pos, fits, tt)
  inserted-Sorted full low (e ∷ []) l s f = elim (dec_lt e.base x.base) [
    | no h ↦
        rw (inserted-front full x e [] (omega arith))
          (front-Sorted full low e [] l (ground arith) s)
    | yes h ↦
        rw (inserted-second full x e [] h refl) (last-Sorted full low e s.0 s.1 (ground arith))
  ]
  inserted-Sorted full low (e ∷ n ∷ es) l s f = elim (dec_lt e.base x.base) [
    | no h ↦
        rw (inserted-front full x e (n ∷ es) (omega arith))
          (front-Sorted full low e (n ∷ es) l (ground arith) s)
    | yes h ↦ elim (dec_lt n.base x.base) [
      | no k ↦
          rw (inserted-second full x e (n ∷ es) h (ground arith))
            (between-Sorted full low e n es (ground arith) (ground arith) s)
      | yes k ↦
          rw (inserted-cons full x e n es h k)
            (s.0, s.1, s.2, inserted-Sorted full (e.base + e.len) (n ∷ es) (ground arith) s.3 f.1)
    ]
  ]

  -- One address, where the table is not full.
  abbrev Inserted : ℕ → List Entry → List Entry → Type 0
  Inserted a old new =
      lookup new a ≡ (if inside x.base x.len a then some (x.prot, x.kind) else lookup old a)

  front-lookup :
      (a : ℕ) (e : Entry) (es : List Entry)
      → x.base + x.len ≤ e.base
      → e.base + e.len < 2 ^ 64
      → Inserted a (e ∷ es) (insert_new false (e ∷ es) 0 x (some e))
  unfolding insert_new insert_at lookup
  front-lookup a e es h k = ground arith

  last-lookup :
      (a : ℕ) (e : Entry)
      → e.base + e.len ≤ x.base
      → Inserted a (e ∷ []) (insert_slot false (e ∷ []) 1 x (some e))
  unfolding insert_slot insert_new merge_next insert_at lookup
  last-lookup a e h = ground arith

  between-lookup :
      (a : ℕ) (e n : Entry) (es : List Entry)
      → e.base + e.len ≤ x.base
      → x.base + x.len ≤ n.base
      → n.base + n.len < 2 ^ 64
      → Inserted a (e ∷ n ∷ es) (insert_slot false (e ∷ n ∷ es) 1 x (some e))
  unfolding insert_slot insert_new merge_next insert_at delete_at can_merge lookup
  between-lookup a e n es h k m = elim (Bool-cases (joins_before x e)) [
    | inl t ↦ rw t (elim (Bool-cases (can_merge (record e { len = u64 (e.len + x.len) }) n)) [
      | inl u ↦ rw u (ground arith)
      | inr u ↦ rw u (ground arith)
    ])
    | inr t ↦ rw t (elim (Bool-cases (joins_after x n)) [
      | inl u ↦ rw u (ground arith)
      | inr u ↦ rw u (ground arith)
    ])
  ]

  inserted-lookup :
      (low a : ℕ) (es : List Entry)
      → Sorted low es
      → Free x es
      → Inserted a es (inserted false x es)
  unfolding find_idx lookup
  inserted-lookup low a [] s f = unfold insert_slot insert_new insert_at lookup in ground arith
  inserted-lookup low a (e ∷ []) s f = elim (dec_lt e.base x.base) [
    | no h ↦ rw (inserted-front false x e [] (omega arith)) (front-lookup a e [] (ground arith) s.2)
    | yes h ↦ rw (inserted-second false x e [] h refl) (last-lookup a e (ground arith))
  ]
  inserted-lookup low a (e ∷ n ∷ es) s f = elim (dec_lt e.base x.base) [
    | no h ↦
        rw (inserted-front false x e (n ∷ es) (omega arith))
          (front-lookup a e (n ∷ es) (ground arith) s.2)
    | yes h ↦ elim (dec_lt n.base x.base) [
      | no k ↦
          rw (inserted-second false x e (n ∷ es) h (ground arith))
            (between-lookup a e n es (ground arith) (ground arith) s.3.2)
      | yes k ↦
          rw (inserted-cons false x e n es h k)
            (ground (arith, inserted-lookup (e.base + e.len) a (n ∷ es) s.3 f.1))
    ]
  ]

-- In a sorted table, inserting a range that is not empty, does not wrap and shares no address with an
-- entry keeps the table sorted, full or not; where it is not full, exactly the addresses of the range
-- are mapped anew, with the given protection and kind, and every other one as before, whichever
-- entries were merged.
pub insert-lookup :
    (full : Bool) (es : List Entry) (x : Entry)
    → 0 < x.len
    → x.base + x.len < 2 ^ 64
    → Sorted 0 es
    → Free x es
    → Sorted 0 (insert_entries full es x)
      × (full ≡ false
          → (a : ℕ)
          → lookup (insert_entries full es x) a
            ≡ (if inside x.base x.len a then some (x.prot, x.kind) else lookup es a))
unfolding insert_entries
insert-lookup full es x pos fits s f =
    let nz : (x.len == 0) ≡ false = ground arith in
    rw nz (
      inserted-Sorted x pos fits full 0 es (omega arith) s f,
      λ h a. rw h (inserted-lookup x pos fits 0 a es s f),
    )
