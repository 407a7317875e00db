-- ===== src/Vma/Remove.antt =====
-- `vma_remove` of kernel/mm/vma.c takes the range out of the table and nothing else.
use exec_aegis.Base.{
  ℕ, ◌+◌, ◌-◌, ◌^◌, ◌≤◌, ◌<◌, ◌≡◌, refl, ◌⊎◌, inl, inr, false, ◌&&◌, none, List, [], ◌∷◌, arith,
  ltb, leb, ◌==◌, if◌then◌else◌, u64, u32, length, ap, ◌∙◌, ◌++◌,
}
use native.Mathlib.Decide.{dec_lt}
use exec_aegis.Vma.{Entry, remove_loop, remove_entries}
use exec_aegis.Vma.Lookup.{inside, lookup, Sorted, Sorted-weaken, lookup_below}

module _ (capacity base end count : ℕ) (x : Entry) (es : List Entry) (pos : 0 < x.len)
    (fits : x.base + x.len < 2 ^ 64) (b : base < end) (e : end < 2 ^ 64) where
  -- How the loop treats one entry.
  data RemoveCase : List Entry → Type 0 where
    apart :
        (x.base + x.len ≤ base) ⊎ (end ≤ x.base)
        → RemoveCase (x ∷ remove_loop capacity base end count es)
    within :
        base ≤ x.base
        → x.base + x.len ≤ end
        → RemoveCase (remove_loop capacity base end (count - 1) es)
    head_cut :
        base ≤ x.base
        → x.base < end
        → end < x.base + x.len
        → RemoveCase (
            record x { base = end; len = x.base + x.len - end }
            ∷ remove_loop capacity base end count es)
    tail_cut :
        x.base < base
        → base < x.base + x.len
        → x.base + x.len ≤ end
        → RemoveCase (record x { len = base - x.base } ∷ remove_loop capacity base end count es)
    no_room :
        x.base < base
        → end < x.base + x.len
        → capacity ≤ count
        → RemoveCase (x ∷ remove_loop capacity base end count es)
    split :
        x.base < base
        → end < x.base + x.len
        → count < capacity
        → RemoveCase (
            record x { len = base - x.base }
            ∷ record x { base = end; len = x.base + x.len - end }
            ∷ remove_loop capacity base end (u32 (count + 1)) es)

  abbrev result : List Entry
  result = remove_loop capacity base end count (x ∷ es)

  apart-eq :
      (x.base + x.len ≤ base) ⊎ (end ≤ x.base) → result ≡ x ∷ remove_loop capacity base end count es
  unfolding remove_loop
  apart-eq h = ground arith

  within-eq :
      base ≤ x.base → x.base + x.len ≤ end → result ≡ remove_loop capacity base end (count - 1) es
  unfolding remove_loop
  within-eq h k = ground arith

  head_cut-eq :
      base ≤ x.base
      → x.base < end
      → end < x.base + x.len
      → result
        ≡ record x { base = end; len = x.base + x.len - end }
          ∷ remove_loop capacity base end count es
  unfolding remove_loop
  head_cut-eq h k l = ground arith

  tail_cut-eq :
      x.base < base
      → base < x.base + x.len
      → x.base + x.len ≤ end
      → result ≡ record x { len = base - x.base } ∷ remove_loop capacity base end count es
  unfolding remove_loop
  tail_cut-eq h k l = ground arith

  no_room-eq :
      x.base < base
      → end < x.base + x.len
      → capacity ≤ count
      → result ≡ x ∷ remove_loop capacity base end count es
  unfolding remove_loop
  no_room-eq h k l = ground arith

  split-eq :
      x.base < base
      → end < x.base + x.len
      → count < capacity
      → result
        ≡ record x { len = base - x.base }
          ∷ record x { base = end; len = x.base + x.len - end }
          ∷ remove_loop capacity base end (u32 (count + 1)) es
  unfolding remove_loop
  split-eq h k l = ground arith

  remove_case : RemoveCase result
  remove_case = elim (dec_lt base (x.base + x.len)) [
    | no p ↦ rw (apart-eq (inl (omega arith))) (apart (inl (omega arith)))
    | yes p ↦ elim (dec_lt x.base end) [
      | no q ↦ rw (apart-eq (inr (omega arith))) (apart (inr (omega arith)))
      | yes q ↦ elim (dec_lt x.base base) [
        | no r ↦ elim (dec_lt end (x.base + x.len)) [
          | no t ↦ rw (within-eq (omega arith) (omega arith)) (within (omega arith) (omega arith))
          | yes t ↦ rw (head_cut-eq (omega arith) q t) (head_cut (omega arith) q t)
        ]
        | yes r ↦ elim (dec_lt end (x.base + x.len)) [
          | no t ↦ rw (tail_cut-eq r p (omega arith)) (tail_cut r p (omega arith))
          | yes t ↦ elim (dec_lt count capacity) [
            | yes w ↦ rw (split-eq r t w) (split r t w)
            | no w ↦ rw (no_room-eq r t (omega arith)) (no_room r t (omega arith))
          ]
        ]
      ]
    ]
  ]

  abbrev next : ℕ
  next = x.base + x.len

  abbrev rest : ℕ → List Entry
  rest k = remove_loop capacity base end k es

  case-Sorted :
      (low : ℕ) {r : List Entry}
      → RemoveCase r
      → low ≤ x.base
      → ((k : ℕ) → Sorted next (rest k))
      → Sorted low r
  case-Sorted low (apart h) l s = (l, pos, fits, s count)
  case-Sorted low (within h k) l s =
      Sorted-weaken next low (rest (count - 1)) (omega arith) (s (count - 1))
  case-Sorted low (head_cut h k m) l s = (
    omega arith,
    omega arith,
    omega arith,
    Sorted-weaken next _ (rest count) (omega arith) (s count),
  )
  case-Sorted low (tail_cut h k m) l s = (
    omega arith,
    omega arith,
    omega arith,
    Sorted-weaken next _ (rest count) (omega arith) (s count),
  )
  case-Sorted low (no_room h k m) l s = (l, pos, fits, s count)
  case-Sorted low (split h k m) l s = (
    omega arith,
    omega arith,
    omega arith,
    (
      omega arith,
      omega arith,
      omega arith,
      Sorted-weaken next _ (rest (u32 (count + 1))) (omega arith) (s (u32 (count + 1))),
    ),
  )

  -- The entry at one address, where the loop does right by the later entries.
  abbrev Removed : ℕ → List Entry → List Entry → Type 0
  Removed a old new = lookup new a ≡ (if leb base a && ltb a end then none else lookup old a)

  case-Removed :
      (a : ℕ) {r : List Entry}
      → RemoveCase r
      → Sorted next es
      → count < capacity
      → Removed a es (rest count)
      → Removed a es (rest (count - 1))
      → (end ≤ next → (k : ℕ) → rest k ≡ es)
      → Removed a (x ∷ es) r
  unfolding lookup
  case-Removed a (apart h) s room ih ih' past = ground arith
  case-Removed a (within h k) s room ih ih' past = ground arith
  case-Removed a (head_cut h k m) s room ih ih' past = ground arith
  case-Removed a (tail_cut h k m) s room ih ih' past = ground arith
  case-Removed a (no_room h k m) s room ih ih' past = absurd (omega arith)
  case-Removed a (split h k m) s room ih ih' past =
      rw (past (omega arith)) (ground (arith, lookup_below next a es s))

-- In a sorted table the entries before one lie below it.
Sorted-append_le :
    (low : ℕ) (x : Entry) (front back : List Entry) → Sorted low (front ++ x ∷ back) → low ≤ x.base
Sorted-append_le low x [] back s = s.0
Sorted-append_le low x (y ∷ front) back s =
    omega (arith, Sorted-append_le (y.base + y.len) x front back s.3)

module _ (capacity base end : ℕ) (b : base < end) (e : end < 2 ^ 64) where
  remove_past :
      (count low : ℕ) (es : List Entry)
      → Sorted low es
      → end ≤ low
      → remove_loop capacity base end count es ≡ es
  unfolding remove_loop
  remove_past count low [] s h = refl
  remove_past count low (x ∷ es) s h =
      apart-eq capacity base end count x es s.1 s.2 b e (inr (omega arith))
      ∙ ap (λ t. x ∷ t) (remove_past count (x.base + x.len) es s.3 (omega arith))

  remove_loop-Sorted :
      (count low : ℕ) (es : List Entry)
      → Sorted low es
      → Sorted low (remove_loop capacity base end count es)
  unfolding remove_loop
  remove_loop-Sorted count low [] s = tt
  remove_loop-Sorted count low (x ∷ es) s =
      case-Sorted capacity base end count x es s.1 s.2 b e low
        (remove_case capacity base end count x es s.1 s.2 b e) s.0
        (λ k. remove_loop-Sorted k (x.base + x.len) es s.3)

  remove_loop-lookup :
      (count low a : ℕ) (es : List Entry)
      → count < capacity
      → Sorted low es
      → lookup (remove_loop capacity base end count es) a
        ≡ (if leb base a && ltb a end then none else lookup es a)
  unfolding remove_loop lookup
  remove_loop-lookup count low a [] room s = ground arith
  remove_loop-lookup count low a (x ∷ es) room s =
      case-Removed capacity base end count x es s.1 s.2 b e a
        (remove_case capacity base end count x es s.1 s.2 b e) s.3 room
        (remove_loop-lookup count (x.base + x.len) a es room s.3)
        (remove_loop-lookup (count - 1) (x.base + x.len) a es (omega arith) s.3)
        (λ h k. remove_past k (x.base + x.len) es s.3 h)

  -- A full table, and a range strictly within one entry.
  remove_loop-full :
      (count low : ℕ) (x : Entry) (front back : List Entry)
      → capacity ≤ count
      → Sorted low (front ++ x ∷ back)
      → x.base < base
      → end < x.base + x.len
      → remove_loop capacity base end count (front ++ x ∷ back) ≡ front ++ x ∷ back
  remove_loop-full count low x [] back full s h k =
      no_room-eq capacity base end count x back s.1 s.2 b e h k full
      ∙ ap (λ t. x ∷ t) (remove_past count (x.base + x.len) back s.3 (omega arith))
  remove_loop-full count low x (y ∷ front) back full s h k =
      apart-eq capacity base end count y (front ++ x ∷ back) s.1 s.2 b e
        (inl (omega (arith, Sorted-append_le (y.base + y.len) x front back s.3)))
      ∙ ap (λ t. y ∷ t) (remove_loop-full count (y.base + y.len) x front back full s.3 h k)

remove_entries-eq :
    (capacity base len : ℕ) (es : List Entry)
    → 0 < len
    → base + len < 2 ^ 64
    → remove_entries capacity es base len ≡ remove_loop capacity base (base + len) (length es) es
unfolding remove_entries
remove_entries-eq capacity base len es pos fits =
    let e : u64 (base + len) ≡ base + len = omega arith in
    let nz : (len == 0) ≡ false = ground arith in rw (nz, e)

-- In a sorted table with room for one more entry, removing a range that is not empty and does not
-- wrap leaves exactly the other addresses mapped, each as before; the table stays sorted, with or
-- without that room.
pub remove-lookup :
    (capacity base len : ℕ) (es : List Entry)
    → 0 < len
    → base + len < 2 ^ 64
    → Sorted 0 es
    → Sorted 0 (remove_entries capacity es base len)
      × (length es < capacity
          → (a : ℕ)
          → lookup (remove_entries capacity es base len) a
            ≡ (if inside base len a then none else lookup es a))
remove-lookup capacity base len es pos fits s =
    rw (remove_entries-eq capacity base len es pos fits) (
      remove_loop-Sorted capacity base (base + len) (omega arith) fits (length es) 0 es s,
      λ room a.
          remove_loop-lookup capacity base (base + len) (omega arith) fits (length es) 0 a es room
            s,
    )

-- In a full sorted table, removing a range strictly within one entry changes nothing at all: the
-- range stays mapped.
remove_full :
    (capacity base len : ℕ) (x : Entry) (front back : List Entry)
    → 0 < len
    → capacity ≤ length (front ++ x ∷ back)
    → Sorted 0 (front ++ x ∷ back)
    → x.base < base
    → base + len < x.base + x.len
    → x.base + x.len < 2 ^ 64
    → remove_entries capacity (front ++ x ∷ back) base len ≡ front ++ x ∷ back
remove_full capacity base len x front back pos full s h k w =
    rw (remove_entries-eq capacity base len (front ++ x ∷ back) pos (omega arith)) (
      remove_loop-full capacity base (base + len) (omega arith) (omega arith)
        (length (front ++ x ∷ back)) 0 x front back full s h k)
