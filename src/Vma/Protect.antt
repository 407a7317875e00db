-- ===== src/Vma/Protect.antt =====
-- `vma_update_prot` of kernel/mm/vma.c changes the protection of the range and nothing else.
use exec_aegis.Base.{
  ℕ, ◌+◌, ◌-◌, ◌^◌, ◌≤◌, ◌<◌, ◌≡◌, ◌≢◌, refl, ◌⊎◌, inl, inr, true, false, ◌&&◌, Option, none, some,
  List, [], ◌∷◌, arith, ltb, leb, ◌==◌, if◌then◌else◌, u64, u32, length, ap, ◌∙◌,
}
use native.Mathlib.Decide.{dec_lt, ℕ_discrete}
use exec_aegis.Vma.{Entry, protect_loop, protect_entries}
use exec_aegis.Vma.Lookup.{inside, lookup, Sorted, Sorted-weaken, lookup_below}

-- The lookup of an address whose protection became `prot`.
unfoldable pub reprotect : ℕ → Option (ℕ × ℕ) → Option (ℕ × ℕ)
reprotect prot none = none
reprotect prot (some (p, k)) = some (prot, k)

module _ (capacity base len end prot count : ℕ) (x : Entry) (es : List Entry) (pos : 0 < x.len)
    (fits : x.base + x.len < 2 ^ 64) (b : base < end) (e : end < 2 ^ 64)
    (l : base + len ≡ end) where
  abbrev next : ℕ
  next = x.base + x.len

  abbrev rest : ℕ → List Entry
  rest k = protect_loop capacity base len end prot k es

  abbrev result : List Entry
  result = protect_loop capacity base len end prot count (x ∷ es)

  -- How the loop treats one entry.
  data ProtectCase : List Entry → Type 0 where
    apart : (next ≤ base) ⊎ (end ≤ x.base) → ProtectCase (x ∷ rest count)
    same : x.prot ≡ prot → ProtectCase (x ∷ rest count)
    within : base ≤ x.base → next ≤ end → ProtectCase (record x { prot = prot } ∷ rest count)
    front :
        base ≤ x.base
        → x.base < end
        → end < next
        → count < capacity
        → ProtectCase (
            record x { len = end - x.base; prot = prot }
            ∷ record x { base = end; len = next - end }
            ∷ rest (u32 (count + 1)))
    back :
        x.base < base
        → base < next
        → next ≤ end
        → count < capacity
        → ProtectCase (
            record x { len = base - x.base }
            ∷ record x { base = base; len = next - base; prot = prot }
            ∷ rest (u32 (count + 1)))
    middle :
        x.base < base
        → end < next
        → u32 (count + 2) ≤ capacity
        → ProtectCase (
            record x { len = base - x.base }
            ∷ record x { base = base; len = end - base; prot = prot }
            ∷ record x { base = end; len = next - end }
            ∷ rest (u32 (count + 2)))
    no_room : x.base < end → capacity ≤ count → ProtectCase (x ∷ rest count)
    no_room_twice : x.base < base → capacity < u32 (count + 2) → ProtectCase (x ∷ rest count)

  apart-eq : (next ≤ base) ⊎ (end ≤ x.base) → result ≡ x ∷ rest count
  unfolding protect_loop
  apart-eq h = ground arith

  same-eq : x.prot ≡ prot → result ≡ x ∷ rest count
  unfolding protect_loop
  same-eq h = ground arith

  within-eq :
      x.prot ≢ prot → base ≤ x.base → next ≤ end → result ≡ record x { prot = prot } ∷ rest count
  unfolding protect_loop
  within-eq ne h k = ground arith

  front-eq :
      x.prot ≢ prot
      → base ≤ x.base
      → x.base < end
      → end < next
      → result ≡ (
          if leb capacity count
          then x ∷ rest count
          else record x { len = end - x.base; prot = prot }
            ∷ record x { base = end; len = next - end }
            ∷ rest (u32 (count + 1)))
  unfolding protect_loop
  front-eq ne h k m = ground arith

  back-eq :
      x.prot ≢ prot
      → x.base < base
      → base < next
      → next ≤ end
      → result ≡ (
          if leb capacity count
          then x ∷ rest count
          else record x { len = base - x.base }
            ∷ record x { base = base; len = next - base; prot = prot }
            ∷ rest (u32 (count + 1)))
  unfolding protect_loop
  back-eq ne h k m = ground arith

  middle-eq :
      x.prot ≢ prot
      → x.base < base
      → end < next
      → result ≡ (
          if ltb capacity (u32 (count + 2))
          then x ∷ rest count
          else record x { len = base - x.base }
            ∷ record x { base = base; len = end - base; prot = prot }
            ∷ record x { base = end; len = next - end }
            ∷ rest (u32 (count + 2)))
  unfolding protect_loop
  middle-eq ne h k = ground arith

  le-leb : (a c : ℕ) → a ≤ c → leb a c ≡ true
  le-leb a c h = ground arith

  lt-leb : (a c : ℕ) → c < a → leb a c ≡ false
  lt-leb a c h = ground arith

  lt-ltb : (a c : ℕ) → a < c → ltb a c ≡ true
  lt-ltb a c h = ground arith

  le-ltb : (a c : ℕ) → c ≤ a → ltb a c ≡ false
  le-ltb a c h = ground arith

  protect_case : ProtectCase result
  protect_case = elim (dec_lt base next) [
    | no p ↦ rw (apart-eq (inl (omega arith))) (apart (inl (omega arith)))
    | yes p ↦ elim (dec_lt x.base end) [
      | no q ↦ rw (apart-eq (inr (omega arith))) (apart (inr (omega arith)))
      | yes q ↦ elim (ℕ_discrete x.prot prot) [
        | yes i ↦ rw (same-eq i) (same i)
        | no ne ↦ elim (dec_lt x.base base) [
          | no r ↦ elim (dec_lt end next) [
            | no t ↦
                rw (within-eq ne (omega arith) (omega arith)) (within (omega arith) (omega arith))
            | yes t ↦ elim (dec_lt count capacity) [
              | yes w ↦
                  rw (front-eq ne (omega arith) q t, lt-leb capacity count w)
                    (front (omega arith) q t w)
              | no w ↦
                  rw (front-eq ne (omega arith) q t, le-leb capacity count (omega arith))
                    (no_room q (omega arith))
            ]
          ]
          | yes r ↦ elim (dec_lt end next) [
            | no t ↦ elim (dec_lt count capacity) [
              | yes w ↦
                  rw (back-eq ne r p (omega arith), lt-leb capacity count w)
                    (back r p (omega arith) w)
              | no w ↦
                  rw (back-eq ne r p (omega arith), le-leb capacity count (omega arith))
                    (no_room q (omega arith))
            ]
            | yes t ↦ elim (dec_lt capacity (u32 (count + 2))) [
              | yes w ↦
                  rw (middle-eq ne r t, lt-ltb capacity (u32 (count + 2)) w) (no_room_twice r w)
              | no w ↦
                  rw (middle-eq ne r t, le-ltb capacity (u32 (count + 2)) (omega arith))
                    (middle r t (omega arith))
            ]
          ]
        ]
      ]
    ]
  ]

  case-Sorted :
      (low : ℕ) {r : List Entry}
      → ProtectCase r
      → low ≤ x.base
      → ((k : ℕ) → Sorted next (rest k))
      → Sorted low r
  case-Sorted low (apart h) i s = (i, pos, fits, s count)
  case-Sorted low (same h) i s = (i, pos, fits, s count)
  case-Sorted low (within h k) i s = (i, pos, fits, s count)
  case-Sorted low (front h k m w) i s =
      let s' =
        Sorted-weaken next (end + (next - end)) (rest (u32 (count + 1))) (omega arith)
          (s (u32 (count + 1))) in
      (i, omega arith, omega arith, (omega arith, omega arith, omega arith, s'))
  case-Sorted low (back h k m w) i s =
      let s' =
        Sorted-weaken next (base + (next - base)) (rest (u32 (count + 1))) (omega arith)
          (s (u32 (count + 1))) in
      (i, omega arith, omega arith, (omega arith, omega arith, omega arith, s'))
  case-Sorted low (middle h k w) i s =
      let s' =
        Sorted-weaken next (end + (next - end)) (rest (u32 (count + 2))) (omega arith)
          (s (u32 (count + 2))) in
      (
        i,
        omega arith,
        omega arith,
        (omega arith, omega arith, omega arith, (omega arith, omega arith, omega arith, s')),
      )
  case-Sorted low (no_room h k) i s = (i, pos, fits, s count)
  case-Sorted low (no_room_twice h k) i s = (i, pos, fits, s count)

  -- Room for the splits that entries from `low` on can take: two where the range may begin within an
  -- entry, one where it may only end within one.
  abbrev Room : ℕ → ℕ → Type 0
  Room k low = (low < end → k < capacity) × (low ≤ base → k + 2 ≤ capacity)

  abbrev Protected : ℕ → List Entry → List Entry → Type 0
  Protected a old new =
      lookup new a
      ≡ (if leb base a && ltb a end then reprotect prot (lookup old a) else lookup old a)

  case-Protected :
      (a : ℕ) {r : List Entry}
      → ProtectCase r
      → Sorted next es
      → count + 2 < 2 ^ 32
      → Room count x.base
      → ((k : ℕ) → k ≤ count + 1 → Room k next → Protected a es (rest k))
      → (end ≤ next → (k : ℕ) → rest k ≡ es)
      → Protected a (x ∷ es) r
  unfolding lookup reprotect
  case-Protected a (apart h) s small room ih past =
      ground (arith, ih count (omega arith) (omega arith), lookup_below next a es s)
  case-Protected a (same h) s small room ih past =
      ground (arith, ih count (omega arith) (omega arith))
  case-Protected a (within h k) s small room ih past =
      ground (arith, ih count (omega arith) (omega arith))
  case-Protected a (front h k m w) s small room ih past =
      rw (past (omega arith)) (ground (arith, lookup_below next a es s))
  case-Protected a (back h k m w) s small room ih past =
      let fresh : u32 (count + 1) ≡ count + 1 = omega arith in
      rw fresh
        (ground (arith, ih (count + 1) (omega arith) (omega arith), lookup_below next a es s))
  case-Protected a (middle h k w) s small room ih past =
      rw (past (omega arith)) (ground (arith, lookup_below next a es s))
  case-Protected a (no_room h k) s small room ih past = absurd (omega arith)
  case-Protected a (no_room_twice h k) s small room ih past = absurd (omega arith)

module _ (capacity base len end prot : ℕ) (b : base < end) (e : end < 2 ^ 64)
    (l : base + len ≡ end) where
  protect_past :
      (count low : ℕ) (es : List Entry)
      → Sorted low es
      → end ≤ low
      → protect_loop capacity base len end prot count es ≡ es
  unfolding protect_loop
  protect_past count low [] s h = refl
  protect_past count low (x ∷ es) s h =
      apart-eq capacity base len end prot count x es s.1 s.2 b e l (inr (omega arith))
      ∙ ap (λ t. x ∷ t) (protect_past count (x.base + x.len) es s.3 (omega arith))

  protect_loop-Sorted :
      (count low : ℕ) (es : List Entry)
      → Sorted low es
      → Sorted low (protect_loop capacity base len end prot count es)
  unfolding protect_loop
  protect_loop-Sorted count low [] s = tt
  protect_loop-Sorted count low (x ∷ es) s =
      case-Sorted capacity base len end prot count x es s.1 s.2 b e l low
        (protect_case capacity base len end prot count x es s.1 s.2 b e l) s.0
        (λ k. protect_loop-Sorted k (x.base + x.len) es s.3)

  protect_loop-lookup :
      (count low a : ℕ) (es : List Entry)
      → count + length es + 2 < 2 ^ 32
      → (low < end → count < capacity)
      → (low ≤ base → count + 2 ≤ capacity)
      → Sorted low es
      → lookup (protect_loop capacity base len end prot count es) a
        ≡ (if leb base a && ltb a end then reprotect prot (lookup es a) else lookup es a)
  unfolding protect_loop lookup reprotect
  protect_loop-lookup count low a [] small one two s = ground arith
  protect_loop-lookup count low a (x ∷ es) small one two s =
      case-Protected capacity base len end prot count x es s.1 s.2 b e l a
        (protect_case capacity base len end prot count x es s.1 s.2 b e l) s.3 (omega arith)
        (omega arith)
        (λ k h room. protect_loop-lookup k (x.base + x.len) a es (omega arith) room.0 room.1 s.3)
        (λ h k. protect_past k (x.base + x.len) es s.3 h)

protect_entries-eq :
    (capacity base len prot : ℕ) (es : List Entry)
    → 0 < len
    → base + len < 2 ^ 64
    → protect_entries capacity es base len prot
      ≡ protect_loop capacity base len (base + len) prot (length es) es
unfolding protect_entries
protect_entries-eq capacity base len prot es pos fits =
    let e : u64 (base + len) ≡ base + len = omega arith in
    let nz : (len == 0) ≡ false = ground arith in rw (nz, e)

-- In a sorted table of capacity below 2^31 with room for two more entries, `vma_update_prot` on a
-- range that is not empty and does not wrap gives every mapped address of the range the new
-- protection and its old kind, and leaves every other address as it was; the table stays sorted,
-- with or without that room.
pub protect-lookup :
    (capacity base len prot : ℕ) (es : List Entry)
    → 0 < len
    → base + len < 2 ^ 64
    → Sorted 0 es
    → Sorted 0 (protect_entries capacity es base len prot)
      × (length es + 2 ≤ capacity
          → capacity < 2 ^ 31
          → (a : ℕ)
          → lookup (protect_entries capacity es base len prot) a
            ≡ (if inside base len a then reprotect prot (lookup es a) else lookup es a))
protect-lookup capacity base len prot es pos fits s =
    rw (protect_entries-eq capacity base len prot es pos fits) (
      protect_loop-Sorted capacity base len (base + len) prot (omega arith) fits refl (length es) 0
          es s,
      λ room small a.
          protect_loop-lookup capacity base len (base + len) prot (omega arith) fits refl
            (length es) 0 a es (omega arith) (λ h. omega arith) (λ h. omega arith) s,
    )
