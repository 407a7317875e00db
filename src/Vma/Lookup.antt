-- ===== src/Vma/Lookup.antt =====
-- What the table of kernel/mm/vma.c says of an address, and when a table is well formed.
use exec_aegis.Base.{
  ℕ, ◌+◌, ◌^◌, ◌≤◌, ◌<◌, ◌≡◌, refl, Bool, ◌&&◌, Option, none, some, List, [], ◌∷◌, arith, ltb, leb,
  if◌then◌else◌,
}
use exec_aegis.Vma.{Entry}

abbrev pub inside : ℕ → ℕ → ℕ → Bool
inside base len a = leb base a && ltb a (base + len)

-- The protection and the kind of the entry that holds an address.
unfoldable pub lookup : List Entry → ℕ → Option (ℕ × ℕ)
lookup [] a = none
lookup (e ∷ es) a = if inside e.base e.len a then some (e.prot, e.kind) else lookup es a

-- From the address `low` on the entries are sorted, do not overlap, are not empty and do not wrap.
abbrev pub Sorted : ℕ → List Entry → Type 0
Sorted low [] = Unit {0}
Sorted low (e ∷ es) =
    (low ≤ e.base) × (0 < e.len) × (e.base + e.len < 2 ^ 64) × Sorted (e.base + e.len) es

pub Sorted-weaken : (low low' : ℕ) (es : List Entry) → low' ≤ low → Sorted low es → Sorted low' es
Sorted-weaken low low' [] h s = tt
Sorted-weaken low low' (e ∷ es) h s = (omega arith, s.1, s.2, s.3)

-- Below its first address a sorted table maps nothing.
pub lookup_below : (low a : ℕ) (es : List Entry) → Sorted low es → a < low → lookup es a ≡ none
unfolding lookup
lookup_below low a [] s h = refl
lookup_below low a (e ∷ es) s h = ground (arith, lookup_below (e.base + e.len) a es s.3)
