-- ===== src/Cap/Room.antt =====
-- The empty slots of a table: a grant takes at most one, and succeeds while there is one.
use Prim.Native.Nat.{bit_and}
use exec_aegis.Base.{
  ℕ, zero, suc, ◌+◌, ◌≤◌, ◌≡◌, ◌≢◌, true, ◌&&◌, ◌||◌, some, List, [], ◌∷◌, arith, ◌==◌,
  if◌then◌else◌, Bool-cases, Option-cases, inl, inr,
}
use exec_aegis.Cap.Table.{Slot, table_size, grant_from, cap_grant, cap_check}
use exec_aegis.Cap.Grant.{has_room, cap_grant-cap_check}
use exec_aegis.Cap.Exec.{granted}

-- The number of empty slots among the first `n`.
unfoldable pub empty_count : ℕ → List Slot → ℕ
empty_count zero ss = 0
empty_count (suc n) [] = 0
empty_count (suc n) (s ∷ ss) = (if s.kind == 0 then 1 else 0) + empty_count n ss

has_room-empty_count : (n : ℕ) (ss : List Slot) → 1 ≤ empty_count n ss → has_room n ss ≡ true
unfolding empty_count has_room
has_room-empty_count zero ss le = absurd (omega arith)
has_room-empty_count (suc n) [] le = absurd (omega arith)
has_room-empty_count (suc n) (s ∷ ss) le =
    let ih : 1 ≤ empty_count n ss → has_room n ss ≡ true = has_room-empty_count n ss in
    ground (arith, ih)

grant_from-empty_count :
    (n i : ℕ) (ss : List Slot) (kind rights j : ℕ) (ss' : List Slot)
    → grant_from n i ss kind rights ≡ some (j, ss')
    → empty_count n ss ≤ empty_count n ss' + 1
unfolding empty_count grant_from
grant_from-empty_count zero i ss kind rights j ss' e = absurd (cc e)
grant_from-empty_count (suc n) i [] kind rights j ss' e = absurd (cc e)
grant_from-empty_count (suc n) i (s ∷ ss) kind rights j ss' e = elim (Bool-cases (s.kind == 0)) [
  | inl free ↦
      let q : some (i, record { kind = kind; rights = rights } ∷ ss) ≡ some (j, ss') =
        rw free at e in
      let q' : record { kind = kind; rights = rights } ∷ ss ≡ ss' = cc q in rw (← q') (ground arith)
  | inr used ↦ elim (Option-cases (grant_from n (i + 1) ss kind rights)) [
    | inl full ↦ absurd (grind (arith, used, full, e))
    | inr ((m, ss1), found) ↦
        let q : some (m, s ∷ ss1) ≡ some (j, ss') = rw (used, found) at e in
        let q' : s ∷ ss1 ≡ ss' = cc q in
        let ih : empty_count n ss ≤ empty_count n ss1 + 1 =
          grant_from-empty_count n (i + 1) ss kind rights m ss1 found in
        rw (← q') (ground (arith, ih))
  ]
]

module _ (ss : List Slot) (kind rights k w : ℕ) (ne : k ≢ 0) where
  -- A grant adds no check but those of the slot granted.
  pub granted-only :
      cap_check (granted ss kind rights) table_size k w ≡ true
      → (cap_check ss table_size k w || (kind == k && bit_and rights w == w)) ≡ true
  unfolding granted
  granted-only ok = elim (Option-cases (cap_grant ss table_size kind rights)) [
    | inl full ↦ let old : cap_check ss table_size k w ≡ true = rw (full, granted) at ok in rw old
    | inr ((j, ss'), e) ↦
        let new : cap_check ss' table_size k w ≡ true = rw (e, granted) at ok in
        let checks = (cap_grant-cap_check ss table_size kind rights).1 j ss' e in
        cc (new, checks.1 k w ne)
  ]

  -- With an empty slot the grant is made.
  pub granted-checks :
      1 ≤ empty_count table_size ss
      → cap_check (granted ss kind rights) table_size k w
        ≡ (cap_check ss table_size k w || (kind == k && bit_and rights w == w))
  unfolding granted
  granted-checks le =
      let room : has_room table_size ss ≡ true = has_room-empty_count table_size ss le in
      let fact = cap_grant-cap_check ss table_size kind rights in
      elim (Option-cases (cap_grant ss table_size kind rights)) [
        | inl full ↦ absurd (cc (full, room, fact.0))
        | inr ((j, ss'), e) ↦ rw (e, granted) ((fact.1 j ss' e).1 k w ne)
      ]

-- A grant takes one empty slot at most.
pub granted-empty_count :
    (ss : List Slot) (kind rights : ℕ)
    → empty_count table_size ss ≤ empty_count table_size (granted ss kind rights) + 1
unfolding granted cap_grant
granted-empty_count ss kind rights = elim (Option-cases (grant_from table_size 0 ss kind rights)) [
  | inl full ↦ rw (full, granted) (omega arith)
  | inr ((j, ss'), e) ↦ rw (e, granted) (grant_from-empty_count table_size 0 ss kind rights j ss' e)
]
