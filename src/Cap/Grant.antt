-- ===== src/Cap/Grant.antt =====
-- What a grant does to the checks (kernel/cap/src/lib.rs).
use Prim.Native.Nat.{bit_and}
use exec_aegis.Base.{
  ℕ, zero, suc, ◌+◌, ◌≡◌, ◌≢◌, refl, Bool, true, false, ◌&&◌, ◌||◌, Option, none, some, List, [],
  ◌∷◌, arith, min, ◌==◌, is_some, length, Bool-cases, inl, inr,
}
use exec_aegis.Cap.Table.{Slot, table_size, grants, grant_from, cap_grant, check_first, cap_check}

-- Is one of the first `n` slots empty?
unfoldable pub has_room : ℕ → List Slot → Bool
has_room zero ss = false
has_room (suc n) [] = false
has_room (suc n) (s ∷ ss) = s.kind == 0 || has_room n ss

-- What a grant of (kind, rights) in the first `n` slots comes to.
record Granted (n : ℕ) (ss : List Slot) (kind rights : ℕ) (r : Option (ℕ × List Slot))
    : Type 0 where
  room : is_some r ≡ has_room n ss
  checks :
      (j : ℕ) (ss' : List Slot) (k w : ℕ)
      → r ≡ some (j, ss')
      → k ≢ 0
      → check_first n ss' k w ≡ (check_first n ss k w || (kind == k && bit_and rights w == w))
  size : (j : ℕ) (ss' : List Slot) → r ≡ some (j, ss') → length ss' ≡ length ss

module _ (n i : ℕ) (s : Slot) (ss : List Slot) (kind rights : ℕ) where
  abbrev granted : Slot
  granted = record { kind = kind; rights = rights }

  -- The first slot is empty, and takes the grant.
  first-Granted :
      (s.kind == 0) ≡ true → Granted (suc n) (s ∷ ss) kind rights (some (i, granted ∷ ss))
  unfolding has_room check_first grants
  first-Granted free = record {
    room = rw free;
    checks = λ j ss' k w e ne. let q : granted ∷ ss ≡ ss' = cc e in rw (← q) (ground arith);
    size = λ j ss' e. let q : granted ∷ ss ≡ ss' = cc e in rw (← q);
  }

  -- The grant is made further on, or nowhere.
  later-Granted :
      (s.kind == 0) ≡ false
      → (r : Option (ℕ × List Slot)) → Granted n ss kind rights r
      → Granted
          (suc n)
          (s ∷ ss)
          kind
          rights
          (elim r [ none ↦ none | some (j, ss') ↦ some (j, s ∷ ss') ])
  unfolding has_room check_first grants
  later-Granted used none g = record {
    room = rw used g.room;
    checks = λ j ss' k w e. absurd (cc e);
    size = λ j ss' e. absurd (cc e);
  }
  later-Granted used (some (m, ss1)) g = record {
    room = rw used g.room;
    checks = λ j ss' k w e ne.
        let q : s ∷ ss1 ≡ ss' = cc e in rw (← q) (ground (arith, g.checks m ss1 k w refl ne));
    size = λ j ss' e. let q : s ∷ ss1 ≡ ss' = cc e in rw (← q) (omega (arith, g.size m ss1 refl));
  }

grant_from-Granted :
    (n i : ℕ) (ss : List Slot) (kind rights : ℕ)
    → Granted n ss kind rights (grant_from n i ss kind rights)
unfolding grant_from has_room check_first
grant_from-Granted zero i ss kind rights = record {
  room = refl;
  checks = λ j ss' k w e. absurd (cc e);
  size = λ j ss' e. absurd (cc e);
}
grant_from-Granted (suc n) i [] kind rights = record {
  room = refl;
  checks = λ j ss' k w e. absurd (cc e);
  size = λ j ss' e. absurd (cc e);
}
grant_from-Granted (suc n) i (s ∷ ss) kind rights =
    let later = later-Granted n i s ss kind rights in
    let ih = grant_from-Granted n (i + 1) ss kind rights in
    elim (Bool-cases (s.kind == 0)) [
      | inl free ↦ rw free (first-Granted n i s ss kind rights free)
      | inr used ↦ rw used (later used (grant_from n (i + 1) ss kind rights) ih)
    ]

-- A grant succeeds exactly if one of the table's first `n` slots (64 at most) is empty. It then keeps
-- the table's length, and the checks of those slots pass that passed before and those that ask for
-- the kind granted and rights among those granted; no other. (Kind 0 marks an empty slot.)
pub cap_grant-cap_check :
    (ss : List Slot) (n kind rights : ℕ)
    → (is_some (cap_grant ss n kind rights) ≡ has_room (min n table_size) ss)
      × ((j : ℕ) (ss' : List Slot)
          → cap_grant ss n kind rights ≡ some (j, ss')
          → (length ss' ≡ length ss)
            × ((k w : ℕ)
                → k ≢ 0
                → cap_check ss' n k w
                  ≡ (cap_check ss n k w || (kind == k && bit_and rights w == w))))
unfolding cap_grant cap_check
cap_grant-cap_check ss n kind rights =
    let g = grant_from-Granted (min n table_size) 0 ss kind rights in
    (g.room, λ j ss' e. (g.size j ss' e, λ k w ne. g.checks j ss' k w e ne))
