-- ===== src/Cap/Spawn.antt =====
-- The mask that a spawn passes (sys_spawn of kernel/syscall/sys_exec.c).
use Prim.Native.Nat.{bit_and}
use exec_aegis.Base.{
  ℕ, zero, suc, ◌≤◌, ◌≡◌, ◌≢◌, refl, ◌∙◌, Bool, true, false, ◌&&◌, ◌||◌, not, Option, List, [], ◌∷◌,
  arith, ◌==◌, ltb, length, Bool-cases, inl, inr, ◌⊎◌, eqb→eq,
}
use exec_aegis.Cap.Kind
use exec_aegis.Cap.Table.{
  Slot, table_size, rights_read, check_first, cap_check, grants, empty_table,
}
use exec_aegis.Cap.Rights.{covers_trans}
use exec_aegis.Cap.Room.{empty_count, granted-only, granted-checks, granted-empty_count}
use exec_aegis.Cap.Authority.{empty_table-checks, empty_table-empty_count}
use exec_aegis.Cap.Exec.{
  PolicyCap, granted, exec_caps, caps, errno, enocap, efault, einval, apply_mask, spawn_caps,
}

check_first-weaken :
    (n : ℕ) (ss : List Slot) (k r w : ℕ)
    → bit_and r w ≡ w
    → check_first n ss k r ≡ true
    → check_first n ss k w ≡ true
unfolding check_first grants
check_first-weaken zero ss k r w sub ok = ok
check_first-weaken (suc n) [] k r w sub ok = ok
check_first-weaken (suc n) (s ∷ ss) k r w sub ok =
    let ih : check_first n ss k r ≡ true → check_first n ss k w ≡ true =
      check_first-weaken n ss k r w sub in
    let here : bit_and s.rights r ≡ r → bit_and s.rights w ≡ w =
      λ have. covers_trans s.rights r w have sub in
    ground (arith, ih, here)

-- A table that passes a check passes it for fewer rights.
cap_check-weaken :
    (ss : List Slot) (k r w : ℕ)
    → bit_and r w ≡ w
    → cap_check ss table_size k r ≡ true
    → cap_check ss table_size k w ≡ true
unfolding cap_check
cap_check-weaken ss k r w sub ok = check_first-weaken table_size ss k r w sub ok

-- A table that passes a check passes every check that a slot of the same kind and rights answers.
pub cap_check-answers :
    (ss : List Slot) (kind rights k w : ℕ)
    → (kind == k && bit_and rights w == w) ≡ true
    → cap_check ss table_size kind rights ≡ true
    → cap_check ss table_size k w ≡ true
cap_check-answers ss kind rights k w here held =
    let e : kind ≡ k = eqb→eq kind k (ground (arith, here)) in
    let sub : bit_and rights w ≡ w = eqb→eq (bit_and rights w) w (ground (arith, here)) in
    rw (← e) (cap_check-weaken ss kind rights w sub held)

caps-injective : (a b : List Slot) → caps a ≡ caps b → a ≡ b
caps-injective a b e = cc e

module _ (parent computed : List Slot) where
  -- The two tables both pass a check.
  abbrev both : ℕ → ℕ → Bool
  both k w = cap_check parent table_size k w && cap_check computed table_size k w

  -- What one grant of the loop adds is in both tables.
  granted-both :
      (child : List Slot) (kind rights k w : ℕ)
      → k ≢ 0
      → both kind rights ≡ true
      → cap_check (granted child kind rights) table_size k w ≡ true
      → (cap_check child table_size k w || both k w) ≡ true
  granted-both child kind rights k w ne held ok =
      let only = granted-only child kind rights k w ne ok in
      elim (Bool-cases (kind == k && bit_and rights w == w)) [
        | inl here ↦
            let p = cap_check-answers parent kind rights k w here (ground (arith, held)) in
            let q = cap_check-answers computed kind rights k w here (ground (arith, held)) in
            rw (p, q) (ground arith)
        | inr elsewhere ↦ ground (arith, only, elsewhere)
      ]

  apply_mask-both :
      (ms child child' : List Slot) (k w : ℕ)
      → k ≢ 0
      → apply_mask parent computed ms child ≡ caps child'
      → cap_check child' table_size k w ≡ true
      → (cap_check child table_size k w || both k w) ≡ true
  unfolding apply_mask
  apply_mask-both [] child child' k w ne e ok =
      let same : child ≡ child' = caps-injective child child' e in rw same (ground (arith, ok))
  apply_mask-both (m ∷ ms) child child' k w ne e ok =
      let skip = apply_mask-both ms child child' k w ne in
      let take = apply_mask-both ms (granted child m.kind m.rights) child' k w ne in
      let one = granted-both child m.kind m.rights k w ne in ground (arith, skip, take, one)

-- A parent that spawns a child with a mask may delegate; and of the checks of a kind other than 0, the
-- child fails each one that the parent fails, and each one that exec would not have let it pass.
pub spawn_caps-contained :
    (valid : ℕ → Bool) (mask_at : ℕ → List Slot) (parent : List Slot) (authenticated : Bool)
    (policy : Option (List PolicyCap)) (mask_uptr : ℕ) (child : List Slot) (k w : ℕ)
    → mask_uptr ≢ 0
    → spawn_caps valid mask_at parent authenticated policy mask_uptr ≡ caps child
    → k ≢ 0
    → (cap_check parent table_size Kind.cap_delegate rights_read ≡ true)
      × ((cap_check child table_size k w ≡ false)
          ⊎ ((cap_check parent table_size k w ≡ true)
              × (cap_check (exec_caps authenticated policy) table_size k w ≡ true)))
unfolding spawn_caps
spawn_caps-contained valid mask_at parent authenticated policy mask_uptr child k w masked e ne =
    let computed = exec_caps authenticated policy in
    let loop : apply_mask parent computed (mask_at mask_uptr) empty_table ≡ caps child =
      ground (arith, e, masked) in
    (
      ground (arith, e, masked),
      elim (Bool-cases (cap_check child table_size k w)) [
        | inr fails ↦ inl fails
        | inl ok ↦
            let all =
              apply_mask-both parent computed (mask_at mask_uptr) empty_table child k w ne loop
                ok in
            let empty = empty_table-checks k w ne in
            inr (ground (arith, all, empty), ground (arith, all, empty))
      ],
    )

-- Does a slot of the mask that exec would have given answer a check of (k, w)?
unfoldable pub asked : List Slot → List Slot → ℕ → ℕ → Bool
asked computed [] k w = false
asked computed (m ∷ ms) k w =
    (not (m.kind == Kind.null)
      && cap_check computed table_size m.kind m.rights
      && (m.kind == k && bit_and m.rights w == w))
    || asked computed ms k w

-- May the parent pass on every slot of the mask, and is each one's kind in range?
unfoldable pub may_pass : List Slot → List Slot → Bool
may_pass parent [] = true
may_pass parent (m ∷ ms) =
    (m.kind == Kind.null || (ltb m.kind table_size && cap_check parent table_size m.kind m.rights))
    && may_pass parent ms

module _ (parent computed : List Slot) where
  apply_mask-asked :
      (ms child : List Slot)
      → length ms ≤ empty_count table_size child
      → may_pass parent ms ≡ true
      → (child' : List Slot) × (apply_mask parent computed ms child ≡ caps child')
        × ((k w : ℕ)
            → k ≢ 0
            → cap_check child' table_size k w
              ≡ (cap_check child table_size k w || asked computed ms k w))
  unfolding apply_mask asked may_pass
  apply_mask-asked [] child le may = (child, refl, λ k w ne. ground arith)
  apply_mask-asked (m ∷ ms) child le may =
      let fits = granted-empty_count child m.kind m.rights in
      let skip = apply_mask-asked ms child (omega arith) (ground (arith, may)) in
      let take =
        apply_mask-asked ms (granted child m.kind m.rights) (omega (arith, fits))
          (ground (arith, may)) in
      elim (Bool-cases
        (not (m.kind == Kind.null) && cap_check computed table_size m.kind m.rights)) [
          | inl yes_ ↦ (
            take.0,
            ground (arith, may, yes_, take.1),
            λ k w ne.
                take.2 k w ne
                ∙ (let g = granted-checks child m.kind m.rights k w ne (omega arith) in
                    ground (arith, g, yes_)),
          )
          | inr no_ ↦ (
            skip.0,
            ground (arith, may, no_, skip.1),
            λ k w ne. skip.2 k w ne ∙ ground (arith, no_),
          )
        ]

  -- The loop fails on the first slot that may not be passed on.
  apply_mask-refused :
      (ms child : List Slot)
      → may_pass parent ms ≡ false
      → (apply_mask parent computed ms child ≡ errno einval)
        ⊎ (apply_mask parent computed ms child ≡ errno enocap)
  unfolding apply_mask may_pass
  apply_mask-refused [] child may = absurd (cc may)
  apply_mask-refused (m ∷ ms) child may =
      let skip = apply_mask-refused ms child in
      let take = apply_mask-refused ms (granted child m.kind m.rights) in
      ground (arith, skip, take, may)

-- A parent that may delegate, with a readable mask of 64 slots that it may pass on, spawns a child
-- that passes exactly the checks that a slot of the mask answers which exec would have given.
spawn_caps-asked :
    (valid : ℕ → Bool) (mask_at : ℕ → List Slot) (parent : List Slot) (authenticated : Bool)
    (policy : Option (List PolicyCap)) (mask_uptr : ℕ)
    → mask_uptr ≢ 0
    → cap_check parent table_size Kind.cap_delegate rights_read ≡ true
    → valid mask_uptr ≡ true
    → length (mask_at mask_uptr) ≡ table_size
    → may_pass parent (mask_at mask_uptr) ≡ true
    → (child : List Slot) × (spawn_caps valid mask_at parent authenticated policy mask_uptr
        ≡ caps child)
      × ((k w : ℕ)
          → k ≢ 0
          → cap_check child table_size k w
            ≡ asked (exec_caps authenticated policy) (mask_at mask_uptr) k w)
unfolding spawn_caps
spawn_caps-asked valid mask_at parent authenticated policy mask_uptr masked delegate ok size may =
    let computed = exec_caps authenticated policy in
    let ms = mask_at mask_uptr in
    let loop =
      apply_mask-asked parent computed ms empty_table (omega (arith, size, empty_table-empty_count))
        may in
    (
      loop.0,
      ground (arith, masked, delegate, ok, loop.1),
      λ k w ne. loop.2 k w ne ∙ rw (empty_table-checks k w ne) refl,
    )

-- If the parent may not delegate, the mask cannot be read, or a slot of it may not be passed on, the
-- spawn fails: with ENOCAP, or with EFAULT if the parent may delegate and the mask cannot be read, or with
-- EINVAL if it can be.
pub spawn_caps-refused :
    (valid : ℕ → Bool) (mask_at : ℕ → List Slot) (parent : List Slot) (authenticated : Bool)
    (policy : Option (List PolicyCap)) (mask_uptr : ℕ)
    → mask_uptr ≢ 0
    → (cap_check parent table_size Kind.cap_delegate rights_read
        && valid mask_uptr
        && may_pass parent (mask_at mask_uptr))
      ≡ false
    → (spawn_caps valid mask_at parent authenticated policy mask_uptr ≡ errno enocap)
      ⊎ ((cap_check parent table_size Kind.cap_delegate rights_read ≡ true)
          × (((valid mask_uptr ≡ false)
                × (spawn_caps valid mask_at parent authenticated policy mask_uptr ≡ errno efault))
              ⊎ ((valid mask_uptr ≡ true)
                  × (spawn_caps valid mask_at parent authenticated policy mask_uptr
                      ≡ errno einval))))
unfolding spawn_caps
spawn_caps-refused valid mask_at parent authenticated policy mask_uptr masked refused =
    let computed = exec_caps authenticated policy in
    let ms = mask_at mask_uptr in
    elim (Bool-cases (cap_check parent table_size Kind.cap_delegate rights_read)) [
      | inr no_ ↦ inl (ground (arith, masked, no_))
      | inl delegate ↦ elim (Bool-cases (valid mask_uptr)) [
        | inr bad ↦ inr (delegate, inl (bad, ground (arith, masked, delegate, bad)))
        | inl ok ↦
            let may : may_pass parent ms ≡ false = ground (arith, delegate, ok, refused) in
            elim (apply_mask-refused parent computed ms empty_table may) [
              | inl e ↦ inr (delegate, inr (ok, ground (arith, masked, delegate, ok, e)))
              | inr e ↦ inl (ground (arith, masked, delegate, ok, e))
            ]
      ]
    ]
