-- ===== src/Cap/Authority.antt =====
-- What the processes of kernel/syscall/sys_exec.c and kernel/syscall/sys_cap.c may come to hold.
use Prim.Native.Nat.{bit_and}
use exec_aegis.Base.{
  ℕ, zero, suc, ◌+◌, ◌≤◌, ◌≡◌, ◌≢◌, refl, ◌∙◌, Bool, true, false, ◌&&◌, ◌||◌, none, some, List, [],
  ◌∷◌, arith, ◌==◌, length, replicate,
}
use exec_aegis.Cap.Kind
use exec_aegis.Cap.Table.{
  Slot, table_size, rights_read, rights_write, check_first, cap_check, grants, empty_slot,
  empty_table, cap_grant, grant_from,
}
use exec_aegis.Cap.Room.{empty_count, granted-checks, granted-empty_count}
use exec_aegis.Cap.Exec.{
  PolicyCap, tier_service, tier_admin, granted, baseline, policy_grant, policy_grants, exec_caps,
}

-- A slot of (kind, rights) answers a check of (k, w).
unfoldable pub covers : ℕ → ℕ → ℕ → ℕ → Bool
covers kind rights k w = kind == k && bit_and rights w == w

-- The checks that a policy allows: service tiers always, admin tiers in an authenticated session.
unfoldable pub permitted : Bool → List PolicyCap → ℕ → ℕ → Bool
permitted authenticated [] k w = false
permitted authenticated (c ∷ cs) k w =
    ((c.tier == tier_service || (c.tier == tier_admin && authenticated))
      && covers c.kind c.rights k w)
    || permitted authenticated cs k w

-- The checks that every image passes.
unfoldable pub permitted_to_all : ℕ → ℕ → Bool
permitted_to_all k w =
    covers Kind.vfs_open rights_read k w
    || covers Kind.vfs_write rights_write k w
    || covers Kind.vfs_read rights_read k w
    || covers Kind.ipc rights_read k w
    || covers Kind.proc_read rights_read k w
    || covers Kind.thread_create rights_read k w

module _ (authenticated : Bool) (k w : ℕ) (ne : k ≢ 0) where
  policy_grant-checks :
      (c : PolicyCap) (ss : List Slot)
      → 1 ≤ empty_count table_size ss
      → cap_check (policy_grant authenticated c ss) table_size k w ≡ (
          cap_check ss table_size k w
          || ((c.tier == tier_service || (c.tier == tier_admin && authenticated))
              && covers c.kind c.rights k w))
  unfolding policy_grant covers
  policy_grant-checks c ss le =
      let g = granted-checks ss c.kind c.rights k w ne le in ground (arith, g)

  policy_grant-empty_count :
      (c : PolicyCap) (ss : List Slot)
      → empty_count table_size ss ≤ empty_count table_size (policy_grant authenticated c ss) + 1
  unfolding policy_grant
  policy_grant-empty_count c ss =
      let g = granted-empty_count ss c.kind c.rights in ground (arith, g)

  policy_grants-checks :
      (cs : List PolicyCap) (ss : List Slot)
      → length cs ≤ empty_count table_size ss
      → cap_check (policy_grants authenticated cs ss) table_size k w
        ≡ (cap_check ss table_size k w || permitted authenticated cs k w)
  unfolding policy_grants permitted
  policy_grants-checks [] ss le = ground arith
  policy_grants-checks (c ∷ cs) ss le =
      let one = policy_grant-checks c ss (omega arith) in
      let fits = policy_grant-empty_count c ss in
      let ih = policy_grants-checks cs (policy_grant authenticated c ss) (omega (arith, fits)) in
      ih ∙ (rw one (ground arith))

no_check_passes : (n m k w : ℕ) → k ≢ 0 → check_first n (replicate m empty_slot) k w ≡ false
unfolding check_first grants
no_check_passes zero m k w ne = refl
no_check_passes (suc n) zero k w ne = refl
no_check_passes (suc n) (suc m) k w ne = let ih = no_check_passes n m k w ne in ground (arith, ih)

pub empty_table-checks : (k w : ℕ) → k ≢ 0 → cap_check empty_table table_size k w ≡ false
unfolding cap_check
empty_table-checks k w ne = no_check_passes table_size table_size k w ne

pub empty_table-empty_count : empty_count table_size empty_table ≡ 64
unfolding empty_count
empty_table-empty_count = refl

-- The baseline as a policy.
abbrev service : ℕ → ℕ → PolicyCap
service kind rights = record { kind = kind; rights = rights; tier = tier_service }

abbrev baseline_policy : List PolicyCap
baseline_policy =
    service Kind.vfs_open rights_read
    ∷ service Kind.vfs_write rights_write
    ∷ service Kind.vfs_read rights_read
    ∷ service Kind.ipc rights_read
    ∷ service Kind.proc_read rights_read
    ∷ service Kind.thread_create rights_read
    ∷ []

baseline-policy_grants : baseline ≡ policy_grants true baseline_policy empty_table
unfolding baseline policy_grants policy_grant
baseline-policy_grants = refl

permitted-baseline : (k w : ℕ) → permitted true baseline_policy k w ≡ permitted_to_all k w
unfolding permitted permitted_to_all
permitted-baseline k w = ground arith

baseline-checks : (k w : ℕ) → k ≢ 0 → cap_check baseline table_size k w ≡ permitted_to_all k w
baseline-checks k w ne =
    let fits : length baseline_policy ≤ empty_count table_size empty_table =
      omega (arith, empty_table-empty_count) in
    let after = policy_grants-checks true k w ne baseline_policy empty_table fits in
    rw (baseline-policy_grants, after, empty_table-checks k w ne) (permitted-baseline k w)

baseline-empty_count : empty_count table_size baseline ≡ 58
unfolding empty_count baseline granted cap_grant grant_from
baseline-empty_count = refl

-- The table of an executed binary, whose policy has 58 capabilities at most, passes the checks that
-- every image passes and those that the policy allows (those of the admin tier only if the session is
-- authenticated), and no other.
pub exec_caps-permitted :
    (authenticated : Bool) (cs : List PolicyCap) (k w : ℕ)
    → length cs ≤ 58
    → k ≢ 0
    → (cap_check (exec_caps authenticated (some cs)) table_size k w
        ≡ (permitted_to_all k w || permitted authenticated cs k w))
      × (cap_check (exec_caps authenticated none) table_size k w ≡ permitted_to_all k w)
unfolding exec_caps
exec_caps-permitted authenticated cs k w le ne =
    let base = baseline-checks k w ne in
    let after =
      policy_grants-checks authenticated k w ne cs baseline (omega (arith, baseline-empty_count)) in
    (rw (← base) after, base)
