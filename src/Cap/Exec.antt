-- ===== src/Cap/Exec.antt =====
-- Who gets which capabilities: the grants at exec and spawn (kernel/syscall/sys_exec.c), and the
-- calls of kernel/syscall/sys_cap.c. What a policy file allows is a list of `PolicyCap`s.
use exec_aegis.Base.{
  ℕ, Bool, ◌&&◌, not, Option, none, some, List, [], ◌∷◌, ◌==◌, leb, if◌then◌else◌,
}
use exec_aegis.Cap.Kind
use exec_aegis.Cap.Table.{
  Slot, table_size, rights_read, rights_write, cap_grant, cap_check, empty_table,
}

-- One capability of a `cap_policy_entry_t`.
pub record PolicyCap : Type 0 where
  pub kind : ℕ
  pub rights : ℕ
  pub tier : ℕ

abbrev pub tier_service : ℕ
tier_service = 1

abbrev pub tier_admin : ℕ
tier_admin = 2

-- The table after a `cap_grant` on all of it whose result is not read.
unfoldable pub granted : List Slot → ℕ → ℕ → List Slot
granted ss kind rights = elim (cap_grant ss table_size kind rights) [
  | none ↦ ss
  | some (j, ss') ↦ ss'
]

-- The six grants that every new image gets.
unfoldable pub baseline : List Slot
baseline =
    granted
      (granted
        (granted
          (granted
            (granted (granted empty_table Kind.vfs_open rights_read) Kind.vfs_write rights_write)
            Kind.vfs_read rights_read)
          Kind.ipc rights_read)
        Kind.proc_read rights_read)
      Kind.thread_create rights_read

unfoldable pub policy_grant : Bool → PolicyCap → List Slot → List Slot
policy_grant authenticated c ss =
    if c.tier == tier_service
    then granted ss c.kind c.rights
    else if c.tier == tier_admin && authenticated
    then granted ss c.kind c.rights
    else ss

unfoldable pub policy_grants : Bool → List PolicyCap → List Slot → List Slot
policy_grants authenticated [] ss = ss
policy_grants authenticated (c ∷ cs) ss =
    policy_grants authenticated cs (policy_grant authenticated c ss)

-- The table of a process that executes a binary: `none` is a binary without a policy.
unfoldable pub exec_caps : Bool → Option (List PolicyCap) → List Slot
exec_caps authenticated none = baseline
exec_caps authenticated (some cs) = policy_grants authenticated cs baseline

-- `caps` is the child's table, `errno` a failed call.
pub data CapResult : Type 0 where
  caps : List Slot → CapResult
  errno : ℕ → CapResult

abbrev pub enocap : ℕ
enocap = 130

abbrev pub efault : ℕ
efault = 14

abbrev pub einval : ℕ
einval = 22

-- The loop of sys_spawn over the mask: the parent's table, the one computed at exec, and the child's.
unfoldable pub apply_mask : List Slot → List Slot → List Slot → List Slot → CapResult
apply_mask parent computed [] child = caps child
apply_mask parent computed (m ∷ ms) child =
    let without = apply_mask parent computed ms child in
    let with_grant = apply_mask parent computed ms (granted child m.kind m.rights) in
    if m.kind == Kind.null
    then without
    else if leb table_size m.kind
    then errno einval
    else if not (cap_check parent table_size m.kind m.rights)
    then errno enocap
    else if cap_check computed table_size m.kind m.rights
    then with_grant
    else without

-- The table of a spawned child. `valid` is `user_ptr_valid` on the mask's 64 slots and `mask_at` what
-- `copy_from_user` reads there.
unfoldable pub spawn_caps :
    (ℕ → Bool) → (ℕ → List Slot) → List Slot → Bool → Option (List PolicyCap) → ℕ → CapResult
spawn_caps valid mask_at parent authenticated policy mask_uptr =
    let computed = exec_caps authenticated policy in
    if mask_uptr == 0
    then caps computed
    else if not (cap_check parent table_size Kind.cap_delegate rights_read)
    then errno enocap
    else if not (valid mask_uptr)
    then errno efault
    else apply_mask parent computed (mask_at mask_uptr) empty_table
