-- ===== src/Cap/Calls.antt =====
-- The calls of kernel/syscall/sys_cap.c on the capability tables of the processes.
use exec_aegis.Base.{
  ℕ, ◌*◌, ◌/◌, Bool, true, ◌&&◌, ◌||◌, not, Option, none, some, List, [], ◌∷◌, min, ◌==◌, leb,
  if◌then◌else◌, u32, take,
}
use exec_aegis.Cap.Kind
use exec_aegis.Cap.Table.{Slot, table_size, rights_read, cap_grant, cap_check}
use exec_aegis.Cap.Exec.{enocap, efault, einval}

-- The fields of `aegis_process_t` that the calls use.
pub record Process : Type 0 where
  pub pid : ℕ
  pub is_user : Bool
  pub caps : List Slot
  pub authenticated : Bool

-- A call returns a value or an errno.
pub data Ret : Type 0 where
  value : ℕ → Ret
  errno : ℕ → Ret

abbrev pub eperm : ℕ
eperm = 1

abbrev pub esrch : ℕ
esrch = 3

abbrev pub enospc : ℕ
enospc = 28

unfoldable pub sys_auth_session : Process → Ret × Process
sys_auth_session proc =
    if not proc.is_user
    then (errno eperm, proc)
    else if not (cap_check proc.caps table_size Kind.auth rights_read)
    then (errno enocap, proc)
    else (
      value 0,
      record { pid = proc.pid; is_user = proc.is_user; caps = proc.caps; authenticated = true },
    )

-- `proc_find_by_pid` (kernel/proc/proc.c), over the circular list from the current task on.
unfoldable pub find_by_pid : ℕ → List Process → Option Process
find_by_pid pid [] = none
find_by_pid pid (p ∷ ps) = if p.is_user && p.pid == pid then some p else find_by_pid pid ps

-- The processes with the table of the first one of that pid replaced.
unfoldable pub set_caps : ℕ → List Slot → List Process → List Process
set_caps pid ss [] = []
set_caps pid ss (p ∷ ps) =
    let new : Process = record {
      pid = p.pid;
      is_user = p.is_user;
      caps = ss;
      authenticated = p.authenticated;
    } in
    if p.is_user && p.pid == pid then new ∷ ps else p ∷ set_caps pid ss ps

-- The caller, which is the current task, and the tasks after it; the same with the target's new table.
unfoldable pub sys_cap_grant_runtime : Process → List Process → ℕ → ℕ → ℕ → Ret × List Process
sys_cap_grant_runtime caller others target_pid kind_arg rights_arg =
    let procs = caller ∷ others in
    let kind = u32 kind_arg in
    let rights = u32 rights_arg in
    if not (cap_check caller.caps table_size Kind.cap_delegate rights_read)
    then (errno enocap, procs)
    else if kind == Kind.null || leb table_size kind
    then (errno einval, procs)
    else if not (cap_check caller.caps table_size kind rights)
    then (errno enocap, procs)
    else elim (find_by_pid (u32 target_pid) procs) [
      | none ↦ (errno esrch, procs)
      | some target ↦ elim (cap_grant target.caps table_size kind rights) [
        | none ↦ (errno enospc, procs)
        | some (slot, ss) ↦ (value slot, set_caps (u32 target_pid) ss procs)
      ]
    ]

-- `sizeof(cap_slot_t)`
abbrev pub slot_bytes : ℕ
slot_bytes = 8

-- The value, and what is copied to the user's buffer. `valid` is `user_ptr_valid`.
unfoldable pub sys_cap_query : (ℕ → ℕ → Bool) → Process → List Process → ℕ → ℕ → ℕ → Ret × List Slot
sys_cap_query valid caller others pid_arg buf_uptr buflen =
    let target =
      if pid_arg == 0 then some caller else find_by_pid (u32 pid_arg) (caller ∷ others) in
    let nslots = min (table_size * slot_bytes) buflen / slot_bytes in
    if not caller.is_user
    then (errno eperm, [])
    else if not (pid_arg == 0) && not (cap_check caller.caps table_size Kind.cap_query rights_read)
    then (errno enocap, [])
    else elim target [
      | none ↦ (errno esrch, [])
      | some t ↦
          if nslots == 0
          then (value 0, [])
          else if not (valid buf_uptr (nslots * slot_bytes))
          then (errno efault, [])
          else (value nslots, take nslots t.caps)
    ]
