-- ===== src/Cap/Runtime.antt =====
-- Passing capabilities on at run time (kernel/syscall/sys_cap.c).
use Prim.Native.Nat.{bit_and}
use exec_aegis.Base.{
  ℕ, ◌≡◌, ◌≢◌, refl, Bool, true, false, ◌&&◌, ◌||◌, Option, none, some, List, [], ◌∷◌, arith, ◌==◌,
  leb, if◌then◌else◌, Bool-cases, Option-cases, inl, inr, eqb→eq, u32,
}
use exec_aegis.Cap.Kind
use exec_aegis.Cap.Table.{Slot, table_size, rights_read, cap_check, cap_grant}
use exec_aegis.Cap.Grant.{cap_grant-cap_check}
use exec_aegis.Cap.Spawn.{cap_check-answers}
use exec_aegis.Cap.Exec.{enocap, einval}
use exec_aegis.Cap.Calls.{
  Process, Ret, value, errno, esrch, enospc, sys_auth_session, find_by_pid, set_caps,
  sys_cap_grant_runtime,
}

-- Does the process of that pid pass a check? No process of that pid passes none.
unfoldable pub holds : List Process → ℕ → ℕ → ℕ → Bool
holds procs pid k w = elim (find_by_pid pid procs) [
  | none ↦ false
  | some t ↦ cap_check t.caps table_size k w
]

-- The process with another table.
abbrev with_caps : List Slot → Process → Process
with_caps ss p = record {
  pid = p.pid;
  is_user = p.is_user;
  caps = ss;
  authenticated = p.authenticated;
}

abbrev replaced : List Slot → Option Process → Option Process
replaced ss none = none
replaced ss (some p) = some (with_caps ss p)

find_by_pid-set_caps :
    (pid target : ℕ) (ss : List Slot) (procs : List Process)
    → find_by_pid pid (set_caps target ss procs)
      ≡ (if pid == target then replaced ss (find_by_pid pid procs) else find_by_pid pid procs)
unfolding find_by_pid set_caps
find_by_pid-set_caps pid target ss [] = ground arith
find_by_pid-set_caps pid target ss (p ∷ ps) =
    let ih = find_by_pid-set_caps pid target ss ps in ground (arith, ih)

-- The new table of a process that was found decides its checks; all others keep theirs.
holds-set_caps :
    (pid target : ℕ) (ss : List Slot) (procs : List Process) (k w : ℕ) (t : Process)
    → find_by_pid target procs ≡ some t
    → holds (set_caps target ss procs) pid k w
      ≡ (if pid == target then cap_check ss table_size k w else holds procs pid k w)
unfolding holds
holds-set_caps pid target ss procs k w t found = elim (Bool-cases (pid == target)) [
  | inl same ↦
      let e : pid ≡ target = eqb→eq pid target same in
      let f : find_by_pid pid procs ≡ some t = rw e found in
      rw (holds, find_by_pid-set_caps pid target ss procs, same, f) refl
  | inr other ↦ rw (holds, find_by_pid-set_caps pid target ss procs, other) refl
]

-- What a call on capabilities does to the checks of every process: the caller's own bound it.
pub record Outcome (caller : Process) (procs : List Process) (kind rights target : ℕ)
    (r : Ret × List Process) : Type 0 where
  pub bounded :
      (pid k w : ℕ)
      → k ≢ 0
      → holds r.1 pid k w ≡ true
      → (holds procs pid k w || cap_check caller.caps table_size k w) ≡ true
  pub failed : (e : ℕ) → r.0 ≡ errno e → r.1 ≡ procs
  pub granted :
      (slot : ℕ)
      → r.0 ≡ value slot
      → (cap_check caller.caps table_size Kind.cap_delegate rights_read ≡ true)
        × ((pid k w : ℕ)
            → k ≢ 0
            → holds r.1 pid k w
              ≡ (holds procs pid k w || (pid == target && (kind == k && bit_and rights w == w))))

refused-Outcome :
    (caller : Process) (procs : List Process) (kind rights target e : ℕ)
    → Outcome caller procs kind rights target (errno e, procs)
refused-Outcome caller procs kind rights target e = record {
  bounded = λ pid k w ne ok. rw ok refl;
  failed = λ e' same. refl;
  granted = λ slot bad. absurd (cc bad);
}

holds-found :
    (procs : List Process) (pid k w : ℕ) (t : Process)
    → find_by_pid pid procs ≡ some t
    → holds procs pid k w ≡ cap_check t.caps table_size k w
unfolding holds
holds-found procs pid k w t found = rw (holds, found) refl

module _ (caller : Process) (procs : List Process) (kind rights target : ℕ) (t : Process)
    (found : find_by_pid target procs ≡ some t) (slot : ℕ) (ss : List Slot)
    (e : cap_grant t.caps table_size kind rights ≡ some (slot, ss)) where
  granted-holds :
      (pid k w : ℕ)
      → k ≢ 0
      → holds (set_caps target ss procs) pid k w
        ≡ (holds procs pid k w || (pid == target && (kind == k && bit_and rights w == w)))
  granted-holds pid k w ne =
      let after = holds-set_caps pid target ss procs k w t found in
      let checks = ((cap_grant-cap_check t.caps table_size kind rights).1 slot ss e).1 k w ne in
      elim (Bool-cases (pid == target)) [
        | inl same ↦
            let q : pid ≡ target = eqb→eq pid target same in
            let f : find_by_pid pid procs ≡ some t = rw q found in
            let before = holds-found procs pid k w t f in
            ground (arith, after, checks, same, before)
        | inr other ↦ ground (arith, after, other)
      ]

  granted-Outcome :
      cap_check caller.caps table_size Kind.cap_delegate rights_read ≡ true
      → cap_check caller.caps table_size kind rights ≡ true
      → Outcome caller procs kind rights target (value slot, set_caps target ss procs)
  granted-Outcome delegate held = record {
    bounded = λ pid k w ne ok.
        let after = granted-holds pid k w ne in
        let answer = cap_check-answers caller.caps kind rights k w in
        ground (arith, after, ok, answer, held);
    failed = λ e' bad. absurd (cc bad);
    granted = λ slot' same. (delegate, λ pid k w ne. granted-holds pid k w ne);
  }

-- sys_cap_grant on a list of processes lets no process pass a check, of a kind other than 0, that neither it nor the caller
-- passed before. A call that fails changes nothing. One that succeeds has a caller that may delegate,
-- and adds to the target the checks of the kind and rights granted, to the others none.
pub sys_cap_grant_runtime-Outcome :
    (caller : Process) (others : List Process) (target_pid kind_arg rights_arg : ℕ)
    → Outcome caller
        (caller ∷ others)
        (u32 kind_arg)
        (u32 rights_arg)
        (u32 target_pid)
        (sys_cap_grant_runtime caller others target_pid kind_arg rights_arg)
unfolding sys_cap_grant_runtime
sys_cap_grant_runtime-Outcome caller others target_pid kind_arg rights_arg =
    let procs = caller ∷ others in
    let kind = u32 kind_arg in
    let rights = u32 rights_arg in
    let target = u32 target_pid in
    let refused = refused-Outcome caller procs kind rights target in
    elim (Bool-cases (cap_check caller.caps table_size Kind.cap_delegate rights_read)) [
      | inr no_ ↦ rw no_ (refused enocap)
      | inl delegate ↦ rw delegate (elim (Bool-cases (kind == Kind.null || leb table_size kind)) [
        | inl bad ↦ rw bad (refused einval)
        | inr good ↦ rw good (elim (Bool-cases (cap_check caller.caps table_size kind rights)) [
          | inr no_ ↦ rw no_ (refused enocap)
          | inl held ↦ rw held (elim (Option-cases (find_by_pid target procs)) [
            | inl nobody ↦ rw nobody (refused esrch)
            | inr (t, found) ↦
                rw found (elim (Option-cases (cap_grant t.caps table_size kind rights)) [
                  | inl full ↦ rw full (refused enospc)
                  | inr ((slot, ss), e) ↦ rw e (
                      granted-Outcome caller procs kind rights target t found slot ss e delegate
                        held)
                ])
          ])
        ])
      ])
    ]

-- Did the call return a value?
unfoldable pub succeeds : Ret → Bool
succeeds (value v) = true
succeeds (errno e) = false

-- sys_auth_session succeeds exactly for a user process with the AUTH capability. A process is
-- authenticated after it exactly if it was before or it succeeds; it keeps its table.
pub sys_auth_session_lem :
    (p : Process)
    → (succeeds (sys_auth_session p).0
        ≡ (p.is_user && cap_check p.caps table_size Kind.auth rights_read))
      × ((sys_auth_session p).1.authenticated
          ≡ (p.authenticated || succeeds (sys_auth_session p).0))
      × ((sys_auth_session p).1.caps ≡ p.caps)
unfolding sys_auth_session succeeds
sys_auth_session_lem p = (ground arith, ground arith, ground arith)
