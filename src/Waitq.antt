-- ===== src/Waitq.antt =====
-- kernel/sched/waitq.c: queues of waiting tasks, linked in both directions through entries that the
-- callers own. Entries and queues stand for their addresses, and the memory is a function from them.
-- `sched_wake` is an effect: an operation that wakes returns the tasks in the order of the calls.
pub mod Links
pub mod Unlink
pub mod Remove
pub mod Wake
mod Tests
use exec_aegis.Base.{
  ℕ, zero, suc, Bool, true, false, Option, none, some, List, [], ◌∷◌, ◌++◌, length, ltb, ◌==◌,
  if◌then◌else◌,
}

pub record Entry : Type 0 where
  pub task : Option ℕ
  pub next : Option ℕ
  pub prev : Option ℕ
  pub on_queue : Bool

pub record Waitq : Type 0 where
  pub heads : ℕ → Option ℕ
  pub entries : ℕ → Entry

unfoldable pub set_head : ℕ → Option ℕ → (ℕ → Option ℕ) → ℕ → Option ℕ
set_head wq v heads w = if w == wq then v else heads w

unfoldable pub put : ℕ → Entry → (ℕ → Entry) → ℕ → Entry
put e n es x = if x == e then n else es x

-- `if (t) t->next = v`, `if (t) t->prev = v`
unfoldable pub set_next : Option ℕ → Option ℕ → (ℕ → Entry) → ℕ → Entry
set_next none v es = es
set_next (some t) v es = put t (record (es t) { next = v }) es

unfoldable pub set_prev : Option ℕ → Option ℕ → (ℕ → Entry) → ℕ → Entry
set_prev none v es = es
set_prev (some t) v es = put t (record (es t) { prev = v }) es

unfoldable pub add : ℕ → ℕ → Waitq → Waitq
add wq e s =
    let head = s.heads wq in
    let linked = put e (record (s.entries e) { prev = none; next = head }) s.entries in
    let back = set_prev head (some e) linked in
    record {
      heads = set_head wq (some e) s.heads;
      entries = put e (record (back e) { on_queue = true }) back;
    }

-- `if (e->prev) ... else wq->head = e->next`
unfoldable pub head_after : ℕ → Entry → (ℕ → Option ℕ) → ℕ → Option ℕ
head_after wq n heads = elim n.prev [ none ↦ set_head wq n.next heads | some p ↦ heads ]

unfoldable pub remove : ℕ → ℕ → Waitq → Waitq
remove wq e s =
    let n = s.entries e in
    let forth = set_next n.prev n.next s.entries in
    let back = set_prev (forth e).next (forth e).prev forth in
    if n.on_queue
    then record {
      heads = head_after wq n s.heads;
      entries = put e (record (back e) { prev = none; next = none; on_queue = false }) back;
    }
    else s

-- The tasks of the first `k` entries from `e`.
unfoldable pub snapshot : (ℕ → Entry) → ℕ → Option ℕ → List (Option ℕ)
snapshot es zero e = []
snapshot es (suc k) none = []
snapshot es (suc k) (some e) = (es e).task ∷ snapshot es k (es e).next

-- `if (t) sched_wake(t)` for each of them
unfoldable pub woken : List (Option ℕ) → List ℕ
woken [] = []
woken (none ∷ ts) = woken ts
woken (some t ∷ ts) = t ∷ woken ts

unfoldable pub wake_one : ℕ → Waitq → List ℕ
wake_one wq s = woken (snapshot s.entries 1 (s.heads wq))

-- Rounds of 64 entries until one is not full; between two rounds `others` runs. `none` if there are more
-- rounds than `fuel`.
unfoldable pub wake_all : (ℕ → Waitq → Waitq) → ℕ → ℕ → Waitq → Option (List ℕ × Waitq)
wake_all others zero wq s = none
wake_all others (suc fuel) wq s =
    let snap = snapshot s.entries 64 (s.heads wq) in
    let rest = wake_all others fuel wq (others fuel s) in
    if ltb (length snap) 64
    then some (woken snap, s)
    else elim rest [ none ↦ none | some r ↦ some (woken snap ++ r.0, r.1) ]

-- `waitq_wait`: the entry is on the caller's stack at `e`; `others` runs until the task is woken.
unfoldable pub wait : (Waitq → Waitq) → ℕ → ℕ → Option ℕ → Waitq → Waitq
wait others wq e current s =
    let fresh : Entry = record { task = current; next = none; prev = none; on_queue = false } in
    let blocked = others (add wq e (record s { entries = put e fresh s.entries })) in
    remove wq e blocked
