-- ===== src/Futex.antt =====
-- kernel/syscall/futex.c: the pool of waiters, FUTEX_WAIT and FUTEX_WAKE. A task is its number. What
-- `sched_wake` is called on is a list, in order; a task that blocks is an outcome. The lock makes each
-- access to the pool atomic.
use Prim.Native.Nat.{bit_and}
use exec_aegis.Base.{
  ℕ, zero, suc, ◌+◌, ◌-◌, ◌%◌, ◌^◌, Bool, true, false, ◌&&◌, not, Option, none, some, List, [], ◌∷◌,
  ltb, ◌==◌, if◌then◌else◌, length, replicate, u32,
}
pub mod Wake
pub mod Wait
mod Tests

abbrev pub max_wait : ℕ
max_wait = 64

-- `futex_waiter_t`; the task is read only of a slot in use.
pub record Waiter : Type 0 where
  pub task : ℕ
  pub addr : ℕ
  pub in_use : Bool

abbrev pub free_waiter : Waiter
free_waiter = record { task = 0; addr = 0; in_use = false }

-- The pool, and the tasks woken.
pub record Woken : Type 0 where
  pub pool : List Waiter
  pub tasks : List ℕ

-- The loop of `futex_wake_addr`, with `woken` tasks woken before this slot.
unfoldable pub wake_from : List Waiter → ℕ → ℕ → ℕ → Woken
wake_from [] addr count woken = record { pool = []; tasks = [] }
wake_from (w ∷ ws) addr count woken =
    let waits = w.in_use && w.addr == addr in
    let rest = wake_from ws addr count (if waits then woken + 1 else woken) in
    if not (ltb woken count)
    then record { pool = w ∷ ws; tasks = [] }
    else if waits
    then record {
      pool = record { task = 0; addr = w.addr; in_use = false } ∷ rest.pool;
      tasks = w.task ∷ rest.tasks;
    }
    else record { pool = w ∷ rest.pool; tasks = rest.tasks }

unfoldable pub futex_wake_addr : List Waiter → ℕ → ℕ → Woken
futex_wake_addr pool addr count = wake_from pool addr (u32 count) 0

-- The first free slot is taken; `none` is a full pool.
unfoldable pub take_slot : List Waiter → ℕ → ℕ → Option (List Waiter)
take_slot [] task addr = none
take_slot (w ∷ ws) task addr =
    let later = take_slot ws task addr in
    if not w.in_use
    then some (record { task = task; addr = addr; in_use = true } ∷ ws)
    else elim later [ none ↦ none | some ws' ↦ some (w ∷ ws') ]

-- What a call comes to: a value, an errno, or a task that sleeps and returns 0 once woken.
pub data Outcome : Type 0 where
  value : ℕ → Outcome
  errno : ℕ → Outcome
  blocks : Outcome

pub record Call : Type 0 where
  pub pool : List Waiter
  pub tasks : List ℕ
  pub outcome : Outcome

abbrev pub failed : List Waiter → ℕ → Call
failed pool e = record { pool = pool; tasks = []; outcome = errno e }

-- What FUTEX_WAIT does under the lock.
unfoldable pub enqueue : List Waiter → ℕ → ℕ → Call
enqueue pool task addr = elim (take_slot pool task addr) [
  | none ↦ failed pool 12
  | some ws ↦ record { pool = ws; tasks = []; outcome = blocks }
]

-- FUTEX_WAIT, with the word `uval` at the address. The test of the word is made before the lock is taken;
-- this is the call if no other comes in between.
unfoldable pub wait : List Waiter → ℕ → ℕ → ℕ → ℕ → Call
wait pool task addr uval val =
    if not (uval == u32 val) then failed pool 11 else enqueue pool task addr

unfoldable pub wake : List Waiter → ℕ → ℕ → Call
wake pool addr val =
    let w = futex_wake_addr pool addr val in
    record { pool = w.pool; tasks = w.tasks; outcome = value (length w.tasks) }

abbrev futex_wait : ℕ
futex_wait = 0

abbrev futex_wake : ℕ
futex_wake = 1

abbrev private_flag : ℕ
private_flag = 128

-- FUTEX_PRIVATE_FLAG is bit 7: `cmd` is `op` without it.
unfoldable pub command : ℕ → ℕ
command op = bit_and (u32 op) (2 ^ 32 - 1 - private_flag)

-- `valid` is `user_ptr_valid` of the word, `uval` what `copy_from_user` reads.
unfoldable pub sys_futex : (ℕ → Bool) → (ℕ → ℕ) → List Waiter → ℕ → ℕ → ℕ → ℕ → Call
sys_futex valid uval pool task addr op val =
    if not (valid addr)
    then failed pool 14
    else if not (addr % 4 == 0)
    then failed pool 22
    else if command op == futex_wait
    then wait pool task addr (uval addr) val
    else if command op == futex_wake
    then wake pool addr val
    else failed pool 38
