-- ===== src/Pipe.antt =====
-- kernel/fs/pipe.c and pipe.h: the anonymous pipe, a ring of `PIPE_BUF_SIZE` bytes with counted
-- ends. A function that changes `*p` returns the new pipe. What it does to other objects under or
-- after the lock (waking a task, waking pollers, SIGPIPE, freeing the page) is a list of effects in
-- the order of the code. The lock makes each round of a loop atomic, so a round is one function.
pub mod Invariant
pub mod Rounds
pub mod Fifo
pub mod Stream
pub mod Blocking
pub mod Ends
mod Tests
use exec_aegis.Base.{
  ℕ, ◌+◌, ◌-◌, ◌%◌, ◌^◌, Bool, true, false, ◌&&◌, ◌||◌, Option, none, some, List, [], ◌∷◌, ◌++◌,
  ltb, leb, ◌==◌, if◌then◌else◌, u32,
}

-- What the pipe reads of a task control block: `is_user`, and the pid of the process.
pub record Task : Type 0 where
  pub is_user : Bool
  pub pid : ℕ

abbrev pub buf_size : ℕ
buf_size = 4024

-- `pipe_t`; the wait queues of pollers are left to the effects.
pub record Pipe : Type 0 where
  pub buf : ℕ → ℕ
  pub read_pos : ℕ
  pub write_pos : ℕ
  pub count : ℕ
  pub read_refs : ℕ
  pub write_refs : ℕ
  pub reader_waiting : Option Task
  pub writer_waiting : Option Task

pub data Effect : Type 0 where
  sched_wake : Task → Effect
  wake_read_waiters : Effect
  wake_write_waiters : Effect
  send_sigpipe : ℕ → Effect
  free_page : Effect

-- How a round of the loop ends: with `sched_block`, with a count, or with `-errno`.
pub data Outcome : Type 0 where
  blocks : Outcome
  returns : ℕ → Outcome
  fails : ℕ → Outcome

pub record Round : Type 0 where
  pub outcome : Outcome
  pub pipe : Pipe
  pub out : ℕ → ℕ
  pub effects : List Effect

-- `memcpy(dst + at, src, n)`
unfoldable pub memcpy : (ℕ → ℕ) → ℕ → (ℕ → ℕ) → ℕ → ℕ → ℕ
memcpy dst start src n j = if leb start j && ltb j (start + n) then src (j - start) else dst j

-- The `pipe_t` that `sys_pipe2` sets up in a zeroed page.
unfoldable pub create : Pipe
create = record {
  buf = λ i. 0;
  read_pos = 0;
  write_pos = 0;
  count = 0;
  read_refs = 1;
  write_refs = 1;
  reader_waiting = none;
  writer_waiting = none;
}

-- Both loops begin by resetting an index that left the ring.
unfoldable pub reset_positions : Pipe → Pipe
reset_positions p = record p {
  read_pos = if leb buf_size p.read_pos then 0 else p.read_pos;
  write_pos = if leb buf_size p.write_pos then 0 else p.write_pos;
}

-- `if (w) { sched_wake(w); w = NULL; }`: the effect; the field becomes `none` either way.
unfoldable pub wake_waiting : Option Task → List Effect
wake_waiting none = []
wake_waiting (some t) = sched_wake t ∷ []

unfoldable pub copy_out : Pipe → (ℕ → ℕ) → ℕ → ℕ → ℕ
unfolding memcpy
copy_out p out n =
    let first = if ltb n (buf_size - p.read_pos) then n else buf_size - p.read_pos in
    let front = memcpy out 0 (λ i. p.buf (p.read_pos + i)) first in
    if ltb first n then memcpy front first p.buf (n - first) else front

unfoldable pub copy_in : Pipe → (ℕ → ℕ) → ℕ → ℕ → ℕ
unfolding memcpy
copy_in p src n =
    let first = if ltb n (buf_size - p.write_pos) then n else buf_size - p.write_pos in
    let front = memcpy p.buf p.write_pos src first in
    if ltb first n then memcpy front 0 (λ i. src (first + i)) (n - first) else front

-- The tail of a round of `pipe_read_fn`, once there is data.
unfoldable pub read_data : Pipe → (ℕ → ℕ) → ℕ → Round
read_data p out len =
    let n = if ltb p.count (u32 len) then p.count else u32 len in
    record {
      outcome = returns n;
      pipe = record p {
        read_pos = u32 (p.read_pos + n) % buf_size;
        count = p.count - n;
        writer_waiting = none;
      };
      out = copy_out p out n;
      effects = wake_waiting p.writer_waiting ++ wake_write_waiters ∷ [];
    }

-- One round of `pipe_read_fn`: `current` is `sched_current()`, `out` the kernel buffer.
unfoldable pub read_round : Option Task → Pipe → (ℕ → ℕ) → ℕ → Round
read_round current q out len =
    let p = reset_positions q in
    if p.count == 0
    then (if p.write_refs == 0
        then record { outcome = returns 0; pipe = p; out = out; effects = [] }
        else record {
          outcome = blocks;
          pipe = record p { reader_waiting = current };
          out = out;
          effects = [];
        })
    else read_data p out len

-- `p_cur->pid` is signalled if the writer is a user task.
unfoldable pub sigpipe : Option Task → List Effect
sigpipe none = []
sigpipe (some t) = if t.is_user then send_sigpipe t.pid ∷ [] else []

-- The tail of a round of `pipe_write_fn`, once there is room; `src` is the user buffer.
unfoldable pub write_data : Pipe → (ℕ → ℕ) → ℕ → Round
write_data p src len =
    let avail = u32 (buf_size + 2 ^ 32 - p.count) in
    let n = if ltb avail (u32 len) then avail else u32 len in
    record {
      outcome = returns n;
      pipe = record p {
        buf = copy_in p src n;
        write_pos = u32 (p.write_pos + n) % buf_size;
        count = u32 (p.count + n);
        reader_waiting = none;
      };
      out = src;
      effects = wake_waiting p.reader_waiting ++ wake_read_waiters ∷ [];
    }

unfoldable pub write_round : Option Task → Pipe → (ℕ → ℕ) → ℕ → Round
write_round current q src len =
    let p = reset_positions q in
    if p.read_refs == 0
    then record { outcome = fails 32; pipe = p; out = src; effects = sigpipe current }
    else if p.count == buf_size
    then record {
      outcome = blocks;
      pipe = record p { writer_waiting = current };
      out = src;
      effects = [];
    }
    else write_data p src len

-- The loops. While the task is blocked other tasks change the pipe: the list holds what they do
-- between one block and the next wake-up, and where it ends the task is still blocked.
unfoldable pub read_loop : List (Pipe → Pipe) → Option Task → Pipe → (ℕ → ℕ) → ℕ → Round
read_loop [] current p out len = read_round current p out len
read_loop (others ∷ rest) current p out len =
    let r = read_round current p out len in
    elim r.outcome [
      | blocks ↦ read_loop rest current (others r.pipe) out len
      | returns n ↦ r
      | fails e ↦ r
    ]

unfoldable pub write_loop : List (Pipe → Pipe) → Option Task → Pipe → (ℕ → ℕ) → ℕ → Round
write_loop [] current p src len = write_round current p src len
write_loop (others ∷ rest) current p src len =
    let r = write_round current p src len in
    elim r.outcome [
      | blocks ↦ write_loop rest current (others r.pipe) src len
      | returns n ↦ r
      | fails e ↦ r
    ]

-- `refs--` and `refs++` on a `uint32_t`
abbrev pub decr : ℕ → ℕ
decr n = u32 (n + 2 ^ 32 - 1)

unfoldable pub read_close : Pipe → Pipe × List Effect
read_close p =
    let refs = decr p.read_refs in
    (
      record p { read_refs = refs; writer_waiting = none },
      wake_waiting p.writer_waiting
          ++ (if refs == 0 then wake_write_waiters ∷ [] else [])
          ++ (if refs == 0 && p.write_refs == 0 then free_page ∷ [] else []),
    )

unfoldable pub write_close : Pipe → Pipe × List Effect
write_close p =
    let refs = decr p.write_refs in
    (
      record p { write_refs = refs; reader_waiting = none },
      wake_waiting p.reader_waiting
          ++ (if refs == 0 then wake_read_waiters ∷ [] else [])
          ++ (if p.read_refs == 0 && refs == 0 then free_page ∷ [] else []),
    )

unfoldable pub dup_read : Pipe → Pipe
dup_read p = record p { read_refs = u32 (p.read_refs + 1) }

unfoldable pub dup_write : Pipe → Pipe
dup_write p = record p { write_refs = u32 (p.write_refs + 1) }

-- The bits of `poll`: POLLIN 1, POLLOUT 4, POLLERR 8, POLLHUP 16; the two of one mask are distinct,
-- so `|=` is a sum.
unfoldable pub read_poll : Pipe → ℕ
read_poll p =
    (if ltb 0 p.count || p.write_refs == 0 then 1 else 0) + (if p.write_refs == 0 then 16 else 0)

unfoldable pub write_poll : Pipe → ℕ
write_poll p =
    (if ltb p.count buf_size || p.read_refs == 0 then 4 else 0)
    + (if p.read_refs == 0 then 8 else 0)

-- `pipe_stat_fn`: st_mode is S_IFIFO | 0600, st_size the bytes held.
unfoldable pub stat : Pipe → ℕ × ℕ
stat p = (0o10600, p.count)
