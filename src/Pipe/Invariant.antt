-- ===== src/Pipe/Invariant.antt =====
-- The representation invariant of `pipe_t` (kernel/fs/pipe.c), kept by every operation.
use exec_aegis.Base.{ℕ, ◌+◌, ◌%◌, ◌≤◌, ◌<◌, ◌≡◌, Option, arith}
use exec_aegis.Pipe.{
  Pipe, Task, buf_size, create, reset_positions, read_data, write_data, read_round, write_round,
  read_close, write_close, dup_read, dup_write,
}

pub record IsValid (p : Pipe) : Type 0 where
  pub read_in : p.read_pos < buf_size
  pub write_at : p.write_pos ≡ (p.read_pos + p.count) % buf_size
  pub fits : p.count ≤ buf_size

pub create-IsValid : IsValid create
unfolding create
create-IsValid = omega arith

-- On a valid pipe the defensive reset at the head of both loops does nothing.
pub reset-id : (p : Pipe) → IsValid p → reset_positions p ≡ p
unfolding reset_positions
reset-id p v = ground arith

pub read_data-IsValid :
    (p : Pipe) (out : ℕ → ℕ) (len : ℕ) → IsValid p → IsValid (read_data p out len).pipe
unfolding read_data
read_data-IsValid p out len v = ground arith

pub write_data-IsValid :
    (p : Pipe) (src : ℕ → ℕ) (len : ℕ) → IsValid p → IsValid (write_data p src len).pipe
unfolding write_data
write_data-IsValid p src len v = ground arith

pub read_round-IsValid :
    (current : Option Task) (p : Pipe) (out : ℕ → ℕ) (len : ℕ)
    → IsValid p
    → IsValid (read_round current p out len).pipe
unfolding read_round
read_round-IsValid current p out len v =
    rw (reset-id p v) (ground (arith, read_data-IsValid p out len v))

pub write_round-IsValid :
    (current : Option Task) (p : Pipe) (src : ℕ → ℕ) (len : ℕ)
    → IsValid p
    → IsValid (write_round current p src len).pipe
unfolding write_round
write_round-IsValid current p src len v =
    rw (reset-id p v) (ground (arith, write_data-IsValid p src len v))

-- Opening and closing ends leaves the ring alone.
pub ends-IsValid :
    (p : Pipe)
    → IsValid p
    → IsValid (read_close p).0
      × IsValid (write_close p).0
      × IsValid (dup_read p)
      × IsValid (dup_write p)
unfolding read_close write_close dup_read dup_write
ends-IsValid p v = ground arith
