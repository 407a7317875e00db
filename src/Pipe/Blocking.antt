-- ===== src/Pipe/Blocking.antt =====
-- When the calls of kernel/fs/pipe.c block, what poll says of it, and who is woken.
use exec_aegis.Base.{
  ℕ, ◌-◌, ◌<◌, ◌≡◌, ◌≢◌, ◌↔◌, refl, ap, ◌∙◌, sym, Option, some, [], ◌∷◌, arith, min, u32, tabulate,
  tabulate_prefix, tabulate-eq-nil, ◌++◌,
}
use native.Mathlib.Decide.{ℕ_discrete}
use exec_aegis.Pipe.{
  Pipe, Task, blocks, returns, sched_wake, wake_read_waiters, buf_size, read_round, write_round,
  read_poll, write_poll, wake_waiting, read_data, write_data, read_loop,
}
use exec_aegis.Pipe.Invariant.{IsValid, write_data-IsValid}
use exec_aegis.Pipe.Rounds.{
  read_round-data, read_round-eof, read_round-blocks, write_round-data, write_round-broken,
  write_round-blocks,
}
use exec_aegis.Pipe.Fifo.{contents, read_data-Reads, write_data-Writes}

-- On a valid pipe a read blocks exactly when poll on the read end reports neither POLLIN nor
-- POLLHUP, and a write blocks exactly when poll on the write end reports neither POLLOUT nor
-- POLLERR.
pub poll-iff-blocks :
    (t : Option Task) (p : Pipe) (buf : ℕ → ℕ) (len : ℕ)
    → IsValid p
    → (((read_round t p buf len).outcome ≡ blocks) ↔ (read_poll p ≡ 0))
      × (((write_round t p buf len).outcome ≡ blocks) ↔ (write_poll p ≡ 0))
poll-iff-blocks t p buf len v = (reads, writes)
  where
    reads : ((read_round t p buf len).outcome ≡ blocks) ↔ (read_poll p ≡ 0)
    reads = elim (ℕ_discrete p.count 0) [
      | yes e ↦ elim (ℕ_discrete p.write_refs 0) [
        | yes w ↦
            rw (read_round-eof t p buf len v e w) ((λ h. cc), unfold read_poll in ground arith)
        | no w ↦ rw (read_round-blocks t p buf len v e w) (unfold read_poll in ground arith)
      ]
      | no ne ↦
          rw (read_round-data t p buf len v ne, (read_data-Reads p buf len v).outcome)
            ((λ h. cc), unfold read_poll in ground arith)
    ]

    writes : ((write_round t p buf len).outcome ≡ blocks) ↔ (write_poll p ≡ 0)
    writes = elim (ℕ_discrete p.read_refs 0) [
      | yes e ↦
          rw (write_round-broken t p buf len v e) ((λ h. cc), unfold write_poll in ground arith)
      | no e ↦ elim (ℕ_discrete p.count buf_size) [
        | yes w ↦ rw (write_round-blocks t p buf len v e w) (unfold write_poll in ground arith)
        | no w ↦
            rw (write_round-data t p buf len v e w, (write_data-Writes p buf len v).outcome)
              ((λ h. cc), unfold write_poll in ground arith)
      ]
    ]

-- A reader finds an empty pipe with a writer and a reader end open, and blocks. Then another task
-- writes `size` bytes, not zero (mod 2^32).
module _ (reader : Task) (writer : Option Task) (p : Pipe) (out src : ℕ → ℕ) (len size : ℕ)
    (v : IsValid p) (empty : p.count ≡ 0) (open_write : p.write_refs ≢ 0)
    (open_read : p.read_refs ≢ 0) (some_bytes : 0 < u32 size) where
  waiting : Pipe
  waiting = record p { reader_waiting = some reader }

  waiting-IsValid : IsValid waiting
  unfolding waiting
  waiting-IsValid = ground arith

  written : write_round writer waiting src size ≡ write_data waiting src size
  unfolding waiting
  written = write_round-data writer waiting src size waiting-IsValid open_read (omega arith)

  woken : (write_round writer waiting src size).effects ≡ sched_wake reader ∷ wake_read_waiters ∷ []
  unfolding waiting
  woken = rw written (unfold write_data wake_waiting in refl)

  filled : Pipe
  filled = (write_data waiting src size).pipe

  count-filled : filled.count ≡ min (u32 size) buf_size
  unfolding filled waiting write_data
  count-filled = ground arith

  filled-IsValid : IsValid filled
  unfolding filled
  filled-IsValid = write_data-IsValid waiting src size waiting-IsValid

  filled-contents : contents filled ≡ tabulate (min (u32 size) buf_size) src
  unfolding filled waiting
  filled-contents =
      let d = write_data-Writes waiting src size waiting-IsValid in
      d.added
      ∙ ap (λ t. t ++ tabulate (min (u32 size) (buf_size - p.count)) src)
          (tabulate-eq-nil p.count _ empty)
      ∙ ap (λ k. tabulate (min (u32 size) k) src) (rw empty refl)

  served :
      read_round (some reader) (write_round writer waiting src size).pipe out len
      ≡ read_data filled out len
  unfolding filled
  served =
      rw written
        (read_round-data (some reader) filled out len filled-IsValid (omega (arith, count-filled)))

  loop_served :
      read_loop ((λ q. (write_round writer q src size).pipe) ∷ []) (some reader) p out len
      ≡ read_data filled out len
  unfolding read_loop waiting
  loop_served =
      let e = read_round-blocks (some reader) p out len v empty open_write in
      rw (e, read_loop) (rw e served)

  -- If a reader blocks on a valid, empty pipe with both ends open, a write of one byte or more
  -- (mod 2^32) that comes next wakes that reader first, and the reader's loop, resumed after it,
  -- returns the bytes written: as many of them as it asked for (mod 2^32) and the ring holds, the
  -- first ones, in order.
  pub blocked_reader_served :
      let others = λ (q : Pipe). (write_round writer q src size).pipe in
      let r = read_loop (others ∷ []) (some reader) p out len in
      let n = min (u32 len) (min (u32 size) buf_size) in
      ((write_round writer (read_round (some reader) p out len).pipe src size).effects
        ≡ sched_wake reader ∷ wake_read_waiters ∷ [])
      × (r.outcome ≡ returns n)
      × ((i : ℕ) → i < n → r.out i ≡ src i)
  blocked_reader_served =
      let d = read_data-Reads filled out len filled-IsValid in
      rw loop_served (
        rw (read_round-blocks (some reader) p out len v empty open_write) (unfold waiting in woken),
        d.outcome ∙ ap returns (omega (arith, count-filled)),
        λ i lt.
            tabulate_prefix _ _ _ src (contents (read_data filled out len).pipe)
              (sym filled-contents ∙ d.taken) i (omega (arith, count-filled)),
      )

-- A pipe has one slot for a blocked reader: when a second reader blocks on the empty pipe it takes
-- the slot of the first, and the next write, of any size, wakes the second reader alone.
second_reader_displaces :
    (first second : Task) (writer : Option Task) (p : Pipe) (out src : ℕ → ℕ) (len size : ℕ)
    → IsValid p
    → p.count ≡ 0
    → p.write_refs ≢ 0
    → p.read_refs ≢ 0
    → let q = (read_round (some first) p out len).pipe in
      let q' = (read_round (some second) q out len).pipe in
      (write_round writer q' src size).effects ≡ sched_wake second ∷ wake_read_waiters ∷ []
second_reader_displaces first second writer p out src len size v e w r =
    let q : Pipe = record p { reader_waiting = some first } in
    let q' : Pipe = record p { reader_waiting = some second } in
    let vq : IsValid q = record { read_in = v.read_in; write_at = v.write_at; fits = v.fits } in
    let vq' : IsValid q' = record { read_in = v.read_in; write_at = v.write_at; fits = v.fits } in
    rw (read_round-blocks (some first) p out len v e w) (
      rw (read_round-blocks (some second) q out len vq e w) (
        rw (write_round-data writer q' src size vq' r (omega arith))
          (unfold write_data wake_waiting in refl)))
