-- ===== src/Pipe/Tests.antt =====
-- The pipe of kernel/fs/pipe.c at concrete states, and its theorems there.
use exec_aegis.Base.{
  ℕ, ◌+◌, ◌<◌, ◌≡◌, ◌↔◌, refl, true, none, some, List, [], ◌∷◌, ◌++◌, arith, min, u32, tabulate,
  ltb, if◌then◌else◌,
}
use exec_aegis.Pipe.{
  Pipe, Task, blocks, returns, sched_wake, wake_read_waiters, buf_size, create, reset_positions,
  memcpy, copy_out, copy_in, read_data, write_data, read_round, write_round, read_loop, read_close,
  read_poll, write_poll,
}
use exec_aegis.Pipe.Invariant.{IsValid, create-IsValid}
use exec_aegis.Pipe.Fifo.{contents}
use exec_aegis.Pipe.Stream.{Op, read, write, close_read, run, run-conserves}
use exec_aegis.Pipe.Blocking.{poll-iff-blocks, blocked_reader_served}
use exec_aegis.Pipe.Ends.{CountsFit}

-- Five bytes, 1 to 5, of which two lie before the end of the ring and three after its start.
abbrev wrapped : Pipe
wrapped = record {
  buf = λ i. if ltb i 3 then i + 3 else (if ltb i 4022 then 0 else (if ltb i 4023 then 1 else 2));
  read_pos = 4022;
  write_pos = 3;
  count = 5;
  read_refs = 1;
  write_refs = 1;
  reader_waiting = none;
  writer_waiting = none;
}

wrapped-contents : contents wrapped ≡ 1 ∷ 2 ∷ 3 ∷ 4 ∷ 5 ∷ []
unfolding tabulate
wrapped-contents = refl

wrapped-IsValid : IsValid wrapped
wrapped-IsValid = omega arith

abbrev zeros : ℕ → ℕ
zeros i = 0

abbrev shell : Task
shell = record { is_user = true; pid = 7 }

abbrev pager : Task
pager = record { is_user = true; pid = 8 }

read_four : tabulate 4 (read_round none wrapped zeros 4).out ≡ 1 ∷ 2 ∷ 3 ∷ 4 ∷ []
unfolding tabulate read_round reset_positions read_data copy_out memcpy
read_four = refl

read_four_returns : (read_round none wrapped zeros 4).outcome ≡ returns 4
unfolding read_round reset_positions read_data
read_four_returns = refl

write_two_returns : (write_round none wrapped (λ i. i + 6) 2).outcome ≡ returns 2
unfolding write_round reset_positions write_data
write_two_returns = refl

abbrev history : List Op
history =
    read none zeros 4 ∷ write none (λ i. i + 6) 2 ∷ read (some shell) zeros 9 ∷ close_read ∷ []

history_given : (run wrapped history).given ≡ 1 ∷ 2 ∷ 3 ∷ 4 ∷ 5 ∷ 6 ∷ 7 ∷ []
unfolding run read_round write_round reset_positions read_data write_data copy_out copy_in memcpy
    tabulate read_close
history_given = refl

run-conserves_example :
    let m = run wrapped history in
    (contents wrapped ++ m.taken ≡ m.given ++ contents m.pipe) × IsValid m.pipe
run-conserves_example = run-conserves wrapped history wrapped-IsValid

poll-iff-blocks_example :
    (((read_round none create zeros 4).outcome ≡ blocks) ↔ (read_poll create ≡ 0))
    × (((write_round none create zeros 4).outcome ≡ blocks) ↔ (write_poll create ≡ 0))
poll-iff-blocks_example = poll-iff-blocks none create zeros 4 create-IsValid

blocked_reader_served_example :
    let others = λ (q : Pipe). (write_round none q (λ i. i + 6) 2).pipe in
    let r = read_loop (others ∷ []) (some shell) create zeros 9 in
    let n = min (u32 9) (min (u32 2) buf_size) in
    ((write_round none (read_round (some shell) create zeros 9).pipe (λ i. i + 6) 2).effects
      ≡ sched_wake shell ∷ wake_read_waiters ∷ [])
    × (r.outcome ≡ returns n)
    × ((i : ℕ) → i < n → r.out i ≡ i + 6)
blocked_reader_served_example =
    blocked_reader_served shell none create zeros (λ i. i + 6) 9 2 create-IsValid
      (unfold create in refl) (unfold create in omega arith) (unfold create in omega arith)
      (omega arith)

create-CountsFit : CountsFit create
unfolding create
create-CountsFit = omega arith

-- Both ends closed, nothing held.
abbrev dead : Pipe
dead = record wrapped { count = 0; write_pos = 4022; read_refs = 0; write_refs = 0 }
