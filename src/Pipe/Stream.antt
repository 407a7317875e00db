-- ===== src/Pipe/Stream.antt =====
-- Any interleaving of the operations of kernel/fs/pipe.c, by any tasks: each round and each close or
-- dup runs under the pipe's lock, so a history is a list of them.
use exec_aegis.Base.{
  ℕ, ◌≡◌, refl, sym, ap, ◌∙◌, Option, List, [], ◌∷◌, ◌++◌, append_assoc, append-nil, tabulate,
}
use exec_aegis.Pipe.{
  Pipe, Task, Outcome, blocks, returns, fails, read_round, write_round, read_close, write_close,
  dup_read, dup_write, buf_size,
}
use exec_aegis.Pipe.Invariant.{IsValid, read_round-IsValid, write_round-IsValid, ends-IsValid}
use native.Mathlib.Decide.{ℕ_discrete}
use exec_aegis.Pipe.Rounds.{
  read_round-data, read_round-eof, read_round-blocks, write_round-data, write_round-broken,
  write_round-blocks,
}
use exec_aegis.Pipe.Fifo.{contents, read_data-Reads, write_data-Writes}

pub data Op : Type 0 where
  read : Option Task → (ℕ → ℕ) → ℕ → Op
  write : Option Task → (ℕ → ℕ) → ℕ → Op
  close_read close_write open_read open_write : Op

-- The first bytes of `buf`, as many as the call returned.
unfoldable pub moved : Outcome → (ℕ → ℕ) → List ℕ
moved (returns n) buf = tabulate n buf
moved blocks buf = []
moved (fails e) buf = []

-- The pipe after one operation, what it took from the writer and what it gave to the reader.
pub record Moved : Type 0 where
  pub pipe : Pipe
  pub taken : List ℕ
  pub given : List ℕ

abbrev quiet : Pipe → Moved
quiet p = record { pipe = p; taken = []; given = [] }

unfoldable pub step : Pipe → Op → Moved
unfolding moved
step p (read t out len) =
    let r = read_round t p out len in
    record { pipe = r.pipe; taken = []; given = moved r.outcome r.out }
step p (write t src len) =
    let r = write_round t p src len in
    record { pipe = r.pipe; taken = moved r.outcome src; given = [] }
step p close_read = quiet (read_close p).0
step p close_write = quiet (write_close p).0
step p open_read = quiet (dup_read p)
step p open_write = quiet (dup_write p)

unfoldable pub run : Pipe → List Op → Moved
unfolding step
run p [] = quiet p
run p (o ∷ os) =
    let m = step p o in
    let rest = run m.pipe os in
    record { pipe = rest.pipe; taken = m.taken ++ rest.taken; given = m.given ++ rest.given }

step-IsValid : (p : Pipe) (o : Op) → IsValid p → IsValid (step p o).pipe
unfolding step
step-IsValid p (read t out len) v = read_round-IsValid t p out len v
step-IsValid p (write t src len) v = write_round-IsValid t p src len v
step-IsValid p close_read v = (ends-IsValid p v).0
step-IsValid p close_write v = (ends-IsValid p v).1
step-IsValid p open_read v = (ends-IsValid p v).2
step-IsValid p open_write v = (ends-IsValid p v).3

-- No step loses, repeats or reorders a byte.
abbrev Conserves : Pipe → Moved → Type 0
Conserves p m = contents p ++ m.taken ≡ m.given ++ contents m.pipe

read-Conserves :
    (t : Option Task) (p : Pipe) (out : ℕ → ℕ) (len : ℕ)
    → IsValid p
    → let r = read_round t p out len in contents p ≡ moved r.outcome r.out ++ contents r.pipe
unfolding moved tabulate
read-Conserves t p out len v = elim (ℕ_discrete p.count 0) [
  | yes e ↦ elim (ℕ_discrete p.write_refs 0) [
    | yes w ↦ rw (read_round-eof t p out len v e w) refl
    | no w ↦ rw (read_round-blocks t p out len v e w) refl
  ]
  | no ne ↦
      let d = read_data-Reads p out len v in
      rw (read_round-data t p out len v ne) (rw d.outcome d.taken)
]

write-Conserves :
    (t : Option Task) (p : Pipe) (src : ℕ → ℕ) (len : ℕ)
    → IsValid p
    → let r = write_round t p src len in contents p ++ moved r.outcome src ≡ contents r.pipe
unfolding moved
write-Conserves t p src len v = elim (ℕ_discrete p.read_refs 0) [
  | yes e ↦ rw (write_round-broken t p src len v e) (append-nil (contents p))
  | no e ↦ elim (ℕ_discrete p.count buf_size) [
    | yes w ↦ rw (write_round-blocks t p src len v e w) (append-nil (contents p))
    | no w ↦
        let d = write_data-Writes p src len v in
        rw (write_round-data t p src len v e w) (rw d.outcome (sym d.added))
  ]
]

step-Conserves : (p : Pipe) (o : Op) → IsValid p → Conserves p (step p o)
unfolding step
step-Conserves p (read t out len) v = append-nil (contents p) ∙ read-Conserves t p out len v
step-Conserves p (write t src len) v = write-Conserves t p src len v
step-Conserves p close_read v = unfold read_close in append-nil (contents p)
step-Conserves p close_write v = unfold write_close in append-nil (contents p)
step-Conserves p open_read v = unfold dup_read in append-nil (contents p)
step-Conserves p open_write v = unfold dup_write in append-nil (contents p)

run-IsValid : (p : Pipe) (os : List Op) → IsValid p → IsValid (run p os).pipe
unfolding run
run-IsValid p [] v = v
run-IsValid p (o ∷ os) v = run-IsValid (step p o).pipe os (step-IsValid p o v)

-- Two conserving parts of a history make a conserving whole.
conserves_trans :
    (before taken given middle taken' given' after : List ℕ)
    → before ++ taken ≡ given ++ middle
    → middle ++ taken' ≡ given' ++ after
    → before ++ (taken ++ taken') ≡ (given ++ given') ++ after
conserves_trans before taken given middle taken' given' after h k =
    sym (append_assoc before taken taken')
    ∙ ap (λ t. t ++ taken') h
    ∙ append_assoc given middle taken'
    ∙ ap (λ t. given ++ t) k
    ∙ sym (append_assoc given given' after)

run-Conserves : (p : Pipe) (os : List Op) → IsValid p → Conserves p (run p os)
unfolding run
run-Conserves p [] v = append-nil (contents p)
run-Conserves p (o ∷ os) v =
    let m = step p o in
    let rest = run m.pipe os in
    conserves_trans (contents p) m.taken m.given (contents m.pipe) rest.taken rest.given
      (contents rest.pipe) (step-Conserves p o v) (run-Conserves m.pipe os (step-IsValid p o v))

-- Over any history of a valid pipe, what it held at the start followed by the bytes that writers
-- were told were written is, in order, what readers were given followed by what it holds at the
-- end; and the pipe is valid at the end.
pub run-conserves :
    (p : Pipe) (os : List Op)
    → IsValid p
    → let m = run p os in (contents p ++ m.taken ≡ m.given ++ contents m.pipe) × IsValid m.pipe
run-conserves p os v = (run-Conserves p os v, run-IsValid p os v)
