-- ===== src/Pipe/Rounds.antt =====
-- The rounds of the two loops of kernel/fs/pipe.c on a valid pipe, branch by branch.
use exec_aegis.Base.{ℕ, ◌≡◌, ◌≢◌, Option, [], arith, ◌==◌, true, false}
use exec_aegis.Pipe.{
  Pipe, Task, blocks, returns, fails, buf_size, read_data, write_data, read_round, write_round,
  sigpipe,
}
use exec_aegis.Pipe.Invariant.{IsValid, reset-id}

eqb_ne : (a b : ℕ) → a ≢ b → (a == b) ≡ false
eqb_ne a b h = ground arith

eqb_self : (a b : ℕ) → a ≡ b → (a == b) ≡ true
eqb_self a b h = ground arith

module _ (current : Option Task) (p : Pipe) (out : ℕ → ℕ) (len : ℕ) (v : IsValid p) where
  pub read_round-data : p.count ≢ 0 → read_round current p out len ≡ read_data p out len
  unfolding read_round
  read_round-data h = rw (reset-id p v, eqb_ne p.count 0 h)

  pub read_round-eof :
      p.count ≡ 0
      → p.write_refs ≡ 0
      → read_round current p out len
        ≡ record { outcome = returns 0; pipe = p; out = out; effects = [] }
  unfolding read_round
  read_round-eof h k = rw (reset-id p v, eqb_self p.count 0 h, eqb_self p.write_refs 0 k)

  pub read_round-blocks :
      p.count ≡ 0
      → p.write_refs ≢ 0
      → read_round current p out len ≡ record {
        outcome = blocks;
        pipe = record p { reader_waiting = current };
        out = out;
        effects = [];
      }
  unfolding read_round
  read_round-blocks h k = rw (reset-id p v, eqb_self p.count 0 h, eqb_ne p.write_refs 0 k)

  pub write_round-data :
      p.read_refs ≢ 0 → p.count ≢ buf_size → write_round current p out len ≡ write_data p out len
  unfolding write_round
  write_round-data h k = rw (reset-id p v, eqb_ne p.read_refs 0 h, eqb_ne p.count buf_size k)

  pub write_round-broken :
      p.read_refs ≡ 0
      → write_round current p out len
        ≡ record { outcome = fails 32; pipe = p; out = out; effects = sigpipe current }
  unfolding write_round
  write_round-broken h = rw (reset-id p v, eqb_self p.read_refs 0 h)

  pub write_round-blocks :
      p.read_refs ≢ 0
      → p.count ≡ buf_size
      → write_round current p out len ≡ record {
        outcome = blocks;
        pipe = record p { writer_waiting = current };
        out = out;
        effects = [];
      }
  unfolding write_round
  write_round-blocks h k = rw (reset-id p v, eqb_ne p.read_refs 0 h, eqb_self p.count buf_size k)
