-- ===== src/Pipe/Fifo.antt =====
-- The pipe of kernel/fs/pipe.c as a first-in first-out queue of bytes.
use exec_aegis.Base.{
  ℕ, ◌+◌, ◌-◌, ◌%◌, ◌^◌, ◌≤◌, ◌<◌, ◌≡◌, refl, ap, ap₂, none, subst, [], ◌∙◌, sym, Option, List,
  ◌++◌, arith, min, u32, if◌then◌else◌, ltb, tabulate, tabulate-add, tabulate_ext,
}
use exec_aegis.Pipe.{
  Pipe, Task, Round, returns, buf_size, memcpy, copy_out, copy_in, read_data, write_data,
  read_round, write_round,
}
use native.Mathlib.Decide.{ℕ_discrete}
use exec_aegis.Pipe.Rounds.{
  read_round-data, read_round-eof, read_round-blocks, write_round-data, write_round-broken,
  write_round-blocks,
}
use exec_aegis.Pipe.Invariant.{IsValid}

-- The byte `i` places behind the oldest one.
abbrev pub byte_at : Pipe → ℕ → ℕ
byte_at p i = p.buf ((p.read_pos + i) % buf_size)

-- The bytes held, oldest first.
abbrev pub contents : Pipe → List ℕ
contents p = tabulate p.count (byte_at p)

-- The two copies of a read take the bytes round the end of the ring.
copy_out_lem :
    (p : Pipe) (out : ℕ → ℕ) (n i : ℕ)
    → IsValid p
    → n ≤ p.count
    → i < n
    → copy_out p out n i ≡ byte_at p i
unfolding copy_out memcpy
copy_out_lem p out n i v h lt = ground arith

pub copy_out_beyond :
    (p : Pipe) (out : ℕ → ℕ) (n i : ℕ)
    → IsValid p
    → n ≤ p.count
    → n ≤ i
    → copy_out p out n i ≡ out i
unfolding copy_out memcpy
copy_out_beyond p out n i v h le = ground arith

copy_in_old :
    (p : Pipe) (src : ℕ → ℕ) (n i : ℕ)
    → IsValid p
    → n + p.count ≤ buf_size
    → i < p.count
    → copy_in p src n ((p.read_pos + i) % buf_size) ≡ byte_at p i
unfolding copy_in memcpy
copy_in_old p src n i v h lt = ground arith

copy_in_new :
    (p : Pipe) (src : ℕ → ℕ) (n i : ℕ)
    → IsValid p
    → n + p.count ≤ buf_size
    → i < n
    → copy_in p src n ((p.read_pos + (p.count + i)) % buf_size) ≡ src i
unfolding copy_in memcpy
copy_in_new p src n i v h lt = ground arith

-- What a read of `n` bytes does.
pub record Reads (p : Pipe) (out : ℕ → ℕ) (n : ℕ) (r : Round) : Type 0 where
  pub outcome : r.outcome ≡ returns n
  pub taken : contents p ≡ tabulate n r.out ++ contents r.pipe
  pub untouched : (i : ℕ) → n ≤ i → r.out i ≡ out i

-- What a write of `n` bytes does.
pub record Writes (p : Pipe) (src : ℕ → ℕ) (n : ℕ) (r : Round) : Type 0 where
  pub outcome : r.outcome ≡ returns n
  pub added : contents r.pipe ≡ contents p ++ tabulate n src

split_contents :
    (p q : Pipe) (n : ℕ)
    → n ≤ p.count
    → q.count ≡ p.count - n
    → ((i : ℕ) → i < p.count - n → byte_at p (n + i) ≡ byte_at q i)
    → contents p ≡ tabulate n (byte_at p) ++ contents q
split_contents p q n h e same =
    let split : p.count ≡ n + (p.count - n) = omega arith in
    ap (λ k. tabulate k (byte_at p)) split
    ∙ tabulate-add n (p.count - n) (byte_at p)
    ∙ ap (λ t. tabulate n (byte_at p) ++ t)
        (rw e (tabulate_ext (p.count - n) (λ i. byte_at p (n + i)) (byte_at q) same))

clip-eq-min : (a b : ℕ) → (if ltb b a then b else a) ≡ min a b
clip-eq-min a b = ground arith

pub read_data-Reads :
    (p : Pipe) (out : ℕ → ℕ) (len : ℕ)
    → IsValid p
    → Reads p out (min (u32 len) p.count) (read_data p out len)
unfolding read_data
read_data-Reads p out len v =
    let n = min (u32 len) p.count in
    rw clip-eq-min (record {
      outcome = refl;
      taken =
          split_contents p
            (record p {
              read_pos = u32 (p.read_pos + n) % buf_size;
              count = p.count - n;
              writer_waiting = none;
            })
            n (omega arith) refl (λ i lt. ap p.buf (omega arith))
          ∙ ap
              (λ t.
                t
                ++ contents (record p {
                  read_pos = u32 (p.read_pos + n) % buf_size;
                  count = p.count - n;
                  writer_waiting = none;
                }))
              (tabulate_ext n (byte_at p) (copy_out p out n)
                (λ i lt. sym (copy_out_lem p out n i v (omega arith) lt)));
      untouched = λ i le. copy_out_beyond p out n i v (omega arith) le;
    })

pub write_data-Writes :
    (p : Pipe) (src : ℕ → ℕ) (len : ℕ)
    → IsValid p
    → Writes p src (min (u32 len) (buf_size - p.count)) (write_data p src len)
unfolding write_data
write_data-Writes p src len v =
    let room : u32 (buf_size + 2 ^ 32 - p.count) ≡ buf_size - p.count = omega arith in
    let n = min (u32 len) (buf_size - p.count) in
    let grown : u32 (p.count + n) ≡ p.count + n = omega arith in
    rw (room, clip-eq-min, grown)
      (record {
        outcome = refl;
        added =
            tabulate-add p.count n (λ i. copy_in p src n ((p.read_pos + i) % buf_size))
            ∙ ap₂ ◌++◌
                (tabulate_ext p.count _ (byte_at p)
                  (λ i lt. copy_in_old p src n i v (omega arith) lt))
                (tabulate_ext n _ src (λ i lt. copy_in_new p src n i v (omega arith) lt));
      })

-- The outcome says how many bytes were moved.
Reads-determined :
    {p : Pipe} {out : ℕ → ℕ} {n m : ℕ} {r : Round}
    → Reads p out m r
    → r.outcome ≡ returns n
    → (n ≡ m) × Reads p out n r
Reads-determined {p} {out} {n} {m} {r} d h =
    let e : m ≡ n = cc d.outcome in (sym e, subst (λ k. Reads p out k r) e d)

Writes-determined :
    {p : Pipe} {src : ℕ → ℕ} {n m : ℕ} {r : Round}
    → Writes p src m r
    → r.outcome ≡ returns n
    → (n ≡ m) × Writes p src n r
Writes-determined {p} {src} {n} {m} {r} d h =
    let e : m ≡ n = cc d.outcome in (sym e, subst (λ k. Writes p src k r) e d)

nothing_read :
    (p : Pipe) (out : ℕ → ℕ) (len : ℕ)
    → p.count ≡ 0
    → Reads p out
        (min (u32 len) p.count)
        (record { outcome = returns 0; pipe = p; out = out; effects = [] })
unfolding tabulate
nothing_read p out len e =
    let z : min (u32 len) p.count ≡ 0 = omega arith in
    rw z (record { outcome = refl; taken = refl; untouched = λ i le. refl })

-- On a valid pipe, a read round that returns `n` has `n` the lesser of the request (cut to 32 bits)
-- and the bytes held: it delivers the oldest `n` bytes in order, keeps the others in order, and
-- leaves the rest of the caller's buffer alone. End of file is the case of an empty pipe.
pub read_round-Reads :
    (current : Option Task) (p : Pipe) (out : ℕ → ℕ) (len n : ℕ)
    → IsValid p
    → (read_round current p out len).outcome ≡ returns n
    → (n ≡ min (u32 len) p.count) × Reads p out n (read_round current p out len)
read_round-Reads current p out len n v = elim (ℕ_discrete p.count 0) [
  | yes e ↦ elim (ℕ_discrete p.write_refs 0) [
    | yes w ↦
        rw (read_round-eof current p out len v e w) (Reads-determined (nothing_read p out len e))
    | no w ↦ rw (read_round-blocks current p out len v e w) (λ h. cc)
  ]
  | no ne ↦
      rw (read_round-data current p out len v ne) (Reads-determined (read_data-Reads p out len v))
]

-- On a valid pipe, a write round that returns `n` has `n` the lesser of the request (cut to 32 bits)
-- and the free room, and appends the first `n` bytes of the source in order.
pub write_round-Writes :
    (current : Option Task) (p : Pipe) (src : ℕ → ℕ) (len n : ℕ)
    → IsValid p
    → (write_round current p src len).outcome ≡ returns n
    → (n ≡ min (u32 len) (buf_size - p.count)) × Writes p src n (write_round current p src len)
write_round-Writes current p src len n v = elim (ℕ_discrete p.read_refs 0) [
  | yes e ↦ rw (write_round-broken current p src len v e) (λ h. cc)
  | no e ↦ elim (ℕ_discrete p.count buf_size) [
    | yes w ↦ rw (write_round-blocks current p src len v e w) (λ h. cc)
    | no w ↦
        rw (write_round-data current p src len v e w)
          (Writes-determined (write_data-Writes p src len v))
  ]
]
