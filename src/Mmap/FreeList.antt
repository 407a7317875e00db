-- ===== src/Mmap/FreeList.antt =====
-- The free list of kernel/syscall/sys_memory.c keeps every address that it was given, while it has room.
use exec_aegis.Base.{
  ℕ, suc, ◌+◌, ◌≤◌, ◌<◌, ◌≡◌, length-set, not, ◌&&◌, inl, inr, List, [], ◌∷◌, length, get_or, set,
  ◌==◌, u64, arith, Bool-cases,
}
use exec_aegis.Ranges.{Range, no_range, end_of}
use exec_aegis.Ranges.Cover.{cover}
use exec_aegis.Ranges.Alloc.{InMemory, Ranges}
use exec_aegis.Ranges.Join.{
  Rest, Rest-suc, Rest-head, Rest-whole, Covers, Covers-trans, Returned, Covers→Returned,
  append_range-Returned, extend_back_lem, extend_front_lem, absorb_slot, get_or-set,
}
use exec_aegis.Mmap.{mmap_free_max, absorb_previous, insert_loop, mmap_free_insert}

module _ (fs : List Range) (i : ℕ) (m : Range) (lt : i < length fs)
    (written : get_or fs i no_range ≡ m) (ms : Ranges 1 fs) where
  absorb_previous_lem :
      (es : List Range) (j : ℕ) → Rest fs j es → Covers 1 fs (λ a. 0) (absorb_previous es j i m fs)
  unfolding absorb_previous
  absorb_previous_lem [] j r = record {
    same = λ a. omega arith;
    in_memory = ms;
    not_longer = omega arith;
  }
  absorb_previous_lem (e ∷ es) j r = elim (Bool-cases (not (j == i) && end_of 1 e == m.base)) [
    | inr h ↦ rw (absorb_previous, h) (absorb_previous_lem es (suc j) (Rest-suc r))
    | inl h ↦
        rw (absorb_previous, h)
          (absorb_slot 1 (omega arith) fs j e (omega (arith, r.all_slots)) (Rest-head r) ms i m lt
            written (ground arith) (ground arith))
  ]

module _ (x : Range) (fs : List Range) (mx : InMemory 1 x) (ms : Ranges 1 fs)
    (le : length fs ≤ mmap_free_max) where
  extend_both :
      (i : ℕ) (e : Range)
      → i < length fs
      → get_or fs i no_range ≡ e
      → end_of 1 x ≡ e.base
      → Covers 1 fs (cover 1 x) (
          absorb_previous
            (set fs i (record { base = x.base; size = u64 (e.size + x.size) }))
            0
            i
            (record { base = x.base; size = u64 (e.size + x.size) })
            (set fs i (record { base = x.base; size = u64 (e.size + x.size) })))
  extend_both i e lt at_i adjacent =
      let m : Range = record { base = x.base; size = u64 (e.size + x.size) } in
      let front = extend_front_lem 1 fs i e x (omega arith) ms lt at_i mx adjacent in
      let bound : i < length (set fs i m) = omega (arith, length-set fs i m) in
      Covers-trans front (
        absorb_previous_lem (set fs i m) i m bound (get_or-set fs i m lt) front.in_memory
          (set fs i m) 0 (Rest-whole (set fs i m)))

  insert_loop-Returned :
      (es : List Range) (i : ℕ)
      → Rest fs i es
      → Returned 1 mmap_free_max fs x (insert_loop es i x fs)
  unfolding insert_loop
  insert_loop-Returned [] i r = append_range-Returned 1 mmap_free_max fs x (omega arith) le ms mx
  insert_loop-Returned (e ∷ es) i r =
      let lt : i < length fs = omega (arith, r.all_slots) in
      elim (Bool-cases (end_of 1 e == x.base)) [
        | inl h ↦
            rw (insert_loop, h)
              (Covers→Returned 1 mmap_free_max fs x _ le
                (extend_back_lem 1 (omega arith) fs ms i e x lt (Rest-head r) mx (ground arith)))
        | inr h ↦ elim (Bool-cases (end_of 1 x == e.base)) [
          | inl k ↦
              rw (insert_loop, h, k)
                (Covers→Returned 1 mmap_free_max fs x _ le
                  (extend_both i e lt (Rest-head r) (ground arith)))
          | inr k ↦ rw (insert_loop, h, k) (insert_loop-Returned es (suc i) (Rest-suc r))
        ]
      ]

  -- A range of memory put on a process's free list, with coalescing on both sides, leaves every address
  -- covered as often as before and the range's own addresses once more, in a list of at most 64; or the
  -- list was full and is as it was.
  pub mmap_free_insert-Returned : Returned 1 mmap_free_max fs x (mmap_free_insert x fs)
  unfolding mmap_free_insert
  mmap_free_insert-Returned = insert_loop-Returned fs 0 (Rest-whole fs)
