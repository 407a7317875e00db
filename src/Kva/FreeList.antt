-- ===== src/Kva/FreeList.antt =====
-- The free list of kernel/mm/kva.c keeps every address that it was given, while it has room, and gives
-- out what it has.
use exec_aegis.Base.{ℕ, suc, ◌≤◌, ◌<◌, inl, inr, List, [], ◌∷◌, length, ◌==◌, arith, Bool-cases}
use exec_aegis.Ranges.{Range, end_of}
use exec_aegis.Ranges.Alloc.{InMemory, Ranges}
use exec_aegis.Ranges.Join.{
  Rest, Rest-suc, Rest-head, Rest-whole, Returned, Covers→Returned, append_range-Returned,
  extend_back_lem, extend_front_lem,
}
use exec_aegis.Kva.{page, kva_free_max, insert_loop, freelist_insert}

module _ (x : Range) (fs : List Range) (mx : InMemory page x) (ms : Ranges page fs)
    (le : length fs ≤ kva_free_max) where
  insert_loop-Returned :
      (es : List Range) (i : ℕ)
      → Rest fs i es
      → Returned page kva_free_max fs x (insert_loop es i x fs)
  unfolding insert_loop
  insert_loop-Returned [] i r = append_range-Returned page kva_free_max fs x (omega arith) le ms mx
  insert_loop-Returned (e ∷ es) i r =
      let lt : i < length fs = omega (arith, r.all_slots) in
      elim (Bool-cases (end_of page e == x.base)) [
        | inl h ↦
            rw (insert_loop, h)
              (Covers→Returned page kva_free_max fs x _ le
                (extend_back_lem page (omega arith) fs ms i e x lt (Rest-head r) mx (ground arith)))
        | inr h ↦ elim (Bool-cases (end_of page x == e.base)) [
          | inl k ↦
              rw (insert_loop, h, k)
                (Covers→Returned page kva_free_max fs x _ le (
                  extend_front_lem page fs i e x (omega arith) ms lt (Rest-head r) mx
                    (ground arith)))
          | inr k ↦ rw (insert_loop, h, k) (insert_loop-Returned es (suc i) (Rest-suc r))
        ]
      ]

  -- A range of memory put on the free list, with coalescing, leaves every address covered as often as
  -- before and the range's own addresses once more, in a list of at most 128; or the list was full and
  -- is as it was.
  pub freelist_insert-Returned : Returned page kva_free_max fs x (freelist_insert x fs)
  unfolding freelist_insert
  freelist_insert-Returned = insert_loop-Returned fs 0 (Rest-whole fs)
