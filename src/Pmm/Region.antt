-- ===== src/Pmm/Region.antt =====
-- `pmm_init` of kernel/mm/pmm.c: which pages are free once the regions have been read.
use exec_aegis.Base.{
  ℕ, zero, suc, ◌+◌, ◌-◌, ◌*◌, ◌/◌, ◌%◌, ◌^◌, ◌≤◌, ◌<◌, ◌≡◌, ◌↔◌, Bool, true, false, not, ◌&&◌,
  ◌||◌, List, [], ◌∷◌, All, ◌⊎◌, inl, inr, arith, ltb, leb, ◌==◌, if◌then◌else◌, u64,
}
use native.Mathlib.Decide.{dec_lt}
use exec_aegis.Pmm.{
  Pmm, page_size, max_pages, allocated, mark, unmark, free_loop, reserve_loop, free_region,
  reserve_region, free_regions, reserve_regions, init,
}
use exec_aegis.Pmm.Bit.{bit_full}
use exec_aegis.Pmm.Alloc.{allocated-mark, allocated-unmark, bytes-mark, bytes-unmark}

abbrev Bytes : Pmm → Type 0
Bytes s = (i : ℕ) → s.bitmap i < 256

abbrev within : ℕ → ℕ → ℕ → Bool
within a e pg = leb a pg && ltb pg e

-- The loops over the pages `a` to `e`, the last one left out, do to those pages what they should.
record Reserved (s s' : Pmm) (a e : ℕ) : Type 0 where
  bytes : Bytes s'
  bits : (pg : ℕ) → pg < max_pages → allocated s' pg ≡ (allocated s pg || within a e pg)

record Freed (s s' : Pmm) (a e : ℕ) : Type 0 where
  bytes : Bytes s'
  bits : (pg : ℕ) → pg < max_pages → allocated s' pg ≡ (allocated s pg && not (within a e pg))

-- One round's change, for a page of the managed range or past it.
abbrev marked_in_range : Pmm → ℕ → Pmm
marked_in_range s a = if ltb a max_pages then mark s a else s

abbrev unmarked_in_range : Pmm → ℕ → Pmm
unmarked_in_range s a = if ltb a max_pages then unmark s a else s

module _ (s : Pmm) (a : ℕ) (v : Bytes s) where
  marked-Bytes : Bytes (marked_in_range s a)
  marked-Bytes i = ground (arith, bytes-mark s v a i, v i)

  bits-marked :
      (pg : ℕ) → pg < max_pages → allocated (marked_in_range s a) pg ≡ ((pg == a) || allocated s pg)
  bits-marked pg h = elim (dec_lt a max_pages) [
    | yes t ↦ let e : ltb a max_pages ≡ true = ground arith in rw e (allocated-mark s v a pg)
    | no t ↦
        let e : ltb a max_pages ≡ false = ground arith in
        let ne : (pg == a) ≡ false = ground arith in rw (e, ne)
  ]

  unmarked-Bytes : Bytes (unmarked_in_range s a)
  unmarked-Bytes i = ground (arith, bytes-unmark s v a i, v i)

  bits-unmarked :
      (pg : ℕ)
      → pg < max_pages
      → allocated (unmarked_in_range s a) pg ≡ (not (pg == a) && allocated s pg)
  bits-unmarked pg h = elim (dec_lt a max_pages) [
    | yes t ↦ let e : ltb a max_pages ≡ true = ground arith in rw e (allocated-unmark s v a pg)
    | no t ↦
        let e : ltb a max_pages ≡ false = ground arith in
        let ne : (pg == a) ≡ false = ground arith in rw (e, ne)
  ]

loop_stops : (a e : ℕ) → e ≤ a → ltb (a * page_size) (e * page_size) ≡ false
loop_stops a e h = ground arith

loop_goes : (a e : ℕ) → a < e → ltb (a * page_size) (e * page_size) ≡ true
loop_goes a e h = ground arith

reserve_loop-Reserved :
    (rounds : ℕ) (s : Pmm) (a e : ℕ)
    → Bytes s
    → e ≤ a + rounds
    → Reserved s (reserve_loop rounds (a * page_size) (e * page_size) s) a e
unfolding reserve_loop
reserve_loop-Reserved zero s a e v enough = record { bytes = v; bits = λ pg h. ground arith }
reserve_loop-Reserved (suc rounds) s a e v enough = elim (dec_lt a e) [
  | no ge ↦ rw (loop_stops a e (omega arith)) (record { bytes = v; bits = λ pg h. ground arith })
  | yes lt ↦
      let page : a * page_size / page_size ≡ a = omega arith in
      let next : a * page_size + page_size ≡ (a + 1) * page_size = omega arith in
      let ih =
        reserve_loop-Reserved rounds (marked_in_range s a) (a + 1) e (marked-Bytes s a v)
          (omega arith) in
      rw (loop_goes a e lt, page, next)
        (record {
          bytes = ih.bytes;
          bits = λ pg h. ground (arith, ih.bits pg h, bits-marked s a v pg h);
        })
]

free_loop-Freed :
    (rounds : ℕ) (s : Pmm) (a e : ℕ)
    → Bytes s
    → e ≤ a + rounds
    → Freed s (free_loop rounds (a * page_size) (e * page_size) s) a e
unfolding free_loop
free_loop-Freed zero s a e v enough = record { bytes = v; bits = λ pg h. ground arith }
free_loop-Freed (suc rounds) s a e v enough = elim (dec_lt a e) [
  | no ge ↦ rw (loop_stops a e (omega arith)) (record { bytes = v; bits = λ pg h. ground arith })
  | yes lt ↦
      let page : a * page_size / page_size ≡ a = omega arith in
      let next : a * page_size + page_size ≡ (a + 1) * page_size = omega arith in
      let ih =
        free_loop-Freed rounds (unmarked_in_range s a) (a + 1) e (unmarked-Bytes s a v)
          (omega arith) in
      rw (loop_goes a e lt, page, next)
        (record {
          bytes = ih.bytes;
          bits = λ pg h. ground (arith, ih.bits pg h, bits-unmarked s a v pg h);
        })
]

-- A region that is not empty and, rounded up to whole pages, does not wrap.
abbrev pub Fits : ℕ × ℕ → Type 0
Fits (base, len) = (0 < len) × (base + len + page_size < 2 ^ 64)

-- The page lies within the region; the page and the region share no byte.
abbrev pub Inside : ℕ → ℕ × ℕ → Type 0
Inside pg (base, len) = (base ≤ pg * page_size) × (pg * page_size + page_size ≤ base + len)

abbrev pub Apart : ℕ → ℕ × ℕ → Type 0
Apart pg (base, len) = (pg * page_size + page_size ≤ base) ⊎ (base + len ≤ pg * page_size)

abbrev pub Any : (ℕ × ℕ → Type 0) → List (ℕ × ℕ) → Type 0
Any P [] = ⊥
Any P (r ∷ rs) = P r ⊎ Any P rs

-- The pages that are free in `s'` are those that are free in `s` and fulfil `P`; or, of `FreeOr`,
-- those that are free in `s` or fulfil `P`.
record FreeAnd (s s' : Pmm) (P : ℕ → Type 0) : Type 0 where
  bytes : Bytes s'
  free : (pg : ℕ) → pg < max_pages → (allocated s' pg ≡ false) ↔ ((allocated s pg ≡ false) × P pg)

record FreeOr (s s' : Pmm) (P : ℕ → Type 0) : Type 0 where
  bytes : Bytes s'
  free : (pg : ℕ) → pg < max_pages → (allocated s' pg ≡ false) ↔ ((allocated s pg ≡ false) ⊎ P pg)

reserve_region-FreeAnd :
    (base len : ℕ) (s : Pmm)
    → Bytes s
    → Fits (base, len)
    → FreeAnd s (reserve_region base len s) (λ pg. Apart pg (base, len))
unfolding reserve_region
reserve_region-FreeAnd base len s v f =
    let a = base / page_size in
    let e = (base + len + page_size - 1) / page_size in
    let whole : u64 (base + len + page_size - 1) ≡ base + len + page_size - 1 = omega arith in
    let pages : e * page_size / page_size ≡ e = omega arith in
    let loop = reserve_loop-Reserved e s a e v (omega arith) in
    rw (whole, pages)
      (record {
        bytes = loop.bytes;
        free = λ pg h. (ground (arith, loop.bits pg h), ground (arith, loop.bits pg h));
      })

free_region-FreeOr :
    (base len : ℕ) (s : Pmm)
    → Bytes s
    → Fits (base, len)
    → FreeOr s (free_region base len s) (λ pg. Inside pg (base, len))
unfolding free_region
free_region-FreeOr base len s v f =
    let a = (base + page_size - 1) / page_size in
    let e = (base + len) / page_size in
    let low : u64 (base + page_size - 1) ≡ base + page_size - 1 = omega arith in
    let high : u64 (base + len) ≡ base + len = omega arith in
    let pages : e * page_size / page_size ≡ e = omega arith in
    let loop = free_loop-Freed e s a e v (omega arith) in
    elim (dec_lt (a * page_size) (base + len)) [
      | yes t ↦
          let test : leb (base + len) (a * page_size) ≡ false = ground arith in
          rw (low, high, pages, test)
            (record {
              bytes = loop.bytes;
              free = λ pg h. (ground (arith, loop.bits pg h), ground (arith, loop.bits pg h));
            })
      | no t ↦
          let test : leb (base + len) (a * page_size) ≡ true = ground arith in
          rw (low, high, pages, test)
            (record {
              bytes = v;
              free =
                  λ pg h. ((λ q. inl q), λ q. elim q [ inl x ↦ x | inr y ↦ absurd (omega arith) ]);
            })
    ]

free_regions-FreeOr :
    (rs : List (ℕ × ℕ)) (s : Pmm)
    → Bytes s
    → All Fits rs
    → FreeOr s (free_regions rs s) (λ pg. Any (Inside pg) rs)
unfolding free_regions
free_regions-FreeOr [] s v f = record {
  bytes = v;
  free = λ pg h. ((λ q. inl q), λ q. elim q [ inl x ↦ x | inr y ↦ absurd y ]);
}
free_regions-FreeOr ((base, len) ∷ rs) s v f =
    let one = free_region-FreeOr base len s v f.0 in
    let more = free_regions-FreeOr rs (free_region base len s) one.bytes f.1 in
    record {
      bytes = more.bytes;
      free = λ pg h. (
        λ q. elim ((more.free pg h).0 q) [
          | inl x ↦ elim ((one.free pg h).0 x) [ inl y ↦ inl y | inr y ↦ inr (inl y) ]
          | inr x ↦ inr (inr x)
        ],
        λ q. (more.free pg h).1 (elim q [
          | inl x ↦ inl ((one.free pg h).1 (inl x))
          | inr x ↦ elim x [ inl y ↦ inl ((one.free pg h).1 (inr y)) | inr y ↦ inr y ]
        ]),
      );
    }

reserve_regions-FreeAnd :
    (rs : List (ℕ × ℕ)) (s : Pmm)
    → Bytes s
    → All Fits rs
    → FreeAnd s (reserve_regions rs s) (λ pg. All (Apart pg) rs)
unfolding reserve_regions
reserve_regions-FreeAnd [] s v f = record { bytes = v; free = λ pg h. ((λ q. (q, tt)), λ q. q.0) }
reserve_regions-FreeAnd ((base, len) ∷ rs) s v f =
    let one = reserve_region-FreeAnd base len s v f.0 in
    let more = reserve_regions-FreeAnd rs (reserve_region base len s) one.bytes f.1 in
    record {
      bytes = more.bytes;
      free = λ pg h. (
        λ q. let r = (more.free pg h).0 q in let t = (one.free pg h).0 r.0 in (t.0, (t.1, r.1)),
        λ q. (more.free pg h).1 ((one.free pg h).1 (q.0, q.1.0), q.1.1),
      );
    }

full_bitmap : Pmm
full_bitmap = record { bitmap = λ i. 255; refcount = λ i. 0 }

full_bitmap-allocated : (pg : ℕ) → allocated full_bitmap pg ≡ true
unfolding allocated full_bitmap
full_bitmap-allocated pg = bit_full (pg % 8) (omega arith)

-- After `pmm_init` on regions that are not empty and do not wrap, a page of the managed 4 GB is free
-- exactly if it lies within one usable region and shares no byte with a reserved region nor with the
-- kernel image.
pub init-free :
    (usable reserved : List (ℕ × ℕ)) (kernel_base kernel_len pg : ℕ)
    → All Fits usable
    → All Fits reserved
    → Fits (kernel_base, kernel_len)
    → pg < max_pages
    → (allocated (init usable reserved kernel_base kernel_len) pg ≡ false)
      ↔ (Any (Inside pg) usable × All (Apart pg) reserved × Apart pg (kernel_base, kernel_len))
unfolding init full_bitmap
init-free usable reserved kernel_base kernel_len pg fu fr fk h = (
  λ q.
      let t = (kernel.free pg h).0 q in
      let u = (held.free pg h).0 t.0 in
      elim ((open_pages.free pg h).0 u.0) [
        | inl x ↦ absurd (cc (full_bitmap-allocated pg))
        | inr x ↦ (x, u.1, t.1)
      ],
  λ q. (kernel.free pg h).1 ((held.free pg h).1 ((open_pages.free pg h).1 (inr q.0), q.1), q.2),
)
  where
    open_pages : FreeOr full_bitmap (free_regions usable full_bitmap) (λ pg. Any (Inside pg) usable)
    open_pages = free_regions-FreeOr usable full_bitmap (λ i. omega arith) fu

    held :
        FreeAnd
          (free_regions usable full_bitmap)
          (reserve_regions reserved (free_regions usable full_bitmap))
          (λ pg. All (Apart pg) reserved)
    held = reserve_regions-FreeAnd reserved (free_regions usable full_bitmap) open_pages.bytes fr

    kernel :
        FreeAnd
          (reserve_regions reserved (free_regions usable full_bitmap))
          (reserve_region kernel_base kernel_len
            (reserve_regions reserved (free_regions usable full_bitmap)))
          (λ pg. Apart pg (kernel_base, kernel_len))
    kernel =
        reserve_region-FreeAnd kernel_base kernel_len
          (reserve_regions reserved (free_regions usable full_bitmap)) held.bytes fk
