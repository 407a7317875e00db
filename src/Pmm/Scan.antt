-- ===== src/Pmm/Scan.antt =====
-- The scan of `pmm_alloc_page` (kernel/mm/pmm.c) finds the lowest free page.
use exec_aegis.Base.{
  ℕ, zero, suc, ◌+◌, ◌*◌, ◌/◌, ◌%◌, ◌≤◌, ◌<◌, ◌≡◌, Bool, true, false, Option, none, some, arith,
  ◌==◌, Bool-cases, eqb→eq, Option-cases, inl, inr,
}
use native.Mathlib.Decide.{dec_lt, ℕ_discrete}
use exec_aegis.Pmm.{bit, find_bit, find_page}
use exec_aegis.Pmm.Bit.{bit_full}

-- What a scan of a byte from bit `k` over `left` bits says.
record BitFound (left b k : ℕ) (r : Option ℕ) : Type 0 where
  hit : (m : ℕ) → r ≡ some m → (k ≤ m) × (m < k + left) × (bit b m ≡ false)
  before : (m j : ℕ) → r ≡ some m → k ≤ j → j < m → bit b j ≡ true
  miss : r ≡ none → (j : ℕ) → k ≤ j → j < k + left → bit b j ≡ true

find_bit-BitFound : (left b k : ℕ) → BitFound left b k (find_bit left b k)
unfolding find_bit
find_bit-BitFound zero b k = record {
  hit = λ m e. absurd (cc e);
  before = λ m j e. absurd (cc e);
  miss = λ e j h l. absurd (omega arith);
}
find_bit-BitFound (suc left) b k = elim (Bool-cases (bit b k)) [
  | inl t ↦
      let ih = find_bit-BitFound left b (k + 1) in
      rw t (record {
        hit = λ m e. ground (arith, ih.hit m e);
        before = λ m j e h l. elim (ℕ_discrete j k) [
          | yes q ↦ rw q t
          | no q ↦ ih.before m j e (omega arith) l
        ];
        miss = λ e j h l. elim (ℕ_discrete j k) [
          | yes q ↦ rw q t
          | no q ↦ ih.miss e j (omega arith) (omega arith)
        ];
      })
  | inr f ↦ rw f (record {
    hit = λ m e. let q : k ≡ m = cc e in rw (← q) (omega arith, omega arith, f);
    before = λ m j e h l. let q : k ≡ m = cc e in absurd (omega arith);
    miss = λ e. absurd (cc e);
  })
]

abbrev pub taken : (ℕ → ℕ) → ℕ → Bool
taken bitmap pg = bit (bitmap (pg / 8)) (pg % 8)

-- What the scan from byte `i` over `left` bytes says.
pub record PageFound (left : ℕ) (bitmap : ℕ → ℕ) (i : ℕ) (r : Option ℕ) : Type 0 where
  pub hit :
      (pg : ℕ) → r ≡ some pg → (i * 8 ≤ pg) × (pg < (i + left) * 8) × (taken bitmap pg ≡ false)
  pub before : (pg q : ℕ) → r ≡ some pg → i * 8 ≤ q → q < pg → taken bitmap q ≡ true
  pub miss : r ≡ none → (q : ℕ) → i * 8 ≤ q → q < (i + left) * 8 → taken bitmap q ≡ true

module _ (left : ℕ) (bitmap : ℕ → ℕ) (i : ℕ) where
  -- A byte with every bit set is passed over.
  full_step :
      ((k : ℕ) → k < 8 → bit (bitmap i) k ≡ true)
      → PageFound left bitmap (i + 1) (find_page left bitmap (i + 1))
      → PageFound (suc left) bitmap i (find_page left bitmap (i + 1))
  full_step full ih = record {
    hit = λ pg e. ground (arith, ih.hit pg e);
    before = λ pg q e h l. elim (dec_lt q ((i + 1) * 8)) [
      | yes t ↦ here q h t
      | no t ↦ ih.before pg q e (omega arith) l
    ];
    miss = λ e q h l. elim (dec_lt q ((i + 1) * 8)) [
      | yes t ↦ here q h t
      | no t ↦ ih.miss e q (omega arith) (omega arith)
    ];
  }
    where
      here : (q : ℕ) → i * 8 ≤ q → q < (i + 1) * 8 → taken bitmap q ≡ true
      here q h l = let e : q / 8 ≡ i = omega arith in rw e (full (q % 8) (omega arith))

  -- The byte has a clear bit, `k` the first.
  hit_step :
      (k : ℕ) → find_bit 8 (bitmap i) 0 ≡ some k → PageFound (suc left) bitmap i (some (i * 8 + k))
  hit_step k e =
      let found = find_bit-BitFound 8 (bitmap i) 0 in
      let small : k < 8 = omega (arith, (found.hit k e).1) in
      record {
        hit = λ pg e'.
            let p : i * 8 + k ≡ pg = cc e' in
            let d : pg / 8 ≡ i = omega arith in
            let m : pg % 8 ≡ k = omega arith in
            (omega arith, omega arith, rw (d, m) (found.hit k e).2);
        before = λ pg q e' h l.
            let p : i * 8 + k ≡ pg = cc e' in
            let d : q / 8 ≡ i = omega arith in
            rw d (found.before k (q % 8) e (omega arith) (omega arith));
        miss = λ e'. absurd (cc e');
      }

pub find_page-PageFound :
    (left : ℕ) (bitmap : ℕ → ℕ) (i : ℕ) → PageFound left bitmap i (find_page left bitmap i)
unfolding find_page
find_page-PageFound zero bitmap i = record {
  hit = λ pg e. absurd (cc e);
  before = λ pg q e. absurd (cc e);
  miss = λ e q h l. absurd (omega arith);
}
find_page-PageFound (suc left) bitmap i = elim (Bool-cases (bitmap i == 255)) [
  | inl t ↦
      let e : bitmap i ≡ 255 = eqb→eq (bitmap i) 255 t in
      rw t (
        full_step left bitmap i (λ k h. rw e (bit_full k h))
          (find_page-PageFound left bitmap (i + 1)))
  | inr f ↦ elim (Option-cases (find_bit 8 (bitmap i) 0)) [
    | inl none_clear ↦
        let miss = (find_bit-BitFound 8 (bitmap i) 0).miss none_clear in
        rw (f, none_clear, find_page)
          (full_step left bitmap i (λ k h. miss k (omega arith) (omega arith))
            (find_page-PageFound left bitmap (i + 1)))
    | inr (k, e) ↦ rw (f, e, find_page) (hit_step left bitmap i k e)
  ]
]
