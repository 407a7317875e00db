-- ===== src/Ranges/Cover.antt =====
-- How many ranges of a list an address is in, and what the removal and the update of a slot do to that.
use exec_aegis.Base.{
  ℕ, zero, suc, ◌+◌, ◌-◌, ◌*◌, ◌≤◌, ◌<◌, ◌≡◌, ◌≢◌, refl, ap, ◌∙◌, ◌&&◌, List, [], ◌∷◌, ◌++◌, length,
  take, get_or, set, ltb, leb, if◌then◌else◌, arith, length-set,
}
use exec_aegis.Ranges.{Range, no_range, remove_at}

-- 1 for the addresses from `lo` up to `hi`, 0 for the others
unfoldable pub between : ℕ → ℕ → ℕ → ℕ
between lo hi a = if leb lo a && ltb a hi then 1 else 0

-- `n` units from `base` on
abbrev pub span : ℕ → ℕ → ℕ → ℕ → ℕ
span u base n a = between base (base + n * u) a

abbrev pub cover : ℕ → Range → ℕ → ℕ
cover u e a = span u e.base e.size a

unfoldable pub count : ℕ → List Range → ℕ → ℕ
count u [] a = 0
count u (e ∷ es) a = cover u e a + count u es a

pub between-small : (lo hi a : ℕ) → between lo hi a ≤ 1
unfolding between
between-small lo hi a = ground arith

pub between-split :
    (lo mid hi a : ℕ) → lo ≤ mid → mid ≤ hi → between lo mid a + between mid hi a ≡ between lo hi a
unfolding between
between-split lo mid hi a h k = ground arith

pub between-empty : (lo a : ℕ) → between lo lo a ≡ 0
unfolding between
between-empty lo a = ground arith

pub between_self : (lo hi : ℕ) → lo < hi → between lo hi lo ≡ 1
unfolding between
between_self lo hi h = ground arith

pub between-inside : (lo hi a : ℕ) → 1 ≤ between lo hi a → a < hi
unfolding between
between-inside lo hi a h = ground arith

-- Two ranges, one after the other, are one.
pub span-join : (u b m n a : ℕ) → span u b m a + span u (b + m * u) n a ≡ span u b (m + n) a
span-join u b m n a =
    let e : b + m * u + n * u ≡ b + (m + n) * u = omega arith in
    rw e (between-split b (b + m * u) (b + (m + n) * u) a (omega arith) (omega arith))

module _ (u a : ℕ) where
  pub count-append : (xs ys : List Range) → count u (xs ++ ys) a ≡ count u xs a + count u ys a
  unfolding count
  count-append [] ys = omega arith
  count-append (x ∷ xs) ys = let ih = count-append xs ys in omega arith

  pub count-set :
      (fs : List Range) (i : ℕ) (v : Range)
      → i < length fs
      → count u (set fs i v) a + cover u (get_or fs i no_range) a ≡ count u fs a + cover u v a
  unfolding count
  count-set [] i v h = absurd (omega arith)
  count-set (e ∷ es) zero v h = omega arith
  count-set (e ∷ es) (suc i) v h = let ih = count-set es i v (omega arith) in omega arith

  -- All but the last.
  count-init :
      (n : ℕ) (fs : List Range)
      → length fs ≡ suc n
      → count u (take n fs) a + cover u (get_or fs n no_range) a ≡ count u fs a
  unfolding count
  count-init n [] h = absurd (omega arith)
  count-init zero (e ∷ []) h = omega arith
  count-init zero (e ∷ f ∷ es) h = absurd (omega arith)
  count-init (suc n) (e ∷ es) h = let ih = count-init n es (omega arith) in omega arith

  get_or-set_last :
      (fs : List Range) (i n : ℕ)
      → n < length fs
      → get_or (set fs i (get_or fs n no_range)) n no_range ≡ get_or fs n no_range
  get_or-set_last [] i n h = refl
  get_or-set_last (e ∷ es) zero zero h = refl
  get_or-set_last (e ∷ es) zero (suc n) h = refl
  get_or-set_last (e ∷ es) (suc i) zero h = refl
  get_or-set_last (e ∷ es) (suc i) (suc n) h = get_or-set_last es i n (omega arith)

  pub count-remove_at :
      (fs : List Range) (i : ℕ)
      → i < length fs
      → count u (remove_at fs i) a + cover u (get_or fs i no_range) a ≡ count u fs a
  unfolding remove_at
  count-remove_at fs i h =
      let n = length fs - 1 in
      let last = get_or fs n no_range in
      let gs = set fs i last in
      let all_but_last = count-init n gs (length-set fs i last ∙ omega arith) in
      let same : get_or gs n no_range ≡ last = get_or-set_last fs i n (omega arith) in
      let written = count-set fs i last h in
      let same_cover : cover u (get_or gs n no_range) a ≡ cover u last a =
        ap (λ r. cover u r a) same in
      omega arith

  count-one :
      (fs : List Range) (i : ℕ) → i < length fs → cover u (get_or fs i no_range) a ≤ count u fs a
  unfolding count
  count-one [] i h = absurd (omega arith)
  count-one (e ∷ es) zero h = omega arith
  count-one (e ∷ es) (suc i) h = omega (arith, count-one es i (omega arith))

  pub count-two :
      (fs : List Range) (i j : ℕ)
      → i < length fs
      → j < length fs
      → i ≢ j
      → cover u (get_or fs i no_range) a + cover u (get_or fs j no_range) a ≤ count u fs a
  unfolding count
  count-two [] i j h k ne = absurd (omega arith)
  count-two (e ∷ es) zero zero h k ne = absurd (ne refl)
  count-two (e ∷ es) zero (suc j) h k ne = omega (arith, count-one es j (omega arith))
  count-two (e ∷ es) (suc i) zero h k ne = omega (arith, count-one es i (omega arith))
  count-two (e ∷ es) (suc i) (suc j) h k ne =
      omega (arith, count-two es i j (omega arith) (omega arith) (omega arith))
