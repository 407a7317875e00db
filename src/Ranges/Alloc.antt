-- ===== src/Ranges/Alloc.antt =====
-- The free lists give out the first part of one range, a smallest that is large enough, and keep the
-- rest.
use exec_aegis.Base.{
  ℕ, zero, suc, ◌+◌, ◌-◌, ◌*◌, ◌^◌, ◌≤◌, ◌<◌, ◌≡◌, refl, ap, ◌∙◌, Option, none, some, List, length,
  get_or, set, true, false, u64, ◌==◌, arith, All, All-get_or, All-set, All-take, length-set,
  length-take,
}
use native.Mathlib.Decide.{ℕ_discrete, dec_lt}
use native.Mathlib.Nat.{add-mul}
use exec_aegis.Ranges.{Range, no_range, max_u64, remove_at, take_from, best_fit, alloc}
use exec_aegis.Ranges.Cover.{span, cover, count, span-join, count-set, count-remove_at}
use exec_aegis.Ranges.Fit.{size_at, Smallest, Found, nothing, slot_found, best_fit_lem}

-- A range that does not start at 0 and ends below the top of memory.
pub record InMemory (u : ℕ) (e : Range) : Type 0 where
  pub not_null : 0 < e.base
  pub below_top : e.base + e.size * u < 2 ^ 64

abbrev pub Ranges : ℕ → List Range → Type 0
Ranges u fs = All (λ e. InMemory u e) fs

abbrev pub base_at : List Range → ℕ → ℕ
base_at fs k = (get_or fs k no_range).base

pub Ranges-remove_at :
    (u : ℕ) (fs : List Range) (i : ℕ) → i < length fs → Ranges u fs → Ranges u (remove_at fs i)
unfolding remove_at
Ranges-remove_at u fs i h ms =
    let last = All-get_or (λ e. InMemory u e) fs (length fs - 1) no_range (omega arith) ms in
    All-take (λ e. InMemory u e) (length fs - 1) (set fs i (get_or fs (length fs - 1) no_range))
      (All-set (λ e. InMemory u e) fs i (get_or fs (length fs - 1) no_range) last ms)

pub length-remove_at : (fs : List Range) (i : ℕ) → length (remove_at fs i) ≤ length fs
unfolding remove_at
length-remove_at fs i =
    omega (arith, length-take (length fs - 1) (set fs i (get_or fs (length fs - 1) no_range)))

-- `n` units were taken from the front of slot `k`.
pub record Gives (u n : ℕ) (fs : List Range) (k : ℕ) (r : ℕ × List Range) : Type 0 where
  pub address : r.0 ≡ base_at fs k
  pub rest : (a : ℕ) → count u r.1 a + span u r.0 n a ≡ count u fs a
  pub in_memory : Ranges u r.1
  pub not_longer : length r.1 ≤ length fs

module _ (u n : ℕ) (fs : List Range) (k : ℕ) (b : Smallest n fs k) (ms : Ranges u fs) where
  abbrev e : Range
  e = get_or fs k no_range

  e-InMemory : InMemory u e
  e-InMemory = All-get_or (λ r. InMemory u r) fs k no_range b.in_use ms

  take_exact : e.size ≡ n → Gives u n fs k (take_from u n k fs)
  unfolding take_from
  take_exact eq =
      let test : (e.size == n) ≡ true = ground arith in
      rw (take_from, test)
        (record {
          address = refl;
          rest = λ a.
              let same : span u e.base e.size a ≡ span u e.base n a =
                ap (λ m. span u e.base m a) eq in
              omega (arith, count-remove_at u a fs k b.in_use);
          in_memory = Ranges-remove_at u fs k b.in_use ms;
          not_longer = length-remove_at fs k;
        })

  abbrev shrunk : Range
  shrunk = record { base = u64 (e.base + n * u); size = e.size - n }

  bytes_split : n < e.size → e.size * u ≡ n * u + (e.size - n) * u
  bytes_split lt =
      let parts : e.size ≡ n + (e.size - n) = omega arith in
      ap (λ t. t * u) parts ∙ add-mul n (e.size - n) u

  shrunk_base : n < e.size → shrunk.base ≡ e.base + n * u
  shrunk_base lt = omega (arith, bytes_split lt, e-InMemory)

  shrunk-InMemory : n < e.size → InMemory u shrunk
  shrunk-InMemory lt = record {
    not_null = omega (arith, shrunk_base lt, e-InMemory);
    below_top = omega (arith, shrunk_base lt, bytes_split lt, e-InMemory);
  }

  -- The part taken and the part kept are the range.
  cover-shrunk : n < e.size → (a : ℕ) → span u e.base n a + cover u shrunk a ≡ cover u e a
  cover-shrunk lt a =
      let parts : n + (e.size - n) ≡ e.size = omega arith in
      let moved : cover u shrunk a ≡ span u (e.base + n * u) (e.size - n) a =
        ap (λ x. span u x (e.size - n) a) (shrunk_base lt) in
      let whole : span u e.base (n + (e.size - n)) a ≡ cover u e a =
        ap (λ x. span u e.base x a) parts in
      omega (arith, span-join u e.base n (e.size - n) a)

  take_part : n < e.size → Gives u n fs k (take_from u n k fs)
  unfolding take_from
  take_part lt =
      let test : (e.size == n) ≡ false = ground arith in
      rw (take_from, test)
        (record {
          address = refl;
          rest = λ a. omega (arith, cover-shrunk lt a, count-set u a fs k shrunk b.in_use);
          in_memory = All-set (λ r. InMemory u r) fs k shrunk (shrunk-InMemory lt) ms;
          not_longer = omega (arith, length-set fs k shrunk);
        })

  take_from_lem : Gives u n fs k (take_from u n k fs)
  take_from_lem = elim (ℕ_discrete e.size n) [
    | yes eq ↦ take_exact eq
    | no ne ↦ let enough = b.enough in take_part (omega arith)
  ]

-- What the free list answers: nothing, where no range is large enough, or a smallest one's first part.
pub data Answer (u n : ℕ) (fs : List Range) : ℕ × List Range → Type 0 where
  refuses : ((k : ℕ) → k < length fs → size_at fs k < n) → Answer u n fs (0, fs)
  gives : {r : ℕ × List Range} (k : ℕ) → Smallest n fs k → Gives u n fs k r → Answer u n fs r

pub le_mul : (m u : ℕ) → 0 < u → m ≤ m * u
le_mul m zero h = absurd (omega arith)
le_mul m (suc u) h = omega arith

-- `freelist_alloc` and `mmap_free_alloc` on a list of ranges that do not begin at 0 and end below 2^64,
-- with sizes counted in units of at least a byte: either every range is smaller than what is asked for,
-- the answer is 0 and the list is as it was; or the answer is the base of a smallest range that is large
-- enough, and in the list that is left every address is covered as often as before but for the `n` units
-- from that base on, which are covered once less, and the ranges still do not begin at 0 and end below
-- 2^64.
pub alloc_lem : (u n : ℕ) (fs : List Range) → 0 < u → Ranges u fs → Answer u n fs (alloc u n fs)
unfolding alloc
alloc_lem u n fs pos ms = from_search (best_fit n fs 0 none max_u64) (best_fit_lem n fs)
  where
    from_search :
        (r : Option ℕ)
        → Found n fs r
        → Answer u n fs (elim r [ none ↦ (0, fs) | some i ↦ take_from u n i fs ])
    from_search r (nothing h) = refuses (λ k lt.
        let m = All-get_or (λ e. InMemory u e) fs k no_range lt ms in
        elim (dec_lt (size_at fs k) n) [
          | yes small ↦ small
          | no not_small ↦
              omega (arith, h k lt, le_mul (size_at fs k) u pos, m.not_null, m.below_top)
        ])
    from_search r (slot_found k b) = gives k b (take_from_lem u n fs k b ms)
