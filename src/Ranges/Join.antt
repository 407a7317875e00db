-- ===== src/Ranges/Join.antt =====
-- A range given back to a free list: no address is in more ranges of the list than before, but for the
-- addresses given back, which are in one more unless the list was full.
use exec_aegis.Base.{
  ℕ, zero, suc, ◌+◌, ◌*◌, ◌≤◌, ◌<◌, ◌≡◌, ◌≢◌, refl, ap, sym, ◌∙◌, true, false, not, ◌&&◌, List, [],
  ◌∷◌, length, get_or, set, ltb, u64, ◌==◌, arith, All-get_or, All-set, All-append, length-set,
  length-append, Bool-cases, subst, inl, inr,
}
use native.Mathlib.Decide.{dec_lt}
use native.Mathlib.Nat.{add-mul}
use exec_aegis.Ranges.{Range, no_range, remove_at, end_of, absorb_next, extend_back, append_range}
use exec_aegis.Ranges.Cover.{
  span, cover, count, span-join, count-set, count-append, count-remove_at,
}
use exec_aegis.Ranges.Alloc.{InMemory, Ranges, Ranges-remove_at, length-remove_at, le_mul}

-- The list `gs` covers what `fs` covers and, `added a` times more, the address `a`.
pub record Covers (u : ℕ) (fs : List Range) (added : ℕ → ℕ) (gs : List Range) : Type 0 where
  pub same : (a : ℕ) → count u gs a ≡ count u fs a + added a
  pub in_memory : Ranges u gs
  pub not_longer : length gs ≤ length fs

pub Covers-trans :
    {u : ℕ} {fs gs hs : List Range} {added : ℕ → ℕ}
    → Covers u fs added gs
    → Covers u gs (λ a. 0) hs
    → Covers u fs added hs
Covers-trans p q = record {
  same = λ a. omega (arith, p.same a, q.same a);
  in_memory = q.in_memory;
  not_longer = omega (arith, p, q);
}

-- Two ranges, the second of which begins where the first ends, as one.
module _ (u : ℕ) (pos : 0 < u) (e x : Range) (me : InMemory u e) (mx : InMemory u x)
    (adjacent : end_of u e ≡ x.base) where
  abbrev pub joined : Range
  joined = record { base = e.base; size = u64 (e.size + x.size) }

  starts : x.base ≡ e.base + e.size * u
  starts = omega (arith, me.below_top)

  joined_size : joined.size ≡ e.size + x.size
  joined_size =
      let m = mx.below_top in
      let s = starts in omega (arith, le_mul e.size u pos, le_mul x.size u pos)

  bytes_joined : joined.size * u ≡ e.size * u + x.size * u
  bytes_joined = ap (λ t. t * u) joined_size ∙ add-mul e.size x.size u

  pub cover-joined : (a : ℕ) → cover u joined a ≡ cover u e a + cover u x a
  cover-joined a =
      let one : cover u joined a ≡ span u e.base (e.size + x.size) a =
        ap (λ t. span u e.base t a) joined_size in
      let moved : cover u x a ≡ span u (e.base + e.size * u) x.size a =
        ap (λ t. span u t x.size a) starts in
      omega (arith, span-join u e.base e.size x.size a)

  pub joined-InMemory : InMemory u joined
  joined-InMemory = record {
    not_null = me.not_null;
    below_top = omega (arith, bytes_joined, starts, mx.below_top);
  }

get_or-set_other :
    (fs : List Range) (i j : ℕ) (v : Range)
    → i ≢ j
    → get_or (set fs i v) j no_range ≡ get_or fs j no_range
get_or-set_other [] i j v ne = refl
get_or-set_other (e ∷ es) zero zero v ne = absurd (ne refl)
get_or-set_other (e ∷ es) zero (suc j) v ne = refl
get_or-set_other (e ∷ es) (suc i) zero v ne = refl
get_or-set_other (e ∷ es) (suc i) (suc j) v ne = get_or-set_other es i j v (omega arith)

-- The list `es` is `fs` from slot `j` on.
pub record Rest (fs : List Range) (j : ℕ) (es : List Range) : Type 0 where
  pub slots : (k : ℕ) → k < length es → get_or fs (j + k) no_range ≡ get_or es k no_range
  pub all_slots : j + length es ≡ length fs

pub Rest-suc :
    {fs : List Range} {j : ℕ} {e : Range} {es : List Range}
    → Rest fs j (e ∷ es)
    → Rest fs (suc j) es
Rest-suc {j = j} r = record {
  slots =
      λ k lt. (let q : suc j + k ≡ j + suc k = omega arith in rw q (r.slots (suc k) (omega arith)));
  all_slots = omega (arith, r.all_slots);
}

pub Rest-head :
    {fs : List Range} {j : ℕ} {e : Range} {es : List Range}
    → Rest fs j (e ∷ es)
    → get_or fs j no_range ≡ e
Rest-head {fs = fs} {j = j} r =
    let q : j ≡ j + 0 = omega arith in ap (λ t. get_or fs t no_range) q ∙ r.slots 0 (omega arith)

module _ (u : ℕ) (pos : 0 < u) (fs : List Range) (i : ℕ) (m : Range) (lt : i < length fs)
    (written : get_or fs i no_range ≡ m) (ms : Ranges u fs) where
  m-InMemory : InMemory u m
  m-InMemory =
      subst (λ r. InMemory u r) written (All-get_or (λ r. InMemory u r) fs i no_range lt ms)

  -- Slot `j`, whose range `e` begins where that of slot `i` ends, is merged into slot `i`.
  pub absorb_slot :
      (j : ℕ) (e : Range)
      → j < length fs
      → get_or fs j no_range ≡ e
      → j ≢ i
      → end_of u m ≡ e.base
      → Covers u fs (λ a. 0) (remove_at (set fs i (record m { size = u64 (m.size + e.size) })) j)
  absorb_slot j e ltj at_j ne adjacent =
      let me =
        subst (λ r. InMemory u r) at_j (All-get_or (λ r. InMemory u r) fs j no_range ltj ms) in
      let m' : Range = record m { size = u64 (m.size + e.size) } in
      let bound : j < length (set fs i m') = omega (arith, length-set fs i m') in
      let kept : get_or (set fs i m') j no_range ≡ e =
        get_or-set_other fs i j m' (λ q. ne (omega arith)) ∙ at_j in
      record {
        same = λ a.
            let was : cover u (get_or fs i no_range) a ≡ cover u m a =
              ap (λ r. cover u r a) written in
            let is : cover u (get_or (set fs i m') j no_range) a ≡ cover u e a =
              ap (λ r. cover u r a) kept in
            omega (
              arith,
              count-set u a fs i m' lt,
              count-remove_at u a (set fs i m') j bound,
              cover-joined u pos m e m-InMemory me adjacent a,
            );
        in_memory = Ranges-remove_at u (set fs i m') j bound (
            All-set (λ r. InMemory u r) fs i m' (joined-InMemory u pos m e m-InMemory me adjacent)
              ms);
        not_longer = omega (arith, length-remove_at (set fs i m') j, length-set fs i m');
      }

  pub absorb_next_lem :
      (es : List Range) (j : ℕ) → Rest fs j es → Covers u fs (λ a. 0) (absorb_next u es j i m fs)
  unfolding absorb_next
  absorb_next_lem [] j r = record {
    same = λ a. omega arith;
    in_memory = ms;
    not_longer = omega arith;
  }
  absorb_next_lem (e ∷ es) j r = elim (Bool-cases (not (j == i) && e.base == end_of u m)) [
    | inr h ↦ rw (absorb_next, h) (absorb_next_lem es (suc j) (Rest-suc r))
    | inl h ↦
        rw (absorb_next, h)
          (absorb_slot j e (omega (arith, r.all_slots)) (Rest-head r) (ground arith) (ground arith))
  ]

pub get_or-set :
    (fs : List Range) (i : ℕ) (v : Range) → i < length fs → get_or (set fs i v) i no_range ≡ v
get_or-set [] i v lt = absurd (omega arith)
get_or-set (e ∷ es) zero v lt = refl
get_or-set (e ∷ es) (suc i) v lt = get_or-set es i v (omega arith)

pub Rest-whole : (fs : List Range) → Rest fs 0 fs
Rest-whole fs = record {
  slots = λ k lt. (let q : 0 + k ≡ k = omega arith in rw q refl);
  all_slots = omega arith;
}

module _ (u : ℕ) (pos : 0 < u) (fs : List Range) (ms : Ranges u fs) where
  -- Slot `i` is overwritten by what covers its range and `x`.
  pub widened :
      (i : ℕ) (e x m : Range)
      → i < length fs
      → get_or fs i no_range ≡ e
      → InMemory u m
      → ((a : ℕ) → cover u m a ≡ cover u e a + cover u x a)
      → Covers u fs (cover u x) (set fs i m)
  widened i e x m lt at_i mm both = record {
    same = λ a.
        let was : cover u (get_or fs i no_range) a ≡ cover u e a = ap (λ r. cover u r a) at_i in
        omega (arith, count-set u a fs i m lt, both a);
    in_memory = All-set (λ r. InMemory u r) fs i m mm ms;
    not_longer = omega (arith, length-set fs i m);
  }

  pub extend_back_lem :
      (i : ℕ) (e x : Range)
      → i < length fs
      → get_or fs i no_range ≡ e
      → InMemory u x
      → end_of u e ≡ x.base
      → Covers u fs (cover u x) (extend_back u i e x.size fs)
  unfolding extend_back
  extend_back_lem i e x lt at_i mx adjacent =
      let me =
        subst (λ r. InMemory u r) at_i (All-get_or (λ r. InMemory u r) fs i no_range lt ms) in
      let m = joined u pos e x me mx adjacent in
      let bound : i < length (set fs i m) = omega (arith, length-set fs i m) in
      let wide =
        widened i e x m lt at_i (joined-InMemory u pos e x me mx adjacent)
          (λ a. cover-joined u pos e x me mx adjacent a) in
      Covers-trans wide (
        absorb_next_lem u pos (set fs i m) i m bound (get_or-set fs i m lt) wide.in_memory
          (set fs i m) 0 (Rest-whole (set fs i m)))

  pub append_range_lem :
      (room : ℕ) (x : Range)
      → length fs < room
      → InMemory u x
      → (count_eq : (a : ℕ) → count u (append_range room x fs) a ≡ count u fs a + cover u x a)
        × Ranges u (append_range room x fs)
        × (length (append_range room x fs) ≤ room)
  unfolding append_range count
  append_range_lem room x lt mx =
      let test : ltb (length fs) room ≡ true = ground arith in
      rw test (
        λ a. omega (arith, count-append u a fs (x ∷ [])),
        All-append (λ r. InMemory u r) fs (x ∷ []) ms (mx, tt),
        omega (arith, length-append fs (x ∷ [])),
      )

  pub append_range_full : (room : ℕ) (x : Range) → room ≤ length fs → append_range room x fs ≡ fs
  unfolding append_range
  append_range_full room x le =
      let test : ltb (length fs) room ≡ false = ground arith in rw test refl

-- A range given back to a list of at most `room`: every address is covered as before, and the range's
-- addresses once more; or, where the list is full, the list is as it was.
pub data Returned (u room : ℕ) (fs : List Range) (x : Range) (gs : List Range) : Type 0 where
  kept :
      ((a : ℕ) → count u gs a ≡ count u fs a + cover u x a)
      → Ranges u gs
      → length gs ≤ room
      → Returned u room fs x gs
  lost : gs ≡ fs → room ≤ length fs → Returned u room fs x gs

pub Covers→Returned :
    (u room : ℕ) (fs : List Range) (x : Range) (gs : List Range)
    → length fs ≤ room
    → Covers u fs (cover u x) gs
    → Returned u room fs x gs
Covers→Returned u room fs x gs le c = kept (λ a. c.same a) c.in_memory (omega (arith, c.not_longer))

pub append_range-Returned :
    (u room : ℕ) (fs : List Range) (x : Range)
    → 0 < u
    → length fs ≤ room
    → Ranges u fs
    → InMemory u x
    → Returned u room fs x (append_range room x fs)
append_range-Returned u room fs x pos le ms mx = elim (dec_lt (length fs) room) [
  | yes lt ↦ let r = append_range_lem u pos fs ms room x lt mx in kept (λ a. r.0 a) r.1 r.2
  | no full ↦ lost (append_range_full u pos fs ms room x (omega arith)) (omega arith)
]

-- Slot `i` takes a range in front of its own.
pub extend_front_lem :
    (u : ℕ) (fs : List Range) (i : ℕ) (e x : Range)
    → 0 < u
    → Ranges u fs
    → i < length fs
    → get_or fs i no_range ≡ e
    → InMemory u x
    → end_of u x ≡ e.base
    → Covers u fs (cover u x) (set fs i (record { base = x.base; size = u64 (e.size + x.size) }))
extend_front_lem u fs i e x pos ms lt at_i mx adjacent =
    let me = subst (λ r. InMemory u r) at_i (All-get_or (λ r. InMemory u r) fs i no_range lt ms) in
    let m : Range = record { base = x.base; size = u64 (e.size + x.size) } in
    let swapped : joined u pos x e mx me adjacent ≡ m =
      ap (λ t. record { base = x.base; size = u64 t }) (omega arith) in
    widened u pos fs ms i e x m lt at_i
      (subst (λ r. InMemory u r) swapped (joined-InMemory u pos x e mx me adjacent))
      (λ a.
        let c : cover u m a ≡ cover u (joined u pos x e mx me adjacent) a =
          ap (λ r. cover u r a) (sym swapped) in
        omega (arith, cover-joined u pos x e mx me adjacent a))
