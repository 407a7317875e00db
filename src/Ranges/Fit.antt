-- ===== src/Ranges/Fit.antt =====
-- The best-fit loop of the free lists finds the smallest range that is large enough.
use exec_aegis.Base.{
  ℕ, zero, suc, ◌+◌, ◌≤◌, ◌<◌, ◌≡◌, refl, ◌∙◌, ap, ◌⊎◌, inl, inr, true, false, ◌&&◌, Option, none,
  some, List, [], ◌∷◌, length, get_or, ltb, leb, ◌==◌, arith, Bool-cases,
}
use native.Mathlib.Decide.{ℕ_discrete}
use exec_aegis.Ranges.{Range, no_range, max_u64, best_fit}

abbrev pub size_at : List Range → ℕ → ℕ
size_at es k = (get_or es k no_range).size

-- No slot that is large enough has a size below `size`.
abbrev pub NoneBelow : ℕ → List Range → ℕ → Type 0
NoneBelow n es size = (k : ℕ) → k < length es → n ≤ size_at es k → size ≤ size_at es k

-- The slot `k` is a smallest among those that are large enough.
pub record Smallest (n : ℕ) (es : List Range) (k : ℕ) : Type 0 where
  pub in_use : k < length es
  pub enough : n ≤ size_at es k
  pub smallest : NoneBelow n es (size_at es k)

record Improves (n : ℕ) (es : List Range) (i size : ℕ) (r : Option ℕ) : Type 0 where
  slot : ℕ
  returned : r ≡ some (i + slot)
  best : Smallest n es slot
  better : size_at es slot < size

abbrev Outcome : ℕ → List Range → ℕ → Option ℕ → ℕ → Option ℕ → Type 0
Outcome n es i best size r = ((r ≡ best) × NoneBelow n es size) ⊎ Improves n es i size r

NoneBelow-cons :
    (n : ℕ) (e : Range) (es : List Range) (size : ℕ)
    → (n ≤ e.size → size ≤ e.size)
    → NoneBelow n es size
    → NoneBelow n (e ∷ es) size
NoneBelow-cons n e es size h hs zero lt le = h le
NoneBelow-cons n e es size h hs (suc k) lt le = hs k (omega arith) le

-- What the rest of the slots gives after a slot that was not taken.
after_skip :
    (n : ℕ) (e : Range) (es : List Range) (i : ℕ) (best : Option ℕ) (size : ℕ) (r : Option ℕ)
    → (n ≤ e.size → size ≤ e.size)
    → Outcome n es (suc i) best size r
    → Outcome n (e ∷ es) i best size r
after_skip n e es i best size r h (inl (eq, hs)) = inl (eq, NoneBelow-cons n e es size h hs)
after_skip n e es i best size r h (inr o) = inr (record {
  slot = suc (o.slot);
  returned = o.returned ∙ ap some (omega arith);
  best = record {
    in_use = omega (arith, o.best.in_use);
    enough = o.best.enough;
    smallest =
        NoneBelow-cons n e es (size_at es o.slot) (λ le. omega (arith, h le, o.better))
          o.best.smallest;
  };
  better = o.better;
})

-- After a slot that was: it is the result unless a later one is smaller.
after_take :
    (n : ℕ) (e : Range) (es : List Range) (i : ℕ) (size : ℕ) (r : Option ℕ)
    → n ≤ e.size
    → e.size < size
    → Outcome n es (suc i) (some i) e.size r
    → Improves n (e ∷ es) i size r
after_take n e es i size r le lt (inl (eq, hs)) = record {
  slot = 0;
  returned = eq ∙ ap some (omega arith);
  best = record {
    in_use = omega arith;
    enough = le;
    smallest = NoneBelow-cons n e es e.size (λ q. omega arith) hs;
  };
  better = lt;
}
after_take n e es i size r le lt (inr o) = record {
  slot = suc (o.slot);
  returned = o.returned ∙ ap some (omega arith);
  best = record {
    in_use = omega (arith, o.best.in_use);
    enough = o.best.enough;
    smallest =
        NoneBelow-cons n e es (size_at es o.slot) (λ q. omega (arith, o.better)) o.best.smallest;
  };
  better = omega (arith, o.better);
}

outcome :
    (n : ℕ) (es : List Range) (i : ℕ) (best : Option ℕ) (size : ℕ)
    → Outcome n es i best size (best_fit n es i best size)
unfolding best_fit
outcome n [] i best size = inl (refl, λ k lt le. absurd (omega arith))
outcome n (e ∷ es) i best size = elim (Bool-cases (leb n e.size && ltb e.size size)) [
  | inr h ↦
      rw (best_fit, h)
        (after_skip n e es i best size _ (λ le. ground arith) (outcome n es (suc i) best size))
  | inl h ↦
      let le : n ≤ e.size = ground arith in
      let lt : e.size < size = ground arith in
      elim (ℕ_discrete e.size n) [
        | yes eq ↦
            let test : (e.size == n) ≡ true = ground arith in
            inr (
              rw (best_fit, h, test)
                (after_take n e es i size (some i) le lt (inl (refl, λ k lt' le'. omega arith))))
        | no ne ↦
            let test : (e.size == n) ≡ false = ground arith in
            inr (
              rw (best_fit, h, test)
                (after_take n e es i size _ le lt (outcome n es (suc i) (some i) e.size)))
      ]
]

pub data Found (n : ℕ) (fs : List Range) : Option ℕ → Type 0 where
  nothing : ((k : ℕ) → k < length fs → n ≤ size_at fs k → max_u64 ≤ size_at fs k) → Found n fs none
  slot_found : (k : ℕ) → Smallest n fs k → Found n fs (some k)

pub best_fit_lem : (n : ℕ) (fs : List Range) → Found n fs (best_fit n fs 0 none max_u64)
best_fit_lem n fs = elim (outcome n fs 0 none max_u64) [
  | inl (eq, hs) ↦ rw eq (nothing hs)
  | inr o ↦
      let e : 0 + o.slot ≡ o.slot = omega arith in rw (o.returned, e) (slot_found o.slot o.best)
]
