-- ===== src/Waitq/Unlink.antt =====
-- The links that waitq_remove of kernel/sched/waitq.c leaves.
use exec_aegis.Base.{
  ℕ, ◌≡◌, ◌≢◌, refl, ap, sym, subst, ◌∙◌, true, Option, none, some, List, [], ◌∷◌, ◌++◌, All, inl,
  inr, ◌==◌, arith, Bool-cases,
}
use exec_aegis.Waitq.{Entry, put, set_next, set_prev}
use exec_aegis.Waitq.Links.{
  first, Linked, Off, Distinct, Linked-same, put_self, set_next-other, set_prev-other, All-of,
  set_prev-Linked,
}

-- Two lists of conditions at once.
All-both :
    {P : ℕ → Type 0} {Q : ℕ → Type 0} {R : ℕ → Type 0}
    → (xs : List ℕ) → ((x : ℕ) → P x → Q x → R x)
    → All P xs
    → All Q xs
    → All R xs
All-both [] f p q = tt
All-both (x ∷ xs) f (p, ps) (q, qs) = (f x p q, All-both xs f ps qs)

-- The entry in the middle, and the others.
All-middle :
    (P : ℕ → Type 0) (ys : List ℕ) (e : ℕ) (zs : List ℕ)
    → All P (ys ++ e ∷ zs)
    → P e × All P (ys ++ zs)
All-middle P [] e zs h = h
All-middle P (y ∷ ys) e zs (h, hs) = let m = All-middle P ys e zs hs in (m.0, (h, m.1))

pub All-front : (P : ℕ → Type 0) (ys zs : List ℕ) → All P (ys ++ zs) → All P ys × All P zs
All-front P [] zs h = (tt, h)
All-front P (y ∷ ys) zs (h, hs) = let m = All-front P ys zs hs in ((h, m.0), m.1)

pub Distinct-middle :
    (ys : List ℕ) (e : ℕ) (zs : List ℕ)
    → Distinct (ys ++ e ∷ zs)
    → Off (some e) (ys ++ zs) × Distinct (ys ++ zs)
unfolding Distinct
Distinct-middle [] e zs d = d
Distinct-middle (y ∷ ys) e zs (off, d) =
    let m = Distinct-middle ys e zs d in
    let o = All-middle (λ x. some y ≢ some x) ys e zs off in (((λ q. o.0 (sym q)), m.0), (o.1, m.1))

Distinct-rest : (ys : List ℕ) (e : ℕ) (zs : List ℕ) → Distinct (ys ++ e ∷ zs) → Distinct zs
unfolding Distinct
Distinct-rest [] e zs d = d.1
Distinct-rest (y ∷ ys) e zs d = Distinct-rest ys e zs d.1

-- What the links say of an entry in the middle.
pub on_queue_lem :
    (es : ℕ → Entry) (p : Option ℕ) (ys : List ℕ) (e : ℕ) (zs : List ℕ)
    → Linked es p (ys ++ e ∷ zs)
    → ((es e).on_queue ≡ true) × ((es e).next ≡ first zs)
unfolding Linked
on_queue_lem es p [] e zs l = (l.2, l.1)
on_queue_lem es p (y ∷ ys) e zs l = on_queue_lem es (some y) ys e zs l.3

pub prev_other :
    (es : ℕ → Entry) (p t : Option ℕ) (ys : List ℕ) (e : ℕ) (zs : List ℕ)
    → Linked es p (ys ++ e ∷ zs)
    → (p ≢ t)
    → All (λ x. some x ≢ t) ys
    → (es e).prev ≢ t
unfolding Linked
prev_other es p t [] e zs l h hs = λ q. h (sym l.0 ∙ q)
prev_other es p t (y ∷ ys) e zs l h hs = prev_other es (some y) t ys e zs l.3 hs.0 hs.1

pub first-Off : (y : ℕ) (zs : List ℕ) → Off (some y) zs → first zs ≢ some y
unfolding first
first-Off y [] h = λ q. cc q
first-Off y (z ∷ zs) h = λ q. h.0 (sym q)

set_next-kept :
    (t v : Option ℕ) (es : ℕ → Entry) (x : ℕ)
    → ((set_next t v es x).prev ≡ (es x).prev) × ((set_next t v es x).on_queue ≡ (es x).on_queue)
unfolding set_next put
set_next-kept none v es x = (refl, refl)
set_next-kept (some t) v es x = elim (Bool-cases (x == t)) [
  | inl q ↦
      let a : t ≡ x = ground arith in rw q (ap (λ y. (es y).prev) a, ap (λ y. (es y).on_queue) a)
  | inr q ↦ rw q (refl, refl)
]

-- The entry before another one now points past it; one further ahead is as before.
next_after :
    (es : ℕ → Entry) (p : Option ℕ) (y : ℕ) (ys : List ℕ) (e : ℕ) (zs : List ℕ)
    → Linked es p (y ∷ ys ++ e ∷ zs)
    → Off (some y) (ys ++ e ∷ zs)
    → (set_next (es e).prev (first zs) es y).next ≡ first (ys ++ zs)
unfolding Linked first set_next
next_after es p y [] e zs l off =
    ap (λ t. (set_next t (first zs) es y).next) l.3.0
    ∙ ap (λ (n : Entry). n.next) (put_self y (record (es y) { next = first zs }) es)
next_after es p y (y' ∷ ys) e zs l off =
    let ahead = All-front (λ x. some y ≢ some x) ys (e ∷ zs) off.1 in
    let far =
      prev_other es (some y') (some y) ys e zs l.3.3 (λ q. off.0 (sym q))
        (All-of ys (λ x h q. h (sym q)) ahead.0) in
    ap (λ (n : Entry). n.next) (set_next-other (es e).prev (first zs) es y far) ∙ l.1

-- The links after the two writes to the neighbours.
pub unlink :
    (es : ℕ → Entry) (p : Option ℕ) (ys : List ℕ) (e : ℕ) (zs : List ℕ)
    → Linked es p (ys ++ e ∷ zs)
    → Off p (ys ++ e ∷ zs)
    → Distinct (ys ++ e ∷ zs)
    → Linked (set_prev (first zs) (es e).prev (set_next (es e).prev (first zs) es)) p (ys ++ zs)
unfolding Linked Distinct
unlink es p [] e zs l off d =
    let q = (es e).prev in
    let forth = set_next q (first zs) es in
    let apart : Off q zs = All-of zs (λ x h z. h (sym l.0 ∙ z)) off.1 in
    let kept =
      Linked-same es forth (some e) zs (All-of zs (λ x h. set_next-other q (first zs) es x h) apart)
        l.3 in
    subst (λ p. Linked (set_prev (first zs) q forth) p zs) l.0
      (set_prev-Linked forth (some e) q zs d.1 kept)
unlink es p (y ∷ ys) e zs l off d =
    let q = (es e).prev in
    let forth = set_next q (first zs) es in
    let behind = All-front (λ x. some y ≢ some x) ys (e ∷ zs) d.0 in
    let far = set_prev-other (first zs) q forth y (first-Off y zs behind.1.1) in
    let kept = set_next-kept q (first zs) es y in
    (
      ap (λ (n : Entry). n.prev) far ∙ kept.0 ∙ l.0,
      ap (λ (n : Entry). n.next) far ∙ next_after es p y ys e zs l d.0,
      ap (λ (n : Entry). n.on_queue) far ∙ kept.1 ∙ l.2,
      unlink es (some y) ys e zs l.3 d.0 d.1,
    )
