-- ===== src/Waitq/Links.antt =====
-- The links of a queue of kernel/sched/waitq.c against the list of its entries.
use exec_aegis.Base.{
  ℕ, ◌≡◌, ◌≢◌, refl, ap, ◌∙◌, true, Option, none, some, List, [], ◌∷◌, All, inl, inr, ◌==◌, arith,
  Bool-cases,
}
use exec_aegis.Waitq.{Entry, Waitq, put, set_next, set_prev}

unfoldable pub first : List ℕ → Option ℕ
first [] = none
first (x ∷ xs) = some x

-- The entries from one whose predecessor is `p`.
unfoldable pub Linked : (ℕ → Entry) → Option ℕ → List ℕ → Type 0
Linked es p [] = Unit
Linked es p (x ∷ xs) =
    ((es x).prev ≡ p) × ((es x).next ≡ first xs) × ((es x).on_queue ≡ true) × Linked es (some x) xs

-- None of the entries is `p`.
abbrev pub Off : Option ℕ → List ℕ → Type 0
Off p xs = All (λ x. p ≢ some x) xs

unfoldable pub Distinct : List ℕ → Type 0
Distinct [] = Unit
Distinct (x ∷ xs) = Off (some x) xs × Distinct xs

pub record IsQueue (s : Waitq) (wq : ℕ) (xs : List ℕ) : Type 0 where
  pub head : s.heads wq ≡ first xs
  pub links : Linked s.entries none xs
  pub distinct : Distinct xs

pub Linked-same :
    (es es' : ℕ → Entry) (p : Option ℕ) (xs : List ℕ)
    → All (λ x. es' x ≡ es x) xs
    → Linked es p xs
    → Linked es' p xs
unfolding Linked
Linked-same es es' p [] h l = tt
Linked-same es es' p (x ∷ xs) (h, hs) (a, b, c, l) = (
  ap (λ (n : Entry). n.prev) h ∙ a,
  ap (λ (n : Entry). n.next) h ∙ b,
  ap (λ (n : Entry). n.on_queue) h ∙ c,
  Linked-same es es' (some x) xs hs l,
)

pub put-other :
    (e : ℕ) (n : Entry) (es : ℕ → Entry) (x : ℕ) → (some e ≢ some x) → put e n es x ≡ es x
unfolding put
put-other e n es x h = elim (Bool-cases (x == e)) [
  | inl q ↦ absurd (h (let a : e ≡ x = ground arith in ap (λ y. let o : Option ℕ = some y in o) a))
  | inr q ↦ rw q refl
]

pub put_self : (e : ℕ) (n : Entry) (es : ℕ → Entry) → put e n es e ≡ n
unfolding put
put_self e n es = let q : (e == e) ≡ true = ground arith in rw q refl

pub set_next-other :
    (t v : Option ℕ) (es : ℕ → Entry) (x : ℕ) → (t ≢ some x) → set_next t v es x ≡ es x
unfolding set_next
set_next-other none v es x h = refl
set_next-other (some t) v es x h = put-other t (record (es t) { next = v }) es x h

pub set_prev-other :
    (t v : Option ℕ) (es : ℕ → Entry) (x : ℕ) → (t ≢ some x) → set_prev t v es x ≡ es x
unfolding set_prev
set_prev-other none v es x h = refl
set_prev-other (some t) v es x h = put-other t (record (es t) { prev = v }) es x h

-- A statement of every entry, for a list.
pub All-of :
    {P : ℕ → Type 0} {Q : ℕ → Type 0} → (xs : List ℕ) → ((x : ℕ) → P x → Q x) → All P xs → All Q xs
All-of [] f h = tt
All-of (x ∷ xs) f (h, hs) = (f x h, All-of xs f hs)

-- A list of other entries gets another predecessor.
pub set_prev-Linked :
    (es : ℕ → Entry) (p q : Option ℕ) (xs : List ℕ)
    → Distinct xs
    → Linked es p xs
    → Linked (set_prev (first xs) q es) q xs
unfolding Linked set_prev first Distinct
set_prev-Linked es p q [] d l = tt
set_prev-Linked es p q (x ∷ xs) (off, d) (a, b, c, l) =
    let n : Entry = record (es x) { prev = q } in
    let here = put_self x n es in
    (
      ap (λ (n : Entry). n.prev) here,
      ap (λ (n : Entry). n.next) here ∙ b,
      ap (λ (n : Entry). n.on_queue) here ∙ c,
      Linked-same es (put x n es) (some x) xs (All-of xs (λ y h. put-other x n es y h) off) l,
    )
