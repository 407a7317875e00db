-- ===== src/Base/Lists.antt =====
-- Lists measured and indexed by native numbers, and tabulated functions.
use Prim.Native.Nat.{ℕ, zero, suc, ◌+◌, ◌<◌, ◌≤◌}
use mathlib.Core.Path.{◌≡◌, refl, ap, ap₂, ◌∙◌}
use mathlib.Core.List.{List, [], ◌∷◌, ◌++◌}
use mathlib.Core.Option.{Option, none, some}
use native.Mathlib.Omega.{arith}

module _ {ℓ} {A : Type ℓ} where
  abbrev pub length : List A → ℕ
  length [] = 0
  length (x ∷ xs) = suc (length xs)

  abbrev pub take : ℕ → List A → List A
  take zero xs = []
  take (suc n) [] = []
  take (suc n) (x ∷ xs) = x ∷ take n xs

  abbrev pub drop : ℕ → List A → List A
  drop zero xs = xs
  drop (suc n) [] = []
  drop (suc n) (x ∷ xs) = drop n xs

  pub length-take : (n : ℕ) (xs : List A) → length (take n xs) ≤ n
  length-take zero xs = omega arith
  length-take (suc n) [] = omega arith
  length-take (suc n) (x ∷ xs) = omega (arith, length-take n xs)

  abbrev pub get_elem? : List A → ℕ → Option A
  get_elem? [] i = none
  get_elem? (x ∷ xs) zero = some x
  get_elem? (x ∷ xs) (suc i) = get_elem? xs i

  abbrev pub get_or : List A → ℕ → A → A
  get_or [] i d = d
  get_or (x ∷ xs) zero d = x
  get_or (x ∷ xs) (suc i) d = get_or xs i d

  -- A write out of bounds changes nothing.
  abbrev pub set : List A → ℕ → A → List A
  set [] i v = []
  set (x ∷ xs) zero v = v ∷ xs
  set (x ∷ xs) (suc i) v = x ∷ set xs i v

  abbrev pub replicate : ℕ → A → List A
  replicate zero a = []
  replicate (suc n) a = a ∷ replicate n a

  abbrev pub All {κ} : (A → Type κ) → List A → Type κ
  All P [] = Unit
  All P (x ∷ xs) = P x × All P xs

  pub All-get_or {κ} :
      (P : A → Type κ) (xs : List A) (i : ℕ) (d : A) → i < length xs → All P xs → P (get_or xs i d)
  All-get_or P [] i d h ps = absurd (omega arith)
  All-get_or P (x ∷ xs) zero d h ps = ps.0
  All-get_or P (x ∷ xs) (suc i) d h ps = All-get_or P xs i d (omega arith) ps.1

  pub All-set {κ} :
      (P : A → Type κ) (xs : List A) (i : ℕ) (v : A) → P v → All P xs → All P (set xs i v)
  All-set P [] i v p ps = ps
  All-set P (x ∷ xs) zero v p ps = (p, ps.1)
  All-set P (x ∷ xs) (suc i) v p ps = (ps.0, All-set P xs i v p ps.1)

  pub All-take {κ} : (P : A → Type κ) (n : ℕ) (xs : List A) → All P xs → All P (take n xs)
  All-take P zero xs ps = tt
  All-take P (suc n) [] ps = tt
  All-take P (suc n) (x ∷ xs) ps = (ps.0, All-take P n xs ps.1)

  pub All-append {κ} : (P : A → Type κ) (xs ys : List A) → All P xs → All P ys → All P (xs ++ ys)
  All-append P [] ys ps qs = qs
  All-append P (x ∷ xs) ys ps qs = (ps.0, All-append P xs ys ps.1 qs)

  pub length-append : (xs ys : List A) → length (xs ++ ys) ≡ length xs + length ys
  length-append [] ys = omega arith
  length-append (x ∷ xs) ys = omega (arith, length-append xs ys)

  pub length-set : (xs : List A) (i : ℕ) (v : A) → length (set xs i v) ≡ length xs
  length-set [] i v = refl
  length-set (x ∷ xs) zero v = refl
  length-set (x ∷ xs) (suc i) v = ap suc (length-set xs i v)

module _ {ℓ} {A : Type ℓ} where
  -- The first `n` values of `f`, in order.
  unfoldable pub tabulate : ℕ → (ℕ → A) → List A
  tabulate zero f = []
  tabulate (suc n) f = f 0 ∷ tabulate n (λ i. f (suc i))

  pub length-tabulate : (n : ℕ) (f : ℕ → A) → length (tabulate n f) ≡ n
  unfolding tabulate
  length-tabulate zero f = refl
  length-tabulate (suc n) f = ap suc (length-tabulate n (λ i. f (suc i)))

  pub tabulate_ext :
      (n : ℕ) (f g : ℕ → A) → ((i : ℕ) → i < n → f i ≡ g i) → tabulate n f ≡ tabulate n g
  unfolding tabulate
  tabulate_ext zero f g h = refl
  tabulate_ext (suc n) f g h =
      ap₂ ◌∷◌ (h 0 (omega arith))
        (tabulate_ext n (λ i. f (suc i)) (λ i. g (suc i)) (λ i lt. h (suc i) (omega arith)))

  tabulate-suc_add :
      (n m : ℕ) (f : ℕ → A) → tabulate m (λ i. f (suc (n + i))) ≡ tabulate m (λ i. f (suc n + i))
  tabulate-suc_add n m f =
      tabulate_ext m (λ i. f (suc (n + i))) (λ i. f (suc n + i)) (λ i lt. ap f (omega arith))

  pub tabulate-add :
      (n m : ℕ) (f : ℕ → A) → tabulate (n + m) f ≡ tabulate n f ++ tabulate m (λ i. f (n + i))
  unfolding tabulate
  tabulate-add zero m f =
      let e : zero + m ≡ m = omega arith in
      rw e (tabulate_ext m f (λ i. f (0 + i)) (λ i lt. ap f (omega arith)))
  tabulate-add (suc n) m f =
      let e : suc n + m ≡ suc (n + m) = omega arith in
      rw e (
        ap (λ t. f 0 ∷ t)
          (tabulate-add n m (λ i. f (suc i))
            ∙ ap (λ t. tabulate n (λ i. f (suc i)) ++ t) (tabulate-suc_add n m f)))

  -- Where a tabulated list begins with another, the functions agree so far.
  pub tabulate_prefix :
      (n m : ℕ) (f g : ℕ → A) (rest : List A)
      → tabulate n g ≡ tabulate m f ++ rest
      → (i : ℕ) → i < m
      → f i ≡ g i
  unfolding tabulate
  tabulate_prefix n zero f g rest h i lt = absurd (omega arith)
  tabulate_prefix zero (suc m) f g rest h i lt = absurd (cc)
  tabulate_prefix (suc n) (suc m) f g rest h zero lt = cc
  tabulate_prefix (suc n) (suc m) f g rest h (suc i) lt =
      tabulate_prefix n m (λ i. f (suc i)) (λ i. g (suc i)) rest (cc) i (omega arith)

  pub tabulate-eq-nil : (n : ℕ) (f : ℕ → A) → n ≡ 0 → tabulate n f ≡ []
  unfolding tabulate
  tabulate-eq-nil n f h = rw h
