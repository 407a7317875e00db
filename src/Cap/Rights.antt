-- ===== src/Cap/Rights.antt =====
-- `(have & want) == want` on rights, of any width, is a transitive relation: a right passed on is one
-- that was held.
use Prim.Native.Nat.{bit_and, digits, bit_and-bitwise}
use exec_aegis.Base.{ℕ, zero, suc, ◌/◌, ◌≤◌, ◌≡◌, refl, sym, ◌∙◌, arith, min}

-- The digits that `bit_and` computes, with `n` digits to go.
abbrev common : ℕ → ℕ → ℕ → ℕ
common n a b = digits (λ d. zero) min n a b

common-zero : (n a : ℕ) → common n a 0 ≡ 0
common-zero zero a = refl
common-zero (suc n) zero = refl
common-zero (suc n) (suc a) = omega (arith, common-zero n (suc a / 2))

zero-common : (n b : ℕ) → common n 0 b ≡ 0
zero-common zero b = refl
zero-common (suc n) b = refl

common_trans :
    (n k a m r : ℕ) → a ≤ n → m ≤ k → common n a m ≡ m → common k m r ≡ r → common n a r ≡ r
common_trans n k zero m r le le' p q =
    let none_between : m ≡ 0 = omega (arith, zero-common n m) in
    let rest : common k 0 r ≡ r = rw none_between at q in
    omega (arith, zero-common n r, zero-common k r)
common_trans n k (suc a) zero r le le' p q =
    let nothing : r ≡ 0 = omega (arith, zero-common k r) in rw nothing (common-zero n (suc a))
common_trans zero k (suc a) (suc m) r le le' p q = elim le [ ]
common_trans (suc n) zero (suc a) (suc m) r le le' p q = elim le' [ ]
common_trans (suc n) (suc k) (suc a) (suc m) r le le' p q = omega (
  arith,
  common_trans n k (suc a / 2) (suc m / 2) (r / 2) (omega arith) (omega arith) (omega arith)
      (omega arith),
)

-- Rights that cover rights which cover others cover those.
pub covers_trans :
    (have passed want : ℕ)
    → bit_and have passed ≡ passed
    → bit_and passed want ≡ want
    → bit_and have want ≡ want
covers_trans have passed want p q =
    bit_and-bitwise have want
    ∙ common_trans have passed have passed want (omega arith) (omega arith)
        (sym (bit_and-bitwise have passed) ∙ p) (sym (bit_and-bitwise passed want) ∙ q)
