-- ===== src/Vmm/Bits.antt =====
-- `|` of a page frame's address and flags, as kernel/mm/vmm.c writes a page's entry.
use Prim.Native.Nat.{max, digits, bit_or, bit_or-bitwise}
use native.Mathlib.Nat.{pow-suc}
use exec_aegis.Base.{
  ℕ, zero, suc, ◌+◌, ◌*◌, ◌/◌, ◌%◌, ◌^◌, ◌≤◌, ◌<◌, ◌≡◌, ◌≢◌, refl, ap, ap₂, sym, ◌∙◌, inl, inr,
  arith, Bool-cases,
}
use exec_aegis.Vmm.{addr_of, with_present, present}

-- Flags in the low 12 bits and bit 63.
pub record AreFlags (flags : ℕ) : Type 0 where
  pub low : flags % 2 ^ 63 < 4096
  pub word : flags < 2 ^ 64

-- A page frame's address.
pub record IsFrame (phys : ℕ) : Type 0 where
  pub aligned : phys % 4096 ≡ 0
  pub small : phys < 2 ^ 52

-- The digits of `|`, with `n` digits of the first number to go.
abbrev either : ℕ → ℕ → ℕ → ℕ
either n a b = digits (λ d. d) max n a b

-- More digits than there are make no difference.
either_enough : (n m a b : ℕ) → a ≤ n → a ≤ m → either n a b ≡ either m a b
either_enough n m zero b le le' = zero_digits n ∙ sym (zero_digits m)
  where
    zero_digits : (j : ℕ) → either j 0 b ≡ b
    zero_digits zero = refl
    zero_digits (suc j) = refl
either_enough zero m (suc a) b le le' = absurd (omega arith)
either_enough (suc n) zero (suc a) b le le' = absurd (omega arith)
either_enough (suc n) (suc m) (suc a) b le le' =
    ap (λ t. t * 2 + max (suc a % 2) (b % 2))
      (either_enough n m (suc a / 2) (b / 2) (omega arith) (omega arith))

or_zero : (b : ℕ) → bit_or 0 b ≡ b
or_zero b = bit_or-bitwise 0 b

-- The lowest digit.
or_digit : (a b : ℕ) → bit_or a b ≡ bit_or (a / 2) (b / 2) * 2 + max (a % 2) (b % 2)
or_digit zero b = omega (arith, or_zero b, or_zero (b / 2))
or_digit (suc a) b =
    bit_or-bitwise (suc a) b
    ∙ ap (λ t. t * 2 + max (suc a % 2) (b % 2))
        (either_enough a (suc a / 2) (suc a / 2) (b / 2) (omega arith) (omega arith)
          ∙ sym (bit_or-bitwise (suc a / 2) (b / 2)))

double : (x k : ℕ) → x * 2 ^ suc k ≡ x * 2 ^ k * 2
double x k = omega (arith, ap (λ t. x * t) (pow-suc 2 k))

-- Halves in the lowest digit's equation.
or_halves :
    (a b a' b' : ℕ) → a / 2 ≡ a' → b / 2 ≡ b' → bit_or a b ≡ bit_or a' b' * 2 + max (a % 2) (b % 2)
or_halves a b a' b' e e' = or_digit a b ∙ ap₂ (λ x y. bit_or x y * 2 + max (a % 2) (b % 2)) e e'

-- Low digits beside a number that has none.
or_low : (k q h r : ℕ) → r < 2 ^ k → bit_or (q * 2 ^ k) (h * 2 ^ k + r) ≡ bit_or q h * 2 ^ k + r
or_low zero q h r small =
    let none_left : r ≡ 0 = omega arith in
    let same : q * 2 ^ 0 ≡ q = omega arith in
    let same' : h * 2 ^ 0 + r ≡ h = omega (arith, none_left) in
    ap₂ bit_or same same' ∙ omega (arith, none_left)
or_low (suc k) q h r small =
    let p = pow-suc 2 k in
    let dq = double q k in
    let dh = double h k in
    let both = double (bit_or q h) k in
    let ih = or_low k q h (r / 2) (omega (arith, p)) in
    let step =
      or_halves (q * 2 ^ suc k) (h * 2 ^ suc k + r) (q * 2 ^ k) (h * 2 ^ k + r / 2)
        (omega (arith, dq)) (omega (arith, dh)) in
    omega (arith, step, ih, dq, dh, both)

-- A number below the digits of another.
or_above : (k r h : ℕ) → r < 2 ^ k → bit_or r (h * 2 ^ k) ≡ h * 2 ^ k + r
or_above zero r h small =
    let none_left : r ≡ 0 = omega arith in
    ap (λ t. bit_or t (h * 2 ^ 0)) none_left ∙ or_zero (h * 2 ^ 0) ∙ omega (arith, none_left)
or_above (suc k) r h small =
    let p = pow-suc 2 k in
    let dh = double h k in
    let ih = or_above k (r / 2) h (omega (arith, p)) in
    let step = or_halves r (h * 2 ^ suc k) (r / 2) (h * 2 ^ k) refl (omega (arith, dh)) in
    omega (arith, step, ih, dh)

-- An address and flags have no bit in common.
pub or_flags : (e flags : ℕ) → AreFlags flags → bit_or (addr_of e) flags ≡ addr_of e + flags
or_flags e flags good =
    let low = good.low in
    let word = good.word in
    let q = e / 4096 % 2 ^ 40 in
    let h = flags / 2 ^ 63 * 2 ^ 51 in
    let split : h * 2 ^ 12 + flags % 2 ^ 63 ≡ flags = omega arith in
    let low_part : bit_or (addr_of e) (h * 2 ^ 12 + flags % 2 ^ 63)
        ≡ bit_or q h * 2 ^ 12 + flags % 2 ^ 63 =
      or_low 12 q h (flags % 2 ^ 63) (omega arith) in
    let high_part = or_above 51 q (flags / 2 ^ 63) (omega arith) in
    ap (λ t. bit_or (addr_of e) t) (sym split) ∙ low_part ∙ omega (arith, high_part, split)

with_present-AreFlags : (flags : ℕ) → AreFlags flags → AreFlags (with_present flags)
with_present-AreFlags flags good =
    let low = good.low in
    let word = good.word in
    elim (Bool-cases (present flags)) [
      | inl p ↦ rw p good
      | inr p ↦
          let even : flags % 2 ≢ 1 = ground arith in
          rw p (record { low = omega (arith, even); word = omega (arith, even) })
    ]

-- The entry of a page that is mapped.
pub or_present :
    (phys flags : ℕ)
    → IsFrame phys
    → AreFlags flags
    → bit_or phys (with_present flags) ≡ phys + with_present flags
or_present phys flags frame good =
    let aligned = frame.aligned in
    let small = frame.small in
    let address : addr_of phys ≡ phys = omega arith in
    ap (λ t. bit_or t (with_present flags)) (sym address)
    ∙ or_flags phys (with_present flags) (with_present-AreFlags flags good)
    ∙ ap (λ t. t + with_present flags) address
