-- ===== src/Pmm/Bit.antt =====
-- The bits of a byte of the bitmap of kernel/mm/pmm.c, by evaluation over all bytes.
use exec_aegis.Base.{
  ℕ, ◌<◌, ◌≡◌, refl, Bool, true, false, not, ◌&&◌, ◌||◌, arith, ltb, ◌==◌, passes, passes-apply,
}
use exec_aegis.Pmm.{bit, set_bit, clear_bit}

same : Bool → Bool → Bool
same true b = b
same false b = not b

same→eq : (a b : Bool) → same a b ≡ true → a ≡ b
unfolding same
same→eq true true h = refl
same→eq true false h = absurd (cc)
same→eq false false h = refl
same→eq false true h = absurd (cc)

-- What holds of byte `b`, a bit written `k` and a bit read `j`.
bits_fine : ℕ → ℕ → ℕ → Bool
unfolding same bit set_bit clear_bit
bits_fine b k j =
    same (bit (set_bit b k) j) ((j == k) || bit b j)
    && same (bit (clear_bit b k) j) (not (j == k) && bit b j)
    && ltb (set_bit b k) 256
    && ltb (clear_bit b k) 256

table : passes (λ b. passes (λ k. passes (λ j. bits_fine b k j) 8) 8) 256 ≡ true
unfolding bits_fine passes
table = refl

fine : (b k j : ℕ) → b < 256 → k < 8 → j < 8 → bits_fine b k j ≡ true
fine b k j hb hk hj =
    let at_b = passes-apply (λ b. passes (λ k. passes (λ j. bits_fine b k j) 8) 8) 256 b hb table in
    let at_k = passes-apply (λ k. passes (λ j. bits_fine b k j) 8) 8 k hk at_b in
    passes-apply (λ j. bits_fine b k j) 8 j hj at_k

module _ (b k j : ℕ) (hb : b < 256) (hk : k < 8) (hj : j < 8) where
  pub bit-set_bit : bit (set_bit b k) j ≡ ((j == k) || bit b j)
  bit-set_bit = same→eq _ _ (unfold bits_fine in ground (arith, fine b k j hb hk hj))

  pub bit-clear_bit : bit (clear_bit b k) j ≡ (not (j == k) && bit b j)
  bit-clear_bit = same→eq _ _ (unfold bits_fine in ground (arith, fine b k j hb hk hj))

module _ (b k : ℕ) (hb : b < 256) (hk : k < 8) where
  pub set_bit_lt : set_bit b k < 256
  set_bit_lt = unfold bits_fine in ground (arith, fine b k 0 hb hk (omega arith))

  pub clear_bit_lt : clear_bit b k < 256
  clear_bit_lt = unfold bits_fine in ground (arith, fine b k 0 hb hk (omega arith))

full_table : passes (λ j. bit 255 j) 8 ≡ true
unfolding passes bit
full_table = refl

-- The byte that the scan skips has every bit set.
pub bit_full : (j : ℕ) → j < 8 → bit 255 j ≡ true
bit_full j h = passes-apply (λ j. bit 255 j) 8 j h full_table
