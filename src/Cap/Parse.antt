-- ===== src/Cap/Parse.antt =====
-- `parse_policy` reaches an end, within the bounds of an entry.
use exec_aegis.Base.{
  ℕ, zero, suc, ◌+◌, ◌≤◌, ◌<◌, ◌≡◌, refl, Bool, true, false, ◌&&◌, ◌||◌, not, Option, none, some,
  List, [], ◌∷◌, arith, ◌==◌, leb, ltb, length, Bool-cases, inl, inr,
}
use exec_aegis.Cap.Exec.{PolicyCap, tier_service, tier_admin}
use exec_aegis.Cap.Names.{streq, service_word, admin_word}
use exec_aegis.Cap.Line.{
  all_valid, valid_entry, line_ok, read_caps-line_ok, length-skip, read_word-shortens,
}
use exec_aegis.Cap.Policy.{
  max_caps, is_space, skip, skip_line, read_word, read_caps, Round, finished, next, starved,
  after_line, read_line, read_tier, read_at, parse_round, parse_loop, parse_policy,
}

-- A round leaves less to read, and a valid entry.
round_ok : ℕ → Round → Bool
round_ok n (finished caps) = valid_entry caps
round_ok n (next cs caps) = ltb (length cs) n && valid_entry caps
round_ok n starved = false

after_line-round_ok :
    (m n : ℕ) (r : Option (List ℕ × List PolicyCap))
    → line_ok m r ≡ true
    → m < n
    → round_ok n (after_line r) ≡ true
unfolding after_line round_ok line_ok
after_line-round_ok m n none ok lt = ok
after_line-round_ok m n (some (cs, caps)) ok lt = ground (arith, ok)

read_line-round_ok :
    (n tier : ℕ) (cs : List ℕ) (caps : List PolicyCap)
    → (tier == tier_service || tier == tier_admin) ≡ true
    → length cs < n
    → valid_entry caps ≡ true
    → round_ok n (read_line tier cs caps) ≡ true
unfolding read_line
read_line-round_ok n tier cs caps t lt v =
    after_line-round_ok (length cs) n (read_caps (length cs + 1) tier cs caps)
      (read_caps-line_ok (length cs + 1) tier cs caps t (omega arith) v) lt

-- The data is at its end, or at a byte that is not white.
at_word : List ℕ → Bool
at_word [] = true
at_word (c ∷ cs) = not (is_space c)

skip-at_word : (cs : List ℕ) → at_word (skip is_space cs) ≡ true
unfolding skip at_word
skip-at_word [] = refl
skip-at_word (c ∷ cs) =
    let ih = skip-at_word cs in
    elim (Bool-cases (is_space c)) [
      | inl white ↦ rw (skip, white) ih
      | inr word ↦ rw (skip, word) (ground (arith, word))
    ]

read_tier-round_ok :
    (c : ℕ) (cs : List ℕ) (caps : List PolicyCap)
    → is_space c ≡ false
    → valid_entry caps ≡ true
    → round_ok (length (c ∷ cs)) (read_tier (c ∷ cs) caps) ≡ true
unfolding read_tier round_ok
read_tier-round_ok c cs caps word v =
    let shorter = read_word-shortens 14 c cs word in
    let word = read_word 15 (c ∷ cs) in
    let line = λ (tier : ℕ). read_line-round_ok (length (c ∷ cs)) tier word.1 caps in
    elim (Bool-cases (streq word.0 service_word)) [
      | inl s ↦ rw (read_tier, s) (line tier_service refl (omega (arith, shorter)) v)
      | inr s ↦ elim (Bool-cases (streq word.0 admin_word)) [
        | inl a ↦ rw (read_tier, s, a) (line tier_admin refl (omega (arith, shorter)) v)
        | inr a ↦ rw (read_tier, s, a) (ground (arith, shorter, v))
      ]
    ]

skip_line-shortens :
    (c : ℕ) (cs : List ℕ) → (c == 35) ≡ true → length (skip_line (c ∷ cs)) ≤ length cs
unfolding skip
skip_line-shortens c cs hash =
    let le = length-skip (λ b. not (b == 10)) cs in ground (arith, hash, le)

round_ok-weaken : (m n : ℕ) (r : Round) → m ≤ n → round_ok m r ≡ true → round_ok n r ≡ true
unfolding round_ok
round_ok-weaken m n (finished caps) le ok = ok
round_ok-weaken m n (next cs caps) le ok = ground (arith, ok)
round_ok-weaken m n starved le ok = ok

read_at-round_ok :
    (n : ℕ) (cs : List ℕ) (caps : List PolicyCap)
    → at_word cs ≡ true
    → length cs ≤ n
    → valid_entry caps ≡ true
    → round_ok n (read_at cs caps) ≡ true
unfolding read_at round_ok at_word
read_at-round_ok n [] caps word le v = v
read_at-round_ok n (c ∷ cs) caps word le v =
    let tier = read_tier-round_ok c cs caps (ground (arith, word)) v in
    elim (Bool-cases (c == 35)) [
      | inl hash ↦
          let shorter = skip_line-shortens c cs hash in
          rw (read_at, hash) (ground (arith, le, shorter, v))
      | inr other ↦
          rw (read_at, other)
            (round_ok-weaken (length (c ∷ cs)) n (read_tier (c ∷ cs) caps) le tier)
    ]

parse_round-round_ok :
    (cs : List ℕ) (caps : List PolicyCap)
    → valid_entry caps ≡ true
    → round_ok (length cs) (parse_round cs caps) ≡ true
unfolding parse_round round_ok
parse_round-round_ok [] caps v = v
parse_round-round_ok (c ∷ cs) caps v =
    let rest =
      read_at-round_ok (length (c ∷ cs)) (skip is_space (c ∷ cs)) caps (skip-at_word (c ∷ cs))
        (length-skip is_space (c ∷ cs)) v in
    elim (Bool-cases (leb max_caps (length caps))) [
      | inl full ↦ rw (parse_round, full) v
      | inr room ↦ rw (parse_round, room) rest
    ]

-- The result of a parse: an end, and a valid entry.
parsed_ok : Option (List PolicyCap) → Bool
parsed_ok none = false
parsed_ok (some caps) = valid_entry caps

parse_loop-ok :
    (n : ℕ) (cs : List ℕ) (caps : List PolicyCap)
    → length cs < n
    → valid_entry caps ≡ true
    → parsed_ok (parse_loop n cs caps) ≡ true
unfolding parse_loop parsed_ok round_ok
parse_loop-ok zero cs caps lt v = absurd (omega arith)
parse_loop-ok (suc n) cs caps lt v =
    from_round (parse_round cs caps) (parse_round-round_ok cs caps v)
      (λ cs' caps' lt' v'. parse_loop-ok n cs' caps' lt' v')
  where
    from_round :
        (r : Round)
        → round_ok (length cs) r ≡ true
        → ((cs' : List ℕ) (caps' : List PolicyCap)
            → length cs' < n
            → valid_entry caps' ≡ true
            → parsed_ok (parse_loop n cs' caps') ≡ true)
        → parsed_ok (elim r [
          | finished caps' ↦ some caps'
          | next cs' caps' ↦ parse_loop n cs' caps'
          | starved ↦ none
        ])
          ≡ true
    from_round (finished caps') ok later = ok
    from_round (next cs' caps') ok later =
        later cs' caps' (ground (arith, ok, lt)) (ground (arith, ok))
    from_round starved ok later = absurd (ground (arith, ok))

parsed_ok-some :
    (r : Option (List PolicyCap))
    → parsed_ok r ≡ true
    → (caps : List PolicyCap) × (r ≡ some caps) × (valid_entry caps ≡ true)
unfolding parsed_ok
parsed_ok-some none ok = absurd (ground (arith, ok))
parsed_ok-some (some caps) ok = (caps, refl, ok)

-- Whatever a policy file holds, parse_policy ends with an entry of 16 capabilities at most, each with a
-- known kind, all rights, and a tier of the two.
pub parse_policy-valid :
    (cs : List ℕ)
    → (caps : List PolicyCap) × (parse_policy cs ≡ some caps) × (valid_entry caps ≡ true)
unfolding parse_policy valid_entry all_valid
parse_policy-valid cs =
    parsed_ok-some (parse_loop (length cs + 1) cs [])
      (parse_loop-ok (length cs + 1) cs [] (omega arith) refl)
