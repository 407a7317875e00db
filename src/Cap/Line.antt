-- ===== src/Cap/Line.antt =====
-- The lines of a policy file: what `read_caps` leaves to read and what it adds to the entry.
use exec_aegis.Base.{
  ℕ, zero, suc, ◌+◌, ◌≤◌, ◌<◌, ◌≡◌, refl, Bool, true, false, ◌&&◌, ◌||◌, Option, none, some, List,
  [], ◌∷◌, ◌++◌, arith, ◌==◌, leb, length, length-append, Bool-cases, inl, inr,
}
use exec_aegis.Cap.Exec.{PolicyCap, tier_service, tier_admin}
use exec_aegis.Cap.Names.{cap_name_to_kind, NameOf, find_kind, kind_names}
use exec_aegis.Cap.Policy.{
  max_caps, is_blank, is_newline, is_space, skip, read_word, ends_line, add_cap, read_caps,
}

-- A capability of a policy: a known kind, all rights, one of the two tiers.
unfoldable pub valid_cap : PolicyCap → Bool
valid_cap c =
    leb 1 c.kind
    && leb c.kind 16
    && c.rights == 7
    && (c.tier == tier_service || c.tier == tier_admin)

unfoldable pub all_valid : List PolicyCap → Bool
all_valid [] = true
all_valid (c ∷ cs) = valid_cap c && all_valid cs

-- An entry's capabilities.
unfoldable pub valid_entry : List PolicyCap → Bool
valid_entry cs = leb (length cs) max_caps && all_valid cs

pub length-skip : (test : ℕ → Bool) (cs : List ℕ) → length (skip test cs) ≤ length cs
unfolding skip
length-skip test [] = omega arith
length-skip test (c ∷ cs) = let ih = length-skip test cs in ground (arith, ih)

length-read_word : (n : ℕ) (cs : List ℕ) → length (read_word n cs).1 ≤ length cs
unfolding read_word
length-read_word zero cs = omega arith
length-read_word (suc n) [] = omega arith
length-read_word (suc n) (c ∷ cs) = let ih = length-read_word n cs in ground (arith, ih)

pub read_word-shortens :
    (n c : ℕ) (cs : List ℕ) → is_space c ≡ false → length (read_word (suc n) (c ∷ cs)).1 ≤ length cs
unfolding read_word
read_word-shortens n c cs word = let ih = length-read_word n cs in ground (arith, ih, word)

all_known : List NameOf → Bool
all_known [] = true
all_known (r ∷ rs) = leb r.kind 16 && all_known rs

find_kind-bound : (rs : List NameOf) (name : List ℕ) → all_known rs ≡ true → find_kind rs name ≤ 16
unfolding find_kind all_known
find_kind-bound [] name h = omega arith
find_kind-bound (r ∷ rs) name h =
    let ih : all_known rs ≡ true → find_kind rs name ≤ 16 = find_kind-bound rs name in
    ground (arith, ih, h)

cap_name_to_kind-bound : (name : List ℕ) → cap_name_to_kind name ≤ 16
unfolding cap_name_to_kind all_known
cap_name_to_kind-bound name = find_kind-bound kind_names name refl

all_valid-append : (cs ds : List PolicyCap) → all_valid (cs ++ ds) ≡ (all_valid cs && all_valid ds)
unfolding all_valid
all_valid-append [] ds = refl
all_valid-append (c ∷ cs) ds = let ih = all_valid-append cs ds in ground (arith, ih)

add_cap-valid :
    (tier kind : ℕ) (cs : List PolicyCap)
    → (tier == tier_service || tier == tier_admin) ≡ true
    → kind ≤ 16
    → valid_entry cs ≡ true
    → valid_entry (add_cap tier kind cs) ≡ true
unfolding valid_entry add_cap all_valid valid_cap
add_cap-valid tier kind cs t k v =
    let new : PolicyCap = record { kind = kind; rights = 7; tier = tier } in
    let size = length-append cs (new ∷ []) in
    let valid = all_valid-append cs (new ∷ []) in ground (arith, size, valid)

-- What is left after a line is no longer than what was read, and the entry is valid.
unfoldable pub line_ok : ℕ → Option (List ℕ × List PolicyCap) → Bool
line_ok n none = false
line_ok n (some (cs', caps')) = leb (length cs') n && valid_entry caps'

line_ok-weaken :
    (m n : ℕ) (r : Option (List ℕ × List PolicyCap))
    → m ≤ n
    → line_ok m r ≡ true
    → line_ok n r ≡ true
unfolding line_ok
line_ok-weaken m n none le ok = ok
line_ok-weaken m n (some (cs', caps')) le ok = ground (arith, ok)

ends_line-word :
    (cs : List ℕ)
    → ends_line (skip is_blank cs) ≡ false
    → length (read_word 31 (skip is_blank cs)).1 + 1 ≤ length cs
unfolding ends_line skip
ends_line-word [] e = absurd (cc e)
ends_line-word (c ∷ cs) e =
    let ih : ends_line (skip is_blank cs) ≡ false
        → length (read_word 31 (skip is_blank cs)).1 + 1 ≤ length cs =
      ends_line-word cs in
    elim (Bool-cases (is_blank c)) [
      | inl blank ↦
          let e' : ends_line (skip is_blank cs) ≡ false = rw (skip, blank) at e in
          rw (skip, blank) (omega (arith, ih e'))
      | inr not_blank ↦
          let e' : is_newline c ≡ false = rw (skip, not_blank) at e in
          rw (skip, not_blank)
            (omega (arith, read_word-shortens 30 c cs (ground (arith, not_blank, e'))))
    ]

pub read_caps-line_ok :
    (n tier : ℕ) (cs : List ℕ) (caps : List PolicyCap)
    → (tier == tier_service || tier == tier_admin) ≡ true
    → length cs < n
    → valid_entry caps ≡ true
    → line_ok (length cs) (read_caps n tier cs caps) ≡ true
unfolding read_caps line_ok
read_caps-line_ok zero tier cs caps t lt v = absurd (omega arith)
read_caps-line_ok (suc n) tier cs caps t lt v =
    let word_at = skip is_blank cs in
    let word = read_word 31 word_at in
    let kind = cap_name_to_kind word.0 in
    let caps' = add_cap tier kind caps in
    elim (Bool-cases (ends_line cs)) [
      | inl end_ ↦ rw (read_caps, end_) (ground (arith, v))
      | inr more ↦ elim (Bool-cases (ends_line word_at)) [
        | inl end_ ↦
            let le = length-skip is_blank cs in rw (read_caps, more, end_) (ground (arith, v, le))
        | inr here ↦
            let shorter = ends_line-word cs here in
            let valid = add_cap-valid tier kind caps t (cap_name_to_kind-bound word.0) v in
            let ih = read_caps-line_ok n tier word.1 caps' t (omega (arith, shorter)) valid in
            rw (read_caps, more, here)
              (line_ok-weaken (length word.1) (length cs) (read_caps n tier word.1 caps')
                (omega (arith, shorter)) ih)
      ]
    ]
