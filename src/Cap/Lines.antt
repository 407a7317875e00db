-- ===== src/Cap/Lines.antt =====
-- Whole policy files, for parse_policy of kernel/cap/cap_policy.c.
use exec_aegis.Base.{
  ℕ, zero, suc, ◌+◌, ◌≤◌, ◌<◌, ◌≡◌, refl, ap, sym, ◌∙◌, Bool, true, false, Option, some, List, [],
  ◌∷◌, ◌++◌, All, append_assoc, append-nil, arith, leb, length, length-append, Bool-cases, inl, inr,
}
use exec_aegis.Cap.Exec.{PolicyCap, tier_service, tier_admin}
use exec_aegis.Cap.Names.{streq, service_word, admin_word}
use exec_aegis.Cap.Policy.{
  max_caps, is_space, skip, finished, next, after_line, read_line, read_tier, read_at, parse_round,
  parse_loop, parse_policy,
}
use exec_aegis.Cap.Text.{
  Named, Line, tier_word, tier_of, names_text, text, line_caps, text_caps, IsKnown, Known,
  read_word_text, read_caps_text,
}

names_text-length : (ns : List Named) (rest : List ℕ) → length ns ≤ length (names_text ns rest)
unfolding names_text
names_text-length [] rest = omega arith
names_text-length (n ∷ ns) rest =
    omega (arith, names_text-length ns rest, length-append n.word (names_text ns rest))

read_line_text :
    (tier : ℕ) (ns : List Named) (rest : List ℕ) (caps : List PolicyCap)
    → All IsKnown ns
    → length caps + length ns ≤ max_caps
    → read_line tier (names_text ns (10 ∷ rest)) caps ≡ next (10 ∷ rest) (caps ++ line_caps tier ns)
unfolding read_line after_line
read_line_text tier ns rest caps known room =
    let fuel = names_text-length ns (10 ∷ rest) in
    ap after_line (
      read_caps_text (length (names_text ns (10 ∷ rest)) + 1) tier ns rest caps
        (omega (arith, fuel)) known room)

-- A line is read whole, at its first byte.
read_at_text :
    (admin : Bool) (ns : List Named) (rest : List ℕ) (caps : List PolicyCap)
    → All IsKnown ns
    → length caps + length ns ≤ max_caps
    → read_at (tier_word admin ++ names_text ns (10 ∷ rest)) caps
      ≡ next (10 ∷ rest) (caps ++ line_caps (tier_of admin) ns)
unfolding read_at read_tier streq tier_word tier_of
read_at_text true ns rest caps known room =
    let word =
      read_word_text 15 admin_word ns rest (refl, (refl, (refl, (refl, (refl, tt)))))
        (omega arith) in
    rw word (read_line_text tier_admin ns rest caps known room)
read_at_text false ns rest caps known room =
    let word =
      read_word_text 15 service_word ns rest
        (refl, (refl, (refl, (refl, (refl, (refl, (refl, tt))))))) (omega arith) in
    rw word (read_line_text tier_service ns rest caps known room)

skip_text :
    (admin : Bool) (rest : List ℕ)
    → skip is_space (tier_word admin ++ rest) ≡ tier_word admin ++ rest
unfolding skip tier_word
skip_text true rest = refl
skip_text false rest = refl

length-line_caps : (tier : ℕ) (ns : List Named) → length (line_caps tier ns) ≡ length ns
unfolding line_caps
length-line_caps tier [] = refl
length-line_caps tier (n ∷ ns) = ap (λ k. suc k) (length-line_caps tier ns)

nothing_left : (cs : List PolicyCap) → length cs ≡ 0 → cs ≡ []
nothing_left [] e = refl
nothing_left (c ∷ cs) e = absurd (omega arith)

round_full :
    (cs : List ℕ) (caps : List PolicyCap)
    → leb max_caps (length caps) ≡ true
    → parse_round cs caps ≡ finished caps
unfolding parse_round
round_full [] caps full = refl
round_full (c ∷ cs) caps full = rw (parse_round, full) refl

round_at :
    (cs t : List ℕ) (caps : List PolicyCap)
    → leb max_caps (length caps) ≡ false
    → skip is_space cs ≡ t
    → parse_round cs caps ≡ read_at t caps
unfolding parse_round read_at skip
round_at [] t caps free e = ap (λ t. read_at t caps) e
round_at (c ∷ cs) t caps free e = rw (parse_round, free) (ap (λ t. read_at t caps) e)

loop_next :
    (n : ℕ) (cs cs' : List ℕ) (caps caps' : List PolicyCap)
    → parse_round cs caps ≡ next cs' caps'
    → parse_loop (suc n) cs caps ≡ parse_loop n cs' caps'
unfolding parse_loop
loop_next n cs cs' caps caps' e = rw (parse_loop, e) refl

loop_done :
    (n : ℕ) (cs : List ℕ) (caps caps' : List PolicyCap)
    → parse_round cs caps ≡ finished caps'
    → parse_loop (suc n) cs caps ≡ some caps'
unfolding parse_loop
loop_done n cs caps caps' e = rw (parse_loop, e) refl

skip_newline : (cs : List ℕ) → skip is_space (10 ∷ cs) ≡ skip is_space cs
unfolding skip
skip_newline cs = refl

skip_lines : (ls : List Line) → skip is_space (text ls) ≡ text ls
unfolding text skip
skip_lines [] = refl
skip_lines (l ∷ ls) = skip_text l.admin (names_text l.names (10 ∷ text ls))

read_nothing : (caps : List PolicyCap) → read_at [] caps ≡ finished caps
unfolding read_at
read_nothing caps = refl

-- The lines that follow white space.
parse_lines :
    (n : ℕ) (ls : List Line) (cs : List ℕ) (caps : List PolicyCap)
    → length ls < n
    → skip is_space cs ≡ text ls
    → All Known ls
    → length caps + length (text_caps ls) ≤ max_caps
    → parse_loop n cs caps ≡ some (caps ++ text_caps ls)
unfolding text text_caps
parse_lines zero ls cs caps fuel at known room = absurd (omega arith)
parse_lines (suc n) [] cs caps fuel at known room =
    let done : parse_round cs caps ≡ finished caps =
      elim (Bool-cases (leb max_caps (length caps))) [
        | inl full ↦ round_full cs caps full
        | inr free ↦ round_at cs [] caps free at ∙ read_nothing caps
      ] in
    loop_done n cs caps caps done
    ∙ ap (λ x. let r : Option (List PolicyCap) = some x in r) (sym (append-nil caps))
parse_lines (suc n) (l ∷ ls) cs caps fuel at (here, known) room =
    let more = line_caps (tier_of l.admin) l.names in
    let size = length-line_caps (tier_of l.admin) l.names in
    let both = length-append more (text_caps ls) in
    elim (Bool-cases (leb max_caps (length caps))) [
      | inl full ↦
          let none_left = nothing_left (more ++ text_caps ls) (ground (arith, full, room)) in
          loop_done n cs caps caps (round_full cs caps full)
          ∙ ap (λ x. let r : Option (List PolicyCap) = some x in r) (sym (append-nil caps))
          ∙ ap (λ x. let r : Option (List PolicyCap) = some (caps ++ x) in r) (sym none_left)
      | inr free ↦
          let line =
            read_at_text l.admin l.names (text ls) caps here (omega (arith, size, both, room)) in
          loop_next n cs (10 ∷ text ls) caps (caps ++ more) (
            round_at cs (tier_word l.admin ++ names_text l.names (10 ∷ text ls)) caps free at
            ∙ line)
          ∙ parse_lines n ls (10 ∷ text ls) (caps ++ more) (omega arith)
              (skip_newline (text ls) ∙ skip_lines ls) known
              (omega (arith, length-append caps more, both, room))
          ∙ ap (λ x. let r : Option (List PolicyCap) = some x in r)
              (append_assoc caps more (text_caps ls))
    ]

names_text-rest : (ns : List Named) (rest : List ℕ) → length rest ≤ length (names_text ns rest)
unfolding names_text
names_text-rest [] rest = omega arith
names_text-rest (n ∷ ns) rest =
    omega (arith, names_text-rest ns rest, length-append n.word (names_text ns rest))

text-length : (ls : List Line) → length ls ≤ length (text ls)
unfolding text tier_word
text-length [] = omega arith
text-length (l ∷ ls) =
    let word = length-append (tier_word l.admin) (names_text l.names (10 ∷ text ls)) in
    let rest = names_text-rest l.names (10 ∷ text ls) in omega (arith, word, rest, text-length ls)

-- A file of lines, each a tier and after single spaces names that cap_name_to_kind knows, of 1 to 31 bytes
-- without white space, with 16 names at most in all, is parsed as its capabilities in order: each the
-- kind of its name, all rights, and the tier of its line.
pub parse_policy-text :
    (ls : List Line)
    → All Known ls
    → length (text_caps ls) ≤ max_caps
    → parse_policy (text ls) ≡ some (text_caps ls)
unfolding parse_policy
parse_policy-text ls known room =
    parse_lines (length (text ls) + 1) ls (text ls) [] (omega (arith, text-length ls))
      (skip_lines ls) known (omega (arith, room))
