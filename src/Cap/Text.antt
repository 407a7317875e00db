-- ===== src/Cap/Text.antt =====
-- Policy files as they are written, for the parser of kernel/cap/cap_policy.c: a tier and names of
-- capabilities on each line.
use exec_aegis.Base.{
  ℕ, zero, suc, ◌+◌, ◌≤◌, ◌<◌, ◌≡◌, ◌≢◌, refl, ap, sym, ◌∙◌, Bool, true, false, Option, some, List,
  [], ◌∷◌, ◌++◌, All, append_assoc, append-nil, arith, ◌==◌, ltb, length, length-append,
}
use exec_aegis.Cap.Exec.{PolicyCap, tier_service, tier_admin}
use exec_aegis.Cap.Names.{service_word, admin_word, cap_name_to_kind}
use exec_aegis.Cap.Policy.{
  max_caps, is_blank, is_space, skip, read_word, ends_line, add_cap, read_caps,
}

-- The name of a capability and its kind.
pub record Named : Type 0 where
  pub word : List ℕ
  pub kind : ℕ

pub record Line : Type 0 where
  pub admin : Bool
  pub names : List Named

unfoldable pub tier_word : Bool → List ℕ
tier_word true = admin_word
tier_word false = service_word

unfoldable pub tier_of : Bool → ℕ
tier_of true = tier_admin
tier_of false = tier_service

-- Each name after a space, then the rest.
unfoldable pub names_text : List Named → List ℕ → List ℕ
names_text [] rest = rest
names_text (n ∷ ns) rest = 32 ∷ n.word ++ names_text ns rest

-- Each line ends in a newline.
unfoldable pub text : List Line → List ℕ
text [] = []
text (l ∷ ls) = tier_word l.admin ++ names_text l.names (10 ∷ text ls)

-- Each name gives its kind with all three rights and the tier of its line.
unfoldable pub line_caps : ℕ → List Named → List PolicyCap
line_caps tier [] = []
line_caps tier (n ∷ ns) = record { kind = n.kind; rights = 7; tier = tier } ∷ line_caps tier ns

unfoldable pub text_caps : List Line → List PolicyCap
text_caps [] = []
text_caps (l ∷ ls) = line_caps (tier_of l.admin) l.names ++ text_caps ls

-- A known name, of 31 bytes at most and without white space.
pub record IsKnown (n : Named) : Type 0 where
  pub known : cap_name_to_kind n.word ≡ n.kind
  pub real : n.kind ≢ 0
  pub letters : All (λ c. is_space c ≡ false) n.word
  pub some_letters : 0 < length n.word
  pub short : length n.word ≤ 31

abbrev pub Known : Line → Type 0
Known l = All IsKnown l.names

read_word_stops :
    (n c : ℕ) (w t : List ℕ)
    → is_space c ≡ true
    → All (λ c. is_space c ≡ false) w
    → length w ≤ n
    → read_word n (w ++ c ∷ t) ≡ (w, c ∷ t)
unfolding read_word
read_word_stops zero c [] t stop letters le = refl
read_word_stops zero c (x ∷ w) t stop letters le = absurd (omega arith)
read_word_stops (suc n) c [] t stop letters le = rw (read_word, stop) refl
read_word_stops (suc n) c (x ∷ w) t stop (here, letters) le =
    let ih = read_word_stops n c w t stop letters (omega arith) in rw (read_word, here, ih) refl

-- A word is neither blank nor the end of a line.
word_starts :
    (w t : List ℕ)
    → All (λ c. is_space c ≡ false) w
    → 0 < length w
    → (skip is_blank (w ++ t) ≡ w ++ t) × (ends_line (w ++ t) ≡ false)
unfolding skip ends_line
word_starts [] t letters pos = absurd (omega arith)
word_starts (c ∷ w) t (here, letters) pos =
    let no_blank : is_blank c ≡ false = ground (arith, here) in
    (rw (skip, no_blank) refl, ground (arith, here))

-- What follows a word is white.
names_head :
    (ns : List Named) (rest : List ℕ)
    → (c : ℕ) × (t : List ℕ) × (names_text ns (10 ∷ rest) ≡ c ∷ t) × (is_space c ≡ true)
unfolding names_text
names_head [] rest = (10, rest, refl, refl)
names_head (n ∷ ns) rest = (32, n.word ++ names_text ns (10 ∷ rest), refl, refl)

pub read_word_text :
    (k : ℕ) (w : List ℕ) (ns : List Named) (rest : List ℕ)
    → All (λ c. is_space c ≡ false) w
    → length w ≤ k
    → read_word k (w ++ names_text ns (10 ∷ rest)) ≡ (w, names_text ns (10 ∷ rest))
read_word_text k w ns rest letters le =
    let (c, t, e, stop) = names_head ns rest in
    ap (λ x. read_word k (w ++ x)) e
    ∙ read_word_stops k c w t stop letters le
    ∙ ap (λ x. let r : List ℕ × List ℕ = (w, x) in r) (sym e)

add_known :
    (tier kind : ℕ) (caps : List PolicyCap)
    → kind ≢ 0
    → length caps < max_caps
    → add_cap tier kind caps ≡ caps ++ record { kind = kind; rights = 7; tier = tier } ∷ []
unfolding add_cap
add_known tier kind caps ne room =
    let real : (kind == 0) ≡ false = ground arith in
    let fits : ltb (length caps) max_caps ≡ true = ground arith in rw (real, fits) refl

skip_space : (cs : List ℕ) → skip is_blank (32 ∷ cs) ≡ skip is_blank cs
unfolding skip
skip_space cs = refl

pub read_caps_text :
    (n tier : ℕ) (ns : List Named) (rest : List ℕ) (caps : List PolicyCap)
    → length ns < n
    → All IsKnown ns
    → length caps + length ns ≤ max_caps
    → read_caps n tier (names_text ns (10 ∷ rest)) caps
      ≡ some (10 ∷ rest, caps ++ line_caps tier ns)
unfolding read_caps names_text line_caps ends_line
read_caps_text zero tier ns rest caps fuel known room = absurd (omega arith)
read_caps_text (suc n) tier [] rest caps fuel known room =
    ap (λ x. let r : Option (List ℕ × List PolicyCap) = some (10 ∷ rest, x) in r)
      (sym (append-nil caps))
read_caps_text (suc n) tier (x ∷ ns) rest caps fuel (is_known, known) room =
    let tail = names_text ns (10 ∷ rest) in
    let starts = word_starts x.word tail is_known.letters is_known.some_letters in
    let word = read_word_text 31 x.word ns rest is_known.letters is_known.short in
    let c : PolicyCap = record { kind = x.kind; rights = 7; tier = tier } in
    let added : add_cap tier (cap_name_to_kind x.word) caps ≡ caps ++ c ∷ [] =
      ap (λ k. add_cap tier k caps) is_known.known
      ∙ add_known tier x.kind caps is_known.real (omega arith) in
    let ih =
      read_caps_text n tier ns rest (caps ++ c ∷ []) (omega arith) known
        (omega (arith, length-append caps (c ∷ []))) in
    let at_word : skip is_blank (32 ∷ x.word ++ tail) ≡ x.word ++ tail =
      skip_space (x.word ++ tail) ∙ starts.0 in
    let split = append_assoc caps (c ∷ []) (line_caps tier ns) in
    rw (at_word, starts.1, word, added, ih)
      (ap (λ x. let r : Option (List ℕ × List PolicyCap) = some (10 ∷ rest, x) in r) split)
