-- ===== src/Cap/Policy.antt =====
-- `parse_policy` of kernel/cap/cap_policy.c. What is left of the data stands for the position in it.
use Prim.Native.Nat.{bit_or}
use exec_aegis.Base.{
  ℕ, zero, suc, ◌+◌, Bool, true, ◌||◌, not, Option, none, some, List, [], ◌∷◌, ◌++◌, ◌==◌, leb, ltb,
  if◌then◌else◌, length,
}
use exec_aegis.Cap.Kind
use exec_aegis.Cap.Table.{rights_read, rights_write, rights_exec}
use exec_aegis.Cap.Exec.{PolicyCap, tier_service, tier_admin}
use exec_aegis.Cap.Names.{streq, service_word, admin_word, cap_name_to_kind}

abbrev pub max_caps : ℕ
max_caps = 16

-- Space and tab.
abbrev pub is_blank : ℕ → Bool
is_blank c = c == 32 || c == 9

-- Newline and carriage return.
abbrev pub is_newline : ℕ → Bool
is_newline c = c == 10 || c == 13

abbrev pub is_space : ℕ → Bool
is_space c = is_blank c || is_newline c

-- A loop that skips the bytes of a test.
unfoldable pub skip : (ℕ → Bool) → List ℕ → List ℕ
skip test [] = []
skip test (c ∷ cs) = if test c then skip test cs else c ∷ cs

-- A comment: up to the next newline.
abbrev pub skip_line : List ℕ → List ℕ
skip_line cs = skip (λ c. not (c == 10)) cs

-- A word of `n` bytes at most, and what follows it.
unfoldable pub read_word : ℕ → List ℕ → List ℕ × List ℕ
read_word zero cs = ([], cs)
read_word (suc n) [] = ([], [])
read_word (suc n) (c ∷ cs) =
    let rest = read_word n cs in if is_space c then ([], c ∷ cs) else (c ∷ rest.0, rest.1)

unfoldable pub ends_line : List ℕ → Bool
ends_line [] = true
ends_line (c ∷ cs) = is_newline c

-- An unknown name adds nothing, a full entry neither.
unfoldable pub add_cap : ℕ → ℕ → List PolicyCap → List PolicyCap
add_cap tier kind caps =
    let rights = bit_or (bit_or rights_read rights_write) rights_exec in
    if kind == Kind.null
    then caps
    else if ltb (length caps) max_caps
    then caps ++ record { kind = kind; rights = rights; tier = tier } ∷ []
    else caps

-- The capability names on the rest of a line; `none` is a loop out of fuel.
unfoldable pub read_caps : ℕ → ℕ → List ℕ → List PolicyCap → Option (List ℕ × List PolicyCap)
read_caps zero tier cs caps = none
read_caps (suc n) tier cs caps =
    let word_at = skip is_blank cs in
    let word = read_word 31 word_at in
    let more = read_caps n tier word.1 (add_cap tier (cap_name_to_kind word.0) caps) in
    if ends_line cs
    then some (cs, caps)
    else if ends_line word_at
    then some (word_at, caps)
    else more

-- One round of the outer loop ends it, or leaves what is to be read and the capabilities so far.
pub data Round : Type 0 where
  finished : List PolicyCap → Round
  next : List ℕ → List PolicyCap → Round
  starved : Round

unfoldable pub after_line : Option (List ℕ × List PolicyCap) → Round
after_line none = starved
after_line (some (cs, caps)) = next cs caps

unfoldable pub read_line : ℕ → List ℕ → List PolicyCap → Round
read_line tier cs caps = after_line (read_caps (length cs + 1) tier cs caps)

-- A word that is no tier is passed over, not its line.
unfoldable pub read_tier : List ℕ → List PolicyCap → Round
read_tier cs caps =
    let word = read_word 15 cs in
    if streq word.0 service_word
    then read_line tier_service word.1 caps
    else if streq word.0 admin_word
    then read_line tier_admin word.1 caps
    else next word.1 caps

-- What stands at the first byte that is not white.
unfoldable pub read_at : List ℕ → List PolicyCap → Round
read_at [] caps = finished caps
read_at (c ∷ cs) caps = if c == 35 then next (skip_line (c ∷ cs)) caps else read_tier (c ∷ cs) caps

unfoldable pub parse_round : List ℕ → List PolicyCap → Round
parse_round [] caps = finished caps
parse_round (c ∷ cs) caps =
    if leb max_caps (length caps) then finished caps else read_at (skip is_space (c ∷ cs)) caps

unfoldable pub parse_loop : ℕ → List ℕ → List PolicyCap → Option (List PolicyCap)
parse_loop zero cs caps = none
parse_loop (suc n) cs caps = elim (parse_round cs caps) [
  | finished caps' ↦ some caps'
  | next cs' caps' ↦ parse_loop n cs' caps'
  | starved ↦ none
]

unfoldable pub parse_policy : List ℕ → Option (List PolicyCap)
parse_policy cs = parse_loop (length cs + 1) cs []
