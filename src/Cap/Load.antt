-- ===== src/Cap/Load.antt =====
-- `cap_policy_load` and `cap_policy_lookup` of kernel/cap/cap_policy.c. The directory is the list of
-- what its `readdir` returns, a file what its `read` returns.
use exec_aegis.Base.{
  ℕ, ◌&&◌, Option, none, some, List, [], ◌∷◌, ◌++◌, ◌==◌, leb, if◌then◌else◌, length, take,
}
use exec_aegis.Cap.Exec.{PolicyCap}
use exec_aegis.Cap.Names.{streq}
use exec_aegis.Cap.Policy.{parse_policy}

abbrev pub max_entries : ℕ
max_entries = 32

-- `cap_policy_entry_t`
pub record PolicyEntry : Type 0 where
  pub name : List ℕ
  pub caps : List PolicyCap

pub record Dirent : Type 0 where
  pub name : List ℕ
  pub dtype : ℕ

-- "/etc/aegis/caps.d/"
abbrev pub caps_dir : List ℕ
caps_dir =
    47 ∷ 101 ∷ 116 ∷ 99 ∷ 47 ∷ 97 ∷ 101 ∷ 103 ∷ 105 ∷ 115 ∷ 47 ∷ 99 ∷ 97 ∷ 112 ∷ 115 ∷ 46 ∷ 100 ∷ 47
    ∷ []

-- An entry of no capabilities is not counted.
unfoldable pub add_entry : List ℕ → Option (List PolicyCap) → List PolicyEntry → List PolicyEntry
add_entry name none es = es
add_entry name (some []) es = es
add_entry name (some (c ∷ cs)) es = es ++ record { name = take 63 name; caps = c ∷ cs } ∷ []

-- The contents of a file that was read, up to 511 bytes; an empty one is not parsed.
unfoldable pub load_bytes : List ℕ → List ℕ → List PolicyEntry → List PolicyEntry
load_bytes name [] es = es
load_bytes name (b ∷ bs) es = add_entry name (parse_policy (take 511 (b ∷ bs))) es

unfoldable pub load_file : (List ℕ → Option (List ℕ)) → List ℕ → List PolicyEntry → List PolicyEntry
load_file vfs name es = elim (vfs (take 255 (caps_dir ++ name))) [
  | none ↦ es
  | some bs ↦ load_bytes name bs es
]

-- The loop over the directory: regular files (DT_REG) only, until the table is full.
unfoldable pub load_loop :
    (List ℕ → Option (List ℕ)) → List Dirent → List PolicyEntry → List PolicyEntry
load_loop vfs [] es = es
load_loop vfs (d ∷ ds) es =
    let regular = d.dtype == 8 in
    let more = load_loop vfs ds (if regular then load_file vfs d.name es else es) in
    if regular && leb max_entries (length es) then es else more

-- `none` is a directory that cannot be opened.
unfoldable pub load : (List ℕ → Option (List ℕ)) → Option (List Dirent) → List PolicyEntry
load vfs none = []
load vfs (some ds) = load_loop vfs ds []

-- The loop for the basename: what follows the last slash of `p`, if one follows.
unfoldable pub basename_from : List ℕ → List ℕ → List ℕ
basename_from base [] = base
basename_from base (c ∷ p) = basename_from (if c == 47 then p else base) p

unfoldable pub find_entry : List PolicyEntry → List ℕ → Option (List PolicyCap)
find_entry [] base = none
find_entry (e ∷ es) base = if streq e.name base then some e.caps else find_entry es base

unfoldable pub lookup_basename : List PolicyEntry → List ℕ → Option (List PolicyCap)
lookup_basename es [] = none
lookup_basename es (c ∷ cs) = find_entry es (c ∷ cs)

unfoldable pub lookup : List PolicyEntry → List ℕ → Option (List PolicyCap)
lookup es path = lookup_basename es (basename_from path path)
