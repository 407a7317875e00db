-- ===== src/Cap/Image.antt =====
-- From the policy files to the table of an image (kernel/cap/cap_policy.c, kernel/syscall/sys_exec.c).
use exec_aegis.Base.{
  ℕ, ◌+◌, ◌≤◌, ◌≡◌, ◌≢◌, refl, ap, ◌∙◌, Bool, true, false, ◌&&◌, ◌||◌, not, Option, none, some,
  List, [], ◌∷◌, ◌++◌, arith, ◌==◌, leb, if◌then◌else◌, length, length-append, length-take, take,
  Bool-cases, inl, inr,
}
use exec_aegis.Cap.Table.{table_size, cap_check}
use exec_aegis.Cap.Exec.{PolicyCap, exec_caps}
use exec_aegis.Cap.Names.{streq}
use exec_aegis.Cap.Policy.{max_caps}
use exec_aegis.Cap.Authority.{permitted, permitted_to_all, exec_caps-permitted}
use exec_aegis.Cap.Line.{valid_entry}
use exec_aegis.Cap.Parse.{parse_policy-valid}
use exec_aegis.Cap.Load.{
  PolicyEntry, Dirent, max_entries, caps_dir, add_entry, load_bytes, load_file, load_loop, load,
  basename_from, find_entry, lookup_basename, lookup,
}

-- Every entry of the table is valid.
unfoldable pub valid_entries : List PolicyEntry → Bool
valid_entries [] = true
valid_entries (e ∷ es) = valid_entry e.caps && leb (length e.name) 63 && valid_entries es

valid_entries-append :
    (es ds : List PolicyEntry) → valid_entries (es ++ ds) ≡ (valid_entries es && valid_entries ds)
unfolding valid_entries
valid_entries-append [] ds = refl
valid_entries-append (e ∷ es) ds = let ih = valid_entries-append es ds in ground (arith, ih)

-- The table after one file: valid, and longer by one at most.
add_entry-valid :
    (name : List ℕ) (caps : List PolicyCap) (es : List PolicyEntry)
    → valid_entry caps ≡ true
    → valid_entries es ≡ true
    → (valid_entries (add_entry name (some caps) es) ≡ true)
      × (length (add_entry name (some caps) es) ≤ length es + 1)
unfolding add_entry valid_entries
add_entry-valid name [] es ok v = (v, omega arith)
add_entry-valid name (c ∷ cs) es ok v =
    let new : PolicyEntry = record { name = take 63 name; caps = c ∷ cs } in
    let valid = valid_entries-append es (new ∷ []) in
    let short = length-take 63 name in
    (ground (arith, valid, short, ok, v), omega (arith, length-append es (new ∷ [])))

load_bytes-valid :
    (name bs : List ℕ) (es : List PolicyEntry)
    → valid_entries es ≡ true
    → (valid_entries (load_bytes name bs es) ≡ true)
      × (length (load_bytes name bs es) ≤ length es + 1)
unfolding load_bytes
load_bytes-valid name [] es v = (v, omega arith)
load_bytes-valid name (b ∷ bs) es v =
    let parsed = parse_policy-valid (take 511 (b ∷ bs)) in
    rw (load_bytes, parsed.1) (add_entry-valid name parsed.0 es parsed.2 v)

load_file-valid :
    (vfs : List ℕ → Option (List ℕ)) (name : List ℕ) (es : List PolicyEntry)
    → valid_entries es ≡ true
    → (valid_entries (load_file vfs name es) ≡ true)
      × (length (load_file vfs name es) ≤ length es + 1)
unfolding load_file
load_file-valid vfs name es v = from_open (vfs (take 255 (caps_dir ++ name)))
  where
    from_open :
        (r : Option (List ℕ))
        → (valid_entries (elim r [ none ↦ es | some bs ↦ load_bytes name bs es ]) ≡ true)
          × (length (elim r [ none ↦ es | some bs ↦ load_bytes name bs es ]) ≤ length es + 1)
    from_open none = (v, omega arith)
    from_open (some bs) = load_bytes-valid name bs es v

load_loop-valid :
    (vfs : List ℕ → Option (List ℕ)) (ds : List Dirent) (es : List PolicyEntry)
    → valid_entries es ≡ true
    → length es ≤ max_entries
    → (valid_entries (load_loop vfs ds es) ≡ true) × (length (load_loop vfs ds es) ≤ max_entries)
unfolding load_loop
load_loop-valid vfs [] es v le = (v, le)
load_loop-valid vfs (d ∷ ds) es v le =
    let file = load_file-valid vfs d.name es v in
    let skip = load_loop-valid vfs ds es v le in
    elim (Bool-cases (d.dtype == 8)) [
      | inr other ↦ rw (load_loop, other) skip
      | inl regular ↦ elim (Bool-cases (leb max_entries (length es))) [
        | inl full ↦ rw (load_loop, regular, full) (v, le)
        | inr room ↦
            rw (load_loop, regular, room)
              (load_loop-valid vfs ds (load_file vfs d.name es) file.0
                (let longer = file.1 in ground (arith, room, longer)))
      ]
    ]

-- The table of policies that is loaded, whatever the directory holds, has 32 entries at most, each with
-- a name of 63 bytes at most and 16 valid capabilities at most.
pub load-valid :
    (vfs : List ℕ → Option (List ℕ)) (dir : Option (List Dirent))
    → (valid_entries (load vfs dir) ≡ true) × (length (load vfs dir) ≤ max_entries)
unfolding load valid_entries
load-valid vfs none = (refl, omega arith)
load-valid vfs (some ds) = load_loop-valid vfs ds [] refl (omega arith)

find_entry-bound :
    (es : List PolicyEntry) (base : List ℕ) (cs : List PolicyCap)
    → valid_entries es ≡ true
    → find_entry es base ≡ some cs
    → length cs ≤ max_caps
unfolding find_entry valid_entries valid_entry
find_entry-bound [] base cs v e = absurd (cc e)
find_entry-bound (d ∷ es) base cs v e = elim (Bool-cases (streq d.name base)) [
  | inl found ↦
      let q : some d.caps ≡ some cs = rw (find_entry, found) at e in
      let q' : d.caps ≡ cs = cc q in rw (← q') (ground (arith, v))
  | inr other ↦
      let q : find_entry es base ≡ some cs = rw (find_entry, other) at e in
      find_entry-bound es base cs (ground (arith, v)) q
]

lookup_basename-bound :
    (es : List PolicyEntry) (base : List ℕ) (cs : List PolicyCap)
    → valid_entries es ≡ true
    → lookup_basename es base ≡ some cs
    → length cs ≤ max_caps
unfolding lookup_basename
lookup_basename-bound es [] cs v e = absurd (cc e)
lookup_basename-bound es (c ∷ base) cs v e = find_entry-bound es (c ∷ base) cs v e

-- The checks that the policy of a binary allows, if it has one.
unfoldable pub allowed : Bool → Option (List PolicyCap) → ℕ → ℕ → Bool
allowed authenticated none k w = false
allowed authenticated (some cs) k w = permitted authenticated cs k w

allowed-checks :
    (authenticated : Bool) (pol : Option (List PolicyCap)) (k w : ℕ)
    → ((cs : List PolicyCap) → pol ≡ some cs → length cs ≤ max_caps)
    → k ≢ 0
    → cap_check (exec_caps authenticated pol) table_size k w
      ≡ (permitted_to_all k w || allowed authenticated pol k w)
unfolding allowed
allowed-checks authenticated none k w le ne =
    (exec_caps-permitted authenticated [] k w (omega arith) ne).1 ∙ ground arith
allowed-checks authenticated (some cs) k w le ne =
    let bound = le cs refl in (exec_caps-permitted authenticated cs k w (omega (arith, bound)) ne).0

-- Whatever the policy directory holds, an image executed from a path passes, of the checks of a kind other
-- than 0, those that every image passes and those that the policy of its basename allows in its session, and no other.
pub image-permitted :
    (vfs : List ℕ → Option (List ℕ)) (dir : Option (List Dirent)) (path : List ℕ)
    (authenticated : Bool) (k w : ℕ)
    → k ≢ 0
    → cap_check (exec_caps authenticated (lookup (load vfs dir) path)) table_size k w
      ≡ (permitted_to_all k w || allowed authenticated (lookup (load vfs dir) path) k w)
unfolding lookup
image-permitted vfs dir path authenticated k w ne =
    let base = basename_from path path in
    let valid = (load-valid vfs dir).0 in
    allowed-checks authenticated (lookup_basename (load vfs dir) base) k w
      (λ cs e. lookup_basename-bound (load vfs dir) base cs valid e) ne

-- No byte of the name is a slash.
unfoldable pub no_slash : List ℕ → Bool
no_slash [] = true
no_slash (c ∷ cs) = not (c == 47) && no_slash cs

basename_from-plain : (base name : List ℕ) → no_slash name ≡ true → basename_from base name ≡ base
unfolding basename_from no_slash
basename_from-plain base [] ok = refl
basename_from-plain base (c ∷ cs) ok =
    let ih = basename_from-plain base cs (ground (arith, ok)) in
    let plain : (c == 47) ≡ false = ground (arith, ok) in rw (basename_from, plain) ih

basename_from-dir :
    (base dir name : List ℕ) → no_slash name ≡ true → basename_from base (dir ++ 47 ∷ name) ≡ name
unfolding basename_from
basename_from-dir base [] name ok = basename_from-plain name name ok
basename_from-dir base (c ∷ dir) name ok =
    basename_from-dir (if c == 47 then dir ++ 47 ∷ name else base) dir name ok

-- The policy of a binary is found by what follows the last slash of its path, or by the whole path if it
-- has none; a path that ends in a slash has no policy.
pub lookup-basename :
    (es : List PolicyEntry) (dir name : List ℕ)
    → no_slash name ≡ true
    → (lookup es (dir ++ 47 ∷ name) ≡ lookup_basename es name)
      × (lookup es name ≡ lookup_basename es name)
      × (lookup es (dir ++ 47 ∷ []) ≡ none)
unfolding lookup lookup_basename no_slash
lookup-basename es dir name ok = (
  ap (lookup_basename es) (basename_from-dir (dir ++ 47 ∷ name) dir name ok),
  ap (lookup_basename es) (basename_from-plain name name ok),
  ap (lookup_basename es) (basename_from-dir (dir ++ 47 ∷ []) dir [] refl),
)
