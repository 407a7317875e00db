-- ===== src/Cap/Found.antt =====
-- The policy that kernel/cap/cap_policy.c finds for a binary: from the files of the directory to the
-- checks of the image that sys_exec.c makes.
use exec_aegis.Base.{
  ℕ, zero, suc, ◌+◌, ◌≤◌, ◌<◌, ◌≡◌, ◌≢◌, refl, ap, sym, ◌∙◌, Bool, true, false, ◌&&◌, not, Option,
  none, some, List, [], ◌∷◌, ◌++◌, All, arith, ◌==◌, leb, if◌then◌else◌, length, length-append,
  take, Bool-cases, inl, inr, ◌⊎◌,
}
use exec_aegis.Cap.Exec.{PolicyCap}
use exec_aegis.Cap.Names.{streq}
use exec_aegis.Cap.Policy.{parse_policy, parse_loop, parse_round}
use exec_aegis.Cap.Load.{
  PolicyEntry, Dirent, max_entries, caps_dir, add_entry, load_bytes, load_file, load_loop,
  find_entry,
}

-- A file's name: no NUL, and at most the 63 bytes that an entry has room for.
unfoldable pub no_nul : List ℕ → Bool
no_nul [] = true
no_nul (a ∷ as') = not (a == 0) && no_nul as'

pub record IsName (name : List ℕ) : Type 0 where
  pub plain : no_nul name ≡ true
  pub short : length name ≤ 63

-- The file is another one.
abbrev pub Other : List ℕ → Dirent → Type 0
Other name d = IsName d.name × (d.name ≢ name)

streq_self : (a : List ℕ) → streq a a ≡ true
unfolding streq
streq_self [] = refl
streq_self (a ∷ as') = let ih = streq_self as' in ground (arith, ih)

streq→eq : (a b : List ℕ) → no_nul a ≡ true → no_nul b ≡ true → streq a b ≡ true → a ≡ b
unfolding streq no_nul
streq→eq [] [] p q e = refl
streq→eq [] (b ∷ bs) p q e = absurd (ground (arith, q, e))
streq→eq (a ∷ as') [] p q e = absurd (ground (arith, p, e))
streq→eq (a ∷ as') (b ∷ bs) p q e =
    let same : a ≡ b = ground (arith, p, e) in
    let rest = streq→eq as' bs (ground (arith, p)) (ground (arith, q)) (ground (arith, p, e)) in
    cc (same, rest)

pub take_all : (n : ℕ) (xs : List ℕ) → length xs ≤ n → take n xs ≡ xs
take_all zero [] le = refl
take_all zero (x ∷ xs) le = absurd (omega arith)
take_all (suc n) [] le = refl
take_all (suc n) (x ∷ xs) le = ap (λ t. x ∷ t) (take_all n xs (omega arith))

-- A file with another name makes no entry of this one.
streq-Other :
    (name : List ℕ) (d : Dirent) → IsName name → Other name d → streq (take 63 d.name) name ≡ false
streq-Other name d is_name (other, ne) = elim (Bool-cases (streq (take 63 d.name) name)) [
  | inr q ↦ q
  | inl q ↦
      let whole = take_all 63 d.name other.short in
      absurd (
        ne
          (streq→eq d.name name other.plain is_name.plain (ap (λ n. streq n name) (sym whole) ∙ q)))
]

-- One file adds at most its entry.
load_file-cases :
    (vfs : List ℕ → Option (List ℕ)) (name : List ℕ) (es : List PolicyEntry)
    → (load_file vfs name es ≡ es)
      ⊎ ((cs : List PolicyCap) × (load_file vfs name es
            ≡ es ++ record { name = take 63 name; caps = cs } ∷ []))
unfolding load_file load_bytes add_entry
load_file-cases vfs name es = of_file (vfs (take 255 (caps_dir ++ name)))
  where
    of_caps :
        (p : Option (List PolicyCap))
        → (add_entry name p es ≡ es)
          ⊎ ((cs : List PolicyCap) × (add_entry name p es
                ≡ es ++ record { name = take 63 name; caps = cs } ∷ []))
    of_caps none = inl refl
    of_caps (some []) = inl refl
    of_caps (some (c ∷ cs)) = inr (c ∷ cs, refl)

    of_file :
        (r : Option (List ℕ))
        → (elim r [ none ↦ es | some bs ↦ load_bytes name bs es ] ≡ es)
          ⊎ ((cs : List PolicyCap) × (elim r [ none ↦ es | some bs ↦ load_bytes name bs es ]
                ≡ es ++ record { name = take 63 name; caps = cs } ∷ []))
    of_file none = inl refl
    of_file (some []) = inl refl
    of_file (some (b ∷ bs)) = of_caps (parse_policy (take 511 (b ∷ bs)))

-- An entry that is appended to a table.
module _ (name : List ℕ) (e : PolicyEntry) where
  found_before :
      (es : List PolicyEntry) (cs : List PolicyCap)
      → find_entry es name ≡ some cs
      → find_entry (es ++ e ∷ []) name ≡ some cs
  unfolding find_entry
  found_before [] cs h = absurd (cc h)
  found_before (d ∷ es) cs h = elim (Bool-cases (streq d.name name)) [
    | inl q ↦ rw (find_entry, q) (rw (find_entry, q) at h)
    | inr q ↦ rw (find_entry, q) (found_before es cs (rw (find_entry, q) at h))
  ]

  found_last :
      (es : List PolicyEntry)
      → find_entry es name ≡ none
      → find_entry (es ++ e ∷ []) name ≡ (if streq e.name name then some e.caps else none)
  unfolding find_entry
  found_last [] h = refl
  found_last (d ∷ es) h = elim (Bool-cases (streq d.name name)) [
    | inl q ↦ absurd (let r : some d.caps ≡ none = rw (find_entry, q) at h in cc r)
    | inr q ↦ rw (find_entry, q) (found_last es (rw (find_entry, q) at h))
  ]

module _ (vfs : List ℕ → Option (List ℕ)) (name : List ℕ) (is_name : IsName name) where
  -- One file of another name.
  file_keeps :
      (n : List ℕ) (es : List PolicyEntry) (cs : List PolicyCap)
      → find_entry es name ≡ some cs
      → find_entry (load_file vfs n es) name ≡ some cs
  file_keeps n es cs h = elim (load_file-cases vfs n es) [
    | inl e ↦ ap (λ t. find_entry t name) e ∙ h
    | inr (ds, e) ↦
        ap (λ t. find_entry t name) e
        ∙ found_before name (record { name = take 63 n; caps = ds }) es cs h
  ]

  file_misses :
      (d : Dirent) (es : List PolicyEntry)
      → Other name d
      → find_entry es name ≡ none
      → find_entry (load_file vfs d.name es) name ≡ none
  file_misses d es other h = elim (load_file-cases vfs d.name es) [
    | inl e ↦ ap (λ t. find_entry t name) e ∙ h
    | inr (ds, e) ↦
        ap (λ t. find_entry t name) e
        ∙ found_last name (record { name = take 63 d.name; caps = ds }) es h
        ∙ (let differs = streq-Other name d is_name other in rw differs refl)
  ]

  file_length : (n : List ℕ) (es : List PolicyEntry) → length (load_file vfs n es) ≤ length es + 1
  file_length n es = elim (load_file-cases vfs n es) [
    | inl e ↦ omega (arith, ap length e)
    | inr (ds, e) ↦
        omega (arith, ap length e, length-append es (record { name = take 63 n; caps = ds } ∷ []))
  ]

  loop_keeps :
      (ds : List Dirent) (es : List PolicyEntry) (cs : List PolicyCap)
      → find_entry es name ≡ some cs
      → find_entry (load_loop vfs ds es) name ≡ some cs
  unfolding load_loop
  loop_keeps [] es cs h = h
  loop_keeps (d ∷ ds) es cs h = elim (Bool-cases (d.dtype == 8)) [
    | inr other ↦ rw (load_loop, other) (loop_keeps ds es cs h)
    | inl regular ↦ elim (Bool-cases (leb max_entries (length es))) [
      | inl full ↦ rw (load_loop, regular, full) h
      | inr room ↦
          rw (load_loop, regular, room)
            (loop_keeps ds (load_file vfs d.name es) cs (file_keeps d.name es cs h))
    ]
  ]

  pub loop_misses :
      (ds : List Dirent) (es : List PolicyEntry)
      → All (Other name) ds
      → find_entry es name ≡ none
      → find_entry (load_loop vfs ds es) name ≡ none
  unfolding load_loop
  loop_misses [] es others h = h
  loop_misses (d ∷ ds) es (other_d, others) h = elim (Bool-cases (d.dtype == 8)) [
    | inr skipped ↦ rw (load_loop, skipped) (loop_misses ds es others h)
    | inl regular ↦ elim (Bool-cases (leb max_entries (length es))) [
      | inl full ↦ rw (load_loop, regular, full) h
      | inr room ↦
          rw (load_loop, regular, room)
            (loop_misses ds (load_file vfs d.name es) others (file_misses d es other_d h))
    ]
  ]

  -- The file itself: readable, with a policy of at least one capability.
  module _ (bytes : List ℕ) (c : PolicyCap) (cs : List PolicyCap)
      (file : vfs (caps_dir ++ name) ≡ some bytes)
      (policy : parse_policy (take 511 bytes) ≡ some (c ∷ cs)) where
    bytes_added :
        (es : List PolicyEntry)
        → load_bytes name bytes es ≡ es ++ record { name = take 63 name; caps = c ∷ cs } ∷ []
    unfolding load_bytes add_entry parse_policy parse_loop parse_round
    bytes_added es = of_bytes bytes policy
      where
        of_bytes :
            (bs : List ℕ)
            → parse_policy (take 511 bs) ≡ some (c ∷ cs)
            → load_bytes name bs es ≡ es ++ record { name = take 63 name; caps = c ∷ cs } ∷ []
        of_bytes [] e = absurd (let q : some [] ≡ some (c ∷ cs) = e in cc q)
        of_bytes (b ∷ bs) e = rw (load_bytes, e) refl

    path_whole : take 255 (caps_dir ++ name) ≡ caps_dir ++ name
    path_whole =
        take_all 255 (caps_dir ++ name) (omega (arith, is_name.short, length-append caps_dir name))

    file_added :
        (es : List PolicyEntry)
        → load_file vfs name es ≡ es ++ record { name = take 63 name; caps = c ∷ cs } ∷ []
    unfolding load_file
    file_added es =
        let opened : vfs (take 255 (caps_dir ++ name)) ≡ some bytes = ap vfs path_whole ∙ file in
        rw (load_file, opened) (bytes_added es)

    pub loop_finds :
        (before after : List Dirent) (es : List PolicyEntry)
        → All (Other name) before
        → length es + length before < max_entries
        → find_entry es name ≡ none
        → find_entry (load_loop vfs (before ++ record { name = name; dtype = 8 } ∷ after) es) name
          ≡ some (c ∷ cs)
    unfolding load_loop
    loop_finds [] after es others fits h =
        let room : leb max_entries (length es) ≡ false = ground arith in
        let whole = take_all 63 name is_name.short in
        let self : streq (take 63 name) name ≡ true =
          ap (λ n. streq n name) whole ∙ streq_self name in
        rw (load_loop, room)
          (loop_keeps after (load_file vfs name es) (c ∷ cs) (
            ap (λ t. find_entry t name) (file_added es)
            ∙ found_last name (record { name = take 63 name; caps = c ∷ cs }) es h
            ∙ rw self refl))
    loop_finds (d ∷ before) after es (other_d, others) fits h =
        let room : leb max_entries (length es) ≡ false = ground arith in
        elim (Bool-cases (d.dtype == 8)) [
          | inr skipped ↦
              rw (load_loop, skipped) (loop_finds before after es others (omega arith) h)
          | inl regular ↦
              rw (load_loop, regular, room)
                (loop_finds before after (load_file vfs d.name es) others
                  (omega (arith, file_length d.name es)) (file_misses d es other_d h))
        ]
