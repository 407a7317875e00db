-- ===== src/Cap/Executed.antt =====
-- The checks of an image whose policy is a file of the directory (kernel/cap/cap_policy.c,
-- kernel/syscall/sys_exec.c).
use exec_aegis.Base.{
  ℕ, ◌≤◌, ◌<◌, ◌≡◌, ◌≢◌, refl, ap, ◌∙◌, Bool, true, ◌||◌, Option, none, some, List, [], ◌∷◌, ◌++◌,
  All, arith, length, take,
}
use exec_aegis.Cap.Table.{table_size, cap_check}
use exec_aegis.Cap.Exec.{PolicyCap, exec_caps}
use exec_aegis.Cap.Policy.{max_caps, parse_policy}
use exec_aegis.Cap.Authority.{permitted, permitted_to_all}
use exec_aegis.Cap.Load.{Dirent, max_entries, caps_dir, load, find_entry, lookup_basename, lookup}
use exec_aegis.Cap.Image.{allowed, image-permitted, no_slash, lookup-basename}
use exec_aegis.Cap.Found.{IsName, Other, take_all, loop_finds, loop_misses}
use exec_aegis.Cap.Text.{Line, text, text_caps, Known}
use exec_aegis.Cap.Lines.{parse_policy-text}

lookup-find_entry :
    (vfs : List ℕ → Option (List ℕ)) (files : List Dirent) (dir : List ℕ) (n : ℕ) (ns : List ℕ)
    → no_slash (n ∷ ns) ≡ true
    → lookup (load vfs (some files)) (dir ++ 47 ∷ n ∷ ns)
      ≡ find_entry (load vfs (some files)) (n ∷ ns)
unfolding lookup_basename
lookup-find_entry vfs files dir n ns slashless =
    (lookup-basename (load vfs (some files)) dir (n ∷ ns) slashless).0

image-parsed :
    (vfs : List ℕ → Option (List ℕ)) (before after : List Dirent) (bytes dir : List ℕ) (n : ℕ)
    (ns : List ℕ) (c : PolicyCap) (cs : List PolicyCap) (authenticated : Bool) (k w : ℕ)
    → IsName (n ∷ ns)
    → no_slash (n ∷ ns) ≡ true
    → All (Other (n ∷ ns)) before
    → length before < max_entries
    → vfs (caps_dir ++ n ∷ ns) ≡ some bytes
    → parse_policy (take 511 bytes) ≡ some (c ∷ cs)
    → k ≢ 0
    → cap_check
        (exec_caps authenticated (
          lookup
            (load vfs (some (before ++ record { name = n ∷ ns; dtype = 8 } ∷ after)))
            (dir ++ 47 ∷ n ∷ ns)))
        table_size
        k
        w
      ≡ (permitted_to_all k w || permitted authenticated (c ∷ cs) k w)
unfolding load find_entry allowed
image-parsed vfs before after bytes dir n ns c cs authenticated k w is_name slashless others fits
      file policy ne =
    let files = before ++ record { name = n ∷ ns; dtype = 8 } ∷ after in
    let found =
      loop_finds vfs (n ∷ ns) is_name bytes c cs file policy before after [] others (omega arith)
        refl in
    let e : lookup (load vfs (some files)) (dir ++ 47 ∷ n ∷ ns) ≡ some (c ∷ cs) =
      lookup-find_entry vfs files dir n ns slashless ∙ found in
    image-permitted vfs (some files) (dir ++ 47 ∷ n ∷ ns) authenticated k w ne
    ∙ ap (λ p. permitted_to_all k w || allowed authenticated p k w) e

-- Take a directory with a regular file that is named as what follows the last slash of a path (a name of
-- 1 to 63 bytes without a NUL), with fewer than 32 entries before it, all of other names of 63 bytes at
-- most without a NUL. If the file holds lines, each a tier and after single spaces names that
-- cap_name_to_kind knows, of 1 to 31 bytes without white space, 511 bytes and 16 names at most and one
-- name at least, then the image executed from that path passes, of the checks of a kind other than 0,
-- exactly those that every image passes and those that the names allow: on a line of the service tier in
-- every session, on one of the admin tier in an authenticated one.
pub image-policy :
    (vfs : List ℕ → Option (List ℕ)) (before after : List Dirent) (ls : List Line) (dir : List ℕ)
    (n : ℕ) (ns : List ℕ) (authenticated : Bool) (k w : ℕ)
    → IsName (n ∷ ns)
    → no_slash (n ∷ ns) ≡ true
    → All (Other (n ∷ ns)) before
    → length before < max_entries
    → vfs (caps_dir ++ n ∷ ns) ≡ some (text ls)
    → All Known ls
    → length (text ls) ≤ 511
    → 0 < length (text_caps ls)
    → length (text_caps ls) ≤ max_caps
    → k ≢ 0
    → cap_check
        (exec_caps authenticated (
          lookup
            (load vfs (some (before ++ record { name = n ∷ ns; dtype = 8 } ∷ after)))
            (dir ++ 47 ∷ n ∷ ns)))
        table_size
        k
        w
      ≡ (permitted_to_all k w || permitted authenticated (text_caps ls) k w)
image-policy vfs before after ls dir n ns authenticated k w is_name slashless others fits file known
      short some_caps few ne =
    of_caps (text_caps ls) some_caps
      (ap parse_policy (take_all 511 (text ls) short) ∙ parse_policy-text ls known few)
  where
    of_caps :
        (cs : List PolicyCap)
        → 0 < length cs
        → parse_policy (take 511 (text ls)) ≡ some cs
        → cap_check
            (exec_caps authenticated (
              lookup
                (load vfs (some (before ++ record { name = n ∷ ns; dtype = 8 } ∷ after)))
                (dir ++ 47 ∷ n ∷ ns)))
            table_size
            k
            w
          ≡ (permitted_to_all k w || permitted authenticated cs k w)
    of_caps [] pos e = absurd (omega arith)
    of_caps (c ∷ cs) pos e =
        image-parsed vfs before after (text ls) dir n ns c cs authenticated k w is_name slashless
          others fits file e ne

-- If no entry of the directory is named as what follows the last slash of a path (a name of 1 to 63
-- bytes without a NUL), and all have names of 63 bytes at most without a NUL, then the image executed from
-- that path passes, of the checks of a kind other than 0, those that every image passes and no other.
pub image-no_policy :
    (vfs : List ℕ → Option (List ℕ)) (files : List Dirent) (dir : List ℕ) (n : ℕ) (ns : List ℕ)
    (authenticated : Bool) (k w : ℕ)
    → IsName (n ∷ ns)
    → no_slash (n ∷ ns) ≡ true
    → All (Other (n ∷ ns)) files
    → k ≢ 0
    → cap_check
        (exec_caps authenticated (lookup (load vfs (some files)) (dir ++ 47 ∷ n ∷ ns)))
        table_size
        k
        w
      ≡ permitted_to_all k w
unfolding load find_entry allowed
image-no_policy vfs files dir n ns authenticated k w is_name slashless others ne =
    let missed = loop_misses vfs (n ∷ ns) is_name files [] others refl in
    let e : lookup (load vfs (some files)) (dir ++ 47 ∷ n ∷ ns) ≡ none =
      lookup-find_entry vfs files dir n ns slashless ∙ missed in
    image-permitted vfs (some files) (dir ++ 47 ∷ n ∷ ns) authenticated k w ne
    ∙ ap (λ p. permitted_to_all k w || allowed authenticated p k w) e
    ∙ ground arith
