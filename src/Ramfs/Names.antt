-- ===== src/Ramfs/Names.antt =====
-- Finding files by name (kernel/fs/ramfs.c).
use exec_aegis.Base.{
  ℕ, zero, suc, ◌+◌, ◌≤◌, ◌<◌, ◌≡◌, refl, sym, ap, ◌∙◌, Bool, true, false, ◌&&◌, not, none, some,
  List, [], ◌∷◌, arith, leb, ◌==◌, length, take, length-take, Bool-cases, inl, inr,
}
use exec_aegis.Ramfs.{
  File, streq, strcpy, find, alloc, open_file, opened, ok, errno, enoent, enomem,
}

pub streq_self : (a : List ℕ) → streq a a ≡ true
unfolding streq
streq_self [] = refl
streq_self (a ∷ as') = let ih = streq_self as' in ground (arith, ih)

pub take_all : (n : ℕ) (xs : List ℕ) → length xs ≤ n → take n xs ≡ xs
take_all zero [] le = refl
take_all zero (x ∷ xs) le = absurd (omega arith)
take_all (suc n) [] le = refl
take_all (suc n) (x ∷ xs) le = ap (λ t. x ∷ t) (take_all n xs (omega arith))

-- No byte is a NUL.
unfoldable pub no_nul : List ℕ → Bool
no_nul [] = true
no_nul (a ∷ as') = not (a == 0) && no_nul as'

streq-shorter : (a b : List ℕ) → no_nul b ≡ true → length a < length b → streq a b ≡ false
unfolding streq no_nul
streq-shorter [] [] plain lt = absurd (omega arith)
streq-shorter [] (b ∷ bs) plain lt = ground (arith, plain)
streq-shorter (a ∷ as') [] plain lt = absurd (omega arith)
streq-shorter (a ∷ as') (b ∷ bs) plain lt =
    let ih : no_nul bs ≡ true → length as' < length bs → streq as' bs ≡ false =
      streq-shorter as' bs in
    ground (arith, ih, plain, lt)

-- Every name fits its slot, with the NUL.
unfoldable pub names_fit : List File → Bool
names_fit [] = true
names_fit (f ∷ fs) = leb (length f.name) 63 && names_fit fs

find-skip :
    (f : File) (fs : List File) (i : ℕ) (name : List ℕ)
    → (f.in_use && streq f.name name) ≡ false
    → find (f ∷ fs) i name ≡ find fs (i + 1) name
unfolding find
find-skip f fs i name other = ground (arith, other)

alloc-used :
    (f : File) (fs : List File) (i : ℕ) (name : List ℕ)
    → f.in_use ≡ true
    → alloc (f ∷ fs) i name ≡ (f ∷ (alloc fs (i + 1) name).0, (alloc fs (i + 1) name).1)
unfolding alloc
alloc-used f fs i name used = ground (arith, used)

-- A file that has been taken is found, if its name was not cut.
pub alloc-find :
    (fs : List File) (i j : ℕ) (name : List ℕ)
    → length name ≤ 63
    → find fs i name ≡ none
    → (alloc fs i name).1 ≡ some j
    → find (alloc fs i name).0 i name ≡ some j
unfolding alloc find strcpy
alloc-find [] i j name le missing e = absurd (cc e)
alloc-find (f ∷ fs) i j name le missing e = elim (Bool-cases f.in_use) [
  | inr free ↦
      let e' : some i ≡ some j = rw (alloc, free) at e in
      rw (alloc, free, find, strcpy, take_all 63 name le, streq_self name) e'
  | inl used ↦
      let other : (f.in_use && streq f.name name) ≡ false = ground (arith, missing, used) in
      let step = find-skip f fs i name other in
      let m : find fs (i + 1) name ≡ none = sym step ∙ missing in
      let taken = alloc-used f fs i name used in
      let e' : (alloc fs (i + 1) name).1 ≡ some j = ap (λ r. r.1) (sym taken) ∙ e in
      let gs = (alloc fs (i + 1) name).0 in
      rw taken (find-skip f gs i name other ∙ alloc-find fs (i + 1) j name le m e')
]

long_name-find :
    (fs : List File) (i : ℕ) (name : List ℕ)
    → names_fit fs ≡ true
    → no_nul name ≡ true
    → 63 < length name
    → find fs i name ≡ none
unfolding find names_fit
long_name-find [] i name fit nul long = refl
long_name-find (f ∷ fs) i name fit nul long =
    let ih = long_name-find fs (i + 1) name (ground (arith, fit)) nul long in
    let other = streq-shorter f.name name nul (ground (arith, fit, long)) in
    ground (arith, ih, other)

alloc-names_fit :
    (fs : List File) (i : ℕ) (name : List ℕ)
    → names_fit fs ≡ true
    → names_fit (alloc fs i name).0 ≡ true
unfolding alloc names_fit strcpy
alloc-names_fit [] i name fit = refl
alloc-names_fit (f ∷ fs) i name fit =
    let ih = alloc-names_fit fs (i + 1) name (ground (arith, fit)) in
    let short = length-take 63 name in ground (arith, fit, ih, short)

alloc-unnamed :
    (fs : List File) (i : ℕ) (name : List ℕ)
    → names_fit fs ≡ true
    → no_nul name ≡ true
    → 63 < length name
    → find (alloc fs i name).0 i name ≡ none
alloc-unnamed fs i name fit plain long =
    long_name-find (alloc fs i name).0 i name (alloc-names_fit fs i name fit) plain long

create_missing :
    (fs : List File) (name : List ℕ) (j : ℕ)
    → find fs 0 name ≡ none
    → (alloc fs 0 name).1 ≡ some j
    → open_file fs name true ≡ opened (alloc fs 0 name).0 (some j) enomem
unfolding open_file
create_missing fs name j missing e = rw (open_file, missing, e) refl

open_found :
    (fs : List File) (name : List ℕ) (j : ℕ)
    → find fs 0 name ≡ some j
    → open_file fs name false ≡ opened fs (some j) enoent
unfolding open_file
open_found fs name j found = rw (open_file, found) refl

-- A file that is opened with VFS_O_CREAT under a name of 63 bytes at most that no file has, while a slot is
-- free, takes that slot; opened again without VFS_O_CREAT it gives the same handle and changes nothing.
pub open_file-created :
    (fs : List File) (name : List ℕ) (j : ℕ)
    → length name ≤ 63
    → find fs 0 name ≡ none
    → (alloc fs 0 name).1 ≡ some j
    → let first = open_file fs name true in
      let second = open_file first.0 name false in
      (first.1.0 ≡ ok 0) × (first.1.1.file ≡ j) × (second.1 ≡ first.1) × (second.0 ≡ first.0)
unfolding opened
open_file-created fs name j le missing e =
    let gs = (alloc fs 0 name).0 in
    let found : find gs 0 name ≡ some j = alloc-find fs 0 j name le missing e in
    rw (create_missing fs name j missing e, open_found gs name j found) (refl, refl, refl, refl)

-- In a table whose names have 63 bytes at most, a file that is created in a free slot under a longer name
-- without a NUL is not found under it: the open with VFS_O_CREAT succeeds and one without it fails then
-- with ENOENT.
open_file-long_name :
    (fs : List File) (name : List ℕ) (j : ℕ)
    → names_fit fs ≡ true
    → no_nul name ≡ true
    → 63 < length name
    → (alloc fs 0 name).1 ≡ some j
    → let first = open_file fs name true in
      (first.1.0 ≡ ok 0) × ((open_file first.0 name false).1.0 ≡ errno enoent)
unfolding open_file opened
open_file-long_name fs name j fit plain long e =
    let missing = long_name-find fs 0 name fit plain long in
    let lost = alloc-unnamed fs 0 name fit plain long in
    rw (open_file, missing, e, lost) (refl, refl)
