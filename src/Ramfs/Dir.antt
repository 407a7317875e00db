-- ===== src/Ramfs/Dir.antt =====
-- Listing the files (kernel/fs/ramfs.c).
use exec_aegis.Base.{
  ℕ, zero, suc, ◌+◌, ◌<◌, ◌≡◌, refl, sym, ap, ◌∙◌, true, none, List, [], ◌∷◌, arith, if◌then◌else◌,
  get_elem?,
}
use exec_aegis.Ramfs.{File, strcpy, readdir_from, readdir}
use exec_aegis.Ramfs.Names.{names_fit, take_all}

-- The names of the files in use, in the order of their slots.
unfoldable pub names_in_use : List File → List (List ℕ)
names_in_use [] = []
names_in_use (f ∷ fs) = if f.in_use then f.name ∷ names_in_use fs else names_in_use fs

readdir_from-passed :
    (fs : List File) (found index : ℕ) → index < found → readdir_from fs found index ≡ none
unfolding readdir_from
readdir_from-passed [] found index lt = refl
readdir_from-passed (f ∷ fs) found index lt =
    let same = readdir_from-passed fs found index lt in
    let next = readdir_from-passed fs (found + 1) index (omega arith) in
    ground (arith, same, next, lt)

readdir_from-names :
    (fs : List File) (found n : ℕ)
    → names_fit fs ≡ true
    → readdir_from fs found (found + n) ≡ get_elem? (names_in_use fs) n
unfolding readdir_from names_in_use names_fit strcpy
readdir_from-names [] found n fit = refl
readdir_from-names (f ∷ fs) found zero fit =
    let here : found + 0 ≡ found = omega arith in
    let ih = readdir_from-names fs found 0 (ground (arith, fit)) in
    let whole = take_all 63 f.name (ground (arith, fit)) in ground (arith, here, ih, whole)
readdir_from-names (f ∷ fs) found (suc n) fit =
    let same = readdir_from-names fs found (suc n) (ground (arith, fit)) in
    let shift : (found + 1) + n ≡ found + suc n = omega arith in
    let next : readdir_from fs (found + 1) (found + suc n) ≡ get_elem? (names_in_use fs) n =
      rw (← shift) (readdir_from-names fs (found + 1) n (ground (arith, fit))) in
    ground (arith, same, next)

-- In a table whose names have 63 bytes at most, the directory read by index lists the names of the files in
-- use, in the order of their slots, and then ends.
pub readdir-names :
    (fs : List File) (index : ℕ)
    → names_fit fs ≡ true
    → readdir fs index ≡ get_elem? (names_in_use fs) index
unfolding readdir
readdir-names fs index fit =
    let from_start : 0 + index ≡ index = omega arith in
    ap (readdir_from fs 0) (sym from_start) ∙ readdir_from-names fs 0 index fit
