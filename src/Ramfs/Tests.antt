-- ===== src/Ramfs/Tests.antt =====
-- The files of kernel/fs/ramfs.c at concrete tables, and their theorems there.
use exec_aegis.Base.{
  ℕ, ◌-◌, ◌≡◌, refl, true, none, some, List, [], ◌∷◌, min, length, take, drop, replicate,
}
use exec_aegis.Ramfs.{File, ok, free_file, write, read, max_size}
use exec_aegis.Ramfs.Files.{write-read}

-- A table with the file "ab" in its second slot.
abbrev file : File
file = record { name = 97 ∷ 98 ∷ []; page = none; size = 0; in_use = true }

abbrev files : List File
files = free_file ∷ file ∷ free_file ∷ []

abbrev three : List ℕ
three = 1 ∷ 2 ∷ 3 ∷ []

write-read_example :
    let kept = take max_size three in
    ((write file (some (replicate 4096 0)) 8191 three).1 ≡ ok (length kept))
    × (read (write file (some (replicate 4096 0)) 8191 three).0 1 9
        ≡ take (min 9 (length kept - 1)) (drop 1 kept))
write-read_example =
    write-read file (some (replicate 4096 0)) (replicate 4096 0) three 8191 1 9 refl refl
