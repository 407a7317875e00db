-- ===== src/Ramfs.antt =====
-- kernel/fs/ramfs.c and ramfs.h: a file system in memory, with one table of 32 files of a page at most.
-- A name is the list of its bytes before the NUL. A handle names a file by its slot. A null page is `none`;
-- `page` is what the allocator gives, and holds what the page held. The lock makes each call atomic.
use exec_aegis.Base.{
  ℕ, zero, suc, ◌+◌, ◌-◌, ◌%◌, Bool, true, false, ◌&&◌, ◌||◌, not, Option, none, some, List, [],
  ◌∷◌, ◌++◌, ltb, leb, ◌==◌, if◌then◌else◌, min, length, take, drop, replicate,
}
pub mod Names
pub mod Files
pub mod Dir
mod Tests

abbrev pub max_files : ℕ
max_files = 32

abbrev pub max_namelen : ℕ
max_namelen = 64

abbrev pub max_size : ℕ
max_size = 4096

-- `ramfs_file_t`
pub record File : Type 0 where
  pub name : List ℕ
  pub page : Option (List ℕ)
  pub size : ℕ
  pub in_use : Bool

-- A negative result of a call.
abbrev pub enoent : ℕ
enoent = 2

abbrev pub enomem : ℕ
enomem = 12

pub data Result : Type 0 where
  ok : ℕ → Result
  errno : ℕ → Result

-- `rfs_streq`: the loop stops at a NUL or at a difference; then the bytes are compared.
unfoldable pub streq : List ℕ → List ℕ → Bool
streq [] [] = true
streq [] (b ∷ bs) = 0 == b
streq (a ∷ as') [] = a == 0
streq (a ∷ as') (b ∷ bs) =
    let rest = streq as' bs in if not (a == 0) && not (b == 0) && a == b then rest else a == b

-- `rfs_strcpy`: at most `max - 1` bytes.
unfoldable pub strcpy : List ℕ → ℕ → List ℕ
strcpy src max = take (max - 1) src

-- The loop of `rfs_find` over the files from slot `i`.
unfoldable pub find : List File → ℕ → List ℕ → Option ℕ
find [] i name = none
find (f ∷ fs) i name =
    let later = find fs (i + 1) name in if f.in_use && streq f.name name then some i else later

-- `rfs_alloc`: the files with the first free slot taken, and the slot.
unfoldable pub alloc : List File → ℕ → List ℕ → List File × Option ℕ
alloc [] i name = ([], none)
alloc (f ∷ fs) i name =
    let later = alloc fs (i + 1) name in
    if not f.in_use
    then (
      record { name = strcpy name max_namelen; page = none; size = 0; in_use = true } ∷ fs,
      some i,
    )
    else (f ∷ later.0, later.1)

abbrev pub free_file : File
free_file = record { name = []; page = none; size = 0; in_use = false }

unfoldable pub init : List File
init = replicate max_files free_file

-- A handle: the slot of its file, and the size at the time.
pub record Handle : Type 0 where
  pub file : ℕ
  pub size : ℕ

unfoldable pub size_at : List File → ℕ → ℕ
size_at [] i = 0
size_at (f ∷ fs) zero = f.size
size_at (f ∷ fs) (suc i) = size_at fs i

unfoldable pub opened : List File → Option ℕ → ℕ → List File × (Result × Handle)
opened fs none errno_ = (fs, (errno errno_, record { file = 0; size = 0 }))
opened fs (some i) errno_ = (fs, (ok 0, record { file = i; size = size_at fs i }))

-- `create` is the flag VFS_O_CREAT.
unfoldable pub open_file : List File → List ℕ → Bool → List File × (Result × Handle)
open_file fs name create = elim (find fs 0 name) [
  | some i ↦ opened fs (some i) enoent
  | none ↦
      if not create
      then opened fs none enoent
      else opened (alloc fs 0 name).0 (alloc fs 0 name).1 enomem
]

-- `ramfs_read_fn`: the bytes read.
unfoldable pub read : File → ℕ → ℕ → List ℕ
read f off len = elim f.page [
  | none ↦ []
  | some page ↦ if leb f.size off then [] else take (min len (f.size - off)) (drop off page)
]

-- The copy of `bytes` to the start of a page.
unfoldable pub copy_to : List ℕ → List ℕ → List ℕ
copy_to [] page = page
copy_to (b ∷ bs) [] = []
copy_to (b ∷ bs) (p ∷ page) = b ∷ copy_to bs page

unfoldable pub copy_at : ℕ → List ℕ → List ℕ → List ℕ
copy_at zero bytes page = copy_to bytes page
copy_at (suc n) bytes [] = []
copy_at (suc n) bytes (p ∷ page) = p ∷ copy_at n bytes page

-- The loop of `ramfs_write_fn`: `rest` is at the address `addr`, and goes to `done` in the page. A chunk
-- ends where the page that it is read from ends.
unfoldable pub copy_chunks : ℕ → ℕ → ℕ → List ℕ → List ℕ → List ℕ
copy_chunks zero addr done rest page = page
copy_chunks (suc fuel) addr done [] page = page
copy_chunks (suc fuel) addr done (b ∷ rest) page =
    let chunk = min (length (b ∷ rest)) (4096 - addr % 4096) in
    copy_chunks fuel (addr + chunk) (done + chunk) (drop chunk (b ∷ rest))
      (copy_at done (take chunk (b ∷ rest)) page)

-- `ramfs_write_fn` of the bytes at `addr`; the allocator's page is used if the file has none.
unfoldable pub write_page : File → Option (List ℕ) → ℕ → List ℕ → File × Result
write_page f none addr bytes = (f, errno enomem)
write_page f (some page) addr bytes =
    let len = length bytes in
    (
      record {
        name = f.name;
        page = some (copy_chunks len addr 0 bytes page);
        size = len;
        in_use = f.in_use;
      },
      ok len,
    )

abbrev pub page_of : File → Option (List ℕ) → Option (List ℕ)
page_of f page = elim f.page [ none ↦ page | some p ↦ some p ]

unfoldable pub write : File → Option (List ℕ) → ℕ → List ℕ → File × Result
write f page addr bytes = write_page f (page_of f page) addr (take max_size bytes)

unfoldable pub set_file : List File → ℕ → File → List File
set_file [] i g = []
set_file (f ∷ fs) zero g = g ∷ fs
set_file (f ∷ fs) (suc i) g = f ∷ set_file fs i g

unfoldable pub file_at : List File → ℕ → File
file_at [] i = free_file
file_at (f ∷ fs) zero = f
file_at (f ∷ fs) (suc i) = file_at fs i

-- `ramfs_populate` once the slot is known.
unfoldable pub populate_page : File → Option (List ℕ) → List ℕ → File × Result
populate_page f none bytes = (f, errno enomem)
populate_page f (some page) bytes = (
  record {
    name = f.name;
    page = some (copy_to (take max_size bytes) page);
    size = length (take max_size bytes);
    in_use = f.in_use;
  },
  ok 0,
)

unfoldable pub populate_file : File → Option (List ℕ) → List ℕ → File × Result
populate_file f page [] =
    (record { name = f.name; page = f.page; size = 0; in_use = f.in_use }, ok 0)
populate_file f page (b ∷ bytes) = populate_page f (page_of f page) (b ∷ bytes)

unfoldable pub populate_at : List File → Option ℕ → Option (List ℕ) → List ℕ → List File × Result
populate_at fs none page bytes = (fs, errno enomem)
populate_at fs (some i) page bytes =
    let r = populate_file (file_at fs i) page bytes in (set_file fs i r.0, r.1)

unfoldable pub populate : List File → List ℕ → Option (List ℕ) → List ℕ → List File × Result
populate fs name page bytes = elim (find fs 0 name) [
  | some i ↦ populate_at fs (some i) page bytes
  | none ↦ populate_at (alloc fs 0 name).0 (alloc fs 0 name).1 page bytes
]

-- `ramfs_stat`: the size.
unfoldable pub stat : List File → List ℕ → Result
stat fs name = elim (find fs 0 name) [ none ↦ errno enoent | some i ↦ ok (size_at fs i) ]

-- `ramfs_dir_readdir_fn`: the name of the file in use with that index, `found` having been passed.
unfoldable pub readdir_from : List File → ℕ → ℕ → Option (List ℕ)
readdir_from [] found index = none
readdir_from (f ∷ fs) found index =
    let later = readdir_from fs (if f.in_use then found + 1 else found) index in
    if not f.in_use
    then later
    else if found == index
    then some (strcpy f.name max_namelen)
    else later

unfoldable pub readdir : List File → ℕ → Option (List ℕ)
readdir fs index = readdir_from fs 0 index
