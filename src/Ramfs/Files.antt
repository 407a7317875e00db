-- ===== src/Ramfs/Files.antt =====
-- Writing and reading a file (kernel/fs/ramfs.c).
use exec_aegis.Base.{
  ℕ, zero, suc, ◌+◌, ◌-◌, ◌%◌, ◌≤◌, ◌≡◌, refl, sym, ap, ◌∙◌, true, false, Option, some, List, [],
  ◌∷◌, arith, leb, min, length, length-take, take, drop,
}
use native.Mathlib.Decide.{dec_lt}
use exec_aegis.Ramfs.{
  File, ok, max_size, copy_to, copy_at, copy_chunks, page_of, write_page, write, read,
  populate_page, populate_file,
}

length-drop : (n : ℕ) (xs : List ℕ) → length (drop n xs) ≡ length xs - n
length-drop zero xs = omega arith
length-drop (suc n) [] = omega arith
length-drop (suc n) (x ∷ xs) = omega (arith, length-drop n xs)

-- A copy in two parts is the copy of the whole.
copy_to-split :
    (n : ℕ) (bytes page : List ℕ)
    → n ≤ length bytes
    → copy_at n (drop n bytes) (copy_to (take n bytes) page) ≡ copy_to bytes page
unfolding copy_to copy_at
copy_to-split zero bytes page le = refl
copy_to-split (suc n) [] page le = absurd (omega arith)
copy_to-split (suc n) (b ∷ bytes) [] le = refl
copy_to-split (suc n) (b ∷ bytes) (p ∷ page) le =
    ap (λ t. b ∷ t) (copy_to-split n bytes page (omega arith))

copy_at-split :
    (done n : ℕ) (bytes page : List ℕ)
    → n ≤ length bytes
    → copy_at (done + n) (drop n bytes) (copy_at done (take n bytes) page) ≡ copy_at done bytes page
unfolding copy_at
copy_at-split zero n bytes page le =
    let none_done : 0 + n ≡ n = omega arith in rw none_done (copy_to-split n bytes page le)
copy_at-split (suc done) n bytes [] le =
    let next : suc done + n ≡ suc (done + n) = omega arith in rw next refl
copy_at-split (suc done) n bytes (p ∷ page) le =
    let next : suc done + n ≡ suc (done + n) = omega arith in
    rw next (ap (λ t. p ∷ t) (copy_at-split done n bytes page le))

copy_at-nil : (done : ℕ) (page : List ℕ) → copy_at done [] page ≡ page
unfolding copy_at copy_to
copy_at-nil zero page = refl
copy_at-nil (suc done) [] = refl
copy_at-nil (suc done) (p ∷ page) = ap (λ t. p ∷ t) (copy_at-nil done page)

-- The loop over chunks copies the whole, wherever the buffer lies, in as many rounds as there are bytes.
copy_chunks-copy_at :
    (fuel addr done : ℕ) (bytes page : List ℕ)
    → length bytes ≤ fuel
    → copy_chunks fuel addr done bytes page ≡ copy_at done bytes page
unfolding copy_chunks
copy_chunks-copy_at zero addr done [] page le = sym (copy_at-nil done page)
copy_chunks-copy_at zero addr done (b ∷ rest) page le = absurd (omega arith)
copy_chunks-copy_at (suc fuel) addr done [] page le = sym (copy_at-nil done page)
copy_chunks-copy_at (suc fuel) addr done (b ∷ rest) page le =
    let chunk = min (length (b ∷ rest)) (4096 - addr % 4096) in
    copy_chunks-copy_at fuel (addr + chunk) (done + chunk) (drop chunk (b ∷ rest))
      (copy_at done (take chunk (b ∷ rest)) page) (omega (arith, length-drop chunk (b ∷ rest)))
    ∙ copy_at-split done chunk (b ∷ rest) page (omega arith)

take-copy_to :
    (n off : ℕ) (bytes page : List ℕ)
    → length bytes ≤ length page
    → n + off ≤ length bytes
    → take n (drop off (copy_to bytes page)) ≡ take n (drop off bytes)
unfolding copy_to
take-copy_to zero off bytes page fits le = refl
take-copy_to (suc n) zero [] page fits le = absurd (omega arith)
take-copy_to (suc n) zero (b ∷ bytes) [] fits le = absurd (omega arith)
take-copy_to (suc n) zero (b ∷ bytes) (p ∷ page) fits le =
    ap (λ t. b ∷ t) (take-copy_to n zero bytes page (omega arith) (omega arith))
take-copy_to (suc n) (suc off) [] page fits le = absurd (omega arith)
take-copy_to (suc n) (suc off) (b ∷ bytes) [] fits le = absurd (omega arith)
take-copy_to (suc n) (suc off) (b ∷ bytes) (p ∷ page) fits le =
    take-copy_to (suc n) off bytes page (omega arith) (omega arith)

length-copy_to : (bytes page : List ℕ) → length (copy_to bytes page) ≡ length page
unfolding copy_to
length-copy_to [] page = refl
length-copy_to (b ∷ bytes) [] = refl
length-copy_to (b ∷ bytes) (p ∷ page) = ap suc (length-copy_to bytes page)

copy_chunks-copy_to :
    (fuel addr : ℕ) (bytes page : List ℕ)
    → length bytes ≤ fuel
    → copy_chunks fuel addr 0 bytes page ≡ copy_to bytes page
unfolding copy_at
copy_chunks-copy_to fuel addr bytes page le = copy_chunks-copy_at fuel addr 0 bytes page le

-- The file after a write to a page.
write_page-read :
    (f : File) (page bytes : List ℕ) (addr off len : ℕ)
    → length bytes ≤ length page
    → read (write_page f (some page) addr bytes).0 off len
      ≡ take (min len (length bytes - off)) (drop off bytes)
unfolding write_page read
write_page-read f page bytes addr off len fits =
    let n = length bytes in
    let copied = copy_chunks-copy_to n addr bytes page (omega arith) in
    elim (dec_lt off n) [
      | yes lt ↦
          let inside : leb n off ≡ false = ground (arith, lt) in
          rw (inside, copied) (take-copy_to (min len (n - off)) off bytes page fits (omega arith))
      | no le ↦
          let past : leb n off ≡ true = ground (arith, le) in
          let nothing : min len (n - off) ≡ 0 = omega arith in rw (past, nothing) refl
    ]

write_page-ok :
    (f : File) (page bytes : List ℕ) (addr : ℕ)
    → (write_page f (some page) addr bytes).1 ≡ ok (length bytes)
unfolding write_page
write_page-ok f page bytes addr = refl

write_page-populate :
    (f : File) (page bytes : List ℕ) (addr : ℕ)
    → (write_page f (some page) addr (take max_size bytes)).0
      ≡ (populate_page f (some page) bytes).0
unfolding write_page populate_page
write_page-populate f page bytes addr =
    let kept = take max_size bytes in
    let copied = copy_chunks-copy_to (length kept) addr kept page (omega arith) in rw copied refl

-- A write to a file that has a page, or is given one, succeeds with the number of bytes, 4096 at most, wherever
-- the buffer lies. A read at any offset then gives those bytes from there on, as many as asked for or left.
pub write-read :
    (f : File) (given : Option (List ℕ)) (page bytes : List ℕ) (addr off len : ℕ)
    → page_of f given ≡ some page
    → length page ≡ max_size
    → let kept = take max_size bytes in
      ((write f given addr bytes).1 ≡ ok (length kept))
      × (read (write f given addr bytes).0 off len
          ≡ take (min len (length kept - off)) (drop off kept))
unfolding write
write-read f given page bytes addr off len has full =
    let kept = take max_size bytes in
    let fits : length kept ≤ length page = omega (arith, length-take max_size bytes, full) in
    rw (write, has) (write_page-ok f page kept addr, write_page-read f page kept addr off len fits)

-- In a file that has a page, or is given one, a write of one byte or more from user memory leaves the same
-- file as populating it with those bytes from kernel memory.
pub write-populate :
    (f : File) (given : Option (List ℕ)) (page : List ℕ) (b : ℕ) (bytes : List ℕ) (addr : ℕ)
    → page_of f given ≡ some page
    → (write f given addr (b ∷ bytes)).0 ≡ (populate_file f given (b ∷ bytes)).0
unfolding write populate_file
write-populate f given page b bytes addr has =
    let kept = take max_size (b ∷ bytes) in
    rw (write, populate_file, has) (write_page-populate f page (b ∷ bytes) addr)
