-- ===== src/Mmap/Twice.antt =====
-- sys_munmap of kernel/syscall/sys_memory.c does not ask whether the range is mapped: what happens to
-- the free list when the same range is unmapped twice.
use exec_aegis.Base.{
  ℕ, ◌+◌, ◌≤◌, ◌<◌, ◌≡◌, refl, ap, subst, ◌∙◌, true, false, ◌&&◌, ◌||◌, none, some, List, [], ◌∷◌,
  leb, ltb, ◌==◌, u64, arith,
}
use exec_aegis.Ranges.{Range, max_u64, best_fit, remove_at, take_from, alloc, end_of, append_range}
use exec_aegis.Mmap.{page_up, Proc, UserPages, insert_loop, mmap_free_insert, mmap_free_alloc}
use exec_aegis.Mmap.Calls.{user_addr_max, placed, place_anywhere, remove_range}
use exec_aegis.Mmap.System.{sys_munmap}
use exec_aegis.Mmap.Outcome.{Ends, Unmapped, refuses, unmaps, sys_munmap-Unmapped}

module _ (x : Range) (pos : 0 < x.size) (not_null : 0 < x.base)
    (user : x.base + x.size ≤ user_addr_max) where
  insert_first : mmap_free_insert x [] ≡ x ∷ []
  unfolding mmap_free_insert insert_loop append_range
  insert_first = refl

  insert_again : mmap_free_insert x (x ∷ []) ≡ x ∷ x ∷ []
  unfolding mmap_free_insert insert_loop append_range
  insert_again = let apart : (end_of 1 x == x.base) ≡ false = ground arith in rw apart refl

  -- The first of the free ranges fits exactly.
  alloc_first :
      (rest : List Range) → mmap_free_alloc x.size (x ∷ rest) ≡ (x.base, remove_at (x ∷ rest) 0)
  unfolding mmap_free_alloc alloc best_fit take_from
  alloc_first rest =
      let fits : (leb x.size x.size && ltb x.size max_u64) ≡ true = ground arith in
      let exact : (x.size == x.size) ≡ true = ground arith in
      let found : best_fit x.size (x ∷ rest) 0 none max_u64 ≡ some 0 =
        rw (best_fit, fits, exact) refl in
      rw (mmap_free_alloc, alloc, found, take_from, exact) refl

  place_first :
      (rest : List Range) (p : Proc)
      → p.mmap_free ≡ x ∷ rest
      → place_anywhere 0 x.size p ≡ (record p { mmap_free = remove_at (x ∷ rest) 0 }, placed x.base)
  unfolding place_anywhere
  place_first rest p h =
      let found : mmap_free_alloc x.size p.mmap_free ≡ (x.base, remove_at (x ∷ rest) 0) =
        ap (λ fs. mmap_free_alloc x.size fs) h ∙ alloc_first rest in
      let given : (x.base == 0) ≡ false = ground arith in
      let fine : (ltb user_addr_max (u64 (x.base + x.size)) || ltb (u64 (x.base + x.size)) x.base)
          ≡ false =
        ground arith in
      rw (found, given, fine) refl

-- What a call of munmap that returned 0 did to the free list.
freed :
    (p q : Proc) (x : Range)
    → Unmapped p x q 0
    → (x.base + x.size ≤ user_addr_max) × (q.mmap_free ≡ mmap_free_insert x p.mmap_free)
freed p q x u = from_case q 0 u refl
  where
    from_case :
        (q : Proc) (n : ℕ)
        → Unmapped p x q n
        → n ≡ 0
        → (x.base + x.size ≤ user_addr_max) × (q.mmap_free ≡ mmap_free_insert x p.mmap_free)
    from_case q n refuses z = absurd (omega arith)
    from_case q n (unmaps al fits) z = unfold remove_range in (fits, refl)

-- On a process with an empty free list, two calls of munmap for the same range that both return 0, where
-- the range does not begin at 0 and its length rounds to at least a page, leave the range on the free
-- list twice: then mmap with address 0 and that length chooses the range's address, and chooses it again
-- the next time.
pub munmap_twice :
    {M : Type 0} (ops : UserPages M) (addr bytes : ℕ) (p p' p'' : Proc) (m m' m'' : M)
    → p.mmap_free ≡ []
    → 0 < addr
    → 0 < page_up bytes
    → sys_munmap ops addr bytes p m ≡ some (p', m', 0)
    → sys_munmap ops addr bytes p' m' ≡ some (p'', m'', 0)
    → (q r : Proc) × (place_anywhere 0 (page_up bytes) p'' ≡ (q, placed addr))
      × (place_anywhere 0 (page_up bytes) q ≡ (r, placed addr))
unfolding remove_at
munmap_twice ops addr bytes p p' p'' m m' m'' empty not_null pos e e' =
    let x : Range = record { base = addr; size = page_up bytes } in
    let first =
      freed p p' x
        (subst (λ r. Ends (Unmapped p x) r) e (sys_munmap-Unmapped ops addr bytes p m)) in
    let again =
      freed p' p'' x
        (subst (λ r. Ends (Unmapped p' x) r) e' (sys_munmap-Unmapped ops addr bytes p' m')) in
    let user : x.base + x.size ≤ user_addr_max = first.0 in
    let once : p'.mmap_free ≡ x ∷ [] =
      first.1 ∙ ap (λ fs. mmap_free_insert x fs) empty ∙ insert_first x pos not_null user in
    let twice : p''.mmap_free ≡ x ∷ x ∷ [] =
      again.1 ∙ ap (λ fs. mmap_free_insert x fs) once ∙ insert_again x pos not_null user in
    (
      record p'' { mmap_free = remove_at (x ∷ x ∷ []) 0 },
      record p'' { mmap_free = remove_at (x ∷ []) 0 },
      place_first x pos not_null user (x ∷ []) p'' twice,
      place_first x pos not_null user [] (record p'' { mmap_free = remove_at (x ∷ x ∷ []) 0 }) refl,
    )
