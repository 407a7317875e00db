-- ===== src/Mmap/Table.antt =====
-- mmap, munmap and the table of ranges: composition with kernel/mm/vma.c.
use exec_aegis.Base.{
  ℕ, ◌+◌, ◌-◌, ◌^◌, ◌≤◌, ◌<◌, ◌≡◌, refl, ap, sym, subst, ◌∙◌, true, false, inl, inr, Option, none,
  some, List, [], ◌∷◌, length, if◌then◌else◌, arith, leb, Bool-cases,
}
use exec_aegis.Ranges.{Range}
use exec_aegis.Vma
use exec_aegis.Vma.{insert_entries, remove_entries}
use exec_aegis.Vma.Lookup.{inside, lookup, Sorted}
use exec_aegis.Vma.Insert.{Free, insert-lookup}
use exec_aegis.Vma.Bounds.{insert_entries-fit}
use exec_aegis.Vma.Remove.{remove-lookup}
use exec_aegis.Mmap.{page_up, Proc, UserPages}
use exec_aegis.Mmap.Calls.{
  user_addr_max, File, Placed, refused, place_anywhere, advance_base, insert_range, remove_range,
}
use exec_aegis.Mmap.System.{sys_mmap, sys_munmap}
use exec_aegis.Mmap.Outcome.{
  Ends, failed, mapped, After, no_address, address, Outcome, rejected, tried, sys_mmap-Outcome,
  Unmapped, refuses, unmaps, sys_munmap-Unmapped,
}

-- The kernel does not look for a hole in the table.
place_anywhere-ranges : (len : ℕ) (p : Proc) → (place_anywhere 0 len p).0.ranges ≡ p.ranges
unfolding place_anywhere
place_anywhere-ranges len p = ground arith

-- Nothing is mapped where a range is free.
Free-lookup :
    (x : Vma.Entry) (es : List Vma.Entry) (a : ℕ)
    → Free x es
    → inside x.base x.len a ≡ true
    → lookup es a ≡ none
unfolding lookup
Free-lookup x [] a f h = refl
Free-lookup x (e ∷ es) a f h =
    let later = Free-lookup x es a f.1 h in let apart = f.0 in ground arith

-- What a successful mmap did to the table.
record Inserts (r : Vma.Proc) (n len prot : ℕ) (r' : Vma.Proc) : Type 0 where
  kind : ℕ
  some_pages : 0 < len
  inserted : r' ≡ Vma.insert r n len prot kind

After-Inserts :
    (prot len : ℕ) (old : Vma.Proc) (r : Proc × Placed) (p' : Proc) (n : ℕ)
    → r.0.ranges ≡ old
    → 0 < len
    → n ≤ user_addr_max
    → (r.1 ≡ refused n → user_addr_max < n)
    → After prot len r p' n
    → Inserts old n len prot p'.ranges
unfolding insert_range advance_base
After-Inserts prot len old r p' n same pos user bad (no_address err) =
    absurd (let b = bad refl in omega arith)
After-Inserts prot len old r p' n same pos user bad (address b (failed k big)) =
    absurd (omega arith)
After-Inserts prot len old r p' n same pos user bad (address b (mapped kind)) = record {
  kind = kind;
  some_pages = pos;
  inserted = ap (λ t. Vma.insert t n len prot kind) same;
}

refused_big : (len n : ℕ) (p : Proc) → (place_anywhere 0 len p).1 ≡ refused n → user_addr_max < n
unfolding place_anywhere
refused_big len n p h = ground arith

Outcome-Inserts :
    (p p' : Proc) (len prot n : ℕ)
    → n ≤ user_addr_max
    → Outcome p len prot p' n
    → Inserts p.ranges n len prot p'.ranges
Outcome-Inserts p p' len prot n user rejected = absurd (omega arith)
Outcome-Inserts p p' len prot n user (tried pos a) =
    After-Inserts prot len p.ranges (place_anywhere 0 len p) p' n (place_anywhere-ranges len p) pos
      user (refused_big len n p) a

Unmapped-ranges :
    (p p' : Proc) (x : Range)
    → Unmapped p x p' 0
    → (x.base + x.size ≤ user_addr_max) × (p'.ranges ≡ Vma.remove p.ranges x.base x.size)
unfolding remove_range
Unmapped-ranges p p' x u = from_case p' 0 u refl
  where
    from_case :
        (q : Proc) (n : ℕ)
        → Unmapped p x q n
        → n ≡ 0
        → (x.base + x.size ≤ user_addr_max) × (q.ranges ≡ Vma.remove p.ranges x.base x.size)
    from_case q n refuses z = absurd (omega arith)
    from_case q n (unmaps al fits) z = (fits, refl)

-- A range inserted into a table and taken out again.
entries_restored :
    (capacity a : ℕ) (es : List Vma.Entry) (x : Vma.Entry)
    → 0 < x.len
    → x.base + x.len < 2 ^ 64
    → Sorted 0 es
    → Free x es
    → length (insert_entries false es x) < capacity
    → lookup (remove_entries capacity (insert_entries false es x) x.base x.len) a ≡ lookup es a
entries_restored capacity a es x pos fits s f room =
    let inserted = insert-lookup false es x pos fits s f in
    let removed =
      remove-lookup capacity x.base x.len (insert_entries false es x) pos fits inserted.0 in
    elim (Bool-cases (inside x.base x.len a)) [
      | inl h ↦ ground (arith, removed.1 room a, Free-lookup x es a f h)
      | inr h ↦ ground (arith, removed.1 room a, inserted.1 refl a)
    ]

-- A table with room, sorted, in which a range is free.
pub record Ready (r : Vma.Proc) (base len : ℕ) : Type 0 where
  pub table : ℕ
  pub has_table : r.vma_table ≡ some table
  pub sorted : Sorted 0 r.entries
  pub free : Free (record { base = base; len = len; prot = 0; kind = 0 }) r.entries
  pub room : length r.entries + 1 < r.capacity

-- The same on a process's table: what is mapped in between, and what is left.
module _ (r : Vma.Proc) (base len : ℕ) (ready : Ready r base len) (pos : 0 < len)
    (fits : base + len < 2 ^ 64) (prot kind : ℕ) where
  abbrev x : Vma.Entry
  x = record { base = base; len = len; prot = prot; kind = kind }

  not_full : leb r.capacity (length r.entries) ≡ false
  not_full = ground (arith, ready.room)

  insert-eq :
      Vma.insert r base len prot kind ≡ record r { entries = insert_entries false r.entries x }
  unfolding Vma.insert Vma.with_table
  insert-eq = rw (ready.has_table, not_full) refl

  room_left : length (insert_entries false r.entries x) < r.capacity
  room_left =
      let room = ready.room in
      let full : leb (r.capacity - 1) (length r.entries) ≡ false = ground arith in
      let fit : length (insert_entries (leb (r.capacity - 1) (length r.entries)) r.entries x)
          ≤ r.capacity - 1 =
        insert_entries-fit (r.capacity - 1) r.entries x (omega arith) in
      let fit' : length (insert_entries false r.entries x) ≤ r.capacity - 1 =
        subst (λ b. length (insert_entries b r.entries x) ≤ r.capacity - 1) full fit in
      omega arith

  mapped_after :
      (a : ℕ)
      → lookup (Vma.insert r base len prot kind).entries a
        ≡ (if inside base len a then some (prot, kind) else lookup r.entries a)
  mapped_after a =
      rw insert-eq ((insert-lookup false r.entries x pos fits ready.sorted ready.free).1 refl a)

  removed_entries :
      (q : Vma.Proc)
      → q.vma_table ≡ r.vma_table
      → (Vma.remove q base len).entries ≡ remove_entries q.capacity q.entries base len
  unfolding Vma.remove Vma.with_table
  removed_entries q h =
      let has : q.vma_table ≡ some ready.table = h ∙ ready.has_table in rw has refl

  restored :
      (a : ℕ)
      → lookup (Vma.remove (Vma.insert r base len prot kind) base len).entries a
        ≡ lookup r.entries a
  restored a =
      let q = record r { entries = insert_entries false r.entries x } in
      subst (λ q. lookup (Vma.remove q base len).entries a ≡ lookup r.entries a) (sym insert-eq)
        (ap (λ es. lookup es a) (removed_entries q refl)
          ∙ entries_restored r.capacity a r.entries x pos fits ready.sorted ready.free room_left)

-- A call of mmap with address 0 that returned an address `n`, followed by a call of munmap for `n` and
-- the same length that returned 0, whatever the protection, the flags, the descriptor and the pages: in
-- between, the process's table says of exactly the addresses of the mapping, rounded up to whole pages,
-- that they have the protection asked for and one and the same kind, and of every other address what it
-- said before; afterwards it says of every address what it said before. This wants a sorted table with
-- room for two more entries and no entry in the range that mmap chose.
pub mmap-munmap :
    {M : Type 0} (ops : UserPages M) (fds : ℕ → Option File) (bytes prot flags fd off n : ℕ)
    (p p' p'' : Proc) (m m' m'' : M)
    → sys_mmap ops fds 0 bytes prot flags fd off p m ≡ some (p', m', n)
    → n ≤ user_addr_max
    → sys_munmap ops n bytes p' m' ≡ some (p'', m'', 0)
    → Ready p.ranges n (page_up bytes)
    → (kind : ℕ) × ((a : ℕ)
        → lookup p'.ranges.entries a
          ≡ (if inside n (page_up bytes) a then some (prot, kind) else lookup p.ranges.entries a))
      × ((a : ℕ) → lookup p''.ranges.entries a ≡ lookup p.ranges.entries a)
mmap-munmap ops fds bytes prot flags fd off n p p' p'' m m' m'' e user e' ready =
    let len = page_up bytes in
    let i = Outcome-Inserts p p' len prot n user (
      subst (λ r. Ends (Outcome p len prot) r) e
        (sys_mmap-Outcome ops fds bytes prot flags fd off p m)) in
    let u =
      Unmapped-ranges p' p'' (record { base = n; size = len })
        (subst (λ r. Ends (Unmapped p' (record { base = n; size = len })) r) e'
          (sys_munmap-Unmapped ops n bytes p' m')) in
    let fits : n + len < 2 ^ 64 = omega (arith, u.0) in
    (
      i.kind,
      λ a. rw (i.inserted) (mapped_after p.ranges n len ready i.some_pages fits prot i.kind a),
      λ a. rw (u.1, i.inserted) (restored p.ranges n len ready i.some_pages fits prot i.kind a),
    )
