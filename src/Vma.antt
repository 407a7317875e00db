-- ===== src/Vma.antt =====
-- kernel/mm/vma.c and vma.h: the table of a process's mapped ranges. The first `vma_count` slots of
-- the table are a list, so shifting slots right and writing one is an insertion in the list, and
-- shifting left a deletion. A loop over the slots is a recursion on the list; it carries the count,
-- against which the code tests the capacity. Addresses are `uint64_t` and wrap.
pub mod Lookup
pub mod Insert
pub mod Remove
pub mod Protect
pub mod Bounds
pub mod Share
mod Tests
use exec_aegis.Base.{
  ℕ, zero, suc, ◌+◌, ◌-◌, ◌^◌, Bool, true, false, ◌&&◌, ◌||◌, Option, none, some, List, [], ◌∷◌,
  length, get_elem?, set, ltb, leb, ◌==◌, if◌then◌else◌, u32, u64,
}

-- `vma_entry_t`
pub record Entry : Type 0 where
  pub base : ℕ
  pub len : ℕ
  pub prot : ℕ
  pub kind : ℕ

-- `VMA_CAPACITY`, a page of 24-byte entries
abbrev pub vma_capacity : ℕ
vma_capacity = 170

-- `e->base + e->len`
abbrev pub end_of : Entry → ℕ
end_of e = u64 (e.base + e.len)

-- `vma_shift_right`, with the write to the slot that it frees
unfoldable pub insert_at : List Entry → ℕ → Entry → List Entry
insert_at es zero x = x ∷ es
insert_at [] (suc i) x = []
insert_at (e ∷ es) (suc i) x = e ∷ insert_at es i x

-- `vma_shift_left`, with the count taken down
unfoldable pub delete_at : List Entry → ℕ → List Entry
delete_at [] i = []
delete_at (e ∷ es) zero = es
delete_at (e ∷ es) (suc i) = e ∷ delete_at es i

unfoldable pub can_merge : Entry → Entry → Bool
can_merge a b = a.prot == b.prot && a.kind == b.kind && end_of a == b.base

-- The first slot whose base is not below `base`.
unfoldable pub find_idx : ℕ → List Entry → ℕ
find_idx base [] = 0
find_idx base (e ∷ es) = let rest = find_idx base es in if ltb e.base base then suc rest else 0

abbrev pub before : List Entry → ℕ → Option Entry
before es zero = none
before es (suc i) = get_elem? es i

-- After the entry before slot `idx` has grown to `p`: merge the entry at `idx` into it too.
unfoldable pub merge_next : List Entry → ℕ → Entry → Option Entry → List Entry
merge_next es idx p none = set es (idx - 1) p
merge_next es idx p (some n) =
    if can_merge p n
    then delete_at (set es (idx - 1) (record p { len = u64 (p.len + n.len) })) idx
    else set es (idx - 1) p

-- No merge with the entry before: merge with the entry after, or insert if the table has room.
unfoldable pub insert_new : Bool → List Entry → ℕ → Entry → Option Entry → List Entry
insert_new full es idx x none = if full then es else insert_at es idx x
insert_new full es idx x (some n) =
    if n.prot == x.prot && n.kind == x.kind && end_of x == n.base
    then set es idx (record n { base = x.base; len = u64 (n.len + x.len) })
    else (if full then es else insert_at es idx x)

unfoldable pub insert_slot : Bool → List Entry → ℕ → Entry → Option Entry → List Entry
insert_slot full es idx x none = insert_new full es idx x (get_elem? es idx)
insert_slot full es idx x (some p) =
    if p.prot == x.prot && p.kind == x.kind && end_of p == x.base
    then merge_next es idx (record p { len = u64 (p.len + x.len) }) (get_elem? es idx)
    else insert_new full es idx x (get_elem? es idx)

-- `vma_insert` on the slots; `full` is `count >= proc->vma_capacity`.
unfoldable pub insert_entries : Bool → List Entry → Entry → List Entry
unfolding find_idx insert_slot
insert_entries full es x =
    if x.len == 0
    then es
    else insert_slot full es (find_idx x.base es) x (before es (find_idx x.base es))

-- The loop of `vma_remove` from the current slot on.
unfoldable pub remove_loop : ℕ → ℕ → ℕ → ℕ → List Entry → List Entry
remove_loop cap base end count [] = []
remove_loop cap base end count (e ∷ es) =
    let kept = remove_loop cap base end count es in
    let without = remove_loop cap base end (count - 1) es in
    let split = remove_loop cap base end (u32 (count + 1)) es in
    if leb (end_of e) base || leb end e.base
    then e ∷ kept
    else if leb base e.base && leb (end_of e) end
    then without
    else if leb base e.base && ltb e.base end
    then record e {
      base = u64 (e.base + (end - e.base));
      len = u64 (e.len + 2 ^ 64 - (end - e.base));
    }
      ∷ kept
    else if ltb base (end_of e) && leb (end_of e) end
    then record e { len = base - e.base } ∷ kept
    else if ltb e.base base && ltb end (end_of e)
    then (if leb cap count
        then e ∷ kept
        else record e { len = base - e.base }
          ∷ record e { base = end; len = end_of e - end }
          ∷ split)
    else e ∷ kept

unfoldable pub remove_entries : ℕ → List Entry → ℕ → ℕ → List Entry
unfolding remove_loop
remove_entries cap es base len =
    if len == 0 then es else remove_loop cap base (u64 (base + len)) (length es) es

-- The loop of `vma_update_prot` from the current slot on.
unfoldable pub protect_loop : ℕ → ℕ → ℕ → ℕ → ℕ → ℕ → List Entry → List Entry
protect_loop cap base len end prot count [] = []
protect_loop cap base len end prot count (e ∷ es) =
    let kept = protect_loop cap base len end prot count es in
    let split = protect_loop cap base len end prot (u32 (count + 1)) es in
    let split_twice = protect_loop cap base len end prot (u32 (count + 2)) es in
    if leb (end_of e) base || leb end e.base
    then e ∷ kept
    else if e.prot == prot
    then e ∷ kept
    else if leb base e.base && leb (end_of e) end
    then record e { prot = prot } ∷ kept
    else if leb base e.base && ltb e.base end && ltb end (end_of e)
    then (if leb cap count
        then e ∷ kept
        else record e { len = end - e.base; prot = prot }
          ∷ record e { base = end; len = end_of e - end }
          ∷ split)
    else if ltb e.base base && ltb base (end_of e) && leb (end_of e) end
    then (if leb cap count
        then e ∷ kept
        else record e { len = base - e.base }
          ∷ record e { base = base; len = end_of e - base; prot = prot }
          ∷ split)
    else if ltb e.base base && ltb end (end_of e)
    then (if ltb cap (u32 (count + 2))
        then e ∷ kept
        else record e { len = base - e.base }
          ∷ record e { base = base; len = len; prot = prot }
          ∷ record e { base = end; len = end_of e - end }
          ∷ split_twice)
    else e ∷ kept

unfoldable pub protect_entries : ℕ → List Entry → ℕ → ℕ → ℕ → List Entry
unfolding protect_loop
protect_entries cap es base len prot =
    if len == 0 then es else protect_loop cap base len (u64 (base + len)) prot (length es) es

-- The fields of `aegis_process` that vma.c uses. `vma_table` is the address of the table's page, or
-- `none` for NULL; `entries` is what the process sees of that page, its first `vma_count` slots.
pub record Proc : Type 0 where
  pub vma_table : Option ℕ
  pub entries : List Entry
  pub capacity : ℕ
  pub vma_refcount : ℕ

-- Functions on a process do nothing where it has no table.
unfoldable pub with_table : Proc → List Entry → Proc
with_table p es = elim p.vma_table [ none ↦ p | some t ↦ record p { entries = es } ]

-- `page` is what `kva_alloc_pages(1)` returns.
unfoldable pub init : ℕ → Proc
init page = record {
  vma_table = some page;
  entries = [];
  capacity = vma_capacity;
  vma_refcount = 1;
}

unfoldable pub insert : Proc → ℕ → ℕ → ℕ → ℕ → Proc
insert p base len prot kind = with_table p (
    insert_entries (leb p.capacity (length p.entries)) p.entries
      (record { base = base; len = len; prot = prot; kind = kind }))

unfoldable pub remove : Proc → ℕ → ℕ → Proc
remove p base len = with_table p (remove_entries p.capacity p.entries base len)

unfoldable pub update_prot : Proc → ℕ → ℕ → ℕ → Proc
update_prot p base len prot = with_table p (protect_entries p.capacity p.entries base len prot)

unfoldable pub clear : Proc → Proc
clear p = record p { entries = [] }

unfoldable pub clone : ℕ → Proc → Proc
clone page src = record {
  vma_table = some page;
  entries = src.entries;
  capacity = vma_capacity;
  vma_refcount = 1;
}

-- The child and the parent after `vma_share`.
unfoldable pub share : Proc → Proc × Proc
share parent =
    let count = u32 (parent.vma_refcount + 1) in
    (
      record {
        vma_table = parent.vma_table;
        entries = parent.entries;
        capacity = parent.capacity;
        vma_refcount = count;
      },
      record parent { vma_refcount = count },
    )

-- The process after `vma_free`, and the page that it gives to `kva_free_pages`, if any.
unfoldable pub free : Proc → Proc × Option ℕ
free p = elim p.vma_table [
  | none ↦ (p, none)
  | some page ↦
      let count = u32 (p.vma_refcount + 2 ^ 32 - 1) in
      (
        record p { vma_table = none; entries = []; vma_refcount = count },
        if count == 0 then some page else none,
      )
]
