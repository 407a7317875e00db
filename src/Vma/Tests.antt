-- ===== src/Vma/Tests.antt =====
-- The table of kernel/mm/vma.c at concrete states, and its theorems there.
use exec_aegis.Base.{
  ℕ, ◌≤◌, ◌<◌, ◌≡◌, refl, false, none, some, List, [], ◌∷◌, arith, length, if◌then◌else◌, inl, inr,
}
use exec_aegis.Vma.{
  Entry, Proc, vma_capacity, share, free, insert_slot, insert_new, merge_next, can_merge, delete_at,
  insert_at, insert_entries, remove_entries, protect_entries, insert, remove, update_prot,
}
use exec_aegis.Vma.Lookup.{inside, lookup, Sorted}
use exec_aegis.Vma.Insert.{insert-lookup}
use exec_aegis.Vma.Remove.{remove-lookup}
use exec_aegis.Vma.Protect.{reprotect, protect-lookup}
use exec_aegis.Vma.Bounds.{entries-fit}
use exec_aegis.Vma.Share.{shared_table_not_freed}

abbrev entry : ℕ → ℕ → ℕ → ℕ → Entry
entry b l p k = record { base = b; len = l; prot = p; kind = k }

-- A text, a heap and a stack.
abbrev table : List Entry
table = entry 0x1000 0x2000 5 1 ∷ entry 0x4000 0x1000 3 3 ∷ entry 0x9000 0x1000 3 4 ∷ []

table-Sorted : Sorted 0 table
table-Sorted = omega arith

-- The heap grows by a page, and is merged.
grown :
    insert_entries false table (entry 0x5000 0x1000 3 3)
    ≡ entry 0x1000 0x2000 5 1 ∷ entry 0x4000 0x2000 3 3 ∷ entry 0x9000 0x1000 3 4 ∷ []
unfolding insert_entries insert_slot insert_new merge_next can_merge delete_at insert_at
grown = refl

insert-lookup_example :
    Sorted 0 (insert_entries false table (entry 0x5000 0x1000 3 3))
    × (false ≡ false
        → (a : ℕ)
        → lookup (insert_entries false table (entry 0x5000 0x1000 3 3)) a
          ≡ (if inside 0x5000 0x1000 a then some (3, 3) else lookup table a))
insert-lookup_example =
    insert-lookup false table (entry 0x5000 0x1000 3 3) (omega arith) (omega arith) table-Sorted
      (inl (omega arith), (inl (omega arith), (inr (omega arith), tt)))

-- A page in the middle of the text is taken out.
punched :
    remove_entries vma_capacity table 0x1800 0x800
    ≡ entry 0x1000 0x800 5 1
      ∷ entry 0x2000 0x1000 5 1
      ∷ entry 0x4000 0x1000 3 3
      ∷ entry 0x9000 0x1000 3 4
      ∷ []
unfolding remove_entries
punched = refl

remove-lookup_example :
    Sorted 0 (remove_entries vma_capacity table 0x1800 0x800)
    × (3 < vma_capacity
        → (a : ℕ)
        → lookup (remove_entries vma_capacity table 0x1800 0x800) a
          ≡ (if inside 0x1800 0x800 a then none else lookup table a))
remove-lookup_example =
    remove-lookup vma_capacity 0x1800 0x800 table (omega arith) (omega arith) table-Sorted

protect-lookup_example :
    Sorted 0 (protect_entries vma_capacity table 0x1800 0x3000 1)
    × (5 ≤ vma_capacity
        → vma_capacity < 2147483648
        → (a : ℕ)
        → lookup (protect_entries vma_capacity table 0x1800 0x3000 1) a
          ≡ (if inside 0x1800 0x3000 a then reprotect 1 (lookup table a) else lookup table a))
protect-lookup_example =
    protect-lookup vma_capacity 0x1800 0x3000 1 table (omega arith) (omega arith) table-Sorted

abbrev proc : Proc
proc = record { vma_table = some 7; entries = table; capacity = vma_capacity; vma_refcount = 1 }

entries-fit_example :
    (length (insert proc 0x5000 0x1000 3 3).entries ≤ vma_capacity)
    × (length (remove proc 0x5000 0x1000).entries ≤ vma_capacity)
    × (length (update_prot proc 0x5000 0x1000 3).entries ≤ vma_capacity)
entries-fit_example = entries-fit proc 0x5000 0x1000 3 3 (omega arith) (omega arith)

shared_table_not_freed_example : ((free (share proc).0).1 ≡ none) × ((free (share proc).1).1 ≡ none)
shared_table_not_freed_example = shared_table_not_freed proc (omega arith) (omega arith)
