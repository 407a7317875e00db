-- ===== src/Vma/Bounds.antt =====
-- No operation of kernel/mm/vma.c writes past the page of the table.
use exec_aegis.Base.{
  ℕ, zero, suc, ◌+◌, ◌-◌, ◌^◌, ◌≤◌, ◌<◌, ◌≡◌, Bool, false, Option, none, some, List, [], ◌∷◌, arith,
  leb, u64, u32, length, set, get_elem?, length-set,
}
use exec_aegis.Vma.{
  Entry, Proc, insert_at, delete_at, find_idx, before, merge_next, insert_new, insert_slot,
  insert_entries, remove_loop, remove_entries, protect_loop, protect_entries, insert, remove,
  update_prot, with_table,
}

length-insert_at : (es : List Entry) (i : ℕ) (x : Entry) → length (insert_at es i x) ≤ length es + 1
unfolding insert_at
length-insert_at es zero x = omega arith
length-insert_at [] (suc i) x = omega arith
length-insert_at (e ∷ es) (suc i) x = omega (arith, length-insert_at es i x)

length-delete_at : (es : List Entry) (i : ℕ) → length (delete_at es i) ≤ length es
unfolding delete_at
length-delete_at [] i = omega arith
length-delete_at (e ∷ es) zero = omega arith
length-delete_at (e ∷ es) (suc i) = omega (arith, length-delete_at es i)

length-insert_new :
    (full : Bool) (es : List Entry) (i : ℕ) (x : Entry) (n : Option Entry) (capacity : ℕ)
    → length es ≤ capacity
    → (full ≡ false → length es < capacity)
    → length (insert_new full es i x n) ≤ capacity
unfolding insert_new
length-insert_new full es i x none capacity h k = ground (arith, length-insert_at es i x)
length-insert_new full es i x (some n) capacity h k = ground (
  arith,
  length-insert_at es i x,
  length-set es i (record n { base = x.base; len = u64 (n.len + x.len) }),
)

length-merge_next :
    (es : List Entry) (i : ℕ) (p : Entry) (n : Option Entry)
    → length (merge_next es i p n) ≤ length es
unfolding merge_next
length-merge_next es i p none = omega (arith, length-set es (i - 1) p)
length-merge_next es i p (some n) =
    let q : Entry = record p { len = u64 (p.len + n.len) } in
    ground (
      arith,
      length-set es (i - 1) p,
      length-set es (i - 1) q,
      length-delete_at (set es (i - 1) q) i,
    )

length-insert_slot :
    (full : Bool) (es : List Entry) (i : ℕ) (x : Entry) (p : Option Entry) (capacity : ℕ)
    → length es ≤ capacity
    → (full ≡ false → length es < capacity)
    → length (insert_slot full es i x p) ≤ capacity
unfolding insert_slot
length-insert_slot full es i x none capacity h k =
    length-insert_new full es i x (get_elem? es i) capacity h k
length-insert_slot full es i x (some p) capacity h k = ground (
  arith,
  length-insert_new full es i x (get_elem? es i) capacity h k,
  length-merge_next es i (record p { len = u64 (p.len + x.len) }) (get_elem? es i),
)

length-remove_loop :
    (capacity base end count : ℕ) (es : List Entry)
    → capacity < 2 ^ 31
    → length es ≤ count
    → count ≤ capacity
    → length (remove_loop capacity base end count es) + (count - length es) ≤ capacity
unfolding remove_loop
length-remove_loop capacity base end count [] c h k = omega arith
length-remove_loop capacity base end count (x ∷ es) c h k = ground (
  arith,
  length-remove_loop capacity base end count es c (omega arith) k,
  length-remove_loop capacity base end (count - 1) es c (omega arith) (omega arith),
  length-remove_loop capacity base end (u32 (count + 1)) es c,
)

length-protect_loop :
    (capacity base len end prot count : ℕ) (es : List Entry)
    → capacity < 2 ^ 31
    → length es ≤ count
    → count ≤ capacity
    → length (protect_loop capacity base len end prot count es) + (count - length es) ≤ capacity
unfolding protect_loop
length-protect_loop capacity base len end prot count [] c h k = omega arith
length-protect_loop capacity base len end prot count (x ∷ es) c h k = ground (
  arith,
  length-protect_loop capacity base len end prot count es c (omega arith) k,
  length-protect_loop capacity base len end prot (u32 (count + 1)) es c,
  length-protect_loop capacity base len end prot (u32 (count + 2)) es c,
)

with_table-fit :
    (p : Proc) (es : List Entry)
    → length p.entries ≤ p.capacity
    → length es ≤ p.capacity
    → length (with_table p es).entries ≤ p.capacity
unfolding with_table
with_table-fit p es h k = ground arith

pub insert_entries-fit :
    (capacity : ℕ) (es : List Entry) (x : Entry)
    → length es ≤ capacity
    → length (insert_entries (leb capacity (length es)) es x) ≤ capacity
unfolding insert_entries
insert_entries-fit capacity es x h = ground (
  arith,
  length-insert_slot (leb capacity (length es)) es (find_idx x.base es) x
      (before es (find_idx x.base es)) capacity h (ground arith),
)

remove_entries-fit :
    (capacity : ℕ) (es : List Entry) (base len : ℕ)
    → capacity < 2 ^ 31
    → length es ≤ capacity
    → length (remove_entries capacity es base len) ≤ capacity
unfolding remove_entries
remove_entries-fit capacity es base len c h =
    ground
      (arith, length-remove_loop capacity base (u64 (base + len)) (length es) es c (omega arith) h)

protect_entries-fit :
    (capacity : ℕ) (es : List Entry) (base len prot : ℕ)
    → capacity < 2 ^ 31
    → length es ≤ capacity
    → length (protect_entries capacity es base len prot) ≤ capacity
unfolding protect_entries
protect_entries-fit capacity es base len prot c h = ground (
  arith,
  length-protect_loop capacity base len (u64 (base + len)) prot (length es) es c (omega arith) h,
)

-- No operation makes the table longer than its capacity, of at most 2^31 - 1: `vma_insert`,
-- `vma_remove` and `vma_update_prot` of any range, wrapping or not, on any entries, sorted or not.
pub entries-fit :
    (p : Proc) (base len prot kind : ℕ)
    → p.capacity < 2 ^ 31
    → length p.entries ≤ p.capacity
    → (length (insert p base len prot kind).entries ≤ p.capacity)
      × (length (remove p base len).entries ≤ p.capacity)
      × (length (update_prot p base len prot).entries ≤ p.capacity)
unfolding insert remove update_prot
entries-fit p base len prot kind c h = (
  with_table-fit p _ h (insert_entries-fit p.capacity p.entries _ h),
  with_table-fit p _ h (remove_entries-fit p.capacity p.entries base len c h),
  with_table-fit p _ h (protect_entries-fit p.capacity p.entries base len prot c h),
)
