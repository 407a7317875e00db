-- ===== src/Vma/Share.antt =====
-- Who frees the page of the table of kernel/mm/vma.c.
use exec_aegis.Base.{ℕ, ◌+◌, ◌^◌, ◌<◌, ◌≡◌, refl, none, some, arith}
use exec_aegis.Vma.{Proc, init, clone, share, free}

-- A table of its own, fresh or cloned, is freed by the first `vma_free` of its process and by no later
-- one; a clone holds the entries of its source.
pub own_table_freed_once :
    (page : ℕ) (src : Proc)
    → ((free (init page)).1 ≡ some page)
      × ((free (free (init page)).0).1 ≡ none)
      × ((free (clone page src)).1 ≡ some page)
      × ((free (free (clone page src)).0).1 ≡ none)
      × ((clone page src).entries ≡ src.entries)
unfolding free init clone
own_table_freed_once page src = (refl, refl, refl, refl, refl)

-- A table that was shared by `vma_share` is never freed: with a count of at least 1 (that does not
-- wrap) before, neither the child's `vma_free` nor the parent's gives the page back, in either order,
-- since each takes one from its own copy of the count.
pub shared_table_not_freed :
    (parent : Proc)
    → 0 < parent.vma_refcount
    → parent.vma_refcount + 1 < 2 ^ 32
    → ((free (share parent).0).1 ≡ none) × ((free (share parent).1).1 ≡ none)
unfolding free share
shared_table_not_freed parent h k = ground arith
