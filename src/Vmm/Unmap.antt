-- ===== src/Vmm/Unmap.antt =====
-- vmm_unmap_user_page and vmm_set_user_prot of kernel/mm/vmm.c.
use exec_aegis.Base.{
  ℕ, ◌^◌, ◌<◌, ◌≡◌, refl, inl, inr, some, if◌then◌else◌, Bool-cases, Option-cases,
}
use exec_aegis.Vmm.{reflagged, Vmm, present, index, find_pt, write, unmap_user_page, set_user_prot}
use exec_aegis.Vmm.Tree.{Levels, Tree, find_pt-level}
use exec_aegis.Vmm.Grown.{leaf}
use exec_aegis.Vmm.Leaf.{leaf-some, leaf-none, OtherPage, put-Tree, put-here, put-other}

-- The tree is one of the same tables, the entry of one user page is `e`, and the other pages are as
-- before.
pub record OneChanged (s : Vmm) (lv : Levels) (root v e : ℕ) (s' : Vmm) : Type 0 where
  pub tree : Tree s' lv
  pub entry : leaf s'.mem 3 root v ≡ e
  pub others :
      (root' v' : ℕ)
      → lv.level root' ≡ 4
      → v' < 2 ^ 47
      → OtherPage root v root' v'
      → leaf s'.mem 3 root' v' ≡ leaf s.mem 3 root' v'

unchanged :
    (s : Vmm) (lv : Levels) (root v e : ℕ)
    → Tree s lv
    → leaf s.mem 3 root v ≡ e
    → OneChanged s lv root v e s
unchanged s lv root v e tree h = record { tree = tree; entry = h; others = λ root' v' r u o. refl }

written :
    (s : Vmm) (lv : Levels) (root v e pt : ℕ)
    → Tree s lv
    → lv.level root ≡ 4
    → v < 2 ^ 47
    → find_pt s.mem 3 root v ≡ some pt
    → OneChanged s lv root v e (record s { mem = write s.mem pt (index 0 v) e })
written s lv root v e pt tree is_root user walk =
    let at = find_pt-level s lv tree 3 root v pt is_root user walk in
    record {
      tree = put-Tree s lv tree pt (index 0 v) e at;
      entry = put-here s lv tree pt (index 0 v) e at root v is_root user refl walk;
      others = put-other s lv tree pt (index 0 v) e at root v is_root user refl walk;
    }

-- The entry of a page after `unmap_user_page` and after `set_user_prot`.
abbrev pub unmapped_entry : ℕ → ℕ
unmapped_entry e = if present e then 0 else e

abbrev pub protected_entry : ℕ → ℕ → ℕ
protected_entry flags e = if present e then reflagged flags e else e

pub unmap_user_page_lem :
    (s : Vmm) (lv : Levels)
    → Tree s lv
    → (root v : ℕ) → lv.level root ≡ 4
    → v < 2 ^ 47
    → OneChanged s lv root v (unmapped_entry (leaf s.mem 3 root v)) (unmap_user_page s root v)
unfolding unmap_user_page
unmap_user_page_lem s lv tree root v is_root user = elim (Option-cases (find_pt s.mem 3 root v)) [
  | inl e ↦
      let z = leaf-none s.mem 3 root v e in
      rw (unmap_user_page, e)
        (unchanged s lv root v (unmapped_entry (leaf s.mem 3 root v)) tree (rw z refl))
  | inr (pt, walk) ↦
      let here = leaf-some s.mem 3 root v pt walk in
      elim (Bool-cases (present (s.mem pt (index 0 v)))) [
        | inl p ↦
            rw (unmap_user_page, walk, here, p) (written s lv root v 0 pt tree is_root user walk)
        | inr p ↦
            rw (unmap_user_page, walk, here, p)
              (unchanged s lv root v (s.mem pt (index 0 v)) tree here)
      ]
]

pub set_user_prot-OneChanged :
    (s : Vmm) (lv : Levels)
    → Tree s lv
    → (root v flags : ℕ) → lv.level root ≡ 4
    → v < 2 ^ 47
    → OneChanged s lv root v
        (protected_entry flags (leaf s.mem 3 root v))
        (set_user_prot s root v flags).0
unfolding set_user_prot
set_user_prot-OneChanged s lv tree root v flags is_root user =
    elim (Option-cases (find_pt s.mem 3 root v)) [
      | inl e ↦
          let z = leaf-none s.mem 3 root v e in
          rw (set_user_prot, e)
            (unchanged s lv root v (protected_entry flags (leaf s.mem 3 root v)) tree (rw z refl))
      | inr (pt, walk) ↦
          let here = leaf-some s.mem 3 root v pt walk in
          elim (Bool-cases (present (s.mem pt (index 0 v)))) [
            | inl p ↦
                rw (set_user_prot, walk, here, p)
                  (written s lv root v (reflagged flags (s.mem pt (index 0 v))) pt tree is_root user
                    walk)
            | inr p ↦
                rw (set_user_prot, walk, here, p)
                  (unchanged s lv root v (s.mem pt (index 0 v)) tree here)
          ]
    ]
