-- ===== src/Vmm/Grown.antt =====
-- The leaves of the page tables of kernel/mm/vmm.c, and what it is for a tree of tables to grow.
use exec_aegis.Base.{
  ℕ, zero, suc, ◌^◌, ◌<◌, ◌≡◌, ◌≢◌, refl, ap, sym, ◌∙◌, true, false, none, some, arith,
}
use exec_aegis.Vmm.{Vmm, present, addr_of, absent, index, find_pt}
use exec_aegis.Vmm.Tree.{Levels, Tree}

-- The entry for an address in its page table, 0 where it has none.
unfoldable pub leaf : (ℕ → ℕ → ℕ) → ℕ → ℕ → ℕ → ℕ
leaf mem k r v = elim (find_pt mem k r v) [ none ↦ 0 | some pt ↦ mem pt (index 0 v) ]

-- A step down, and no step.
pub leaf-step :
    (mem : ℕ → ℕ → ℕ) (k r v : ℕ)
    → absent k (mem r (index (suc k) v)) ≡ false
    → leaf mem (suc k) r v ≡ leaf mem k (addr_of (mem r (index (suc k) v))) v
unfolding leaf find_pt
leaf-step mem k r v h = rw (leaf, find_pt, h) refl

pub leaf-stop :
    (mem : ℕ → ℕ → ℕ) (k r v : ℕ)
    → absent k (mem r (index (suc k) v)) ≡ true
    → leaf mem (suc k) r v ≡ 0
unfolding leaf find_pt
leaf-stop mem k r v h = rw (leaf, find_pt, h) refl

pub leaf-zero : (mem : ℕ → ℕ → ℕ) (r v : ℕ) → leaf mem 0 r v ≡ mem r (index 0 v)
unfolding leaf find_pt
leaf-zero mem r v = refl

pub leaf-zero_table : (mem : ℕ → ℕ → ℕ) (k c v : ℕ) → ((j : ℕ) → mem c j ≡ 0) → leaf mem k c v ≡ 0
unfolding leaf find_pt absent
leaf-zero_table mem zero c v h = h (index 0 v)
leaf-zero_table mem (suc zero) c v h =
    leaf-stop mem zero c v (ap (λ e. absent zero e) (h (index 1 v)))
leaf-zero_table mem (suc (suc k)) c v h =
    leaf-stop mem (suc k) c v (ap (λ e. absent (suc k) e) (h (index (suc (suc k)) v)))

-- The tree has grown, or is the same: no table is lost, no present entry changes, no address is mapped
-- anew.
pub record Grown (s : Vmm) (lv : Levels) (s' : Vmm) (lv' : Levels) : Type 0 where
  pub tree : Tree s' lv'
  pub levels_kept : (t : ℕ) → lv.level t ≢ 0 → lv'.level t ≡ lv.level t
  pub entries_kept :
      (t i : ℕ) → lv.level t ≢ 0 → present (s.mem t i) ≡ true → s'.mem t i ≡ s.mem t i
  pub leaves_kept :
      (k r v : ℕ) → lv.level r ≡ suc k → v < 2 ^ 47 → leaf s'.mem k r v ≡ leaf s.mem k r v

pub Grown-refl : {s : Vmm} {lv : Levels} → Tree s lv → Grown s lv s lv
Grown-refl tree = record {
  tree = tree;
  levels_kept = λ t h. refl;
  entries_kept = λ t i h p. refl;
  leaves_kept = λ k r v h u. refl;
}

pub Grown-trans :
    {a b c : Vmm} {la lb lc : Levels} → Grown a la b lb → Grown b lb c lc → Grown a la c lc
Grown-trans {a = a} {la = la} {lb = lb} p q = record {
  tree = q.tree;
  levels_kept = λ t h. q.levels_kept t (λ z. h (sym (p.levels_kept t h) ∙ z)) ∙ p.levels_kept t h;
  entries_kept = λ t i h e.
      let kept = p.entries_kept t i h e in
      q.entries_kept t i (λ z. h (sym (p.levels_kept t h) ∙ z)) (ap (λ x. present x) kept ∙ e)
      ∙ kept;
  leaves_kept = λ k r v h u.
      q.leaves_kept k r v
        (p.levels_kept r (λ z. absurd (let n : suc k ≡ 0 = sym h ∙ z in omega arith)) ∙ h) u
      ∙ p.leaves_kept k r v h u;
}
