-- ===== src/Vmm/Tables.antt =====
-- ensure_table_phys of kernel/mm/vmm.c, and the tables of a whole walk.
use exec_aegis.Base.{
  ℕ, zero, suc, ◌+◌, ◌*◌, ◌^◌, ◌<◌, ◌≡◌, ◌≢◌, refl, ap, sym, subst, ◌∙◌, ◌⊎◌, true, false, inl, inr,
  some, ◌==◌, arith, Bool-cases,
}
use exec_aegis.Pmm.{Pmm, allocated, alloc_page, max_pages}
use exec_aegis.Pmm.Alloc.{alloc_page_lem}
use exec_aegis.Vmm.{
  Vmm, present, addr_of, absent, index, find_pt, write, zeroed, alloc_table, table_flags,
  ensure_table, ensure_pt,
}
use exec_aegis.Vmm.Tree.{Levels, InUser, Tree, present-absent, index-InUser}
use exec_aegis.Vmm.Ensure.{levels, grown-Grown, grown-table, grown-entry}
use exec_aegis.Vmm.Grown.{Grown, Grown-refl, Grown-trans}

positive : {n : ℕ} → n ≢ 0 → 0 < n
positive h = omega (arith, h)

-- No page of memory is left.
pub record Full (s : Vmm) : Type 0 where
  pub full : (pg : ℕ) → pg < max_pages → allocated s.pmm pg ≡ true

-- What `ensure_table` has done: the tree has grown, and if memory lasted the entry has a table.
pub record Ensured (s : Vmm) (lv : Levels) (t l i : ℕ) (r : Vmm × ℕ) : Type 0 where
  pub levels : Levels
  pub grown : Grown s lv r.0 levels
  pub result :
      ((r.1 ≡ 0) × Full r.0)
      ⊎ ((0 < r.1)
          × (levels.level r.1 ≡ suc l)
          × (present ((r.0).mem t i) ≡ true)
          × (addr_of ((r.0).mem t i) ≡ r.1))

alloc_none :
    (s : Vmm) (t i : ℕ)
    → present (s.mem t i) ≡ false
    → (alloc_page s.pmm).1 ≡ 0
    → (alloc_page s.pmm).0 ≡ s.pmm
    → ensure_table s t i ≡ (s, 0)
unfolding ensure_table alloc_table
alloc_none s t i missing out same =
    rw (missing, out) (ap (λ (p : Pmm). let r : Vmm × ℕ = (record s { pmm = p }, 0) in r) same)

alloc_table-some :
    (s : Vmm) (pmm' : Pmm) (a : ℕ)
    → alloc_page s.pmm ≡ (pmm', a)
    → (a == 0) ≡ false
    → alloc_table s ≡ (record { mem = zeroed s.mem a; pmm = pmm' }, a)
unfolding alloc_table
alloc_table-some s pmm' a e nz = rw (e, nz) refl

alloc_some :
    (s : Vmm) (t i : ℕ)
    → present (s.mem t i) ≡ false
    → (pmm' : Pmm) (a : ℕ) → alloc_page s.pmm ≡ (pmm', a)
    → 0 < a
    → ensure_table s t i
      ≡ (record { mem = write (zeroed s.mem a) t i (a + table_flags); pmm = pmm' }, a)
unfolding ensure_table
alloc_some s t i missing pmm' a e pos =
    let nz : (a == 0) ≡ false = ground arith in
    let allocated = alloc_table-some s pmm' a e nz in rw (missing, allocated, nz) refl

ensure_table_lem :
    (s : Vmm) (lv : Levels)
    → Tree s lv
    → (t l i : ℕ) → lv.level t ≡ suc (suc l)
    → InUser l i
    → Ensured s lv t l i (ensure_table s t i)
unfolding ensure_table
ensure_table_lem s lv tree t l i at low = elim (Bool-cases (present (s.mem t i))) [
  | inl p ↦
      let below = tree.child t l i at low p in
      let a = addr_of (s.mem t i) in
      let pos : 0 < a = positive (λ z. absurd (
        let q : suc l ≡ 0 = sym below.0 ∙ ap (λ x. lv.level x) z ∙ tree.zero_none in
        omega arith)) in
      let same : ensure_table s t i ≡ (s, a) = rw (ensure_table, p) refl in
      subst (λ r. Ensured s lv t l i r) (sym same)
        (record { levels = lv; grown = Grown-refl tree; result = inr (pos, below.0, p, refl) })
  | inr p ↦ elim (alloc_page_lem s.pmm tree.pmm_valid tree.zero_taken) [
    | inl (out, same, full) ↦
        subst (λ r. Ensured s lv t l i r) (sym (alloc_none s t i p out same))
          (record {
            levels = lv;
            grown = Grown-refl tree;
            result = inl (refl, record { full = full });
          })
    | inr (pg, e, pos, new) ↦
        let pg_pos : 0 < pg = omega (arith, e, pos) in
        let made =
          alloc_some s t i p (alloc_page s.pmm).0 (pg * 4096)
            (ap (λ a. ((alloc_page s.pmm).0, a)) e) (omega (arith, pg_pos)) in
        subst (λ r. Ensured s lv t l i r) (sym made)
          (record {
            levels = levels s lv tree t l i at p (alloc_page s.pmm).0 pg pg_pos new;
            grown = grown-Grown s lv tree t l i at p (alloc_page s.pmm).0 pg pg_pos new;
            result = inr (
              omega (arith, pg_pos),
              grown-table s lv tree t l i at p (alloc_page s.pmm).0 pg pg_pos new,
              (grown-entry s lv tree t l i at p (alloc_page s.pmm).0 pg pg_pos new).0,
              (grown-entry s lv tree t l i at p (alloc_page s.pmm).0 pg pg_pos new).1,
            );
          })
  ]
]

-- What `ensure_pt` has done: the tree has grown, and if memory lasted the walk ends in a page table.
pub record MadePt (s : Vmm) (lv : Levels) (l t v : ℕ) (r : Vmm × ℕ) : Type 0 where
  pub levels : Levels
  pub grown : Grown s lv r.0 levels
  pub result :
      ((r.1 ≡ 0) × Full r.0)
      ⊎ ((0 < r.1) × (levels.level r.1 ≡ 1) × (find_pt (r.0).mem l t v ≡ some r.1))

find_pt-entry :
    (mem : ℕ → ℕ → ℕ) (l t v a : ℕ)
    → absent l (mem t (index (suc l) v)) ≡ false
    → addr_of (mem t (index (suc l) v)) ≡ a
    → find_pt mem (suc l) t v ≡ find_pt mem l a v
unfolding find_pt
find_pt-entry mem l t v a h e = rw (find_pt, h) (ap (λ a. find_pt mem l a v) e)

-- One more level above a table that is made.
MadePt-above :
    (s : Vmm) (lv : Levels) (l t v : ℕ)
    → lv.level t ≡ suc (suc l)
    → (r below : Vmm × ℕ) (levels : Levels) → Grown s lv r.0 levels
    → levels.level r.1 ≡ suc l
    → present ((r.0).mem t (index (suc l) v)) ≡ true
    → addr_of ((r.0).mem t (index (suc l) v)) ≡ r.1
    → MadePt r.0 levels l r.1 v below
    → MadePt s lv (suc l) t v below
MadePt-above s lv l t v at r below levels g depth p target made =
    let i = index (suc l) v in
    let here : levels.level t ≡ suc (suc l) = g.levels_kept t (λ z. absurd (omega arith)) ∙ at in
    let kept = made.grown.entries_kept t i (λ z. absurd (omega arith)) p in
    let still : present ((below.0).mem t i) ≡ true = ap (λ e. present e) kept ∙ p in
    let there : made.levels.level t ≡ suc (suc l) =
      made.grown.levels_kept t (λ z. absurd (omega arith)) ∙ here in
    let goes_on =
      present-absent l ((below.0).mem t i) still
        (λ z. made.grown.tree.no_huge t i (there ∙ ap (λ x. suc (suc x)) z) still) in
    let step = find_pt-entry (below.0).mem l t v r.1 goes_on (ap (λ e. addr_of e) kept ∙ target) in
    record {
      levels = made.levels;
      grown = Grown-trans g made.grown;
      result = elim made.result [
        | inl z ↦ inl z
        | inr (pos, pt, walk) ↦ inr (pos, pt, step ∙ walk)
      ];
    }

pub ensure_pt_lem :
    (l : ℕ) (s : Vmm) (lv : Levels)
    → Tree s lv
    → (t v : ℕ) → lv.level t ≡ suc l
    → v < 2 ^ 47
    → MadePt s lv l t v (ensure_pt l s t v)
unfolding ensure_pt find_pt
ensure_pt_lem zero s lv tree t v at user = record {
  levels = lv;
  grown = Grown-refl tree;
  result = inr (
    positive (λ z.
        absurd (let q : 1 ≡ 0 = sym at ∙ ap (λ x. lv.level x) z ∙ tree.zero_none in omega arith)),
    at,
    refl,
  );
}
ensure_pt_lem (suc l) s lv tree t v at user =
    let i = index (suc l) v in
    let r = ensure_table s t i in
    let e = ensure_table_lem s lv tree t l i at (index-InUser l v user) in
    elim e.result [
      | inl (z, full) ↦
          let out : (r.1 == 0) ≡ true = ground arith in
          let stop : ensure_pt (suc l) s t v ≡ (r.0, 0) = rw (ensure_pt, out) refl in
          subst (λ r. MadePt s lv (suc l) t v r) (sym stop)
            (record { levels = e.levels; grown = e.grown; result = inl (refl, full) })
      | inr (pos, depth, p, target) ↦
          let more : (r.1 == 0) ≡ false = ground arith in
          let go : ensure_pt (suc l) s t v ≡ ensure_pt l r.0 r.1 v = rw (ensure_pt, more) refl in
          subst (λ r. MadePt s lv (suc l) t v r) (sym go)
            (MadePt-above s lv l t v at r (ensure_pt l r.0 r.1 v) e.levels e.grown depth p target
              (ensure_pt_lem l r.0 e.levels e.grown.tree r.1 v depth user))
    ]
