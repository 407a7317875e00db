-- ===== src/Vmm/Ensure.antt =====
-- A tree of page tables of kernel/mm/vmm.c with a table added, as ensure_table_phys does.
use exec_aegis.Base.{
  ℕ, zero, suc, ◌+◌, ◌*◌, ◌^◌, ◌<◌, ◌≡◌, ◌≢◌, refl, ap, ap₂, sym, subst, ◌∙◌, ◌⊎◌, true, false,
  ◌&&◌, inl, inr, ◌==◌, if◌then◌else◌, arith, Bool-cases,
}
use native.Mathlib.Decide.{ℕ_discrete}
use exec_aegis.Pmm.{Pmm, allocated}
use exec_aegis.Pmm.Alloc.{Allocated}
use exec_aegis.Vmm.{Vmm, present, huge, addr_of, absent, index, write, zeroed, table_flags}
use exec_aegis.Vmm.Tree.{
  Levels, InUser, Tree, absent-present, present-absent, missing-absent, index-InUser,
}
use exec_aegis.Vmm.Grown.{leaf, leaf-step, leaf-stop, leaf-zero, leaf-zero_table, Grown}

-- A zeroed table at the free page `pg`, and an entry for it.
module _ (s : Vmm) (lv : Levels) (tree : Tree s lv) (t l i : ℕ) (at : lv.level t ≡ suc (suc l))
    (missing : present (s.mem t i) ≡ false) (pmm' : Pmm) (pg : ℕ) (pos : 0 < pg)
    (new : Allocated s.pmm pmm' pg) where
  abbrev pub c : ℕ
  c = pg * 4096

  abbrev pub grown : Vmm
  grown = record { mem = write (zeroed s.mem c) t i (c + table_flags); pmm = pmm' }

  abbrev pub levels : Levels
  levels = record {
    level = λ u. if u == c then suc l else lv.level u;
    parent = λ u. if u == c then t else lv.parent u;
    slot = λ u. if u == c then i else lv.slot u;
  }

  -- The page was no table.
  fresh : lv.level c ≡ 0
  fresh = elim (ℕ_discrete (lv.level c) 0) [
    | yes z ↦ z
    | no ne ↦
        let (q, e, taken) = tree.owned c ne in
        let same : q ≡ pg = omega arith in
        absurd (
          let f = new.was_free in
          let b : allocated s.pmm pg ≡ true = subst (λ x. allocated s.pmm x ≡ true) same taken in
          cc)
  ]

  not_fresh : (u : ℕ) → lv.level u ≢ 0 → (u == c) ≡ false
  not_fresh u ne = elim (Bool-cases (u == c)) [
    | inr h ↦ h
    | inl h ↦ absurd (ne (let e : u ≡ c = ground arith in ap (λ x. lv.level x) e ∙ fresh))
  ]

  mem_new : (j : ℕ) → grown.mem c j ≡ 0
  unfolding write zeroed
  mem_new j =
      let not_parent : (t == c) ≡ false = not_fresh t (omega arith) in
      let other : (c == t) ≡ false = ground arith in
      let self : (c == c) ≡ true = ground arith in rw (other, self) refl

  mem_entry : grown.mem t i ≡ c + table_flags
  unfolding write
  mem_entry = ground arith

  mem_kept : (u j : ℕ) → lv.level u ≢ 0 → (u == t && j == i) ≡ false → grown.mem u j ≡ s.mem u j
  unfolding write zeroed
  mem_kept u j ne h = let e = not_fresh u ne in rw (h, e) refl

  level_kept : (u : ℕ) → lv.level u ≢ 0 → levels.level u ≡ lv.level u
  level_kept u ne = let e = not_fresh u ne in rw e refl

  entry_present : present (grown.mem t i) ≡ true
  entry_present = rw mem_entry (ground arith)

  entry_addr : addr_of (grown.mem t i) ≡ c
  entry_addr = let small = new.in_range in rw mem_entry (omega arith)

  entry_small : huge (grown.mem t i) ≡ false
  entry_small = rw mem_entry (ground arith)

  -- A table of another level is not the one that was written to.
  elsewhere : (r j : ℕ) → lv.level r ≢ lv.level t → (r == t && j == i) ≡ false
  elsewhere r j ne = elim (Bool-cases (r == t)) [
    | inl h ↦ absurd (ne (let e : r ≡ t = ground arith in ap (λ x. lv.level x) e))
    | inr h ↦ rw h refl
  ]

  leaves-grown :
      (k r v : ℕ) → lv.level r ≡ suc k → v < 2 ^ 47 → leaf grown.mem k r v ≡ leaf s.mem k r v
  leaves-grown zero r v h user =
      let apart = elsewhere r (index 0 v) (λ q. absurd (omega arith)) in
      leaf-zero grown.mem r v
      ∙ mem_kept r (index 0 v) (omega arith) apart
      ∙ sym (leaf-zero s.mem r v)
  leaves-grown (suc k) r v h user =
      let j = index (suc k) v in
      elim (Bool-cases (r == t && j == i)) [
        | inl q ↦
            let here : r ≡ t = ground arith in
            let there : j ≡ i = ground arith in
            let entry : grown.mem r j ≡ grown.mem t i = ap₂ (λ x y. grown.mem x y) here there in
            let old : present (s.mem r j) ≡ false =
              ap₂ (λ x y. present (s.mem x y)) here there ∙ missing in
            let goes_on : absent k (grown.mem r j) ≡ false =
              present-absent k (grown.mem r j) (ap (λ e. present e) entry ∙ entry_present)
                (λ z. ap (λ e. huge e) entry ∙ entry_small) in
            leaf-step grown.mem k r v goes_on
            ∙ ap (λ e. leaf grown.mem k (addr_of e) v) entry
            ∙ ap (λ a. leaf grown.mem k a v) entry_addr
            ∙ leaf-zero_table grown.mem k c v mem_new
            ∙ sym (leaf-stop s.mem k r v (missing-absent k (s.mem r j) old))
        | inr q ↦
            let same = mem_kept r j (omega arith) q in
            elim (Bool-cases (absent k (s.mem r j))) [
              | inl a ↦
                  leaf-stop grown.mem k r v (ap (λ e. absent k e) same ∙ a)
                  ∙ sym (leaf-stop s.mem k r v a)
              | inr a ↦
                  let below =
                    tree.child r k j h (index-InUser k v user) (absent-present k (s.mem r j) a) in
                  leaf-step grown.mem k r v (ap (λ e. absent k e) same ∙ a)
                  ∙ ap (λ e. leaf grown.mem k (addr_of e) v) same
                  ∙ leaves-grown k (addr_of (s.mem r j)) v below.0 user
                  ∙ sym (leaf-step s.mem k r v a)
            ]
      ]

  -- An entry of the grown tables that is present: the new one, or one of an old table.
  entry_cases :
      (u j : ℕ)
      → levels.level u ≢ 0
      → present (grown.mem u j) ≡ true
      → ((u ≡ t) × (j ≡ i)) ⊎ ((lv.level u ≢ 0) × (grown.mem u j ≡ s.mem u j))
  entry_cases u j ne p = elim (Bool-cases (u == c)) [
    | inl h ↦
        let e : u ≡ c = ground arith in
        let none_there : present (grown.mem u j) ≡ false =
          ap (λ x. present (grown.mem x j)) e ∙ ap (λ x. present x) (mem_new j) in
        absurd (let q : true ≡ false = sym p ∙ none_there in cc)
    | inr h ↦
        let old : lv.level u ≢ 0 = rw h at ne in
        elim (Bool-cases (u == t && j == i)) [
          | inl q ↦ inl (let a : u ≡ t = ground arith in a, let b : j ≡ i = ground arith in b)
          | inr q ↦ inr (old, mem_kept u j old q)
        ]
  ]

  levels_kept :
      (u : ℕ) → lv.level u ≢ 0 → (levels.parent u ≡ lv.parent u) × (levels.slot u ≡ lv.slot u)
  levels_kept u ne = let e = not_fresh u ne in rw e (refl, refl)

  -- The three facts of an entry's target.
  abbrev Points : ℕ → ℕ → ℕ → ℕ → Type 0
  Points a m u j = (levels.level a ≡ suc m) × (levels.parent a ≡ u) × (levels.slot a ≡ j)

  c-Points : Points c l t i
  c-Points = let self : (c == c) ≡ true = ground arith in rw self (refl, refl, refl)

  child-grown :
      (u m j : ℕ)
      → levels.level u ≡ suc (suc m)
      → InUser m j
      → present (grown.mem u j) ≡ true
      → Points (addr_of (grown.mem u j)) m u j
  child-grown u m j h low p =
      elim (entry_cases u j (λ z. absurd (let q : suc (suc m) ≡ 0 = sym h ∙ z in omega arith)) p) [
        | inl (a, b) ↦
            let depth : m ≡ l =
              (let e : suc (suc m) ≡ suc (suc l) =
                  sym h
                  ∙ ap (λ x. levels.level x) a
                  ∙ level_kept t (λ z. absurd (omega arith))
                  ∙ at in
                omega arith) in
            let target : addr_of (grown.mem u j) ≡ c =
              ap₂ (λ x y. addr_of (grown.mem x y)) a b ∙ entry_addr in
            (
              ap (λ x. levels.level x) target ∙ c-Points.0 ∙ ap (λ x. suc x) (sym depth),
              ap (λ x. levels.parent x) target ∙ c-Points.1 ∙ sym a,
              ap (λ x. levels.slot x) target ∙ c-Points.2 ∙ sym b,
            )
        | inr (ne, same) ↦
            let old =
              tree.child u m j (sym (level_kept u ne) ∙ h) low
                (ap (λ e. present e) (sym same) ∙ p) in
            let a = addr_of (s.mem u j) in
            let target : addr_of (grown.mem u j) ≡ a = ap (λ e. addr_of e) same in
            let is_table : lv.level a ≢ 0 = (λ z. let q = old.0 in absurd (omega arith)) in
            let kept = levels_kept a is_table in
            (
              ap (λ x. levels.level x) target ∙ level_kept a is_table ∙ old.0,
              ap (λ x. levels.parent x) target ∙ kept.0 ∙ old.1,
              ap (λ x. levels.slot x) target ∙ kept.1 ∙ old.2,
            )
      ]

  no_huge-grown :
      (u j : ℕ) → levels.level u ≡ 2 → present (grown.mem u j) ≡ true → huge (grown.mem u j) ≡ false
  no_huge-grown u j h p = elim (entry_cases u j (λ z. absurd (omega arith)) p) [
    | inl (a, b) ↦ ap₂ (λ x y. huge (grown.mem x y)) a b ∙ entry_small
    | inr (ne, same) ↦
        ap (λ e. huge e) same
        ∙ tree.no_huge u j (sym (level_kept u ne) ∙ h) (ap (λ e. present e) (sym same) ∙ p)
  ]

  owned-grown : (u : ℕ) → levels.level u ≢ 0 → (q : ℕ) × (u ≡ q * 4096) × (allocated pmm' q ≡ true)
  owned-grown u ne = elim (Bool-cases (u == c)) [
    | inl h ↦ (pg, ground arith, new.marked pg ∙ ground arith)
    | inr h ↦ let (q, e, taken) = tree.owned u (rw h at ne) in (q, e, new.marked q ∙ ground arith)
  ]

  entries-grown :
      (u j : ℕ) → lv.level u ≢ 0 → present (s.mem u j) ≡ true → grown.mem u j ≡ s.mem u j
  entries-grown u j ne p = elim (Bool-cases (u == t && j == i)) [
    | inl q ↦
        let a : u ≡ t = ground arith in
        let b : j ≡ i = ground arith in
        absurd (
          let e : present (s.mem t i) ≡ true =
            ap₂ (λ x y. present (s.mem x y)) (sym a) (sym b) ∙ p in
          let w : true ≡ false = sym e ∙ missing in cc)
    | inr q ↦ mem_kept u j ne q
  ]

  pub grown-Grown : Grown s lv grown levels
  grown-Grown = record {
    tree = record {
      child = child-grown;
      no_huge = no_huge-grown;
      owned = owned-grown;
      pmm_valid = new.valid;
      zero_taken = new.marked 0 ∙ (let z = tree.zero_taken in ground arith);
      zero_none = (let z = tree.zero_none in let h : (0 == c) ≡ false = ground arith in rw h z);
    };
    levels_kept = level_kept;
    entries_kept = entries-grown;
    leaves_kept = leaves-grown;
  }

  -- The entry's target is the new table.
  pub grown-table : levels.level c ≡ suc l
  grown-table = c-Points.0

  pub grown-entry : (present (grown.mem t i) ≡ true) × (addr_of (grown.mem t i) ≡ c)
  grown-entry = (entry_present, entry_addr)
