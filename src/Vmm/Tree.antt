-- ===== src/Vmm/Tree.antt =====
-- The page tables of kernel/mm/vmm.c as trees, and the walks in them.
use exec_aegis.Base.{
  ℕ, zero, suc, ◌*◌, ◌/◌, ◌%◌, ◌^◌, ◌≤◌, ◌<◌, ◌≡◌, ◌≢◌, refl, ap, sym, subst, ◌∙◌, true, false, inl,
  inr, none, some, arith, Bool-cases,
}
use native.Mathlib.Decide.{ℕ_discrete}
use exec_aegis.Pmm.{allocated}
use exec_aegis.Pmm.Alloc.{IsValid}
use exec_aegis.Vmm.{Vmm, present, huge, addr_of, absent, index, find_pt}

-- Which pages are tables: 0 for none, 1 more than the level else, and which entry points to each.
pub record Levels : Type 0 where
  pub level : ℕ → ℕ
  pub parent : ℕ → ℕ
  pub slot : ℕ → ℕ

-- The lower half of a root is the user's; below it all entries are.
abbrev pub InUser : ℕ → ℕ → Type 0
InUser l i = l ≡ 2 → i < 256

pub record Tree (s : Vmm) (lv : Levels) : Type 0 where
  pub child :
      (t l i : ℕ)
      → lv.level t ≡ suc (suc l)
      → InUser l i
      → present (s.mem t i) ≡ true
      → (lv.level (addr_of (s.mem t i)) ≡ suc l)
        × (lv.parent (addr_of (s.mem t i)) ≡ t)
        × (lv.slot (addr_of (s.mem t i)) ≡ i)
  pub no_huge : (t i : ℕ) → lv.level t ≡ 2 → present (s.mem t i) ≡ true → huge (s.mem t i) ≡ false
  pub owned : (t : ℕ) → lv.level t ≢ 0 → (pg : ℕ) × (t ≡ pg * 4096) × (allocated s.pmm pg ≡ true)
  pub pmm_valid : IsValid s.pmm
  pub zero_taken : allocated s.pmm 0 ≡ true
  pub zero_none : lv.level 0 ≡ 0

pub absent-present : (l e : ℕ) → absent l e ≡ false → present e ≡ true
unfolding absent
absent-present zero e h = ground arith
absent-present (suc l) e h = ground arith

pub present-absent : (l e : ℕ) → present e ≡ true → (l ≡ 0 → huge e ≡ false) → absent l e ≡ false
unfolding absent
present-absent zero e h small = let s = small refl in ground arith
present-absent (suc l) e h small = ground arith

pub missing-absent : (l e : ℕ) → present e ≡ false → absent l e ≡ true
unfolding absent
missing-absent zero e h = ground arith
missing-absent (suc l) e h = ground arith

-- A user's address has a slot in the lower half of the root.
pub index-InUser : (l v : ℕ) → v < 2 ^ 47 → InUser l (index (suc l) v)
unfolding index
index-InUser l v h e =
    subst (λ l. index (suc l) v < 256) (sym e)
      (let small : v / 2 ^ 39 % 512 < 256 = omega arith in small)

-- One step of the walk.
pub record Below (mem : ℕ → ℕ → ℕ) (l t v p : ℕ) : Type 0 where
  pub entry_present : present (mem t (index (suc l) v)) ≡ true
  pub further : find_pt mem l (addr_of (mem t (index (suc l) v))) v ≡ some p

pub find_pt-Below :
    (mem : ℕ → ℕ → ℕ) (l t v p : ℕ) → find_pt mem (suc l) t v ≡ some p → Below mem l t v p
unfolding find_pt
find_pt-Below mem l t v p e = elim (Bool-cases (absent l (mem t (index (suc l) v)))) [
  | inl h ↦ absurd (let q : none ≡ some p = sym (rw h refl) ∙ e in cc)
  | inr h ↦ record {
    entry_present = absent-present l (mem t (index (suc l) v)) h;
    further = rw h at e;
  }
]

-- Two walks that end in the same table are the same walk.
pub record SameWalk (l t t' v v' : ℕ) : Type 0 where
  pub same_start : t ≡ t'
  pub same_slots : (j : ℕ) → 0 < j → j ≤ l → index j v ≡ index j v'

module _ (s : Vmm) (lv : Levels) (tree : Tree s lv) where
  pub find_pt-level :
      (l t v p : ℕ)
      → lv.level t ≡ suc l
      → v < 2 ^ 47
      → find_pt s.mem l t v ≡ some p
      → lv.level p ≡ 1
  unfolding find_pt
  find_pt-level zero t v p h user e = subst (λ x. lv.level x ≡ 1) (let q : t ≡ p = cc e in q) h
  find_pt-level (suc l) t v p h user e =
      let b = find_pt-Below s.mem l t v p e in
      find_pt-level l (addr_of (s.mem t (index (suc l) v))) v p
        (tree.child t l (index (suc l) v) h (index-InUser l v user) b.entry_present).0 user
        b.further

  pub find_pt-SameWalk :
      (l t t' v v' p : ℕ)
      → lv.level t ≡ suc l
      → lv.level t' ≡ suc l
      → v < 2 ^ 47
      → v' < 2 ^ 47
      → find_pt s.mem l t v ≡ some p
      → find_pt s.mem l t' v' ≡ some p
      → SameWalk l t t' v v'
  unfolding find_pt
  find_pt-SameWalk zero t t' v v' p h h' u u' e e' = record {
    same_start = cc (e, e');
    same_slots = λ j pos le. absurd (omega arith);
  }
  find_pt-SameWalk (suc l) t t' v v' p h h' u u' e e' =
      let b = find_pt-Below s.mem l t v p e in
      let b' = find_pt-Below s.mem l t' v' p e' in
      let c = tree.child t l (index (suc l) v) h (index-InUser l v u) b.entry_present in
      let c' = tree.child t' l (index (suc l) v') h' (index-InUser l v' u') b'.entry_present in
      let w =
        find_pt-SameWalk l (addr_of (s.mem t (index (suc l) v)))
          (addr_of (s.mem t' (index (suc l) v'))) v v' p c.0 c'.0 u u' b.further b'.further in
      let top : index (suc l) v ≡ index (suc l) v' =
        sym (c.2) ∙ ap (λ x. lv.slot x) (w.same_start) ∙ c'.2 in
      record {
        same_start = sym (c.1) ∙ ap (λ x. lv.parent x) (w.same_start) ∙ c'.1;
        same_slots = λ j pos le. elim (ℕ_discrete j (suc l)) [
          | yes q ↦ subst (λ j. index j v ≡ index j v') (sym q) top
          | no ne ↦ w.same_slots j pos (omega arith)
        ];
      }

-- The page that an address is in is told by its four indices.
pub same_page :
    (v v' : ℕ)
    → v < 2 ^ 47
    → v' < 2 ^ 47
    → ((j : ℕ) → j ≤ 3 → index j v ≡ index j v')
    → v / 4096 ≡ v' / 4096
unfolding index
same_page v v' u u' h =
    let a : v / 2 ^ 12 % 512 ≡ v' / 2 ^ 12 % 512 = h 0 (omega arith) in
    let b : v / 2 ^ 21 % 512 ≡ v' / 2 ^ 21 % 512 = h 1 (omega arith) in
    let c : v / 2 ^ 30 % 512 ≡ v' / 2 ^ 30 % 512 = h 2 (omega arith) in
    let d : v / 2 ^ 39 % 512 ≡ v' / 2 ^ 39 % 512 = h 3 (omega arith) in omega arith
