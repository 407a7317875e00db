-- ===== src/Vmm/Leaf.antt =====
-- The entry that a walk of kernel/mm/vmm.c ends in, and what overwriting it does.
use exec_aegis.Base.{
  ℕ, zero, suc, ◌/◌, ◌%◌, ◌^◌, ◌<◌, ◌≡◌, ◌≢◌, refl, ap, sym, subst, ◌∙◌, true, false, ◌&&◌, inl,
  inr, Option, none, some, ◌==◌, if◌then◌else◌, arith, Bool-cases, Option-cases,
}
use native.Mathlib.Decide.{ℕ_discrete}
use exec_aegis.Vmm.{
  Vmm, present, huge, addr_of, absent, index, find_pt, write, phys_of_user, phys_of_user_raw,
}
use exec_aegis.Vmm.Tree.{Levels, Tree, absent-present, index-InUser, find_pt-SameWalk, same_page}
use exec_aegis.Vmm.Grown.{leaf}

pub leaf-some :
    (mem : ℕ → ℕ → ℕ) (k r v pt : ℕ)
    → find_pt mem k r v ≡ some pt
    → leaf mem k r v ≡ mem pt (index 0 v)
unfolding leaf
leaf-some mem k r v pt e = rw (leaf, e) refl

pub leaf-none : (mem : ℕ → ℕ → ℕ) (k r v : ℕ) → find_pt mem k r v ≡ none → leaf mem k r v ≡ 0
unfolding leaf
leaf-none mem k r v e = rw (leaf, e) refl

-- The lookups read the leaf.
pub phys_of_user-leaf :
    (s : Vmm) (root v : ℕ)
    → phys_of_user s root v ≡ (let e = leaf s.mem 3 root v in if present e then addr_of e else 0)
unfolding phys_of_user leaf
phys_of_user-leaf s root v = elim (Option-cases (find_pt s.mem 3 root v)) [
  | inl e ↦ rw (phys_of_user, leaf, e) refl
  | inr (pt, e) ↦ rw (phys_of_user, leaf, e) refl
]

pub phys_of_user_raw-leaf :
    (s : Vmm) (root v : ℕ)
    → phys_of_user_raw s root v ≡ (let e = leaf s.mem 3 root v in if e == 0 then 0 else addr_of e)
unfolding phys_of_user_raw leaf
phys_of_user_raw-leaf s root v = elim (Option-cases (find_pt s.mem 3 root v)) [
  | inl e ↦ rw (phys_of_user_raw, leaf, e) refl
  | inr (pt, e) ↦ rw (phys_of_user_raw, leaf, e) refl
]

-- A walk is the same for every address of a page.
index-page : (j v v' : ℕ) → v / 4096 ≡ v' / 4096 → index j v ≡ index j v'
unfolding index
index-page zero v v' h = let e : v / 2 ^ 12 % 512 ≡ v' / 2 ^ 12 % 512 = omega arith in e
index-page (suc zero) v v' h = let e : v / 2 ^ 21 % 512 ≡ v' / 2 ^ 21 % 512 = omega arith in e
index-page (suc (suc zero)) v v' h = let e : v / 2 ^ 30 % 512 ≡ v' / 2 ^ 30 % 512 = omega arith in e
index-page (suc (suc (suc j))) v v' h =
    let e : v / 2 ^ 39 % 512 ≡ v' / 2 ^ 39 % 512 = omega arith in e

find_pt-page :
    (mem : ℕ → ℕ → ℕ) (l t v v' : ℕ) → v / 4096 ≡ v' / 4096 → find_pt mem l t v ≡ find_pt mem l t v'
unfolding find_pt
find_pt-page mem zero t v v' h = refl
find_pt-page mem (suc l) t v v' h =
    let i = index-page (suc l) v v' h in
    let below = find_pt-page mem l (addr_of (mem t (index (suc l) v'))) v v' h in
    rw (find_pt, i, below) refl

pub leaf-page :
    (mem : ℕ → ℕ → ℕ) (k r v v' : ℕ) → v / 4096 ≡ v' / 4096 → leaf mem k r v ≡ leaf mem k r v'
leaf-page mem k r v v' h =
    let walk = find_pt-page mem k r v v' h in
    elim (Option-cases (find_pt mem k r v')) [
      | inl e ↦ leaf-none mem k r v (walk ∙ e) ∙ sym (leaf-none mem k r v' e)
      | inr (pt, e) ↦
          leaf-some mem k r v pt (walk ∙ e)
          ∙ ap (λ i. mem pt i) (index-page 0 v v' h)
          ∙ sym (leaf-some mem k r v' pt e)
    ]

-- Is the page of `v'` below `root'` another than that of `v` below `root`?
abbrev pub OtherPage : ℕ → ℕ → ℕ → ℕ → Type 0
OtherPage root v root' v' = root' ≡ root → v' / 4096 ≢ v / 4096

module _ (s : Vmm) (lv : Levels) (tree : Tree s lv) (pt i e : ℕ) (at : lv.level pt ≡ 1) where
  abbrev pub put : Vmm
  put = record s { mem = write s.mem pt i e }

  -- The upper tables are not touched.
  put-above : (t l j : ℕ) → lv.level t ≡ suc (suc l) → put.mem t j ≡ s.mem t j
  unfolding write
  put-above t l j h = elim (Bool-cases (t == pt)) [
    | inl q ↦ absurd (
        let a : t ≡ pt = ground arith in
        let b : suc (suc l) ≡ 1 = sym h ∙ ap (λ x. lv.level x) a ∙ at in omega arith)
    | inr q ↦ rw q refl
  ]

  pub put-Tree : Tree put lv
  put-Tree = record {
    child = λ t l j h low p.
        let same = put-above t l j h in
        let old = tree.child t l j h low (ap (λ e. present e) (sym same) ∙ p) in
        let a = ap (λ e. addr_of e) same in
        (
          ap (λ x. lv.level x) a ∙ old.0,
          ap (λ x. lv.parent x) a ∙ old.1,
          ap (λ x. lv.slot x) a ∙ old.2,
        );
    no_huge = λ t j h p.
        let same = put-above t 0 j h in
        ap (λ e. huge e) same ∙ tree.no_huge t j h (ap (λ e. present e) (sym same) ∙ p);
    owned = tree.owned;
    pmm_valid = tree.pmm_valid;
    zero_taken = tree.zero_taken;
    zero_none = tree.zero_none;
  }

  put-find_pt :
      (l t v : ℕ) → lv.level t ≡ suc l → v < 2 ^ 47 → find_pt put.mem l t v ≡ find_pt s.mem l t v
  unfolding find_pt
  put-find_pt zero t v h user = refl
  put-find_pt (suc l) t v h user =
      let j = index (suc l) v in
      let same : put.mem t j ≡ s.mem t j = put-above t l j h in
      elim (Bool-cases (absent l (s.mem t j))) [
        | inl a ↦
            let a' : absent l (put.mem t j) ≡ true = ap (λ e. absent l e) same ∙ a in
            rw (find_pt, a, a') refl
        | inr a ↦
            let a' : absent l (put.mem t j) ≡ false = ap (λ e. absent l e) same ∙ a in
            let below =
              tree.child t l j h (index-InUser l v user) (absent-present l (s.mem t j) a) in
            rw (find_pt, a, a')
              (ap (λ e. find_pt put.mem l (addr_of e) v) same
                ∙ put-find_pt l (addr_of (s.mem t j)) v below.0 user)
      ]

  module _ (root v : ℕ) (is_root : lv.level root ≡ 4) (user : v < 2 ^ 47) (slot : i ≡ index 0 v)
      (walk : find_pt s.mem 3 root v ≡ some pt) where
    pub put-here : leaf put.mem 3 root v ≡ e
    unfolding write
    put-here =
        leaf-some put.mem 3 root v pt (put-find_pt 3 root v is_root user ∙ walk)
        ∙ (let same : (index 0 v == i) ≡ true = ground arith in
            let self : (pt == pt) ≡ true = ground arith in rw (self, same) refl)

    unwritten :
        (root' v' : ℕ)
        → lv.level root' ≡ 4
        → v' < 2 ^ 47
        → OtherPage root v root' v'
        → (p : ℕ) → find_pt s.mem 3 root' v' ≡ some p
        → put.mem p (index 0 v') ≡ s.mem p (index 0 v')
    unfolding write
    unwritten root' v' is_root' user' other p w = elim (Bool-cases (p == pt && index 0 v' == i)) [
      | inr q ↦ rw q refl
      | inl q ↦
          let a : p ≡ pt = ground arith in
          let b : index 0 v' ≡ i = ground arith in
          let same =
            find_pt-SameWalk s lv tree 3 root' root v' v p is_root' is_root user' user w
              (walk ∙ ap (λ x. let o : Option ℕ = some x in o) (sym a)) in
          absurd (
            other same.same_start (
              same_page v' v user' user (λ j le. elim (ℕ_discrete j 0) [
                | yes z ↦ subst (λ j. index j v' ≡ index j v) (sym z) (b ∙ slot)
                | no ne ↦ same.same_slots j (omega arith) le
              ])))
    ]

    pub put-other :
        (root' v' : ℕ)
        → lv.level root' ≡ 4
        → v' < 2 ^ 47
        → OtherPage root v root' v'
        → leaf put.mem 3 root' v' ≡ leaf s.mem 3 root' v'
    put-other root' v' is_root' user' other = elim (Option-cases (find_pt s.mem 3 root' v')) [
      | inl none_there ↦
          leaf-none put.mem 3 root' v' (put-find_pt 3 root' v' is_root' user' ∙ none_there)
          ∙ sym (leaf-none s.mem 3 root' v' none_there)
      | inr (p, w) ↦
          leaf-some put.mem 3 root' v' p (put-find_pt 3 root' v' is_root' user' ∙ w)
          ∙ unwritten root' v' is_root' user' other p w
          ∙ sym (leaf-some s.mem 3 root' v' p w)
    ]
