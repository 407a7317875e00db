-- ===== src/Vmm/Protect.antt =====
-- vmm_set_user_prot of kernel/mm/vmm.c for flags as its callers pass them.
use exec_aegis.Base.{
  ℕ, ◌+◌, ◌/◌, ◌%◌, ◌^◌, ◌<◌, ◌≡◌, refl, ap, sym, ◌∙◌, ◌⊎◌, Bool, true, false, inl, inr, ◌==◌,
  arith, Bool-cases, Option-cases,
}
use exec_aegis.Vmm.{Vmm, present, addr_of, index, find_pt, reflagged, set_user_prot}
use exec_aegis.Vmm.Tree.{Levels, Tree}
use exec_aegis.Vmm.Grown.{leaf}
use exec_aegis.Vmm.Leaf.{leaf-some, leaf-none, OtherPage}
use exec_aegis.Vmm.Bits.{AreFlags, or_flags}
use exec_aegis.Vmm.Unmap.{set_user_prot-OneChanged}

-- Two entries of a page and the result of the call between them: the frame of the one and the flags
-- asked for; or nothing, on a page that is not present, where only PROT_NONE can succeed.
pub data Reprotected (flags old new : ℕ) (ok : Bool) : Type 0 where
  applied :
      present old ≡ true
      → addr_of new ≡ addr_of old
      → new % 4096 ≡ flags % 4096
      → new / 2 ^ 52 ≡ flags / 2 ^ 52
      → ok ≡ true
      → Reprotected flags old new ok
  not_present :
      present old ≡ false → new ≡ old → (ok ≡ false) ⊎ (flags ≡ 0) → Reprotected flags old new ok

pub record Protects (s : Vmm) (lv : Levels) (root v flags : ℕ) (r : Vmm × Bool) : Type 0 where
  pub tree : Tree r.0 lv
  pub page : Reprotected flags (leaf s.mem 3 root v) (leaf (r.0).mem 3 root v) r.1
  pub others :
      (root' v' : ℕ)
      → lv.level root' ≡ 4
      → v' < 2 ^ 47
      → OtherPage root v root' v'
      → leaf (r.0).mem 3 root' v' ≡ leaf s.mem 3 root' v'

reflagged_sum : (flags e : ℕ) → AreFlags flags → reflagged flags e ≡ addr_of e + flags
reflagged_sum flags e good = elim (Bool-cases (flags == 0)) [
  | inl z ↦ rw z (ground arith)
  | inr nz ↦ rw nz (or_flags e flags good)
]

-- The result of the call.
succeeds :
    (s : Vmm) (root v flags : ℕ)
    → present (leaf s.mem 3 root v) ≡ true
    → (set_user_prot s root v flags).1 ≡ true
unfolding set_user_prot
succeeds s root v flags p = elim (Option-cases (find_pt s.mem 3 root v)) [
  | inl e ↦
      absurd
        (let z : false ≡ true = ap (λ e. present e) (sym (leaf-none s.mem 3 root v e)) ∙ p in cc z)
  | inr (pt, walk) ↦
      let here : present (s.mem pt (index 0 v)) ≡ true =
        ap (λ e. present e) (sym (leaf-some s.mem 3 root v pt walk)) ∙ p in
      rw (set_user_prot, walk, here) refl
]

fails :
    (s : Vmm) (root v flags : ℕ)
    → present (leaf s.mem 3 root v) ≡ false
    → ((set_user_prot s root v flags).1 ≡ false) ⊎ (flags ≡ 0)
unfolding set_user_prot
fails s root v flags p = elim (Option-cases (find_pt s.mem 3 root v)) [
  | inl e ↦ inl (rw (set_user_prot, e) refl)
  | inr (pt, walk) ↦
      let here : present (s.mem pt (index 0 v)) ≡ false =
        ap (λ e. present e) (sym (leaf-some s.mem 3 root v pt walk)) ∙ p in
      elim (Bool-cases (flags == 0)) [
        | inl z ↦ inr (ground arith)
        | inr nz ↦ inl (rw (set_user_prot, walk, here) nz)
      ]
]

-- In a valid tree, for a root, a user address, and flags in the low 12 bits and bit 63:
-- vmm_set_user_prot of a page that is present succeeds and leaves an entry with the same frame and the
-- low 12 bits and bits 52 to 63 of the flags given (none for PROT_NONE); on a page that is not present
-- it leaves the entry, and fails unless the flags are 0. Every other user page of every root keeps its
-- entry, and the tree stays valid.
pub set_user_prot_lem :
    (s : Vmm) (lv : Levels)
    → Tree s lv
    → (root v flags : ℕ) → lv.level root ≡ 4
    → v < 2 ^ 47
    → AreFlags flags
    → Protects s lv root v flags (set_user_prot s root v flags)
set_user_prot_lem s lv tree root v flags is_root user good =
    let c = set_user_prot-OneChanged s lv tree root v flags is_root user in
    let old = leaf s.mem 3 root v in
    let new = leaf (set_user_prot s root v flags).0.mem 3 root v in
    record {
      tree = c.tree;
      page = elim (Bool-cases (present old)) [
        | inl p ↦
            let sum : new ≡ addr_of old + flags = c.entry ∙ rw p (reflagged_sum flags old good) in
            let low = good.low in
            let word = good.word in
            applied p (omega (arith, sum)) (omega (arith, sum)) (omega (arith, sum))
              (succeeds s root v flags p)
        | inr p ↦ not_present p (c.entry ∙ rw p refl) (fails s root v flags p)
      ];
      others = c.others;
    }
