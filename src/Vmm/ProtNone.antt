-- ===== src/Vmm/ProtNone.antt =====
-- A page of kernel/mm/vmm.c whose protection is PROT_NONE.
use exec_aegis.Base.{
  ℕ, ◌^◌, ◌<◌, ◌≡◌, ◌≢◌, refl, ap, sym, ◌∙◌, false, inl, inr, ◌==◌, if◌then◌else◌, arith,
  Bool-cases, Option-cases,
}
use exec_aegis.Vmm.{
  Vmm, present, addr_of, index, find_pt, phys_of_user, phys_of_user_raw, unmap_user_page,
  set_user_prot,
}
use exec_aegis.Vmm.Tree.{Levels, Tree}
use exec_aegis.Vmm.Grown.{leaf}
use exec_aegis.Vmm.Leaf.{leaf-some, phys_of_user-leaf, phys_of_user_raw-leaf}
use exec_aegis.Vmm.Unmap.{set_user_prot-OneChanged}
use exec_aegis.Vmm.RoundTrip.{not_present}

not_present-set_user_prot :
    (s : Vmm) (root v flags : ℕ)
    → present (leaf s.mem 3 root v) ≡ false
    → (phys_of_user_raw s root v ≢ 0)
    → set_user_prot s root v flags ≡ (s, flags == 0)
unfolding set_user_prot phys_of_user_raw
not_present-set_user_prot s root v flags h there = elim (Option-cases (find_pt s.mem 3 root v)) [
  | inl e ↦ absurd (there (rw (phys_of_user_raw, e) refl))
  | inr (pt, walk) ↦
      let absent_here : present (s.mem pt (index 0 v)) ≡ false =
        ap (λ e. present e) (sym (leaf-some s.mem 3 root v pt walk)) ∙ h in
      rw (set_user_prot, walk, absent_here) refl
]

not_present-unmap_user_page :
    (s : Vmm) (root v : ℕ) → present (leaf s.mem 3 root v) ≡ false → unmap_user_page s root v ≡ s
unfolding unmap_user_page
not_present-unmap_user_page s root v h = elim (Option-cases (find_pt s.mem 3 root v)) [
  | inl e ↦ rw (unmap_user_page, e) refl
  | inr (pt, walk) ↦
      let absent_here : present (s.mem pt (index 0 v)) ≡ false =
        ap (λ e. present e) (sym (leaf-some s.mem 3 root v pt walk)) ∙ h in
      rw (unmap_user_page, walk, absent_here) refl
]

addr_of_addr : (e : ℕ) → addr_of (addr_of e) ≡ addr_of e
addr_of_addr e = omega arith

-- In a valid tree, if a user page has a frame (not 0) and gets protection 0, then it is no longer found
-- by vmm_phys_of_user, while vmm_phys_of_user_raw still gives the frame; vmm_unmap_user_page leaves the
-- entry as it is; and vmm_set_user_prot changes nothing, and fails unless the protection is 0 again.
pub prot_none_stays :
    (s : Vmm) (lv : Levels)
    → Tree s lv
    → (root v phys flags : ℕ) → lv.level root ≡ 4
    → v < 2 ^ 47
    → phys_of_user s root v ≡ phys
    → 0 < phys
    → let s' = (set_user_prot s root v 0).0 in
      (set_user_prot s' root v flags ≡ (s', flags == 0))
      × (unmap_user_page s' root v ≡ s')
      × (phys_of_user s' root v ≡ 0)
      × (phys_of_user_raw s' root v ≡ phys)
prot_none_stays s lv tree root v phys flags is_root user e pos =
    let old = leaf s.mem 3 root v in
    let s' = (set_user_prot s root v 0).0 in
    let c = set_user_prot-OneChanged s lv tree root v 0 is_root user in
    elim (Bool-cases (present old)) [
      | inr q ↦ absurd (let z = not_present s root v q in omega arith)
      | inl q ↦
          let is_phys : addr_of old ≡ phys = sym (sym e ∙ phys_of_user-leaf s root v ∙ rw q refl) in
          let now : leaf s'.mem 3 root v ≡ addr_of old = c.entry ∙ rw q refl in
          let gone : present (leaf s'.mem 3 root v) ≡ false =
            ap (λ e. present e) now ∙ ground arith in
          let nz : (addr_of old == 0) ≡ false = ground arith in
          let raw : phys_of_user_raw s' root v ≡ phys =
            phys_of_user_raw-leaf s' root v
            ∙ ap (λ e. let r : ℕ = if e == 0 then 0 else addr_of e in r) now
            ∙ rw nz (addr_of_addr old)
            ∙ is_phys in
          (
            not_present-set_user_prot s' root v flags gone (λ z. absurd (omega arith)),
            not_present-unmap_user_page s' root v gone,
            not_present s' root v gone,
            raw,
          )
    ]
