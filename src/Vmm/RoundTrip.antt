-- ===== src/Vmm/RoundTrip.antt =====
-- Mapping and unmapping a page of kernel/mm/vmm.c.
use exec_aegis.Base.{ℕ, ◌/◌, ◌^◌, ◌<◌, ◌≡◌, refl, ap, sym, subst, ◌∙◌, false, if◌then◌else◌, arith}
use native.Mathlib.Decide.{ℕ_discrete}
use exec_aegis.Vmm.{Vmm, present, addr_of, phys_of_user, unmap_user_page, map_user_page, mapped}
use exec_aegis.Vmm.Tree.{Levels, Tree}
use exec_aegis.Vmm.Grown.{leaf}
use exec_aegis.Vmm.Leaf.{leaf-page, phys_of_user-leaf, OtherPage}
use exec_aegis.Vmm.Map.{IsMapped, MapEnds, map_user_page_lem, entry-present}
use exec_aegis.Vmm.Bits.{AreFlags, IsFrame}
use exec_aegis.Vmm.Unmap.{unmapped_entry, unmap_user_page_lem}

-- What the lookup makes of an entry.
phys_of_entry :
    (s s' : Vmm) (root v : ℕ)
    → leaf s'.mem 3 root v ≡ leaf s.mem 3 root v
    → phys_of_user s' root v ≡ phys_of_user s root v
phys_of_entry s s' root v e =
    phys_of_user-leaf s' root v
    ∙ ap (λ e. let r : ℕ = if present e then addr_of e else 0 in r) e
    ∙ sym (phys_of_user-leaf s root v)

pub not_present :
    (s : Vmm) (root v : ℕ) → present (leaf s.mem 3 root v) ≡ false → phys_of_user s root v ≡ 0
not_present s root v h = phys_of_user-leaf s root v ∙ rw h refl

-- The same for every address of the page.
same_page-phys :
    (s : Vmm) (root v v' : ℕ)
    → v' / 4096 ≡ v / 4096
    → phys_of_user s root v' ≡ phys_of_user s root v
same_page-phys s root v v' h =
    phys_of_user-leaf s root v'
    ∙ ap (λ e. let r : ℕ = if present e then addr_of e else 0 in r) (leaf-page s.mem 3 root v' v h)
    ∙ sym (phys_of_user-leaf s root v)

-- In a valid tree, mapping a user page (with a frame and flags as vmm_map_user_page expects them) and
-- unmapping it again changes the lookup of no user address of any root.
pub map-unmap :
    (s s' : Vmm) (lv : Levels)
    → Tree s lv
    → (root v phys flags : ℕ) → lv.level root ≡ 4
    → v < 2 ^ 47
    → IsFrame phys
    → AreFlags flags
    → map_user_page s root v phys flags ≡ mapped s'
    → (root' v' : ℕ) → lv.level root' ≡ 4
    → v' < 2 ^ 47
    → phys_of_user (unmap_user_page s' root v) root' v' ≡ phys_of_user s root' v'
unfolding MapEnds
map-unmap s s' lv tree root v phys flags is_root user frame good e root' v' is_root' user' =
    let m : IsMapped s lv root v phys flags s' =
      subst (λ r. MapEnds s lv root v phys flags r) e
        (map_user_page_lem s lv tree root v phys flags is_root user frame good) in
    let still : (r : ℕ) → lv.level r ≡ 4 → m.levels.level r ≡ 4 =
      λ r h. m.levels_kept r (λ z. absurd (omega arith)) ∙ h in
    let u = unmap_user_page_lem s' m.levels m.tree root v (still root is_root) user in
    let after = unmap_user_page s' root v in
    let p = entry-present phys flags frame in
    let cleared : leaf after.mem 3 root v ≡ 0 = u.entry ∙ ap unmapped_entry m.entry ∙ rw p refl in
    let here : phys_of_user after root v ≡ phys_of_user s root v =
      not_present after root v (ap (λ e. present e) cleared)
      ∙ sym (not_present s root v m.was_free) in
    let elsewhere : OtherPage root v root' v'
        → phys_of_user after root' v' ≡ phys_of_user s root' v' =
      λ o.
        phys_of_entry s after root' v'
          (u.others root' v' (still root' is_root') user' o ∙ m.others root' v' is_root' user' o) in
    elim (ℕ_discrete root' root) [
      | no ne ↦ elsewhere (λ a. absurd (ne a))
      | yes a ↦ elim (ℕ_discrete (v' / 4096) (v / 4096)) [
        | no ne ↦ elsewhere (λ a. ne)
        | yes b ↦
            subst (λ r. phys_of_user after r v' ≡ phys_of_user s r v') (sym a)
              (same_page-phys after root v v' b ∙ here ∙ sym (same_page-phys s root v v' b))
      ]
    ]
