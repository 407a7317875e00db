-- ===== src/Vmm/Map.antt =====
-- vmm_map_user_page of kernel/mm/vmm.c and how it ends.
use exec_aegis.Base.{
  ℕ, ◌+◌, ◌%◌, ◌^◌, ◌<◌, ◌≡◌, ◌≢◌, refl, ap, sym, ◌∙◌, ◌⊎◌, true, false, ◌||◌, inl, inr, some, ◌==◌,
  ltb, if◌then◌else◌, arith, Bool-cases,
}
use exec_aegis.Vmm.{
  Vmm, present, addr_of, index, find_pt, write, phys_of_user, with_present, ensure_pt, Mapping,
  mapped, panics, map_user_page,
}
use exec_aegis.Vmm.Tree.{Levels, Tree}
use exec_aegis.Vmm.Grown.{leaf, Grown}
use exec_aegis.Vmm.Bits.{AreFlags, IsFrame, or_present}
use exec_aegis.Vmm.Tables.{Full, ensure_pt_lem}
use exec_aegis.Vmm.Leaf.{
  leaf-some, phys_of_user-leaf, OtherPage, put, put-Tree, put-here, put-other,
}

entry-addr :
    (phys flags : ℕ) → IsFrame phys → AreFlags flags → addr_of (phys + with_present flags) ≡ phys
entry-addr phys flags frame good =
    let a = frame.aligned in
    let b = frame.small in
    let c = good.low in
    let d = good.word in
    elim (Bool-cases (present flags)) [
      | inl p ↦ rw p (omega arith)
      | inr p ↦ rw p (let e : flags % 2 ≢ 1 = ground arith in omega arith)
    ]

pub entry-present : (phys flags : ℕ) → IsFrame phys → present (phys + with_present flags) ≡ true
entry-present phys flags frame =
    let a = frame.aligned in
    elim (Bool-cases (present flags)) [ inl p ↦ rw p (ground arith) | inr p ↦ rw p (ground arith) ]

pub record IsMapped (s : Vmm) (lv : Levels) (root v phys flags : ℕ) (s' : Vmm) : Type 0 where
  pub was_free : present (leaf s.mem 3 root v) ≡ false
  pub levels : Levels
  pub tree : Tree s' levels
  pub levels_kept : (t : ℕ) → lv.level t ≢ 0 → levels.level t ≡ lv.level t
  pub entry : leaf s'.mem 3 root v ≡ phys + with_present flags
  pub found : phys_of_user s' root v ≡ phys
  pub others :
      (root' v' : ℕ)
      → lv.level root' ≡ 4
      → v' < 2 ^ 47
      → OtherPage root v root' v'
      → leaf s'.mem 3 root' v' ≡ leaf s.mem 3 root' v'

unfoldable pub MapEnds : Vmm → Levels → ℕ → ℕ → ℕ → ℕ → Mapping → Type 0
MapEnds s lv root v phys flags (mapped s') = IsMapped s lv root v phys flags s'
MapEnds s lv root v phys flags panics =
    (0 < v % 4096)
    ⊎ (0 < phys % 4096)
    ⊎ (present (leaf s.mem 3 root v) ≡ true)
    ⊎ Full (ensure_pt 3 s root v).0

put_entry :
    (s : Vmm) (lv : Levels) (root v phys flags : ℕ) (made : Vmm) (lv' : Levels) (pt : ℕ)
    → Grown s lv made lv'
    → lv.level root ≡ 4
    → v < 2 ^ 47
    → IsFrame phys
    → AreFlags flags
    → lv'.level pt ≡ 1
    → find_pt made.mem 3 root v ≡ some pt
    → present (made.mem pt (index 0 v)) ≡ false
    → IsMapped s lv root v phys flags
        (record made { mem = write made.mem pt (index 0 v) (phys + with_present flags) })
put_entry s lv root v phys flags made lv' pt g is_root user frame good at walk free =
    let e = phys + with_present flags in
    let root_kept : (r : ℕ) → lv.level r ≡ 4 → lv'.level r ≡ 4 =
      λ r h. g.levels_kept r (λ z. absurd (omega arith)) ∙ h in
    let here =
      put-here made lv' g.tree pt (index 0 v) e at root v (root_kept root is_root) user refl walk in
    record {
      was_free =
          ap (λ e. present e)
            (sym (g.leaves_kept 3 root v is_root user) ∙ leaf-some made.mem 3 root v pt walk)
          ∙ free;
      levels = lv';
      tree = put-Tree made lv' g.tree pt (index 0 v) e at;
      levels_kept = g.levels_kept;
      entry = here;
      found =
          phys_of_user-leaf (put made lv' g.tree pt (index 0 v) e at) root v
          ∙ ap (λ e. let r : ℕ = if present e then addr_of e else 0 in r) here
          ∙ (let p = entry-present phys flags frame in rw p (entry-addr phys flags frame good));
      others = λ root' v' h u o.
          put-other made lv' g.tree pt (index 0 v) e at root v (root_kept root is_root) user refl
            walk root' v' (root_kept root' h) u o
          ∙ g.leaves_kept 3 root' v' h u;
    }

-- In a valid tree, for a root, a user address, a frame below 2^52 that is aligned, and flags in the low 12
-- bits and bit 63: if vmm_map_user_page does not halt, the page's lookup gives the frame, its entry has
-- the flags and the present bit, it was free before, every other user page of every root keeps its
-- entry, and the tree is valid with all its tables. It halts only if an address is not aligned, the page
-- is present already, or no page of memory is left.
pub map_user_page_lem :
    (s : Vmm) (lv : Levels)
    → Tree s lv
    → (root v phys flags : ℕ) → lv.level root ≡ 4
    → v < 2 ^ 47
    → IsFrame phys
    → AreFlags flags
    → MapEnds s lv root v phys flags (map_user_page s root v phys flags)
unfolding map_user_page MapEnds
map_user_page_lem s lv tree root v phys flags is_root user frame good =
    let pte = or_present phys flags frame good in
    let made = ensure_pt_lem 3 s lv tree root v is_root user in
    let r = ensure_pt 3 s root v in
    elim (Bool-cases (ltb 0 (v % 4096) || ltb 0 (phys % 4096))) [
      | inl bad ↦
          rw (map_user_page, bad)
            (elim (Bool-cases (ltb 0 (v % 4096))) [
              | inl b ↦ inl (ground arith)
              | inr b ↦ inr (inl (ground arith))
            ])
      | inr ok ↦ elim made.result [
        | inl (z, full) ↦
            let out : (r.1 == 0) ≡ true = ground arith in
            rw (map_user_page, ok, out) (inr (inr (inr full)))
        | inr (pos, at, walk) ↦
            let more : (r.1 == 0) ≡ false = ground arith in
            elim (Bool-cases (present ((r.0).mem r.1 (index 0 v)))) [
              | inl p ↦
                  rw (map_user_page, ok, more, p)
                    (inr (
                      inr (
                        inl (
                          ap (λ e. present e)
                            (sym (made.grown.leaves_kept 3 root v is_root user)
                              ∙ leaf-some (r.0).mem 3 root v r.1 walk)
                          ∙ p))))
              | inr p ↦
                  rw (map_user_page, ok, more, p, pte)
                    (put_entry s lv root v phys flags r.0 made.levels r.1 made.grown is_root user
                      frame good at walk p)
            ]
      ]
    ]
