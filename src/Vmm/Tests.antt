-- ===== src/Vmm/Tests.antt =====
-- The page tables of kernel/mm/vmm.c at a concrete memory, and the theorems there.
use exec_aegis.Base.{
  ℕ, ◌+◌, ◌≡◌, refl, subst, true, false, ◌==◌, if◌then◌else◌, inl, inr, arith, Bool-cases,
}
use exec_aegis.Pmm.{Pmm, allocated, alloc_page, find_page, find_bit, bit, mark, update, set_bit}
use exec_aegis.Pmm.Alloc.{IsValid}
use exec_aegis.Vmm.{
  Vmm, index, find_pt, absent, write, zeroed, ensure_pt, ensure_table, alloc_table, phys_of_user,
  phys_of_user_raw, unmap_user_page, set_user_prot, map_user_page, mapped, panics, Mapping,
}
use exec_aegis.Vmm.Tree.{Levels, Tree}
use exec_aegis.Vmm.Map.{IsMapped, MapEnds, map_user_page_lem}
use exec_aegis.Vmm.Bits.{AreFlags, IsFrame}
use exec_aegis.Vmm.RoundTrip.{map-unmap}
use exec_aegis.Vmm.ProtNone.{prot_none_stays}
use exec_aegis.Vmm.Protect.{Protects, set_user_prot_lem}

-- Pages 0 to 2 are taken, those from 8 on too; page 2 is an empty root.
abbrev memory : Pmm
memory = record { bitmap = λ i. if i == 0 then 7 else 255; refcount = λ pg. 0 }

abbrev root : ℕ
root = 8192

abbrev empty : Vmm
empty = record { mem = λ t i. 0; pmm = memory }

abbrev only_root : Levels
only_root = record { level = λ t. if t == 8192 then 4 else 0; parent = λ t. 0; slot = λ t. 0 }

-- A page of the user, and a frame that is none of the allocator's.
abbrev virt : ℕ
virt = 4198400

abbrev frame : ℕ
frame = 1048576

memory-zero : allocated memory 0 ≡ true
unfolding allocated bit
memory-zero = refl

memory-root : allocated memory 2 ≡ true
unfolding allocated bit
memory-root = refl

memory-IsValid : IsValid memory
memory-IsValid = record {
  bytes = λ i. ground arith;
  counted = λ pg h. refl;
  small = λ pg. omega arith;
}

empty-Tree : Tree empty only_root
empty-Tree = record {
  child = λ t l i h low p. absurd (let q : false ≡ true = p in cc);
  no_huge = λ t i h p. absurd (let q : false ≡ true = p in cc);
  owned = λ t h. elim (Bool-cases (t == 8192)) [
    | inl q ↦ (2, ground arith, memory-root)
    | inr q ↦ absurd (h (rw q refl))
  ];
  pmm_valid = memory-IsValid;
  zero_taken = memory-zero;
  zero_none = refl;
}

-- The state after a mapping, `s` where the kernel halts.
after : Vmm → Mapping → Vmm
after s (mapped t) = t
after s panics = s

abbrev page_in : Vmm
page_in = after empty (map_user_page empty root virt frame 7)

maps : map_user_page empty root virt frame 7 ≡ mapped page_in
unfolding map_user_page ensure_pt ensure_table alloc_table alloc_page find_page find_bit bit
    allocated index write zeroed mark update set_bit after
maps = refl

looks_up : phys_of_user page_in root (virt + 5) ≡ frame
unfolding map_user_page ensure_pt ensure_table alloc_table alloc_page find_page find_bit bit
    allocated index write zeroed mark update set_bit phys_of_user find_pt after absent
looks_up = refl

-- A second mapping of the page halts.
maps_once : map_user_page page_in root virt frame 7 ≡ panics
unfolding map_user_page ensure_pt ensure_table alloc_table alloc_page find_page find_bit bit
    allocated index write zeroed mark update set_bit after
maps_once = refl

frame-IsFrame : IsFrame frame
frame-IsFrame = record { aligned = refl; small = omega arith }

seven-AreFlags : AreFlags 7
seven-AreFlags = record { low = omega arith; word = omega arith }

map_user_page_lem_example :
    MapEnds empty only_root root virt frame 7 (map_user_page empty root virt frame 7)
map_user_page_lem_example =
    map_user_page_lem empty only_root empty-Tree root virt frame 7 refl (omega arith) frame-IsFrame
      seven-AreFlags

map-unmap_example :
    phys_of_user (unmap_user_page page_in root virt) root virt ≡ phys_of_user empty root virt
map-unmap_example =
    map-unmap empty page_in only_root empty-Tree root virt frame 7 refl (omega arith) frame-IsFrame
      seven-AreFlags maps root virt refl (omega arith)

outcome : IsMapped empty only_root root virt frame 7 page_in
unfolding MapEnds
outcome = subst (λ r. MapEnds empty only_root root virt frame 7 r) maps map_user_page_lem_example

outcome-root : outcome.levels.level root ≡ 4
outcome-root = outcome.levels_kept root (λ z. absurd (let q : 4 ≡ 0 = z in omega arith))

five-AreFlags : AreFlags 5
five-AreFlags = record { low = omega arith; word = omega arith }

set_user_prot_lem_example :
    Protects page_in outcome.levels root virt 5 (set_user_prot page_in root virt 5)
set_user_prot_lem_example =
    set_user_prot_lem page_in outcome.levels outcome.tree root virt 5 outcome-root (omega arith)
      five-AreFlags

prot_none_stays_example :
    let s' = (set_user_prot page_in root virt 0).0 in
    (set_user_prot s' root virt 7 ≡ (s', false))
    × (unmap_user_page s' root virt ≡ s')
    × (phys_of_user s' root virt ≡ 0)
    × (phys_of_user_raw s' root virt ≡ frame)
prot_none_stays_example =
    prot_none_stays page_in outcome.levels outcome.tree root virt frame 7 outcome-root (omega arith)
      outcome.found (omega arith)
