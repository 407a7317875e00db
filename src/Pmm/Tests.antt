-- ===== src/Pmm/Tests.antt =====
-- The page allocator of kernel/mm/pmm.c at concrete states, and its theorems there.
use exec_aegis.Base.{
  ℕ, ◌*◌, ◌<◌, ◌≡◌, ◌⊎◌, ◌↔◌, refl, ap, true, false, List, [], ◌∷◌, All, arith, ◌==◌, if◌then◌else◌,
  some,
}
use native.Mathlib.Decide.{ℕ_discrete}
use exec_aegis.Pmm.{
  Pmm, done, page_size, max_pages, bit, allocated, find_bit, find_page, alloc_page, ref_page,
  free_page, init, count_ones, count_free,
}
use exec_aegis.Pmm.Alloc.{IsValid, Allocated, alloc_page_lem}
use exec_aegis.Pmm.Owners.{times, Owned, owners_lem}
use exec_aegis.Pmm.Region.{Inside, Apart, Any, init-free}

-- The first three pages are taken, and those from 8 on; page 1 has two owners.
abbrev state : Pmm
state = record {
  bitmap = λ i. if i == 0 then 7 else 255;
  refcount = λ pg. if pg == 1 then 2 else 0;
}

state-zero : allocated state 0 ≡ true
unfolding allocated bit
state-zero = refl

state-one : allocated state 1 ≡ true
unfolding allocated bit
state-one = refl

state-IsValid : IsValid state
state-IsValid = record {
  bytes = λ i. ground arith;
  counted = λ pg h. elim (ℕ_discrete pg 1) [
    | yes e ↦ absurd (cc (state-one, ap (allocated state) e))
    | no ne ↦ ground arith
  ];
  small = λ pg. ground arith;
}

-- The scan finds page 3, and with 32 pages taken nothing.
scan_three : find_page 4 state.bitmap 0 ≡ some 3
unfolding find_page find_bit bit
scan_three = refl

-- Five pages are free in the first four bytes.
five_free : count_free 4 state.bitmap 0 ≡ 5
unfolding count_free count_ones
five_free = refl

alloc_page_lem_example :
    let r = alloc_page state in
    ((r.1 ≡ 0) × (r.0 ≡ state) × ((pg : ℕ) → pg < max_pages → allocated state pg ≡ true))
    ⊎ ((pg : ℕ) × (r.1 ≡ pg * page_size) × (0 < r.1) × Allocated state r.0 pg)
alloc_page_lem_example = alloc_page_lem state state-IsValid state-zero

owners_lem_example :
    (t u : Pmm) × (times 1 (λ x. ref_page x (1 * page_size)) state ≡ done t)
    × (times 3 (λ x. free_page x (1 * page_size)) t ≡ done u)
    × Owned state u 1 0
owners_lem_example =
    owners_lem state 1 2 1 3 state-IsValid (omega arith) state-one refl (omega arith) (omega arith)
      (omega arith)

-- One megabyte above the first, with the kernel in its first half.
abbrev usable : List (ℕ × ℕ)
usable = (0x100000, 0x100000) ∷ []

abbrev low_memory : List (ℕ × ℕ)
low_memory = (0, 0x100000) ∷ []

init-free_example :
    (allocated (init usable low_memory 0x100000 0x80000) 0x180 ≡ false)
    ↔ (Any (Inside 0x180) usable × All (Apart 0x180) low_memory × Apart 0x180 (0x100000, 0x80000))
init-free_example =
    init-free usable low_memory 0x100000 0x80000 0x180 (omega arith) (omega arith) (omega arith)
      (omega arith)
