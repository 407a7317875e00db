-- ===== src/Vmm.antt =====
-- kernel/mm/vmm.c on x86-64: the page tables of a process. Physical memory is a function from the address
-- of a table's page and an index to the entry there; the window through which the kernel reaches it is
-- left out. The walk over the four levels, which the code writes out in each function, is a recursion on
-- the level: 0 is a page table, 3 the root.
pub mod Tree
pub mod Grown
pub mod Ensure
pub mod Tables
pub mod Leaf
pub mod Bits
pub mod Map
pub mod Unmap
pub mod Protect
pub mod RoundTrip
pub mod ProtNone
mod Tests
use Prim.Native.Nat.{bit_or}
use exec_aegis.Base.{
  ℕ, zero, suc, ◌+◌, ◌-◌, ◌*◌, ◌/◌, ◌%◌, ◌^◌, Bool, true, false, not, ◌&&◌, ◌||◌, Option, none,
  some, List, ltb, leb, ◌==◌, if◌then◌else◌, u64,
}
use exec_aegis.Pmm.{Pmm, alloc_page}

pub record Vmm : Type 0 where
  pub mem : ℕ → ℕ → ℕ
  pub pmm : Pmm

-- `entry & VMM_FLAG_PRESENT`, bit 0
abbrev pub present : ℕ → Bool
present e = e % 2 == 1

-- `entry & PTE_PS`, bit 7
abbrev pub huge : ℕ → Bool
huge e = e / 128 % 2 == 1

-- `ARCH_PTE_ADDR`: bits 12 to 51
abbrev pub addr_of : ℕ → ℕ
addr_of e = e / 4096 % 2 ^ 40 * 4096

-- `(virt >> 12 + 9 * level) & 0x1FF`
unfoldable pub index : ℕ → ℕ → ℕ
index zero v = v / 2 ^ 12 % 512
index (suc zero) v = v / 2 ^ 21 % 512
index (suc (suc zero)) v = v / 2 ^ 30 % 512
index (suc (suc (suc l))) v = v / 2 ^ 39 % 512

unfoldable pub write : (ℕ → ℕ → ℕ) → ℕ → ℕ → ℕ → ℕ → ℕ → ℕ
write mem t i e u j = if u == t && j == i then e else mem u j

-- The table at `t` filled with zeros.
unfoldable pub zeroed : (ℕ → ℕ → ℕ) → ℕ → ℕ → ℕ → ℕ
zeroed mem t u j = if u == t then 0 else mem u j

-- Is there no table below this entry? In a page directory a large page is none either.
unfoldable pub absent : ℕ → ℕ → Bool
absent zero e = not (present e) || huge e
absent (suc l) e = not (present e)

-- The page table for an address, from the table at `t` of a level down.
unfoldable pub find_pt : (ℕ → ℕ → ℕ) → ℕ → ℕ → ℕ → Option ℕ
find_pt mem zero t v = some t
find_pt mem (suc l) t v =
    let e = mem t (index (suc l) v) in
    let below = find_pt mem l (addr_of e) v in if absent l e then none else below

unfoldable pub phys_of_user : Vmm → ℕ → ℕ → ℕ
phys_of_user s root v = elim (find_pt s.mem 3 root v) [
  | none ↦ 0
  | some pt ↦ let e = s.mem pt (index 0 v) in if present e then addr_of e else 0
]

unfoldable pub phys_of_user_raw : Vmm → ℕ → ℕ → ℕ
phys_of_user_raw s root v = elim (find_pt s.mem 3 root v) [
  | none ↦ 0
  | some pt ↦ let e = s.mem pt (index 0 v) in if e == 0 then 0 else addr_of e
]

unfoldable pub unmap_user_page : Vmm → ℕ → ℕ → Vmm
unmap_user_page s root v = elim (find_pt s.mem 3 root v) [
  | none ↦ s
  | some pt ↦
      if present (s.mem pt (index 0 v)) then record s { mem = write s.mem pt (index 0 v) 0 } else s
]

-- `flags | VMM_FLAG_PRESENT`
abbrev pub with_present : ℕ → ℕ
with_present flags = if present flags then flags else flags + 1

-- The entry of a page that gets other flags; 0 is PROT_NONE.
abbrev pub reflagged : ℕ → ℕ → ℕ
reflagged flags old = if flags == 0 then addr_of old else bit_or (addr_of old) flags

-- The state, and whether the page has a table and is present; a protection of 0 on a page that is not
-- present is not a failure.
unfoldable pub set_user_prot : Vmm → ℕ → ℕ → ℕ → Vmm × Bool
set_user_prot s root v flags = elim (find_pt s.mem 3 root v) [
  | none ↦ (s, false)
  | some pt ↦
      let old = s.mem pt (index 0 v) in
      if not (present old)
      then (s, flags == 0)
      else (record s { mem = write s.mem pt (index 0 v) (reflagged flags old) }, true)
]

-- A zeroed page for a table; 0 if memory is out.
unfoldable pub alloc_table : Vmm → Vmm × ℕ
alloc_table s =
    let r = alloc_page s.pmm in
    if r.1 == 0
    then (record s { pmm = r.0 }, 0)
    else (record { mem = zeroed s.mem r.1; pmm = r.0 }, r.1)

-- `VMM_FLAG_PRESENT | VMM_FLAG_WRITABLE | VMM_FLAG_USER`; in an entry they are added to the address of a
-- page, whose low 12 bits are 0.
abbrev pub table_flags : ℕ
table_flags = 7

unfoldable pub ensure_table : Vmm → ℕ → ℕ → Vmm × ℕ
ensure_table s t i =
    let e = s.mem t i in
    let r = alloc_table s in
    if present e
    then (s, addr_of e)
    else if r.1 == 0
    then (r.0, 0)
    else (record (r.0) { mem = write (r.0).mem t i (r.1 + table_flags) }, r.1)

-- The tables of every level below `t` for an address, made where they are missing; 0 if memory is out.
unfoldable pub ensure_pt : ℕ → Vmm → ℕ → ℕ → Vmm × ℕ
ensure_pt zero s t v = (s, t)
ensure_pt (suc l) s t v =
    let r = ensure_table s t (index (suc l) v) in
    let below = ensure_pt l (r.0) (r.1) v in if r.1 == 0 then (r.0, 0) else below

pub data Mapping : Type 0 where
  mapped : Vmm → Mapping
  panics : Mapping

-- `vmm_map_user_page`: misaligned addresses, a page that is mapped already and a lack of memory all halt
-- the kernel.
unfoldable pub map_user_page : Vmm → ℕ → ℕ → ℕ → ℕ → Mapping
unfolding ensure_pt
map_user_page s root v phys flags =
    let r = ensure_pt 3 s root v in
    let pte = bit_or phys (with_present flags) in
    if ltb 0 (v % 4096) || ltb 0 (phys % 4096)
    then panics
    else if r.1 == 0
    then panics
    else if present ((r.0).mem r.1 (index 0 v))
    then panics
    else mapped (record (r.0) { mem = write (r.0).mem r.1 (index 0 v) pte })
