-- ===== src/Pmm.antt =====
-- kernel/mm/pmm.c and pmm.h: the bitmap of physical pages with a count of owners for each page. The
-- two arrays are functions from an index. `panic_halt` does not return, so it is the result `panics`.
-- The lock makes each function atomic.
pub mod Bit
pub mod Scan
pub mod Alloc
pub mod Owners
pub mod Region
mod Tests
use Prim.Native.Nat.{bit_and, bit_or}
use exec_aegis.Base.{
  ℕ, zero, suc, ◌+◌, ◌-◌, ◌*◌, ◌/◌, ◌%◌, ◌^◌, Bool, Option, none, some, List, [], ◌∷◌, leb, ltb,
  ◌==◌, if◌then◌else◌, u64,
}

abbrev pub page_size : ℕ
page_size = 4096

-- `PMM_MAX_PAGES`: 4 GB of pages, eight to a byte of the bitmap.
abbrev pub max_pages : ℕ
max_pages = 2 ^ 20

pub record Pmm : Type 0 where
  pub bitmap : ℕ → ℕ
  pub refcount : ℕ → ℕ

pub data Result : Type 0 where
  done : Pmm → Result
  panics : Result

-- `a[i] = v`
unfoldable pub update : (ℕ → ℕ) → ℕ → ℕ → ℕ → ℕ
update a i v j = if j == i then v else a j

-- `b & (1U << k)`, as a test
unfoldable pub bit : ℕ → ℕ → Bool
bit b k = ltb 0 (bit_and b (2 ^ k))

-- `b | (uint8_t)(1U << k)`
unfoldable pub set_bit : ℕ → ℕ → ℕ
set_bit b k = bit_or b (2 ^ k)

-- `b & (uint8_t)~(1U << k)`
unfoldable pub clear_bit : ℕ → ℕ → ℕ
clear_bit b k = bit_and b (255 - 2 ^ k)

-- The bit of a page.
unfoldable pub allocated : Pmm → ℕ → Bool
allocated s pg = bit (s.bitmap (pg / 8)) (pg % 8)

unfoldable pub mark : Pmm → ℕ → Pmm
mark s pg = record s { bitmap = update s.bitmap (pg / 8) (set_bit (s.bitmap (pg / 8)) (pg % 8)) }

unfoldable pub unmark : Pmm → ℕ → Pmm
unmark s pg = record s {
  bitmap = update s.bitmap (pg / 8) (clear_bit (s.bitmap (pg / 8)) (pg % 8));
}

-- The two loops over a region, page by page from `addr`; `rounds` bounds the rounds left.
unfoldable pub free_loop : ℕ → ℕ → ℕ → Pmm → Pmm
free_loop zero addr end s = s
free_loop (suc rounds) addr end s =
    let pg = addr / page_size in
    let next =
      free_loop rounds (addr + page_size) end (if ltb pg max_pages then unmark s pg else s) in
    if ltb addr end then next else s

unfoldable pub reserve_loop : ℕ → ℕ → ℕ → Pmm → Pmm
reserve_loop zero addr end s = s
reserve_loop (suc rounds) addr end s =
    let pg = addr / page_size in
    let next =
      reserve_loop rounds (addr + page_size) end (if ltb pg max_pages then mark s pg else s) in
    if ltb addr end then next else s

-- `x & ~(PAGE_SIZE - 1)`
abbrev pub page_floor : ℕ → ℕ
page_floor x = x / page_size * page_size

unfoldable pub free_region : ℕ → ℕ → Pmm → Pmm
free_region base len s =
    let start = page_floor (u64 (base + page_size - 1)) in
    let end = page_floor (u64 (base + len)) in
    if leb (u64 (base + len)) start then s else free_loop (end / page_size) start end s

unfoldable pub reserve_region : ℕ → ℕ → Pmm → Pmm
reserve_region base len s =
    let end = page_floor (u64 (base + len + page_size - 1)) in
    reserve_loop (end / page_size) (page_floor base) end s

-- A region is a base and a length.
unfoldable pub free_regions : List (ℕ × ℕ) → Pmm → Pmm
free_regions [] s = s
free_regions ((base, len) ∷ rs) s = free_regions rs (free_region base len s)

unfoldable pub reserve_regions : List (ℕ × ℕ) → Pmm → Pmm
reserve_regions [] s = s
reserve_regions ((base, len) ∷ rs) s = reserve_regions rs (reserve_region base len s)

-- `pmm_init`: the usable regions, the reserved ones, and the kernel image are the architecture's.
unfoldable pub init : List (ℕ × ℕ) → List (ℕ × ℕ) → ℕ → ℕ → Pmm
init usable reserved kernel_base kernel_len = reserve_region kernel_base kernel_len (
    reserve_regions reserved
      (free_regions usable (record { bitmap = λ i. 255; refcount = λ i. 0 })))

-- The first clear bit of a byte from `k` on.
unfoldable pub find_bit : ℕ → ℕ → ℕ → Option ℕ
find_bit zero b k = none
find_bit (suc left) b k = let later = find_bit left b (k + 1) in if bit b k then later else some k

-- The first free page from byte `i` on.
unfoldable pub find_page : ℕ → (ℕ → ℕ) → ℕ → Option ℕ
find_page zero bitmap i = none
find_page (suc left) bitmap i =
    let later = find_page left bitmap (i + 1) in
    if bitmap i == 255
    then later
    else elim (find_bit 8 (bitmap i) 0) [ none ↦ later | some k ↦ some (i * 8 + k) ]

-- The state and the physical address, 0 when memory is out.
unfoldable pub alloc_page : Pmm → Pmm × ℕ
alloc_page s = elim (find_page (max_pages / 8) s.bitmap 0) [
  | none ↦ (s, 0)
  | some pg ↦ (record (mark s pg) { refcount = update s.refcount pg 1 }, pg * page_size)
]

unfoldable pub ref_page : Pmm → ℕ → Result
ref_page s addr =
    let pg = addr / page_size in
    let rc = s.refcount pg in
    if ltb 0 (addr % page_size)
    then panics
    else if leb max_pages pg
    then done s
    else if rc == 0
    then panics
    else if rc == 255
    then panics
    else done (record s { refcount = update s.refcount pg (rc + 1) })

unfoldable pub free_page : Pmm → ℕ → Result
free_page s addr =
    let pg = addr / page_size in
    let rc = s.refcount pg in
    let dropped = record s { refcount = update s.refcount pg (rc - 1) } in
    if ltb 0 (addr % page_size)
    then panics
    else if leb max_pages pg
    then done s
    else if allocated s pg
    then (if rc == 0
        then done s
        else if rc - 1 == 0
        then done (unmark dropped pg)
        else done dropped)
    else done s

-- `inv &= inv - 1` clears the lowest bit set: a byte takes at most eight rounds.
unfoldable pub count_ones : ℕ → ℕ → ℕ
count_ones zero inv = 0
count_ones (suc left) inv =
    let more = count_ones left (bit_and inv (inv - 1)) in if inv == 0 then 0 else suc more

unfoldable pub count_free : ℕ → (ℕ → ℕ) → ℕ → ℕ
count_free zero bitmap i = 0
count_free (suc left) bitmap i = count_ones 8 (255 - bitmap i) + count_free left bitmap (i + 1)

unfoldable pub free_pages : Pmm → ℕ
free_pages s = count_free (max_pages / 8) s.bitmap 0
