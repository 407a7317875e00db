-- ===== src/Mmap/System.antt =====
-- sys_mmap, sys_munmap, sys_mprotect and sys_brk of kernel/syscall/sys_memory.c, whole. Each returns the
-- process, the pages and the number that the caller sees; `fds` is the process's descriptor table.
use exec_aegis.Base.{
  ℕ, suc, ◌+◌, ◌-◌, ◌*◌, ◌/◌, ◌%◌, ◌^◌, Bool, true, false, ◌&&◌, ◌||◌, Option, none, some, ◌>>=◌,
  List, [], ◌∷◌, set, ltb, leb, ◌==◌, if◌then◌else◌, u32, u64,
}
use exec_aegis.Vma
use exec_aegis.Mmap.{
  page, Proc, mmap_free_insert, UserPages, pages_between, page_up, unmap_range, unmap_raw,
  map_zeroed, protect_range,
}
use exec_aegis.Mmap.Calls.{
  einval, enomem, user_addr_max, flag_present, flag_writable, flag_user, has, map_flags, File,
  file_backed, is_fixed, bad_arguments, Placed, placed, refused, place_anywhere, place_fixed,
  insert_range, remove_range, advance_base, vma_heap, vma_mmap, vma_shared, map_memfd, copy_file,
  bytes_to_copy,
}

-- Is there an entry with this base and kind VMA_SHARED?
unfoldable pub shared_at : ℕ → List Vma.Entry → Bool
shared_at base [] = false
shared_at base (e ∷ es) =
    let later = shared_at base es in if e.base == base && e.kind == vma_shared then true else later

unfoldable pub has_shared : ℕ → Vma.Proc → Bool
has_shared base r = elim r.vma_table [ none ↦ false | some t ↦ shared_at base r.entries ]

-- The first entry of kind VMA_HEAP.
unfoldable pub find_heap : List Vma.Entry → ℕ → Option (ℕ × Vma.Entry)
find_heap [] i = none
find_heap (e ∷ es) i =
    let later = find_heap es (suc i) in if e.kind == vma_heap then some (i, e) else later

-- The heap's entry grows with the break, or is made.
unfoldable pub grow_heap : ℕ → ℕ → Vma.Proc → Vma.Proc
grow_heap old new r = elim r.vma_table [
  | none ↦ r
  | some t ↦ elim (find_heap r.entries 0) [
    | none ↦ Vma.insert r old (new - old) 3 vma_heap
    | some f ↦ record r {
      entries = set r.entries f.0 (record (f.1) { len = u64 (new + 2 ^ 64 - f.1.base) });
    }
  ]
]

-- The heap's entry shrinks with the break, or is removed.
unfoldable pub shrink_heap : ℕ → Vma.Proc → Vma.Proc
shrink_heap new r = elim r.vma_table [
  | none ↦ r
  | some t ↦ elim (find_heap r.entries 0) [
    | none ↦ r
    | some f ↦
        if leb new f.1.base
        then Vma.remove r f.1.base f.1.len
        else record r { entries = set r.entries f.0 (record (f.1) { len = new - f.1.base }) }
  ]
]

module _ {M : Type 0} (ops : UserPages M) where
  -- `mmap` of a memfd with MAP_SHARED: its own pages.
  unfoldable pub mmap_shared : Option File → Bool → ℕ → ℕ → ℕ → Proc → M → Option (Proc × M × ℕ)
  mmap_shared none fixed base len prot p m = some (p, m, einval)
  mmap_shared (some f) fixed base len prot p m = elim (f.memfd) [
    | none ↦ some (p, m, einval)
    | some none ↦ some (p, m, einval)
    | some (some g) ↦
        let mapped = map_memfd ops (map_flags prot) g (len / page) 0 base m >>= λ r. some (
          if r.1
          then (insert_range base len prot vma_shared (advance_base fixed base len p), r.0, base)
          else (p, r.0, einval)) in
        if ltb (g.page_count * page) len then some (p, m, einval) else mapped
  ]

  unfoldable pub read_file : Option File → ℕ → ℕ → ℕ → M → M
  read_file none off base len m = m
  read_file (some f) off base len m = elim (f.read) [
    | none ↦ m
    | some read ↦
        let bytes = bytes_to_copy f.size off len in copy_file ops read base off bytes bytes 0 m
  ]

  -- After the pages of a private mapping: out of memory, those that were mapped are unmapped again.
  unfoldable pub mmap_private :
      Bool → Option File → Bool → ℕ → ℕ → ℕ → ℕ → Proc → M → Option (Proc × M × ℕ)
  mmap_private backed file fixed base len prot off p m =
      map_zeroed ops (map_flags prot) (len / page) base m >>= λ r. elim (r.1) [
        | some va ↦ unmap_range ops (pages_between base va) base r.0 >>= λ m'. some (p, m', enomem)
        | none ↦ some (
          insert_range base len prot vma_mmap (advance_base fixed base len p),
          if backed then read_file file off base len r.0 else r.0,
          base,
        )
      ]

  unfoldable pub mmap_placed :
      (ℕ → Option File) → ℕ → ℕ → ℕ → ℕ → ℕ → ℕ → Proc × M × Placed → Option (Proc × M × ℕ)
  mmap_placed fds addr len prot flags fd off (p, m, refused err) = some (p, m, err)
  mmap_placed fds addr len prot flags fd off (p, m, placed base) =
      let backed = file_backed flags fd in
      let fixed = is_fixed addr flags in
      let file = if ltb (u32 fd) 16 then fds (u32 fd) else none in
      if has flags 1 && backed
      then mmap_shared file fixed base len prot p m
      else mmap_private backed file fixed base len prot off p m

  unfoldable pub sys_mmap :
      (ℕ → Option File) → ℕ → ℕ → ℕ → ℕ → ℕ → ℕ → Proc → M → Option (Proc × M × ℕ)
  sys_mmap fds addr length prot flags fd off p m =
      let len = page_up length in
      let found =
        if is_fixed addr flags
        then place_fixed ops addr len p m
        else (let r = place_anywhere addr len p in some (r.0, m, r.1)) in
      if bad_arguments len prot flags fd off
      then some (p, m, einval)
      else (found >>= λ r. mmap_placed fds addr len prot flags fd off r)

  unfoldable pub sys_munmap : ℕ → ℕ → Proc → M → Option (Proc × M × ℕ)
  sys_munmap addr length p m =
      let len = page_up length in
      let freed = record p {
        mmap_free = mmap_free_insert (record { base = addr; size = len }) p.mmap_free;
      } in
      let unmapped = unmap_raw ops (has_shared addr p.ranges) (len / page) addr m >>= λ m'.
      some (remove_range addr len freed, m', 0) in
      if ltb 0 (addr % page)
      then some (p, m, einval)
      else if leb user_addr_max addr
          || ltb user_addr_max (u64 (addr + len))
          || ltb (u64 (addr + len)) addr
      then some (p, m, einval)
      else unmapped

  unfoldable pub sys_mprotect : ℕ → ℕ → ℕ → Proc → M → Proc × M × ℕ
  sys_mprotect addr length prot p m =
      let len = page_up length in
      let flags = if prot == 0 then 0 else map_flags prot in
      if ltb 0 (addr % page)
      then (p, m, einval)
      else if len == 0
      then (p, m, 0)
      else if ltb user_addr_max (u64 (addr + len)) || ltb (u64 (addr + len)) addr
      then (p, m, einval)
      else (
        record p { ranges = Vma.update_prot p.ranges addr len (prot % 8) },
        protect_range ops flags (len / page) addr m,
        0,
      )

  unfoldable pub sys_brk : ℕ → Proc → M → Option (Proc × M × ℕ)
  sys_brk request p m =
      let new = page_up request in
      let grown =
        map_zeroed ops (flag_present + flag_user + flag_writable) (pages_between p.brk new) p.brk m
        >>= λ r. elim (r.1) [
          | some va ↦ some (p, r.0, p.brk)
          | none ↦ some (record p { brk = new; ranges = grow_heap p.brk new p.ranges }, r.0, new)
        ] in
      let shrunk = unmap_range ops (pages_between new p.brk) new m >>= λ m'.
      some (record p { brk = new; ranges = shrink_heap new p.ranges }, m', new) in
      if request == 0 || leb user_addr_max request || ltb request p.brk_base
      then some (p, m, p.brk)
      else if ltb p.brk new
      then grown
      else if ltb new p.brk
      then shrunk
      else some (p, m, p.brk)
