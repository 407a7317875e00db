-- ===== src/Mmap/Outcome.antt =====
-- What `sys_mmap` without MAP_FIXED and `sys_munmap` can come to: an error, or a change of the process that
-- does not depend on its pages.
use exec_aegis.Base.{
  ℕ, ◌+◌, ◌*◌, ◌/◌, ◌%◌, ◌≤◌, ◌<◌, ◌≡◌, refl, Bool, true, false, ◌&&◌, ◌||◌, inl, inr, Option, none,
  some, ◌>>=◌, ltb, leb, if◌then◌else◌, u32, u64, arith, Bool-cases,
}
use exec_aegis.Ranges.{Range}
use exec_aegis.Mmap.{
  page, page_up, pages_between, Proc, UserPages, mmap_free_insert, map_zeroed, unmap_range,
  unmap_raw,
}
use exec_aegis.Mmap.Calls.{
  user_addr_max, einval, enomem, Placed, placed, refused, place_anywhere, advance_base,
  insert_range, remove_range, vma_mmap, vma_shared, map_flags, map_memfd, File, Memfd, has,
  is_fixed, file_backed, bad_arguments,
}
use exec_aegis.Mmap.System.{
  mmap_shared, mmap_private, mmap_placed, read_file, has_shared, sys_mmap, sys_munmap,
}

-- What holds of the process and the number that a call returns, if it returns.
abbrev pub Ends : {M : Type 0} → (Proc → ℕ → Type 0) → Option (Proc × M × ℕ) → Type 0
Ends Q none = Unit
Ends Q (some (p, m, n)) = Q p n

-- An error and the process as it was after the choice of an address, or the mapping at that address.
pub data Ended (p : Proc) (base len prot : ℕ) : Proc → ℕ → Type 0 where
  failed : (n : ℕ) → user_addr_max < n → Ended p base len prot p n
  mapped :
      (kind : ℕ)
      → Ended p base len prot (insert_range base len prot kind (advance_base false base len p)) base

module _ {M : Type 0} (ops : UserPages M) (len prot : ℕ) (p : Proc) (base : ℕ) where
  after_zeroed :
      (backed : Bool) (file : Option File) (off : ℕ) (r : Option (M × Option ℕ))
      → Ends (Ended p base len prot) (
          r >>= λ t. elim (t.1) [
            | some va ↦
                unmap_range ops (pages_between base va) base t.0 >>= λ m'. some (p, m', enomem)
            | none ↦ some (
              insert_range base len prot vma_mmap (advance_base false base len p),
              if backed then read_file ops file off base len t.0 else t.0,
              base,
            )
          ])
  after_zeroed backed file off none = tt
  after_zeroed backed file off (some (m, none)) = mapped vma_mmap
  after_zeroed backed file off (some (m, some va)) =
      after_unmap (unmap_range ops (pages_between base va) base m)
    where
      after_unmap : (r : Option M) → Ends (Ended p base len prot) (r >>= λ m'. some (p, m', enomem))
      after_unmap none = tt
      after_unmap (some m') = failed enomem (omega arith)

  mmap_private-Ended :
      (backed : Bool) (file : Option File) (off : ℕ) (m : M)
      → Ends (Ended p base len prot) (mmap_private ops backed file false base len prot off p m)
  unfolding mmap_private
  mmap_private-Ended backed file off m =
      after_zeroed backed file off (map_zeroed ops (map_flags prot) (len / page) base m)

  after_memfd :
      (r : Option (M × Bool))
      → Ends (Ended p base len prot) (
          r >>= λ t. some (
            if t.1
            then (insert_range base len prot vma_shared (advance_base false base len p), t.0, base)
            else (p, t.0, einval)))
  after_memfd none = tt
  after_memfd (some (m, true)) = mapped vma_shared
  after_memfd (some (m, false)) = failed einval (omega arith)

  mmap_memfd-Ended :
      (f : Option (Option Memfd)) (file : File) (m : M)
      → file.memfd ≡ f
      → Ends (Ended p base len prot) (mmap_shared ops (some file) false base len prot p m)
  unfolding mmap_shared
  mmap_memfd-Ended none file m e = rw (mmap_shared, e) (failed einval (omega arith))
  mmap_memfd-Ended (some none) file m e = rw (mmap_shared, e) (failed einval (omega arith))
  mmap_memfd-Ended (some (some g)) file m e =
      rw (mmap_shared, e)
        (elim (Bool-cases (ltb (g.page_count * page) len)) [
          | inl h ↦ rw h (failed einval (omega arith))
          | inr h ↦ rw h (after_memfd (map_memfd ops (map_flags prot) g (len / page) 0 base m))
        ])

  mmap_shared-Ended :
      (file : Option File) (m : M)
      → Ends (Ended p base len prot) (mmap_shared ops file false base len prot p m)
  unfolding mmap_shared
  mmap_shared-Ended none m = failed einval (omega arith)
  mmap_shared-Ended (some f) m = mmap_memfd-Ended f.memfd f m refl

  mmap_placed-Ended :
      (fds : ℕ → Option File) (flags fd off : ℕ) (m : M)
      → Ends
          (Ended p base len prot)
          (mmap_placed ops fds 0 len prot flags fd off (p, m, placed base))
  unfolding mmap_placed
  mmap_placed-Ended fds flags fd off m =
      let fixed : is_fixed 0 flags ≡ false = ground arith in
      let file = if ltb (u32 fd) 16 then fds (u32 fd) else none in
      rw fixed (elim (Bool-cases (has flags 1 && file_backed flags fd)) [
        | inl h ↦ rw h (mmap_shared-Ended file m)
        | inr h ↦ rw h (mmap_private-Ended (file_backed flags fd) file off m)
      ])

-- After the choice of an address.
pub data After (prot len : ℕ) : Proc × Placed → Proc → ℕ → Type 0 where
  no_address : {p : Proc} (err : ℕ) → After prot len (p, refused err) p err
  address :
      {p p' : Proc} (base : ℕ) {n : ℕ}
      → Ended p base len prot p' n
      → After prot len (p, placed base) p' n

-- The whole call: bad arguments, or what follows the choice.
pub data Outcome (p : Proc) (len prot : ℕ) : Proc → ℕ → Type 0 where
  rejected : Outcome p len prot p einval
  tried :
      {p' : Proc} {n : ℕ}
      → 0 < len
      → After prot len (place_anywhere 0 len p) p' n
      → Outcome p len prot p' n

pub Ends-map :
    {M : Type 0} {Q R : Proc → ℕ → Type 0} (o : Option (Proc × M × ℕ))
    → ((p : Proc) (n : ℕ) → Q p n → R p n)
    → Ends Q o
    → Ends R o
Ends-map none f q = tt
Ends-map (some (p, m, n)) f q = f p n q

module _ {M : Type 0} (ops : UserPages M) where
  mmap_placed-After :
      (fds : ℕ → Option File) (len prot flags fd off : ℕ) (m : M) (r : Proc × Placed)
      → Ends (After prot len r) (mmap_placed ops fds 0 len prot flags fd off (r.0, m, r.1))
  mmap_placed-After fds len prot flags fd off m (p, refused err) =
      unfold mmap_placed in no_address err
  mmap_placed-After fds len prot flags fd off m (p, placed base) =
      Ends-map (mmap_placed ops fds 0 len prot flags fd off (p, m, placed base))
        (λ p' n e. address base e) (mmap_placed-Ended ops len prot p base fds flags fd off m)

  pub sys_mmap-Outcome :
      (fds : ℕ → Option File) (bytes prot flags fd off : ℕ) (p : Proc) (m : M)
      → Ends (Outcome p (page_up bytes) prot) (sys_mmap ops fds 0 bytes prot flags fd off p m)
  unfolding sys_mmap
  sys_mmap-Outcome fds bytes prot flags fd off p m =
      let len = page_up bytes in
      let fixed : is_fixed 0 flags ≡ false = ground arith in
      let r = place_anywhere 0 len p in
      rw fixed (elim (Bool-cases (bad_arguments len prot flags fd off)) [
        | inl h ↦ rw h rejected
        | inr h ↦
            let some_pages : 0 < len = unfold bad_arguments in ground arith in
            rw h (
              Ends-map (mmap_placed ops fds 0 len prot flags fd off (r.0, m, r.1))
                (λ p' n a. tried some_pages a) (mmap_placed-After fds len prot flags fd off m r))
      ])

-- An error and the process as it was, or the range given back and taken out of the table of ranges.
pub data Unmapped (p : Proc) (x : Range) : Proc → ℕ → Type 0 where
  refuses : Unmapped p x p einval
  unmaps :
      x.base % page ≡ 0
      → x.base + x.size ≤ user_addr_max
      → Unmapped p x
          (remove_range x.base x.size (record p { mmap_free = mmap_free_insert x p.mmap_free }))
          0

module _ {M : Type 0} (ops : UserPages M) where
  after_raw :
      (p : Proc) (x : Range) (r : Option M)
      → x.base % page ≡ 0
      → x.base + x.size ≤ user_addr_max
      → Ends (Unmapped p x) (
          r >>= λ m'. some (
            remove_range x.base x.size (record p { mmap_free = mmap_free_insert x p.mmap_free }),
            m',
            0,
          ))
  after_raw p x none al fits = tt
  after_raw p x (some m') al fits = unmaps al fits

  pub sys_munmap-Unmapped :
      (addr bytes : ℕ) (p : Proc) (m : M)
      → Ends
          (Unmapped p (record { base = addr; size = page_up bytes }))
          (sys_munmap ops addr bytes p m)
  unfolding sys_munmap
  sys_munmap-Unmapped addr bytes p m =
      let len = page_up bytes in
      let x : Range = record { base = addr; size = len } in
      elim (Bool-cases (ltb 0 (addr % page))) [
        | inl h ↦ rw h refuses
        | inr h ↦
            rw h
              (elim (Bool-cases (
                leb user_addr_max addr
                || ltb user_addr_max (u64 (addr + len))
                || ltb (u64 (addr + len)) addr)) [
                  | inl k ↦ rw k refuses
                  | inr k ↦ rw k (
                      after_raw p x (unmap_raw ops (has_shared addr p.ranges) (len / page) addr m)
                        (ground arith) (ground arith))
                ])
      ]
