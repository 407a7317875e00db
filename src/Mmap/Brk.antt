-- ===== src/Mmap/Brk.antt =====
-- sys_brk of kernel/syscall/sys_memory.c: where the break can go, and what the caller is told.
use exec_aegis.Base.{
  ℕ, ◌+◌, ◌%◌, ◌^◌, ◌≤◌, ◌<◌, ◌≡◌, refl, Bool, false, ◌||◌, ◌⊎◌, inl, inr, Option, none, some,
  ◌>>=◌, leb, ltb, ◌==◌, arith, Bool-cases,
}
use exec_aegis.Mmap.{page, page_up, pages_between, Proc, UserPages, map_zeroed, unmap_range}
use exec_aegis.Mmap.Calls.{user_addr_max, flag_present, flag_user, flag_writable}
use exec_aegis.Mmap.Outcome.{Ends}
use exec_aegis.Mmap.System.{sys_brk, grow_heap, shrink_heap}

-- The break is at a page's start, not below where it began, and in the user's half.
pub record BrkValid (p : Proc) : Type 0 where
  pub above : p.brk_base ≤ p.brk
  pub aligned : p.brk % page ≡ 0
  pub in_user : p.brk ≤ 2 ^ 47

-- After a request: the break is what is returned, and it is the old one or the request rounded up.
pub record Answers (p : Proc) (request : ℕ) (p' : Proc) (n : ℕ) : Type 0 where
  pub valid : BrkValid p'
  pub told : n ≡ p'.brk
  pub old_or_new : (n ≡ p.brk) ⊎ (n ≡ page_up request)
  pub base_kept : p'.brk_base ≡ p.brk_base
  pub mappings_kept : (p'.mmap_base ≡ p.mmap_base) × (p'.mmap_free ≡ p.mmap_free)

module _ {M : Type 0} (ops : UserPages M) (request : ℕ) (p : Proc) (v : BrkValid p) where
  stays : Answers p request p p.brk
  stays = record {
    valid = v;
    told = refl;
    old_or_new = inl refl;
    base_kept = refl;
    mappings_kept = (refl, refl);
  }

  abbrev bad : Bool
  bad = request == 0 || leb user_addr_max request || ltb request p.brk_base

  moves :
      bad ≡ false
      → (q : Proc) → q.brk ≡ page_up request
      → q.brk_base ≡ p.brk_base
      → q.mmap_base ≡ p.mmap_base
      → q.mmap_free ≡ p.mmap_free
      → Answers p request q (page_up request)
  moves ok q at_new base mb mf =
      let low : p.brk_base ≤ request = ground arith in
      let high : request < user_addr_max = ground arith in
      record {
        valid = record { above = omega arith; aligned = omega arith; in_user = omega arith };
        told = omega arith;
        old_or_new = inr refl;
        base_kept = base;
        mappings_kept = (mb, mf);
      }

  after_grow :
      (r : Option (M × Option ℕ))
      → bad ≡ false
      → Ends (Answers p request) (
          r >>= λ t. elim (t.1) [
            | some va ↦ some (p, t.0, p.brk)
            | none ↦ some (
              record p {
                brk = page_up request;
                ranges = grow_heap p.brk (page_up request) p.ranges;
              },
              t.0,
              page_up request,
            )
          ])
  after_grow none h = tt
  after_grow (some (m, none)) h = moves h _ refl refl refl refl
  after_grow (some (m, some va)) h = stays

  after_shrink :
      (r : Option M)
      → bad ≡ false
      → Ends (Answers p request) (
          r >>= λ m'. some (
            record p { brk = page_up request; ranges = shrink_heap (page_up request) p.ranges },
            m',
            page_up request,
          ))
  after_shrink none h = tt
  after_shrink (some m) h = moves h _ refl refl refl refl

  -- On a process whose break is page-aligned, not below its initial value and not above 2^47, every call
  -- of brk that returns, whatever the request and the pages, returns the new break, which is either the
  -- old one or the request rounded up to a page, leaves the break so, and changes neither the initial
  -- break nor anything that mmap chooses addresses from.
  pub sys_brk-Answers : (m : M) → Ends (Answers p request) (sys_brk ops request p m)
  unfolding sys_brk
  sys_brk-Answers m =
      let new = page_up request in
      elim (Bool-cases bad) [
        | inl h ↦ rw h stays
        | inr h ↦ rw h (elim (Bool-cases (ltb p.brk new)) [
          | inl k ↦ rw k (
              after_grow
                (map_zeroed ops (flag_present + flag_user + flag_writable) (pages_between p.brk new)
                  p.brk m)
                h)
          | inr k ↦ rw k (elim (Bool-cases (ltb new p.brk)) [
            | inl l ↦ rw l (after_shrink (unmap_range ops (pages_between new p.brk) new m) h)
            | inr l ↦ rw l stays
          ])
        ])
      ]
