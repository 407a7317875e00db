-- ===== src/Mmap/Histories.antt =====
-- Any sequence of mmap calls that leave the address to the kernel and of munmap calls for what they
-- returned: no address is in two live mappings.
use exec_aegis.Base.{
  ℕ, ◌+◌, ◌^◌, ◌≤◌, ◌<◌, ◌≡◌, ◌≢◌, refl, ap, sym, subst, true, false, Option, some, List, [],
  length, get_or, leb, if◌then◌else◌, arith, All-get_or,
}
use exec_aegis.Ranges.{Range, no_range, remove_at}
use exec_aegis.Ranges.Cover.{cover, count, count-remove_at, count-two, between-small}
use exec_aegis.Ranges.Alloc.{InMemory, Ranges-remove_at}
use exec_aegis.Ranges.Join.{kept, lost}
use exec_aegis.Mmap.{page_up, Proc, UserPages, mmap_free_insert}
use exec_aegis.Mmap.Calls.{
  user_addr_max, Placed, place_anywhere, advance_base, insert_range, remove_range, File,
}
use exec_aegis.Mmap.FreeList.{mmap_free_insert-Returned}
use exec_aegis.Mmap.Place.{IsValid, one_more, Chosen, no_place, place, place_anywhere-Chosen}
use exec_aegis.Mmap.Outcome.{
  Ends, failed, mapped, After, no_address, address, Outcome, rejected, tried, sys_mmap-Outcome,
  Unmapped, refuses, unmaps, sys_munmap-Unmapped,
}
use exec_aegis.Mmap.System.{sys_mmap, sys_munmap}

-- An error and the same live mappings, or the address of one more.
data Maps (low len : ℕ) (live : List Range) (p : Proc) (n : ℕ) : Type 0 where
  fails : user_addr_max < n → IsValid low p.mmap_base p.mmap_free live → Maps low len live p n
  maps :
      n ≤ user_addr_max
      → IsValid low p.mmap_base p.mmap_free (one_more n len live)
      → Maps low len live p n

-- What follows a choice that keeps the invariant keeps it.
After-Maps :
    (low len prot : ℕ) (live : List Range) (r : Proc × Placed) (p' : Proc) (n : ℕ)
    → Chosen low len live r
    → After prot len r p' n
    → Maps low len live p' n
unfolding insert_range
After-Maps low len prot live r p' n (no_place err big v) (no_address e) = fails big v
After-Maps low len prot live r p' n (place base user v w) (address b (failed k big)) = fails big v
After-Maps low len prot live r p' n (place base user v w) (address b (mapped kind)) =
    unfold advance_base in maps user w

module _ (low : ℕ) (pos : 0 < low) (p : Proc) (live : List Range)
    (v : IsValid low p.mmap_base p.mmap_free live) where
  Outcome-Maps :
      (len prot : ℕ) (p' : Proc) (n : ℕ)
      → len < 2 ^ 64
      → Outcome p len prot p' n
      → Maps low len live p' n
  Outcome-Maps len prot p' n small rejected = fails (omega arith) v
  Outcome-Maps len prot p' n small (tried some_pages a) =
      After-Maps low len prot live (place_anywhere 0 len p) p' n
        (place_anywhere-Chosen low len pos some_pages p live small v) a

  given_back :
      (i : ℕ) (x : Range)
      → i < length live
      → x ≡ get_or live i no_range
      → IsValid low p.mmap_base (mmap_free_insert x p.mmap_free) (remove_at live i)
  given_back i x lt eq =
      let mx =
        subst (λ r. InMemory 1 r) (sym eq)
          (All-get_or (λ e. InMemory 1 e) live i no_range lt v.live_in_memory) in
      elim (mmap_free_insert-Returned x p.mmap_free mx v.free_in_memory v.room) [
        | kept same ms le ↦ record {
          once = λ a.
              let c : cover 1 x a ≡ cover 1 (get_or live i no_range) a = ap (λ r. cover 1 r a) eq in
              omega (arith, v.once a, same a, count-remove_at 1 a live i lt);
          free_in_memory = ms;
          live_in_memory = Ranges-remove_at 1 live i lt v.live_in_memory;
          room = le;
          above = v.above;
          in_user = v.in_user;
        }
        | lost e le ↦ rw e (record {
          once = λ a. omega (arith, v.once a, count-remove_at 1 a live i lt);
          free_in_memory = v.free_in_memory;
          live_in_memory = Ranges-remove_at 1 live i lt v.live_in_memory;
          room = v.room;
          above = v.above;
          in_user = v.in_user;
        })
      ]

  -- Where munmap returns 0, it has given back the range.
  Unmapped-IsValid :
      (i : ℕ) (x : Range) (p' : Proc) (n : ℕ)
      → i < length live
      → x ≡ get_or live i no_range
      → Unmapped p x p' n
      → n ≡ 0
      → IsValid low p'.mmap_base p'.mmap_free (remove_at live i)
  unfolding remove_range
  Unmapped-IsValid i x p' n lt eq refuses zero_returned = absurd (omega arith)
  Unmapped-IsValid i x p' n lt eq (unmaps al fits) zero_returned = given_back i x lt eq

-- The process, its pages, and the mappings that it has.
pub record Machine (M : Type 0) : Type 0 where
  pub proc : Proc
  pub pages : M
  pub live : List Range

-- A call of mmap with address 0, whatever it returns, and a call of munmap for a live mapping, with a
-- length that the kernel rounds up to the mapping's, that returns 0.
pub data Step {M : Type 0} (ops : UserPages M) : Machine M → Machine M → Type 0 where
  mmaps :
      (s : Machine M) (fds : ℕ → Option File) (bytes prot flags fd off : ℕ) (p : Proc) (m : M)
      (n : ℕ)
      → sys_mmap ops fds 0 bytes prot flags fd off s.proc s.pages ≡ some (p, m, n)
      → Step ops s (record {
        proc = p;
        pages = m;
        live = if leb n user_addr_max then one_more n (page_up bytes) s.live else s.live;
      })
  munmaps :
      (s : Machine M) (i bytes : ℕ) (p : Proc) (m : M)
      → i < length s.live
      → page_up bytes ≡ (get_or s.live i no_range).size
      → sys_munmap ops (get_or s.live i no_range).base bytes s.proc s.pages ≡ some (p, m, 0)
      → Step ops s (record { proc = p; pages = m; live = remove_at s.live i })

pub data Reachable {M : Type 0} (ops : UserPages M) (s : Machine M) : Machine M → Type 0 where
  start : Reachable ops s s
  next_step : {t u : Machine M} → Reachable ops s t → Step ops t u → Reachable ops s u

abbrev MachineValid : {M : Type 0} → ℕ → Machine M → Type 0
MachineValid low s = IsValid low s.proc.mmap_base s.proc.mmap_free s.live

module _ {M : Type 0} (ops : UserPages M) (low : ℕ) (pos : 0 < low) where
  Step-IsValid : {s t : Machine M} → Step ops s t → MachineValid low s → MachineValid low t
  Step-IsValid (mmaps s fds bytes prot flags fd off p m n e) v =
      let ended =
        subst (λ r. Ends (Outcome s.proc (page_up bytes) prot) r) e
          (sys_mmap-Outcome ops fds bytes prot flags fd off s.proc s.pages) in
      elim (Outcome-Maps low pos s.proc s.live v (page_up bytes) prot p n (omega arith) ended) [
        | fails big w ↦ (let test : leb n user_addr_max ≡ false = ground arith in rw test w)
        | maps small w ↦ (let test : leb n user_addr_max ≡ true = ground arith in rw test w)
      ]
  Step-IsValid (munmaps s i bytes p m lt size e) v =
      let base = (get_or s.live i no_range).base in
      let x : Range = record { base = base; size = page_up bytes } in
      let same : x ≡ get_or s.live i no_range = ap (λ b. record { base = base; size = b }) size in
      let ended =
        subst (λ r. Ends (Unmapped s.proc x) r) e
          (sys_munmap-Unmapped ops base bytes s.proc s.pages) in
      Unmapped-IsValid low pos s.proc s.live v i x p 0 lt same ended refl

  Reachable-IsValid :
      {s t : Machine M} → Reachable ops s t → MachineValid low s → MachineValid low t
  Reachable-IsValid start v = v
  Reachable-IsValid (next_step r st) v = Step-IsValid st (Reachable-IsValid r v)

-- Take a process without mappings whose `mmap_base` is above 0 and not above `USER_ADDR_MAX` and whose
-- free list is empty, whatever its pages do short of a panic. After any sequence of mmap calls with
-- address 0, successful or not, and of successful munmap calls for live mappings with their length, two
-- different live mappings have no address in common; the live mappings and the free list together hold
-- no address twice and only addresses between the first `mmap_base` and the current one, and the free
-- list has at most 64 entries.
pub mappings_disjoint :
    {M : Type 0} (ops : UserPages M) (p : Proc) (m : M) (s : Machine M)
    → 0 < p.mmap_base
    → p.mmap_base ≤ user_addr_max
    → p.mmap_free ≡ []
    → Reachable ops (record { proc = p; pages = m; live = [] }) s
    → ((i j a : ℕ)
        → i < length s.live
        → j < length s.live
        → i ≢ j
        → cover 1 (get_or s.live i no_range) a + cover 1 (get_or s.live j no_range) a ≤ 1)
      × IsValid p.mmap_base s.proc.mmap_base s.proc.mmap_free s.live
mappings_disjoint ops p m s pos user empty r =
    let first : IsValid p.mmap_base p.mmap_base [] [] = record {
      once = λ a. (unfold count in omega arith);
      free_in_memory = tt;
      live_in_memory = tt;
      room = omega arith;
      above = omega arith;
      in_user = user;
    } in
    let v =
      Reachable-IsValid ops p.mmap_base pos r
        (subst (λ fs. IsValid p.mmap_base p.mmap_base fs []) (sym empty) first) in
    (
      λ i j a h k ne. omega (
        arith,
        count-two 1 a s.live i j h k ne,
        v.once a,
        between-small p.mmap_base s.proc.mmap_base a,
      ),
      v,
    )
