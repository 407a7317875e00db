-- ===== src/Mmap/Place.antt =====
-- Where `sys_mmap` puts a mapping whose address it chooses: in no other range of the process.
use exec_aegis.Base.{
  ℕ, ◌+◌, ◌*◌, ◌^◌, ◌≤◌, ◌<◌, ◌≡◌, ap, Bool, true, false, ◌||◌, inl, inr, List, ◌∷◌, length, get_or,
  ltb, leb, ◌==◌, if◌then◌else◌, u64, arith, All-get_or, Bool-cases,
}
use exec_aegis.Ranges.{Range, no_range}
use exec_aegis.Ranges.Cover.{between, span, count, between-split, between_self, between-inside}
use exec_aegis.Ranges.Fit.{Smallest}
use exec_aegis.Ranges.Alloc.{InMemory, Ranges, Answer, refuses, gives, Gives, alloc_lem}
use exec_aegis.Mmap.{mmap_free_max, Proc, mmap_free_alloc}
use exec_aegis.Mmap.Calls.{
  user_addr_max, enomem, Placed, placed, refused, place_anywhere, advance_base,
}

-- The addresses given out since `mmap_base` was `low` and now is `next`: none is in two ranges, free or
-- live, and all are between the two.
pub record IsValid (low next : ℕ) (free live : List Range) : Type 0 where
  pub once : (a : ℕ) → count 1 free a + count 1 live a ≤ between low next a
  pub free_in_memory : Ranges 1 free
  pub live_in_memory : Ranges 1 live
  pub room : length free ≤ mmap_free_max
  pub above : low ≤ next
  pub in_user : next ≤ user_addr_max

abbrev pub one_more : ℕ → ℕ → List Range → List Range
one_more base len live = record { base = base; size = len } ∷ live

-- After a choice: nothing new, or a new range, with the pointer moved as `sys_mmap` moves it on success.
pub data Chosen (low len : ℕ) (live : List Range) : Proc × Placed → Type 0 where
  no_place :
      {p : Proc} (err : ℕ)
      → user_addr_max < err
      → IsValid low p.mmap_base p.mmap_free live
      → Chosen low len live (p, refused err)
  place :
      {p : Proc} (base : ℕ)
      → base ≤ user_addr_max
      → IsValid low p.mmap_base p.mmap_free live
      → IsValid low (advance_base false base len p).mmap_base p.mmap_free (one_more base len live)
      → Chosen low len live (p, placed base)

module _ (low len : ℕ) (pos : 0 < low) (some_pages : 0 < len) (p : Proc) (live : List Range)
    (small : len < 2 ^ 64) (v : IsValid low p.mmap_base p.mmap_free live) where
  abbrev fails : ℕ → Bool
  fails base = ltb user_addr_max (u64 (base + len)) || ltb (u64 (base + len)) base

  -- Does a range from `base` on end within the user's addresses?
  fits_user : (base : ℕ) → base < 2 ^ 64 → fails base ≡ false → base + len ≤ user_addr_max
  fits_user base h f = ground arith

  bumped :
      fails p.mmap_base ≡ false
      → IsValid low
          (advance_base false p.mmap_base len p).mmap_base
          p.mmap_free
          (one_more p.mmap_base len live)
  unfolding advance_base count
  bumped f =
      let end : p.mmap_base + len ≤ user_addr_max =
        fits_user p.mmap_base (omega (arith, v.in_user)) f in
      let test : leb p.mmap_base p.mmap_base ≡ true = ground arith in
      rw test (record {
        once = λ a.
            let same : span 1 p.mmap_base len a ≡ between p.mmap_base (p.mmap_base + len) a =
              ap (λ t. between p.mmap_base t a) (omega arith) in
            omega (
              arith,
              v.once a,
              between-split low p.mmap_base (p.mmap_base + len) a v.above (omega arith),
            );
        free_in_memory = v.free_in_memory;
        live_in_memory = (
          record { not_null = omega (arith, v.above); below_top = omega arith },
          v.live_in_memory,
        );
        room = v.room;
        above = omega (arith, v.above);
        in_user = end;
      })

  module _ (i : ℕ) (r : ℕ × List Range) (b : Smallest len p.mmap_free i)
      (g : Gives 1 len p.mmap_free i r) where
    source : InMemory 1 (get_or p.mmap_free i no_range)
    source = All-get_or (λ e. InMemory 1 e) p.mmap_free i no_range b.in_use v.free_in_memory

    rest_IsValid : IsValid low p.mmap_base r.1 live
    rest_IsValid = record {
      once = λ a. omega (arith, v.once a, g.rest a);
      free_in_memory = g.in_memory;
      live_in_memory = v.live_in_memory;
      room = omega (arith, v.room, g.not_longer);
      above = v.above;
      in_user = v.in_user;
    }

    -- The range found lies below the pointer.
    below_base : r.0 < p.mmap_base
    below_base =
        let self : span 1 r.0 len r.0 ≡ 1 = between_self r.0 (r.0 + len * 1) (omega arith) in
        between-inside low p.mmap_base r.0 (omega (arith, v.once r.0, g.rest r.0))

    reused : IsValid low (advance_base false r.0 len p).mmap_base r.1 (one_more r.0 len live)
    unfolding advance_base count
    reused =
        let test : leb p.mmap_base r.0 ≡ false = ground (arith, below_base) in
        rw test (record {
          once = λ a. omega (arith, v.once a, g.rest a);
          free_in_memory = g.in_memory;
          live_in_memory = (
            record {
              not_null = omega (arith, g.address, source.not_null);
              below_top = omega (arith, g.address, b.enough, source.below_top);
            },
            v.live_in_memory,
          );
          room = omega (arith, v.room, g.not_longer);
          above = v.above;
          in_user = v.in_user;
        })

  pub place_anywhere-Chosen : Chosen low len live (place_anywhere 0 len p)
  unfolding place_anywhere mmap_free_alloc advance_base
  place_anywhere-Chosen =
      from_answer (mmap_free_alloc len p.mmap_free)
        (alloc_lem 1 len p.mmap_free (omega arith) v.free_in_memory)
    where
      -- What follows a choice of `base`, with `free` left.
      checked :
          (base : ℕ) (free : List Range)
          → base < 2 ^ 64
          → IsValid low p.mmap_base free live
          → (fails base ≡ false
              → IsValid low (advance_base false base len p).mmap_base free (one_more base len live))
          → Chosen low len live (
              if fails base
              then (record p { mmap_free = free }, refused enomem)
              else (record p { mmap_free = free }, placed base))
      checked base free h w then_valid = elim (Bool-cases (fails base)) [
        | inl f ↦ rw f (no_place enomem (omega arith) w)
        | inr f ↦ let end = fits_user base h f in rw f (place base (omega arith) w (then_valid f))
      ]

      from_answer :
          (r : ℕ × List Range)
          → Answer 1 len p.mmap_free r
          → Chosen low len live (
              if fails (if r.0 == 0 then p.mmap_base else r.0)
              then (record p { mmap_free = r.1 }, refused enomem)
              else (record p { mmap_free = r.1 }, placed (if r.0 == 0 then p.mmap_base else r.0)))
      from_answer r (refuses h) =
          checked p.mmap_base p.mmap_free (omega (arith, v.in_user)) v bumped
      from_answer r (gives i b g) =
          let test : (r.0 == 0) ≡ false = ground (arith, g.address, (source i r b g).not_null) in
          rw test (
            checked r.0 r.1 (omega (arith, below_base i r b g, v.in_user)) (rest_IsValid i r b g)
              (λ f. reused i r b g))
