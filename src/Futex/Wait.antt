-- ===== src/Futex/Wait.antt =====
-- FUTEX_WAIT, and that a wake for all reaches it (kernel/syscall/futex.c).
use exec_aegis.Base.{
  ℕ, zero, suc, ◌≤◌, ◌<◌, ◌≡◌, ◌≢◌, refl, ap, ◌∙◌, Bool, true, false, ◌||◌, not, some, List, [],
  ◌∷◌, arith, ◌==◌, length, is_some, ◌⊎◌, take, drop, u32, Bool-cases, Option-cases, inl, inr,
}
use exec_aegis.Futex.{Waiter, take_slot, errno, blocks, enqueue, futex_wake_addr}
use exec_aegis.Futex.Wake.{waiting, futex_wake_addr-Wakes}

-- Is a slot free?
unfoldable pub has_free : List Waiter → Bool
has_free [] = false
has_free (w ∷ ws) = not w.in_use || has_free ws

unfoldable pub member : ℕ → List ℕ → Bool
member t [] = false
member t (x ∷ xs) = x == t || member t xs

-- What a slot taken for a task comes to.
record Taken (pool : List Waiter) (task addr : ℕ) (ws : List Waiter) : Type 0 where
  here : member task (waiting addr ws) ≡ true
  longer : length (waiting addr ws) ≡ suc (length (waiting addr pool))
  others : (b : ℕ) → b ≢ addr → waiting b ws ≡ waiting b pool

take_slot-Taken :
    (pool : List Waiter) (task addr : ℕ) (ws : List Waiter)
    → take_slot pool task addr ≡ some ws
    → Taken pool task addr ws
unfolding take_slot waiting member
take_slot-Taken [] task addr ws e = absurd (cc e)
take_slot-Taken (w ∷ pool) task addr ws e = elim (Bool-cases w.in_use) [
  | inr free ↦
      let q : some (record { task = task; addr = addr; in_use = true } ∷ pool) ≡ some ws =
        rw (take_slot, free) at e in
      let q' : record { task = task; addr = addr; in_use = true } ∷ pool ≡ ws = cc q in
      rw (← q') (record {
        here = ground arith;
        longer = ground (arith, free);
        others = λ b ne. ground (arith, free, ne);
      })
  | inl used ↦ elim (Option-cases (take_slot pool task addr)) [
    | inl full ↦ absurd (grind (arith, used, full, e))
    | inr (rest, found) ↦
        let ih = take_slot-Taken pool task addr rest found in
        let q : some (w ∷ rest) ≡ some ws = rw (take_slot, used, found) at e in
        let q' : w ∷ rest ≡ ws = cc q in
        rw (← q') (record {
          here = let h = ih.here in ground (arith, h);
          longer = let l = ih.longer in ground (arith, l);
          others = λ b ne. let o = ih.others b ne in ground (arith, o);
        })
  ]
]

take_slot-has_free :
    (pool : List Waiter) (task addr : ℕ) → is_some (take_slot pool task addr) ≡ has_free pool
unfolding take_slot has_free
take_slot-has_free [] task addr = refl
take_slot-has_free (w ∷ pool) task addr =
    let ih = take_slot-has_free pool task addr in
    elim (Option-cases (take_slot pool task addr)) [
      | inl full ↦ ground (arith, ih, full)
      | inr (rest, found) ↦ ground (arith, ih, found)
    ]

pub take_whole : (n : ℕ) (xs : List ℕ) → length xs ≤ n → (take n xs ≡ xs) × (drop n xs ≡ [])
take_whole zero [] le = (refl, refl)
take_whole zero (x ∷ xs) le = absurd (omega arith)
take_whole (suc n) [] le = (refl, refl)
take_whole (suc n) (x ∷ xs) le =
    let ih = take_whole n xs (omega arith) in (ap (λ t. x ∷ t) ih.0, ih.1)

-- A task that waits takes a free slot, if there is one, and is then among the waiters of the address, one more
-- than before; those of the other addresses do not change. With a full pool the call fails with ENOMEM and
-- changes nothing.
pub enqueue_lem :
    (pool : List Waiter) (task addr : ℕ)
    → ((has_free pool ≡ true)
        × ((enqueue pool task addr).outcome ≡ blocks)
        × (member task (waiting addr (enqueue pool task addr).pool) ≡ true)
        × (length (waiting addr (enqueue pool task addr).pool) ≡ suc (length (waiting addr pool)))
        × ((b : ℕ) → b ≢ addr → waiting b (enqueue pool task addr).pool ≡ waiting b pool))
      ⊎ ((has_free pool ≡ false)
          × ((enqueue pool task addr).outcome ≡ errno 12)
          × ((enqueue pool task addr).pool ≡ pool))
unfolding enqueue
enqueue_lem pool task addr =
    let room = take_slot-has_free pool task addr in
    elim (Option-cases (take_slot pool task addr)) [
      | inl full ↦
          let no_room : has_free pool ≡ false = cc (room, full) in
          inr (no_room, rw (enqueue, full) refl, rw (enqueue, full) refl)
      | inr (ws, found) ↦
          let t = take_slot-Taken pool task addr ws found in
          let some_room : has_free pool ≡ true = cc (room, found) in
          inl (
            some_room,
            rw (enqueue, found) refl,
            rw (enqueue, found) t.here,
            rw (enqueue, found) t.longer,
            λ b ne. rw (enqueue, found) (t.others b ne),
          )
    ]

-- A task that takes a free slot to sleep on an address is woken by a wake there that follows and is for more
-- tasks (modulo 2 ^ 32) than waited before it; no waiter of the address is left then.
pub sleeper_woken :
    (pool : List Waiter) (task addr count : ℕ)
    → has_free pool ≡ true
    → length (waiting addr pool) < u32 count
    → let r = futex_wake_addr (enqueue pool task addr).pool addr count in
      (member task r.tasks ≡ true) × (waiting addr r.pool ≡ [])
sleeper_woken pool task addr count free lt =
    let after = (enqueue pool task addr).pool in
    let w = futex_wake_addr-Wakes after addr count in
    elim (enqueue_lem pool task addr) [
      | inr (full, e, same) ↦ absurd (cc (free, full))
      | inl (room, e, here, longer, others) ↦
          let whole = take_whole (u32 count) (waiting addr after) (omega (arith, longer)) in
          (rw (w.tasks ∙ whole.0) here, w.left ∙ whole.1)
    ]
