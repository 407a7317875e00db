-- ===== src/Futex/Wake.antt =====
-- FUTEX_WAKE wakes the first waiters of an address, and no other (kernel/syscall/futex.c).
use exec_aegis.Base.{
  ℕ, zero, suc, ◌+◌, ◌-◌, ◌≤◌, ◌≡◌, ◌≢◌, refl, ap, subst, true, false, ◌&&◌, List, [], ◌∷◌, arith,
  ltb, ◌==◌, if◌then◌else◌, length, take, drop, u32, Bool-cases, inl, inr,
}
use exec_aegis.Futex.{Waiter, Woken, wake_from, futex_wake_addr}

-- The tasks that wait at an address, in the order of their slots.
unfoldable pub waiting : ℕ → List Waiter → List ℕ
waiting addr [] = []
waiting addr (w ∷ ws) =
    if w.in_use && w.addr == addr then w.task ∷ waiting addr ws else waiting addr ws

-- What a wake of up to `n` tasks at an address leaves.
pub record Wakes (addr n : ℕ) (pool : List Waiter) (r : Woken) : Type 0 where
  pub tasks : r.tasks ≡ take n (waiting addr pool)
  pub left : waiting addr r.pool ≡ drop n (waiting addr pool)
  pub others : (b : ℕ) → b ≢ addr → waiting b r.pool ≡ waiting b pool
  pub size : length r.pool ≡ length pool

take-nil : (n : ℕ) → [] ≡ take {A = ℕ} n []
take-nil zero = refl
take-nil (suc n) = refl

drop-nil : (n : ℕ) → [] ≡ drop {A = ℕ} n []
drop-nil zero = refl
drop-nil (suc n) = refl

module _ (addr count : ℕ) where
  stopped-Wakes :
      (ws : List Waiter) (woken : ℕ)
      → count ≤ woken
      → Wakes addr (count - woken) ws (record { pool = ws; tasks = [] })
  stopped-Wakes ws woken le =
      let none_left : count - woken ≡ 0 = omega arith in
      rw none_left (record { tasks = refl; left = refl; others = λ b ne. refl; size = refl })

  -- A slot that waits at the address, with one more to wake.
  woken-Wakes :
      (w : Waiter) (ws : List Waiter) (n : ℕ) (r : Woken)
      → (w.in_use && w.addr == addr) ≡ true
      → Wakes addr n ws r
      → Wakes addr (suc n) (w ∷ ws) (record {
        pool = record { task = 0; addr = w.addr; in_use = false } ∷ r.pool;
        tasks = w.task ∷ r.tasks;
      })
  unfolding waiting
  woken-Wakes w ws n r here ih = record {
    tasks = let t = ih.tasks in rw here (ap (λ ts. w.task ∷ ts) t);
    left = let l = ih.left in rw here l;
    others = λ b ne. let o = ih.others b ne in ground (arith, o, here, ne);
    size = omega (arith, ih.size);
  }

  passed-Wakes :
      (w : Waiter) (ws : List Waiter) (n : ℕ) (r : Woken)
      → (w.in_use && w.addr == addr) ≡ false
      → Wakes addr n ws r
      → Wakes addr n (w ∷ ws) (record { pool = w ∷ r.pool; tasks = r.tasks })
  unfolding waiting
  passed-Wakes w ws n r other ih = record {
    tasks = rw other ih.tasks;
    left = rw other ih.left;
    others = λ b ne. let o = ih.others b ne in ground (arith, o);
    size = omega (arith, ih.size);
  }

  wake_from-Wakes :
      (ws : List Waiter) (woken : ℕ) → Wakes addr (count - woken) ws (wake_from ws addr count woken)
  unfolding wake_from waiting
  wake_from-Wakes [] woken = record {
    tasks = take-nil (count - woken);
    left = drop-nil (count - woken);
    others = λ b ne. refl;
    size = refl;
  }
  wake_from-Wakes (w ∷ ws) woken = elim (Bool-cases (ltb woken count)) [
    | inr done_ ↦ rw (wake_from, done_) (stopped-Wakes (w ∷ ws) woken (ground (arith, done_)))
    | inl more ↦ elim (Bool-cases (w.in_use && w.addr == addr)) [
      | inl here ↦
          let one : count - woken ≡ suc (count - (woken + 1)) = ground (arith, more) in
          let ih = wake_from-Wakes ws (woken + 1) in
          rw (wake_from, more, here, one)
            (woken-Wakes w ws (count - (woken + 1)) (wake_from ws addr count (woken + 1)) here ih)
      | inr other ↦
          let ih = wake_from-Wakes ws woken in
          rw (wake_from, more, other)
            (passed-Wakes w ws (count - woken) (wake_from ws addr count woken) other ih)
    ]
  ]

-- A wake at an address wakes the first waiters there, as many as asked for (modulo 2 ^ 32) or waiting, in the
-- order of the slots, and frees their slots. The later waiters and those at other addresses keep theirs.
pub futex_wake_addr-Wakes :
    (pool : List Waiter) (addr count : ℕ)
    → Wakes addr (u32 count) pool (futex_wake_addr pool addr count)
unfolding futex_wake_addr
futex_wake_addr-Wakes pool addr count =
    let whole : u32 count - 0 ≡ u32 count = omega arith in
    subst (λ n. Wakes addr n pool (wake_from pool addr (u32 count) 0)) whole
      (wake_from-Wakes addr (u32 count) pool 0)
