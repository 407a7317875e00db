-- ===== src/Futex/Tests.antt =====
-- The futex pool of kernel/syscall/futex.c at a concrete state, and its theorems there.
use exec_aegis.Base.{◌≡◌, refl, true, List, [], ◌∷◌, arith, u32}
use exec_aegis.Futex.{Waiter, enqueue, futex_wake_addr, free_waiter}
use exec_aegis.Futex.Wake.{waiting, Wakes, futex_wake_addr-Wakes}
use exec_aegis.Futex.Wait.{has_free, member, sleeper_woken}

-- Tasks 3 and 5 wait at 4096, and a slot is free.
abbrev pool : List Waiter
pool =
    record { task = 3; addr = 4096; in_use = true }
    ∷ free_waiter
    ∷ record { task = 5; addr = 4096; in_use = true }
    ∷ []

futex_wake_addr-Wakes_example : Wakes 4096 (u32 1) pool (futex_wake_addr pool 4096 1)
futex_wake_addr-Wakes_example = futex_wake_addr-Wakes pool 4096 1

sleeper_woken_example :
    let r = futex_wake_addr (enqueue pool 7 4096).pool 4096 9 in
    (member 7 r.tasks ≡ true) × (waiting 4096 r.pool ≡ [])
unfolding has_free waiting
sleeper_woken_example = sleeper_woken pool 7 4096 9 refl (omega arith)
