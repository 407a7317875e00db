-- ===== src/Waitq/Tests.antt =====
-- The queues of kernel/sched/waitq.c at concrete states, and the theorems there.
use exec_aegis.Base.{ℕ, ◌+◌, ◌≡◌, ◌≢◌, refl, false, Option, none, some, [], ◌∷◌, map, arith}
use exec_aegis.Waitq.{
  Waitq, add, remove, put, set_head, set_next, set_prev, head_after, snapshot, woken, wake_one,
  wake_all,
}
use exec_aegis.Waitq.Links.{first, Linked, Distinct, IsQueue}
use exec_aegis.Waitq.Remove.{add-IsQueue, remove-IsQueue}
use exec_aegis.Waitq.Wake.{added_woken}

-- No queue has an entry; each entry belongs to a task of its own.
abbrev idle : Waitq
idle = record {
  heads = λ w. none;
  entries = λ e. record { task = some (e + 100); next = none; prev = none; on_queue = false };
}

-- Entries 3, 2 and 1 are on queue 7.
abbrev three : Waitq
three = add 7 3 (add 7 2 (add 7 1 idle))

idle-IsQueue : IsQueue idle 7 []
unfolding Linked first Distinct
idle-IsQueue = record { head = refl; links = tt; distinct = tt }

differ : (a b : ℕ) → a ≢ b → (let o : Option ℕ = some a in o) ≢ some b
differ a b h = λ q. h (cc q)

three-IsQueue : IsQueue three 7 (3 ∷ 2 ∷ 1 ∷ [])
three-IsQueue =
    add-IsQueue (add 7 2 (add 7 1 idle)) 7 3 (2 ∷ 1 ∷ [])
      (add-IsQueue (add 7 1 idle) 7 2 (1 ∷ []) (add-IsQueue idle 7 1 [] idle-IsQueue tt)
        (differ 2 1 (λ q. absurd (omega arith)), tt))
      (differ 3 2 (λ q. absurd (omega arith)), (differ 3 1 (λ q. absurd (omega arith)), tt))

wakes_first : wake_one 7 three ≡ 103 ∷ []
unfolding wake_one woken snapshot add set_head set_prev put
wakes_first = refl

-- With 2 gone the others are woken.
wakes_others :
    woken (snapshot (remove 7 2 three).entries 64 ((remove 7 2 three).heads 7)) ≡ 103 ∷ 101 ∷ []
unfolding woken snapshot add remove set_head set_prev set_next put head_after
wakes_others = refl

remove-IsQueue_example :
    IsQueue (remove 7 2 three) 7 (3 ∷ 1 ∷ []) × (remove 7 2 (remove 7 2 three) ≡ remove 7 2 three)
remove-IsQueue_example = remove-IsQueue three 7 2 (3 ∷ []) (1 ∷ []) three-IsQueue

added_woken_example :
    (wake_all (λ n s. idle) 1 7 (add 7 4 three)
      ≡ some (104 ∷ woken (map (λ x. (three.entries x).task) (3 ∷ 2 ∷ 1 ∷ [])), add 7 4 three))
    × IsQueue (remove 7 4 (add 7 4 three)) 7 (3 ∷ 2 ∷ 1 ∷ [])
unfolding add put set_prev set_head
added_woken_example =
    added_woken three 7 4 104 (3 ∷ 2 ∷ 1 ∷ []) three-IsQueue
      (
        differ 4 3 (λ q. absurd (omega arith)),
        (differ 4 2 (λ q. absurd (omega arith)), (differ 4 1 (λ q. absurd (omega arith)), tt)),
      )
      (omega arith) refl (λ n s. idle)
