-- ===== src/Waitq/Wake.antt =====
-- waitq_wake_one and waitq_wake_all of kernel/sched/waitq.c.
use exec_aegis.Base.{
  ℕ, zero, suc, ◌<◌, ◌≡◌, refl, ap, ◌∙◌, true, Option, none, some, List, [], ◌∷◌, map, length, ltb,
  ◌==◌, arith, Bool-cases, inl, inr,
}
use exec_aegis.Waitq.{Entry, Waitq, put, set_prev, add, remove, snapshot, woken, wake_all}
use exec_aegis.Waitq.Links.{first, Linked, Off, IsQueue}
use exec_aegis.Waitq.Remove.{add-IsQueue, remove-IsQueue}

-- The walk sees the queue's entries in their order.
snapshot_all :
    (es : ℕ → Entry) (p : Option ℕ) (k : ℕ) (xs : List ℕ)
    → Linked es p xs
    → length xs < k
    → snapshot es k (first xs) ≡ map (λ x. (es x).task) xs
unfolding snapshot Linked first
snapshot_all es p zero xs l h = absurd (omega arith)
snapshot_all es p (suc k) [] l h = refl
snapshot_all es p (suc k) (x ∷ xs) l h =
    let rest = snapshot_all es (some x) k xs l.3 (omega arith) in
    ap (λ h. (es x).task ∷ snapshot es k h) l.1 ∙ ap (λ ts. (es x).task ∷ ts) rest

length-map : (f : ℕ → Option ℕ) (xs : List ℕ) → length (map f xs) ≡ length xs
length-map f [] = refl
length-map f (x ∷ xs) = ap (λ n. suc n) (length-map f xs)

-- On a queue of fewer than 64 entries waitq_wake_all ends after one round, whatever other code would do
-- between two rounds: it wakes each entry's task, in the queue's order, and leaves the queue as it is.
wake_all_lem :
    (s : Waitq) (wq : ℕ) (xs : List ℕ)
    → IsQueue s wq xs
    → length xs < 64
    → (others : ℕ → Waitq → Waitq)
    → wake_all others 1 wq s ≡ some (woken (map (λ x. (s.entries x).task) xs), s)
unfolding wake_all
wake_all_lem s wq xs q small others =
    let snap : snapshot s.entries 64 (s.heads wq) ≡ map (λ x. (s.entries x).task) xs =
      ap (λ h. snapshot s.entries 64 h) q.head ∙ snapshot_all s.entries none 64 xs q.links small in
    let short : ltb (length (map (λ x. (s.entries x).task) xs)) 64 ≡ true =
      ground (arith, length-map (λ x. (s.entries x).task) xs) in
    rw (snap, short) refl

put-task :
    (e : ℕ) (n : Entry) (es : ℕ → Entry) (x : ℕ)
    → n.task ≡ (es e).task
    → (put e n es x).task ≡ (es x).task
unfolding put
put-task e n es x h = elim (Bool-cases (x == e)) [
  | inl q ↦ let a : e ≡ x = ground arith in rw q (h ∙ ap (λ y. (es y).task) a)
  | inr q ↦ rw q refl
]

set_prev-task : (t v : Option ℕ) (es : ℕ → Entry) (x : ℕ) → (set_prev t v es x).task ≡ (es x).task
unfolding set_prev
set_prev-task none v es x = refl
set_prev-task (some t) v es x = put-task t (record (es t) { prev = v }) es x refl

add-task : (s : Waitq) (wq e x : ℕ) → ((add wq e s).entries x).task ≡ (s.entries x).task
unfolding add
add-task s wq e x =
    let m : Entry = record (s.entries e) { prev = none; next = s.heads wq } in
    let linked = put e m s.entries in
    let back = set_prev (s.heads wq) (some e) linked in
    put-task e (record (back e) { on_queue = true }) back x refl
    ∙ set_prev-task (s.heads wq) (some e) linked x
    ∙ put-task e m s.entries x refl

woken-same : (f g : ℕ → Option ℕ) (xs : List ℕ) → ((x : ℕ) → f x ≡ g x) → map f xs ≡ map g xs
woken-same f g [] h = refl
woken-same f g (x ∷ xs) h = ap (λ t. t ∷ map f xs) (h x) ∙ ap (λ ts. g x ∷ ts) (woken-same f g xs h)

-- A task that puts its entry, which is not there yet, on a queue of fewer than 63 entries is the first
-- that the next waitq_wake_all wakes, before the tasks of the other entries in their order, whatever
-- other code would do between two rounds: there is one round. Its removal gives a well-linked queue of
-- the others.
pub added_woken :
    (s : Waitq) (wq e task : ℕ) (xs : List ℕ)
    → IsQueue s wq xs
    → Off (some e) xs
    → length xs < 63
    → (s.entries e).task ≡ some task
    → (others : ℕ → Waitq → Waitq)
    → (wake_all others 1 wq (add wq e s)
        ≡ some (task ∷ woken (map (λ x. (s.entries x).task) xs), add wq e s))
      × IsQueue (remove wq e (add wq e s)) wq xs
unfolding woken
added_woken s wq e task xs q off small is_task others =
    let added = add-IsQueue s wq e xs q off in
    let tasks : map (λ x. ((add wq e s).entries x).task) (e ∷ xs)
        ≡ some task ∷ map (λ x. (s.entries x).task) xs =
      woken-same (λ x. ((add wq e s).entries x).task) (λ x. (s.entries x).task) (e ∷ xs)
        (λ x. add-task s wq e x)
      ∙ ap (λ t. t ∷ map (λ x. (s.entries x).task) xs) is_task in
    (
      wake_all_lem (add wq e s) wq (e ∷ xs) added (omega arith) others
          ∙ ap (λ ts. let r : Option (List ℕ × Waitq) = some (woken ts, add wq e s) in r) tasks,
      (remove-IsQueue (add wq e s) wq e [] xs added).0,
    )
