-- ===== src/Waitq/Remove.antt =====
-- waitq_add and waitq_remove of kernel/sched/waitq.c.
use exec_aegis.Base.{
  ℕ, ◌≡◌, ◌≢◌, refl, ap, sym, subst, ◌∙◌, true, false, Option, none, some, List, [], ◌∷◌, ◌++◌, All,
  inl, inr, ◌==◌, arith, Option-cases,
}
use exec_aegis.Waitq.{Entry, Waitq, put, set_next, set_prev, set_head, head_after, add, remove}
use exec_aegis.Waitq.Links.{
  first, Linked, Off, Distinct, IsQueue, Linked-same, put-other, put_self, set_next-other,
  set_prev-other, All-of, set_prev-Linked,
}
use exec_aegis.Waitq.Unlink.{
  first-Off, unlink, on_queue_lem, prev_other, Distinct-middle, All-front,
}

Off-none : (xs : List ℕ) → Off none xs
Off-none [] = tt
Off-none (x ∷ xs) = ((λ q. cc q), Off-none xs)

off_queue : (s : Waitq) (wq e : ℕ) → (s.entries e).on_queue ≡ false → remove wq e s ≡ s
unfolding remove
off_queue s wq e h = rw (remove, h) refl

head_after-none :
    (wq : ℕ) (n : Entry) (heads : ℕ → Option ℕ) → n.prev ≡ none → head_after wq n heads wq ≡ n.next
unfolding head_after set_head
head_after-none wq n heads h =
    let q : (wq == wq) ≡ true = ground arith in rw (head_after, h, q) refl

head_after-some :
    (wq : ℕ) (n : Entry) (heads : ℕ → Option ℕ)
    → n.prev ≢ none
    → head_after wq n heads wq ≡ heads wq
unfolding head_after set_head
head_after-some wq n heads h = elim (Option-cases n.prev) [
  | inl q ↦ absurd (h q)
  | inr (p, q) ↦ rw (head_after, q) refl
]

head_removed :
    (es : ℕ → Entry) (heads : ℕ → Option ℕ) (wq : ℕ) (ys : List ℕ) (e : ℕ) (zs : List ℕ)
    → Linked es none (ys ++ e ∷ zs)
    → heads wq ≡ first (ys ++ e ∷ zs)
    → head_after wq (es e) heads wq ≡ first (ys ++ zs)
unfolding Linked first
head_removed es heads wq [] e zs l h = head_after-none wq (es e) heads l.0 ∙ l.1
head_removed es heads wq (y ∷ ys) e zs l h =
    head_after-some wq (es e) heads
      (prev_other es (some y) none ys e zs l.3 (λ q. cc q) (others ys))
    ∙ h
  where
    others : (xs : List ℕ) → All (λ x. let o : Option ℕ = some x in o ≢ none) xs
    others [] = tt
    others (x ∷ xs) = ((λ q. cc q), others xs)

module _ (s : Waitq) (wq e : ℕ) (ys zs : List ℕ) (q : IsQueue s wq (ys ++ e ∷ zs)) where
  abbrev n : Entry
  n = s.entries e

  abbrev forth : ℕ → Entry
  forth = set_next n.prev n.next s.entries

  abbrev back : ℕ → Entry
  back = set_prev (forth e).next (forth e).prev forth

  abbrev removed : Waitq
  removed = record {
    heads = head_after wq n s.heads;
    entries = put e (record (back e) { prev = none; next = none; on_queue = false }) back;
  }

  same : remove wq e s ≡ removed
  unfolding remove head_after
  same = let on = (on_queue_lem s.entries none ys e zs q.links).0 in rw (remove, on) refl

  apart : Off (some e) (ys ++ zs)
  apart = (Distinct-middle ys e zs q.distinct).0

  unmoved : forth e ≡ n
  unmoved =
      let ahead = All-front (λ x. let o : Option ℕ = some e in o ≢ some x) ys zs apart in
      set_next-other n.prev n.next s.entries e (
        prev_other s.entries none (some e) ys e zs q.links (λ z. cc z)
          (All-of ys (λ x h z. h (sym z)) ahead.0))

  back-Linked : Linked back none (ys ++ zs)
  back-Linked =
      let nx = (on_queue_lem s.entries none ys e zs q.links).1 in
      let e1 : back ≡ set_prev n.next n.prev forth =
        ap (λ (m : Entry). set_prev m.next m.prev forth) unmoved in
      let e2 : set_prev n.next n.prev forth
          ≡ set_prev (first zs) n.prev (set_next n.prev (first zs) s.entries) =
        ap (λ v. set_prev v n.prev (set_next n.prev v s.entries)) nx in
      subst (λ es. Linked es none (ys ++ zs)) (sym (e1 ∙ e2))
        (unlink s.entries none ys e zs q.links (Off-none (ys ++ e ∷ zs)) q.distinct)

  removed-IsQueue : IsQueue removed wq (ys ++ zs)
  removed-IsQueue = record {
    head = head_removed s.entries s.heads wq ys e zs q.links q.head;
    links =
        Linked-same back removed.entries none (ys ++ zs)
          (All-of (ys ++ zs)
            (λ x h.
              put-other e (record (back e) { prev = none; next = none; on_queue = false }) back x h)
            apart)
          back-Linked;
    distinct = (Distinct-middle ys e zs q.distinct).1;
  }

  -- Removing an entry from anywhere in a queue leaves a well-linked queue of the other entries in their
  -- order, and removing it again changes nothing.
  pub remove-IsQueue :
      IsQueue (remove wq e s) wq (ys ++ zs) × (remove wq e (remove wq e s) ≡ remove wq e s)
  remove-IsQueue = (
    subst (λ r. IsQueue r wq (ys ++ zs)) (sym same) removed-IsQueue,
    subst (λ r. remove wq e r ≡ r) (sym same)
        (off_queue removed wq e (
          ap (λ (m : Entry). m.on_queue)
            (put_self e (record (back e) { prev = none; next = none; on_queue = false }) back))),
  )

-- Adding an entry that is not on the queue puts it first in a well-linked queue.
pub add-IsQueue :
    (s : Waitq) (wq e : ℕ) (xs : List ℕ)
    → IsQueue s wq xs
    → Off (some e) xs
    → IsQueue (add wq e s) wq (e ∷ xs)
unfolding add set_head first Linked Distinct
add-IsQueue s wq e xs q off =
    let m : Entry = record (s.entries e) { prev = none; next = s.heads wq } in
    let linked = put e m s.entries in
    let back = set_prev (s.heads wq) (some e) linked in
    let old =
      Linked-same s.entries linked none xs (All-of xs (λ x h. put-other e m s.entries x h) off)
        q.links in
    let l : Linked back (some e) xs =
      subst (λ h. Linked (set_prev h (some e) linked) (some e) xs) (sym q.head)
        (set_prev-Linked linked none (some e) xs q.distinct old) in
    let far : back e ≡ m =
      set_prev-other (s.heads wq) (some e) linked e (λ z. first-Off e xs off (sym q.head ∙ z))
      ∙ put_self e m s.entries in
    let last : Entry = record (back e) { on_queue = true } in
    let here = put_self e last back in
    record {
      head = (let z : (wq == wq) ≡ true = ground arith in rw z refl);
      links = (
        ap (λ (n : Entry). n.prev) here ∙ ap (λ (n : Entry). n.prev) far,
        ap (λ (n : Entry). n.next) here ∙ ap (λ (n : Entry). n.next) far ∙ q.head,
        ap (λ (n : Entry). n.on_queue) here,
        Linked-same back (put e last back) (some e) xs
            (All-of xs (λ x h. put-other e last back x h) off) l,
      );
      distinct = (off, q.distinct);
    }
