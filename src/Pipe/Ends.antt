-- ===== src/Pipe/Ends.antt =====
-- The counted ends of kernel/fs/pipe.c: the page is freed by the last close, and end of file and
-- EPIPE are seen once the other side is closed.
use exec_aegis.Base.{
  ℕ, ◌+◌, ◌^◌, ◌<◌, ◌≡◌, refl, ◌∙◌, Bool, true, false, ◌&&◌, ◌||◌, Option, none, some, List, [],
  ◌∷◌, ◌++◌, arith, ◌==◌,
}
use exec_aegis.Pipe.{
  Pipe, Task, returns, fails, Effect, sched_wake, wake_read_waiters, wake_write_waiters,
  send_sigpipe, free_page, wake_waiting, sigpipe, read_round, write_round, read_close, write_close,
}
use exec_aegis.Pipe.Invariant.{IsValid}
use exec_aegis.Pipe.Rounds.{read_round-eof, write_round-broken}

-- Is the page of the pipe freed?
unfoldable pub frees : List Effect → Bool
frees [] = false
frees (free_page ∷ es) = true
frees (sched_wake t ∷ es) = frees es
frees (wake_read_waiters ∷ es) = frees es
frees (wake_write_waiters ∷ es) = frees es
frees (send_sigpipe n ∷ es) = frees es

frees-append : (xs ys : List Effect) → frees (xs ++ ys) ≡ (frees xs || frees ys)
unfolding frees
frees-append [] ys = refl
frees-append (free_page ∷ es) ys = refl
frees-append (sched_wake t ∷ es) ys = frees-append es ys
frees-append (wake_read_waiters ∷ es) ys = frees-append es ys
frees-append (wake_write_waiters ∷ es) ys = frees-append es ys
frees-append (send_sigpipe n ∷ es) ys = frees-append es ys

frees-wake_waiting : (w : Option Task) → frees (wake_waiting w) ≡ false
unfolding frees wake_waiting
frees-wake_waiting none = refl
frees-wake_waiting (some t) = refl

pub record CountsFit (p : Pipe) : Type 0 where
  pub read_fits : p.read_refs < 2 ^ 32
  pub write_fits : p.write_refs < 2 ^ 32

-- While an end is open (its count is not 0 and fits 32 bits), closing one descriptor of it takes one
-- from its count alone and leaves the bytes, and frees the page exactly if that was the last
-- descriptor of both ends.
close-frees :
    (p : Pipe)
    → CountsFit p
    → (0 < p.read_refs
        → ((read_close p).0.read_refs + 1 ≡ p.read_refs)
          × ((read_close p).0.write_refs ≡ p.write_refs)
          × (frees (read_close p).1 ≡ (p.read_refs == 1 && p.write_refs == 0)))
      × (0 < p.write_refs
          → ((write_close p).0.write_refs + 1 ≡ p.write_refs)
            × ((write_close p).0.read_refs ≡ p.read_refs)
            × (frees (write_close p).1 ≡ (p.read_refs == 0 && p.write_refs == 1)))
unfolding read_close write_close
close-frees p c = (
  λ h. (omega arith, refl, simp (frees-append, frees-wake_waiting) (unfold frees in ground arith)),
  λ h. (omega arith, refl, simp (frees-append, frees-wake_waiting) (unfold frees in ground arith)),
)

-- On a valid empty pipe whose write end is closed a read returns 0, end of file, and changes
-- nothing. On a valid pipe whose read end is closed a write fails with EPIPE (32), changes nothing,
-- and signals SIGPIPE to the writer exactly if it is a user task.
pub closed_other_end :
    (t : Option Task) (p : Pipe) (buf : ℕ → ℕ) (len : ℕ)
    → IsValid p
    → (p.count ≡ 0
        → p.write_refs ≡ 0
        → read_round t p buf len
          ≡ record { outcome = returns 0; pipe = p; out = buf; effects = [] })
      × (p.read_refs ≡ 0
          → write_round t p buf len ≡ record {
            outcome = fails 32;
            pipe = p;
            out = buf;
            effects = elim t [
              | none ↦ []
              | some w ↦ elim w.is_user [ true ↦ send_sigpipe w.pid ∷ [] | false ↦ [] ]
            ];
          })
closed_other_end none p buf len v = (
  read_round-eof none p buf len v,
  λ h. write_round-broken none p buf len v h ∙ unfold sigpipe in refl,
)
closed_other_end (some w) p buf len v = (
  read_round-eof (some w) p buf len v,
  λ h. write_round-broken (some w) p buf len v h ∙ unfold sigpipe in ground arith,
)
