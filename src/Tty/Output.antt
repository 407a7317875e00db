-- ===== src/Tty/Output.antt =====
-- tty_write of kernel/tty/tty.c: what reaches the driver, compared with the bytes written.
use exec_aegis.Base.{
  ℕ, suc, ◌<◌, ◌≡◌, refl, ap, sym, subst, ◌∙◌, true, false, not, ◌&&◌, inl, inr, List, [], ◌∷◌,
  ◌++◌, append_assoc, append-nil, length, ltb, ◌==◌, if◌then◌else◌, All, All-append, arith,
  Bool-cases,
}
use exec_aegis.Tty.{Caller, Io, has, opost, onlcr, tostop, is_fg, write_out}
use exec_aegis.Tty.Read.{returns, write_lines, tty_write}

-- The calls of the driver, one after the other.
unfoldable pub joined : List (List ℕ) → List ℕ
joined [] = []
joined (c ∷ cs) = c ++ joined cs

-- A carriage return in front of every newline.
unfoldable pub crlf : List ℕ → List ℕ
crlf [] = []
crlf (b ∷ bs) = if b == 10 then 13 ∷ 10 ∷ crlf bs else b ∷ crlf bs

joined-append : (xs ys : List (List ℕ)) → joined (xs ++ ys) ≡ joined xs ++ joined ys
unfolding joined
joined-append [] ys = refl
joined-append (x ∷ xs) ys =
    ap (λ t. x ++ t) (joined-append xs ys) ∙ sym (append_assoc x (joined xs) (joined ys))

joined-one : (xs : List (List ℕ)) (s : List ℕ) → joined (xs ++ s ∷ []) ≡ joined xs ++ s
unfolding joined
joined-one xs s = joined-append xs (s ∷ []) ∙ ap (λ t. joined xs ++ t) (append-nil s)

-- What a write of `bytes`, processed to `text`, did: it reached the driver after what was there, in calls
-- that are not empty, and nothing else changed.
pub record Written (io io' : Io) (text : List ℕ) : Type 0 where
  pub reached : joined io'.out ≡ joined io.out ++ text
  pub not_empty : All (λ s. 0 < length s) io.out → All (λ s. 0 < length s) io'.out
  pub tty_kept : io'.tty ≡ io.tty
  pub signals_kept : io'.signals ≡ io.signals

Written-trans : {a b c : Io} {s t : List ℕ} → Written a b s → Written b c t → Written a c (s ++ t)
Written-trans {a = a} {s = s} {t = t} p q = record {
  reached = q.reached ∙ ap (λ x. x ++ t) (p.reached) ∙ append_assoc (joined a.out) s t;
  not_empty = λ h. q.not_empty (p.not_empty h);
  tty_kept = q.tty_kept ∙ p.tty_kept;
  signals_kept = q.signals_kept ∙ p.signals_kept;
}

write_out-Written : (s : List ℕ) (io : Io) → 0 < length s → Written io (write_out s io) s
unfolding write_out
write_out-Written s io h = record {
  reached = joined-one io.out s;
  not_empty = λ all. All-append (λ s. 0 < length s) io.out (s ∷ []) all (h, tt);
  tty_kept = refl;
  signals_kept = refl;
}

-- A chunk is written unless it is empty.
flush-Written :
    (chunk : List ℕ) (io : Io)
    → Written io (if ltb 0 (length chunk) then write_out chunk io else io) chunk
flush-Written [] io = record {
  reached = sym (append-nil (joined io.out));
  not_empty = λ h. h;
  tty_kept = refl;
  signals_kept = refl;
}
flush-Written (b ∷ bs) io =
    let some : ltb 0 (suc (length bs)) ≡ true = ground arith in
    rw some (write_out-Written (b ∷ bs) io (omega arith))

write_lines-Written :
    (chunk bs : List ℕ) (io : Io) → Written io (write_lines chunk bs io) (chunk ++ crlf bs)
unfolding write_lines crlf
write_lines-Written chunk [] io =
    subst (λ t. Written io (if ltb 0 (length chunk) then write_out chunk io else io) t)
      (sym (append-nil chunk)) (flush-Written chunk io)
write_lines-Written chunk (b ∷ bs) io = elim (Bool-cases (b == 10)) [
  | inl h ↦
      rw (write_lines, h)
        (Written-trans (flush-Written chunk io) (
          Written-trans (write_out-Written (13 ∷ 10 ∷ []) _ (omega arith))
            (write_lines-Written [] bs _)))
  | inr h ↦
      rw (write_lines, h)
        (subst (λ t. Written io (write_lines (chunk ++ b ∷ []) bs io) t)
          (append_assoc chunk (b ∷ []) (crlf bs)) (write_lines-Written (chunk ++ b ∷ []) bs io))
]

-- With OPOST and ONLCR set, a write by a task that is in the foreground, or while TOSTOP is clear,
-- returns all its bytes as taken. What reaches the driver, after what was there before, is the bytes with
-- a carriage return put in front of every newline; no call of the driver is empty if none was before; the
-- terminal's state is unchanged and no signal is sent.
pub write-crlf :
    (taken : List ℕ → ℕ) (c : Caller) (bytes : List ℕ) (io : Io)
    → (has io.tty.termios.lflag tostop && not (is_fg io.tty c)) ≡ false
    → has io.tty.termios.oflag opost ≡ true
    → has io.tty.termios.oflag onlcr ≡ true
    → (io' : Io) × (tty_write taken c bytes io ≡ (io', returns bytes)) × Written io io' (crlf bytes)
unfolding tty_write
write-crlf taken c bytes io may process newlines =
    (write_lines [] bytes io, rw (may, process, newlines) refl, write_lines-Written [] bytes io)
