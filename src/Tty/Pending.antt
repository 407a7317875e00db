-- ===== src/Tty/Pending.antt =====
-- What is left of a line in kernel/tty/tty.c, and the reads that hand it out.
use exec_aegis.Base.{
  ℕ, zero, suc, ◌+◌, ◌-◌, ◌≤◌, ◌<◌, ◌≡◌, refl, ap, ap₂, sym, ◌∙◌, Bool, true, false, not, ◌&&◌, inl,
  inr, List, [], ◌∷◌, ◌++◌, length, take, drop, ltb, leb, ◌==◌, min, arith, Bool-cases,
}
use exec_aegis.Tty.{line_max, Tty, Caller, Io, has, icanon, is_fg}
use exec_aegis.Tty.Read.{Input, returns, reset_line, copy_line, hand_out, tty_read}

-- The part of the line that no read has taken yet.
abbrev pub pending : Tty → List ℕ
pending t = drop t.line_pos t.line

take-drop : (n : ℕ) (xs : List ℕ) → take n xs ++ drop n xs ≡ xs
take-drop zero xs = refl
take-drop (suc n) [] = refl
take-drop (suc n) (x ∷ xs) = ap (λ t. x ∷ t) (take-drop n xs)

drop-nil : (n : ℕ) → drop {A = ℕ} n [] ≡ []
drop-nil zero = refl
drop-nil (suc n) = refl

drop-add : (n m : ℕ) (xs : List ℕ) → drop n (drop m xs) ≡ drop (m + n) xs
drop-add n zero xs = let e : 0 + n ≡ n = omega arith in rw e refl
drop-add n (suc m) [] = drop-nil n ∙ sym (drop-nil (suc m + n))
drop-add n (suc m) (x ∷ xs) =
    let e : suc m + n ≡ suc (m + n) = omega arith in rw e (drop-add n m xs)

drop-all : (n : ℕ) (xs : List ℕ) → length xs ≤ n → drop n xs ≡ []
drop-all zero [] h = refl
drop-all (suc n) [] h = refl
drop-all zero (x ∷ xs) h = absurd (omega arith)
drop-all (suc n) (x ∷ xs) h = drop-all n xs (omega arith)

length-drop : (n : ℕ) (xs : List ℕ) → length (drop n xs) ≡ length xs - n
length-drop zero xs = omega arith
length-drop (suc n) [] = omega arith
length-drop (suc n) (x ∷ xs) = omega (arith, length-drop n xs)

drop-length-take : (n : ℕ) (xs : List ℕ) → drop (length (take n xs)) xs ≡ drop n xs
drop-length-take zero xs = refl
drop-length-take (suc n) [] = refl
drop-length-take (suc n) (x ∷ xs) = drop-length-take n xs

length-take : (n : ℕ) (xs : List ℕ) → length (take n xs) ≡ min n (length xs)
length-take zero xs = omega arith
length-take (suc n) [] = omega arith
length-take (suc n) (x ∷ xs) = omega (arith, length-take n xs)

-- The position is within the line, and the line within its buffer.
pub record LineValid (t : Tty) : Type 0 where
  pub position : t.line_pos ≤ length t.line
  pub in_buffer : length t.line ≤ line_max

-- A read of at most `len` bytes from the line took `got` and left `t'`.
pub record Takes (len : ℕ) (t : Tty) (r : Tty × List ℕ) : Type 0 where
  pub got : r.1 ≡ take len (pending t)
  pub left : pending r.0 ≡ drop len (pending t)
  pub valid : LineValid r.0
  pub termios_kept : r.0.termios ≡ t.termios
  pub group_kept : r.0.fg_pgrp ≡ t.fg_pgrp

module _ (len : ℕ) (t : Tty) (v : LineValid t) where
  abbrev copied : List ℕ
  copied = take len (pending t)

  after_copied : drop (t.line_pos + length copied) t.line ≡ drop len (pending t)
  after_copied = sym (drop-add (length copied) t.line_pos t.line) ∙ drop-length-take len (pending t)

  pub copy_line-Takes : Takes len t (copy_line len t)
  unfolding copy_line
  copy_line-Takes = elim (Bool-cases (leb (length t.line) (t.line_pos + length copied))) [
    | inl h ↦
        rw (copy_line, h)
          (unfold reset_line in
            record {
              got = refl;
              left =
                  sym (drop-all (t.line_pos + length copied) t.line (ground arith)) ∙ after_copied;
              valid = record { position = omega arith; in_buffer = omega arith };
              termios_kept = refl;
              group_kept = refl;
            })
    | inr h ↦
        rw (copy_line, h)
          (record {
            got = refl;
            left = after_copied;
            valid = record { position = ground arith; in_buffer = v.in_buffer };
            termios_kept = refl;
            group_kept = refl;
          })
  ]

-- In canonical mode, where a part of a line is pending, a read of at least one byte by a task that may
-- read (in the foreground, no user process, or ignoring SIGTTIN) takes no input, sends no signal and
-- writes nothing: it returns the first bytes of what is pending, as many as there are up to the length
-- asked for, and what it returned and what is pending then are together what was pending before.
pub read-pending :
    (can_poll : Bool) (c : Caller) (len : ℕ) (io : Io) (inputs : List Input)
    → LineValid io.tty
    → 0 < len
    → (not (is_fg io.tty c) && c.is_user && not c.ignores_ttin) ≡ false
    → has io.tty.termios.lflag icanon ≡ true
    → io.tty.line_pos < length io.tty.line
    → (bytes : List ℕ) × (t : Tty) × (tty_read can_poll c len io inputs
        ≡ record { io = record io { tty = t }; inputs = inputs; outcome = returns bytes })
      × (length bytes ≡ min len (length (pending io.tty)))
      × (bytes ++ pending t ≡ pending io.tty)
unfolding tty_read hand_out
read-pending can_poll c len io inputs v pos may canon some_left =
    let some_bytes : (len == 0) ≡ false = ground arith in
    let left : ltb io.tty.line_pos (length io.tty.line) ≡ true = ground arith in
    let k = copy_line-Takes len io.tty v in
    let r = copy_line len io.tty in
    (
      r.1,
      r.0,
      rw (some_bytes, may, canon, left) refl,
      ap length (k.got) ∙ length-take len (pending io.tty),
      ap₂ ◌++◌ (k.got) (k.left) ∙ take-drop len (pending io.tty),
    )
