-- ===== src/Tty/Bounds.antt =====
-- tty_read of kernel/tty/tty.c never leaves the line buffer, on any input.
use exec_aegis.Base.{
  ℕ, ◌-◌, ◌≤◌, ◌<◌, ◌≡◌, refl, sym, subst, ◌∙◌, Bool, true, false, not, ◌&&◌, ◌||◌, inl, inr,
  Option, none, some, List, [], ◌∷◌, ◌++◌, length, length-append, length-take, ltb, leb, ◌==◌,
  arith, Bool-cases,
}
use exec_aegis.Tty.{
  Tty, Caller, Io, has, icanon, veof, verase, vmin, line_max, is_fg, write_out, echo, send, send_fg,
  translate, signal_of,
}
use exec_aegis.Tty.Read.{
  Input, char, stops, returns, errno, Result, read_char, with_line, ready, drop_last, Typed, more,
  line_done, end_of_file, interrupts, type_signal, type_plain, type_char, reset_line, hand_out,
  fill, tty_read,
}
use exec_aegis.Tty.Pending.{LineValid, copy_line-Takes}
use exec_aegis.Tty.Line.{echo-tty}

-- No part of the line that is being typed has been taken, and it fits.
record Fresh (t : Tty) : Type 0 where
  at_start : t.line_pos ≡ 0
  fits : length t.line ≤ line_max

abbrev AllFresh : Typed → Type 0
AllFresh (more io) = Fresh io.tty
AllFresh (line_done io) = Fresh io.tty
AllFresh (end_of_file io) = Fresh io.tty
AllFresh (interrupts io) = Fresh io.tty

send_fg-tty : (sig : ℕ) (io : Io) → (send_fg sig io).tty ≡ io.tty
unfolding send_fg send
send_fg-tty sig io = elim (Bool-cases (ltb 0 io.tty.fg_pgrp)) [
  | inl h ↦ rw h refl
  | inr h ↦ rw h refl
]

Fresh-echo : (s : List ℕ) (io : Io) → Fresh io.tty → Fresh (echo s io).tty
Fresh-echo s io f = subst (λ t. Fresh t) (sym (echo-tty s io)) f

Fresh-with_line :
    (l : List ℕ) (io : Io) → Fresh io.tty → length l ≤ line_max → Fresh (with_line l io).tty
unfolding with_line
Fresh-with_line l io f h = record { at_start = f.at_start; fits = h }

Fresh-ready : (io : Io) → Fresh io.tty → Fresh (ready io).tty
unfolding ready
Fresh-ready io f = record { at_start = f.at_start; fits = f.fits }

type_signal-Fresh : (sig letter : ℕ) (io : Io) → Fresh io.tty → AllFresh (type_signal sig letter io)
unfolding type_signal write_out
type_signal-Fresh sig letter io f =
    subst (λ t. Fresh t) (sym (send_fg-tty sig _))
      (Fresh-with_line [] (write_out (10 ∷ []) (echo (94 ∷ letter ∷ []) io))
        (Fresh-echo (94 ∷ letter ∷ []) io f) (omega arith))

type_plain-Fresh : (ch : ℕ) (io : Io) → Fresh io.tty → AllFresh (type_plain ch io)
unfolding type_plain drop_last
type_plain-Fresh ch io f =
    let l = io.tty.line in
    elim (Bool-cases (ch == 10)) [
      | inl h ↦ elim (Bool-cases (ltb (length l) line_max)) [
        | inl r ↦
            rw (h, r)
              (Fresh-ready _ (
                Fresh-echo (10 ∷ []) _ (
                  Fresh-with_line (l ++ 10 ∷ []) io f (
                    let room : length l < line_max = ground arith in
                    omega (arith, length-append l (10 ∷ []))))))
        | inr r ↦ rw (h, r) (Fresh-ready _ (Fresh-echo (10 ∷ []) io f))
      ]
      | inr h ↦ rw h (elim (Bool-cases (ch == io.tty.termios.cc veof)) [
        | inl e ↦ elim (Bool-cases (length l == 0)) [
          | inl z ↦ rw (e, z) f
          | inr z ↦ rw (e, z) (Fresh-ready io f)
        ]
        | inr e ↦ rw e (elim (Bool-cases (ch == io.tty.termios.cc verase || ch == 8)) [
          | inl d ↦ elim (Bool-cases (ltb 0 (length l))) [
            | inl p ↦
                rw (d, p)
                  (Fresh-echo (8 ∷ 32 ∷ 8 ∷ []) _
                    (Fresh-with_line _ io f (omega (arith, length-take (length l - 1) l, f.fits))))
            | inr p ↦ rw (d, p) f
          ]
          | inr d ↦ rw d (elim (Bool-cases (leb 32 ch && ltb (length l) line_max)) [
            | inl p ↦ rw p (
                Fresh-echo (ch ∷ []) _ (
                  Fresh-with_line (l ++ ch ∷ []) io f (
                    let room : length l < line_max = ground arith in
                    omega (arith, length-append l (ch ∷ [])))))
            | inr p ↦ rw p f
          ])
        ])
      ])
    ]

type_char-Fresh : (ch : ℕ) (io : Io) → Fresh io.tty → AllFresh (type_char ch io)
unfolding type_char
type_char-Fresh ch io f = from_signal (signal_of io.tty.termios ch)
  where
    from_signal :
        (s : Option (ℕ × ℕ))
        → AllFresh (elim s [ some s ↦ type_signal s.0 s.1 io | none ↦ type_plain ch io ])
    from_signal none = type_plain-Fresh ch io f
    from_signal (some s) = type_signal-Fresh (s.0) (s.1) io f

Fresh-LineValid : (t : Tty) → Fresh t → LineValid t
Fresh-LineValid t f = record { position = omega (arith, f.at_start); in_buffer = f.fits }

hand_out-LineValid :
    (len : ℕ) (io : Io) (inputs : List Input)
    → LineValid io.tty
    → LineValid (hand_out len io inputs).io.tty
unfolding hand_out
hand_out-LineValid len io inputs v = (copy_line-Takes len io.tty v).valid

abbrev tty_of : Result → Tty
tty_of r = r.io.tty

abbrev LeavesValid : Result → Type 0
LeavesValid r = LineValid (tty_of r)

fill-LineValid :
    (len : ℕ) (inputs : List Input) (io : Io) → Fresh io.tty → LineValid (fill len io inputs).io.tty
unfolding fill
fill-LineValid len [] io f = Fresh-LineValid io.tty f
fill-LineValid len (stops rc interrupted ∷ rest) io f = Fresh-LineValid io.tty f
fill-LineValid len (char c ∷ rest) io f =
    from_typed (type_char (translate io.tty.termios c) io)
      (type_char-Fresh (translate io.tty.termios c) io f) (λ io' g. fill-LineValid len rest io' g)
  where
    from_typed :
        (t : Typed)
        → AllFresh t
        → ((io' : Io) → Fresh io'.tty → LineValid (fill len io' rest).io.tty)
        → LeavesValid (elim t [
          | more io' ↦ fill len io' rest
          | line_done io' ↦
              hand_out len (record io' { tty = record (io'.tty) { line_pos = 0 } }) rest
          | end_of_file io' ↦ record { io = io'; inputs = rest; outcome = returns [] }
          | interrupts io' ↦ record { io = io'; inputs = rest; outcome = errno 4 }
        ])
    from_typed (more io') g later = later io' g
    from_typed (line_done io') g later =
        hand_out-LineValid len (record io' { tty = record (io'.tty) { line_pos = 0 } }) rest
          (record { position = omega arith; in_buffer = g.fits })
    from_typed (end_of_file io') g later = Fresh-LineValid io'.tty g
    from_typed (interrupts io') g later = Fresh-LineValid io'.tty g

read_char-tty :
    (polls : Bool) (inputs : List Input) (io : Io) → (read_char polls io inputs).io.tty ≡ io.tty
unfolding read_char
read_char-tty polls [] io = refl
read_char-tty true (stops rc interrupted ∷ rest) io = refl
read_char-tty false (stops rc interrupted ∷ rest) io = refl
read_char-tty polls (char c ∷ rest) io =
    from_signal (signal_of io.tty.termios (translate io.tty.termios c))
      (λ io'. read_char-tty polls rest io')
  where
    from_signal :
        (s : Option (ℕ × ℕ))
        → ((io' : Io) → (read_char polls io' rest).io.tty ≡ io'.tty)
        → tty_of (elim s [
          | some s ↦ read_char polls (send_fg s.0 io) rest
          | none ↦ record {
            io = io;
            inputs = rest;
            outcome = returns (translate io.tty.termios c ∷ []);
          }
        ])
          ≡ io.tty
    from_signal none later = refl
    from_signal (some s) later = later (send_fg (s.0) io) ∙ send_fg-tty (s.0) io

-- A read in either mode, by any task, of any length and on any input, keeps the line within its buffer
-- of 512 bytes and the position within the line, if they were.
pub tty_read-LineValid :
    (can_poll : Bool) (c : Caller) (len : ℕ) (io : Io) (inputs : List Input)
    → LineValid io.tty
    → LineValid (tty_read can_poll c len io inputs).io.tty
unfolding tty_read send
tty_read-LineValid can_poll c len io inputs v = elim (Bool-cases (len == 0)) [
  | inl a ↦ rw a v
  | inr a ↦ rw a (elim (Bool-cases (not (is_fg io.tty c) && c.is_user && not c.ignores_ttin)) [
    | inl b ↦ rw b v
    | inr b ↦ rw b (elim (Bool-cases (has io.tty.termios.lflag icanon)) [
      | inr d ↦ rw d (
          subst (λ t. LineValid t)
            (sym (read_char-tty (io.tty.termios.cc vmin == 0 && can_poll) inputs io)) v)
      | inl d ↦ rw d (elim (Bool-cases (ltb io.tty.line_pos (length io.tty.line))) [
        | inl e ↦ rw e (hand_out-LineValid len io inputs v)
        | inr e ↦ rw e (
            fill-LineValid len inputs (record io { tty = reset_line io.tty })
              (unfold reset_line in record { at_start = refl; fits = omega arith }))
      ])
    ])
  ])
]
