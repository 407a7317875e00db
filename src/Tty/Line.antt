-- ===== src/Tty/Line.antt =====
-- A line typed at a terminal in canonical mode, in kernel/tty/tty.c: which characters the reader gets.
use exec_aegis.Base.{
  ℕ, zero, suc, ◌+◌, ◌-◌, ◌≤◌, ◌<◌, ◌≡◌, refl, ap, sym, subst, ◌∙◌, Bool, true, false, not, ◌&&◌,
  ◌||◌, inl, inr, none, List, [], ◌∷◌, ◌++◌, map, append_assoc, append-nil, length, length-append,
  length-take, take, drop, ltb, leb, ◌==◌, if◌then◌else◌, All, arith, Bool-cases,
}
use exec_aegis.Tty.{
  Termios, Tty, Caller, Io, has, icanon, icrnl, veof, verase, line_max, echo_flag, is_fg, write_out,
  echo, translate, signal_of,
}
use exec_aegis.Tty.Read.{
  Input, char, stops, returns, errno, stopped, Result, with_line, ready, drop_last, more, line_done,
  type_plain, type_char, reset_line, hand_out, fill, tty_read,
}
use exec_aegis.Tty.Pending.{pending, LineValid, copy_line-Takes}

-- The character erases the one before it.
abbrev pub erases : Termios → ℕ → Bool
erases tm k = k == tm.cc verase || k == 8

-- A character that goes into the line: printable, and no signal, end of file or erase character.
abbrev pub plain : Termios → ℕ → Bool
plain tm k = leb 32 k && not (k == tm.cc veof) && not (erases tm k)

-- A keystroke of a line that is being typed; neither kind is a newline, an end of file or a signal.
pub record Key (tm : Termios) (k : ℕ) : Type 0 where
  pub no_signal : signal_of tm (translate tm k) ≡ none
  pub untranslated : translate tm k ≡ k
  pub no_newline : (k == 10) ≡ false
  pub no_eof : (k == tm.cc veof) ≡ false
  pub kind : (erases tm k || plain tm k) ≡ true

-- A character before keys that left `rest` and erases for `n` more.
unfoldable pub keep : ℕ → ℕ × List ℕ → ℕ × List ℕ
keep k (zero, rest) = (0, k ∷ rest)
keep k (suc n, rest) = (n, rest)

-- What is left of the keys: a key stays unless an erase that follows it takes it. With the number of
-- erases that find nothing among these keys.
unfoldable pub survivors : Termios → List ℕ → ℕ × List ℕ
survivors tm [] = (0, [])
survivors tm (k ∷ ks) =
    let r = survivors tm ks in if erases tm k then (suc (r.0), r.1) else keep k r

-- The line after the keys, one by one.
unfoldable typed : Termios → List ℕ → List ℕ → List ℕ
unfolding drop_last
typed tm l [] = l
typed tm l (k ∷ ks) = typed tm (if erases tm k then drop_last l else l ++ k ∷ []) ks

unfoldable drop_lasts : ℕ → List ℕ → List ℕ
unfolding drop_last
drop_lasts zero l = l
drop_lasts (suc n) l = drop_lasts n (drop_last l)

drop_last-snoc : (l : List ℕ) (k : ℕ) → drop_last (l ++ k ∷ []) ≡ l
unfolding drop_last
drop_last-snoc l k =
    let e : length (l ++ k ∷ []) - 1 ≡ length l = omega (arith, length-append l (k ∷ [])) in
    ap (λ n. take n (l ++ k ∷ [])) e ∙ take_front l (k ∷ [])
  where
    take_front : (xs ys : List ℕ) → take (length xs) (xs ++ ys) ≡ xs
    take_front [] ys = refl
    take_front (x ∷ xs) ys = ap (λ t. x ∷ t) (take_front xs ys)

drop_last-empty : (l : List ℕ) → ltb 0 (length l) ≡ false → drop_last l ≡ l
unfolding drop_last
drop_last-empty [] h = refl
drop_last-empty (x ∷ xs) h = absurd (ground arith)

drop_lasts-nil : (n : ℕ) → drop_lasts n [] ≡ []
unfolding drop_lasts drop_last
drop_lasts-nil zero = refl
drop_lasts-nil (suc n) = drop_lasts-nil n

typed-survivors :
    (tm : Termios) (ks l : List ℕ)
    → typed tm l ks ≡ drop_lasts (survivors tm ks).0 l ++ (survivors tm ks).1
unfolding typed survivors drop_lasts
typed-survivors tm [] l = sym (append-nil l)
typed-survivors tm (k ∷ ks) l = elim (Bool-cases (erases tm k)) [
  | inl h ↦ rw h (typed-survivors tm ks (drop_last l))
  | inr h ↦ rw h (typed-survivors tm ks (l ++ k ∷ []) ∙ kept (survivors tm ks))
]
  where
    kept :
        (r : ℕ × List ℕ)
        → drop_lasts (r.0) (l ++ k ∷ []) ++ r.1 ≡ drop_lasts (keep k r).0 l ++ (keep k r).1
    kept (zero, rest) = unfold keep in append_assoc l (k ∷ []) rest
    kept (suc n, rest) = unfold keep in ap (λ t. drop_lasts n t ++ rest) (drop_last-snoc l k)

-- The terminal after one key: the line has changed, and nothing else of it.
record Keyed (tm : Termios) (k : ℕ) (io : Io) : Type 0 where
  after : Io
  continues : type_char (translate tm k) io ≡ more after
  tty_after : after.tty ≡ record (io.tty) {
    line = if erases tm k then drop_last io.tty.line else io.tty.line ++ k ∷ [];
  }
  signals_after : after.signals ≡ io.signals

pub echo-tty : (s : List ℕ) (io : Io) → (echo s io).tty ≡ io.tty
unfolding echo write_out
echo-tty s io = elim (Bool-cases (has io.tty.termios.lflag echo_flag)) [
  | inl h ↦ rw h refl
  | inr h ↦ rw h refl
]

echo-signals : (s : List ℕ) (io : Io) → (echo s io).signals ≡ io.signals
unfolding echo write_out
echo-signals s io = elim (Bool-cases (has io.tty.termios.lflag echo_flag)) [
  | inl h ↦ rw h refl
  | inr h ↦ rw h refl
]

module _ (tm : Termios) (io : Io) (same : io.tty.termios ≡ tm) (k : ℕ) (key : Key tm k) where
  no_signal_here : signal_of io.tty.termios (translate tm k) ≡ none
  no_signal_here = ap (λ t. signal_of t (translate tm k)) same ∙ key.no_signal

  no_eof_here : (k == io.tty.termios.cc veof) ≡ false
  no_eof_here = ap (λ t. k == t.cc veof) same ∙ key.no_eof

  type_char-plain : type_char (translate tm k) io ≡ type_plain k io
  unfolding type_char
  type_char-plain = rw (type_char, no_signal_here, key.untranslated) refl

  erase_here : erases tm k ≡ (k == io.tty.termios.cc verase || k == 8)
  erase_here = ap (λ t. k == t.cc verase || k == 8) (sym same)

  key_erases : erases tm k ≡ true → Keyed tm k io
  unfolding type_plain
  key_erases h =
      let here : (k == io.tty.termios.cc verase || k == 8) ≡ true = sym erase_here ∙ h in
      elim (Bool-cases (ltb 0 (length io.tty.line))) [
        | inl some_left ↦ record {
          after = echo (8 ∷ 32 ∷ 8 ∷ []) (with_line (drop_last io.tty.line) io);
          continues =
              type_char-plain ∙ rw (type_plain, key.no_newline, no_eof_here, here, some_left) refl;
          tty_after = rw h (
              echo-tty (8 ∷ 32 ∷ 8 ∷ []) (with_line (drop_last io.tty.line) io)
              ∙ (unfold with_line in refl));
          signals_after =
              echo-signals (8 ∷ 32 ∷ 8 ∷ []) (with_line (drop_last io.tty.line) io)
              ∙ (unfold with_line in refl);
        }
        | inr empty ↦ record {
          after = io;
          continues =
              type_char-plain ∙ rw (type_plain, key.no_newline, no_eof_here, here, empty) refl;
          tty_after =
              rw h
                (ap (λ l. record (io.tty) { line = l }) (sym (drop_last-empty io.tty.line empty)));
          signals_after = refl;
        }
      ]

  key_letter : erases tm k ≡ false → length io.tty.line < line_max → Keyed tm k io
  unfolding type_plain
  key_letter h room =
      let here : (k == io.tty.termios.cc verase || k == 8) ≡ false = sym erase_here ∙ h in
      let printable : (leb 32 k && ltb (length io.tty.line) line_max) ≡ true =
        ground (arith, key.kind) in
      record {
        after = echo (k ∷ []) (with_line (io.tty.line ++ k ∷ []) io);
        continues =
            type_char-plain ∙ rw (type_plain, key.no_newline, no_eof_here, here, printable) refl;
        tty_after =
            rw h (
              echo-tty (k ∷ []) (with_line (io.tty.line ++ k ∷ []) io)
              ∙ (unfold with_line in refl));
        signals_after =
            echo-signals (k ∷ []) (with_line (io.tty.line ++ k ∷ []) io)
            ∙ (unfold with_line in refl);
      }

  key_lem : length io.tty.line < line_max → Keyed tm k io
  key_lem room = elim (Bool-cases (erases tm k)) [
    | inl h ↦ key_erases h
    | inr h ↦ key_letter h room
  ]

length-drop_last : (l : List ℕ) → length (drop_last l) ≤ length l
unfolding drop_last
length-drop_last l = omega (arith, length-take (length l - 1) l)

length-typed : (tm : Termios) (ks l : List ℕ) → length (typed tm l ks) ≤ length l + length ks
unfolding typed
length-typed tm [] l = omega arith
length-typed tm (k ∷ ks) l = elim (Bool-cases (erases tm k)) [
  | inl h ↦ rw h (omega (arith, length-typed tm ks (drop_last l), length-drop_last l))
  | inr h ↦ rw h (omega (arith, length-typed tm ks (l ++ k ∷ []), length-append l (k ∷ [])))
]

-- The loop after some keys.
record Filled (len : ℕ) (tm : Termios) (io : Io) (ks : List ℕ) (rest : List Input) : Type 0 where
  after : Io
  goes_on : fill len io (map char ks ++ rest) ≡ fill len after rest
  tty_after : after.tty ≡ record (io.tty) { line = typed tm io.tty.line ks }
  signals_after : after.signals ≡ io.signals

fill-more :
    (len k : ℕ) (io io' : Io) (inputs : List Input)
    → type_char (translate io.tty.termios k) io ≡ more io'
    → fill len io (char k ∷ inputs) ≡ fill len io' inputs
unfolding fill
fill-more len k io io' inputs e = rw (fill, e) refl

fill_keys :
    (len : ℕ) (tm : Termios) (ks : List ℕ) (rest : List Input) (io : Io)
    → io.tty.termios ≡ tm
    → All (Key tm) ks
    → length io.tty.line + length ks < line_max
    → Filled len tm io ks rest
unfolding typed
fill_keys len tm [] rest io same keys room = record {
  after = io;
  goes_on = refl;
  tty_after = refl;
  signals_after = refl;
}
fill_keys len tm (k ∷ ks) rest io same keys room =
    let one = key_lem tm io same k keys.0 (omega arith) in
    let line_after : one.after.tty.line
        ≡ (if erases tm k then drop_last io.tty.line else io.tty.line ++ k ∷ []) =
      ap (λ t. t.line) (one.tty_after) in
    let shorter : length (if erases tm k then drop_last io.tty.line else io.tty.line ++ k ∷ [])
        ≤ length io.tty.line + 1 =
      length-typed tm (k ∷ []) io.tty.line in
    let same' : one.after.tty.termios ≡ tm = ap (λ t. t.termios) (one.tty_after) ∙ same in
    let more_keys =
      fill_keys len tm ks rest (one.after) same' keys.1 (omega (arith, ap length line_after)) in
    record {
      after = more_keys.after;
      goes_on =
          fill-more len k io (one.after) (map char ks ++ rest)
            (ap (λ (t : Termios). type_char (translate t k) io) same ∙ one.continues)
          ∙ more_keys.goes_on;
      tty_after =
          more_keys.tty_after
          ∙ ap (λ (t : Tty). record t { line = typed tm t.line ks }) (one.tty_after);
      signals_after = more_keys.signals_after ∙ one.signals_after;
    }

translate-newline : (tm : Termios) → translate tm 10 ≡ 10
unfolding translate
translate-newline tm = elim (Bool-cases (has tm.iflag icrnl && 10 == 13)) [
  | inl h ↦ rw h refl
  | inr h ↦ rw h refl
]

-- The newline that ends a line.
module _ (len : ℕ) (io : Io) (rest : List Input) (no_signal : signal_of io.tty.termios 10 ≡ none)
    (room : length io.tty.line < line_max) where
  abbrev full_line : Tty
  full_line = record (io.tty) { line = io.tty.line ++ 10 ∷ []; line_pos = 0; line_ready = true }

  newline_typed :
      type_char (translate io.tty.termios 10) io
      ≡ line_done (ready (echo (10 ∷ []) (with_line (io.tty.line ++ 10 ∷ []) io)))
  unfolding type_char type_plain
  newline_typed =
      let fits : ltb (length io.tty.line) line_max ≡ true = ground arith in
      let typed_itself : type_char 10 io
          ≡ line_done (ready (echo (10 ∷ []) (with_line (io.tty.line ++ 10 ∷ []) io))) =
        rw (type_char, no_signal, fits) refl in
      ap (λ ch. type_char ch io) (translate-newline io.tty.termios) ∙ typed_itself

  newline-hands_out :
      (after : Io) × (fill len io (char 10 ∷ rest) ≡ hand_out len after rest)
      × (after.tty ≡ full_line)
      × (after.signals ≡ io.signals)
  unfolding fill ready with_line
  newline-hands_out =
      let done = ready (echo (10 ∷ []) (with_line (io.tty.line ++ 10 ∷ []) io)) in
      (
        record done { tty = record (done.tty) { line_pos = 0 } },
        rw (fill, newline_typed) refl,
        ap (λ (t : Tty). record t { line_pos = 0; line_ready = true })
            (echo-tty (10 ∷ []) (with_line (io.tty.line ++ 10 ∷ []) io)),
        echo-signals (10 ∷ []) (with_line (io.tty.line ++ 10 ∷ []) io),
      )

-- What the reader gets of a line, and what is kept for the next.
abbrev pub line_of : Termios → List ℕ → List ℕ
line_of tm ks = (survivors tm ks).1 ++ 10 ∷ []

typed-line : (tm : Termios) (ks : List ℕ) → typed tm [] ks ≡ (survivors tm ks).1
typed-line tm ks =
    typed-survivors tm ks []
    ∙ ap (λ l. l ++ (survivors tm ks).1) (drop_lasts-nil (survivors tm ks).0)

fill-line :
    (len : ℕ) (ks : List ℕ) (rest : List Input) (io : Io)
    → io.tty.line ≡ []
    → All (Key io.tty.termios) ks
    → signal_of io.tty.termios 10 ≡ none
    → length ks < line_max
    → (r : Result) × (fill len io (map char ks ++ char 10 ∷ rest) ≡ r)
      × (r.outcome ≡ returns (take len (line_of io.tty.termios ks)))
      × (pending r.io.tty ≡ drop len (line_of io.tty.termios ks))
      × (r.inputs ≡ rest)
      × (r.io.signals ≡ io.signals)
unfolding hand_out
fill-line len ks rest io empty keys no_signal room =
    let tm = io.tty.termios in
    let f = fill_keys len tm ks (char 10 ∷ rest) io refl keys (omega (arith, ap length empty)) in
    let line_after : f.after.tty.line ≡ (survivors tm ks).1 =
      ap (λ (t : Tty). t.line) (f.tty_after) ∙ ap (λ l. typed tm l ks) empty ∙ typed-line tm ks in
    let tm_after : f.after.tty.termios ≡ tm = ap (λ (t : Tty). t.termios) (f.tty_after) in
    let bound : length f.after.tty.line < line_max =
      omega (arith, ap length line_after, ap length (typed-line tm ks), length-typed tm ks []) in
    let (after, e, tty, signals) =
      newline-hands_out len (f.after) rest (ap (λ t. signal_of t 10) tm_after ∙ no_signal) bound in
    let full : pending after.tty ≡ line_of tm ks =
      ap (λ (t : Tty). pending t) tty ∙ ap (λ l. l ++ 10 ∷ []) line_after in
    let v : LineValid after.tty =
      subst (λ t. LineValid t) (sym tty)
        (record {
          position = omega arith;
          in_buffer = omega (arith, length-append f.after.tty.line (10 ∷ []));
        }) in
    let k = copy_line-Takes len after.tty v in
    (
      hand_out len after rest,
      f.goes_on ∙ e,
      ap returns (k.got ∙ ap (take len) full),
      k.left ∙ ap (drop len) full,
      refl,
      signals ∙ f.signals_after,
    )

-- In canonical mode, where nothing is pending, take a read of at least one byte by a task that may read
-- (in the foreground, no user process, or ignoring SIGTTIN). Its input is keys, fewer than 512, each of
-- them printable or one of the two erase characters and none a signal or the end of file, then a
-- newline, which is no signal either, then anything. The read uses the input up to the newline, sends no
-- signal, and returns the first bytes of the line, up to the length asked for, and the rest of the line
-- is pending: the line is the newline after the keys that are left when every erase takes the last key
-- before it that is still there, if there is one.
pub read-line :
    (can_poll : Bool) (c : Caller) (len : ℕ) (ks : List ℕ) (rest : List Input) (io : Io)
    → 0 < len
    → (not (is_fg io.tty c) && c.is_user && not c.ignores_ttin) ≡ false
    → has io.tty.termios.lflag icanon ≡ true
    → length io.tty.line ≤ io.tty.line_pos
    → All (Key io.tty.termios) ks
    → signal_of io.tty.termios 10 ≡ none
    → length ks < line_max
    → (r : Result) × (tty_read can_poll c len io (map char ks ++ char 10 ∷ rest) ≡ r)
      × (r.outcome ≡ returns (take len (line_of io.tty.termios ks)))
      × (pending r.io.tty ≡ drop len (line_of io.tty.termios ks))
      × (r.inputs ≡ rest)
      × (r.io.signals ≡ io.signals)
unfolding tty_read reset_line
read-line can_poll c len ks rest io pos may canon none_left keys no_signal room =
    let some_bytes : (len == 0) ≡ false = ground arith in
    let left : ltb io.tty.line_pos (length io.tty.line) ≡ false = ground arith in
    let f =
      fill-line len ks rest (record io { tty = reset_line io.tty }) refl keys no_signal room in
    (f.0, rw (some_bytes, may, canon, left) (f.1), f.2, f.3, f.4, f.5)

-- In canonical mode, where nothing is pending, take a read of at least one byte by a task that may read
-- (in the foreground, no user process, or ignoring SIGTTIN), whose input is fewer than 512 keys, printable or erase characters and none a signal or the end of file,
-- and then an interruption by a signal. If keys are left that no erase took, the read returns EINTR and
-- has used the input that far. The next read by the same task, of at least one byte and as many as it
-- likes, takes no input and returns the first bytes of the keys that are left, up to the length that it
-- asks for, although no newline was typed.
pub interrupted_line :
    (can_poll can_poll' : Bool) (c : Caller) (len len' rc : ℕ) (ks : List ℕ)
    (rest inputs : List Input) (io : Io)
    → 0 < len
    → 0 < len'
    → (not (is_fg io.tty c) && c.is_user && not c.ignores_ttin) ≡ false
    → has io.tty.termios.lflag icanon ≡ true
    → length io.tty.line ≤ io.tty.line_pos
    → All (Key io.tty.termios) ks
    → length ks < line_max
    → 0 < length (survivors io.tty.termios ks).1
    → (r r' : Result) × (tty_read can_poll c len io (map char ks ++ stops rc true ∷ rest) ≡ r)
      × (r.outcome ≡ errno 4)
      × (r.inputs ≡ rest)
      × (tty_read can_poll' c len' r.io inputs ≡ r')
      × (r'.outcome ≡ returns (take len' (survivors io.tty.termios ks).1))
      × (r'.inputs ≡ inputs)
unfolding tty_read reset_line hand_out fill stopped
interrupted_line can_poll can_poll' c len len' rc ks rest inputs io pos pos' may canon none_left
      keys room some_left =
    let tm = io.tty.termios in
    let some_bytes : (len == 0) ≡ false = ground arith in
    let some_bytes' : (len' == 0) ≡ false = ground arith in
    let left : ltb io.tty.line_pos (length io.tty.line) ≡ false = ground arith in
    let f =
      fill_keys len tm ks (stops rc true ∷ rest) (record io { tty = reset_line io.tty }) refl keys
        (omega arith) in
    let line_after : f.after.tty.line ≡ (survivors tm ks).1 =
      ap (λ (t : Tty). t.line) (f.tty_after) ∙ typed-line tm ks in
    let at_start : f.after.tty.line_pos ≡ 0 = ap (λ (t : Tty). t.line_pos) (f.tty_after) in
    let may' : (not (is_fg f.after.tty c) && c.is_user && not c.ignores_ttin) ≡ false =
      ap (λ (t : Tty). not (is_fg t c) && c.is_user && not c.ignores_ttin) (f.tty_after)
      ∙ (unfold is_fg in may) in
    let canon' : has f.after.tty.termios.lflag icanon ≡ true =
      ap (λ (t : Tty). has t.termios.lflag icanon) (f.tty_after) ∙ canon in
    let pending' : ltb f.after.tty.line_pos (length f.after.tty.line) ≡ true =
      ground (arith, ap length line_after) in
    let v : LineValid f.after.tty = record {
      position = omega (arith, at_start);
      in_buffer =
          omega (arith, ap length line_after, ap length (typed-line tm ks), length-typed tm ks []);
    } in
    let waiting : pending f.after.tty ≡ (survivors tm ks).1 =
      ap (λ n. drop n f.after.tty.line) at_start ∙ line_after in
    let k = copy_line-Takes len' f.after.tty v in
    (
      record { io = f.after; inputs = rest; outcome = errno 4 },
      hand_out len' (f.after) inputs,
      rw (some_bytes, may, canon, left) (f.goes_on),
      refl,
      refl,
      rw (some_bytes', may', canon', pending') refl,
      ap returns (k.got ∙ ap (take len') waiting),
      refl,
    )
