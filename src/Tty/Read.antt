-- ===== src/Tty/Read.antt =====
-- tty_read and tty_write of kernel/tty/tty.c.
use exec_aegis.Base.{
  ℕ, ◌+◌, ◌-◌, Bool, true, false, not, ◌&&◌, ◌||◌, none, some, List, [], ◌∷◌, ◌++◌, length, take,
  drop, ltb, leb, ◌==◌, if◌then◌else◌,
}
use exec_aegis.Tty.{
  Tty, Caller, Io, has, icanon, opost, onlcr, vmin, verase, veof, tostop, line_max, is_fg,
  write_out, echo, send, send_fg, translate, signal_of,
}

-- What `read_raw` returns: a character, or nothing, with minus its result and whether it was interrupted.
pub data Input : Type 0 where
  char : ℕ → Input
  stops : ℕ → Bool → Input

-- What a call comes to: bytes, a negative errno, what the driver returned (without its sign), or sleep.
pub data Outcome : Type 0 where
  returns : List ℕ → Outcome
  errno : ℕ → Outcome
  driver_result : ℕ → Outcome
  sleeps : Outcome

pub record Result : Type 0 where
  pub io : Io
  pub inputs : List Input
  pub outcome : Outcome

-- `if (rc <= 0) return interrupted ? -4 : rc;`
unfoldable pub stopped : ℕ → Bool → Outcome
stopped rc interrupted = if interrupted then errno 4 else driver_result rc

-- One character at a time; `polls` is `vmin == 0 && tty->poll_raw`.
unfoldable pub read_char : Bool → Io → List Input → Result
read_char polls io [] = record {
  io = io;
  inputs = [];
  outcome = if polls then returns [] else sleeps;
}
read_char polls io (stops rc interrupted ∷ rest) =
    if polls
    then record { io = io; inputs = stops rc interrupted ∷ rest; outcome = returns [] }
    else record { io = io; inputs = rest; outcome = stopped rc interrupted }
read_char polls io (char c ∷ rest) =
    let ch = translate io.tty.termios c in
    elim (signal_of io.tty.termios ch) [
      | some s ↦ read_char polls (send_fg s.0 io) rest
      | none ↦ record { io = io; inputs = rest; outcome = returns (ch ∷ []) }
    ]

unfoldable pub with_line : List ℕ → Io → Io
with_line l io = record io { tty = record (io.tty) { line = l } }

unfoldable pub ready : Io → Io
ready io = record io { tty = record (io.tty) { line_ready = true } }

unfoldable pub drop_last : List ℕ → List ℕ
drop_last l = take (length l - 1) l

-- What a character does to the line that is being typed.
pub data Typed : Type 0 where
  more : Io → Typed
  line_done : Io → Typed
  end_of_file : Io → Typed
  interrupts : Io → Typed

-- A signal's character: `^C` is echoed, the line is dropped.
unfoldable pub type_signal : ℕ → ℕ → Io → Typed
type_signal sig letter io =
    interrupts (send_fg sig (with_line [] (write_out (10 ∷ []) (echo (94 ∷ letter ∷ []) io))))

unfoldable pub type_plain : ℕ → Io → Typed
unfolding drop_last
type_plain ch io =
    let l = io.tty.line in
    if ch == 10
    then line_done (
        ready
          (echo (10 ∷ []) (if ltb (length l) line_max then with_line (l ++ 10 ∷ []) io else io)))
    else if ch == io.tty.termios.cc veof
    then (if length l == 0 then end_of_file io else line_done (ready io))
    else if ch == io.tty.termios.cc verase || ch == 8
    then (if ltb 0 (length l)
        then more (echo (8 ∷ 32 ∷ 8 ∷ []) (with_line (drop_last l) io))
        else more io)
    else if leb 32 ch && ltb (length l) line_max
    then more (echo (ch ∷ []) (with_line (l ++ ch ∷ []) io))
    else more io

unfoldable pub type_char : ℕ → Io → Typed
type_char ch io = elim (signal_of io.tty.termios ch) [
  | some s ↦ type_signal s.0 s.1 io
  | none ↦ type_plain ch io
]

-- `tty->line_len = tty->line_pos = tty->line_ready = 0`
unfoldable pub reset_line : Tty → Tty
reset_line t = record t { line = []; line_pos = 0; line_ready = false }

-- The loop that copies from the line to the caller, and the reset of a line that is used up.
unfoldable pub copy_line : ℕ → Tty → Tty × List ℕ
copy_line len t =
    let got = take len (drop t.line_pos t.line) in
    let t' = record t { line_pos = t.line_pos + length got } in
    (if leb (length t.line) t'.line_pos then reset_line t' else t', got)

unfoldable pub hand_out : ℕ → Io → List Input → Result
hand_out len io inputs =
    let r = copy_line len io.tty in
    record { io = record io { tty = r.0 }; inputs = inputs; outcome = returns (r.1) }

-- The loop that fills the line, character by character, and what follows it.
unfoldable pub fill : ℕ → Io → List Input → Result
unfolding copy_line
fill len io [] = record { io = io; inputs = []; outcome = sleeps }
fill len io (stops rc interrupted ∷ rest) = record {
  io = io;
  inputs = rest;
  outcome = stopped rc interrupted;
}
fill len io (char c ∷ rest) = elim (type_char (translate io.tty.termios c) io) [
  | more io' ↦ fill len io' rest
  | line_done io' ↦ hand_out len (record io' { tty = record (io'.tty) { line_pos = 0 } }) rest
  | end_of_file io' ↦ record { io = io'; inputs = rest; outcome = returns [] }
  | interrupts io' ↦ record { io = io'; inputs = rest; outcome = errno 4 }
]

-- `can_poll` is `tty->poll_raw != NULL`.
unfoldable pub tty_read : Bool → Caller → ℕ → Io → List Input → Result
tty_read can_poll c len io inputs =
    let t = io.tty in
    if len == 0
    then record { io = io; inputs = inputs; outcome = returns [] }
    else if not (is_fg t c) && c.is_user && not c.ignores_ttin
    then record { io = send c.pgid 21 io; inputs = inputs; outcome = errno 4 }
    else if not (has t.termios.lflag icanon)
    then read_char (t.termios.cc vmin == 0 && can_poll) io inputs
    else if ltb t.line_pos (length t.line)
    then hand_out len io inputs
    else fill len (record io { tty = reset_line t }) inputs

-- The loop of tty_write: `chunk` is what was not written yet.
unfoldable pub write_lines : List ℕ → List ℕ → Io → Io
write_lines chunk [] io = if ltb 0 (length chunk) then write_out chunk io else io
write_lines chunk (b ∷ bs) io =
    let flushed = if ltb 0 (length chunk) then write_out chunk io else io in
    if b == 10
    then write_lines [] bs (write_out (13 ∷ 10 ∷ []) flushed)
    else write_lines (chunk ++ b ∷ []) bs io

-- The bytes taken, or the error; without output processing the driver says how many it took.
unfoldable pub tty_write : (List ℕ → ℕ) → Caller → List ℕ → Io → Io × Outcome
unfolding write_lines
tty_write taken c bytes io =
    let t = io.tty in
    if has t.termios.lflag tostop && not (is_fg t c)
    then (if c.is_user then send c.pgid 22 io else io, errno 4)
    else if has t.termios.oflag opost && has t.termios.oflag onlcr
    then (write_lines [] bytes io, returns bytes)
    else (write_out bytes io, driver_result (taken bytes))
