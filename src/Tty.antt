-- ===== src/Tty.antt =====
-- kernel/tty/tty.c and tty.h: the line discipline of a terminal. The first `line_len` bytes of `linebuf`
-- are a list. What the driver's `read_raw` and `poll_raw` return is a list of inputs; an empty list is a
-- reader that sleeps. What is written through `write_out`, a call at a time, and the signals sent are
-- kept in the order they happen. Between two inputs no other task changes the terminal.
pub mod Read
pub mod Ioctl
pub mod Line
pub mod Pending
pub mod Output
pub mod Bounds
mod Tests
use Prim.Native.Nat.{bit_and}
use exec_aegis.Base.{
  ℕ, zero, suc, ◌+◌, ◌-◌, ◌<◌, Bool, true, false, not, ◌&&◌, ◌||◌, Option, none, some, List, [],
  ◌∷◌, ◌++◌, length, ltb, leb, ◌==◌, if◌then◌else◌,
}

-- `k_termios_t`: the flags and `c_cc`.
pub record Termios : Type 0 where
  pub iflag : ℕ
  pub oflag : ℕ
  pub lflag : ℕ
  pub cc : ℕ → ℕ

pub record Tty : Type 0 where
  pub termios : Termios
  pub fg_pgrp : ℕ
  pub session_id : ℕ
  pub rows : ℕ
  pub cols : ℕ
  pub line : List ℕ
  pub line_pos : ℕ
  pub line_ready : Bool

-- `flags & bit`, as a test
unfoldable pub has : ℕ → ℕ → Bool
has flags bit = ltb 0 (bit_and flags bit)

-- K_ICRNL, K_OPOST, K_ONLCR, K_ISIG, K_ICANON, K_ECHO, K_TOSTOP
abbrev pub icrnl : ℕ
icrnl = 256

abbrev pub opost : ℕ
opost = 1

abbrev pub onlcr : ℕ
onlcr = 4

abbrev pub isig : ℕ
isig = 1

abbrev pub icanon : ℕ
icanon = 2

abbrev pub echo_flag : ℕ
echo_flag = 8

abbrev pub tostop : ℕ
tostop = 256

-- The indices of `c_cc` that are used.
abbrev pub vintr : ℕ
vintr = 0

abbrev pub vquit : ℕ
vquit = 1

abbrev pub verase : ℕ
verase = 2

abbrev pub veof : ℕ
veof = 4

abbrev pub vmin : ℕ
vmin = 6

abbrev pub vsusp : ℕ
vsusp = 10

-- `sizeof(tty->linebuf)`
abbrev pub line_max : ℕ
line_max = 512

-- The control characters that `tty_init_defaults` sets.
unfoldable pub default_cc : ℕ → ℕ
default_cc i =
    if i == vintr
    then 3
    else if i == vquit
    then 28
    else if i == verase
    then 127
    else if i == veof
    then 4
    else if i == vsusp
    then 26
    else if i == vmin
    then 1
    else 0

unfoldable pub init_defaults : Tty
init_defaults = record {
  termios = record {
    iflag = icrnl;
    oflag = opost + onlcr;
    lflag = icanon + echo_flag + isig;
    cc = default_cc;
  };
  fg_pgrp = 0;
  session_id = 0;
  rows = 25;
  cols = 80;
  line = [];
  line_pos = 0;
  line_ready = false;
}

-- The current task: is it a user process, its group, and whether it ignores SIGTTIN.
pub record Caller : Type 0 where
  pub is_user : Bool
  pub pgid : ℕ
  pub ignores_ttin : Bool

unfoldable pub is_fg : Tty → Caller → Bool
is_fg t c = if t.fg_pgrp == 0 then true else if not c.is_user then true else c.pgid == t.fg_pgrp

-- The console if it has the session, else the pseudo-terminal that `pty_find_by_session` finds.
unfoldable pub find_controlling : Option Tty → (ℕ → Option Tty) → ℕ → Option Tty
find_controlling none ptys session = ptys session
find_controlling (some t) ptys session = if t.session_id == session then some t else ptys session

-- The terminal with what was written and which signals were sent, to a group each, so far.
pub record Io : Type 0 where
  pub tty : Tty
  pub out : List (List ℕ)
  pub signals : List (ℕ × ℕ)

unfoldable pub write_out : List ℕ → Io → Io
write_out s io = record io { out = io.out ++ s ∷ [] }

unfoldable pub echo : List ℕ → Io → Io
echo s io = if has io.tty.termios.lflag echo_flag then write_out s io else io

unfoldable pub send : ℕ → ℕ → Io → Io
send pgrp sig io = record io { signals = io.signals ++ (pgrp, sig) ∷ [] }

-- To the foreground group, if there is one.
unfoldable pub send_fg : ℕ → Io → Io
send_fg sig io = if ltb 0 io.tty.fg_pgrp then send io.tty.fg_pgrp sig io else io

-- `if ((iflag & K_ICRNL) && ch == '\r') ch = '\n'`
unfoldable pub translate : Termios → ℕ → ℕ
translate tm ch = if has tm.iflag icrnl && ch == 13 then 10 else ch

-- The signal and the letter after `^` that a character stands for, in the order of the code.
unfoldable pub signal_of : Termios → ℕ → Option (ℕ × ℕ)
signal_of tm ch =
    if not (has tm.lflag isig)
    then none
    else if ch == tm.cc vintr
    then some (2, 67)
    else if ch == tm.cc vsusp
    then some (20, 90)
    else if ch == tm.cc vquit
    then some (3, 92)
    else none
