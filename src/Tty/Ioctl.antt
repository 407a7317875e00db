-- ===== src/Tty/Ioctl.antt =====
-- tty_ioctl of kernel/tty/tty.c. `ok` is what `user_ptr_valid` says of the pointer for the size that the
-- command copies; the caller's memory is what is at it, and what the call writes there.
use exec_aegis.Base.{ℕ, Bool, ◌==◌, if◌then◌else◌}
use exec_aegis.Tty.{Termios, Io, send_fg}

-- What the pointer points to, read as the command reads it.
pub record User : Type 0 where
  pub termios : Termios
  pub word : ℕ
  pub rows : ℕ
  pub cols : ℕ

-- What is written to the caller's memory.
pub data Copied : Type 0 where
  nothing : Copied
  settings : Termios → Copied
  group : ℕ → Copied
  size : ℕ → ℕ → Copied

-- The state, the errno or 0, and what was written.
pub record Done : Type 0 where
  pub io : Io
  pub errno : ℕ
  pub copied : Copied

unfoldable pub set_size : ℕ → ℕ → Io → Io
set_size rows cols io = record io { tty = record (io.tty) { rows = rows; cols = cols } }

-- TCGETS 0x5401, TCSETS, TCSETSW and TCSETSF 0x5402 to 0x5404, TIOCGPGRP 0x540F, TIOCSPGRP 0x5410,
-- TIOCGWINSZ 0x5413, TIOCSWINSZ 0x5414; EFAULT 14, ENOTTY 25, SIGWINCH 28.
unfoldable pub tty_ioctl : ℕ → Bool → User → Io → Done
tty_ioctl cmd ok u io =
    let fault : Done = record { io = io; errno = 14; copied = nothing } in
    if cmd == 21505
    then (if ok then record { io = io; errno = 0; copied = settings io.tty.termios } else fault)
    else if cmd == 21506
    then (if ok
        then record {
          io = record io { tty = record (io.tty) { termios = u.termios } };
          errno = 0;
          copied = nothing;
        }
        else fault)
    else if cmd == 21507
    then (if ok
        then record {
          io = record io { tty = record (io.tty) { termios = u.termios } };
          errno = 0;
          copied = nothing;
        }
        else fault)
    else if cmd == 21508
    then (if ok
        then record {
          io = record io { tty = record (io.tty) { termios = u.termios } };
          errno = 0;
          copied = nothing;
        }
        else fault)
    else if cmd == 21519
    then (if ok then record { io = io; errno = 0; copied = group io.tty.fg_pgrp } else fault)
    else if cmd == 21520
    then (if ok
        then record {
          io = record io { tty = record (io.tty) { fg_pgrp = u.word } };
          errno = 0;
          copied = nothing;
        }
        else fault)
    else if cmd == 21523
    then (if ok
        then record { io = io; errno = 0; copied = size io.tty.rows io.tty.cols }
        else fault)
    else if cmd == 21524
    then (if ok
        then record { io = send_fg 28 (set_size u.rows u.cols io); errno = 0; copied = nothing }
        else fault)
    else record { io = io; errno = 25; copied = nothing }
