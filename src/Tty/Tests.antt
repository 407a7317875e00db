-- ===== src/Tty/Tests.antt =====
-- A terminal with the defaults of `tty_init_defaults`, and a task in the foreground.
use exec_aegis.Base.{
  ℕ, ◌≡◌, refl, true, false, List, [], ◌∷◌, ◌++◌, map, length, take, drop, min, arith, All,
}
use exec_aegis.Tty.{Tty, Caller, Io, init_defaults, is_fg, has, signal_of, default_cc, translate}
use exec_aegis.Tty.Read.{char, stops, returns, errno, Result, tty_read, tty_write}
use exec_aegis.Tty.Line.{Key, survivors, line_of, read-line, interrupted_line, keep}
use exec_aegis.Tty.Pending.{pending, LineValid, read-pending}
use exec_aegis.Tty.Output.{Written, crlf, write-crlf}
use exec_aegis.Tty.Bounds.{tty_read-LineValid}

abbrev caller : Caller
caller = record { is_user = true; pgid = 7; ignores_ttin = false }

abbrev start : Io
start = record { tty = init_defaults; out = []; signals = [] }

-- An erase with nothing to erase, "ab", an erase, "c"
abbrev keys : List ℕ
keys = 127 ∷ 97 ∷ 98 ∷ 8 ∷ 99 ∷ []

keys-Key : All (Key init_defaults.termios) keys
unfolding init_defaults signal_of has translate default_cc
keys-Key = (
  record { no_signal = refl; untranslated = refl; no_newline = refl; no_eof = refl; kind = refl },
  (
    record { no_signal = refl; untranslated = refl; no_newline = refl; no_eof = refl; kind = refl },
    (
      record {
        no_signal = refl;
        untranslated = refl;
        no_newline = refl;
        no_eof = refl;
        kind = refl;
      },
      (
        record {
          no_signal = refl;
          untranslated = refl;
          no_newline = refl;
          no_eof = refl;
          kind = refl;
        },
        (
          record {
            no_signal = refl;
            untranslated = refl;
            no_newline = refl;
            no_eof = refl;
            kind = refl;
          },
          tt,
        ),
      ),
    ),
  ),
)

read-line_example :
    (r : Result) × (tty_read true caller 2 start (map char keys ++ char 10 ∷ []) ≡ r)
    × (r.outcome ≡ returns (take 2 (line_of init_defaults.termios keys)))
    × (pending r.io.tty ≡ drop 2 (line_of init_defaults.termios keys))
    × (r.inputs ≡ [])
    × (r.io.signals ≡ [])
unfolding init_defaults is_fg has signal_of default_cc
read-line_example =
    read-line true caller 2 keys [] start (omega arith) refl refl (omega arith) keys-Key refl
      (omega arith)

interrupted_line_example :
    (r r' : Result) × (tty_read true caller 2 start (map char keys ++ stops 0 true ∷ []) ≡ r)
    × (r.outcome ≡ errno 4)
    × (r.inputs ≡ [])
    × (tty_read false caller 9 r.io [] ≡ r')
    × (r'.outcome ≡ returns (take 9 (survivors init_defaults.termios keys).1))
    × (r'.inputs ≡ [])
unfolding init_defaults survivors is_fg has default_cc keep
interrupted_line_example =
    interrupted_line true false caller 2 9 0 keys [] [] start (omega arith) (omega arith) refl refl
      (omega arith) keys-Key (omega arith) (omega arith)

-- Three bytes of a line are left.
abbrev half_read : Io
half_read = record start {
  tty = record init_defaults { line = 97 ∷ 98 ∷ 99 ∷ 10 ∷ []; line_pos = 1; line_ready = true };
}

read-pending_example :
    (bytes : List ℕ) × (t : Tty) × (tty_read true caller 2 half_read []
      ≡ record { io = record half_read { tty = t }; inputs = []; outcome = returns bytes })
    × (length bytes ≡ min 2 3)
    × (bytes ++ pending t ≡ 98 ∷ 99 ∷ 10 ∷ [])
unfolding init_defaults is_fg has
read-pending_example =
    read-pending true caller 2 half_read []
      (record { position = omega arith; in_buffer = omega arith }) (omega arith) refl refl
      (omega arith)

write-crlf_example :
    (io' : Io) × (tty_write length caller (97 ∷ 10 ∷ 98 ∷ []) start
      ≡ (io', returns (97 ∷ 10 ∷ 98 ∷ [])))
    × Written start io' (crlf (97 ∷ 10 ∷ 98 ∷ []))
unfolding init_defaults has
write-crlf_example = write-crlf length caller (97 ∷ 10 ∷ 98 ∷ []) start refl refl refl

tty_read-LineValid_example : LineValid (tty_read true caller 2 half_read (map char keys)).io.tty
unfolding init_defaults
tty_read-LineValid_example =
    tty_read-LineValid true caller 2 half_read (map char keys)
      (record { position = omega arith; in_buffer = omega arith })
