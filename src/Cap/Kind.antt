-- ===== src/Cap/Kind.antt =====
-- The kinds of capability of kernel/cap/cap.h.
use exec_aegis.Base.{ℕ}

-- An empty slot.
abbrev pub null : ℕ
null = 0

abbrev pub vfs_open : ℕ
vfs_open = 1

abbrev pub vfs_write : ℕ
vfs_write = 2

abbrev pub vfs_read : ℕ
vfs_read = 3

abbrev pub auth : ℕ
auth = 4

abbrev pub cap_grant : ℕ
cap_grant = 5

abbrev pub setuid : ℕ
setuid = 6

abbrev pub net_socket : ℕ
net_socket = 7

abbrev pub net_admin : ℕ
net_admin = 8

abbrev pub thread_create : ℕ
thread_create = 9

abbrev pub proc_read : ℕ
proc_read = 10

abbrev pub disk_admin : ℕ
disk_admin = 11

abbrev pub fb : ℕ
fb = 12

abbrev pub cap_delegate : ℕ
cap_delegate = 13

abbrev pub cap_query : ℕ
cap_query = 14

abbrev pub ipc : ℕ
ipc = 15

abbrev pub power : ℕ
power = 16
