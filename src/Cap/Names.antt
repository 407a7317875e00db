-- ===== src/Cap/Names.antt =====
-- The names of policy files (kernel/cap/cap_policy.c), as lists of bytes. A C string is a list that its
-- end or a NUL ends.
use exec_aegis.Base.{ℕ, Bool, true, ◌&&◌, not, List, [], ◌∷◌, ◌==◌, if◌then◌else◌}
use exec_aegis.Cap.Kind

-- The loop compares while both bytes are equal and neither is NUL.
unfoldable pub streq : List ℕ → List ℕ → Bool
streq [] [] = true
streq [] (b ∷ bs) = b == 0
streq (a ∷ as') [] = a == 0
streq (a ∷ as') (b ∷ bs) =
    let rest = streq as' bs in
    if not (a == 0) && not (b == 0) && a == b then rest else a == 0 && b == 0

-- "service"
abbrev pub service_word : List ℕ
service_word = 115 ∷ 101 ∷ 114 ∷ 118 ∷ 105 ∷ 99 ∷ 101 ∷ []

-- "admin"
abbrev pub admin_word : List ℕ
admin_word = 97 ∷ 100 ∷ 109 ∷ 105 ∷ 110 ∷ []

-- One row of the table of `cap_name_to_kind`.
pub record NameOf : Type 0 where
  pub str : List ℕ
  pub kind : ℕ

abbrev row : List ℕ → ℕ → NameOf
row str kind = record { str = str; kind = kind }

-- The rows for VFS_OPEN, VFS_WRITE, VFS_READ, AUTH, CAP_GRANT, SETUID, NET_SOCKET, NET_ADMIN,
-- THREAD_CREATE, PROC_READ, DISK_ADMIN, FB, CAP_DELEGATE, CAP_QUERY, IPC, POWER.
abbrev pub kind_names : List NameOf
kind_names =
    row (86 ∷ 70 ∷ 83 ∷ 95 ∷ 79 ∷ 80 ∷ 69 ∷ 78 ∷ []) Kind.vfs_open
    ∷ row (86 ∷ 70 ∷ 83 ∷ 95 ∷ 87 ∷ 82 ∷ 73 ∷ 84 ∷ 69 ∷ []) Kind.vfs_write
    ∷ row (86 ∷ 70 ∷ 83 ∷ 95 ∷ 82 ∷ 69 ∷ 65 ∷ 68 ∷ []) Kind.vfs_read
    ∷ row (65 ∷ 85 ∷ 84 ∷ 72 ∷ []) Kind.auth
    ∷ row (67 ∷ 65 ∷ 80 ∷ 95 ∷ 71 ∷ 82 ∷ 65 ∷ 78 ∷ 84 ∷ []) Kind.cap_grant
    ∷ row (83 ∷ 69 ∷ 84 ∷ 85 ∷ 73 ∷ 68 ∷ []) Kind.setuid
    ∷ row (78 ∷ 69 ∷ 84 ∷ 95 ∷ 83 ∷ 79 ∷ 67 ∷ 75 ∷ 69 ∷ 84 ∷ []) Kind.net_socket
    ∷ row (78 ∷ 69 ∷ 84 ∷ 95 ∷ 65 ∷ 68 ∷ 77 ∷ 73 ∷ 78 ∷ []) Kind.net_admin
    ∷ row (84 ∷ 72 ∷ 82 ∷ 69 ∷ 65 ∷ 68 ∷ 95 ∷ 67 ∷ 82 ∷ 69 ∷ 65 ∷ 84 ∷ 69 ∷ []) Kind.thread_create
    ∷ row (80 ∷ 82 ∷ 79 ∷ 67 ∷ 95 ∷ 82 ∷ 69 ∷ 65 ∷ 68 ∷ []) Kind.proc_read
    ∷ row (68 ∷ 73 ∷ 83 ∷ 75 ∷ 95 ∷ 65 ∷ 68 ∷ 77 ∷ 73 ∷ 78 ∷ []) Kind.disk_admin
    ∷ row (70 ∷ 66 ∷ []) Kind.fb
    ∷ row (67 ∷ 65 ∷ 80 ∷ 95 ∷ 68 ∷ 69 ∷ 76 ∷ 69 ∷ 71 ∷ 65 ∷ 84 ∷ 69 ∷ []) Kind.cap_delegate
    ∷ row (67 ∷ 65 ∷ 80 ∷ 95 ∷ 81 ∷ 85 ∷ 69 ∷ 82 ∷ 89 ∷ []) Kind.cap_query
    ∷ row (73 ∷ 80 ∷ 67 ∷ []) Kind.ipc
    ∷ row (80 ∷ 79 ∷ 87 ∷ 69 ∷ 82 ∷ []) Kind.power
    ∷ []

unfoldable pub find_kind : List NameOf → List ℕ → ℕ
find_kind [] name = Kind.null
find_kind (r ∷ rs) name = if streq r.str name then r.kind else find_kind rs name

unfoldable pub cap_name_to_kind : List ℕ → ℕ
cap_name_to_kind name = find_kind kind_names name
