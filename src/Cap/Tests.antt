-- ===== src/Cap/Tests.antt =====
-- The theorems on capabilities at concrete tables and policy files.
use exec_aegis.Base.{
  ℕ, ◌≡◌, ◌⊎◌, ap, All, length, refl, true, false, ◌||◌, Option, none, some, List, [], ◌∷◌, ◌++◌,
  arith, replicate, u32,
}
use exec_aegis.Cap.Kind
use exec_aegis.Cap.Table.{
  Slot, cap_grant, cap_check, empty_slot, empty_table, grant_from, check_first, grants,
}
use exec_aegis.Cap.Exec.{PolicyCap, exec_caps, spawn_caps, granted, baseline, apply_mask}
use exec_aegis.Cap.Names.{streq, find_kind, cap_name_to_kind, service_word, admin_word}
use exec_aegis.Cap.Policy.{parse_policy}
use exec_aegis.Cap.Calls.{Process, sys_cap_grant_runtime}
use exec_aegis.Cap.Load.{Dirent, load, lookup}
use exec_aegis.Cap.Line.{valid_entry}
use exec_aegis.Cap.Parse.{parse_policy-valid}
use exec_aegis.Cap.Authority.{permitted, permitted_to_all}
use exec_aegis.Cap.Spawn.{spawn_caps-contained}
use exec_aegis.Cap.Runtime.{Outcome, sys_cap_grant_runtime-Outcome}
use exec_aegis.Cap.Image.{no_slash}
use exec_aegis.Cap.Found.{IsName, Other, no_nul}
use exec_aegis.Cap.Text.{Line, Known, IsKnown, text, text_caps, line_caps, names_text, tier_word}
use exec_aegis.Cap.Lines.{parse_policy-text}
use exec_aegis.Cap.Executed.{image-policy, image-no_policy}

abbrev slot : ℕ → ℕ → Slot
slot kind rights = record { kind = kind; rights = rights }

-- A table with two capabilities, the one to delegate among them.
abbrev parent : List Slot
parent = slot Kind.cap_delegate 1 ∷ slot Kind.vfs_read 1 ∷ replicate 62 empty_slot

-- A mask that asks for VFS_READ.
abbrev mask : List Slot
mask = slot Kind.vfs_read 1 ∷ replicate 63 empty_slot

-- "service NET_SOCKET", a newline, "admin AUTH".
abbrev policy_file : List ℕ
policy_file =
    service_word
    ++ 32 ∷ 78 ∷ 69 ∷ 84 ∷ 95 ∷ 83 ∷ 79 ∷ 67 ∷ 75 ∷ 69 ∷ 84 ∷ 10 ∷ []
    ++ admin_word
    ++ 32 ∷ 65 ∷ 85 ∷ 84 ∷ 72 ∷ []

parse_policy-valid_example :
    (caps : List PolicyCap) × (parse_policy policy_file ≡ some caps) × (valid_entry caps ≡ true)
parse_policy-valid_example = parse_policy-valid policy_file

-- A file system in which every file is that policy.
abbrev every_file : List ℕ → Option (List ℕ)
every_file path = some policy_file

abbrev login : List ℕ
login = 108 ∷ 111 ∷ 103 ∷ 105 ∷ 110 ∷ []

-- "/bin"
abbrev bin : List ℕ
bin = 47 ∷ 98 ∷ 105 ∷ 110 ∷ []

-- The entry for the directory itself, then the file.
abbrev here : List Dirent
here = record { name = 46 ∷ []; dtype = 4 } ∷ []

dot-Other : Other login (record { name = 46 ∷ []; dtype = 4 })
unfolding no_nul
dot-Other = (
  record { plain = refl; short = omega arith },
  λ e. absurd (let n : 1 ≡ 5 = ap length e in omega arith),
)

login-IsName : IsName login
unfolding no_nul
login-IsName = record { plain = refl; short = omega arith }

-- "service NET_SOCKET" and "admin AUTH"
abbrev lines : List Line
lines =
    record {
      admin = false;
      names =
          record {
            word = 78 ∷ 69 ∷ 84 ∷ 95 ∷ 83 ∷ 79 ∷ 67 ∷ 75 ∷ 69 ∷ 84 ∷ [];
            kind = Kind.net_socket;
          }
          ∷ [];
    }
    ∷ record {
      admin = true;
      names = record { word = 65 ∷ 85 ∷ 84 ∷ 72 ∷ []; kind = Kind.auth } ∷ [];
    }
    ∷ []

net_socket-IsKnown :
    IsKnown (record {
      word = 78 ∷ 69 ∷ 84 ∷ 95 ∷ 83 ∷ 79 ∷ 67 ∷ 75 ∷ 69 ∷ 84 ∷ [];
      kind = Kind.net_socket;
    })
unfolding cap_name_to_kind find_kind streq
net_socket-IsKnown = record {
  known = refl;
  real = λ e. absurd (omega arith);
  letters = (refl, (refl, (refl, (refl, (refl, (refl, (refl, (refl, (refl, (refl, tt))))))))));
  some_letters = omega arith;
  short = omega arith;
}

auth-IsKnown : IsKnown (record { word = 65 ∷ 85 ∷ 84 ∷ 72 ∷ []; kind = Kind.auth })
unfolding cap_name_to_kind find_kind streq
auth-IsKnown = record {
  known = refl;
  real = λ e. absurd (omega arith);
  letters = (refl, (refl, (refl, (refl, tt))));
  some_letters = omega arith;
  short = omega arith;
}

lines-Known : All Known lines
lines-Known = ((net_socket-IsKnown, tt), ((auth-IsKnown, tt), tt))

parse_policy-text_example : parse_policy (text lines) ≡ some (text_caps lines)
unfolding text_caps line_caps
parse_policy-text_example = parse_policy-text lines lines-Known (omega arith)

-- Every file holds these lines.
abbrev written : List ℕ → Option (List ℕ)
written path = some (text lines)

image-policy_example :
    cap_check
      (exec_caps true (
        lookup
          (load written (some (here ++ record { name = login; dtype = 8 } ∷ [])))
          (bin ++ 47 ∷ login)))
      64
      4
      1
    ≡ (permitted_to_all 4 1 || permitted true (text_caps lines) 4 1)
unfolding no_slash text text_caps line_caps names_text tier_word
image-policy_example =
    image-policy written here [] lines bin 108 (111 ∷ 103 ∷ 105 ∷ 110 ∷ []) true 4 1 login-IsName
      refl (dot-Other, tt) (omega arith) refl lines-Known (omega arith) (omega arith) (omega arith)
      (omega arith)

image-no_policy_example :
    cap_check (exec_caps true (lookup (load every_file (some here)) (bin ++ 47 ∷ login))) 64 4 1
    ≡ permitted_to_all 4 1
unfolding no_slash
image-no_policy_example =
    image-no_policy every_file here bin 108 (111 ∷ 103 ∷ 105 ∷ 110 ∷ []) true 4 1 login-IsName refl
      (dot-Other, tt) (omega arith)

abbrev child : List Slot
child = slot Kind.vfs_read 1 ∷ replicate 63 empty_slot

spawn_caps-contained_example :
    (cap_check parent 64 13 1 ≡ true)
    × ((cap_check child 64 3 1 ≡ false)
        ⊎ ((cap_check parent 64 3 1 ≡ true) × (cap_check (exec_caps false none) 64 3 1 ≡ true)))
unfolding spawn_caps exec_caps apply_mask granted baseline cap_grant grant_from cap_check
    check_first grants
spawn_caps-contained_example =
    spawn_caps-contained (λ p. true) (λ p. mask) parent false none 4096 child 3 1 (omega arith) refl
      (omega arith)

abbrev process : ℕ → List Slot → Process
process pid ss = record { pid = pid; is_user = true; caps = ss; authenticated = false }

sys_cap_grant_runtime-Outcome_example :
    Outcome
      (process 1 parent)
      (process 1 parent ∷ process 2 empty_table ∷ [])
      (u32 3)
      (u32 1)
      (u32 2)
      (sys_cap_grant_runtime (process 1 parent) (process 2 empty_table ∷ []) 2 3 1)
sys_cap_grant_runtime-Outcome_example =
    sys_cap_grant_runtime-Outcome (process 1 parent) (process 2 empty_table ∷ []) 2 3 1
