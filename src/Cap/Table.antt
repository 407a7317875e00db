-- ===== src/Cap/Table.antt =====
-- The capability table: `cap_grant` and `cap_check` of kernel/cap/src/lib.rs, the constants of
-- kernel/cap/cap.h. A table is a list of slots.
use Prim.Native.Nat.{bit_and}
use exec_aegis.Base.{
  ℕ, zero, suc, ◌+◌, Bool, false, ◌&&◌, ◌||◌, Option, none, some, List, [], ◌∷◌, min, ◌==◌,
  if◌then◌else◌, replicate,
}

-- `cap_slot_t`; kind 0 is an empty slot.
pub record Slot : Type 0 where
  pub kind : ℕ
  pub rights : ℕ

abbrev pub table_size : ℕ
table_size = 64

abbrev pub rights_read : ℕ
rights_read = 1

abbrev pub rights_write : ℕ
rights_write = 2

abbrev pub rights_exec : ℕ
rights_exec = 4

-- `slot.kind == kind && (slot.rights & rights) == rights`
unfoldable pub grants : Slot → ℕ → ℕ → Bool
grants s kind rights = s.kind == kind && bit_and s.rights rights == rights

-- The first empty one of the first `n` slots, counted from `i`, is written; `none` is -ENOCAP.
unfoldable pub grant_from : ℕ → ℕ → List Slot → ℕ → ℕ → Option (ℕ × List Slot)
grant_from zero i ss kind rights = none
grant_from (suc n) i [] kind rights = none
grant_from (suc n) i (s ∷ ss) kind rights =
    let later = grant_from n (i + 1) ss kind rights in
    if s.kind == 0
    then some (i, record { kind = kind; rights = rights } ∷ ss)
    else elim later [ none ↦ none | some (j, ss') ↦ some (j, s ∷ ss') ]

-- `n` is cut to the size of the table; the test for `n == 0` and for a null table is the same result.
unfoldable pub cap_grant : List Slot → ℕ → ℕ → ℕ → Option (ℕ × List Slot)
cap_grant ss n kind rights = grant_from (min n table_size) 0 ss kind rights

unfoldable pub check_first : ℕ → List Slot → ℕ → ℕ → Bool
check_first zero ss kind rights = false
check_first (suc n) [] kind rights = false
check_first (suc n) (s ∷ ss) kind rights = grants s kind rights || check_first n ss kind rights

-- True is the result 0, false is -ENOCAP.
unfoldable pub cap_check : List Slot → ℕ → ℕ → ℕ → Bool
cap_check ss n kind rights = check_first (min n table_size) ss kind rights

abbrev pub empty_slot : Slot
empty_slot = record { kind = 0; rights = 0 }

-- The table with every slot emptied.
abbrev pub empty_table : List Slot
empty_table = replicate table_size empty_slot
