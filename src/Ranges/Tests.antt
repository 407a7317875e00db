-- ===== src/Ranges/Tests.antt =====
-- A search in a list of three ranges, of pages.
use exec_aegis.Base.{List, [], ◌∷◌, arith}
use exec_aegis.Ranges.{Range, alloc}
use exec_aegis.Ranges.Alloc.{Ranges, Answer, alloc_lem}

abbrev three : List Range
three =
    record { base = 65536; size = 8 }
    ∷ record { base = 131072; size = 3 }
    ∷ record { base = 262144; size = 4 }
    ∷ []

three-Ranges : Ranges 4096 three
three-Ranges = (
  record { not_null = omega arith; below_top = omega arith },
  (
    record { not_null = omega arith; below_top = omega arith },
    (record { not_null = omega arith; below_top = omega arith }, tt),
  ),
)

alloc_lem_example : Answer 4096 2 three (alloc 4096 2 three)
alloc_lem_example = alloc_lem 4096 2 three (omega arith) three-Ranges
