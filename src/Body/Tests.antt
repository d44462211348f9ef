-- ===== src/Body/Tests.antt =====
-- The theorems at a function with one parameter and two runs of locals.
use wirm.Base.{ℕ, ◌≡◌, refl, some, List, [], ◌∷◌, ◌++◌, arith, get_elem?}
use wirm.Body.{DataType, i32, i64, locals_as_vec, add_local}
use wirm.Body.Laws.{IsCounted, add_local-get_elem?}

abbrev runs : List (ℕ × DataType)
runs = (2, i32) ∷ (1, i64) ∷ []

runs_counted : IsCounted 3 runs
unfolding locals_as_vec
runs_counted = refl

add_local-get_elem?_example :
    (get_elem? ((i32 ∷ []) ++ locals_as_vec (add_local i64 1 3 runs).2) (add_local i64 1 3 runs).0
      ≡ some i64)
    × (locals_as_vec (add_local i64 1 3 runs).2 ≡ locals_as_vec runs ++ i64 ∷ [])
    × IsCounted (add_local i64 1 3 runs).1 (add_local i64 1 3 runs).2
add_local-get_elem?_example = add_local-get_elem? i64 (i32 ∷ []) 3 runs runs_counted (omega arith)
