-- ===== src/ActualIds/Tests.antt =====
-- The theorems at three items that are encoded out of the order of their assumed IDs.
use wirm.Base.{ℕ, ◌+◌, ◌≡◌, refl, some, List, [], ◌∷◌, arith, IsDistinct}
use wirm.ActualIds.{default_tracker, lookup_actual_id}
use wirm.ActualIds.Laws.{
  assign_all, IsRenumbering, default-IsRenumbering, assign_all-IsRenumbering, assign_all-lookup,
}

abbrev order : List ℕ
order = 4 ∷ 0 ∷ 2 ∷ []

assign_all-IsRenumbering_example : IsRenumbering (assign_all default_tracker order)
assign_all-IsRenumbering_example =
    assign_all-IsRenumbering default_tracker order default-IsRenumbering

order-IsDistinct : IsDistinct order
order-IsDistinct = ground arith

assign_all-lookup_example : lookup_actual_id (assign_all default_tracker order) 2 ≡ some (0 + 2)
assign_all-lookup_example = assign_all-lookup default_tracker order 2 2 order-IsDistinct refl
