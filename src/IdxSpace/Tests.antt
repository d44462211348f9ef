-- ===== src/IdxSpace/Tests.antt =====
-- The theorems at a space with an import and an item that has two IDs.
use wirm.Base.{ℕ, ◌≡◌, refl, Option, some, length, get_elem?}
use wirm.Base.Maps.{get, insert}
use wirm.Space.{ComponentSection, main}
use wirm.IdxSpace.{
  IdxSpace, default_space, subtype_of, assign_assumed_id, index_from_assumed_id,
  index_from_assumed_id_no_cache, ids_of,
}
use wirm.IdxSpace.Slots.{slot, position}
use wirm.IdxSpace.Laws.{
  IsValid, default_space-IsValid, assign_assumed_id-IsValid, index_from_assumed_id-IsValid,
  index_from_assumed_id-no_cache, index_from_assumed_id-at, index_from_assumed_id-assign,
}

abbrev one_import : IdxSpace
one_import = (assign_assumed_id default_space ComponentSection.component_import 0).1

abbrev two_items : IdxSpace
two_items = (assign_assumed_id one_import ComponentSection.core_type 4).1

abbrev three_ids : IdxSpace
three_ids = (assign_assumed_id two_items ComponentSection.core_type 4).1

one_import-IsValid : IsValid one_import
one_import-IsValid =
    assign_assumed_id-IsValid default_space ComponentSection.component_import 0
      default_space-IsValid

two_items-IsValid : IsValid two_items
two_items-IsValid =
    assign_assumed_id-IsValid one_import ComponentSection.core_type 4 one_import-IsValid

last_stands : get_elem? (slot three_ids main 4) 1 ≡ some 2
unfolding assign_assumed_id ids_of get insert
last_stands = refl

three_counted : three_ids.current_id ≡ 3
unfolding assign_assumed_id
three_counted = refl

assign_assumed_id-IsValid_example : IsValid three_ids
assign_assumed_id-IsValid_example =
    assign_assumed_id-IsValid two_items ComponentSection.core_type 4 two_items-IsValid

index_from_assumed_id-IsValid_example : IsValid (index_from_assumed_id two_items 1).1
index_from_assumed_id-IsValid_example = index_from_assumed_id-IsValid two_items 1 two_items-IsValid

index_from_assumed_id-no_cache_example :
    (index_from_assumed_id three_ids 2).0 ≡ index_from_assumed_id_no_cache three_ids 2
index_from_assumed_id-no_cache_example = index_from_assumed_id-no_cache three_ids 2

index_from_assumed_id-at_example :
    (o : Option ℕ) × ((index_from_assumed_id three_ids 2).0 ≡ some (main, (4, o)))
    × (position o ≡ 1)
index_from_assumed_id-at_example =
    index_from_assumed_id-at three_ids 2 main 4 1
      (assign_assumed_id-IsValid two_items ComponentSection.core_type 4 two_items-IsValid)
      last_stands

index_from_assumed_id-assign_example :
    (o : Option ℕ) × ((index_from_assumed_id
        (assign_assumed_id two_items ComponentSection.alias_section 5).1
        (assign_assumed_id two_items ComponentSection.alias_section 5).0).0
      ≡ some (subtype_of ComponentSection.alias_section, (5, o)))
    × (position o ≡ length (slot two_items (subtype_of ComponentSection.alias_section) 5))
index_from_assumed_id-assign_example =
    index_from_assumed_id-assign two_items ComponentSection.alias_section 5 two_items-IsValid
